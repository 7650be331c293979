-- ===== src/Common/Text.antt =====
-- Text as a list of code points (Go's runes), with the functions of Go's packages `strings` and
-- `unicode` that the program calls.
use Prim.Native.Nat.{ℕ, ◌+◌, ◌-◌}
use Prim.Native.Char.{code}
use Prim.Native.String.{String}
use mathlib.Core.Path.{◌≡◌, refl}
use mathlib.Core.Logic.{◌↔◌}
use mathlib.Core.Bool.{Bool, true, false, ◌&&◌, ◌||◌}
use mathlib.Core.List.{List, [], ◌∷◌, ◌++◌, map}
use native.Mathlib.Omega.{arith}
use docker_local.Common.Tests.{ltb, leb, ◌==◌, if◌then◌else◌}

abbrev pub Text : Type 0
Text = List ℕ

-- The code points of a literal. (`String` has its own `[]` and `∷`.)
abbrev pub codes : String → Text
codes String.[] = []
codes (String.◌∷◌ c s) = code c ∷ codes s

-- `==` on strings.
unfoldable pub text_eq : Text → Text → Bool
text_eq [] [] = true
text_eq [] (y ∷ ys) = false
text_eq (x ∷ xs) [] = false
text_eq (x ∷ xs) (y ∷ ys) = (x == y) && text_eq xs ys

pub text_eq_iff : (a b : Text) → (text_eq a b ≡ true) ↔ (a ≡ b)
unfolding text_eq
text_eq_iff [] [] = ground arith
text_eq_iff [] (y ∷ ys) = ground arith
text_eq_iff (x ∷ xs) [] = ground arith
text_eq_iff (x ∷ xs) (y ∷ ys) = ground (arith, text_eq_iff xs ys)

pub text_eq_refl : (a : Text) → text_eq a a ≡ true
text_eq_refl a = (text_eq_iff a a).1 refl

abbrev pub is_empty : Text → Bool
is_empty [] = true
is_empty (c ∷ s) = false

-- `len`: the bytes of the UTF-8 encoding.
abbrev pub width : ℕ → ℕ
width c = if ltb c 0x80 then 1 else if ltb c 0x800 then 2 else if ltb c 0x10000 then 3 else 4

abbrev pub len : Text → ℕ
len [] = 0
len (c ∷ s) = width c + len s

pub len-append : (s t : Text) → len (s ++ t) ≡ len s + len t
len-append [] t = omega arith
len-append (c ∷ s) t = omega (arith, len-append s t)

-- `unicode.IsSpace`.
unfoldable pub is_space : ℕ → Bool
is_space c =
    (leb 9 c && leb c 13)
    || (c == 32)
    || (c == 0x85)
    || (c == 0xA0)
    || (c == 0x1680)
    || (leb 0x2000 c && leb c 0x200A)
    || (c == 0x2028)
    || (c == 0x2029)
    || (c == 0x202F)
    || (c == 0x205F)
    || (c == 0x3000)

unfoldable pub trim_left : Text → Text
unfolding is_space
trim_left [] = []
trim_left (c ∷ s) = if is_space c then trim_left s else c ∷ s

-- Drops the white space at the end.
unfoldable pub cons_unless_blank : ℕ → Text → Text
unfolding is_space
cons_unless_blank c [] = if is_space c then [] else c ∷ []
cons_unless_blank c (d ∷ s) = c ∷ d ∷ s

unfoldable pub trim_right : Text → Text
unfolding cons_unless_blank
trim_right [] = []
trim_right (c ∷ s) = cons_unless_blank c (trim_right s)

-- `strings.TrimSpace`.
unfoldable pub trim_space : Text → Text
unfolding trim_left trim_right
trim_space s = trim_right (trim_left s)

-- `strings.HasPrefix` and `strings.Contains`.
unfoldable pub has_prefix : Text → Text → Bool
has_prefix s [] = true
has_prefix [] (p ∷ ps) = false
has_prefix (c ∷ s) (p ∷ ps) = (c == p) && has_prefix s ps

unfoldable pub contains : Text → Text → Bool
unfolding has_prefix
contains [] p = is_empty p
contains (c ∷ s) p = has_prefix (c ∷ s) p || contains s p

-- `strings.ToUpper`. U+0131 and U+017F are the runes outside ASCII whose upper case is an ASCII
-- letter; the others stay outside ASCII and are left alone here.
unfoldable pub to_upper_rune : ℕ → ℕ
to_upper_rune c =
    if leb b'a' c && leb c b'z'
    then c - 32
    else if c == 0x131
    then b'I'
    else if c == 0x17F
    then b'S'
    else c

unfoldable pub to_upper : Text → Text
unfolding to_upper_rune
to_upper = map to_upper_rune

-- `strings.ToLower`, where the runes outside ASCII with a lower case in ASCII are U+0130 and U+212A.
unfoldable pub to_lower_rune : ℕ → ℕ
to_lower_rune c =
    if leb b'A' c && leb c b'Z'
    then c + 32
    else if c == 0x130
    then b'i'
    else if c == 0x212A
    then b'k'
    else c

unfoldable pub to_lower : Text → Text
unfolding to_lower_rune
to_lower = map to_lower_rune

-- The folding of `strings.EqualFold`. U+017F folds with s, and U+212A with k.
unfoldable pub fold_rune : ℕ → ℕ
fold_rune c =
    if leb b'A' c && leb c b'Z'
    then c + 32
    else if c == 0x17F
    then b's'
    else if c == 0x212A
    then b'k'
    else c

unfoldable pub equal_fold : Text → Text → Bool
unfolding fold_rune
equal_fold [] [] = true
equal_fold [] (y ∷ ys) = false
equal_fold (x ∷ xs) [] = false
equal_fold (x ∷ xs) (y ∷ ys) = (fold_rune x == fold_rune y) && equal_fold xs ys

-- `strings.ReplaceAll` of one rune by one rune.
unfoldable pub replace_rune : ℕ → ℕ → Text → Text
replace_rune old new [] = []
replace_rune old new (c ∷ s) = (if c == old then new else c) ∷ replace_rune old new s

-- `strings.Split` at a one-rune separator: never the empty list.
unfoldable pub prepend : ℕ → List Text → List Text
prepend c [] = (c ∷ []) ∷ []
prepend c (w ∷ ws) = (c ∷ w) ∷ ws

unfoldable pub split : Text → ℕ → List Text
unfolding prepend
split [] sep = [] ∷ []
split (c ∷ s) sep = if c == sep then [] ∷ split s sep else prepend c (split s sep)

-- `strings.Join`.
unfoldable pub join : List Text → Text → Text
join [] sep = []
join (w ∷ []) sep = w
join (w ∷ v ∷ ws) sep = w ++ (sep ++ join (v ∷ ws) sep)

trim_right-append : (s : Text) (d : ℕ) → is_space d ≡ false → trim_right (s ++ d ∷ []) ≡ s ++ d ∷ []
unfolding trim_right
trim_right-append [] d h = rw h
trim_right-append (c ∷ []) d h = rw h
trim_right-append (c ∷ e ∷ s) d h = rw (trim_right-append (e ∷ s) d h)

-- A text that neither begins nor ends with white space is not trimmed.
pub trim_space_lem :
    (c d : ℕ) (s : Text)
    → is_space c ≡ false
    → is_space d ≡ false
    → trim_space (c ∷ (s ++ d ∷ [])) ≡ c ∷ (s ++ d ∷ [])
unfolding trim_space
trim_space_lem c d s hc hd = rw hc (trim_right-append (c ∷ s) d hd)

-- Does the text hold the rune?
abbrev pub has_rune : ℕ → Text → Bool
has_rune c [] = false
has_rune c (d ∷ s) = (d == c) || has_rune c s

pub split-word : (w : Text) (sep : ℕ) → has_rune sep w ≡ false → split w sep ≡ w ∷ []
unfolding split
split-word [] sep h = refl
split-word (c ∷ w) sep h = ground (arith, split-word w sep)

-- The first piece ends at the first separator.
pub split-separator :
    (w s : Text) (sep : ℕ) → has_rune sep w ≡ false → split (w ++ sep ∷ s) sep ≡ w ∷ split s sep
unfolding split
split-separator [] s sep h = ground arith
split-separator (c ∷ w) s sep h = ground (arith, split-separator w s sep)

-- `strings.HasSuffix`
unfoldable pub has_suffix : Text → Text → Bool
unfolding text_eq
has_suffix [] p = is_empty p
has_suffix (c ∷ s) p = text_eq (c ∷ s) p || has_suffix s p

-- `strings.TrimLeft`, `strings.TrimRight` and `strings.Trim`.
unfoldable pub trim_left_of : Text → Text → Text
trim_left_of [] cutset = []
trim_left_of (c ∷ s) cutset =
    let rest = trim_left_of s cutset in if has_rune c cutset then rest else c ∷ s

abbrev cons_unless_cut : ℕ → Text → Text → Text
cons_unless_cut c cutset [] = if has_rune c cutset then [] else c ∷ []
cons_unless_cut c cutset (d ∷ s) = c ∷ d ∷ s

unfoldable pub trim_right_of : Text → Text → Text
trim_right_of [] cutset = []
trim_right_of (c ∷ s) cutset = cons_unless_cut c cutset (trim_right_of s cutset)

unfoldable pub trim_of : Text → Text → Text
unfolding trim_left_of trim_right_of
trim_of s cutset = trim_right_of (trim_left_of s cutset) cutset
