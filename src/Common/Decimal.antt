-- ===== src/Common/Decimal.antt =====
-- Go's `strconv`: decimal numbers as text, and back.
use mathlib.Core.List.{concat-ne-nil}
use docker_local.Common.{
  ℕ, zero, suc, ◌+◌, ◌-◌, ◌*◌, ◌/◌, ◌%◌, ◌^◌, ◌<◌, ◌≡◌, refl, ◌∙◌, Bool, true, false, ◌&&◌, Option,
  none, some, [], ◌∷◌, ◌++◌, ◌==◌, ltb, leb, if◌then◌else◌, arith, all, all-append, ◌≢◌, Bool-cases,
  inl, inr, ◌⊎◌,
}
use docker_local.Common.Text.{Text, has_rune}

-- `strconv.Itoa` of a number that is not negative. Each round drops a digit, so more fuel than the number
-- is enough.
unfoldable pub decimal_from : ℕ → ℕ → Text
decimal_from zero n = []
decimal_from (suc fuel) n =
    let rest = decimal_from fuel (n / 10) ++ (48 + n % 10) ∷ [] in
    if ltb n 10 then (48 + n) ∷ [] else rest

unfoldable pub decimal : ℕ → Text
unfolding decimal_from
decimal n = decimal_from (suc n) n

abbrev pub is_digit : ℕ → Bool
is_digit c = leb b'0' c && leb c b'9'

unfoldable pub digits_value : ℕ → Text → Option ℕ
digits_value value [] = some value
digits_value value (c ∷ s) =
    let rest = digits_value (value * 10 + (c - 48)) s in if is_digit c then rest else none

-- At least one digit, and nothing else.
unfoldable pub magnitude : Text → Option ℕ
unfolding digits_value
magnitude [] = none
magnitude (c ∷ s) = digits_value 0 (c ∷ s)

-- An `int64`: its sign, and its absolute value.
pub record Signed : Type 0 where
  pub negative : Bool
  pub absolute : ℕ

abbrev pub int_limit : ℕ
int_limit = 2 ^ 63

abbrev in_range : Bool → Option ℕ → Option Signed
in_range negative none = none
in_range negative (some n) =
    if ltb n (if negative then int_limit + 1 else int_limit)
    then some (record { negative = negative; absolute = n })
    else none

-- `strconv.Atoi`, and `strconv.ParseInt` with base 10 and 64 bits: `none` is an error.
unfoldable pub parse_int : Text → Option Signed
unfolding magnitude
parse_int [] = none
parse_int (c ∷ s) =
    if c == b'+'
    then in_range false (magnitude s)
    else if c == b'-'
    then in_range true (magnitude s)
    else in_range false (magnitude (c ∷ s))

abbrev then_digit : ℕ → Option ℕ → Option ℕ
then_digit c none = none
then_digit c (some n) = if is_digit c then some (n * 10 + (c - 48)) else none

digits_value-concat :
    (s : Text) (value c : ℕ)
    → digits_value value (s ++ c ∷ []) ≡ then_digit c (digits_value value s)
unfolding digits_value
digits_value-concat [] value c = refl
digits_value-concat (d ∷ s) value c =
    ground (arith, digits_value-concat s (value * 10 + (d - 48)) c)

digits_value-decimal_from : (f n : ℕ) → n < f → digits_value 0 (decimal_from f n) ≡ some n
unfolding decimal_from
digits_value-decimal_from zero n h = elim h [ ]
digits_value-decimal_from (suc f) n h = elim (Bool-cases (ltb n 10)) [
  | inl small ↦ rw small (unfold digits_value in ground arith)
  | inr large ↦ rw large (
      digits_value-concat (decimal_from f (n / 10)) 0 (48 + n % 10)
      ∙ (rw (digits_value-decimal_from f (n / 10) (ground arith)) (ground arith)))
]

decimal_from-digits : (f n : ℕ) → all is_digit (decimal_from f n) ≡ true
unfolding decimal_from
decimal_from-digits zero n = refl
decimal_from-digits (suc f) n = elim (Bool-cases (ltb n 10)) [
  | inl small ↦ rw small (ground arith)
  | inr large ↦ rw large (
      ground (
        arith,
        all-append is_digit (decimal_from f (n / 10)) ((48 + n % 10) ∷ []),
        decimal_from-digits f (n / 10),
      ))
]

abbrev IsPrinted : ℕ → Text → Type 0
IsPrinted n [] = ⊥
IsPrinted n (c ∷ s) = (is_digit c ≡ true) × (digits_value 0 (c ∷ s) ≡ some n)

IsPrinted-of :
    (n : ℕ) (s : Text) → all is_digit s ≡ true → digits_value 0 s ≡ some n → s ≢ [] → IsPrinted n s
IsPrinted-of n [] a v ne = ne refl
IsPrinted-of n (c ∷ s) a v ne = (ground arith, v)

pub decimal-ne-nil : (n : ℕ) → decimal n ≢ []
unfolding decimal
decimal-ne-nil n e = elim (Bool-cases (ltb n 10)) [
  | inl small ↦ let e' = rw small at e in cc
  | inr large ↦ concat-ne-nil (48 + n % 10) (decimal_from n (n / 10)) (rw large at e)
]

parse_int-IsPrinted :
    (n : ℕ) (s : Text)
    → IsPrinted n s
    → n < int_limit
    → parse_int s ≡ some (record { negative = false; absolute = n })
unfolding parse_int
parse_int-IsPrinted n [] p h = absurd p
parse_int-IsPrinted n (c ∷ s) (d, v) h = ground arith

-- Reading a printed number gives the number, if it is in range.
pub parse_int-decimal :
    (n : ℕ)
    → n < int_limit
    → parse_int (decimal n) ≡ some (record { negative = false; absolute = n })
parse_int-decimal n h =
    parse_int-IsPrinted n (decimal n)
      (IsPrinted-of n (decimal n) (unfold decimal in decimal_from-digits (suc n) n)
        (unfold decimal in digits_value-decimal_from (suc n) n (omega arith)) (decimal-ne-nil n))
      h

has_rune-digits : (s : Text) → all is_digit s ≡ true → has_rune b'.' s ≡ false
has_rune-digits [] h = refl
has_rune-digits (c ∷ s) h = ground (arith, has_rune-digits s)

-- A printed number has no dot.
pub has_rune-decimal : (n : ℕ) → has_rune b'.' (decimal n) ≡ false
unfolding decimal
has_rune-decimal n = has_rune-digits (decimal_from (suc n) n) (decimal_from-digits (suc n) n)

in_range-bound :
    (negative : Bool) (o : Option ℕ) {x : Signed}
    → in_range negative o ≡ some x
    → (x.absolute < int_limit) ⊎ (x.negative ≡ true)
in_range-bound negative none h = cc
in_range-bound false (some n) h = ground arith
in_range-bound true (some n) h = ground arith

-- A number that was read and has no minus sign is in range.
pub parse_int-bound :
    (s : Text) {x : Signed} → parse_int s ≡ some x → (x.absolute < int_limit) ⊎ (x.negative ≡ true)
unfolding parse_int
parse_int-bound [] h = cc
parse_int-bound (c ∷ s) h = ground (
  arith,
  in_range-bound false (magnitude s),
  in_range-bound true (magnitude s),
  in_range-bound false (magnitude (c ∷ s)),
)
