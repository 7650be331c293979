-- ===== src/Tls/InitialKey.antt =====
-- mq-container-master/internal/tls/tls_web.go: `trimKey` takes the first run of valid characters of a key and clears the rest.
use docker_local.Common.{
  ℕ, zero, suc, ◌+◌, ◌-◌, ◌<◌, ◌≡◌, refl, sym, ap, ◌∙◌, Bool, true, false, ◌||◌, not, Option, none,
  some, [], ◌∷◌, ◌++◌, length, all, ◌==◌, ltb, leb, take, drop, length-append, append_assoc,
  append-nil, if◌then◌else◌, arith,
}
use docker_local.Common.Text.{Text}

abbrev pub is_valid_char : ℕ → Bool
is_valid_char b = not (b == 10 || b == 32 || b == 0)

-- The first loop: `startingMarker`.
unfoldable pub starting_marker : Text → ℕ
starting_marker [] = 0
starting_marker (b ∷ key) =
    let rest = starting_marker key in if is_valid_char b then 0 else rest + 1

-- The second loop, over the bytes behind `startingMarker`: how far `finalMarker` gets.
unfoldable pub valid_length : Text → ℕ
valid_length [] = 0
valid_length (b ∷ key) = let rest = valid_length key in if is_valid_char b then rest + 1 else 0

-- The bytes from the one index up to the other are cleared.
unfoldable pub zeros : Text → Text
zeros [] = []
zeros (b ∷ key) = 0 ∷ zeros key

abbrev pub clear_to : ℕ → Text → Text
clear_to n key = zeros (take n key) ++ drop n key

abbrev pub clear_from : ℕ → Text → Text
clear_from n key = take n key ++ zeros (drop n key)

abbrev pub slice : Text → ℕ → ℕ → Text
slice key m n = take (n - m) (drop m key)

-- What is left of the buffer, and the part of it that is the key.
abbrev pub between : ℕ → ℕ → Text → Option Text × Text
between start final key =
    if ltb (final - start) 1
    then (none, clear_from final key)
    else (some (slice (clear_from final key) start final), clear_from final key)

unfoldable pub trim_key : Text → Option Text × Text
unfolding starting_marker valid_length zeros
trim_key key =
    let start = starting_marker key in
    let cleared = clear_to start key in
    let final = start + 1 + valid_length (drop (start + 1) cleared) in
    if leb (length key) start then (none, cleared) else between start final cleared

-- Not a valid character.
abbrev pub is_cut : ℕ → Bool
is_cut b = not (is_valid_char b)

abbrev pub stops : Text → Bool
stops [] = true
stops (b ∷ key) = is_cut b

take-append : (n : ℕ) (s t : Text) → n ≡ length s → take n (s ++ t) ≡ s
take-append zero [] t e = refl
take-append zero (c ∷ s) t e = absurd (omega arith)
take-append (suc n) [] t e = absurd (omega arith)
take-append (suc n) (c ∷ s) t e = ap (λ r. c ∷ r) (take-append n s t (omega arith))

drop-append : (n : ℕ) (s t : Text) → n ≡ length s → drop n (s ++ t) ≡ t
drop-append zero [] t e = refl
drop-append zero (c ∷ s) t e = absurd (omega arith)
drop-append (suc n) [] t e = absurd (omega arith)
drop-append (suc n) (c ∷ s) t e = drop-append n s t (omega arith)

length-zeros : (s : Text) → length (zeros s) ≡ length s
unfolding zeros
length-zeros [] = refl
length-zeros (c ∷ s) = ap suc (length-zeros s)

starting_marker-append :
    (lead : Text) (c : ℕ) (s : Text)
    → all is_cut lead ≡ true
    → is_valid_char c ≡ true
    → starting_marker (lead ++ c ∷ s) ≡ length lead
unfolding starting_marker
starting_marker-append [] c s h v = rw v refl
starting_marker-append (b ∷ lead) c s h v =
    let first : is_valid_char b ≡ false = ground arith in
    let rest = starting_marker-append lead c s (ground arith) v in rw (first, rest) (omega arith)

valid_length-append :
    (run rest : Text)
    → all is_valid_char run ≡ true
    → stops rest ≡ true
    → valid_length (run ++ rest) ≡ length run
unfolding valid_length
valid_length-append [] [] h v = refl
valid_length-append [] (b ∷ rest) h v =
    let first : is_valid_char b ≡ false = ground arith in rw first refl
valid_length-append (c ∷ run) rest h v =
    let first : is_valid_char c ≡ true = ground arith in
    let behind = valid_length-append run rest (ground arith) v in rw (first, behind) (omega arith)

drop-append_one : (n : ℕ) (s : Text) (c : ℕ) (t : Text) → n ≡ length s + 1 → drop n (s ++ c ∷ t) ≡ t
drop-append_one zero s c t e = absurd (omega arith)
drop-append_one (suc zero) [] c t e = refl
drop-append_one (suc (suc n)) [] c t e = absurd (omega arith)
drop-append_one (suc n) (d ∷ s) c t e = drop-append_one n s c t (omega arith)

clear_from-append :
    (n : ℕ) (s run rest : Text)
    → n ≡ length s + length run
    → clear_from n (s ++ (run ++ rest)) ≡ s ++ (run ++ zeros rest)
clear_from-append n s run rest e =
    let whole : n ≡ length (s ++ run) = e ∙ sym (length-append s run) in
    let front = take-append n (s ++ run) rest whole in
    let back = drop-append n (s ++ run) rest whole in
    ap (clear_from n) (sym (append_assoc s run rest))
    ∙ rw (front, back) refl
    ∙ append_assoc s run (zeros rest)

between-append :
    (start final : ℕ) (s run rest : Text)
    → start ≡ length s
    → final ≡ length s + length run
    → ltb 0 (length run) ≡ true
    → between start final (s ++ (run ++ rest)) ≡ (some run, s ++ (run ++ zeros rest))
between-append start final s run rest e f h =
    let long : ltb (final - start) 1 ≡ false = ground arith in
    let cleared = clear_from-append final s run rest f in
    let behind = drop-append start s (run ++ zeros rest) e in
    let key = take-append (final - start) run (zeros rest) (omega arith) in
    rw (long, cleared, behind, key) refl

-- A key that is invalid characters, then a run of valid ones, and then nothing or something that begins with an invalid character is
-- trimmed to the run; in the buffer everything else is cleared.
pub trim_key-run :
    (lead : Text) (c : ℕ) (run rest : Text)
    → all is_cut lead ≡ true
    → is_valid_char c ≡ true
    → all is_valid_char run ≡ true
    → stops rest ≡ true
    → trim_key (lead ++ (c ∷ (run ++ rest)))
      ≡ (some (c ∷ run), zeros lead ++ (c ∷ (run ++ zeros rest)))
unfolding trim_key
trim_key-run lead c run rest a v b s =
    let start = starting_marker-append lead c (run ++ rest) a v in
    let long : leb (length (lead ++ (c ∷ (run ++ rest)))) (length lead) ≡ false =
      let l = length-append lead (c ∷ (run ++ rest)) in
      let m : 0 < length (c ∷ (run ++ rest)) = omega arith in ground arith in
    let front = take-append (length lead) lead (c ∷ (run ++ rest)) refl in
    let back = drop-append (length lead) lead (c ∷ (run ++ rest)) refl in
    let behind =
      drop-append_one (length lead + 1) (zeros lead) c (run ++ rest)
        (ap (λ n. n + 1) (sym (length-zeros lead))) in
    let valid = valid_length-append run rest b s in
    let ends : length lead + 1 + length run ≡ length (zeros lead) + length (c ∷ run) =
      omega (arith, length-zeros lead) in
    rw (start, long, front, back, behind, valid)
      (between-append (length lead) (length lead + 1 + length run) (zeros lead) (c ∷ run) rest
        (sym (length-zeros lead)) ends (ground arith))

starting_marker-cut : (key : Text) → all is_cut key ≡ true → starting_marker key ≡ length key
unfolding starting_marker
starting_marker-cut [] h = refl
starting_marker-cut (b ∷ key) h =
    let first : is_valid_char b ≡ false = ground arith in
    let rest = starting_marker-cut key (ground arith) in rw (first, rest) (omega arith)

-- If no character of the key is valid, then there is no key, and all of the buffer is cleared.
pub trim_key-cut : (key : Text) → all is_cut key ≡ true → trim_key key ≡ (none, zeros key)
unfolding trim_key
trim_key-cut key h =
    let start = starting_marker-cut key h in
    let long : leb (length key) (length key) ≡ true = ground arith in
    let front =
      ap (take (length key)) (sym (append-nil key)) ∙ take-append (length key) key [] refl in
    let back =
      ap (drop (length key)) (sym (append-nil key)) ∙ drop-append (length key) key [] refl in
    rw (start, long, front, back) (ap (λ b. (none, b)) (append-nil (zeros key)))
