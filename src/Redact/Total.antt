-- ===== src/Redact/Total.antt =====
-- The loops of the redaction come to an end, and lose nothing of the text that they read.
use docker_local.Common.{
  ℕ, zero, suc, ◌≤◌, ◌<◌, ◌≡◌, refl, ap, ◌∙◌, true, false, [], ◌∷◌, ◌++◌, Option, some, length,
  arith, ◌||◌, length-append, append_assoc, ◌==◌, Bool-cases, inl, inr,
}
use docker_local.Common.Text.{Text}
use docker_local.Redact.Parameter.{
  Scan, in_string, find_end_of_parameter_string, parameter_loop, get_parameter_string, after_rune,
}
use docker_local.Redact.Loop.{Redactor, read_rune, emit_parameter, after_turn, main_loop}

find_end_splits :
    (m : Scan) (d : ℕ) (s : Text)
    → (find_end_of_parameter_string m d s).0 ++ (find_end_of_parameter_string m d s).1 ≡ s
unfolding find_end_of_parameter_string
find_end_splits m d [] = refl
find_end_splits m d (c ∷ s) = ground (arith, find_end_splits (after_rune m c) d s)

pub length-of-split : (p r s : Text) → p ++ r ≡ s → length r ≤ length s
length-of-split p r s e = omega (arith, ap length e, length-append p r)

-- The loop returns, and has read `read`.
pub record Reads (s : Text) (o : Option (Text × Text)) : Type 0 where
  pub read : Text
  pub rest : Text
  pub returns : o ≡ some (read, rest)
  pub splits : read ++ rest ≡ s

pub parameter_loop-Reads : (fuel : ℕ) (s : Text) → length s < fuel → Reads s (parameter_loop fuel s)
unfolding parameter_loop
parameter_loop-Reads zero s h = elim h [ ]
parameter_loop-Reads (suc fuel) [] h = record {
  read = [];
  rest = [];
  returns = refl;
  splits = refl;
}
parameter_loop-Reads (suc fuel) (c ∷ s) h = elim (Bool-cases (c == b')')) [
  | inl e ↦ record { read = c ∷ []; rest = s; returns = ground arith; splits = refl }
  | inr n ↦ elim (Bool-cases ((c == b'\'') || (c == b'"'))) [
    | inl q ↦
        (let e = find_end_splits in_string c s in
          let quoted = find_end_of_parameter_string in_string c s in
          let shorter = length-of-split quoted.0 quoted.1 s e in
          let r = parameter_loop-Reads fuel quoted.1 (omega arith) in
          record {
            read = c ∷ (quoted.0 ++ r.read);
            rest = r.rest;
            returns = rw (n, q, r.returns);
            splits =
                ap (◌∷◌ c) (append_assoc quoted.0 r.read r.rest ∙ ap (◌++◌ quoted.0) r.splits ∙ e);
          })
    | inr p ↦
        let r = parameter_loop-Reads fuel s (omega arith) in
        record {
          read = c ∷ r.read;
          rest = r.rest;
          returns = rw (n, p, r.returns);
          splits = ap (◌∷◌ c) r.splits;
        }
  ]
]

-- More fuel changes nothing.
pub parameter_loop-fuel :
    (f g : ℕ) (s : Text) → length s < f → length s < g → parameter_loop f s ≡ parameter_loop g s
unfolding parameter_loop
parameter_loop-fuel zero g s h k = elim h [ ]
parameter_loop-fuel (suc f) zero s h k = elim k [ ]
parameter_loop-fuel (suc f) (suc g) [] h k = refl
parameter_loop-fuel (suc f) (suc g) (c ∷ s) h k =
    let quoted = find_end_of_parameter_string in_string c s in
    let shorter = length-of-split quoted.0 quoted.1 s (find_end_splits in_string c s) in
    let same : parameter_loop f s ≡ parameter_loop g s =
      parameter_loop-fuel f g s (omega arith) (omega arith) in
    let same_quoted : parameter_loop f quoted.1 ≡ parameter_loop g quoted.1 =
      parameter_loop-fuel f g quoted.1 (omega arith) (omega arith) in
    rw (same, same_quoted)

-- A value begins with its parenthesis, and ends where the loop stops.
pub get_parameter_string-Reads :
    (s : Text)
    → (inner rest : Text) × (get_parameter_string s ≡ some (b'(' ∷ inner, rest))
      × (inner ++ rest ≡ s)
unfolding get_parameter_string
get_parameter_string-Reads s =
    let r = parameter_loop-Reads (suc (length s)) s (omega arith) in
    (r.read, r.rest, rw r.returns, r.splits)

-- A turn, when no value is to be read first.
pub main_loop-plain :
    (fuel : ℕ) (st : Redactor) (s : Text)
    → st.parameter_next ≡ false
    → main_loop (suc fuel) st s ≡ after_turn (main_loop fuel) (read_rune st s)
unfolding main_loop
main_loop-plain fuel st s p = rw p

-- A turn that reads a value first.
pub main_loop-value :
    (fuel : ℕ) (st : Redactor) (s value rest : Text)
    → st.parameter_next ≡ true
    → get_parameter_string s ≡ some (value, rest)
    → main_loop (suc fuel) st s
      ≡ after_turn (main_loop fuel) (read_rune (emit_parameter st value) rest)
unfolding main_loop
main_loop-value fuel st s value rest p e = rw (p, e)
