-- ===== src/Redact/Fuel.antt =====
-- With more fuel than the text has runes, the main loop does not depend on the fuel.
use docker_local.Common.{ℕ, zero, suc, ◌<◌, ◌≡◌, refl, ◌∷◌, length, arith, Bool-cases, inl, inr}
use docker_local.Common.Text.{Text}
use docker_local.Redact.Loop.{
  Redactor, Turn, finished, again, read_rune, emit_parameter, after_turn, main_loop,
}
use docker_local.Redact.Total.{
  length-of-split, main_loop-plain, main_loop-value, get_parameter_string-Reads,
}
use docker_local.Redact.Segments.{Moves, read_rune-Moves}

abbrev SameFuel : ℕ → ℕ → Type 0
SameFuel f g =
    (st : Redactor) (s : Text) → length s < f → length s < g → main_loop f st s ≡ main_loop g st s

after_turn-fuel :
    (f g : ℕ) (st : Redactor) (s : Text)
    → SameFuel f g
    → length s < suc f
    → length s < suc g
    → (t : Turn) → Moves st s (length s) t
    → after_turn (main_loop f) t ≡ after_turn (main_loop g) t
after_turn-fuel f g st s ih h k (finished out) m = refl
after_turn-fuel f g st s ih h k (again st' s') (_, _, _, l, _) =
    ih st' s' (omega arith) (omega arith)

pub main_loop-fuel : (f g : ℕ) → SameFuel f g
unfolding emit_parameter
main_loop-fuel zero g st s h k = elim h [ ]
main_loop-fuel (suc f) zero st s h k = elim k [ ]
main_loop-fuel (suc f) (suc g) st s h k = elim (Bool-cases st.parameter_next) [
  | inl next ↦
      let (inner, rest, e, splits) = get_parameter_string-Reads s in
      let shorter = length-of-split inner rest s splits in
      let st' = emit_parameter st (b'(' ∷ inner) in
      rw (main_loop-value f st s _ rest next e, main_loop-value g st s _ rest next e)
        (after_turn-fuel f g st' rest (main_loop-fuel f g) (omega arith) (omega arith)
          (read_rune st' rest) (read_rune-Moves st' rest refl))
  | inr plain ↦
      rw (main_loop-plain f st s plain, main_loop-plain g st s plain)
        (after_turn-fuel f g st s (main_loop-fuel f g) h k (read_rune st s)
          (read_rune-Moves st s plain))
]
