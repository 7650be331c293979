-- ===== src/Server/Runs.antt =====
-- What holds of the runs of any straight-line program.
use docker_local.Common.{
  ℕ, ◌≤◌, ◌≡◌, refl, sym, ◌∙◌, Bool, true, false, ◌&&◌, not, List, [], ◌∷◌, ◌++◌, append-nil,
  append_assoc, leb, arith, Bool-cases, inl, inr,
}
use docker_local.Server.Calls.{Call, Settings, World, fails}
use docker_local.Server.Steps.{
  OnError, terminate, refuse, proceed, Step, step, return_if, return_last_if, Ending, completed,
  returned, returned_last, failed, Run, stop, last_error, run,
}

abbrev pub calls_of : List Step → List Call
calls_of [] = []
calls_of (return_if condition ∷ steps) = calls_of steps
calls_of (return_last_if condition ∷ steps) = calls_of steps
calls_of (step on_error condition c ∷ steps) = c ∷ calls_of steps

-- Calls in ascending order, from a number on.
abbrev pub ascends : (Call → ℕ) → ℕ → List Call → Bool
ascends rank lo [] = true
ascends rank lo (c ∷ cs) = leb lo (rank c) && ascends rank (rank c) cs

ascends_from :
    (rank : Call → ℕ) (lo hi : ℕ) (cs : List Call)
    → lo ≤ hi
    → ascends rank hi cs ≡ true
    → ascends rank lo cs ≡ true
ascends_from rank lo hi [] h e = refl
ascends_from rank lo hi (c ∷ cs) h e = ground arith

-- The calls behind those that have been made.
pub record Ascending (rank : Call → ℕ) (lo : ℕ) (calls : List Call) (r : Run) : Type 0 where
  pub made : List Call
  pub extends : r.calls ≡ calls ++ made
  pub ascending : ascends rank lo made ≡ true

none_made :
    (rank : Call → ℕ) (lo : ℕ) (calls : List Call) (e : Ending) (t : Bool)
    → Ascending rank lo calls (record { ending = e; calls = calls; terminated = t })
none_made rank lo calls e t = record {
  made = [];
  extends = sym (append-nil calls);
  ascending = refl;
}

later :
    (rank : Call → ℕ) (lo hi : ℕ) (calls : List Call) (r : Run)
    → lo ≤ hi
    → Ascending rank hi calls r
    → Ascending rank lo calls r
later rank lo hi calls r h a = record {
  made = a.made;
  extends = a.extends;
  ascending = ascends_from rank lo hi a.made h a.ascending;
}

one_more :
    (rank : Call → ℕ) (lo : ℕ) (calls : List Call) (c : Call) (r : Run)
    → lo ≤ rank c
    → Ascending rank (rank c) (calls ++ c ∷ []) r
    → Ascending rank lo calls r
one_more rank lo calls c r h a = record {
  made = c ∷ a.made;
  extends = a.extends ∙ append_assoc calls (c ∷ []) a.made;
  ascending = let e = a.ascending in ground arith;
}

stop-Ascending :
    (rank : Call → ℕ) (lo : ℕ) (on_error : OnError) (c : Call) (calls : List Call) (rest : Run)
    → Ascending rank lo calls rest
    → Ascending rank lo calls (stop on_error c calls rest)
stop-Ascending rank lo terminate c calls rest a = none_made rank lo calls (failed c) true
stop-Ascending rank lo refuse c calls rest a = none_made rank lo calls (failed c) false
stop-Ascending rank lo proceed c calls rest a = a

-- A program whose calls stand in ascending order makes them in ascending order.
pub run-Ascending :
    (rank : Call → ℕ) (w : World) (s : Settings) (steps : List Step) (lo : ℕ) (calls : List Call)
    → ascends rank lo (calls_of steps) ≡ true
    → Ascending rank lo calls (run w s steps calls)
unfolding run
run-Ascending rank w s [] lo calls h = none_made rank lo calls completed false
run-Ascending rank w s (return_if condition ∷ steps) lo calls h = elim (Bool-cases (condition s)) [
  | inl e ↦ rw e (none_made rank lo calls returned false)
  | inr e ↦ rw e (run-Ascending rank w s steps lo calls h)
]
run-Ascending rank w s (return_last_if condition ∷ steps) lo calls h =
    elim (Bool-cases (condition s)) [
      | inl e ↦ rw e (none_made rank lo calls (returned_last (last_error w s [] calls)) true)
      | inr e ↦ rw e (run-Ascending rank w s steps lo calls h)
    ]
run-Ascending rank w s (step on_error condition c ∷ steps) lo calls h =
    let b : lo ≤ rank c = ground arith in
    let above : ascends rank (rank c) (calls_of steps) ≡ true = ground arith in
    let made = run-Ascending rank w s steps (rank c) (calls ++ c ∷ []) above in
    elim (Bool-cases (condition s)) [
      | inl e ↦ elim (Bool-cases (fails w s calls c)) [
        | inl f ↦
            rw (e, f)
              (one_more rank lo calls c _ b
                (stop-Ascending rank (rank c) on_error c (calls ++ c ∷ []) _ made))
        | inr f ↦ rw (e, f) (one_more rank lo calls c _ b made)
      ]
      | inr e ↦ rw e (
          run-Ascending rank w s steps lo calls
            (ascends_from rank lo (rank c) (calls_of steps) b above))
    ]

-- A termination message for every error but those that are refused; a missing name is an error.
abbrev pub is_told : (Call → Bool) → Ending → Bool
is_told silent (failed c) = not (silent c)
is_told silent completed = false
is_told silent returned = false
is_told silent (returned_last o) = true

abbrev pub tells : (Call → Bool) → List Step → Bool
tells silent [] = true
tells silent (return_if condition ∷ steps) = tells silent steps
tells silent (return_last_if condition ∷ steps) = tells silent steps
tells silent (step terminate condition c ∷ steps) = not (silent c) && tells silent steps
tells silent (step refuse condition c ∷ steps) = silent c && tells silent steps
tells silent (step proceed condition c ∷ steps) = tells silent steps

pub run-is_told :
    (silent : Call → Bool) (w : World) (s : Settings) (steps : List Step) (calls : List Call)
    → tells silent steps ≡ true
    → (run w s steps calls).terminated ≡ is_told silent (run w s steps calls).ending
unfolding run
run-is_told silent w s [] calls h = refl
run-is_told silent w s (return_if condition ∷ steps) calls h =
    ground (arith, run-is_told silent w s steps calls)
run-is_told silent w s (return_last_if condition ∷ steps) calls h =
    ground (arith, run-is_told silent w s steps calls)
run-is_told silent w s (step terminate condition c ∷ steps) calls h =
    ground
      (arith, run-is_told silent w s steps calls, run-is_told silent w s steps (calls ++ c ∷ []))
run-is_told silent w s (step refuse condition c ∷ steps) calls h =
    ground
      (arith, run-is_told silent w s steps calls, run-is_told silent w s steps (calls ++ c ∷ []))
run-is_told silent w s (step proceed condition c ∷ steps) calls h =
    ground
      (arith, run-is_told silent w s steps calls, run-is_told silent w s steps (calls ++ c ∷ []))
