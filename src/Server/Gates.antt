-- ===== src/Server/Gates.antt =====
-- A call that has to succeed is a gate: nothing behind it happens unless it is made with success.
use docker_local.Common.{
  ◌≡◌, refl, ◌∙◌, Bool, true, false, ◌&&◌, not, List, [], ◌∷◌, ◌++◌, append_assoc, all, all-append,
  any, any-append, arith, Bool-cases, inl, inr,
}
use docker_local.Server.Calls.{Call, Settings, World, fails}
use docker_local.Server.Steps.{
  OnError, terminate, refuse, proceed, Step, step, return_if, return_last_if, must, Run, stop, run,
}
use docker_local.Server.Program.{exit_code_of}
use docker_local.Server.Runs.{calls_of, ascends, run-Ascending}

zero_ascends : (cs : List Call) → ascends (λ c. 0) 0 cs ≡ true
zero_ascends [] = refl
zero_ascends (c ∷ cs) = ground (arith, zero_ascends cs)

-- A run adds calls, and takes none away.
pub run-extends :
    (w : World) (s : Settings) (steps : List Step) (calls : List Call)
    → (made : List Call) × ((run w s steps calls).calls ≡ calls ++ made)
run-extends w s steps calls =
    let a = run-Ascending (λ c. 0) w s steps 0 calls (zero_ascends (calls_of steps)) in
    (a.made, a.extends)

all_one_more :
    (p : Call → Bool) (calls : List Call) (c : Call)
    → all p calls ≡ true
    → p c ≡ true
    → all p (calls ++ c ∷ []) ≡ true
all_one_more p calls c h e = rw (all-append p calls (c ∷ []), h, e) refl

stop-all :
    (p : Call → Bool) (o : OnError) (c : Call) (calls : List Call) (r : Run)
    → all p calls ≡ true
    → all p r.calls ≡ true
    → all p (stop o c calls r).calls ≡ true
stop-all p terminate c calls r h k = h
stop-all p refuse c calls r h k = h
stop-all p proceed c calls r h k = k

-- The calls made are calls of the program.
pub run-all :
    (p : Call → Bool) (w : World) (s : Settings) (steps : List Step) (calls : List Call)
    → all p calls ≡ true
    → all p (calls_of steps) ≡ true
    → all p (run w s steps calls).calls ≡ true
unfolding run
run-all p w s [] calls h k = h
run-all p w s (return_if condition ∷ steps) calls h k = ground (arith, run-all p w s steps calls)
run-all p w s (return_last_if condition ∷ steps) calls h k =
    ground (arith, run-all p w s steps calls)
run-all p w s (step on_error condition c ∷ steps) calls h k =
    let e : p c ≡ true = ground arith in
    let rest : all p (calls_of steps) ≡ true = ground arith in
    let more = all_one_more p calls c h e in
    elim (Bool-cases (condition s)) [
      | inl yes_ ↦ elim (Bool-cases (fails w s calls c)) [
        | inl f ↦
            rw (yes_, f)
              (stop-all p on_error c (calls ++ c ∷ []) (run w s steps (calls ++ c ∷ [])) more
                (run-all p w s steps (calls ++ c ∷ []) more rest))
        | inr f ↦ rw (yes_, f) (run-all p w s steps (calls ++ c ∷ []) more rest)
      ]
      | inr no_ ↦ rw no_ (run-all p w s steps calls h rest)
    ]

-- A gate that is shut ends the run.
pub run-shut :
    (w : World) (s : Settings) (xs ys : List Step) (c : Call) (calls : List Call)
    → ((h : List Call) → fails w s h c ≡ true)
    → run w s (xs ++ must c ∷ ys) calls ≡ run w s (xs ++ must c ∷ []) calls
unfolding run
run-shut w s [] ys c calls shut = rw (shut calls) refl
run-shut w s (return_if condition ∷ xs) ys c calls shut = rw (run-shut w s xs ys c calls shut) refl
run-shut w s (return_last_if condition ∷ xs) ys c calls shut =
    rw (run-shut w s xs ys c calls shut) refl
run-shut w s (step o condition d ∷ xs) ys c calls shut =
    rw (run-shut w s xs ys c calls shut, run-shut w s xs ys c (calls ++ d ∷ []) shut) refl

-- So does an early return.
pub run_return_last :
    (w : World) (s : Settings) (xs ys : List Step) (p : Settings → Bool) (calls : List Call)
    → p s ≡ true
    → run w s (xs ++ return_last_if p ∷ ys) calls ≡ run w s (xs ++ return_last_if p ∷ []) calls
unfolding run
run_return_last w s [] ys p calls e = rw e refl
run_return_last w s (return_if condition ∷ xs) ys p calls e =
    rw (run_return_last w s xs ys p calls e) refl
run_return_last w s (return_last_if condition ∷ xs) ys p calls e =
    rw (run_return_last w s xs ys p calls e) refl
run_return_last w s (step o condition d ∷ xs) ys p calls e =
    rw (run_return_last w s xs ys p calls e, run_return_last w s xs ys p (calls ++ d ∷ []) e) refl

-- No early return in the settings.
abbrev pub stays : Settings → List Step → Bool
stays s [] = true
stays s (return_if condition ∷ steps) = not (condition s) && stays s steps
stays s (return_last_if condition ∷ steps) = not (condition s) && stays s steps
stays s (step o condition c ∷ steps) = stays s steps

pub run_shut-exit_code :
    (w : World) (s : Settings) (xs : List Step) (c : Call) (calls : List Call)
    → ((h : List Call) → fails w s h c ≡ true)
    → stays s xs ≡ true
    → exit_code_of (run w s (xs ++ must c ∷ []) calls).ending ≡ 1
unfolding run
run_shut-exit_code w s [] c calls shut h = rw (shut calls) refl
run_shut-exit_code w s (return_if condition ∷ xs) c calls shut h =
    ground (arith, run_shut-exit_code w s xs c calls shut)
run_shut-exit_code w s (return_last_if condition ∷ xs) c calls shut h =
    ground (arith, run_shut-exit_code w s xs c calls shut)
run_shut-exit_code w s (step terminate condition d ∷ xs) c calls shut h = ground (
  arith,
  run_shut-exit_code w s xs c calls shut,
  run_shut-exit_code w s xs c (calls ++ d ∷ []) shut,
)
run_shut-exit_code w s (step refuse condition d ∷ xs) c calls shut h = ground (
  arith,
  run_shut-exit_code w s xs c calls shut,
  run_shut-exit_code w s xs c (calls ++ d ∷ []) shut,
)
run_shut-exit_code w s (step proceed condition d ∷ xs) c calls shut h = ground (
  arith,
  run_shut-exit_code w s xs c calls shut,
  run_shut-exit_code w s xs c (calls ++ d ∷ []) shut,
)

-- A call has been made with success, behind the calls `before`.
pub record Passed (w : World) (s : Settings) (c : Call) (calls : List Call) : Type 0 where
  pub before : List Call
  pub behind : List Call
  pub made : calls ≡ before ++ c ∷ behind
  pub succeeded : fails w s before c ≡ false

any_none :
    (p : Call → Bool) (calls : List Call) (c : Call)
    → any p calls ≡ false
    → p c ≡ false
    → any p (calls ++ c ∷ []) ≡ false
any_none p calls c h e = rw (any-append p calls (c ∷ []), h, e) refl

stop-Passed :
    (p : Call → Bool) (w : World) (s : Settings) (c : Call) (o : OnError) (d : Call)
    (made : List Call) (r : Run)
    → any p made ≡ false
    → (any p r.calls ≡ true → Passed w s c r.calls)
    → any p (stop o d made r).calls ≡ true
    → Passed w s c (stop o d made r).calls
stop-Passed p w s c terminate d made r n ih a = cc
stop-Passed p w s c refuse d made r n ih a = cc
stop-Passed p w s c proceed d made r n ih a = ih a

-- What is behind a gate happens only once the gate has been passed.
pub run-Passed :
    (p : Call → Bool) (w : World) (s : Settings) (xs ys : List Step) (c : Call) (calls : List Call)
    → any p calls ≡ false
    → any p (calls_of xs) ≡ false
    → p c ≡ false
    → any p (run w s (xs ++ must c ∷ ys) calls).calls ≡ true
    → Passed w s c (run w s (xs ++ must c ∷ ys) calls).calls
unfolding run
run-Passed p w s [] ys c calls h k e a = elim (Bool-cases (fails w s calls c)) [
  | inl f ↦ let n = any_none p calls c h e in let b = rw f at a in cc
  | inr f ↦
      let (made, x) = run-extends w s ys (calls ++ c ∷ []) in
      rw f (record {
        before = calls;
        behind = made;
        made = x ∙ append_assoc calls (c ∷ []) made;
        succeeded = f;
      })
]
run-Passed p w s (return_if condition ∷ xs) ys c calls h k e a = elim (Bool-cases (condition s)) [
  | inl f ↦ let b = rw f at a in cc
  | inr f ↦ rw f (run-Passed p w s xs ys c calls h k e (rw f at a))
]
run-Passed p w s (return_last_if condition ∷ xs) ys c calls h k e a =
    elim (Bool-cases (condition s)) [
      | inl f ↦ let b = rw f at a in cc
      | inr f ↦ rw f (run-Passed p w s xs ys c calls h k e (rw f at a))
    ]
run-Passed p w s (step o condition d ∷ xs) ys c calls h k e a =
    let q : p d ≡ false = ground arith in
    let rest : any p (calls_of xs) ≡ false = ground arith in
    let n = any_none p calls d h q in
    elim (Bool-cases (condition s)) [
      | inr f ↦ rw f (run-Passed p w s xs ys c calls h rest e (rw f at a))
      | inl f ↦ elim (Bool-cases (fails w s calls d)) [
        | inr g ↦ rw (f, g) (run-Passed p w s xs ys c (calls ++ d ∷ []) n rest e (rw (f, g) at a))
        | inl g ↦
            rw (f, g)
              (stop-Passed p w s c o d (calls ++ d ∷ [])
                (run w s (xs ++ must c ∷ ys) (calls ++ d ∷ [])) n
                (run-Passed p w s xs ys c (calls ++ d ∷ []) n rest e) (rw (f, g) at a))
      ]
    ]
