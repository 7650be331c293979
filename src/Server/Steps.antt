-- ===== src/Server/Steps.antt =====
-- A straight-line program: calls with their conditions, one after the other, up to an error or an early return.
use docker_local.Common.{Bool, true, false, Option, none, some, List, [], ◌∷◌, ◌++◌, if◌then◌else◌}
use docker_local.Server.Calls.{Call, Settings, World, fails}

-- What is done about an error: it is returned behind a termination message, it is returned with a line in the log only, or
-- it is logged and the program goes on.
pub data OnError : Type 0 where
  terminate refuse proceed : OnError

-- `if condition { err = call; if err != nil … }`, `if condition { return nil }`, and the return of
-- the variable `err`, whatever it holds, behind a termination message with it.
pub data Step : Type 0 where
  step : OnError → (Settings → Bool) → Call → Step
  return_if : (Settings → Bool) → Step
  return_last_if : (Settings → Bool) → Step

abbrev pub always : Settings → Bool
always s = true

-- A call that has to succeed.
abbrev pub must : Call → Step
must c = step terminate always c

abbrev pub must_if : (Settings → Bool) → Call → Step
must_if condition c = step terminate condition c

-- How a run of the program ended.
pub data Ending : Type 0 where
  completed returned : Ending
  returned_last : Option Call → Ending
  failed : Call → Ending

-- The calls in order, and whether a termination message has been written.
pub record Run : Type 0 where
  pub ending : Ending
  pub calls : List Call
  pub terminated : Bool

abbrev pub stop : OnError → Call → List Call → Run → Run
stop terminate c calls rest = record { ending = failed c; calls = calls; terminated = true }
stop refuse c calls rest = record { ending = failed c; calls = calls; terminated = false }
stop proceed c calls rest = rest

-- The variable `err` of the program behind its calls: the error of the last one, if that failed. (`before` are the calls in front
-- of them.)
unfoldable pub last_error : World → Settings → List Call → List Call → Option Call
last_error w s before [] = none
last_error w s before (c ∷ []) = if fails w s before c then some c else none
last_error w s before (c ∷ d ∷ behind) = last_error w s (before ++ c ∷ []) (d ∷ behind)

unfoldable pub run : World → Settings → List Step → List Call → Run
run w s [] calls = record { ending = completed; calls = calls; terminated = false }
run w s (return_if condition ∷ steps) calls =
    let rest = run w s steps calls in
    if condition s then record { ending = returned; calls = calls; terminated = false } else rest
run w s (return_last_if condition ∷ steps) calls =
    let rest = run w s steps calls in
    if condition s
    then record {
      ending = returned_last (last_error w s [] calls);
      calls = calls;
      terminated = true;
    }
    else rest
run w s (step on_error condition c ∷ steps) calls =
    let made = run w s steps (calls ++ c ∷ []) in
    let skipped = run w s steps calls in
    if condition s
    then (if fails w s calls c then stop on_error c (calls ++ c ∷ []) made else made)
    else skipped
