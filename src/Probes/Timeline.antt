-- ===== src/Probes/Timeline.antt =====
-- The liveness state against the list of all runs.
use docker_local.Common.{ℕ, ◌≡◌, refl, ap, Option, none, some, List, [], ◌∷◌, arith}
use docker_local.Common.Text.{Text}
use docker_local.Probes.State.{
  ProbeLoggingExecution, ProbeStatus, passed, failed, incomplete, other_status, no_execution,
  LivenessProbeLoggingState,
}
use docker_local.Probes.Socket.{
  ProbeLoggingSocket, capture_elapsed, complete_run, set_liveness, finish_liveness, liveness_event,
  dedup_log, handle_liveness_probe,
}

-- All runs so far, the newest first.
abbrev pub Timeline : Type 0
Timeline = List ProbeLoggingExecution

abbrev pub begin : ℕ → ProbeLoggingExecution → Timeline → Timeline
begin now e [] = e ∷ []
begin now e (run ∷ older) = e ∷ capture_elapsed now run ∷ older

abbrev pub complete : ProbeLoggingExecution → Timeline → Timeline
complete e [] = e ∷ []
complete e (run ∷ older) = complete_run e (some run) ∷ older

abbrev pub extend_by : ProbeStatus → ℕ → ProbeLoggingExecution → Timeline → Timeline
extend_by incomplete now e l = begin now e l
extend_by passed now e l = complete e l
extend_by failed now e l = complete e l
extend_by (other_status _) now e l = l

abbrev pub newest : Timeline → Option ProbeLoggingExecution
newest [] = none
newest (run ∷ l) = some run

abbrev pub run_at : Timeline → ProbeLoggingExecution
run_at [] = no_execution
run_at (run ∷ l) = run

abbrev pub tail : Timeline → Timeline
tail [] = []
tail (run ∷ l) = l

-- The state keeps the three newest runs.
abbrev pub keeps : Timeline → LivenessProbeLoggingState
keeps l = record {
  current_run = newest l;
  previous_run = run_at (tail l);
  run_before = run_at (tail (tail l));
}

-- The log does not touch the state.
pub dedup_log-state :
    (path level message type : Text) (ps : ProbeLoggingSocket)
    → (dedup_log path level message type ps).state ≡ ps.state
unfolding dedup_log
dedup_log-state path level message type ps = ground arith

pub record Keeps (l : Timeline) (ps : ProbeLoggingSocket) : Type 0 where
  pub kept : ps.state.liveness_state ≡ some (keeps l)

set_liveness-Keeps :
    (l : Timeline) (s : LivenessProbeLoggingState) (ps : ProbeLoggingSocket)
    → s ≡ keeps l
    → Keeps l (set_liveness s ps)
set_liveness-Keeps l s ps e = record { kept = ap some e }

finish_liveness-Keeps :
    (path : Text) (run : ProbeLoggingExecution) (older : Timeline) (s : LivenessProbeLoggingState)
    (ps : ProbeLoggingSocket)
    → record s { current_run = some run } ≡ keeps (run ∷ older)
    → Keeps (run ∷ older) (finish_liveness path run s ps)
finish_liveness-Keeps path run older s ps e = record { kept = rw dedup_log-state (ap some e) }

complete-Keeps :
    (e : ProbeLoggingExecution) (path : Text) (ps : ProbeLoggingSocket) (l : Timeline)
    → Keeps (complete e l) (finish_liveness path (complete_run e (newest l)) (keeps l) ps)
complete-Keeps e path ps [] = finish_liveness-Keeps path e [] (keeps []) ps refl
complete-Keeps e path ps (run ∷ older) =
    finish_liveness-Keeps path (complete_run e (some run)) older (keeps (run ∷ older)) ps refl

liveness_event-Keeps :
    (status : ProbeStatus) (now : ℕ) (e : ProbeLoggingExecution) (path : Text)
    (ps : ProbeLoggingSocket) (l : Timeline)
    → Keeps l ps
    → Keeps (extend_by status now e l) (liveness_event status now e path (some (keeps l)) ps)
liveness_event-Keeps incomplete now e path ps [] k = set_liveness-Keeps (e ∷ []) _ ps refl
liveness_event-Keeps incomplete now e path ps (run ∷ older) k =
    set_liveness-Keeps (e ∷ capture_elapsed now run ∷ older) _ ps refl
liveness_event-Keeps passed now e path ps l k = complete-Keeps e path ps l
liveness_event-Keeps failed now e path ps l k = complete-Keeps e path ps l
liveness_event-Keeps (other_status t) now e path ps l k = k

handle_liveness_probe-Keeps :
    (now : ℕ) (e : ProbeLoggingExecution) (path : Text) (ps : ProbeLoggingSocket) (l : Timeline)
    → Keeps l ps
    → Keeps (extend_by e.status now e l) (handle_liveness_probe now e path ps)
handle_liveness_probe-Keeps now e path ps l k =
    let event : handle_liveness_probe now e path ps
        ≡ liveness_event e.status now e path (some (keeps l)) ps =
      unfold handle_liveness_probe in ap (λ o. liveness_event e.status now e path o ps) k.kept in
    rw event (liveness_event-Keeps e.status now e path ps l k)

-- The messages of liveness probes with the times of their handling.
pub handle_liveness_probes :
    List (ℕ × ProbeLoggingExecution) → Text → ProbeLoggingSocket → ProbeLoggingSocket
handle_liveness_probes [] path ps = ps
handle_liveness_probes ((now, e) ∷ es) path ps =
    handle_liveness_probes es path (handle_liveness_probe now e path ps)

abbrev pub timeline : List (ℕ × ProbeLoggingExecution) → Timeline → Timeline
timeline [] l = l
timeline ((now, e) ∷ es) l = timeline es (extend_by e.status now e l)

-- If the state keeps the three newest runs of a list of runs (fewer, if there are fewer, and zero values in
-- place of previous runs that are missing), then after any messages of liveness probes it keeps
-- the three newest of the list that the messages extend: each that is incomplete begins a new run, and each
-- that passed or failed completes the newest run, or is the first.
pub handle_liveness_probes-Keeps :
    (es : List (ℕ × ProbeLoggingExecution)) (path : Text) (ps : ProbeLoggingSocket) (l : Timeline)
    → Keeps l ps
    → Keeps (timeline es l) (handle_liveness_probes es path ps)
unfolding handle_liveness_probes
handle_liveness_probes-Keeps [] path ps l k = k
handle_liveness_probes-Keeps ((now, e) ∷ es) path ps l k =
    handle_liveness_probes-Keeps es path (handle_liveness_probe now e path ps)
      (extend_by e.status now e l) (handle_liveness_probe-Keeps now e path ps l k)
