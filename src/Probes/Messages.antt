-- ===== src/Probes/Messages.antt =====
-- From the result of a probe to the line in the log.
use docker_local.Common.{
  ℕ, ◌≡◌, refl, ap, ◌∙◌, Bool, true, false, Option, none, some, List, [], ◌∷◌, ◌++◌, ◌⊎◌, inl, inr,
}
use docker_local.Common.Text.{Text, codes}
use mathlib.Core.Path.{ap₂}
use docker_local.Probes.Dedup.{dedup_log-liveness_error, logged}
use docker_local.Probes.State.{
  ProbeLoggingExecution, ProbeType, liveness, startup, other_type, ProbeStatus, failed, error,
  LivenessProbeLoggingState, build_liveness_probe_failure_message,
}
use docker_local.Probes.Execution.{log_liveness_probe_message, build_liveness_probe_output_message}
use docker_local.Probes.Socket.{
  go_on, then_lines, ProbeLoggingSocket, log_run, complete_run, set_liveness, finish_liveness,
  liveness_event, errored, handle_liveness_probe, handle_startup_probe, Message, malformed, null,
  execution_of, handle_connection, handle_execution,
}

-- Why a probe failed.
abbrev pub reason : Option Text → Text
reason none = codes "QueueManager is not healthy"
reason (some e) = e

abbrev pub IsLiveness : Option ProbeLoggingExecution → Type 0
IsLiveness none = Unit {0}
IsLiveness (some run) = run.probe_type ≡ liveness

record Failed (type : ProbeType) (message : Text) (x : ProbeLoggingExecution) : Type 0 where
  status_is : x.status ≡ failed
  level_is : x.log_level ≡ error
  type_is : x.probe_type ≡ type
  message_is : x.log_message ≡ message

log_liveness_probe_message-Failed :
    (pe : ProbeLoggingExecution) (start stop : ℕ) (healthy : Bool) (out : Text) (e : Option Text)
    → (healthy ≡ false) ⊎ ((t : Text) × (e ≡ some t))
    → Failed pe.probe_type
        (build_liveness_probe_failure_message (reason e) (build_liveness_probe_output_message out))
        (log_liveness_probe_message pe start stop healthy out e)
unfolding log_liveness_probe_message
log_liveness_probe_message-Failed pe start stop healthy out (some t) bad = record {
  status_is = refl;
  level_is = refl;
  type_is = refl;
  message_is = refl;
}
log_liveness_probe_message-Failed pe start stop false out none bad = record {
  status_is = refl;
  level_is = refl;
  type_is = refl;
  message_is = refl;
}
log_liveness_probe_message-Failed pe start stop true out none (inl h) = cc
log_liveness_probe_message-Failed pe start stop true out none (inr (t, h)) = cc

log_run-error :
    (path : Text) (run : ProbeLoggingExecution) (ps : ProbeLoggingSocket)
    → run.log_level ≡ error
    → run.probe_type ≡ liveness
    → (log_run path run ps).lines ≡ ps.lines ++ errored run.log_message ∷ []
log_run-error path run ps l t =
    rw (l, t)
      (rw dedup_log-liveness_error (logged (errored run.log_message) path run.log_message ps))

finish_liveness-error :
    (path : Text) (x : ProbeLoggingExecution) (current : Option ProbeLoggingExecution)
    (s : LivenessProbeLoggingState) (ps : ProbeLoggingSocket)
    → x.log_level ≡ error
    → x.probe_type ≡ liveness
    → IsLiveness current
    → (finish_liveness path (complete_run x current) s ps).lines
      ≡ ps.lines ++ errored x.log_message ∷ []
finish_liveness-error path x none s ps l t r =
    log_run-error path x (set_liveness (record s { current_run = some x }) ps) l t
finish_liveness-error path x (some run) s ps l t r =
    let completed = complete_run x (some run) in
    log_run-error path completed (set_liveness (record s { current_run = some completed }) ps) l r

handle_liveness_probe-failed :
    (now : ℕ) (path : Text) (x : ProbeLoggingExecution) (ps : ProbeLoggingSocket)
    (s : LivenessProbeLoggingState)
    → x.status ≡ failed
    → x.log_level ≡ error
    → x.probe_type ≡ liveness
    → ps.state.liveness_state ≡ some s
    → IsLiveness s.current_run
    → (handle_liveness_probe now x path ps).lines ≡ ps.lines ++ errored x.log_message ∷ []
handle_liveness_probe-failed now path x ps s st l t h r =
    let event : handle_liveness_probe now x path ps ≡ liveness_event failed now x path (some s) ps =
      unfold handle_liveness_probe in
      ap₂
        (λ (status : ProbeStatus) (o : Option LivenessProbeLoggingState).
          liveness_event status now x path o ps)
        st h in
    ap (λ (p : ProbeLoggingSocket). p.lines) event
    ∙ finish_liveness-error path x s.current_run s ps l t r

-- A liveness probe that met an error or found the queue manager not healthy, once its message has been handled, has logged
-- one line, an error line with the reason and the output: whatever was logged before, and
-- whatever run it completes, if that run is of a liveness probe.
pub failed_liveness_is_logged :
    (now start stop : ℕ) (healthy : Bool) (out path : Text) (e : Option Text)
    (pe : ProbeLoggingExecution) (ps : ProbeLoggingSocket) (s : LivenessProbeLoggingState)
    → pe.probe_type ≡ liveness
    → ps.state.liveness_state ≡ some s
    → IsLiveness s.current_run
    → (healthy ≡ false) ⊎ ((t : Text) × (e ≡ some t))
    → (handle_liveness_probe now
        (log_liveness_probe_message pe start stop healthy out e)
        path
        ps).lines
      ≡ ps.lines
        ++ errored (
            build_liveness_probe_failure_message
              (reason e)
              (build_liveness_probe_output_message out))
          ∷ []
failed_liveness_is_logged now start stop healthy out path e pe ps s live st run bad =
    let x = log_liveness_probe_message pe start stop healthy out e in
    let f = log_liveness_probe_message-Failed pe start stop healthy out e bad in
    handle_liveness_probe-failed now path x ps s f.status_is f.level_is (f.type_is ∙ live) st run
    ∙ rw f.message_is

-- Is there a line `null`, with no malformed line before it?
abbrev pub is_null_read : List (ℕ × Message) → Bool
is_null_read [] = false
is_null_read ((now, malformed) ∷ rest) = false
is_null_read ((now, null) ∷ rest) = true
is_null_read ((now, execution_of e) ∷ rest) = is_null_read rest

abbrev pub is_panic : Option ProbeLoggingSocket → Bool
is_panic none = true
is_panic (some ps) = false

then_execution :
    (type : ProbeType) (now : ℕ) (e : ProbeLoggingExecution) (path : Text) (ps : ProbeLoggingSocket)
    (rest : ProbeLoggingSocket → Option ProbeLoggingSocket) (b : Bool)
    → ((ps : ProbeLoggingSocket) → is_panic (rest ps) ≡ b)
    → is_panic (then_lines (go_on (handle_execution (some type) now (some e) path ps)) rest) ≡ b
then_execution liveness now e path ps rest b h = h (handle_liveness_probe now e path ps)
then_execution startup now e path ps rest b h = h (handle_startup_probe e path ps)
then_execution (other_type _) now e path ps rest b h = h ps

-- The handler of a connection panics exactly if a line `null` is read, that is, if one comes before every malformed line.
pub handle_connection_null :
    (lines : List (ℕ × Message)) (path : Text) (ps : ProbeLoggingSocket)
    → is_panic (handle_connection lines path ps) ≡ is_null_read lines
unfolding handle_connection
handle_connection_null [] path ps = refl
handle_connection_null ((now, malformed) ∷ rest) path ps = refl
handle_connection_null ((now, null) ∷ rest) path ps = refl
handle_connection_null ((now, execution_of e) ∷ rest) path ps =
    then_execution e.probe_type now e path ps (handle_connection rest path) (is_null_read rest)
      (λ ps. handle_connection_null rest path ps)
