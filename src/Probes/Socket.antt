-- ===== src/Probes/Socket.antt =====
-- `ProbeLoggingSocket`: what it does with each message that it reads.
use docker_local.Common.{
  ℕ, ◌+◌, ◌-◌, ◌&&◌, Option, none, some, List, [], ◌∷◌, ◌++◌, Bool, true, false, if◌then◌else◌,
}
use docker_local.Common.Text.{Text, text_eq}
use docker_local.Probes.State.{
  ProbeLoggingExecution, ProbeType, liveness, startup, other_type, ProbeStatus, passed, failed,
  incomplete, other_status, info, error, LivenessProbeLoggingState, StartupProbeLoggingState,
  ProbeLoggingState, get_log_level, get_probe_type,
}

-- What the logger is told: `Printf` or `Errorf`.
pub data LogLine : Type 0 where
  printed errored : Text → LogLine

-- `lastLog` gives the empty text for a path that it has no entry for. `lines` is what was logged, oldest first.
pub record ProbeLoggingSocket : Type 0 where
  pub last_log : Text → Text
  pub state : ProbeLoggingState
  pub lines : List LogLine

-- `ps.lastLog[socketPath] = logMessage`, and the line that is logged next.
unfoldable pub log_and_remember : LogLine → Text → Text → ProbeLoggingSocket → ProbeLoggingSocket
log_and_remember line socket_path log_message ps = record ps {
  last_log = λ q. if text_eq socket_path q then log_message else ps.last_log q;
  lines = ps.lines ++ line ∷ [];
}

unfoldable pub startup_probe_dedup_log_helper :
    Text → Text → Text → ProbeLoggingSocket → ProbeLoggingSocket
unfolding log_and_remember get_log_level
startup_probe_dedup_log_helper log_level socket_path log_message ps =
    if text_eq log_level (get_log_level error)
    then ps
    else if text_eq (ps.last_log socket_path) log_message
    then ps
    else log_and_remember (printed log_message) socket_path log_message ps

unfoldable pub liveness_probe_dedup_log_helper :
    Text → Text → Text → ProbeLoggingSocket → ProbeLoggingSocket
unfolding log_and_remember get_log_level
liveness_probe_dedup_log_helper log_level socket_path log_message ps =
    if text_eq log_level (get_log_level info) && text_eq (ps.last_log socket_path) log_message
    then ps
    else log_and_remember
        (if text_eq log_level (get_log_level error)
          then errored log_message
          else printed log_message)
        socket_path log_message ps

unfoldable pub dedup_log : Text → Text → Text → Text → ProbeLoggingSocket → ProbeLoggingSocket
unfolding startup_probe_dedup_log_helper liveness_probe_dedup_log_helper get_probe_type text_eq
dedup_log socket_path log_level log_message probe_type ps =
    if text_eq probe_type (get_probe_type startup)
    then startup_probe_dedup_log_helper log_level socket_path log_message ps
    else if text_eq probe_type (get_probe_type liveness)
    then liveness_probe_dedup_log_helper log_level socket_path log_message ps
    else ps

-- The log of a run, by its own level, message and type.
abbrev pub log_run : Text → ProbeLoggingExecution → ProbeLoggingSocket → ProbeLoggingSocket
log_run socket_path run =
    dedup_log socket_path (get_log_level run.log_level) run.log_message
      (get_probe_type run.probe_type)

-- A run that is still incomplete, with a start time and no duration, gets the time that has passed. The clock does not go back.
abbrev pub elapse :
    ℕ → ProbeStatus → Option ℕ → Option ℕ → ProbeLoggingExecution → ProbeLoggingExecution
elapse now incomplete (some start) none run = record run { duration = some (now - start) }
elapse now _ _ _ run = run

unfoldable pub capture_elapsed : ℕ → ProbeLoggingExecution → ProbeLoggingExecution
capture_elapsed now run = elapse now run.status run.start_time run.duration run

-- `case ProbeIncomplete` of `handleLivenessProbe`.
abbrev pub start_run :
    ℕ
    → ProbeLoggingExecution
    → Option ProbeLoggingExecution
    → LivenessProbeLoggingState
    → LivenessProbeLoggingState
start_run now execution none state = record state { current_run = some execution }
start_run now execution (some run) state = record state {
  current_run = some execution;
  previous_run = capture_elapsed now run;
  run_before = state.previous_run;
}

-- `case ProbeFailed, ProbePassed`: the run that is completed.
abbrev pub complete_run :
    ProbeLoggingExecution → Option ProbeLoggingExecution → ProbeLoggingExecution
complete_run execution none = execution
complete_run execution (some run) = record run {
  end_time = execution.end_time;
  status = execution.status;
  duration = execution.duration;
  log_message = execution.log_message;
  log_level = execution.log_level;
}

abbrev pub set_liveness : LivenessProbeLoggingState → ProbeLoggingSocket → ProbeLoggingSocket
set_liveness s ps = record ps { state = record ps.state { liveness_state = some s } }

abbrev pub finish_liveness :
    Text
    → ProbeLoggingExecution
    → LivenessProbeLoggingState
    → ProbeLoggingSocket
    → ProbeLoggingSocket
finish_liveness socket_path run s ps =
    log_run socket_path run (set_liveness (record s { current_run = some run }) ps)

abbrev pub liveness_event :
    ProbeStatus
    → ℕ
    → ProbeLoggingExecution
    → Text
    → Option LivenessProbeLoggingState
    → ProbeLoggingSocket
    → ProbeLoggingSocket
liveness_event status now execution socket_path none ps = ps
liveness_event incomplete now execution socket_path (some s) ps =
    set_liveness (start_run now execution s.current_run s) ps
liveness_event failed now execution socket_path (some s) ps =
    finish_liveness socket_path (complete_run execution s.current_run) s ps
liveness_event passed now execution socket_path (some s) ps =
    finish_liveness socket_path (complete_run execution s.current_run) s ps
liveness_event (other_status _) now execution socket_path (some s) ps = ps

-- `handleLivenessProbe`; `now` is the time of the call.
unfoldable pub handle_liveness_probe :
    ℕ → ProbeLoggingExecution → Text → ProbeLoggingSocket → ProbeLoggingSocket
unfolding dedup_log capture_elapsed
handle_liveness_probe now execution socket_path ps =
    liveness_event execution.status now execution socket_path ps.state.liveness_state ps

abbrev pub attempts : Option ProbeLoggingExecution → ℕ
attempts none = 0
attempts (some run) = run.attempt_count

-- The count of a completed run is that of the run before it, or else its own.
abbrev pub keep_attempts :
    ProbeLoggingExecution → Option ProbeLoggingExecution → ProbeLoggingExecution
keep_attempts execution none = execution
keep_attempts execution (some run) = record execution { attempt_count = run.attempt_count }

abbrev pub set_startup : ProbeLoggingExecution → ProbeLoggingSocket → ProbeLoggingSocket
set_startup run ps = record ps {
  state = record ps.state { startup_state = some (record { current_run = some run }) };
}

abbrev pub finish_startup : Text → ProbeLoggingExecution → ProbeLoggingSocket → ProbeLoggingSocket
finish_startup socket_path run ps = log_run socket_path run (set_startup run ps)

abbrev pub startup_event :
    ProbeStatus
    → ProbeLoggingExecution
    → Text
    → Option StartupProbeLoggingState
    → ProbeLoggingSocket
    → ProbeLoggingSocket
startup_event status execution socket_path none ps = ps
startup_event incomplete execution socket_path (some s) ps =
    set_startup (record execution { attempt_count = attempts s.current_run + 1 }) ps
startup_event failed execution socket_path (some s) ps =
    finish_startup socket_path (keep_attempts execution s.current_run) ps
startup_event passed execution socket_path (some s) ps =
    finish_startup socket_path (keep_attempts execution s.current_run) ps
startup_event (other_status _) execution socket_path (some s) ps = ps

-- `handleStartupProbe`
unfoldable pub handle_startup_probe :
    ProbeLoggingExecution → Text → ProbeLoggingSocket → ProbeLoggingSocket
unfolding dedup_log
handle_startup_probe execution socket_path ps =
    startup_event execution.status execution socket_path ps.state.startup_state ps

-- A line that was read: no JSON text, the JSON text `null`, or an execution.
pub data Message : Type 0 where
  malformed null : Message
  execution_of : ProbeLoggingExecution → Message

-- `json.Unmarshal` into a pointer: an error, or the pointer, which is nil for the text `null`.
abbrev pub unmarshal : Message → Option (Option ProbeLoggingExecution)
unmarshal malformed = none
unmarshal null = some none
unmarshal (execution_of e) = some (some e)

-- The field `ProbeType` of what a pointer points to; of nil, that is a panic.
abbrev pub probe_type_at : Option ProbeLoggingExecution → Option ProbeType
probe_type_at none = none
probe_type_at (some e) = some e.probe_type

-- A handler that is called with a nil pointer returns.
abbrev pub unless_nil :
    (ProbeLoggingExecution → ProbeLoggingSocket → ProbeLoggingSocket)
    → Option ProbeLoggingExecution
    → ProbeLoggingSocket
    → ProbeLoggingSocket
unless_nil handler none ps = ps
unless_nil handler (some e) ps = handler e ps

-- The choice of the handler by the type.
abbrev pub handle_execution :
    Option ProbeType
    → ℕ
    → Option ProbeLoggingExecution
    → Text
    → ProbeLoggingSocket
    → Option ProbeLoggingSocket
handle_execution none now execution socket_path ps = none
handle_execution (some liveness) now execution socket_path ps =
    some (unless_nil (λ e. handle_liveness_probe now e socket_path) execution ps)
handle_execution (some startup) now execution socket_path ps =
    some (unless_nil (λ e. handle_startup_probe e socket_path) execution ps)
handle_execution (some (other_type _)) now execution socket_path ps = some ps

-- One line of the connection: `none` is a panic, and the Boolean whether the loop goes on.
abbrev pub go_on : Option ProbeLoggingSocket → Option (ProbeLoggingSocket × Bool)
go_on none = none
go_on (some ps) = some (ps, true)

abbrev pub handle_line :
    ℕ
    → Option (Option ProbeLoggingExecution)
    → Text
    → ProbeLoggingSocket
    → Option (ProbeLoggingSocket × Bool)
handle_line now none socket_path ps = some (ps, false)
handle_line now (some execution) socket_path ps =
    go_on (handle_execution (probe_type_at execution) now execution socket_path ps)

abbrev pub then_lines :
    Option (ProbeLoggingSocket × Bool)
    → (ProbeLoggingSocket → Option ProbeLoggingSocket)
    → Option ProbeLoggingSocket
then_lines none rest = none
then_lines (some (ps, true)) rest = rest ps
then_lines (some (ps, false)) rest = some ps

-- `handleConnection`: the lines in order with the times of their handling, up to the first that is malformed; `none` is a panic.
unfoldable pub handle_connection :
    List (ℕ × Message) → Text → ProbeLoggingSocket → Option ProbeLoggingSocket
unfolding handle_liveness_probe handle_startup_probe
handle_connection [] socket_path ps = some ps
handle_connection ((now, message) ∷ rest) socket_path ps =
    then_lines (handle_line now (unmarshal message) socket_path ps)
      (handle_connection rest socket_path)
