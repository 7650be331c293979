-- ===== src/Probes/Execution.antt =====
-- The methods of `ProbeLoggingExecution` that finish a probe and send it. What is sent over the socket is the
-- result; sending changes nothing in the sender.

use docker_local.Common.{ℕ, ◌-◌, Bool, not, Option, none, some, List, [], ◌∷◌, ◌++◌, if◌then◌else◌}
use docker_local.Common.Text.{Text, codes, is_empty, is_space, trim_space, join}
use docker_local.Probes.State.{
  ProbeLoggingExecution, ProbeType, ProbeStatus, passed, failed, LogLevel, info, error,
  no_execution, build_liveness_probe_failure_message, build_liveness_probe_success_message,
  build_startup_probe_failure_message, build_startup_probe_success_message,
}

-- `InitializeProbeLoggingExecution`
unfoldable pub initialize_probe_logging_execution :
    ProbeType → ℕ → ProbeStatus → ProbeLoggingExecution
initialize_probe_logging_execution probe_type probe_start_time probe_status = record no_execution {
  probe_type = probe_type;
  start_time = some probe_start_time;
  status = probe_status;
}

-- `strings.Fields`: the pieces between white space; the first argument is the piece being read.
abbrev flush : Text → List Text → List Text
flush [] rest = rest
flush (c ∷ w) rest = (c ∷ w) ∷ rest

unfoldable pub fields_from : Text → Text → List Text
unfolding is_space
fields_from word [] = flush word []
fields_from word (c ∷ s) =
    let parted = flush word (fields_from [] s) in
    let longer = fields_from (word ++ c ∷ []) s in if is_space c then parted else longer

unfoldable pub build_liveness_probe_output_message : Text → Text
unfolding fields_from trim_space join
build_liveness_probe_output_message out =
    let trimmed = trim_space out in
    if is_empty trimmed then [] else codes "Output: " ++ join (fields_from [] trimmed) (codes " ")

-- `logLivenessProbeMessageHelper`
unfoldable pub log_liveness_probe_message_helper :
    ProbeLoggingExecution → ℕ → ProbeStatus → ℕ → Text → LogLevel → ProbeLoggingExecution
log_liveness_probe_message_helper pe probe_end_time status duration message log_level = record pe {
  end_time = some probe_end_time;
  status = status;
  duration = some duration;
  log_message = message;
  log_level = log_level;
}

-- `LogLivenessProbeMessage` of a probe that started at `start`, which dereferences `pe.StartTime`.
-- The clock does not run backwards. The last argument is the error.
unfoldable pub log_liveness_probe_message :
    ProbeLoggingExecution → ℕ → ℕ → Bool → Text → Option Text → ProbeLoggingExecution
unfolding log_liveness_probe_message_helper build_liveness_probe_failure_message
    build_liveness_probe_success_message
log_liveness_probe_message pe start probe_end_time healthy out (some e) =
    log_liveness_probe_message_helper pe probe_end_time failed (probe_end_time - start)
      (build_liveness_probe_failure_message e (build_liveness_probe_output_message out)) error
log_liveness_probe_message pe start probe_end_time healthy out none =
    if not healthy
    then log_liveness_probe_message_helper pe probe_end_time failed (probe_end_time - start)
        (build_liveness_probe_failure_message (codes "QueueManager is not healthy")
          (build_liveness_probe_output_message out))
        error
    else log_liveness_probe_message_helper pe probe_end_time passed (probe_end_time - start)
        (build_liveness_probe_success_message (build_liveness_probe_output_message out)) info

unfoldable pub log_startup_probe_message_helper :
    ProbeLoggingExecution → ProbeStatus → Text → LogLevel → ProbeLoggingExecution
log_startup_probe_message_helper pe status message log_level = record pe {
  status = status;
  log_message = message;
  log_level = log_level;
}

-- `LogStartupProbeMessage`
unfoldable pub log_startup_probe_message :
    ProbeLoggingExecution → Bool → Option Text → ProbeLoggingExecution
unfolding log_startup_probe_message_helper build_startup_probe_failure_message
    build_startup_probe_success_message
log_startup_probe_message pe started (some e) =
    log_startup_probe_message_helper pe failed (build_startup_probe_failure_message e) error
log_startup_probe_message pe started none =
    if not started
    then log_startup_probe_message_helper pe failed
        (build_startup_probe_failure_message (codes "QueueManager is not started")) error
    else log_startup_probe_message_helper pe passed
        (build_startup_probe_success_message (codes "QueueManager started successfully")) info
