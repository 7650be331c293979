-- ===== src/Probes/State.antt =====
-- The types of probestate.go and probesocket.go, and the messages that are built for the log. A time is a
-- number of milliseconds. What a `*time.Time` or a `*int64` points at is never written, so a pointer is
-- an `Option`.
use docker_local.Common.{ℕ, Option, none, some, [], ◌++◌, if◌then◌else◌}
use docker_local.Common.Text.{Text, codes, is_empty}

-- `other` is a status or a type that is none of the constants; it comes from the socket's JSON text.
pub data ProbeStatus : Type 0 where
  passed failed incomplete : ProbeStatus
  other_status : Text → ProbeStatus

pub data ProbeType : Type 0 where
  liveness startup : ProbeType
  other_type : Text → ProbeType

pub data LogLevel : Type 0 where
  info error : LogLevel
  other_level : ℕ → LogLevel

pub record ProbeLoggingExecution : Type 0 where
  pub probe_type : ProbeType
  pub start_time : Option ℕ
  pub end_time : Option ℕ
  pub status : ProbeStatus
  pub duration : Option ℕ
  pub log_message : Text
  pub log_level : LogLevel
  pub attempt_count : ℕ

-- The zero value.
abbrev pub no_execution : ProbeLoggingExecution
no_execution = record {
  probe_type = other_type [];
  start_time = none;
  end_time = none;
  status = other_status [];
  duration = none;
  log_message = [];
  log_level = info;
  attempt_count = 0;
}

-- `PreviousRuns[0]` and `PreviousRuns[1]`.
pub record LivenessProbeLoggingState : Type 0 where
  pub current_run : Option ProbeLoggingExecution
  pub previous_run : ProbeLoggingExecution
  pub run_before : ProbeLoggingExecution

pub record StartupProbeLoggingState : Type 0 where
  pub current_run : Option ProbeLoggingExecution

pub record ProbeLoggingState : Type 0 where
  pub liveness_state : Option LivenessProbeLoggingState
  pub startup_state : Option StartupProbeLoggingState

-- `NewProbeState`
unfoldable pub new_probe_state : ProbeLoggingState
new_probe_state = record {
  liveness_state =
      some (record { current_run = none; previous_run = no_execution; run_before = no_execution });
  startup_state = some (record { current_run = none });
}

unfoldable pub get_probe_status : ProbeStatus → Text
get_probe_status incomplete = codes "Incomplete"
get_probe_status passed = codes "Passed"
get_probe_status failed = codes "Failed"
get_probe_status (other_status _) = codes "Unknown"

unfoldable pub get_log_level : LogLevel → Text
get_log_level error = codes "ERROR"
get_log_level info = codes "INFO"
get_log_level (other_level _) = codes "INFO"

unfoldable pub get_probe_type : ProbeType → Text
get_probe_type liveness = codes "LIVENESS"
get_probe_type startup = codes "STARTUP"
get_probe_type (other_type _) = []

unfoldable pub build_liveness_probe_failure_message : Text → Text → Text
build_liveness_probe_failure_message reason details =
    if is_empty details
    then codes "Liveness Probe Failed: " ++ reason
    else codes "Liveness Probe Failed: " ++ (reason ++ (codes ", " ++ details))

unfoldable pub build_liveness_probe_success_message : Text → Text
build_liveness_probe_success_message details =
    if is_empty details
    then codes "Liveness Probe Passed"
    else codes "Liveness Probe Passed: " ++ details

unfoldable pub build_startup_probe_failure_message : Text → Text
build_startup_probe_failure_message reason = codes "Startup Probe Failed: " ++ reason

unfoldable pub build_startup_probe_success_message : Text → Text
build_startup_probe_success_message reason = codes "Startup Probe Passed: " ++ reason
