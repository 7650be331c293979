-- ===== src/Checks/Programs.antt =====
-- The exit codes of the three programs, from the environment, the files and what dspmq says.
use docker_local.Common.{
  ℕ, ◌+◌, Bool, true, false, not, Option, none, some, List, [], ◌∷◌, any, leb, Result, ok, err,
  if◌then◌else◌,
}
use docker_local.Common.Text.{Text, codes, text_eq, contains, is_empty}
use docker_local.Common.Decimal.{Signed, parse_int}
use docker_local.Disk.{Disk, OsError, Outcome}
use docker_local.Startup.Environment.{Environment, getenv}
use docker_local.Startup.Name.{NameError, get_queue_manager_name}
use docker_local.Startup.Ready.{
  check, set_ready_to_sync, StartTime, get_ready_to_sync_start_time, QmStatus, unknown, active,
  standby, replica, recovery, status,
}

-- The environment, the host's name, the time, the output of dspmq, with `-o nativeha` or without, if it succeeds, and whether a connection
-- to the listener can be made.
pub record CheckWorld : Type 0 where
  pub env : Environment
  pub hostname : Option Text
  pub now : ℕ
  pub dspmq : Option Text
  pub dspmq_nativeha : Option Text
  pub port_open : Bool

-- `chkmqready`: the exit code of each status.
abbrev pub status_code : CheckWorld → Option QmStatus → ℕ
status_code w none = 1
status_code w (some active) = if w.port_open then 0 else 1
status_code w (some recovery) = 0
status_code w (some standby) = 10
status_code w (some replica) = 20
status_code w (some unknown) = 1

abbrev pub named_code : CheckWorld → Result NameError Text → ℕ
named_code w (err e) = 1
named_code w (ok name) = status_code w (status w.dspmq)

abbrev pub checked_code : CheckWorld → Result OsError Bool → ℕ
checked_code w (err e) = 1
checked_code w (ok false) = 1
checked_code w (ok true) = named_code w (get_queue_manager_name w.env w.hostname)

unfoldable pub chkmqready : CheckWorld → Disk → ℕ
unfolding check get_queue_manager_name status
chkmqready w d = checked_code w (check d)

-- The texts that `queueManagerHealthy` looks for.
abbrev pub ready_strings : List Text
ready_strings =
    codes "(RUNNING)"
    ∷ codes "(RUNNING AS STANDBY)"
    ∷ codes "(RECOVERY GROUP LEADER)"
    ∷ codes "(STARTING)"
    ∷ codes "(REPLICA)"
    ∷ []

unfoldable pub is_ready : Text → Bool
unfolding contains
is_ready out = any (contains out) ready_strings

-- `queueManagerHealthy`; an error is `none`.
abbrev pub healthy_output : Option Text → Option Bool
healthy_output none = none
healthy_output (some out) = some (is_ready out)

abbrev pub healthy_named : CheckWorld → Result NameError Text → Option Bool
healthy_named w (err e) = none
healthy_named w (ok name) = healthy_output w.dspmq

abbrev pub queue_manager_healthy : CheckWorld → Option Bool
queue_manager_healthy w = healthy_named w (get_queue_manager_name w.env w.hostname)

-- The exit code of `chkmqhealthy`.
abbrev pub code_of : Option Bool → ℕ
code_of none = 2
code_of (some false) = 1
code_of (some true) = 0

unfoldable pub chkmqhealthy : CheckWorld → ℕ
unfolding is_ready get_queue_manager_name
chkmqhealthy w = code_of (queue_manager_healthy w)

-- The texts that `queueManagerStarted` looks for, with Native HA and without.
abbrev pub started_strings : List Text
started_strings =
    codes "(RUNNING)"
    ∷ codes "(RUNNING AS STANDBY)"
    ∷ codes "(RECOVERY GROUP LEADER)"
    ∷ codes "(STARTING)"
    ∷ codes "(REPLICA)"
    ∷ []

unfoldable pub is_started : Text → Bool
unfolding contains
is_started out = any (contains out) started_strings

abbrev pub started_output : Option Text → Option Bool
started_output none = none
started_output (some out) = some (is_started out)

-- `isInSyncWithReplicas`: ready to sync, and in sync.
abbrev pub in_sync : Option Text → Option (Bool × Bool)
in_sync none = none
in_sync (some out) =
    if contains out (codes "INSYNC(YES)") then some (true, true) else some (is_started out, false)

-- `hasInSyncTimePeriodExpired`: the difference of the times, on the integers. The times are seconds, so it does not overflow.
abbrev pub above : Signed → ℕ
above t = if t.negative then 0 else t.absolute

abbrev pub under : Signed → ℕ
under t = if t.negative then t.absolute else 0

abbrev pub has_passed : ℕ → Signed → Signed → Bool
has_passed now start timeout = leb (above start + above timeout) (now + under start + under timeout)

abbrev pub five : Signed
five = record { negative = false; absolute = 5 }

abbrev pub timeout_of : Text → Option Signed
timeout_of custom = if is_empty custom then some five else parse_int custom

abbrev pub expired_since : ℕ → Signed → StartTime → Option Bool
expired_since now timeout (err e) = none
expired_since now timeout (ok none) = some false
expired_since now timeout (ok (some start)) = some (has_passed now start timeout)

abbrev pub expired_with : CheckWorld → Disk → Option Signed → Option Bool
expired_with w d none = none
expired_with w d (some timeout) = expired_since w.now timeout (get_ready_to_sync_start_time d)

abbrev pub has_in_sync_time_period_expired : CheckWorld → Disk → Option Bool
has_in_sync_time_period_expired w d =
    expired_with w d (timeout_of (getenv w.env (codes "MQ_NATIVE_HA_IN_SYNC_TIMEOUT")))

-- `queueManagerStarted` with Native HA: the disk afterwards, and whether it has started.
abbrev pub after_set : CheckWorld → Outcome → Disk × Option Bool
after_set w (d, some e) = (d, none)
after_set w (d, none) = (d, has_in_sync_time_period_expired w d)

abbrev pub started_in_sync : CheckWorld → Option (Bool × Bool) → Disk → Disk × Option Bool
started_in_sync w none d = (d, none)
started_in_sync w (some (is_ready_to_sync, true)) d = (d, some true)
started_in_sync w (some (false, false)) d = (d, some false)
started_in_sync w (some (true, false)) d = after_set w (set_ready_to_sync w.now d)

abbrev pub started_named : CheckWorld → Result NameError Text → Disk → Disk × Option Bool
started_named w (err e) d = (d, none)
started_named w (ok name) d =
    if text_eq (getenv w.env (codes "MQ_NATIVE_HA")) (codes "true")
    then started_in_sync w (in_sync w.dspmq_nativeha) d
    else (d, started_output w.dspmq)

abbrev pub queue_manager_started : CheckWorld → Disk → Disk × Option Bool
queue_manager_started w d = started_named w (get_queue_manager_name w.env w.hostname) d

abbrev pub started_code : Option Bool → ℕ
started_code none = 2
started_code (some started) = if not started then 1 else 0

unfoldable pub chkmqstarted : CheckWorld → Disk → Disk × ℕ
unfolding is_started get_queue_manager_name set_ready_to_sync get_ready_to_sync_start_time text_eq
    contains parse_int
chkmqstarted w d = ((queue_manager_started w d).0, started_code (queue_manager_started w d).1)
