-- ===== src/Startup/Ready.antt =====
-- mq-container-master/internal/ready/ready.go: files by which one process tells another that the queue manager is ready.
pub mod Since
use docker_local.Common.{
  ℕ, ◌<◌, ◌≡◌, refl, ◌∙◌, inl, inr, Option-cases, ap, Bool, true, false, Option, none, some, List,
  [], ◌∷◌, Result, ok, err, if◌then◌else◌, arith,
}
use docker_local.Common.Text.{Text, codes, contains, text_eq_refl}
use docker_local.Common.Decimal.{Signed, decimal, parse_int, int_limit, parse_int-decimal}
use docker_local.Disk.{
  FilePath, Disk, OsError, fault, Outcome, Operation, stat_file, read_file, put, remove, write,
}

abbrev pub ready_file : FilePath
ready_file = codes "/run/runmqserver/ready"

abbrev pub ready_to_sync_file : FilePath
ready_to_sync_file = codes "/run/runmqserver/ready-to-sync"

abbrev pub is_some : Option Text → Bool
is_some none = false
is_some (some t) = true

-- `fileExists`
unfoldable pub file_exists : FilePath → Disk → Result OsError Bool
file_exists file_name d =
    if d.fails stat_file file_name then err fault else ok (is_some (d.content file_name))

-- `clearFile`, once the file has been looked for.
abbrev pub clear_found : Result OsError Bool → FilePath → Disk → Outcome
clear_found (err e) file_name d = (d, some e)
clear_found (ok true) file_name d = remove file_name d
clear_found (ok false) file_name d = (d, none)

unfoldable pub clear_file : FilePath → Disk → Outcome
unfolding file_exists remove
clear_file file_name d = clear_found (file_exists file_name d) file_name d

abbrev pub clear_second : Outcome → Outcome
clear_second (d, some e) = (d, some e)
clear_second (d, none) = clear_file ready_to_sync_file d

-- `Clear`
unfoldable pub clear : Disk → Outcome
unfolding clear_file
clear d = clear_second (clear_file ready_file d)

-- `Set`
unfoldable pub set : Disk → Outcome
unfolding write
set d = write ready_file (codes "1") d

-- `Check`
unfoldable pub check : Disk → Result OsError Bool
unfolding file_exists
check d = file_exists ready_file d

abbrev pub write_start_time : Result OsError Bool → ℕ → Disk → Outcome
write_start_time (err e) now d = (d, some e)
write_start_time (ok true) now d = (d, none)
write_start_time (ok false) now d = write ready_to_sync_file (decimal now) d

-- `SetReadyToSync` at a time in seconds since 1970.
unfoldable pub set_ready_to_sync : ℕ → Disk → Outcome
unfolding file_exists write
set_ready_to_sync now d = write_start_time (file_exists ready_to_sync_file d) now d

pub data StartTimeError : Type 0 where
  unreadable malformed : StartTimeError

-- What `GetReadyToSyncStartTime` returns with no error: whether it was ready, and since when.
abbrev pub StartTime : Type 0
StartTime = Result StartTimeError (Option Signed)

abbrev pub parsed : Option Signed → StartTime
parsed none = err malformed
parsed (some t) = ok (some t)

abbrev pub read_start_time : Bool → Option Text → StartTime
read_start_time refused none = err unreadable
read_start_time refused (some buf) = if refused then err unreadable else parsed (parse_int buf)

abbrev pub start_time_of : Result OsError Bool → Disk → StartTime
start_time_of (err e) d = err unreadable
start_time_of (ok false) d = ok none
start_time_of (ok true) d =
    read_start_time (d.fails read_file ready_to_sync_file) (d.content ready_to_sync_file)

-- `GetReadyToSyncStartTime`
unfoldable pub get_ready_to_sync_start_time : Disk → StartTime
unfolding file_exists
get_ready_to_sync_start_time d = start_time_of (file_exists ready_to_sync_file d) d

pub data QmStatus : Type 0 where
  unknown active standby replica recovery : QmStatus

-- `Status`, from the output of `dspmq`; `none` if that failed.
unfoldable pub status : Option Text → Option QmStatus
unfolding contains
status none = none
status (some out) =
    if contains out (codes "(RUNNING)")
    then some active
    else if contains out (codes "(RUNNING AS STANDBY)")
    then some standby
    else if contains out (codes "(REPLICA)")
    then some standby
    else if contains out (codes "(RECOVERY GROUP LEADER)")
    then some recovery
    else some unknown
