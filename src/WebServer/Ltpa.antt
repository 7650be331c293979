-- ===== src/WebServer/Ltpa.antt =====
-- `ltpaKeysFileFix`: the file ltpa.keys is removed once, and a marker file tells that it has been.
use docker_local.Common.{Bool, true, false, Option, none, some, List, [], ◌∷◌, ◌++◌, if◌then◌else◌}
use docker_local.Common.Text.{Text, codes}
use docker_local.Disk.{Disk, OsError, fault, Outcome, stat_file, remove, write}

abbrev pub ltpa_keys_file : Text
ltpa_keys_file =
    codes "/var/mqm/web/installations/Installation1/servers/mqweb/resources/security/ltpa.keys"

abbrev pub refreshed_file : Text
refreshed_file =
    codes "/var/mqm/web/installations/Installation1/servers/mqweb/mq-DT472893-ltpa-keys.refreshed"

-- `fileExists`: whether the file is there, or the error of `os.Stat`.
abbrev pub is_there : Option Text → Bool
is_there none = false
is_there (some t) = true

unfoldable pub file_exists : Text → Disk → Bool × Option OsError
file_exists path d =
    if d.fails stat_file path then (false, some fault) else (is_there (d.content path), none)

-- The messages of the log, in order.
pub data LtpaMessage : Type 0 where
  keys_not_removed removed_keys marker_unknown marker_made marker_not_written keys_unknown :
      LtpaMessage

pub record Fixed : Type 0 where
  pub disk : Disk
  pub messages : List LtpaMessage
  pub error : Option OsError

-- `writeDT472893MarkerFile`: an error is logged only.
abbrev pub marked : List LtpaMessage → Outcome → Fixed
marked before (d, none) = record { disk = d; messages = before ++ marker_made ∷ []; error = none }
marked before (d, some e) = record {
  disk = d;
  messages = before ++ marker_not_written ∷ [];
  error = none;
}

abbrev pub write_dt472893_marker_file : List LtpaMessage → Disk → Fixed
write_dt472893_marker_file before d = marked before (write refreshed_file [] d)

abbrev pub stopped : Disk → LtpaMessage → OsError → Fixed
stopped d message e = record { disk = d; messages = message ∷ []; error = some e }

abbrev pub removed : Outcome → Fixed
removed (d, some e) = stopped d keys_not_removed e
removed (d, none) = write_dt472893_marker_file (removed_keys ∷ []) d

-- The keys are there: is the marker.
abbrev pub refresh : Disk → Bool × Option OsError → Fixed
refresh d (there, some e) = stopped d marker_unknown e
refresh d (true, none) = record { disk = d; messages = []; error = none }
refresh d (false, none) = removed (remove ltpa_keys_file d)

abbrev pub fix : Disk → Bool × Option OsError → Fixed
fix d (true, e) = refresh d (file_exists refreshed_file d)
fix d (false, none) = write_dt472893_marker_file [] d
fix d (false, some e) = stopped d keys_unknown e

-- `ltpaKeysFileFix`
unfoldable pub ltpa_keys_file_fix : Disk → Fixed
unfolding file_exists write remove
ltpa_keys_file_fix d = fix d (file_exists ltpa_keys_file d)
