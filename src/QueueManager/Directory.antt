-- ===== src/QueueManager/Directory.antt =====
-- The mounts, the directory of a queue manager, and its qm.ini. Also
-- mq-container-master/internal/containerruntime/runtime.go.
use docker_local.Common.{Bool, Option, none, some, List, [], ◌∷◌, ◌++◌, any, if◌then◌else◌}
use docker_local.Common.Text.{Text, codes, text_eq, contains, split, replace_rune, trim_space}
use docker_local.Paths.Clean.{clean_path}

-- One line of `GetMounts`; `none` is the panic on a line of less than three words.
abbrev pub add_mount : List Text → Option (List Text) → Option (List Text)
add_mount (dev ∷ mount_point ∷ fs_type ∷ parts) (some rest) =
    some (if contains mount_point (codes "/mnt/mqm") then mount_point ∷ rest else rest)
add_mount _ _ = none

unfoldable pub mounts_of : List Text → Option (List Text)
unfolding split contains
mounts_of [] = some []
mounts_of (line ∷ lines) = add_mount (split line b' ') (mounts_of lines)

-- The mount points that `GetMounts` finds in the text of /proc/mounts. Of the map only its keys are used.
unfoldable pub get_mounts : Text → Option (List Text)
unfolding mounts_of split trim_space
get_mounts all = mounts_of (split (trim_space all) b'\n')

unfoldable pub is_mounted : List Text → Text → Bool
unfolding text_eq
is_mounted mounts path = any (text_eq path) mounts

-- `replaceCharsInQMName`; a text without the rune is not changed by the replacement.
unfoldable pub replace_chars_in_qm_name : Text → Text
unfolding replace_rune
replace_chars_in_qm_name qmname = replace_rune b'/' b'&' (replace_rune b'.' b'!' qmname)

-- `getQueueManagerDataDir`
unfoldable pub get_queue_manager_data_dir : List Text → Text → Text
unfolding is_mounted clean_path
get_queue_manager_data_dir mounts name =
    if is_mounted mounts (codes "/mnt/mqm-data")
    then clean_path (codes "/mnt/mqm-data/qmgrs" ∷ name ∷ [])
    else clean_path (codes "/var/mqm/qmgrs" ∷ name ∷ [])

-- The qm.ini in it, as `readQMIni` and `createQueueManager` name it.
unfoldable pub qm_ini_path : Text → Text
unfolding clean_path
qm_ini_path data_dir = clean_path (data_dir ∷ codes "qm.ini" ∷ [])

-- `validateLogFilePageSetting`
unfoldable pub validate_log_file_page_setting : Text → Text → Bool
unfolding contains
validate_log_file_page_setting ini_file log_file_pages =
    contains ini_file (codes "LogFilePages=" ++ log_file_pages)
