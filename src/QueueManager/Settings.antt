-- ===== src/QueueManager/Settings.antt =====
-- The arguments of `crtmqm`, `addmqinf` and `endmqm`.
use docker_local.Common.{
  Bool, true, false, ◌&&◌, not, Option, none, some, List, [], ◌∷◌, ◌++◌, ◌==◌, Result, ok, err,
  if◌then◌else◌,
}
use docker_local.Common.Text.{Text, codes, is_empty, text_eq}
use docker_local.Common.Decimal.{Signed, parse_int, decimal}
use docker_local.Startup.Environment.{Environment, getenv}
use docker_local.Version.Vrmf.{VersionError, Comparison, less, same, greater, compare_version}
use docker_local.QueueManager.Directory.{is_mounted}

-- Is what `Compare` returns at least 0? With an error it returns 0.
abbrev pub is_at_least : Result VersionError Comparison → Bool
is_at_least (ok less) = false
is_at_least (ok same) = true
is_at_least (ok greater) = true
is_at_least (err e) = true

abbrev pub is_number : Option Signed → Bool
is_number none = false
is_number (some n) = true

unfoldable pub oa_val : Option Text → Text
unfolding compare_version
oa_val dspmqver =
    if is_at_least (compare_version dspmqver (codes "9.2.1.0"))
    then codes "UserExternal"
    else codes "user"

-- `getCreateQueueManagerArgs`; `dspmqver` is the output of that command.
unfoldable pub get_create_queue_manager_args :
    Environment → Option Text → List Text → Text → Bool → List Text
unfolding text_eq is_mounted parse_int oa_val
get_create_queue_manager_args env dspmqver mounts name dev_mode =
    let pages = getenv env (codes "MQ_QMGR_LOG_FILE_PAGES") in
    (codes "-ii"
      ∷ codes "/etc/mqm/"
      ∷ codes "-ic"
      ∷ codes "/etc/mqm/"
      ∷ codes "-q"
      ∷ codes "-p"
      ∷ codes "1414"
      ∷ [])
    ++ ((if text_eq (getenv env (codes "MQ_NATIVE_HA")) (codes "true")
          then codes "-lr" ∷ getenv env (codes "HOSTNAME") ∷ []
          else [])
        ++ ((if dev_mode then codes "-oa" ∷ oa_val dspmqver ∷ [] else [])
            ++ ((if is_mounted mounts (codes "/mnt/mqm-log")
                  then codes "-ld" ∷ codes "/mnt/mqm-log/log" ∷ []
                  else [])
                ++ ((if is_mounted mounts (codes "/mnt/mqm-data")
                      then codes "-md" ∷ codes "/mnt/mqm-data/qmgrs" ∷ []
                      else [])
                    ++ ((if not (is_empty pages) && is_number (parse_int pages)
                          then codes "-lf" ∷ pages ∷ []
                          else [])
                        ++ name ∷ [])))))

-- `getCreateStandbyQueueManagerArgs`
abbrev pub get_create_standby_queue_manager_args : Text → List Text
get_create_standby_queue_manager_args name =
    codes "-s"
    ∷ codes "QueueManager"
    ∷ codes "-v"
    ∷ (codes "Name=" ++ name)
    ∷ codes "-v"
    ∷ (codes "Directory=" ++ name)
    ∷ codes "-v"
    ∷ codes "Prefix=/var/mqm"
    ∷ codes "-v"
    ∷ (codes "DataPath=/mnt/mqm-data/qmgrs/" ++ name)
    ∷ []

-- `strconv.Itoa`
abbrev pub itoa : Signed → Text
itoa n =
    if n.negative && not (n.absolute == 0) then b'-' ∷ decimal n.absolute else decimal n.absolute

-- The grace period of `stopQueueManager`: 30 if the variable is no number.
abbrev pub or_default : Option Signed → Text
or_default none = codes "30"
or_default (some n) = itoa n

unfoldable pub grace_period : Environment → Text
unfolding parse_int decimal
grace_period env = or_default (parse_int (getenv env (codes "MQ_GRACE_PERIOD")))

unfoldable pub end_args : Environment → Bool → Text → List Text
unfolding text_eq grace_period
end_args env is_standby name =
    if text_eq (getenv env (codes "MQ_MULTI_INSTANCE")) (codes "true")
    then (if is_standby
        then codes "-x" ∷ name ∷ []
        else codes "-s" ∷ codes "-w" ∷ codes "-tp" ∷ grace_period env ∷ name ∷ [])
    else codes "-w" ∷ codes "-r" ∷ codes "-tp" ∷ grace_period env ∷ name ∷ []
