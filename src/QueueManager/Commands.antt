-- ===== src/QueueManager/Commands.antt =====
-- The functions that run MQ's commands, with the commands they run. Most lines that are logged are left out.
use docker_local.Common.{
  ℕ, Bool, true, false, ◌&&◌, ◌||◌, not, Option, none, some, List, [], ◌∷◌, ◌++◌, ◌==◌, Result, ok,
  err, if◌then◌else◌,
}
use docker_local.Common.Text.{Text, codes, is_empty, text_eq, join, contains}
use docker_local.Probes.Execution.{fields_from}
use docker_local.Startup.Environment.{Environment, getenv}
use docker_local.Startup.Ready.{QmStatus, standby, status}
use docker_local.QueueManager.Directory.{
  replace_chars_in_qm_name, get_queue_manager_data_dir, qm_ini_path, validate_log_file_page_setting,
}
use docker_local.QueueManager.Settings.{
  get_create_queue_manager_args, get_create_standby_queue_manager_args, end_args,
}

pub data Program : Type 0 where
  crtmqdir dspmqinf dspmqver crtmqm addmqinf strmqm endmqm dspmq strmqtrc endmqtrc : Program

pub record Command : Type 0 where
  pub program : Program
  pub args : List Text

-- What `command.Run` returns; the code is `none` where it is -1.
pub record Output : Type 0 where
  pub out : Text
  pub rc : Option ℕ
  pub failed : Bool

-- The world: the environment, the mount points (`none`: /proc/mounts cannot be read), the commands, and the files.
pub record QmWorld : Type 0 where
  pub env : Environment
  pub mounts : Option (List Text)
  pub run : Command → Output
  pub read_file : Text → Option Text
  pub exists : Text → Bool

pub data QmError : Type 0 where
  no_mounts unreadable_ini : QmError
  command_failed : Program → QmError

-- The commands that a function has run, what it returns, and whether it has logged a warning.
pub record Done (A : Type 0) : Type 0 where
  pub commands : List Command
  pub result : Result QmError A
  pub warned : Bool

abbrev pub done : {A : Type 0} → List Command → Result QmError A → Done A
done commands result = record { commands = commands; result = result; warned = false }

abbrev pub command : Program → List Text → Command
command program args = record { program = program; args = args }

abbrev pub unless_failed : {A : Type 0} → QmWorld → Command → A → Result QmError A
unless_failed w c value = if (w.run c).failed then err (command_failed c.program) else ok value

abbrev pub is_code : ℕ → Option ℕ → Bool
is_code n none = false
is_code n (some rc) = rc == n

-- `createDirStructure`
abbrev pub crtmqdir_command : Command
crtmqdir_command = command crtmqdir (codes "-f" ∷ codes "-a" ∷ [])

unfoldable pub is_symlink_warning : Text → Bool
unfolding text_eq fields_from join
is_symlink_warning out = text_eq (join (fields_from [] out) (codes " ")) (
    codes
      "The filesystem object '/mnt/mqm/data/web/installations/Installation1/servers/mqweb/mqwebuser.xml' is a symbolic link.")

unfoldable pub create_dir_structure : QmWorld → Done Bool
unfolding is_symlink_warning
create_dir_structure w =
    let ran = w.run crtmqdir_command in
    if not ran.failed
    then done (crtmqdir_command ∷ []) (ok true)
    else if is_code 10 ran.rc
    then record {
      commands = crtmqdir_command ∷ [];
      result = ok true;
      warned = not (is_symlink_warning ran.out);
    }
    else done (crtmqdir_command ∷ []) (err (command_failed crtmqdir))

-- `createQueueManager`: a queue manager that is there already.
abbrev pub dspmqinf_command : Text → Command
dspmqinf_command name = command dspmqinf (name ∷ [])

abbrev pub check_pages : Text → Option Text → List Command → Done Bool
check_pages lfp none commands = done commands (err unreadable_ini)
check_pages lfp (some ini) commands = record {
  commands = commands;
  result = ok false;
  warned = not (validate_log_file_page_setting ini lfp);
}

unfoldable pub detected : QmWorld → Text → Text → Done Bool
unfolding validate_log_file_page_setting qm_ini_path
detected w data_dir name =
    let lfp = getenv w.env (codes "MQ_QMGR_LOG_FILE_PAGES") in
    if is_empty lfp
    then done (dspmqinf_command name ∷ []) (ok false)
    else check_pages lfp (w.read_file (qm_ini_path data_dir)) (dspmqinf_command name ∷ [])

-- The version is asked for to find the arguments.
abbrev pub dspmqver_command : Command
dspmqver_command = command dspmqver (codes "-b" ∷ codes "-f" ∷ codes "2" ∷ [])

abbrev pub output_of : Output → Option Text
output_of o = if o.failed then none else some o.out

unfoldable pub crtmqm_command : QmWorld → List Text → Text → Bool → Command
unfolding get_create_queue_manager_args
crtmqm_command w mounts name dev_mode =
    command crtmqm (
      get_create_queue_manager_args w.env (output_of (w.run dspmqver_command)) mounts name dev_mode)

abbrev pub addmqinf_command : Text → Command
addmqinf_command name = command addmqinf (get_create_standby_queue_manager_args name)

-- A new queue manager, or a standby of one that has a qm.ini.
unfoldable pub created : QmWorld → List Text → Text → Text → Bool → Done Bool
unfolding crtmqm_command qm_ini_path
created w mounts data_dir name dev_mode =
    if w.exists (qm_ini_path data_dir)
    then done (dspmqinf_command name ∷ addmqinf_command name ∷ [])
        (unless_failed w (addmqinf_command name) true)
    else done
        (dspmqinf_command name ∷ dspmqver_command ∷ crtmqm_command w mounts name dev_mode ∷ [])
        (unless_failed w (crtmqm_command w mounts name dev_mode) true)

abbrev pub create_with : QmWorld → Option (List Text) → Text → Bool → Done Bool
create_with w none name dev_mode = done [] (err no_mounts)
create_with w (some mounts) name dev_mode =
    let data_dir = get_queue_manager_data_dir mounts (replace_chars_in_qm_name name) in
    if (w.run (dspmqinf_command name)).failed
    then created w mounts data_dir name dev_mode
    else detected w data_dir name

unfoldable pub create_queue_manager : QmWorld → Text → Bool → Done Bool
unfolding created detected get_queue_manager_data_dir replace_chars_in_qm_name
create_queue_manager w name dev_mode = create_with w w.mounts name dev_mode

-- `updateCommandLevel`
unfoldable pub update_command_level : QmWorld → Done Bool
update_command_level w =
    let level = getenv w.env (codes "MQ_CMDLEVEL") in
    let c = command strmqm (codes "-e" ∷ (codes "CMDLEVEL=" ++ level) ∷ []) in
    if is_empty level then done [] (ok true) else done (c ∷ []) (unless_failed w c true)

-- `startQueueManager`, less the limit for open files: 30 is a standby that has started, and 94 a replica.
abbrev pub start_command : Text → Command
start_command name = command strmqm (codes "-x" ∷ name ∷ [])

unfoldable pub start_queue_manager : QmWorld → Text → Done Bool
start_queue_manager w name =
    let ran = w.run (start_command name) in
    if ran.failed && not (is_code 30 ran.rc || is_code 94 ran.rc)
    then done (start_command name ∷ []) (err (command_failed strmqm))
    else done (start_command name ∷ []) (ok true)

-- `stopQueueManager`
abbrev pub dspmq_command : Text → Command
dspmq_command name = command dspmq (codes "-n" ∷ codes "-m" ∷ name ∷ [])

abbrev pub is_standby : QmStatus → Bool
is_standby standby = true
is_standby _ = false

unfoldable pub endmqm_command : QmWorld → QmStatus → Text → Command
unfolding end_args
endmqm_command w s name = command endmqm (end_args w.env (is_standby s) name)

abbrev pub stop_with : QmWorld → Text → Option QmStatus → Done Bool
stop_with w name none = done (dspmq_command name ∷ []) (err (command_failed dspmq))
stop_with w name (some s) =
    done (dspmq_command name ∷ endmqm_command w s name ∷ [])
      (unless_failed w (endmqm_command w s name) true)

unfoldable pub stop_queue_manager : QmWorld → Text → Done Bool
unfolding status endmqm_command
stop_queue_manager w name = stop_with w name (status (output_of (w.run (dspmq_command name))))

-- `startMQTrace` and `endMQTrace`
abbrev pub start_mq_trace : QmWorld → Done Bool
start_mq_trace w = done (command strmqtrc [] ∷ []) (unless_failed w (command strmqtrc []) true)

abbrev pub end_mq_trace : QmWorld → Done Bool
end_mq_trace w = done (command endmqtrc [] ∷ []) (unless_failed w (command endmqtrc []) true)

-- `isStandbyQueueManager`
abbrev pub is_standby_out : Option Text → Result QmError Bool
is_standby_out none = err (command_failed dspmq)
is_standby_out (some out) = ok (contains out (codes "(RUNNING AS STANDBY)"))

unfoldable pub is_standby_queue_manager : QmWorld → Text → Done Bool
unfolding contains
is_standby_queue_manager w name =
    done (dspmq_command name ∷ []) (is_standby_out (output_of (w.run (dspmq_command name))))
