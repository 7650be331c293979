-- ===== src/Server/Calls.antt =====
-- The calls that `doMain` makes, and what they ask of the world.
use docker_local.Common.{Bool, true, false, not, Option, List, Result, ok, err}
use docker_local.Common.Text.{Text, codes, text_eq}
use docker_local.Startup.Environment.{Environment, getenv}
use docker_local.Logging.Sources.{
  Source, check_log_source_for_mirroring, is_log_console_source_valid, is_switched_on,
}
use docker_local.Startup.License.{check_license, LicenseError}
use docker_local.Startup.Name.{get_queue_manager_name, NameError}
use docker_local.Startup.Passwords.{is_enabled}

-- The directories that `createVolume` makes, in order, and those that `cleanVolume` empties.
pub data Volume : Type 0 where
  mqm_data mqm_scratch mqm_tmp mqm_log mqm_qmgrs runmqserver run_mqm instana : Volume

pub data Cleaned : Type 0 where
  run_scratch run_mqm_contents tmp mnt_tmp : Cleaned

-- The MQ trace is switched on for one of three commands.
pub data Traced : Type 0 where
  crtmqdir crtmqm strmqm : Traced

-- The files that are made empty, and those that are copied.
pub data EmptyFile : Type 0 where
  tls_mqsc native_ha_ini native_ha_instance_ini native_ha_keystore_ini : EmptyFile

pub data CopiedFile : Type 0 where
  web_container_dev web_container_default tls_xml jvm_options : CopiedFile

pub data Call : Type 0 where
  raise_file_limit configure_logger show_version show_container verify_single_process : Call
  clear_ready accept_license prepare_startup start_signal_handler log_container : Call
  create_volume : Volume → Call
  clean_volume : Cleaned → Call
  clean_scratch enable_tracing_files disable_tracing remove_tracing_exit : Call
  write_empty : EmptyFile → Call
  copy_file : CopiedFile → Call
  start_trace end_trace : Traced → Call
  create_dir_structure log_version process_fips configure_keystores configure_tls : Call
  warn_of_sources prepare_mirrors mirror_web post_init configure_native_ha fips_post_init : Call
  prepare_probes start_probe_socket create_queue_manager : Call
  mirror_system_errors mirror_queue_manager mirror_simple_auth update_command_level update_qm_ini :
      Call
  start_queue_manager mirror_mqsc gather_metrics start_reaping reap_now mark_startup_complete : Call
  set_ready wait_for_signal stop_probe_socket : Call

-- The flags of the command line, the variables, the host's name and the files that can be read.
pub record Settings : Type 0 where
  pub init_flag : Bool
  pub info_flag : Bool
  pub no_log_runtime_flag : Bool
  pub dev_flag : Bool
  pub env : Environment
  pub hostname : Option Text
  pub read_file : Text → Option Text

-- Which calls fail may depend on all the calls before them. The license is not up to the world.
abbrev pub World : Type 0
World = List Call → Call → Bool

abbrev pub is_accepted : Result LicenseError Bool → Bool
is_accepted (ok accepted) = accepted
is_accepted (err e) = false

abbrev pub is_err : Result NameError Text → Bool
is_err (ok name) = false
is_err (err e) = true

unfoldable pub license_accepted : Settings → Bool
unfolding check_license
license_accepted s = is_accepted (check_license s.env s.read_file).accepted

unfoldable pub has_name : Settings → Bool
unfolding get_queue_manager_name
has_name s = not (is_err (get_queue_manager_name s.env s.hostname))

-- Does a call return an error? A license that is not accepted is one.
abbrev pub fails : World → Settings → List Call → Call → Bool
fails w s history accept_license = not (license_accepted s)
fails w s history c = w history c

-- The switches of the program.
unfoldable pub is_true : Settings → Text → Bool
unfolding text_eq
is_true s name = text_eq (getenv s.env name) (codes "true")

unfoldable pub is_on : Settings → Text → Bool
unfolding is_switched_on
is_on s name = is_switched_on s.env name

unfoldable pub mirrors : Settings → Source → Bool
unfolding check_log_source_for_mirroring
mirrors s source = check_log_source_for_mirroring s.env source

unfoldable pub uses_simple_auth : Settings → Bool
unfolding is_enabled
uses_simple_auth s = is_enabled s.env

unfoldable pub has_valid_sources : Settings → Bool
unfolding is_log_console_source_valid
has_valid_sources s = is_log_console_source_valid s.env
