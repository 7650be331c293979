-- ===== src/Server/Program.antt =====
-- `doMain` and `main`.
use docker_local.Common.{
  none, some, ℕ, Bool, true, false, ◌&&◌, not, List, [], ◌∷◌, ◌++◌, if◌then◌else◌, any,
}
use docker_local.Common.Text.{codes}
use docker_local.Logging.Sources.{web, probes, qmgr, mqsc}
use docker_local.Server.Calls.{
  mqm_data, mqm_scratch, mqm_tmp, mqm_log, mqm_qmgrs, runmqserver, run_mqm, instana, run_scratch,
  run_mqm_contents, tmp, mnt_tmp, crtmqdir, crtmqm, strmqm, tls_mqsc, native_ha_ini,
  native_ha_instance_ini, native_ha_keystore_ini, web_container_dev, web_container_default, tls_xml,
  jvm_options, Call, raise_file_limit, configure_logger, show_version, show_container,
  verify_single_process, clear_ready, accept_license, prepare_startup, start_signal_handler,
  log_container, create_volume, clean_volume, clean_scratch, enable_tracing_files, disable_tracing,
  remove_tracing_exit, write_empty, copy_file, start_trace, end_trace, create_dir_structure,
  log_version, process_fips, configure_keystores, configure_tls, warn_of_sources, prepare_mirrors,
  mirror_web, post_init, configure_native_ha, fips_post_init, prepare_probes, start_probe_socket,
  create_queue_manager, mirror_system_errors, mirror_queue_manager, mirror_simple_auth,
  update_command_level, update_qm_ini, start_queue_manager, mirror_mqsc, gather_metrics,
  start_reaping, reap_now, mark_startup_complete, set_ready, wait_for_signal, stop_probe_socket,
  Settings, World, is_true, is_on, mirrors, uses_simple_auth, has_name, has_valid_sources,
}
use docker_local.Server.Steps.{
  refuse, proceed, Step, step, return_if, return_last_if, always, must, must_if, Ending, completed,
  returned, returned_last, failed, Run, run,
}

-- Up to the license. A queue manager without a name is told with the error of the call before, which is nil.
abbrev pub admission : List Step
admission =
    step proceed (λ s. is_true s (codes "MQ_ENABLE_SOFT_FILE_LIMIT_INCREASE")) raise_file_limit
    ∷ must configure_logger
    ∷ step proceed (λ s. s.info_flag) show_version
    ∷ step proceed (λ s. s.info_flag) show_container
    ∷ return_if (λ s. s.info_flag)
    ∷ step refuse always verify_single_process
    ∷ return_last_if (λ s. not (has_name s))
    ∷ must clear_ready
    ∷ must accept_license
    ∷ []

-- The file system, up to the flag for the initialisation only.
abbrev pub file_system : List Step
file_system =
    step proceed always prepare_startup
    ∷ step proceed always start_signal_handler
    ∷ must_if (λ s. not s.no_log_runtime_flag) log_container
    ∷ must (create_volume mqm_data)
    ∷ must (create_volume mqm_scratch)
    ∷ must (create_volume mqm_tmp)
    ∷ must (create_volume mqm_log)
    ∷ must (create_volume mqm_qmgrs)
    ∷ must (clean_volume run_scratch)
    ∷ must (clean_volume run_mqm_contents)
    ∷ must_if (λ s. is_true s (codes "MQ_ENABLE_CLEAN_TMP_ON_START")) (clean_volume tmp)
    ∷ must_if (λ s. is_true s (codes "MQ_ENABLE_CLEAN_TMP_ON_START")) (clean_volume mnt_tmp)
    ∷ step proceed always clean_scratch
    ∷ must (create_volume runmqserver)
    ∷ must (create_volume run_mqm)
    ∷ must (create_volume instana)
    ∷ must_if (λ s. is_on s (codes "MQ_ENABLE_INSTANA_TRACING")) enable_tracing_files
    ∷ must_if (λ s. not (is_on s (codes "MQ_ENABLE_INSTANA_TRACING"))) disable_tracing
    ∷ must_if (λ s. not (is_on s (codes "MQ_ENABLE_INSTANA_TRACING"))) remove_tracing_exit
    ∷ must (write_empty tls_mqsc)
    ∷ must (write_empty native_ha_ini)
    ∷ must (write_empty native_ha_instance_ini)
    ∷ must (write_empty native_ha_keystore_ini)
    ∷ must_if (λ s. s.dev_flag && is_true s (codes "MQ_DEV")) (copy_file web_container_dev)
    ∷ must_if (λ s. not (s.dev_flag && is_true s (codes "MQ_DEV")))
        (copy_file web_container_default)
    ∷ must (copy_file tls_xml)
    ∷ must (copy_file jvm_options)
    ∷ must_if (λ s. is_on s (codes "MQ_ENABLE_TRACE_CRTMQDIR")) (start_trace crtmqdir)
    ∷ must create_dir_structure
    ∷ must_if (λ s. is_on s (codes "MQ_ENABLE_TRACE_CRTMQDIR")) (end_trace crtmqdir)
    ∷ return_if (λ s. s.init_flag)
    ∷ []

-- The configuration, up to the creation of the queue manager.
abbrev pub configuration : List Step
configuration =
    step proceed always log_version
    ∷ step proceed always process_fips
    ∷ must configure_keystores
    ∷ must configure_tls
    ∷ step proceed (λ s. not (has_valid_sources s)) warn_of_sources
    ∷ step proceed always prepare_mirrors
    ∷ must_if (λ s. mirrors s web) mirror_web
    ∷ must post_init
    ∷ must_if (λ s. is_true s (codes "MQ_NATIVE_HA")) configure_native_ha
    ∷ step proceed always fips_post_init
    ∷ must_if (λ s. is_on s (codes "MQ_ENABLE_TRACE_CRTMQM")) (start_trace crtmqm)
    ∷ step proceed always prepare_probes
    ∷ step proceed (λ s. mirrors s probes) start_probe_socket
    ∷ must create_queue_manager
    ∷ must_if (λ s. is_on s (codes "MQ_ENABLE_TRACE_CRTMQM")) (end_trace crtmqm)
    ∷ []

-- The start of the queue manager.
abbrev pub starting : List Step
starting =
    must_if (λ s. mirrors s qmgr) mirror_system_errors
    ∷ must_if (λ s. mirrors s qmgr) mirror_queue_manager
    ∷ must_if (λ s. s.dev_flag && uses_simple_auth s) mirror_simple_auth
    ∷ must update_command_level
    ∷ must_if (λ s. is_on s (codes "MQ_ENABLE_TRACE_STRMQM")) (start_trace strmqm)
    ∷ must_if (λ s. s.dev_flag && uses_simple_auth s) update_qm_ini
    ∷ must start_queue_manager
    ∷ []

-- The queue manager runs, up to the signal to stop.
abbrev pub running : List Step
running =
    must_if (λ s. mirrors s mqsc) mirror_mqsc
    ∷ must_if (λ s. is_on s (codes "MQ_ENABLE_TRACE_STRMQM")) (end_trace strmqm)
    ∷ step proceed (λ s. is_on s (codes "MQ_ENABLE_METRICS")) gather_metrics
    ∷ step proceed always start_reaping
    ∷ step proceed always reap_now
    ∷ step proceed always mark_startup_complete
    ∷ must set_ready
    ∷ step proceed always wait_for_signal
    ∷ step proceed (λ s. mirrors s probes) stop_probe_socket
    ∷ []

abbrev pub program : List Step
program = admission ++ (file_system ++ (configuration ++ (starting ++ running)))

-- `doMain`, less its deferred functions.
unfoldable pub do_main : World → Settings → Run
unfolding run
do_main w s = run w s program []

-- What the deferred functions do, the last deferred first.
pub data Cleanup : Type 0 where
  cancel_probes cancel_mirrors wait_for_mirrors cancel_startup : Cleanup

abbrev pub is_prepare_probes : Call → Bool
is_prepare_probes prepare_probes = true
is_prepare_probes _ = false

abbrev pub is_prepare_mirrors : Call → Bool
is_prepare_mirrors prepare_mirrors = true
is_prepare_mirrors _ = false

abbrev pub is_prepare_startup : Call → Bool
is_prepare_startup prepare_startup = true
is_prepare_startup _ = false

abbrev pub is_mark : Call → Bool
is_mark mark_startup_complete = true
is_mark _ = false

-- A function is deferred once the call that prepares it has been made. The startup is not marked twice.
unfoldable pub deferred : List Call → List Cleanup
deferred calls =
    (if any is_prepare_probes calls then cancel_probes ∷ [] else [])
    ++ ((if any is_prepare_mirrors calls then cancel_mirrors ∷ wait_for_mirrors ∷ [] else [])
        ++ (if any is_prepare_startup calls && not (any is_mark calls)
            then cancel_startup ∷ []
            else []))

-- `main`: the exit code.
abbrev pub exit_code_of : Ending → ℕ
exit_code_of completed = 0
exit_code_of returned = 0
exit_code_of (returned_last none) = 0
exit_code_of (returned_last (some c)) = 1
exit_code_of (failed c) = 1

unfoldable pub exit_code : World → Settings → ℕ
unfolding do_main
exit_code w s = exit_code_of (do_main w s).ending
