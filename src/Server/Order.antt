-- ===== src/Server/Order.antt =====
-- What holds of `doMain` in every world.
use docker_local.Common.{
  none, ℕ, ◌≡◌, suc, refl, sym, subst, ap, ◌∙◌, take, drop, Bool, true, false, ◌&&◌, not, ◌⊎◌, inl,
  inr, List, [], ◌∷◌, ◌++◌, all, any, arith, Bool-cases,
}
use docker_local.Common.Text.{codes}
use docker_local.Server.Calls.{
  crtmqdir, crtmqm, strmqm, Call, raise_file_limit, configure_logger, show_version, show_container,
  verify_single_process, clear_ready, accept_license, prepare_startup, start_signal_handler,
  log_container, create_volume, clean_volume, clean_scratch, enable_tracing_files, disable_tracing,
  remove_tracing_exit, write_empty, copy_file, start_trace, end_trace, create_dir_structure,
  log_version, process_fips, configure_keystores, configure_tls, warn_of_sources, prepare_mirrors,
  mirror_web, post_init, configure_native_ha, fips_post_init, prepare_probes, start_probe_socket,
  create_queue_manager, mirror_system_errors, mirror_queue_manager, mirror_simple_auth,
  update_command_level, update_qm_ini, start_queue_manager, mirror_mqsc, gather_metrics,
  start_reaping, reap_now, mark_startup_complete, set_ready, wait_for_signal, stop_probe_socket,
  Settings, World, license_accepted, has_name, is_true,
}
use docker_local.Server.Steps.{must, returned_last, last_error, run}
use docker_local.Server.Program.{program, do_main, exit_code, exit_code_of}
use docker_local.Server.Runs.{calls_of, ascends, run-Ascending, is_told, run-is_told}
use docker_local.Server.Gates.{
  run-all, run-shut, run_return_last, run_shut-exit_code, Passed, run-Passed,
}

-- The stages of the server: it is admitted, makes its file system, configures MQ, creates the queue manager, starts it,
-- lets the startup end, says that it is ready, and waits.
abbrev pub stage : Call → ℕ
stage raise_file_limit = 0
stage configure_logger = 0
stage show_version = 0
stage show_container = 0
stage verify_single_process = 0
stage clear_ready = 1
stage accept_license = 2
stage prepare_startup = 3
stage start_signal_handler = 3
stage log_container = 4
stage (create_volume v) = 4
stage (clean_volume v) = 4
stage clean_scratch = 4
stage enable_tracing_files = 4
stage disable_tracing = 4
stage remove_tracing_exit = 4
stage (write_empty f) = 4
stage (copy_file f) = 4
stage (start_trace crtmqdir) = 4
stage (end_trace crtmqdir) = 4
stage create_dir_structure = 4
stage log_version = 5
stage process_fips = 5
stage configure_keystores = 6
stage configure_tls = 6
stage warn_of_sources = 6
stage prepare_mirrors = 6
stage mirror_web = 6
stage post_init = 6
stage configure_native_ha = 6
stage fips_post_init = 6
stage prepare_probes = 6
stage start_probe_socket = 6
stage (start_trace crtmqm) = 6
stage create_queue_manager = 7
stage (end_trace crtmqm) = 8
stage mirror_system_errors = 8
stage mirror_queue_manager = 8
stage mirror_simple_auth = 8
stage update_command_level = 8
stage update_qm_ini = 8
stage (start_trace strmqm) = 8
stage start_queue_manager = 9
stage (end_trace strmqm) = 10
stage mirror_mqsc = 10
stage gather_metrics = 10
stage start_reaping = 10
stage reap_now = 11
stage mark_startup_complete = 12
stage set_ready = 13
stage wait_for_signal = 14
stage stop_probe_socket = 15

-- In every world and with all settings, the calls that `doMain` makes stand in the order of the stages: the readiness
-- files are cleared before the license is asked for, that before the signal handler starts, that before any volume
-- is touched, the FIPS mode is determined before TLS is configured, then the queue manager is created, then
-- started, then the zombies are reaped, the startup ends, and only then is the server ready.
pub do_main-ascends : (w : World) (s : Settings) → ascends stage 0 (do_main w s).calls ≡ true
unfolding do_main
do_main-ascends w s = let a = run-Ascending stage w s program 0 [] refl in rw a.extends a.ascending

abbrev pub is_verify : Call → Bool
is_verify verify_single_process = true
is_verify _ = false

-- `doMain` writes a termination message exactly if it returns the error of a call, whichever call that is, but for the check
-- that no second process runs, or if the queue manager has no name.
pub do_main-is_told :
    (w : World) (s : Settings) → (do_main w s).terminated ≡ is_told is_verify (do_main w s).ending
unfolding do_main
do_main-is_told w s = run-is_told is_verify w s program [] refl

abbrev pub is_admission : Call → Bool
is_admission raise_file_limit = true
is_admission configure_logger = true
is_admission show_version = true
is_admission show_container = true
is_admission verify_single_process = true
is_admission clear_ready = true
is_admission accept_license = true
is_admission _ = false

-- A license that is not accepted is a gate that is shut.
admission-shut :
    (w : World) (s : Settings)
    → license_accepted s ≡ false
    → run w s program [] ≡ run w s (take 8 program ++ must accept_license ∷ []) []
admission-shut w s e =
    run-shut w s (take 8 program) (drop 9 program) accept_license [] (λ calls. ap not e)

unlicensed-exit_code :
    (w : World) (s : Settings)
    → has_name s ≡ true
    → license_accepted s ≡ false
    → (s.info_flag ≡ true) ⊎ (exit_code w s ≡ 1)
unfolding do_main exit_code
unlicensed-exit_code w s named e = elim (Bool-cases s.info_flag) [
  | inl i ↦ inl i
  | inr i ↦
      let may_stay : (not s.info_flag && (not (not (has_name s)) && true)) ≡ true = ground arith in
      inr (
        ap (λ r. exit_code_of r.ending) (admission-shut w s e)
        ∙ run_shut-exit_code w s (take 8 program) accept_license [] (λ calls. ap not e) may_stay)
]

-- Unless the license is accepted and the queue manager has a name, no call of `doMain` but those of the admission is made:
-- no signal handler, no volume, no queue manager; and the exit code is 1, or only information was asked for, or the name
-- is missing.
pub do_main-admission :
    (w : World) (s : Settings)
    → (license_accepted s && has_name s) ≡ false
    → (all is_admission (do_main w s).calls ≡ true)
      × ((s.info_flag ≡ true) ⊎ ((has_name s ≡ false) ⊎ (exit_code w s ≡ 1)))
unfolding do_main
do_main-admission w s h = elim (Bool-cases (has_name s)) [
  | inr e ↦
      let r =
        run_return_last w s (take 6 program) (drop 7 program) (λ s. not (has_name s)) []
          (ap not e) in
      (
        ap (λ r. all is_admission r.calls) r
            ∙ run-all is_admission w s (take 7 program) [] refl refl,
        inr (inl e),
      )
  | inl e ↦
      let refused : license_accepted s ≡ false = ground arith in
      (
        ap (λ r. all is_admission r.calls) (admission-shut w s refused)
            ∙ run-all is_admission w s (take 9 program) [] refl refl,
        elim (unlicensed-exit_code w s e refused) [ inl i ↦ inl i | inr x ↦ inr (inr x) ],
      )
]

nameless :
    (w : World) (s : Settings)
    → has_name s ≡ false
    → s.info_flag ≡ false
    → ((calls : List Call) → w calls configure_logger ≡ false)
    → ((calls : List Call) → w calls verify_single_process ≡ false)
    → (made : List Call) × (run w s (take 7 program) []
        ≡ record { ending = returned_last none; calls = made; terminated = true })
unfolding run last_error
nameless w s n i c v = elim (Bool-cases (is_true s (codes "MQ_ENABLE_SOFT_FILE_LIMIT_INCREASE"))) [
  | inl e ↦ elim (Bool-cases (w [] raise_file_limit)) [
    | inl f ↦ (
      raise_file_limit ∷ configure_logger ∷ verify_single_process ∷ [],
      rw (n, e, f, i, c, v) refl,
    )
    | inr f ↦ (
      raise_file_limit ∷ configure_logger ∷ verify_single_process ∷ [],
      rw (n, e, f, i, c, v) refl,
    )
  ]
  | inr e ↦ (configure_logger ∷ verify_single_process ∷ [], rw (n, e, i, c, v) refl)
]

-- A queue manager without a name ends the server with the exit code 0 and a termination message, where the
-- logger is configured, no second process runs and the program is not called for information only: the error that
-- `doMain` returns is that of the check that no second process runs, and there is none.
pub do_main_nameless :
    (w : World) (s : Settings)
    → has_name s ≡ false
    → s.info_flag ≡ false
    → ((calls : List Call) → w calls configure_logger ≡ false)
    → ((calls : List Call) → w calls verify_single_process ≡ false)
    → (exit_code w s ≡ 0) × ((do_main w s).terminated ≡ true)
unfolding do_main exit_code
do_main_nameless w s n i c v =
    let r =
      run_return_last w s (take 6 program) (drop 7 program) (λ s. not (has_name s)) [] (ap not n) in
    let e = nameless w s n i c v in
    (ap (λ r. exit_code_of r.ending) (r ∙ e.1), ap (λ r. r.terminated) (r ∙ e.1))

abbrev pub is_ready : Call → Bool
is_ready set_ready = true
is_ready _ = false

passed :
    (w : World) (s : Settings) (n : ℕ) (c : Call)
    → program ≡ take n program ++ must c ∷ drop (suc n) program
    → any is_ready (calls_of (take n program)) ≡ false
    → is_ready c ≡ false
    → any is_ready (do_main w s).calls ≡ true
    → Passed w s c (do_main w s).calls
unfolding do_main
passed w s n c split k e a =
    subst (λ steps. Passed w s c (run w s steps []).calls) (sym split)
      (run-Passed is_ready w s (take n program) (drop (suc n) program) c [] refl k e
        (ap (λ steps. any is_ready (run w s steps []).calls) (sym split) ∙ a))

-- `doMain` says that the server is ready only once the old readiness files were cleared, the license was accepted, MQ's
-- directories and the queue manager were made and the queue manager was started, all with success.
pub do_main_ready :
    (w : World) (s : Settings)
    → any is_ready (do_main w s).calls ≡ true
    → Passed w s clear_ready (do_main w s).calls
      × Passed w s accept_license (do_main w s).calls
      × Passed w s create_dir_structure (do_main w s).calls
      × Passed w s create_queue_manager (do_main w s).calls
      × Passed w s start_queue_manager (do_main w s).calls
do_main_ready w s a = (
  passed w s 7 clear_ready refl refl refl a,
  passed w s 8 accept_license refl refl refl a,
  passed w s 37 create_dir_structure refl refl refl a,
  passed w s 53 create_queue_manager refl refl refl a,
  passed w s 61 start_queue_manager refl refl refl a,
)
