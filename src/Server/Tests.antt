-- ===== src/Server/Tests.antt =====
-- The theorems on the server where every call succeeds, with and without the license, and where one call fails.
use docker_local.Common.{
  ◌≡◌, refl, Bool, true, false, ◌&&◌, ◌⊎◌, none, some, all, any, if◌then◌else◌,
}
use docker_local.Common.Text.{codes, text_eq}
use docker_local.Startup.Environment.{Environment}
use docker_local.Server.Calls.{
  Call, clear_ready, accept_license, create_dir_structure, create_queue_manager,
  start_queue_manager, Settings, World, license_accepted, has_name, is_true, is_on,
  has_valid_sources, mirrors,
}
use docker_local.Server.Program.{do_main, exit_code}
use docker_local.Server.Runs.{ascends}
use docker_local.Server.Gates.{Passed}
use docker_local.Server.Order.{
  stage, do_main-ascends, is_admission, do_main-admission, do_main_nameless, is_ready,
  do_main_ready,
}

abbrev healthy : World
healthy calls c = false

abbrev is_start : Call → Bool
is_start start_queue_manager = true
is_start _ = false

abbrev without_start : World
without_start calls c = is_start c

abbrev accepting : Environment
unfolding text_eq
accepting name =
    if text_eq name (codes "LICENSE")
    then some (codes "accept")
    else if text_eq name (codes "MQ_QMGR_NAME")
    then some (codes "QM1")
    else none

abbrev settings_in : Environment → Settings
settings_in env = record {
  init_flag = false;
  info_flag = false;
  no_log_runtime_flag = false;
  dev_flag = false;
  env = env;
  hostname = none;
  read_file = λ path. none;
}

abbrev nothing_set : Environment
nothing_set name = none

do_main-ascends_example : ascends stage 0 (do_main healthy (settings_in accepting)).calls ≡ true
do_main-ascends_example = do_main-ascends healthy (settings_in accepting)

start_fails : (do_main without_start (settings_in accepting)).terminated ≡ true
unfolding do_main accepting license_accepted has_name is_true is_on has_valid_sources mirrors
start_fails = refl

no_license :
    (license_accepted (settings_in nothing_set) && has_name (settings_in nothing_set)) ≡ false
unfolding license_accepted
no_license = refl

do_main-admission_example :
    (all is_admission (do_main healthy (settings_in nothing_set)).calls ≡ true)
    × (((settings_in nothing_set).info_flag ≡ true)
        ⊎ ((has_name (settings_in nothing_set) ≡ false)
            ⊎ (exit_code healthy (settings_in nothing_set) ≡ 1)))
do_main-admission_example = do_main-admission healthy (settings_in nothing_set) no_license

no_name : has_name (settings_in nothing_set) ≡ false
unfolding has_name
no_name = refl

do_main_nameless_example :
    (exit_code healthy (settings_in nothing_set) ≡ 0)
    × ((do_main healthy (settings_in nothing_set)).terminated ≡ true)
do_main_nameless_example =
    do_main_nameless healthy (settings_in nothing_set) no_name refl (λ calls. refl) (λ calls. refl)

gets_ready : any is_ready (do_main healthy (settings_in accepting)).calls ≡ true
unfolding do_main accepting license_accepted has_name is_true is_on has_valid_sources mirrors
gets_ready = refl

abbrev ReadyCall : Call → Type 0
ReadyCall c =
    Passed healthy (settings_in accepting) c (do_main healthy (settings_in accepting)).calls

do_main_ready_example :
    ReadyCall clear_ready
    × ReadyCall accept_license
    × ReadyCall create_dir_structure
    × ReadyCall create_queue_manager
    × ReadyCall start_queue_manager
do_main_ready_example = do_main_ready healthy (settings_in accepting) gets_ready
