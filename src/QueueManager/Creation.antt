-- ===== src/QueueManager/Creation.antt =====
-- When a queue manager is created, and the text that its MQSC output comes to.
use docker_local.Common.{
  ◌≡◌, refl, ap, ◌∙◌, Bool, true, false, ◌&&◌, not, Option, none, some, List, [], ◌∷◌, ◌++◌,
  append_assoc, any, Result, ok, err, if◌then◌else◌, arith, Bool-cases, inl, inr,
}
use docker_local.Common.Text.{Text, codes, is_empty, has_prefix, contains}
use docker_local.Startup.Environment.{getenv}
use docker_local.QueueManager.Directory.{
  replace_chars_in_qm_name, get_queue_manager_data_dir, qm_ini_path, validate_log_file_page_setting,
}
use docker_local.QueueManager.Commands.{
  Program, crtmqm, addmqinf, Command, QmWorld, QmError, Done, check_pages, dspmqinf_command,
  addmqinf_command, crtmqm_command, detected, created, create_queue_manager,
}

abbrev pub is_crtmqm : Command → Bool
is_crtmqm c = is_program c.program
  where
    is_program : Program → Bool
    is_program crtmqm = true
    is_program _ = false

abbrev pub is_addmqinf : Command → Bool
is_addmqinf c = is_program c.program
  where
    is_program : Program → Bool
    is_program addmqinf = true
    is_program _ = false

-- Does the result say that a queue manager has been made?
abbrev pub is_new : Result QmError Bool → Bool
is_new (ok b) = b
is_new (err e) = false

-- The command that makes the queue manager: one for a standby, where there is a qm.ini, and one for a new one.
abbrev pub has_ini : QmWorld → List Text → Text → Bool
has_ini w mounts name =
    w.exists (qm_ini_path (get_queue_manager_data_dir mounts (replace_chars_in_qm_name name)))

abbrev pub making : QmWorld → List Text → Text → Bool → Command
making w mounts name dev_mode =
    if has_ini w mounts name then addmqinf_command name else crtmqm_command w mounts name dev_mode

-- The three answers on what `createQueueManager` does.
abbrev pub Makes : QmWorld → List Text → Text → Bool → Done Bool → Type 0
Makes w mounts name dev_mode d =
    let unknown = (w.run (dspmqinf_command name)).failed in
    (any is_crtmqm d.commands ≡ (unknown && not (has_ini w mounts name)))
    × (any is_addmqinf d.commands ≡ (unknown && has_ini w mounts name))
    × (is_new d.result ≡ (unknown && not (w.run (making w mounts name dev_mode)).failed))

-- A queue manager that is there is left alone.
check_pages-none :
    (name lfp : Text) (ini : Option Text)
    → (any is_crtmqm (check_pages lfp ini (dspmqinf_command name ∷ [])).commands ≡ false)
      × (any is_addmqinf (check_pages lfp ini (dspmqinf_command name ∷ [])).commands ≡ false)
      × (is_new (check_pages lfp ini (dspmqinf_command name ∷ [])).result ≡ false)
check_pages-none name lfp none = (refl, refl, refl)
check_pages-none name lfp (some ini) = (refl, refl, refl)

detected-none :
    (w : QmWorld) (data_dir name : Text)
    → (any is_crtmqm (detected w data_dir name).commands ≡ false)
      × (any is_addmqinf (detected w data_dir name).commands ≡ false)
      × (is_new (detected w data_dir name).result ≡ false)
unfolding detected
detected-none w data_dir name =
    elim (Bool-cases (is_empty (getenv w.env (codes "MQ_QMGR_LOG_FILE_PAGES")))) [
      | inl e ↦ rw e (refl, refl, refl)
      | inr e ↦ rw e (
          check_pages-none name (getenv w.env (codes "MQ_QMGR_LOG_FILE_PAGES"))
            (w.read_file (qm_ini_path data_dir)))
    ]

-- With the mounts read, `createQueueManager` runs `crtmqm` exactly if `dspmqinf` fails and there is no qm.ini, and
-- `addmqinf` exactly if `dspmqinf` fails and there is one; and it says that a queue manager was created exactly if the one of the
-- two that it has run succeeded.
pub create_queue_manager-Makes :
    (w : QmWorld) (mounts : List Text) (name : Text) (dev_mode : Bool)
    → w.mounts ≡ some mounts
    → Makes w mounts name dev_mode (create_queue_manager w name dev_mode)
unfolding create_queue_manager created crtmqm_command
create_queue_manager-Makes w mounts name dev_mode m =
    let data_dir = get_queue_manager_data_dir mounts (replace_chars_in_qm_name name) in
    let known = detected-none w data_dir name in
    elim (Bool-cases (w.run (dspmqinf_command name)).failed) [
      | inr e ↦ rw (m, e) known
      | inl e ↦ elim (Bool-cases (w.exists (qm_ini_path data_dir))) [
        | inl x ↦ elim (Bool-cases (w.run (addmqinf_command name)).failed) [
          | inl f ↦ rw (m, e, x, f) (refl, refl, refl)
          | inr f ↦ rw (m, e, x, f) (refl, refl, refl)
        ]
        | inr x ↦ elim (Bool-cases (w.run (crtmqm_command w mounts name dev_mode)).failed) [
          | inl f ↦ rw (m, e, x, f) (refl, refl, refl)
          | inr f ↦ rw (m, e, x, f) (refl, refl, refl)
        ]
      ]
    ]

has_prefix-append : (s a b : Text) → has_prefix s (a ++ b) ≡ true → has_prefix s a ≡ true
unfolding has_prefix
has_prefix-append s [] b h = refl
has_prefix-append [] (x ∷ a) b h = cc
has_prefix-append (c ∷ s) (x ∷ a) b h = ground (arith, has_prefix-append s a b)

contains-append : (s a b : Text) → contains s (a ++ b) ≡ true → contains s a ≡ true
unfolding contains
contains-append [] [] b h = refl
contains-append [] (x ∷ a) b h = cc
contains-append (c ∷ s) a b h = ground (arith, contains-append s a b, has_prefix-append (c ∷ s) a b)

-- Where qm.ini has some number of log file pages, each text that the number begins with is taken for the same number.
pub validate_log_file_page_setting-append :
    (ini a b : Text)
    → validate_log_file_page_setting ini (a ++ b) ≡ true
    → validate_log_file_page_setting ini a ≡ true
unfolding validate_log_file_page_setting
validate_log_file_page_setting-append ini a b h =
    contains-append ini (codes "LogFilePages=" ++ a) b
      (ap (contains ini) (append_assoc (codes "LogFilePages=") a b) ∙ h)
