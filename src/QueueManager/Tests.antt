-- ===== src/QueueManager/Tests.antt =====
-- The theorems on the queue manager's commands at a machine that has none yet.
use docker_local.Common.{◌≡◌, refl, true, false, none, some, List, [], ◌∷◌, ◌++◌}
use docker_local.Common.Text.{Text, codes, contains}
use docker_local.QueueManager.Directory.{get_mounts, validate_log_file_page_setting}
use docker_local.QueueManager.Commands.{
  Program, dspmqinf, dspmqver, Output, QmWorld, create_queue_manager,
}
use docker_local.QueueManager.Stanza.{remove_stanzas, is_stanza}
use docker_local.QueueManager.Creation.{Makes, create_queue_manager-Makes}
use docker_local.QueueManager.Distinct.{get_queue_manager_data_dir-injective}

-- Only `dspmqinf` fails.
abbrev answer : Program → Output
answer dspmqinf = record { out = []; rc = some 72; failed = true }
answer dspmqver = record { out = codes "9.4.0.0"; rc = some 0; failed = false }
answer _ = record { out = []; rc = some 0; failed = false }

abbrev data_mount : List Text
data_mount = codes "/mnt/mqm-data" ∷ []

abbrev new_machine : QmWorld
new_machine = record {
  env = λ name. none;
  mounts = some data_mount;
  run = λ c. answer c.program;
  read_file = λ path. none;
  exists = λ path. false;
}

mounts_found :
    get_mounts (codes "overlay / overlay rw\n/dev/sda /mnt/mqm-data ext4 rw\n") ≡ some data_mount
unfolding get_mounts contains
mounts_found = refl

create_queue_manager-Makes_example :
    Makes new_machine data_mount
      (codes "QM1")
      true
      (create_queue_manager new_machine (codes "QM1") true)
create_queue_manager-Makes_example =
    create_queue_manager-Makes new_machine data_mount (codes "QM1") true refl

abbrev qm_ini : Text
qm_ini = codes "Log:\n   LogFilePages=4096\n"

same_pages : validate_log_file_page_setting qm_ini (codes "40" ++ codes "96") ≡ true
unfolding validate_log_file_page_setting contains
same_pages = refl

get_queue_manager_data_dir-injective_example : codes "QM.1" ≡ codes "QM.1"
get_queue_manager_data_dir-injective_example =
    get_queue_manager_data_dir-injective data_mount (codes "QM.1") (codes "QM.1") refl refl refl
      refl refl

stanza_removed :
    remove_stanzas (
      codes "a"
      ∷ codes "ServiceComponent:"
      ∷ codes " Service="
      ∷ codes " Name="
      ∷ codes " Module="
      ∷ codes " ComponentDataSize=0"
      ∷ codes "b"
      ∷ [])
    ≡ codes "a" ∷ [] ∷ codes "b" ∷ []
unfolding remove_stanzas is_stanza contains
stanza_removed = refl
