-- ===== src/Mqini/Tests.antt =====
-- The output of dspmqinf, and a stanza with a field that has no value.
use docker_local.Common.{◌≡◌, refl, true, some, [], any}
use docker_local.Common.Text.{Text, codes, split}
use docker_local.Keystore.Listing.{scan_lines}
use docker_local.Mqini.{
  QueueManager, get_queue_manager_from_stanza, get_error_log_directory, is_bare, is_panic,
  get_queue_manager_from_stanza-bare,
}

abbrev stanza : Text
stanza =
    codes
      "QueueManager:\n   Name=qm1\n   Prefix=/var/mqm\n   Directory=qm1\n   InstallationName=Installation1\n"

abbrev qm1 : QueueManager
qm1 = record {
  name = codes "qm1";
  prefix = codes "/var/mqm";
  directory = codes "qm1";
  data_path = [];
  installation_name = codes "Installation1";
}

read : get_queue_manager_from_stanza stanza ≡ some qm1
unfolding get_queue_manager_from_stanza
read = refl

errors : get_error_log_directory qm1 ≡ codes "/var/mqm/qmgrs/qm1/errors"
unfolding get_error_log_directory
errors = refl

get_queue_manager_from_stanza-bare_example :
    is_panic (get_queue_manager_from_stanza (codes "QueueManager:\n   DataPath\n"))
    ≡ any is_bare (scan_lines (split (codes "QueueManager:\n   DataPath\n") b'\n'))
get_queue_manager_from_stanza-bare_example =
    get_queue_manager_from_stanza-bare (codes "QueueManager:\n   DataPath\n")

bare : is_panic (get_queue_manager_from_stanza (codes "QueueManager:\n   DataPath\n")) ≡ true
unfolding get_queue_manager_from_stanza
bare = refl
