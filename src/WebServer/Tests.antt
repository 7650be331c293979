-- ===== src/WebServer/Tests.antt =====
-- A volume with the keys of an older version, and one with no file at all.
use docker_local.Common.{◌≡◌, refl, true, false, none, some, List, [], ◌∷◌, ◌++◌, if◌then◌else◌}
use docker_local.Common.Text.{Text, codes, text_eq, has_prefix, has_suffix}
use docker_local.Disk.{Disk, put}
use docker_local.WebServer.Ltpa.{ltpa_keys_file, refreshed_file, is_there, ltpa_keys_file_fix}
use docker_local.WebServer.Refreshed.{ltpa_keys_file_fix-once}
use docker_local.WebServer.Files.{Tree, Visit, prefix, volume, link_at, walk}
use docker_local.WebServer.Linked.{walk-unpersisted}

abbrev upgraded : Disk
upgraded = record {
  content = λ path. if text_eq path ltpa_keys_file then some (codes "old") else none;
  fails = λ operation path. false;
}

-- The keys that Liberty has made since the first start.
abbrev restarted : Disk
restarted = put ltpa_keys_file (some (codes "new")) (ltpa_keys_file_fix upgraded).disk

first_start : (ltpa_keys_file_fix upgraded).error ≡ none
unfolding ltpa_keys_file_fix text_eq
first_start = refl

removed_once : (ltpa_keys_file_fix upgraded).disk.content ltpa_keys_file ≡ none
unfolding ltpa_keys_file_fix text_eq
removed_once = refl

marker_left :
    restarted.content refreshed_file ≡ (ltpa_keys_file_fix upgraded).disk.content refreshed_file
unfolding put text_eq
marker_left = refl

ltpa_keys_file_fix-once_example :
    (ltpa_keys_file_fix restarted).disk.content ltpa_keys_file ≡ restarted.content ltpa_keys_file
ltpa_keys_file_fix-once_example =
    ltpa_keys_file_fix-once upgraded restarted refl first_start marker_left

abbrev below_prefix : Text
below_prefix = codes "/servers/mqweb/mqwebuser.xml"

abbrev empty_volume : Tree
empty_volume = record {
  disk = record {
    content = λ path. if has_prefix path prefix then some (codes "<secret/>") else none;
    fails = λ operation path. false;
  };
  directories = [];
  links = [];
  mkdir_fails = λ path. false;
  symlink_fails = λ path. false;
}

abbrev file : Text → Visit
file below = record { below = below; is_dir = false; failed = false }

abbrev visits : List Visit
visits = file below_prefix ∷ file (codes "/servers/mqweb/tls.xml") ∷ []

is_user : has_suffix (prefix ++ below_prefix) (codes "/mqwebuser.xml") ≡ true
unfolding has_suffix
is_user = refl

not_there : is_there (empty_volume.disk.content (volume ++ below_prefix)) ≡ false
unfolding has_prefix
not_there = refl

walk-unpersisted_example :
    is_there ((walk visits empty_volume).0.disk.content (volume ++ below_prefix)) ≡ false
walk-unpersisted_example = walk-unpersisted below_prefix visits empty_volume is_user not_there

-- The file is linked, and the other is copied.
linked :
    link_at (volume ++ below_prefix) (walk visits empty_volume).0.links
    ≡ some (prefix ++ below_prefix)
unfolding walk
linked = refl

copied :
    (walk visits empty_volume).0.disk.content (codes "/var/mqm/web/servers/mqweb/tls.xml")
    ≡ some (codes "<secret/>")
unfolding walk text_eq
copied = refl
