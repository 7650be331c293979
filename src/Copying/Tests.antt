-- ===== src/Copying/Tests.antt =====
-- A shorter file that is copied over a longer one.
use docker_local.Common.{◌≡◌, refl, false, none, some, ◌∷◌, ◌++◌, ◌+◌, if◌then◌else◌}
use docker_local.Common.Text.{Text, codes, text_eq}
use docker_local.Disk.{Disk, cut, overwrite}
use docker_local.Copying.{check_file_source, copy_file, IsCopied, copy_file-IsCopied}

abbrev sample : Text
sample = codes "/opt/mqm/samp/web/server.xml"

abbrev server_xml : Text
server_xml = codes "/var/mqm/web/server.xml"

-- The sample, and a longer file everywhere else.
abbrev disk : Disk
disk = record {
  content = λ path. if text_eq path sample then some (codes "<new/>") else some (codes "<older/>");
  fails = λ operation path. false;
}

copied : (copy_file (codes "/") sample server_xml disk).1 ≡ none
unfolding copy_file
copied = refl

copy_file-IsCopied_example :
    IsCopied (codes "/") sample server_xml disk (copy_file (codes "/") sample server_xml disk).0
copy_file-IsCopied_example = copy_file-IsCopied (codes "/") sample server_xml disk copied

broken :
    (copy_file (codes "/") sample server_xml disk).0.content server_xml ≡ some (codes "<new/>/>")
unfolding copy_file text_eq
broken = refl

system_file : check_file_source (codes "/") (codes "../proc/self/environ") ≡ false
unfolding check_file_source
system_file = refl

-- The second byte of a rune is left.
cut_in_two : overwrite (codes "abc") (codes "xyéz") ≡ codes "abc" ++ (cut + 169) ∷ codes "z"
unfolding overwrite
cut_in_two = refl
