-- ===== src/WebServer/Files.antt =====
-- `configureWebServer`: the files under /etc/mqm/web are copied to the volume, and a file mqwebuser.xml is linked.
use docker_local.Common.{
  Bool, true, false, ◌||◌, Option, none, some, List, [], ◌∷◌, ◌++◌, any, if◌then◌else◌,
}
use docker_local.Common.Text.{Text, codes, text_eq, has_suffix}
use docker_local.Disk.{Disk, OsError, fault, Outcome, stat_file, remove_file, remove}
use docker_local.Copying.{copy_file}
use docker_local.Volumes.Clean.{Found, there, missing, unknown}
use docker_local.WebServer.Ltpa.{is_there}

-- The disk, with its directories and symbolic links, and the calls on them that fail. The target of a link is a file.
pub record Tree : Type 0 where
  pub disk : Disk
  pub directories : List Text
  pub links : List (Text × Text)
  pub mkdir_fails : Text → Bool
  pub symlink_fails : Text → Bool

abbrev pub Step : Type 0
Step = Tree × Option OsError

unfoldable pub link_at : Text → List (Text × Text) → Option Text
unfolding text_eq
link_at path [] = none
link_at path ((name, target) ∷ links) =
    let rest = link_at path links in if text_eq path name then some target else rest

-- `os.Stat`, which follows a link.
abbrev pub target_of : Text → Option Text → Text
target_of path none = path
target_of path (some target) = target

abbrev pub is_directory : Text → Tree → Bool
is_directory path t = any (text_eq path) t.directories

abbrev pub found : Bool → Found
found true = there
found false = missing

abbrev pub stat : Text → Tree → Found
stat path t =
    if t.disk.fails stat_file path
    then unknown
    else found
        (is_directory path t || is_there (t.disk.content (target_of path (link_at path t.links))))

-- `os.MkdirAll`, for the directory itself.
abbrev pub make_directory : Text → Tree → Step
make_directory path t =
    if t.mkdir_fails path
    then (t, some fault)
    else (record t { directories = path ∷ t.directories }, none)

abbrev pub on_disk : Tree → Outcome → Step
on_disk t (d, e) = (record t { disk = d }, e)

-- `os.Remove`: of a link, of a directory, or of a file.
unfoldable pub without_link : Text → List (Text × Text) → List (Text × Text)
unfolding text_eq
without_link path [] = []
without_link path ((name, target) ∷ links) =
    let rest = without_link path links in if text_eq path name then rest else (name, target) ∷ rest

unfoldable pub without : Text → List Text → List Text
unfolding text_eq
without path [] = []
without path (name ∷ names) =
    let rest = without path names in if text_eq path name then rest else name ∷ rest

abbrev pub remove_it : Text → Tree → Option Text → Step
remove_it path t (some target) =
    if t.disk.fails remove_file path
    then (t, some fault)
    else (record t { links = without_link path t.links }, none)
remove_it path t none =
    if is_directory path t
    then (if t.disk.fails remove_file path
        then (t, some fault)
        else (record t { directories = without path t.directories }, none))
    else on_disk t (remove path t.disk)

abbrev pub remove_path : Text → Tree → Step
remove_path path t = remove_it path t (link_at path t.links)

-- `os.Symlink`, where nothing has the name.
abbrev pub is_taken : Text → Tree → Bool
is_taken path t =
    is_directory path t || is_there (t.disk.content path) || is_there (link_at path t.links)

abbrev pub symlink : Text → Text → Tree → Step
symlink target path t =
    if t.symlink_fails path || is_taken path t
    then (t, some fault)
    else (record t { links = (path, target) ∷ t.links }, none)

-- A file or directory that `filepath.Walk` comes to: its path behind the prefix, and whether the walk has an error there.
pub record Visit : Type 0 where
  pub below : Text
  pub is_dir : Bool
  pub failed : Bool

abbrev pub prefix : Text
prefix = codes "/etc/mqm/web"

abbrev pub volume : Text
volume = codes "/var/mqm/web"

abbrev pub from : Visit → Text
from v = prefix ++ v.below

abbrev pub to : Visit → Text
to v = volume ++ v.below

abbrev pub is_user_file : Visit → Bool
is_user_file v = has_suffix (from v) (codes "/mqwebuser.xml")

abbrev pub place : Visit → Tree → Step
place v t =
    if is_user_file v
    then symlink (from v) (to v) t
    else on_disk t (copy_file (codes "/") (from v) (to v) t.disk)

abbrev pub place_behind : Visit → Step → Step
place_behind v (t, some e) = (t, some e)
place_behind v (t, none) = place v t

abbrev pub visit_file : Visit → Bool → Tree → Step
visit_file v true t = place_behind v (remove_path (to v) t)
visit_file v false t = place v t

abbrev pub visit_directory : Visit → Bool → Tree → Step
visit_directory v true t = (t, none)
visit_directory v false t = make_directory (to v) t

abbrev pub visit_as : Visit → Bool → Tree → Step
visit_as v exists t = if v.is_dir then visit_directory v exists t else visit_file v exists t

abbrev pub visit_found : Visit → Found → Tree → Step
visit_found v there t = visit_as v true t
visit_found v missing t = visit_as v false t
visit_found v unknown t = (t, some fault)

-- The function that the walk calls, and the walk, which stops at an error.
unfoldable pub visit : Visit → Tree → Step
unfolding text_eq has_suffix link_at without_link without copy_file remove
visit v t = if v.failed then (t, some fault) else visit_found v (stat (to v) t) t

abbrev pub walk_on : (Tree → Step) → Step → Step
walk_on rest (t, some e) = (t, some e)
walk_on rest (t, none) = rest t

unfoldable pub walk : List Visit → Tree → Step
unfolding visit
walk [] t = (t, none)
walk (v ∷ vs) t = walk_on (walk vs) (visit v t)
