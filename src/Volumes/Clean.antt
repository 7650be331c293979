-- ===== src/Volumes/Clean.antt =====
-- `createVolume`, `cleanVolume` and `cleanVolumeBestEffort`.
use docker_local.Common.{
  ℕ, zero, suc, Bool, true, false, ◌&&◌, Option, none, some, List, [], ◌∷◌, ◌++◌, any,
  if◌then◌else◌,
}
use docker_local.Common.Text.{Text, text_eq, has_prefix}
use docker_local.Paths.Clean.{reverse_onto, shown}

-- A path from the root without `.` and `..`: its words, the last first.
abbrev pub FilePath : Type 0
FilePath = List Text

unfoldable pub text_of : FilePath → Text
unfolding shown
text_of path = shown true (reverse_onto path [])

unfoldable pub path_eq : FilePath → FilePath → Bool
unfolding text_eq
path_eq [] [] = true
path_eq (v ∷ p) (w ∷ q) = text_eq v w && path_eq p q
path_eq _ _ = false

-- What `os.Stat` tells of a path.
pub data Found : Type 0 where
  there missing unknown : Found

-- `createVolume`: whether it succeeds, where `makes` says whether `os.MkdirAll` does.
abbrev pub create_volume : Found → Bool → Bool
create_volume there makes = true
create_volume missing makes = makes
create_volume unknown makes = false

-- `cleanVolume`: the paths that are removed, up to the first that cannot be, and whether it succeeds.
unfoldable pub remove_each : (FilePath → Bool) → FilePath → List Text → List FilePath × Bool
remove_each fails path [] = ([], true)
remove_each fails path (name ∷ names) =
    let rest = remove_each fails path names in
    if fails (name ∷ path) then ([], false) else ((name ∷ path) ∷ rest.0, rest.1)

-- What `os.ReadDir` returns: the names, or an error.
pub data Listing : Type 0 where
  names : List Text → Listing
  not_there unreadable : Listing

unfoldable pub clean_volume : (FilePath → Bool) → FilePath → Listing → List FilePath × Bool
unfolding remove_each
clean_volume fails path (names ns) = remove_each fails path ns
clean_volume fails path not_there = ([], true)
clean_volume fails path unreadable = ([], false)

-- `filepath.Dir`
abbrev pub dir : FilePath → FilePath
dir [] = []
dir (w ∷ path) = path

abbrev pub add_found : FilePath → Option (List FilePath) → Option (List FilePath)
add_found path none = none
add_found path (some paths) = some (path ∷ paths)

-- The loop from a skipped path up to the path that is cleaned, on fuel.
unfoldable pub with_parents : ℕ → FilePath → FilePath → Option (List FilePath)
unfolding has_prefix text_of
with_parents zero clean_path skip_path = none
with_parents (suc fuel) clean_path skip_path =
    let rest = add_found skip_path (with_parents fuel clean_path (dir skip_path)) in
    if has_prefix (text_of skip_path) (text_of clean_path) then rest else some []

abbrev pub append_found : Option (List FilePath) → Option (List FilePath) → Option (List FilePath)
append_found (some paths) (some rest) = some (paths ++ rest)
append_found _ _ = none

-- `skipPathsMap`
unfoldable pub skip_paths_map : ℕ → FilePath → List FilePath → Option (List FilePath)
unfolding with_parents
skip_paths_map fuel clean_path [] = some (clean_path ∷ [])
skip_paths_map fuel clean_path (skip_path ∷ skip_paths) =
    append_found (with_parents fuel clean_path skip_path)
      (skip_paths_map fuel clean_path skip_paths)

mutual
  pub data Node : Type 0 where
    file : Node
    directory : Forest → Node

  pub data Forest : Type 0 where
    empty : Forest
    entry : Text → Node → Forest → Forest

-- The calls of `os.RemoveAll` that `filepath.WalkDir` leads to, in order. A call that fails removes nothing, and the walk goes into
-- that directory. Each directory can be read.
unfoldable mutual
  pub walk_dir : (FilePath → Bool) → (FilePath → Bool) → FilePath → Node → List FilePath
  walk_dir skips fails path file = if skips path then [] else path ∷ []
  walk_dir skips fails path (directory entries) =
      let inside = walk_entries skips fails path entries in
      if skips path then inside else path ∷ (if fails path then inside else [])

  pub walk_entries : (FilePath → Bool) → (FilePath → Bool) → FilePath → Forest → List FilePath
  walk_entries skips fails path empty = []
  walk_entries skips fails path (entry name node entries) =
      walk_dir skips fails (name ∷ path) node ++ walk_entries skips fails path entries

abbrev pub walk_with :
    Option (List FilePath) → (FilePath → Bool) → FilePath → Node → Option (List FilePath)
walk_with none fails clean_path node = none
walk_with (some skipped) fails clean_path node =
    some (walk_dir (λ path. any (path_eq path) skipped) fails clean_path node)

-- `cleanVolumeBestEffort`: what it calls `os.RemoveAll` on.
unfoldable pub clean_volume_best_effort :
    ℕ → (FilePath → Bool) → FilePath → List FilePath → Node → Option (List FilePath)
unfolding skip_paths_map walk_dir path_eq
clean_volume_best_effort fuel fails clean_path skip_paths node =
    walk_with (skip_paths_map fuel clean_path skip_paths) fails clean_path node
