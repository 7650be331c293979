-- ===== src/Volumes/Tests.antt =====
-- A volume with a file that is to be skipped.
use docker_local.Common.{◌<◌, ◌≡◌, refl, false, some, List, [], ◌∷◌, All, length, arith}
use docker_local.Common.Text.{codes, text_eq, has_prefix, join}
use docker_local.Paths.Clean.{shown}
use docker_local.Volumes.Clean.{
  FilePath, text_of, path_eq, with_parents, skip_paths_map, Node, file, directory, empty, entry,
  walk_dir, clean_volume_best_effort,
}
use docker_local.Volumes.Parents.{is_above}
use docker_local.Volumes.Spared.{clean_volume_best_effort-spares}

abbrev scratch : FilePath
scratch = codes "scratch" ∷ codes "mnt" ∷ []

abbrev secret : FilePath
secret = codes "token" ∷ codes "secrets" ∷ scratch

abbrev volume : Node
volume = directory (
    entry (codes "secrets")
      (directory (entry (codes "old") file (entry (codes "token") file empty)))
      (entry (codes "tmp") file empty))

removes_others :
    clean_volume_best_effort 9 (λ p. false) scratch (secret ∷ []) volume
    ≡ some ((codes "old" ∷ codes "secrets" ∷ scratch) ∷ (codes "tmp" ∷ scratch) ∷ [])
unfolding clean_volume_best_effort skip_paths_map with_parents has_prefix text_of walk_dir path_eq
    text_eq shown join
removes_others = refl

long_enough : 1 < length (text_of scratch)
unfolding text_of shown join
long_enough = omega arith

clean_volume_best_effort-spares_example :
    (removed : List FilePath) × (clean_volume_best_effort 9
        (λ p. false)
        scratch
        (secret ∷ [])
        volume
      ≡ some removed)
    × All (λ r. is_above r secret ≡ false) removed
clean_volume_best_effort-spares_example =
    clean_volume_best_effort-spares 9 (λ p. false) scratch secret [] [] volume long_enough
      (omega arith, tt)
