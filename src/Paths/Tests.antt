-- ===== src/Paths/Tests.antt =====
-- `CleanPath` of a part that tries to leave the part before.
use docker_local.Common.{◌≡◌, refl, List, [], ◌∷◌, All}
use docker_local.Common.Text.{Text, codes, split, join}
use docker_local.Paths.Clean.{is_abs, shown, clean_path, clean, join_paths, words, enter, leave}
use docker_local.Paths.Below.{IsName, below, clean_path-below}

abbrev traversal : List Text
traversal = codes "../../etc/./passwd" ∷ []

stays_below : clean_path (codes "/mnt/data/" ∷ traversal) ≡ codes "/mnt/data/etc/passwd"
unfolding clean_path clean join_paths words enter leave shown split join
stays_below = refl

clean_path-below_example :
    (clean_path (codes "/mnt/data/" ∷ traversal)
      ≡ shown (is_abs (codes "/mnt/data/")) (below (codes "/mnt/data/" ∷ traversal)))
    × All IsName (below (codes "/mnt/data/" ∷ traversal))
clean_path-below_example = clean_path-below (codes "/mnt/data/") traversal
