-- ===== src/Volumes/Spared.antt =====
-- No path that is to be skipped is removed.
use docker_local.Common.{
  ℕ, ◌<◌, ◌≡◌, refl, Bool, false, some, List, [], ◌∷◌, ◌++◌, All, any, length, if◌then◌else◌, arith,
  Bool-cases, inl, inr,
}
use docker_local.Volumes.Clean.{
  FilePath, text_of, path_eq, skip_paths_map, Node, file, directory, Forest, empty, entry, walk_dir,
  walk_entries, clean_volume_best_effort,
}
use docker_local.Volumes.Parents.{map-returns, is_above, map-listed}

-- What the walk removes is below the path that is cleaned, and is not skipped.
abbrev Attempt : (FilePath → Bool) → FilePath → FilePath → Type 0
Attempt skips clean_path r = (skips r ≡ false) × ((rel : FilePath) × (r ≡ rel ++ clean_path))

All-both :
    (skips : FilePath → Bool) (clean_path : FilePath) (xs ys : List FilePath)
    → All (Attempt skips clean_path) xs
    → All (Attempt skips clean_path) ys
    → All (Attempt skips clean_path) (xs ++ ys)
All-both skips clean_path [] ys h k = k
All-both skips clean_path (x ∷ xs) ys h k = (h.0, All-both skips clean_path xs ys h.1 k)

-- At one path, where `inside` is removed below it.
visit-Attempt :
    (skips fails : FilePath → Bool) (clean_path pre : FilePath) (inside : List FilePath)
    → All (Attempt skips clean_path) inside
    → All (Attempt skips clean_path) (
        if skips (pre ++ clean_path)
        then inside
        else (pre ++ clean_path) ∷ (if fails (pre ++ clean_path) then inside else []))
visit-Attempt skips fails clean_path pre inside h = elim (Bool-cases (skips (pre ++ clean_path))) [
  | inl e ↦ rw e h
  | inr e ↦ elim (Bool-cases (fails (pre ++ clean_path))) [
    | inl f ↦ rw (e, f) ((e, (pre, refl)), h)
    | inr f ↦ rw (e, f) ((e, (pre, refl)), tt)
  ]
]

file-Attempt :
    (skips : FilePath → Bool) (clean_path pre : FilePath)
    → All
        (Attempt skips clean_path)
        (if skips (pre ++ clean_path) then [] else (pre ++ clean_path) ∷ [])
file-Attempt skips clean_path pre = elim (Bool-cases (skips (pre ++ clean_path))) [
  | inl e ↦ rw e tt
  | inr e ↦ rw e ((e, (pre, refl)), tt)
]

mutual
  unfolding walk_dir

  walk_dir-Attempt :
      (skips fails : FilePath → Bool) (clean_path pre : FilePath) (node : Node)
      → All (Attempt skips clean_path) (walk_dir skips fails (pre ++ clean_path) node)
  walk_dir-Attempt skips fails clean_path pre file = file-Attempt skips clean_path pre
  walk_dir-Attempt skips fails clean_path pre (directory entries) =
      visit-Attempt skips fails clean_path pre
        (walk_entries skips fails (pre ++ clean_path) entries)
        (walk_entries-Attempt skips fails clean_path pre entries)

  walk_entries-Attempt :
      (skips fails : FilePath → Bool) (clean_path pre : FilePath) (entries : Forest)
      → All (Attempt skips clean_path) (walk_entries skips fails (pre ++ clean_path) entries)
  walk_entries-Attempt skips fails clean_path pre empty = tt
  walk_entries-Attempt skips fails clean_path pre (entry name node entries) =
      All-both skips clean_path (walk_dir skips fails (name ∷ pre ++ clean_path) node)
        (walk_entries skips fails (pre ++ clean_path) entries)
        (walk_dir-Attempt skips fails clean_path (name ∷ pre) node)
        (walk_entries-Attempt skips fails clean_path pre entries)

spared :
    (fuel : ℕ) (clean_path sp : FilePath) (front back paths : List FilePath)
    (removed : List FilePath)
    → skip_paths_map fuel clean_path (front ++ sp ∷ back) ≡ some paths
    → All (Attempt (λ p. any (path_eq p) paths) clean_path) removed
    → All (λ r. is_above r sp ≡ false) removed
spared fuel clean_path sp front back paths [] e h = tt
spared fuel clean_path sp front back paths (r ∷ removed) e h = (
  elim (Bool-cases (is_above r sp)) [
    | inl a ↦
        let (kept, (rel, b)) = h.0 in
        let l = map-listed fuel clean_path r rel sp front back paths e b a in absurd (ground arith)
    | inr a ↦ a
  ],
  spared fuel clean_path sp front back paths removed e h.1,
)

-- Where the path that is cleaned is not the root and the fuel is more than the words of each skipped path,
-- `cleanVolumeBestEffort` ends, whatever cannot be removed; and it calls `os.RemoveAll` neither on a skipped path nor on a directory above
-- one.
pub clean_volume_best_effort-spares :
    (fuel : ℕ) (fails : FilePath → Bool) (clean_path sp : FilePath) (front back : List FilePath)
    (node : Node)
    → 1 < length (text_of clean_path)
    → All (λ p. length p < fuel) (front ++ sp ∷ back)
    → (removed : List FilePath) × (clean_volume_best_effort fuel fails clean_path
          (front ++ sp ∷ back)
          node
        ≡ some removed)
      × All (λ r. is_above r sp ≡ false) removed
unfolding clean_volume_best_effort
clean_volume_best_effort-spares fuel fails clean_path sp front back node h k =
    let (paths, e) = map-returns fuel clean_path (front ++ sp ∷ back) h k in
    let skips : FilePath → Bool = λ p. any (path_eq p) paths in
    (
      walk_dir skips fails clean_path node,
      rw e refl,
      spared fuel clean_path sp front back paths (walk_dir skips fails clean_path node) e
          (walk_dir-Attempt skips fails clean_path [] node),
    )
