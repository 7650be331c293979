-- ===== src/Copying.antt =====
-- mq-container-master/internal/copy/copy.go and internal/filecheck/filecheck.go: a file is copied over another, if its source is valid.
mod Tests
use docker_local.Common.{
  ◌≡◌, refl, ap, ◌∙◌, Bool, true, false, ◌&&◌, ◌||◌, not, Option, none, some, List, [], ◌∷◌, any,
  if◌then◌else◌, Bool-cases, Option-cases, inl, inr, arith,
}
use docker_local.Common.Text.{Text, codes, text_eq, has_prefix, is_empty}
use docker_local.Disk.{
  Disk, OsError, fault, Outcome, open_file, close_file, read_file, write_file, put, or_empty,
  create, overwrite, write_over, put-content, put-other,
}
use docker_local.Paths.Clean.{is_abs, clean, clean_path, join_paths}

-- `filepath.Abs`, given the working directory.
abbrev pub abs : Text → Text → Text
abs cwd path = if is_abs path then clean path else join_paths cwd path

abbrev pub prefixes : List Text
prefixes =
    codes "bin"
    ∷ codes "boot"
    ∷ codes "dev"
    ∷ codes "lib"
    ∷ codes "lib64"
    ∷ codes "proc"
    ∷ codes "sbin"
    ∷ codes "sys"
    ∷ []

-- `CheckFileSource`: is the name valid.
unfoldable pub check_file_source : Text → Text → Bool
unfolding clean_path has_prefix join_paths clean
check_file_source cwd file_name =
    not (
      any (λ prefix. has_prefix (abs cwd file_name) (clean_path (codes "/" ∷ prefix ∷ [])))
        prefixes)

-- `io.Copy` and the close; a file with nothing in it is not written.
abbrev pub copy_bytes : Text → Text → Text → Disk → Outcome
copy_bytes src dest t d =
    if d.fails read_file src || (d.fails write_file dest && not (is_empty t))
    then (d, some fault)
    else (write_over dest t d, if d.fails close_file dest then some fault else none)

abbrev pub copy_to : Text → Text → Text → Outcome → Outcome
copy_to src dest t (d, some e) = (d, some e)
copy_to src dest t (d, none) = copy_bytes src dest t d

abbrev pub copy_from : Text → Text → Option Text → Disk → Outcome
copy_from src dest none d = (d, some fault)
copy_from src dest (some t) d = copy_to src dest t (create dest d)

-- `CopyFileMode`, and `CopyFile` with it; the permissions are outside the disk.
unfoldable pub copy_file : Text → Text → Text → Disk → Outcome
unfolding check_file_source create write_over
copy_file cwd src dest d =
    if not (check_file_source cwd src) || d.fails open_file src
    then (d, some fault)
    else copy_from src dest (d.content src) d

-- The source is valid, and the destination has its bytes, with what was behind them.
abbrev pub IsCopied : Text → Text → Text → Disk → Disk → Type 0
IsCopied cwd src dest d d' =
    (check_file_source cwd src ≡ true)
    × (d'.content dest ≡ some (overwrite (or_empty (d.content src)) (or_empty (d.content dest))))

copy_bytes-content :
    (src dest t : Text) (d : Disk)
    → (copy_bytes src dest t d).1 ≡ none
    → (copy_bytes src dest t d).0.content dest ≡ some (overwrite t (or_empty (d.content dest)))
unfolding write_over
copy_bytes-content src dest t d h =
    elim (Bool-cases (d.fails read_file src || (d.fails write_file dest && not (is_empty t)))) [
      | inl e ↦ let failed = rw e at h in cc
      | inr e ↦ rw e (put-content dest (some (overwrite t (or_empty (d.content dest)))) d)
    ]

copy_to-content :
    (src dest t : Text) (d : Disk)
    → (copy_to src dest t (create dest d)).1 ≡ none
    → (copy_to src dest t (create dest d)).0.content dest
      ≡ some (overwrite t (or_empty (d.content dest)))
unfolding create
copy_to-content src dest t d h = elim (Bool-cases (d.fails open_file dest)) [
  | inl e ↦ let failed = rw e at h in cc
  | inr e ↦
      let opened = put dest (some (or_empty (d.content dest))) d in
      let same = put-content dest (some (or_empty (d.content dest))) d in
      rw e (
        copy_bytes-content src dest t opened (rw e at h)
        ∙ ap (λ o. some (overwrite t (or_empty o))) same)
]

copy_from-content :
    (src dest : Text) (o : Option Text) (d : Disk)
    → (copy_from src dest o d).1 ≡ none
    → (copy_from src dest o d).0.content dest
      ≡ some (overwrite (or_empty o) (or_empty (d.content dest)))
copy_from-content src dest none d h = cc
copy_from-content src dest (some t) d h = copy_to-content src dest t d h

neither : (valid fails : Bool) → (not valid || fails) ≡ false → valid ≡ true
neither true fails h = refl
neither false fails h = cc

-- If `CopyFile` returns no error, then the source is not in a system directory, and the destination holds the bytes of the source, and behind
-- them what it held there before.
pub copy_file-IsCopied :
    (cwd src dest : Text) (d : Disk)
    → (copy_file cwd src dest d).1 ≡ none
    → IsCopied cwd src dest d (copy_file cwd src dest d).0
unfolding copy_file
copy_file-IsCopied cwd src dest d h =
    elim (Bool-cases (not (check_file_source cwd src) || d.fails open_file src)) [
      | inl e ↦ let failed = rw e at h in cc
      | inr e ↦ (
        neither (check_file_source cwd src) (d.fails open_file src) e,
        rw e (copy_from-content src dest (d.content src) d (rw e at h)),
      )
    ]

-- No other file changes.
copy_bytes-other :
    (src dest other t : Text) (d : Disk)
    → text_eq dest other ≡ false
    → (copy_bytes src dest t d).0.content other ≡ d.content other
unfolding write_over
copy_bytes-other src dest other t d e =
    elim (Bool-cases (d.fails read_file src || (d.fails write_file dest && not (is_empty t)))) [
      | inl f ↦ rw f refl
      | inr f ↦ rw f (put-other dest other (some (overwrite t (or_empty (d.content dest)))) d e)
    ]

copy_to-other :
    (src dest other t : Text) (d : Disk)
    → text_eq dest other ≡ false
    → (copy_to src dest t (create dest d)).0.content other ≡ d.content other
unfolding create
copy_to-other src dest other t d e = elim (Bool-cases (d.fails open_file dest)) [
  | inl f ↦ rw f refl
  | inr f ↦
      let opened = put dest (some (or_empty (d.content dest))) d in
      rw f (
        copy_bytes-other src dest other t opened e
        ∙ put-other dest other (some (or_empty (d.content dest))) d e)
]

copy_from-other :
    (src dest other : Text) (o : Option Text) (d : Disk)
    → text_eq dest other ≡ false
    → (copy_from src dest o d).0.content other ≡ d.content other
copy_from-other src dest other none d e = refl
copy_from-other src dest other (some t) d e = copy_to-other src dest other t d e

pub copy_file-other :
    (cwd src dest other : Text) (d : Disk)
    → text_eq dest other ≡ false
    → (copy_file cwd src dest d).0.content other ≡ d.content other
unfolding copy_file
copy_file-other cwd src dest other d e =
    elim (Bool-cases (not (check_file_source cwd src) || d.fails open_file src)) [
      | inl f ↦ rw f refl
      | inr f ↦ rw f (copy_from-other src dest other (d.content src) d e)
    ]
