-- ===== src/Paths/Clean.antt =====
-- `CleanPath`, and the functions of Go's packages `path` and `path/filepath` that it calls, which are alike on Linux.
use docker_local.Common.{Bool, true, false, ◌||◌, List, [], ◌∷◌, ◌++◌, ◌==◌, foldl, if◌then◌else◌}
use docker_local.Common.Text.{Text, codes, is_empty, text_eq, split, join}

abbrev pub dot : Text
dot = codes "."

abbrev pub dot_dot : Text
dot_dot = codes ".."

-- `path.IsAbs`
abbrev pub is_abs : Text → Bool
is_abs [] = false
is_abs (c ∷ s) = c == b'/'

-- A `..` takes the last word away. At the root it does nothing, and at the beginning of a relative path it stays.
unfoldable pub leave : Bool → List Text → List Text
unfolding text_eq
leave true [] = []
leave true (w ∷ stack) = stack
leave false [] = dot_dot ∷ []
leave false (w ∷ stack) = if text_eq w dot_dot then dot_dot ∷ w ∷ stack else stack

-- The words so far, the last first, and the next word of the path.
unfoldable pub enter : Bool → List Text → Text → List Text
unfolding text_eq leave
enter rooted stack w =
    if is_empty w || text_eq w dot
    then stack
    else if text_eq w dot_dot
    then leave rooted stack
    else w ∷ stack

abbrev pub reverse_onto : List Text → List Text → List Text
reverse_onto [] ws = ws
reverse_onto (v ∷ vs) ws = reverse_onto vs (v ∷ ws)

-- The words of a path behind all `.` and `..`.
unfoldable pub words : Bool → Text → List Text
unfolding enter split
words rooted s = reverse_onto (foldl (enter rooted) [] (split s b'/')) []

unfoldable pub shown : Bool → List Text → Text
unfolding join
shown true ws = b'/' ∷ join ws (codes "/")
shown false [] = dot
shown false (w ∷ ws) = join (w ∷ ws) (codes "/")

-- `path.Clean`
unfoldable pub clean : Text → Text
unfolding shown words
clean s = shown (is_abs s) (words (is_abs s) s)

-- `filepath.Join` of two paths.
unfoldable pub join_paths : Text → Text → Text
unfolding clean
join_paths [] [] = []
join_paths [] (c ∷ s) = clean (c ∷ s)
join_paths (c ∷ s) t = clean ((c ∷ s) ++ b'/' ∷ t)

-- The loop of `CleanPath`.
abbrev pub add_part : Text → Text → Text
add_part combined part = join_paths combined (clean (b'/' ∷ part))

unfoldable pub clean_path : List Text → Text
unfolding join_paths clean
clean_path [] = []
clean_path (p ∷ ps) = foldl add_part (if is_abs p then [] else codes "./") (p ∷ ps)
