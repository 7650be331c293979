-- ===== src/Paths/Below.antt =====
-- The parts of a path stand below each other.
use docker_local.Common.{
  ℕ, ◌≡◌, refl, sym, ap, ◌∙◌, Bool, true, false, List, [], ◌∷◌, ◌++◌, append-nil, append_assoc,
  ◌==◌, foldl, foldl-append, All, if◌then◌else◌, arith, Bool-cases, inl, inr,
}
use docker_local.Common.Text.{
  Text, codes, is_empty, text_eq, split, prepend, join, has_rune, split-word, split-separator,
}
use docker_local.Paths.Clean.{
  dot, dot_dot, is_abs, leave, enter, reverse_onto, words, shown, clean, join_paths, add_part,
  clean_path,
}

-- A word that names a file: not empty, not `.`, not `..`, and with no slash.
abbrev pub IsName : Text → Type 0
IsName w =
    (is_empty w ≡ false)
    × (text_eq w dot ≡ false)
    × (text_eq w dot_dot ≡ false)
    × (has_rune b'/' w ≡ false)

enter-IsName : (r : Bool) (st : List Text) (w : Text) → IsName w → enter r st w ≡ w ∷ st
unfolding enter
enter-IsName r st w (e, d, dd, s) = rw (e, d, dd) refl

enter_names :
    (r : Bool) (st ws : List Text) → All IsName ws → foldl (enter r) st ws ≡ reverse_onto ws st
enter_names r st [] h = refl
enter_names r st (w ∷ ws) h = rw (enter-IsName r st w h.0) (enter_names r (w ∷ st) ws h.1)

reverse_onto_twice :
    (ws st acc : List Text) → reverse_onto (reverse_onto ws st) acc ≡ reverse_onto st (ws ++ acc)
reverse_onto_twice [] st acc = refl
reverse_onto_twice (w ∷ ws) st acc = reverse_onto_twice ws (w ∷ st) acc

-- The words of `s/t` are those of `s` and those of `t`.
split-ne : (s : Text) (sep : ℕ) → (w : Text) × (ws : List Text) × (split s sep ≡ w ∷ ws)
unfolding split
split-ne [] sep = ([], [], refl)
split-ne (c ∷ s) sep = elim (Bool-cases (c == sep)) [
  | inl e ↦ ([], split s sep, rw e refl)
  | inr e ↦ let (w, ws, q) = split-ne s sep in (c ∷ w, ws, rw (e, q) refl)
]

pub split-append : (s t : Text) (sep : ℕ) → split (s ++ sep ∷ t) sep ≡ split s sep ++ split t sep
unfolding split
split-append [] t sep = ground arith
split-append (c ∷ s) t sep = elim (Bool-cases (c == sep)) [
  | inl e ↦ rw (e, split-append s t sep) refl
  | inr e ↦ let (w, ws, q) = split-ne s sep in rw (e, split-append s t sep, q) refl
]

split-join :
    (w : Text) (ws : List Text)
    → All IsName (w ∷ ws)
    → split (join (w ∷ ws) (codes "/")) b'/' ≡ w ∷ ws
unfolding join
split-join w [] h = split-word w b'/' h.0.3
split-join w (v ∷ vs) h =
    split-separator w (join (v ∷ vs) (codes "/")) b'/' h.0.3
    ∙ ap (λ ws. w ∷ ws) (split-join v vs h.1)

pub enter_shown :
    (r : Bool) (st ws : List Text)
    → All IsName ws
    → foldl (enter r) st (split (shown true ws) b'/') ≡ reverse_onto ws st
unfolding shown enter split join
enter_shown r st [] h = refl
enter_shown r st (w ∷ ws) h =
    ap (foldl (enter r) st) (split-join w ws h) ∙ enter_names r st (w ∷ ws) h

-- A text that is a path with the words.
record Stands (a : Text) (r : Bool) (ws : List Text) : Type 0 where
  rooted : is_abs a ≡ r
  filled : is_empty a ≡ false
  entered : foldl (enter r) [] (split a b'/') ≡ reverse_onto ws []

is_abs-append :
    (w s : Text) → is_empty w ≡ false → has_rune b'/' w ≡ false → is_abs (w ++ s) ≡ false
is_abs-append [] s e h = cc
is_abs-append (c ∷ w) s e h = ground arith

is_empty-append : (w s : Text) → is_empty w ≡ false → is_empty (w ++ s) ≡ false
is_empty-append [] s e = cc
is_empty-append (c ∷ w) s e = refl

join_cons : (w : Text) (ws : List Text) → (s : Text) × (join (w ∷ ws) (codes "/") ≡ w ++ s)
unfolding join
join_cons w [] = ([], sym (append-nil w))
join_cons w (v ∷ vs) = (b'/' ∷ join (v ∷ vs) (codes "/"), refl)

shown-Stands : (r : Bool) (ws : List Text) → All IsName ws → Stands (shown r ws) r ws
unfolding shown enter split
shown-Stands true ws h = record { rooted = refl; filled = refl; entered = enter_shown true [] ws h }
shown-Stands false [] h = record { rooted = refl; filled = refl; entered = refl }
shown-Stands false (w ∷ ws) h =
    let (s, e) = join_cons w ws in
    record {
      rooted = ap is_abs e ∙ is_abs-append w s h.0.0 h.0.3;
      filled = ap is_empty e ∙ is_empty-append w s h.0.0;
      entered = ap (foldl (enter false) []) (split-join w ws h) ∙ enter_names false [] (w ∷ ws) h;
    }

reversed : (ws vs : List Text) → reverse_onto (reverse_onto vs (reverse_onto ws [])) [] ≡ ws ++ vs
reversed ws vs =
    reverse_onto_twice vs (reverse_onto ws []) []
    ∙ reverse_onto_twice ws [] (vs ++ [])
    ∙ ap (λ us. ws ++ us) (append-nil vs)

join_paths-Stands :
    (a : Text) (r : Bool) (ws vs : List Text)
    → Stands a r ws
    → All IsName vs
    → join_paths a (shown true vs) ≡ shown r (ws ++ vs)
unfolding join_paths clean words
join_paths-Stands [] r ws vs st h = absurd (let e = st.filled in cc)
join_paths-Stands (c ∷ s) r ws vs st h =
    let b = shown true vs in
    let steps : foldl (enter r) [] (split ((c ∷ s) ++ b'/' ∷ b) b'/')
        ≡ reverse_onto vs (reverse_onto ws []) =
      ap (foldl (enter r) []) (split-append (c ∷ s) b b'/')
      ∙ foldl-append (enter r) [] (split (c ∷ s) b'/') (split b b'/')
      ∙ ap (λ us. foldl (enter r) us (split b b'/')) st.entered
      ∙ enter_shown r (reverse_onto ws []) vs h in
    ap (λ q. shown q (words q ((c ∷ s) ++ b'/' ∷ b))) st.rooted
    ∙ ap (λ us. shown r (reverse_onto us [])) steps
    ∙ ap (shown r) (reversed ws vs)

prepend-slash_free :
    (c : ℕ) (ws : List Text)
    → (c == b'/') ≡ false
    → All (λ w. has_rune b'/' w ≡ false) ws
    → All (λ w. has_rune b'/' w ≡ false) (prepend c ws)
unfolding prepend
prepend-slash_free c [] e h = (rw e refl, tt)
prepend-slash_free c (w ∷ ws) e h = (rw e h.0, h.1)

-- Every word that a rooted path is split into is a name, or changes nothing but what stood there.
split-slash_free : (s : Text) → All (λ w. has_rune b'/' w ≡ false) (split s b'/')
unfolding split
split-slash_free [] = (refl, tt)
split-slash_free (c ∷ s) = elim (Bool-cases (c == b'/')) [
  | inl e ↦ rw e (refl, split-slash_free s)
  | inr e ↦ rw e (prepend-slash_free c (split s b'/') e (split-slash_free s))
]

leave_keeps : (st : List Text) → All IsName st → All IsName (leave true st)
unfolding leave
leave_keeps [] h = tt
leave_keeps (w ∷ st) h = h.1

enter_keeps :
    (st : List Text) (w : Text)
    → has_rune b'/' w ≡ false
    → All IsName st
    → All IsName (enter true st w)
unfolding enter leave
enter_keeps st w f h = elim (Bool-cases (is_empty w)) [
  | inl e ↦ rw e h
  | inr e ↦ elim (Bool-cases (text_eq w dot)) [
    | inl d ↦ rw (e, d) h
    | inr d ↦ elim (Bool-cases (text_eq w dot_dot)) [
      | inl dd ↦ rw (e, d, dd) (leave_keeps st h)
      | inr dd ↦ rw (e, d, dd) ((e, d, dd, f), h)
    ]
  ]
]

enters_keep :
    (st ws : List Text)
    → All (λ w. has_rune b'/' w ≡ false) ws
    → All IsName st
    → All IsName (foldl (enter true) st ws)
enters_keep st [] f h = h
enters_keep st (w ∷ ws) f h = enters_keep (enter true st w) ws f.1 (enter_keeps st w f.0 h)

reverse_onto-All :
    (vs ws : List Text) → All IsName vs → All IsName ws → All IsName (reverse_onto vs ws)
reverse_onto-All [] ws h k = k
reverse_onto-All (v ∷ vs) ws h k = reverse_onto-All vs (v ∷ ws) h.1 (h.0, k)

-- The words of one part, which cannot leave the root.
abbrev pub resolve : Text → List Text
resolve part = words true (b'/' ∷ part)

resolve-IsName : (part : Text) → All IsName (resolve part)
unfolding words
resolve-IsName part =
    reverse_onto-All (foldl (enter true) [] (split (b'/' ∷ part) b'/')) []
      (enters_keep [] (split (b'/' ∷ part) b'/') (split-slash_free (b'/' ∷ part)) tt) tt

abbrev pub below : List Text → List Text
below [] = []
below (p ∷ ps) = resolve p ++ below ps

All-append : (ws vs : List Text) → All IsName ws → All IsName vs → All IsName (ws ++ vs)
All-append [] vs h k = k
All-append (w ∷ ws) vs h k = (h.0, All-append ws vs h.1 k)

below-IsName : (ps : List Text) → All IsName (below ps)
below-IsName [] = tt
below-IsName (p ∷ ps) = All-append (resolve p) (below ps) (resolve-IsName p) (below-IsName ps)

add_part-shown :
    (a : Text) (r : Bool) (ws : List Text) (p : Text)
    → Stands a r ws
    → add_part a p ≡ shown r (ws ++ resolve p)
unfolding clean
add_part-shown a r ws p st = join_paths-Stands a r ws (resolve p) st (resolve-IsName p)

add_parts :
    (r : Bool) (ws ps : List Text)
    → All IsName ws
    → foldl add_part (shown r ws) ps ≡ shown r (ws ++ below ps)
add_parts r ws [] h = ap (shown r) (sym (append-nil ws))
add_parts r ws (p ∷ ps) h =
    ap (λ a. foldl add_part a ps) (add_part-shown (shown r ws) r ws p (shown-Stands r ws h))
    ∙ add_parts r (ws ++ resolve p) ps (All-append ws (resolve p) h (resolve-IsName p))
    ∙ ap (shown r) (append_assoc ws (resolve p) (below ps))

first_part : (r : Bool) (p : Text) → add_part (if r then [] else codes "./") p ≡ shown r (resolve p)
unfolding clean join_paths words shown
first_part true p =
    ap (λ us. shown true (reverse_onto us [])) (enter_shown true [] (resolve p) (resolve-IsName p))
    ∙ ap (shown true) (reversed [] (resolve p))
first_part false p =
    join_paths-Stands (codes "./") false [] (resolve p)
      (record { rooted = refl; filled = refl; entered = unfold enter split in refl })
      (resolve-IsName p)

-- `CleanPath` of one part or more is, from the root or from the working directory as the first part says, the words of each part
-- in order, where the words of a part depend on that part only and are names: not `.`, not `..`, not empty, and
-- without a slash. So no part takes away what stands before it, whatever it holds.
pub clean_path-below :
    (p : Text) (ps : List Text)
    → (clean_path (p ∷ ps) ≡ shown (is_abs p) (below (p ∷ ps))) × All IsName (below (p ∷ ps))
unfolding clean_path
clean_path-below p ps = (
  ap (λ a. foldl add_part a ps) (first_part (is_abs p) p)
      ∙ add_parts (is_abs p) (resolve p) ps (resolve-IsName p),
  below-IsName (p ∷ ps),
)
