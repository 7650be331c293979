-- ===== src/Volumes/Parents.antt =====
-- The paths that are skipped: the loops end, and hold each directory above a skipped path.
use docker_local.Common.{
  ℕ, zero, suc, ◌<◌, ◌≡◌, refl, sym, ap, ◌∙◌, Bool, true, false, ◌||◌, Option, none, some, List, [],
  ◌∷◌, ◌++◌, append-nil, append_assoc, All, any, any-append, length, arith, Bool-cases, inl, inr,
}
use docker_local.Common.Text.{Text, codes, text_eq, text_eq_iff, has_prefix, join}
use docker_local.Paths.Clean.{reverse_onto, shown}
use docker_local.Volumes.Clean.{
  FilePath, text_of, path_eq, dir, add_found, with_parents, append_found, skip_paths_map,
}

-- The root has one rune, so it has no longer prefix.
pub root-has_prefix : (t : Text) → 1 < length t → has_prefix (b'/' ∷ []) t ≡ false
unfolding has_prefix
root-has_prefix [] h = absurd (omega arith)
root-has_prefix (c ∷ []) h = absurd (omega arith)
root-has_prefix (c ∷ d ∷ t) h = ground arith

pub root-text_of : text_of [] ≡ b'/' ∷ []
unfolding text_of shown join
root-text_of = refl

pub with_parents-returns :
    (fuel : ℕ) (clean_path skip_path : FilePath)
    → 1 < length (text_of clean_path)
    → length skip_path < fuel
    → (paths : List FilePath) × (with_parents fuel clean_path skip_path ≡ some paths)
unfolding with_parents
with_parents-returns zero clean_path skip_path h k = absurd (omega arith)
with_parents-returns (suc fuel) clean_path [] h k =
    let e =
      ap (λ s. has_prefix s (text_of clean_path)) root-text_of
      ∙ root-has_prefix (text_of clean_path) h in
    ([], rw e refl)
with_parents-returns (suc fuel) clean_path (w ∷ p) h k =
    let (ps, e) = with_parents-returns fuel clean_path p h (omega arith) in
    elim (Bool-cases (has_prefix (text_of (w ∷ p)) (text_of clean_path))) [
      | inl b ↦ ((w ∷ p) ∷ ps, rw (b, e) refl)
      | inr b ↦ ([], rw b refl)
    ]

abbrev pub Short : ℕ → List FilePath → Type 0
Short fuel paths = All (λ p. length p < fuel) paths

pub map-returns :
    (fuel : ℕ) (clean_path : FilePath) (skip_paths : List FilePath)
    → 1 < length (text_of clean_path)
    → Short fuel skip_paths
    → (paths : List FilePath) × (skip_paths_map fuel clean_path skip_paths ≡ some paths)
unfolding skip_paths_map
map-returns fuel clean_path [] h k = (clean_path ∷ [], refl)
map-returns fuel clean_path (p ∷ ps) h k =
    let (qs, e) = with_parents-returns fuel clean_path p h k.0 in
    let (rs, f) = map-returns fuel clean_path ps h k.1 in (qs ++ rs, rw (e, f) refl)

-- The first path is the second, or a directory above it.
abbrev pub is_above : FilePath → FilePath → Bool
is_above r [] = path_eq r []
is_above r (w ∷ p) = path_eq r (w ∷ p) || is_above r p

pub path_eq-same : (p q : FilePath) → path_eq p q ≡ true → p ≡ q
unfolding path_eq
path_eq-same [] [] h = refl
path_eq-same [] (w ∷ q) h = cc
path_eq-same (v ∷ p) [] h = cc
path_eq-same (v ∷ p) (w ∷ q) h =
    let a : text_eq v w ≡ true = ground arith in
    let b : path_eq p q ≡ true = ground arith in
    rw (path_eq-same p q b) (ap (λ x. x ∷ q) ((text_eq_iff v w).0 a))

pub above-split : (r p : FilePath) → is_above r p ≡ true → (pre : FilePath) × (p ≡ pre ++ r)
above-split r [] h = ([], sym (path_eq-same r [] h))
above-split r (w ∷ p) h = elim (Bool-cases (path_eq r (w ∷ p))) [
  | inl e ↦ ([], sym (path_eq-same r (w ∷ p) e))
  | inr e ↦
      let rest : is_above r p ≡ true = ground arith in
      let (pre, f) = above-split r p rest in (w ∷ pre, ap (λ q. w ∷ q) f)
]

-- A path below another has its text as a prefix.
pub has_prefix-same : (s t : Text) → has_prefix (s ++ t) s ≡ true
unfolding has_prefix
has_prefix-same [] t = refl
has_prefix-same (c ∷ s) t = ground (arith, has_prefix-same s t)

pub reverse_onto-append :
    (a b acc : FilePath) → reverse_onto (a ++ b) acc ≡ reverse_onto b (reverse_onto a acc)
reverse_onto-append [] b acc = refl
reverse_onto-append (w ∷ a) b acc = reverse_onto-append a b (w ∷ acc)

pub reverse_onto-onto :
    (a acc rest : FilePath) → reverse_onto a (acc ++ rest) ≡ reverse_onto a acc ++ rest
reverse_onto-onto [] acc rest = refl
reverse_onto-onto (w ∷ a) acc rest = reverse_onto-onto a (w ∷ acc) rest

pub join-append :
    (a b : FilePath) → (t : Text) × (join (a ++ b) (codes "/") ≡ join a (codes "/") ++ t)
unfolding join
join-append [] b = (join b (codes "/"), refl)
join-append (w ∷ []) [] = ([], sym (append-nil w))
join-append (w ∷ []) (v ∷ b) = (b'/' ∷ join (v ∷ b) (codes "/"), refl)
join-append (w ∷ v ∷ a) b =
    let (t, e) = join-append (v ∷ a) b in
    (t, ap (λ s. w ++ (b'/' ∷ s)) e ∙ sym (append_assoc w (b'/' ∷ join (v ∷ a) (codes "/")) t))

pub below-has_prefix : (pre p : FilePath) → has_prefix (text_of (pre ++ p)) (text_of p) ≡ true
unfolding text_of shown
below-has_prefix pre p =
    let words = reverse_onto-append pre p [] ∙ reverse_onto-onto p [] (reverse_onto pre []) in
    let (t, e) = join-append (reverse_onto p []) (reverse_onto pre []) in
    ap (λ s. has_prefix (b'/' ∷ s) (b'/' ∷ join (reverse_onto p []) (codes "/")))
      (ap (λ ws. join ws (codes "/")) words ∙ e)
    ∙ has_prefix-same (b'/' ∷ join (reverse_onto p []) (codes "/")) t

pub add_found-some :
    (p : FilePath) (o : Option (List FilePath)) (paths : List FilePath)
    → add_found p o ≡ some paths
    → (qs : List FilePath) × (o ≡ some qs)
      × (any (path_eq p) paths ≡ any (path_eq p) (p ∷ qs))
      × (paths ≡ p ∷ qs)
add_found-some p none paths e = cc
add_found-some p (some qs) paths e =
    let f : paths ≡ p ∷ qs = cc in (qs, refl, ap (any (path_eq p)) f, f)

pub listed_or_above :
    (r p : FilePath) (qs : List FilePath)
    → is_above r p ≡ true
    → (is_above r (dir p) ≡ true → any (path_eq r) qs ≡ true)
    → any (path_eq r) (p ∷ qs) ≡ true
listed_or_above r [] qs a ih = ground arith
listed_or_above r (w ∷ p) qs a ih = elim (Bool-cases (path_eq r (w ∷ p))) [
  | inl e ↦ rw e refl
  | inr e ↦ let rest : is_above r p ≡ true = ground arith in rw e (ih rest)
]

pub with_parents-listed :
    (fuel : ℕ) (clean_path p r rel : FilePath) (paths : List FilePath)
    → with_parents fuel clean_path p ≡ some paths
    → r ≡ rel ++ clean_path
    → is_above r p ≡ true
    → any (path_eq r) paths ≡ true
unfolding with_parents
with_parents-listed zero clean_path p r rel paths e b a = cc
with_parents-listed (suc fuel) clean_path p r rel paths e b a =
    let (pre, f) = above-split r p a in
    let below : p ≡ (pre ++ rel) ++ clean_path =
      f ∙ ap (λ q. pre ++ q) b ∙ sym (append_assoc pre rel clean_path) in
    let has : has_prefix (text_of p) (text_of clean_path) ≡ true =
      ap (λ q. has_prefix (text_of q) (text_of clean_path)) below
      ∙ below-has_prefix (pre ++ rel) clean_path in
    let (qs, o, same, g) =
      add_found-some p (with_parents fuel clean_path (dir p)) paths (rw has at e) in
    ap (any (path_eq r)) g
    ∙ listed_or_above r p qs a (with_parents-listed fuel clean_path (dir p) r rel qs o b)

pub append_found-some :
    (o u : Option (List FilePath)) (paths : List FilePath)
    → append_found o u ≡ some paths
    → (qs rs : List FilePath) × (o ≡ some qs) × (u ≡ some rs) × (paths ≡ qs ++ rs)
append_found-some none u paths e = cc
append_found-some (some qs) none paths e = cc
append_found-some (some qs) (some rs) paths e = (qs, rs, refl, refl, cc)

pub map-listed :
    (fuel : ℕ) (clean_path r rel sp : FilePath) (front back paths : List FilePath)
    → skip_paths_map fuel clean_path (front ++ sp ∷ back) ≡ some paths
    → r ≡ rel ++ clean_path
    → is_above r sp ≡ true
    → any (path_eq r) paths ≡ true
unfolding skip_paths_map
map-listed fuel clean_path r rel sp [] back paths e b a =
    let (qs, rs, o, u, g) = append_found-some _ _ paths e in
    let l = with_parents-listed fuel clean_path sp r rel qs o b a in
    ap (any (path_eq r)) g ∙ any-append (path_eq r) qs rs ∙ rw l refl
map-listed fuel clean_path r rel sp (p ∷ front) back paths e b a =
    let (qs, rs, o, u, g) = append_found-some _ _ paths e in
    let l = map-listed fuel clean_path r rel sp front back rs u b a in
    ap (any (path_eq r)) g ∙ any-append (path_eq r) qs rs ∙ rw l (ground arith)

pub with_parents-step :
    (fuel : ℕ) (clean_path p : FilePath)
    → has_prefix (text_of p) (text_of clean_path) ≡ true
    → with_parents (suc fuel) clean_path p ≡ add_found p (with_parents fuel clean_path (dir p))
unfolding with_parents
with_parents-step fuel clean_path p has = rw has refl

-- Where the root is to be cleaned, the loop over a skipped path never ends.
pub with_parents-root : (fuel : ℕ) (skip_path : FilePath) → with_parents fuel [] skip_path ≡ none
with_parents-root zero skip_path = unfold with_parents in refl
with_parents-root (suc fuel) skip_path =
    let has : has_prefix (text_of skip_path) (text_of []) ≡ true =
      ap (λ q. has_prefix (text_of q) (text_of [])) (sym (append-nil skip_path))
      ∙ below-has_prefix skip_path [] in
    with_parents-step fuel [] skip_path has
    ∙ ap (add_found skip_path) (with_parents-root fuel (dir skip_path))
