-- ===== src/QueueManager/Distinct.antt =====
-- Queue managers of different names have different directories.
use docker_local.Common.{
  ℕ, ◌≡◌, refl, sym, ap, ◌∙◌, Bool, true, false, ◌&&◌, not, List, [], ◌∷◌, ◌++◌, ◌==◌, drop,
  if◌then◌else◌, arith, Bool-cases, inl, inr,
}
use docker_local.Common.Text.{Text, codes, is_empty, text_eq, has_rune, replace_rune, split, join}
use docker_local.Paths.Clean.{is_abs, enter, reverse_onto, words, shown, clean_path}
use docker_local.Paths.Below.{IsName, resolve, enter_shown, clean_path-below}
use docker_local.QueueManager.Directory.{
  is_mounted, replace_chars_in_qm_name, get_queue_manager_data_dir,
}

-- A name that MQ allows has neither of the runes that stand for others.
abbrev pub is_plain : Text → Bool
is_plain name = not (has_rune b'!' name) && not (has_rune b'&' name)

-- One rune, and the runes back.
abbrev put_rune : ℕ → ℕ
put_rune c = if c == b'.' then b'!' else if c == b'/' then b'&' else c

abbrev back_rune : ℕ → ℕ
back_rune c = if c == b'!' then b'.' else if c == b'&' then b'/' else c

restore : Text → Text
restore [] = []
restore (c ∷ s) = back_rune c ∷ restore s

put_rune-cons :
    (c : ℕ) (a : Text) → replace_chars_in_qm_name (c ∷ a) ≡ put_rune c ∷ replace_chars_in_qm_name a
unfolding replace_chars_in_qm_name replace_rune
put_rune-cons c a = elim (Bool-cases (c == b'.')) [ inl e ↦ rw e refl | inr e ↦ rw e refl ]

back_rune-put_rune :
    (c : ℕ) → (not (c == b'!') && not (c == b'&')) ≡ true → back_rune (put_rune c) ≡ c
back_rune-put_rune c h = ground arith

put_rune-kept : (c : ℕ) → ((put_rune c == b'.') ≡ false) × ((put_rune c == b'/') ≡ false)
put_rune-kept c = (ground arith, ground arith)

restore_replaced : (a : Text) → is_plain a ≡ true → restore (replace_chars_in_qm_name a) ≡ a
unfolding restore
restore_replaced [] p = unfold replace_chars_in_qm_name replace_rune in refl
restore_replaced (c ∷ a) p =
    let first : (not (c == b'!') && not (c == b'&')) ≡ true = ground arith in
    let rest : is_plain a ≡ true = ground arith in
    rw (put_rune-cons c a, back_rune-put_rune c first, restore_replaced a rest) refl

replaced-has_rune : (a : Text) → has_rune b'/' (replace_chars_in_qm_name a) ≡ false
replaced-has_rune [] = unfold replace_chars_in_qm_name replace_rune in refl
replaced-has_rune (c ∷ a) = rw (put_rune-cons c a, (put_rune-kept c).1) (replaced-has_rune a)

replaced-IsName : (a : Text) → is_empty a ≡ false → IsName (replace_chars_in_qm_name a)
replaced-IsName [] e = cc
replaced-IsName (c ∷ a) e =
    let k = (put_rune-kept c).0 in
    let s = ap (has_rune b'/') (sym (put_rune-cons c a)) ∙ replaced-has_rune (c ∷ a) in
    rw (put_rune-cons c a) (refl, unfold text_eq in rw k refl, unfold text_eq in rw k refl, s)

resolve_name : (w : Text) → IsName w → resolve w ≡ w ∷ []
unfolding words split shown
resolve_name w h = ap (λ ws. reverse_onto ws []) (enter_shown true [] (w ∷ []) (h, tt))

-- The directory of a queue manager, behind the path that it stands in.
abbrev base_of : List Text → Text
base_of mounts =
    if is_mounted mounts (codes "/mnt/mqm-data")
    then codes "/mnt/mqm-data/qmgrs/"
    else codes "/var/mqm/qmgrs/"

below_base :
    (base w : Text)
    → IsName w
    → clean_path (base ∷ w ∷ []) ≡ shown (is_abs base) (resolve base ++ w ∷ [])
below_base base w h =
    (clean_path-below base (w ∷ [])).0
    ∙ ap (λ ws. shown (is_abs base) (resolve base ++ (ws ++ []))) (resolve_name w h)

data_dir-base :
    (mounts : List Text) (w : Text)
    → IsName w
    → get_queue_manager_data_dir mounts w ≡ base_of mounts ++ w
unfolding get_queue_manager_data_dir
data_dir-base mounts w h = elim (Bool-cases (is_mounted mounts (codes "/mnt/mqm-data"))) [
  | inl e ↦
      rw e
        (below_base (codes "/mnt/mqm-data/qmgrs") w h ∙ unfold words enter split shown join in refl)
  | inr e ↦
      rw e (below_base (codes "/var/mqm/qmgrs") w h ∙ unfold words enter split shown join in refl)
]

append-injective : (p a b : Text) → p ++ a ≡ p ++ b → a ≡ b
append-injective [] a b e = e
append-injective (c ∷ p) a b e = append-injective p a b (ap (drop 1) e)

-- Two queue managers whose names are not empty and have neither ! nor & share a data directory only if their
-- names are the same.
pub get_queue_manager_data_dir-injective :
    (mounts : List Text) (a b : Text)
    → is_empty a ≡ false
    → is_empty b ≡ false
    → is_plain a ≡ true
    → is_plain b ≡ true
    → get_queue_manager_data_dir mounts (replace_chars_in_qm_name a)
      ≡ get_queue_manager_data_dir mounts (replace_chars_in_qm_name b)
    → a ≡ b
get_queue_manager_data_dir-injective mounts a b na nb pa pb e =
    let u = replace_chars_in_qm_name a in
    let v = replace_chars_in_qm_name b in
    let ends : base_of mounts ++ u ≡ base_of mounts ++ v =
      sym (data_dir-base mounts u (replaced-IsName a na))
      ∙ e
      ∙ data_dir-base mounts v (replaced-IsName b nb) in
    sym (restore_replaced a pa)
    ∙ ap restore (append-injective (base_of mounts) u v ends)
    ∙ restore_replaced b pb
