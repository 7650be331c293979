-- ===== src/Following/Happenings.antt =====
-- What the others do keeps what holds of a follower.
use docker_local.Common.{
  ℕ, ◌+◌, ◌≤◌, ◌<◌, ◌≡◌, refl, sym, ap, ◌∙◌, true, false, ◌&&◌, ◌||◌, not, [], ◌∷◌, ◌++◌,
  append-nil, append_assoc, length, length-append, leb, ◌==◌, arith, Bool-cases, inl, inr, ◌⊎◌,
}
use docker_local.Common.Text.{Text}
use docker_local.Following.System.{
  Place, scanning, stating, draining, opening, filling, resting, ended, broken, Follower, unread,
  add_line, Happening, is_rotation,
}
use docker_local.Following.Faithful.{
  is_current, behind, is_reopening, is_opening, is_filling, ◌⇒◌, drop-append, behind-current,
  IsFaithful,
}

-- A line comes behind all that are to come.
abbrev pub with_line : Follower → Text → Follower
with_line s line = record s {
  files = add_line s.files s.generation line;
  written = s.written ++ line ∷ [];
}

pub write-current :
    (s : Follower) (line : Text)
    → is_current s ≡ true
    → IsFaithful s
    → (unread (with_line s line) ≡ unread s ++ line ∷ [])
      × (behind (with_line s line) ≡ behind s)
      × (length ((with_line s line).files s.handle) ≡ length (s.files s.handle) + 1)
write-current s line c i = (
  rw c (drop-append s.position (s.files s.handle) (line ∷ []) i.bounded),
  rw c refl,
  rw c (length-append (s.files s.handle) (line ∷ [])),
)

pub write-behind :
    (s : Follower) (line : Text)
    → is_current s ≡ false
    → (unread (with_line s line) ≡ unread s)
      × (behind (with_line s line) ≡ behind s ++ line ∷ [])
      × (length ((with_line s line).files s.handle) ≡ length (s.files s.handle))
write-behind s line c =
    let same : (s.generation == s.generation) ≡ true = ground arith in
    (rw c refl, rw (c, same) refl, rw c refl)

pub write-in_order :
    (s : Follower) (line : Text)
    → IsFaithful s
    → let t = with_line s line in t.passed ++ (unread t ++ behind t) ≡ t.written
write-in_order s line i = elim (Bool-cases (is_current s)) [
  | inl c ↦
      let (u, b, l) = write-current s line c i in
      let none_behind = behind-current s c in
      ap (λ xs. s.passed ++ (xs ++ behind (with_line s line))) u
      ∙ ap (λ xs. s.passed ++ ((unread s ++ line ∷ []) ++ xs)) (b ∙ none_behind)
      ∙ ap (λ xs. s.passed ++ xs) (append-nil (unread s ++ line ∷ []))
      ∙ sym (append_assoc s.passed (unread s) (line ∷ []))
      ∙ ap (λ xs. xs ++ line ∷ [])
          (ap (λ xs. s.passed ++ xs)
              (sym (append-nil (unread s)) ∙ ap (λ xs. unread s ++ xs) (sym none_behind))
            ∙ i.in_order)
  | inr c ↦
      let (u, b, l) = write-behind s line c in
      ap (λ xs. s.passed ++ (xs ++ behind (with_line s line))) u
      ∙ ap (λ xs. s.passed ++ (unread s ++ xs)) b
      ∙ ap (λ xs. s.passed ++ xs) (sym (append_assoc (unread s) (behind s) (line ∷ [])))
      ∙ sym (append_assoc s.passed (unread s ++ behind s) (line ∷ []))
      ∙ ap (λ xs. xs ++ line ∷ []) i.in_order
]

pub write-unborn :
    (s : Follower) (line : Text)
    → IsFaithful s
    → (g : ℕ) → s.generation < g
    → (with_line s line).files g ≡ []
write-unborn s line i g h =
    let other : (g == s.generation) ≡ false = ground arith in rw other (i.unborn g h)

pub write-lengths :
    (s : Follower) (line : Text)
    → IsFaithful s
    → (length (s.files s.handle) ≤ length ((with_line s line).files s.handle))
      × (length (unread s) ≤ length (unread (with_line s line)))
      × ((is_current s ≡ true)
          ⊎ (length ((with_line s line).files s.handle) ≡ length (s.files s.handle)))
write-lengths s line i = elim (Bool-cases (is_current s)) [
  | inl c ↦
      let (u, b, l) = write-current s line c i in
      (omega (arith, l), omega (arith, ap length u, length-append (unread s) (line ∷ [])), inl c)
  | inr c ↦
      let (u, b, l) = write-behind s line c in (omega (arith, l), omega (arith, ap length u), inr l)
]

pub write-bounded :
    (s : Follower) (line : Text)
    → IsFaithful s
    → s.position ≤ length ((with_line s line).files s.handle)
write-bounded s line i = omega (arith, i.bounded, (write-lengths s line i).0)

pub not_opening : (p : Place) → is_reopening p ≡ false → is_opening p ≡ false
not_opening scanning h = refl
not_opening stating h = refl
not_opening draining h = refl
not_opening opening h = cc
not_opening filling h = refl
not_opening resting h = refl
not_opening ended h = refl
not_opening broken h = refl

pub write-drained :
    (s : Follower) (line : Text)
    → IsFaithful s
    → (is_opening s.place ⇒ leb (length ((with_line s line).files s.handle)) s.position) ≡ true
write-drained s line i =
    let d = i.drained in
    let r = i.reopening in
    elim (write-lengths s line i).2 [
      | inl c ↦
          let steady : is_reopening s.place ≡ false = ground arith in
          rw (not_opening s.place steady) refl
      | inr l ↦ rw l d
    ]

pub write-paid :
    (s : Follower) (line : Text)
    → IsFaithful s
    → ((s.closing && is_filling s.place)
        ⇒ leb s.owed (length s.passed + length (unread (with_line s line))))
      ≡ true
write-paid s line i = let p = i.paid_filling in let l = (write-lengths s line i).1 in ground arith

pub write-IsFaithful : (s : Follower) (line : Text) → IsFaithful s → IsFaithful (with_line s line)
write-IsFaithful s line i = record {
  in_order = write-in_order s line i;
  bounded = write-bounded s line i;
  beside = i.beside;
  told = i.told;
  reopening = i.reopening;
  drained = write-drained s line i;
  unborn = write-unborn s line i;
  debt = let d = i.debt in omega (arith, d, length-append s.written (line ∷ []));
  closes = i.closes;
  ends = i.ends;
  paid_ready = i.paid_ready;
  paid_stating = i.paid_stating;
  paid_filling = write-paid s line i;
}

pub rotated-behind :
    (s : Follower)
    → (s.handle == s.generation + 1) ≡ false
    → IsFaithful s
    → behind (record s { generation = s.generation + 1 }) ≡ []
rotated-behind s past i = rw past (i.unborn (s.generation + 1) (omega arith))

pub rotate-IsFaithful :
    (s : Follower)
    → is_current s ≡ true
    → IsFaithful s
    → IsFaithful (record s { generation = s.generation + 1 })
rotate-IsFaithful s c i =
    let past : (s.handle == s.generation + 1) ≡ false = ground arith in
    let r = i.reopening in
    let steady : is_reopening s.place ≡ false = ground arith in
    record {
      in_order =
          ap (λ xs. s.passed ++ (unread s ++ xs))
            (rotated-behind s past i ∙ sym (behind-current s c))
          ∙ i.in_order;
      bounded = i.bounded;
      beside = inr (ground arith);
      told = i.told;
      reopening = rw steady refl;
      drained = i.drained;
      unborn = λ g h. i.unborn g (omega (arith, h));
      debt = i.debt;
      closes = i.closes;
      ends = i.ends;
      paid_ready = i.paid_ready;
      paid_stating = ground arith;
      paid_filling = i.paid_filling;
    }

pub cancel-IsFaithful :
    (s : Follower)
    → s.cancelled ≡ false
    → IsFaithful s
    → IsFaithful (record s { cancelled = true; owed = length s.written })
cancel-IsFaithful s n i =
    let x = i.closes in
    let open_still : s.closing ≡ false = ground arith in
    record {
      in_order = i.in_order;
      bounded = i.bounded;
      beside = i.beside;
      told = i.told;
      reopening = i.reopening;
      drained = i.drained;
      unborn = i.unborn;
      debt = omega arith;
      closes = ground arith;
      ends = i.ends;
      paid_ready = rw open_still refl;
      paid_stating = rw open_still refl;
      paid_filling = rw open_still refl;
    }

pub Happening-IsFaithful :
    {s t : Follower}
    → (h : Happening s t) → (not (is_rotation h) || is_current s) ≡ true
    → IsFaithful s
    → IsFaithful t
Happening-IsFaithful {s} (Happening.write line) a i = write-IsFaithful s line i
Happening-IsFaithful {s} Happening.rotate a i = rotate-IsFaithful s a i
Happening-IsFaithful {s} (Happening.cancel n) a i = cancel-IsFaithful s n i
