-- ===== src/Following/Turns.antt =====
-- The steps of the loop keep what holds of a follower.
use docker_local.Common.{
  ◌+◌, ◌≤◌, ◌≡◌, refl, sym, ap, ◌∙◌, true, false, ◌&&◌, [], ◌++◌, append-nil, append_assoc, length,
  length-append, leb, arith, Bool-cases, inl, inr,
}
use docker_local.Following.System.{
  Place, stating, opening, filling, resting, Follower, unread, mirror_available_messages, Turn,
}
use docker_local.Following.Faithful.{
  is_current, behind, ◌⇒◌, drop-length, drop-all, lengths, behind-current, IsFaithful,
}

pub mirror-in_order :
    (s : Follower) (next : Place)
    → IsFaithful s
    → let t = mirror_available_messages s next in t.passed ++ (unread t ++ behind t) ≡ t.written
mirror-in_order s next i =
    ap (λ xs. (s.passed ++ unread s) ++ (xs ++ behind s)) (drop-length (s.files s.handle))
    ∙ append_assoc s.passed (unread s) (behind s)
    ∙ i.in_order

pub mirror-passed :
    (s : Follower)
    → IsFaithful s
    → length (s.passed ++ unread s) + length (behind s) ≡ length s.written
mirror-passed s i = omega (arith, lengths s i, length-append s.passed (unread s))

pub mirror-paid :
    (s : Follower)
    → IsFaithful s
    → ((s.closing && true && is_current s) ⇒ leb s.owed (length (s.passed ++ unread s))) ≡ true
mirror-paid s i = elim (Bool-cases (is_current s)) [
  | inl c ↦
      let m = mirror-passed s i in
      let b = ap length (behind-current s c) in
      let d = i.debt in
      let goal : leb s.owed (length (s.passed ++ unread s)) ≡ true = ground arith in
      rw goal (ground arith)
  | inr c ↦ ground arith
]

-- Before the new file is opened, the old one has been read.
pub opening-unread : (s : Follower) → s.place ≡ opening → IsFaithful s → unread s ≡ []
opening-unread s e i =
    let d = i.drained in
    let h : length (s.files s.handle) ≤ s.position = ground arith in
    drop-all s.position (s.files s.handle) h

pub opening-behind :
    (s : Follower) → s.place ≡ opening → IsFaithful s → behind s ≡ s.files s.generation
opening-behind s e i =
    let r = i.reopening in let c : is_current s ≡ false = ground arith in rw c refl

pub open-in_order :
    (s : Follower)
    → s.place ≡ opening
    → IsFaithful s
    → let t = record s { place = filling; handle = s.generation; position = 0; fi = s.new_fi } in
      t.passed ++ (unread t ++ behind t) ≡ t.written
open-in_order s e i =
    let t = record s { place = filling; handle = s.generation; position = 0; fi = s.new_fi } in
    ap (λ xs. s.passed ++ (s.files s.generation ++ xs)) (behind-current t (ground arith))
    ∙ ap (λ xs. s.passed ++ xs) (append-nil (s.files s.generation))
    ∙ sym (ap (λ xs. s.passed ++ (xs ++ s.files s.generation)) (opening-unread s e i))
    ∙ sym (ap (λ xs. s.passed ++ (unread s ++ xs)) (opening-behind s e i))
    ∙ i.in_order

pub Turn-IsFaithful : {s t : Follower} → Turn s t → IsFaithful s → IsFaithful t
Turn-IsFaithful {s} (Turn.mirror_now e) i = record {
  in_order = mirror-in_order s stating i;
  bounded = omega arith;
  beside = i.beside;
  told = i.told;
  reopening = refl;
  drained = refl;
  unborn = i.unborn;
  debt = i.debt;
  closes = i.closes;
  ends = refl;
  paid_ready = ground arith;
  paid_stating = mirror-paid s i;
  paid_filling = ground arith;
}
Turn-IsFaithful {s} (Turn.same_file e f) i = record {
  in_order = i.in_order;
  bounded = i.bounded;
  beside = i.beside;
  told = i.told;
  reopening = refl;
  drained = refl;
  unborn = i.unborn;
  debt = i.debt;
  closes = i.closes;
  ends = refl;
  paid_ready = let x = i.paid_stating in let y = i.told in ground arith;
  paid_stating = ground arith;
  paid_filling = ground arith;
}
Turn-IsFaithful {s} (Turn.other_file e f) i = record {
  in_order = i.in_order;
  bounded = i.bounded;
  beside = i.beside;
  told = i.told;
  reopening = let y = i.told in ground arith;
  drained = refl;
  unborn = i.unborn;
  debt = i.debt;
  closes = i.closes;
  ends = refl;
  paid_ready = ground arith;
  paid_stating = ground arith;
  paid_filling = ground arith;
}
Turn-IsFaithful {s} (Turn.mirror_rest e) i = record {
  in_order = mirror-in_order s opening i;
  bounded = omega arith;
  beside = i.beside;
  told = i.told;
  reopening = let x = i.reopening in ground arith;
  drained = ground arith;
  unborn = i.unborn;
  debt = i.debt;
  closes = i.closes;
  ends = refl;
  paid_ready = ground arith;
  paid_stating = ground arith;
  paid_filling = ground arith;
}
Turn-IsFaithful {s} (Turn.open_new e) i = record {
  in_order = open-in_order s e i;
  bounded = omega arith;
  beside = inl (ground arith);
  told = let x = i.reopening in ground arith;
  reopening = refl;
  drained = refl;
  unborn = i.unborn;
  debt = i.debt;
  closes = i.closes;
  ends = refl;
  paid_ready = ground arith;
  paid_stating = ground arith;
  paid_filling =
      let l = lengths s i in
      let d = i.debt in
      let a = ap length (opening-unread s e i) in
      let b = ap length (opening-behind s e i) in ground arith;
}
Turn-IsFaithful {s} (Turn.mirror_new e) i = record {
  in_order = mirror-in_order s resting i;
  bounded = omega arith;
  beside = i.beside;
  told = i.told;
  reopening = refl;
  drained = refl;
  unborn = i.unborn;
  debt = i.debt;
  closes = i.closes;
  ends = refl;
  paid_ready = let x = i.paid_filling in let l = length-append s.passed (unread s) in ground arith;
  paid_stating = ground arith;
  paid_filling = ground arith;
}
Turn-IsFaithful {s} (Turn.rest e c) i = record {
  in_order = i.in_order;
  bounded = i.bounded;
  beside = i.beside;
  told = i.told;
  reopening = refl;
  drained = refl;
  unborn = i.unborn;
  debt = i.debt;
  closes = i.closes;
  ends = refl;
  paid_ready = ground arith;
  paid_stating = ground arith;
  paid_filling = ground arith;
}
Turn-IsFaithful {s} (Turn.once_more e c d) i = record {
  in_order = i.in_order;
  bounded = i.bounded;
  beside = i.beside;
  told = i.told;
  reopening = refl;
  drained = refl;
  unborn = i.unborn;
  debt = i.debt;
  closes = let x = i.closes in ground arith;
  ends = refl;
  paid_ready = ground arith;
  paid_stating = ground arith;
  paid_filling = ground arith;
}
Turn-IsFaithful {s} (Turn.finish e c d) i = record {
  in_order = i.in_order;
  bounded = i.bounded;
  beside = i.beside;
  told = i.told;
  reopening = refl;
  drained = refl;
  unborn = i.unborn;
  debt = i.debt;
  closes = i.closes;
  ends = ground arith;
  paid_ready = let x = i.paid_ready in ground arith;
  paid_stating = ground arith;
  paid_filling = ground arith;
}
Turn-IsFaithful {s} (Turn.fail_stat e) i = record {
  in_order = i.in_order;
  bounded = i.bounded;
  beside = i.beside;
  told = i.told;
  reopening = refl;
  drained = refl;
  unborn = i.unborn;
  debt = i.debt;
  closes = i.closes;
  ends = refl;
  paid_ready = ground arith;
  paid_stating = ground arith;
  paid_filling = ground arith;
}
Turn-IsFaithful {s} (Turn.fail_open e) i = record {
  in_order = i.in_order;
  bounded = i.bounded;
  beside = i.beside;
  told = i.told;
  reopening = refl;
  drained = refl;
  unborn = i.unborn;
  debt = i.debt;
  closes = i.closes;
  ends = refl;
  paid_ready = ground arith;
  paid_stating = ground arith;
  paid_filling = ground arith;
}
