-- ===== src/Following/Faithful.antt =====
-- What holds of a follower while the log is rotated only once before the new file is open.
use docker_local.Common.{
  ℕ, zero, suc, ◌+◌, ◌≤◌, ◌<◌, ◌≡◌, refl, ap, Bool, true, false, ◌&&◌, ◌||◌, not, List, [], ◌∷◌,
  ◌++◌, append-nil, length, length-append, drop, leb, ◌==◌, if◌then◌else◌, arith, inl, ◌⊎◌,
}
use docker_local.Common.Text.{Text}
use docker_local.Following.System.{
  Place, stating, draining, opening, filling, resting, ended, Follower, start, unread,
}

-- The follower has the file at the path open.
abbrev pub is_current : Follower → Bool
is_current s = s.handle == s.generation

-- The lines of the file behind the open one.
abbrev pub behind : Follower → List Text
behind s = if is_current s then [] else s.files s.generation

abbrev pub is_reopening : Place → Bool
is_reopening draining = true
is_reopening opening = true
is_reopening _ = false

abbrev pub is_opening : Place → Bool
is_opening opening = true
is_opening _ = false

abbrev pub is_stating : Place → Bool
is_stating stating = true
is_stating _ = false

abbrev pub is_filling : Place → Bool
is_filling filling = true
is_filling _ = false

abbrev pub is_ended : Place → Bool
is_ended ended = true
is_ended _ = false

abbrev pub is_ready : Place → Bool
is_ready resting = true
is_ready ended = true
is_ready _ = false

infix 20 ◌⇒◌
abbrev pub ◌⇒◌ : Bool → Bool → Bool
a ⇒ b = not a || b

pub record IsFaithful (s : Follower) : Type 0 where
  pub in_order : s.passed ++ (unread s ++ behind s) ≡ s.written
  pub bounded : s.position ≤ length (s.files s.handle)
  pub beside : (is_current s ≡ true) ⊎ (s.generation ≡ s.handle + 1)
  pub told : s.fi ≡ s.handle
  pub reopening : (is_reopening s.place ⇒ ((s.new_fi == s.generation) && not (is_current s))) ≡ true
  pub drained : (is_opening s.place ⇒ leb (length (s.files s.handle)) s.position) ≡ true
  pub unborn : (g : ℕ) → s.generation < g → s.files g ≡ []
  pub debt : s.owed ≤ length s.written
  pub closes : (s.closing ⇒ s.cancelled) ≡ true
  pub ends : (is_ended s.place ⇒ s.closing) ≡ true
  pub paid_ready : ((s.closing && is_ready s.place) ⇒ leb s.owed (length s.passed)) ≡ true
  pub paid_stating :
      ((s.closing && is_stating s.place && is_current s) ⇒ leb s.owed (length s.passed)) ≡ true
  pub paid_filling :
      ((s.closing && is_filling s.place) ⇒ leb s.owed (length s.passed + length (unread s))) ≡ true

pub drop-length : (xs : List Text) → drop (length xs) xs ≡ []
drop-length [] = refl
drop-length (x ∷ xs) = drop-length xs

pub drop-append : (n : ℕ) (xs ys : List Text) → n ≤ length xs → drop n (xs ++ ys) ≡ drop n xs ++ ys
drop-append zero xs ys h = refl
drop-append (suc n) [] ys h = absurd (omega arith)
drop-append (suc n) (x ∷ xs) ys h = drop-append n xs ys (omega arith)

pub drop-all : (n : ℕ) (xs : List Text) → length xs ≤ n → drop n xs ≡ []
drop-all zero [] h = refl
drop-all zero (x ∷ xs) h = absurd (omega arith)
drop-all (suc n) [] h = refl
drop-all (suc n) (x ∷ xs) h = drop-all n xs (omega arith)

pub only_first : (there : List Text) (g : ℕ) → 0 < g → (start true there).files g ≡ []
only_first there zero h = absurd (omega arith)
only_first there (suc g) h = refl

pub start-IsFaithful : (from_start : Bool) (there : List Text) → IsFaithful (start from_start there)
start-IsFaithful true there = record {
  in_order = append-nil there;
  bounded = omega arith;
  beside = inl refl;
  told = refl;
  reopening = refl;
  drained = refl;
  unborn = only_first there;
  debt = omega arith;
  closes = refl;
  ends = refl;
  paid_ready = refl;
  paid_stating = refl;
  paid_filling = refl;
}
start-IsFaithful false there = record {
  in_order = ap (λ xs. xs ++ []) (drop-length there);
  bounded = omega arith;
  beside = inl refl;
  told = refl;
  reopening = refl;
  drained = refl;
  unborn = only_first there;
  debt = omega arith;
  closes = refl;
  ends = refl;
  paid_ready = refl;
  paid_stating = refl;
  paid_filling = refl;
}

-- The lines passed on, those to come from the open file, and those behind it are all lines written.
pub lengths :
    (s : Follower)
    → IsFaithful s
    → length s.passed + (length (unread s) + length (behind s)) ≡ length s.written
lengths s i = omega (
  arith,
  length-append s.passed (unread s ++ behind s),
  length-append (unread s) (behind s),
  ap length i.in_order,
)

pub behind-current : (s : Follower) → is_current s ≡ true → behind s ≡ []
behind-current s e = rw e refl
