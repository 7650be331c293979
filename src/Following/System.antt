-- ===== src/Following/System.antt =====
-- `mirrorLog` beside the program that writes the log and rotates it, in any order of their steps. The files that have stood
-- at the path are numbered; a line is written as a whole, and is not too long for the scanner.
use docker_local.Common.{
  ℕ, suc, ◌+◌, ◌≡◌, Bool, true, false, ◌||◌, not, List, [], ◌∷◌, ◌++◌, length, drop, ◌==◌,
  if◌then◌else◌,
}
use docker_local.Common.Text.{Text}

-- Where the loop is: before it mirrors what is there, before it looks for a new file, before it mirrors the rest of the old
-- file, before it opens the new one, before it mirrors that, and before it asks whether it is cancelled.
pub data Place : Type 0 where
  scanning stating draining opening filling resting ended broken : Place

pub record Follower : Type 0 where
  pub place : Place
  pub files : ℕ → List Text
  pub generation : ℕ  -- the file at the path
  pub handle : ℕ  -- the file that is open, `f`
  pub position : ℕ  -- the lines of it that have been read
  pub fi : ℕ  -- the file that `fi` tells of
  pub new_fi : ℕ
  pub passed : List Text  -- to the mirror function
  pub written : List Text  -- since the start, or all for `fromStart`
  pub cancelled : Bool
  pub owed : ℕ  -- the lines that had been written when it was cancelled
  pub closing : Bool

abbrev no_files : List Text → ℕ → List Text
no_files there ℕ.zero = there
no_files there (suc g) = []

-- A file with some lines may be there; if it is not, `there` has no lines.
abbrev pub start : Bool → List Text → Follower
start from_start there = record {
  place = scanning;
  files = no_files there;
  generation = 0;
  handle = 0;
  position = if from_start then 0 else length there;
  fi = 0;
  new_fi = 0;
  passed = [];
  written = if from_start then there else [];
  cancelled = false;
  owed = 0;
  closing = false;
}

-- `mirrorAvailableMessages`
abbrev pub unread : Follower → List Text
unread s = drop s.position (s.files s.handle)

abbrev pub mirror_available_messages : Follower → Place → Follower
mirror_available_messages s next = record s {
  place = next;
  passed = s.passed ++ unread s;
  position = length (s.files s.handle);
}

-- A step of the loop.
pub data Turn (s : Follower) : Follower → Type 0 where
  mirror_now : s.place ≡ scanning → Turn s (mirror_available_messages s stating)
  same_file :
      s.place ≡ stating
      → (s.fi == s.generation) ≡ true
      → Turn s (record s { place = resting; new_fi = s.generation })
  other_file :
      s.place ≡ stating
      → (s.fi == s.generation) ≡ false
      → Turn s (record s { place = draining; new_fi = s.generation })
  mirror_rest : s.place ≡ draining → Turn s (mirror_available_messages s opening)
  open_new :
      s.place ≡ opening
      → Turn s (record s { place = filling; handle = s.generation; position = 0; fi = s.new_fi })
  mirror_new : s.place ≡ filling → Turn s (mirror_available_messages s resting)
  rest : s.place ≡ resting → s.cancelled ≡ false → Turn s (record s { place = scanning })
  once_more :
      s.place ≡ resting
      → s.cancelled ≡ true
      → s.closing ≡ false
      → Turn s (record s { place = scanning; closing = true })
  finish :
      s.place ≡ resting
      → s.cancelled ≡ true
      → s.closing ≡ true
      → Turn s (record s { place = ended })
  fail_stat : s.place ≡ stating → Turn s (record s { place = broken })
  fail_open : s.place ≡ opening → Turn s (record s { place = broken })

abbrev pub add_line : (ℕ → List Text) → ℕ → Text → ℕ → List Text
add_line files g line h = if h == g then files h ++ line ∷ [] else files h

-- What the others do.
pub data Happening (s : Follower) : Follower → Type 0 where
  write :
      (line : Text)
      → Happening s (record s {
        files = add_line s.files s.generation line;
        written = s.written ++ line ∷ [];
      })
  rotate : Happening s (record s { generation = s.generation + 1 })
  cancel :
      s.cancelled ≡ false → Happening s (record s { cancelled = true; owed = length s.written })

abbrev pub is_rotation : {s t : Follower} → Happening s t → Bool
is_rotation Happening.rotate = true
is_rotation _ = false

-- The states reached, where the log is rotated only while a test holds.
pub data Reach (may_rotate : Follower → Bool) : Follower → Type 0 where
  begin : (from_start : Bool) (there : List Text) → Reach may_rotate (start from_start there)
  turn : {s t : Follower} → Reach may_rotate s → Turn s t → Reach may_rotate t
  happen :
      {s t : Follower}
      → Reach may_rotate s
      → (h : Happening s t) → (not (is_rotation h) || may_rotate s) ≡ true
      → Reach may_rotate t
