-- ===== src/LogRotation/Appending.antt =====
-- What `Append` does to the log as a whole, where no call fails.
use native.Mathlib.Decide.{dec_lt}
use docker_local.Common.{
  ℕ, zero, suc, ◌+◌, ◌-◌, ◌≤◌, ◌<◌, ◌≡◌, refl, sym, subst, ap, ◌∙◌, Bool, true, false, none, some,
  List, [], ◌∷◌, ◌++◌, any, arith, leb, append-nil, append_assoc, Bool-cases, ◌⊎◌, inl, inr,
}
use docker_local.Common.Text.{Text, text_eq, text_eq_refl, len, len-append}
use docker_local.Disk.{
  Disk, FilePath, put, or_empty, create, append_to, open_file, stat_file, write_file,
}
use docker_local.LogRotation.Logger.{
  RotatingLogger, write_if_open, terminated, append_line, append_if_new, append,
  check_if_message_should_be_appended,
}
use docker_local.LogRotation.Rotation.{
  NoFaults, DistinctNames, text_eq-names, Rotated, perform_log_rotation-Rotated,
}

abbrev pub file : RotatingLogger → Disk → ℕ → Text
file r d i = or_empty (d.content (r.instance_file_name i))

-- The first `n` files, the oldest text first.
abbrev pub history : RotatingLogger → ℕ → Disk → Text
history r zero d = []
history r (suc n) d = file r d (suc n) ++ history r n d

-- The files 2 to `n` + 1.
abbrev older : RotatingLogger → ℕ → Disk → Text
older r zero d = []
older r (suc n) d = file r d (suc (suc n)) ++ older r n d

history-older :
    (r : RotatingLogger) (n : ℕ) (d : Disk) → history r (suc n) d ≡ older r n d ++ file r d 1
history-older r zero d = append-nil (file r d 1)
history-older r (suc n) d = rw (history-older r n d, append_assoc)

module _ (r : RotatingLogger) where
  older-same :
      (n : ℕ) (d d' : Disk)
      → ((i : ℕ) → 2 ≤ i → d'.content (r.instance_file_name i) ≡ d.content (r.instance_file_name i))
      → older r n d' ≡ older r n d
  older-same zero d d' same = refl
  older-same (suc n) d d' same = rw (same (suc (suc n)) (omega arith), older-same n d d' same)

  older-moved :
      (n : ℕ) (d d' : Disk)
      → ((i : ℕ)
          → 1 ≤ i
          → i ≤ n
          → d'.content (r.instance_file_name (suc i)) ≡ d.content (r.instance_file_name i))
      → older r n d' ≡ history r n d
  older-moved zero d d' moved = refl
  older-moved (suc n) d d' moved = rw (
    moved (suc n) (omega arith) (omega arith),
    older-moved n d d' (λ i h l. moved i h (omega arith)),
  )

create-put :
    (path : FilePath) (d : Disk)
    → d.fails open_file path ≡ false
    → create path d ≡ (put path (some (or_empty (d.content path))) d, none)
unfolding create
create-put path d opens = rw opens

-- After a rotation the first file is opened again and written.
write_if_open-create :
    (path : FilePath) (line : Text) (d : Disk)
    → d.fails open_file path ≡ false
    → d.fails write_file path ≡ false
    → d.content path ≡ some []
    → write_if_open path line (create path d) ≡ put path (some line) (put path (some []) d)
unfolding create append_to
write_if_open-create path line d opens writes e =
    rw (opens, e) (rw (writes, write_if_open) (rw text_eq_refl))

-- The line stands behind the text that was there; the oldest file is dropped if the first is full.
abbrev pub Grown : RotatingLogger → ℕ → Text → Disk → Disk → Type 0
Grown r n line d d' =
    ((history r n d' ≡ history r n d ++ line) × (len (file r d 1) + len line < r.max_file_bytes))
    ⊎ ((file r d n ++ history r n d' ≡ history r n d ++ line)
        × (r.max_file_bytes ≤ len (file r d 1) + len line))

-- Each log file is shorter than the limit, or is one of the messages `ms` with a line feed.
pub record IsBounded (r : RotatingLogger) (ms : List Text) (d : Disk) : Type 0 where
  pub at :
      (i : ℕ)
      → 1 ≤ i
      → i ≤ r.log_files_count
      → (len (file r d i) < r.max_file_bytes)
        ⊎ ((m : Text) × (any (text_eq m) ms ≡ true) × (file r d i ≡ terminated m))

any-later :
    (m m' : Text) (ms : List Text) → any (text_eq m) ms ≡ true → any (text_eq m) (m' ∷ ms) ≡ true
any-later m m' ms h = rw h (ground arith)

-- What holds of some messages holds of more.
IsBounded-later :
    (r : RotatingLogger) (m : Text) (ms : List Text) (d : Disk)
    → IsBounded r ms d
    → IsBounded r (m ∷ ms) d
IsBounded-later r m ms d b = record {
  at = λ i h l. elim (b.at i h l) [
    | inl short ↦ inl short
    | inr (m', among, e) ↦ inr (m', any-later m' m ms among, e)
  ];
}

-- The first file has become `first`; the other files are `old`.
record FirstFile (r : RotatingLogger) (d d' : Disk) (first : Text) : Type 0 where
  fails_same : d'.fails ≡ d.fails
  first_is : d'.content (r.instance_file_name 1) ≡ some first
  rest_same :
      (i : ℕ) → 2 ≤ i → d'.content (r.instance_file_name i) ≡ d.content (r.instance_file_name i)

module _ (r : RotatingLogger) (distinct : DistinctNames r) where
  put-FirstFile : (d : Disk) (t : Text) → FirstFile r d (put (r.instance_file_name 1) (some t) d) t
  unfolding put
  put-FirstFile d t = record {
    fails_same = refl;
    first_is = rw text_eq_refl;
    rest_same = λ i h. rw (text_eq-names r distinct 1 i (omega arith));
  }

  put_twice-FirstFile :
      (d : Disk) (s t : Text)
      → FirstFile r d
          (put (r.instance_file_name 1) (some t) (put (r.instance_file_name 1) (some s) d))
          t
  unfolding put
  put_twice-FirstFile d s t = record {
    fails_same = refl;
    first_is = rw text_eq_refl;
    rest_same = λ i h. rw (text_eq-names r distinct 1 i (omega arith));
  }

  -- How a line gets into the log.
  data LineAdded (line : Text) (d d' : Disk) : Type 0 where
    added :
        len (file r d 1) + len line < r.max_file_bytes
        → FirstFile r d d' (file r d 1 ++ line)
        → LineAdded line d d'
    rotated :
        {d₁ : Disk}
        → r.max_file_bytes ≤ len (file r d 1) + len line
        → Rotated r d d₁
        → FirstFile r d₁ d' line
        → LineAdded line d d'

  append_line-LineAdded :
      (line : Text) (d : Disk)
      → NoFaults d
      → 1 ≤ r.log_files_count
      → LineAdded line d (append_line r line d)
  unfolding append_line
  append_line-LineAdded line d fine some_file =
      let name₁ = r.instance_file_name 1 in
      elim (Bool-cases (leb r.max_file_bytes (len (file r d 1) + len line))) [
        | inl full ↦
            let (d₁, e, g) = perform_log_rotation-Rotated r distinct d fine some_file in
            let opens : d₁.fails open_file name₁ ≡ false = rw g.fails_same (fine open_file name₁) in
            let writes : d₁.fails write_file name₁ ≡ false =
              rw g.fails_same (fine write_file name₁) in
            let done = write_if_open-create name₁ line d₁ opens writes g.first in
            rw (fine stat_file name₁, full, e, done)
              (rotated (ground arith) g (put_twice-FirstFile d₁ [] line))
        | inr room ↦
            rw (fine stat_file name₁, room)
              (rw (fine write_file name₁, write_if_open)
                (added (ground arith) (put-FirstFile d (file r d 1 ++ line))))
      ]

  LineAdded-history :
      (k : ℕ) (line : Text) (d d' : Disk)
      → r.log_files_count ≡ suc k
      → LineAdded line d d'
      → Grown r (suc k) line d d'
  LineAdded-history k line d d' e (added room f) = inl (
    history-older r k d'
        ∙ (rw (older-same r k d d' f.rest_same, f.first_is))
        ∙ sym (append_assoc (older r k d) (file r d 1) line)
        ∙ ap (λ (t : Text). t ++ line) (sym (history-older r k d)),
    room,
  )
  LineAdded-history k line d d' e (rotated {d₁} full g f) =
      let old : older r k d' ≡ history r k d =
        older-same r k d₁ d' f.rest_same
        ∙ older-moved r k d d₁ (λ i h l. g.moved i h (omega arith)) in
      inr (
        ap (◌++◌ (file r d (suc k))) (history-older r k d' ∙ (rw (old, f.first_is)))
            ∙ sym (append_assoc (file r d (suc k)) (history r k d) line),
        full,
      )

  LineAdded-IsBounded :
      (m : Text) (ms : List Text) (d d' : Disk)
      → LineAdded (terminated m) d d'
      → IsBounded r (m ∷ ms) d
      → IsBounded r (m ∷ ms) d'
  LineAdded-IsBounded m ms d d' (added room f) b = record {
    at = λ i h l. elim (dec_lt 1 i) [
      | yes later ↦ rw (f.rest_same i later) (b.at i h l)
      | no first ↦
          let e : i ≡ 1 = omega arith in
          rw (e, f.first_is) (inl (omega (arith, len-append (file r d 1) (terminated m))))
    ];
  }
  LineAdded-IsBounded m ms d d' (rotated {d₁} full g f) b = record {
    at = λ i h l. elim (dec_lt 1 i) [
      | yes later ↦
          let e : i ≡ suc (i - 1) = omega arith in
          rw (f.rest_same i later) (
            rw e (
              rw (g.moved (i - 1) (omega arith) (omega arith))
                (b.at (i - 1) (omega arith) (omega arith))))
      | no first ↦
          let e : i ≡ 1 = omega arith in rw (e, f.first_is) (inr (m, rw text_eq_refl refl, refl))
    ];
  }

  -- The first file exists once it has been opened.
  opened : Disk → Disk
  opened d = put (r.instance_file_name 1) (some (file r d 1)) d

  file-opened : (d : Disk) (i : ℕ) → 1 ≤ i → file r (opened d) i ≡ file r d i
  unfolding opened put
  file-opened d i h = elim (dec_lt 1 i) [
    | yes later ↦ rw (text_eq-names r distinct 1 i (omega arith))
    | no first ↦ let e : i ≡ 1 = omega arith in rw e (rw text_eq_refl)
  ]

  history-opened : (n : ℕ) (d : Disk) → history r n (opened d) ≡ history r n d
  history-opened zero d = refl
  history-opened (suc n) d = rw (file-opened d (suc n) (omega arith), history-opened n d)

  NoFaults-opened : (d : Disk) → NoFaults d → NoFaults (opened d)
  unfolding opened put
  NoFaults-opened d fine = fine

  Grown-opened :
      (n : ℕ) (line : Text) (d d' : Disk)
      → 1 ≤ n
      → Grown r n line (opened d) d'
      → Grown r n line d d'
  Grown-opened n line d d' h =
      rw (file-opened d 1 (omega arith), file-opened d n h, history-opened n d) (λ g. g)

  append_if_new-cases :
      (line : Text) (dedup : Bool) (d : Disk)
      → ((append_if_new r line dedup (d, none) ≡ d) × (dedup ≡ true))
        ⊎ (append_if_new r line dedup (d, none) ≡ append_line r line d)
  append_if_new-cases line dedup d =
      let name₁ = r.instance_file_name 1 in
      elim (Bool-cases (check_if_message_should_be_appended name₁ line dedup d)) [
        | inl new ↦ inr (rw (append_if_new, new))
        | inr old ↦ inl (rw (append_if_new, old), not_new dedup old)
      ]
    where
      not_new :
          (b : Bool)
          → check_if_message_should_be_appended (r.instance_file_name 1) line b d ≡ false
          → b ≡ true
      not_new true h = refl
      not_new false h = unfold check_if_message_should_be_appended in cc

  append-opened :
      (m : Text) (dedup : Bool) (d : Disk)
      → NoFaults d
      → append r m dedup d ≡ append_if_new r (terminated m) dedup (opened d, none)
  unfolding append opened create
  append-opened m dedup d fine =
      ap (append_if_new r (terminated m) dedup)
        (create-put (r.instance_file_name 1) d (fine open_file (r.instance_file_name 1)))

  -- Where no call fails and the names of the files differ, for a logger with one file or more:
  -- `Append` leaves the text of all its files, the oldest first, as it was (only if it was asked to leave
  -- duplicates out), or adds the trimmed message with a line feed at its end. It adds it behind the text
  -- that was there if the first file stays below the limit, and behind the text less the oldest file
  -- otherwise.
  pub append-history :
      (m : Text) (dedup : Bool) (d : Disk)
      → NoFaults d
      → 1 ≤ r.log_files_count
      → ((history r r.log_files_count (append r m dedup d) ≡ history r r.log_files_count d)
          × (dedup ≡ true))
        ⊎ Grown r r.log_files_count (terminated m) d (append r m dedup d)
  append-history m dedup d fine some_file =
      let n = r.log_files_count in
      let line = terminated m in
      rw (append-opened m dedup d fine) (elim (append_if_new-cases line dedup (opened d)) [
        | inl (same, duplicates) ↦ inl (rw same (history-opened n d), duplicates)
        | inr new ↦
            let e : n ≡ suc (n - 1) = omega arith in
            inr (
              rw new (
                Grown-opened n line d (append_line r line (opened d)) some_file (
                  subst (λ (k : ℕ). Grown r k line (opened d) (append_line r line (opened d)))
                    (sym e)
                    (LineAdded-history (n - 1) line (opened d) (append_line r line (opened d)) e
                      (append_line-LineAdded line (opened d) (NoFaults-opened d fine) some_file)))))
      ])

  -- Where no call fails and the names of the files differ, for a logger with one file or more: if each
  -- log file is shorter than the limit or is just one of the messages `ms`, trimmed and with a line feed, then after `Append`
  -- of a message `m` each is shorter than the limit or is just `m` or one of `ms`, trimmed and with a line feed.
  pub append-IsBounded :
      (m : Text) (ms : List Text) (dedup : Bool) (d : Disk)
      → NoFaults d
      → 1 ≤ r.log_files_count
      → IsBounded r ms d
      → IsBounded r (m ∷ ms) (append r m dedup d)
  append-IsBounded m ms dedup d fine some_file b =
      let b' : IsBounded r (m ∷ ms) (opened d) = record {
        at = λ i h l. rw (file-opened d i h) ((IsBounded-later r m ms d b).at i h l);
      } in
      rw (append-opened m dedup d fine)
        (elim (append_if_new-cases (terminated m) dedup (opened d)) [
          | inl (same, _) ↦ rw same b'
          | inr new ↦ rw new (
              LineAdded-IsBounded m ms (opened d) (append_line r (terminated m) (opened d))
                (append_line-LineAdded (terminated m) (opened d) (NoFaults-opened d fine) some_file)
                b')
        ])
