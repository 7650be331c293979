-- ===== src/LogRotation/Rotation.antt =====
-- What a rotation does to the files, where no call fails.
use native.Mathlib.Decide.{dec_lt}
use docker_local.Common.{
  ℕ, zero, suc, ◌≤◌, ◌<◌, ◌≡◌, ◌≢◌, refl, ◌∙◌, false, Option, none, some, [], arith, Bool-cases,
  Option-cases, if◌then◌else◌, inl, inr,
}
use docker_local.Common.Text.{text_eq, text_eq_iff, text_eq_refl}
use docker_local.Disk.{
  FilePath, Disk, Operation, Outcome, put, remove, rename, rename_file, remove_file, write_file,
}
use docker_local.LogRotation.Logger.{
  RotatingLogger, unless_missing, shift_files, perform_log_rotation,
}

abbrev pub NoFaults : Disk → Type 0
NoFaults d = (op : Operation) (path : FilePath) → d.fails op path ≡ false

-- The names of the log files differ.
abbrev pub DistinctNames : RotatingLogger → Type 0
DistinctNames r = (i j : ℕ) → r.instance_file_name i ≡ r.instance_file_name j → i ≡ j

pub content-put :
    (path q : FilePath) (file : Option _) (d : Disk)
    → (put path file d).content q ≡ (if text_eq path q then file else d.content q)
unfolding put
content-put path q file d = refl

-- One renaming, from a name to a name at which there is no file.
record Renamed (old new : FilePath) (d : Disk) (o : Outcome) : Type 0 where
  result : Disk
  returns : unless_missing o ≡ (result, none)
  fails_same : result.fails ≡ d.fails
  files :
      (q : FilePath)
      → result.content q
        ≡ (if text_eq new q then d.content old else if text_eq old q then none else d.content q)

rename-Renamed :
    (old new : FilePath) (d : Disk)
    → d.fails rename_file old ≡ false
    → d.content new ≡ none
    → Renamed old new d (rename old new d)
unfolding rename
rename-Renamed old new d fine free = elim (Option-cases (d.content old)) [
  | inl e ↦ record {
    result = d;
    returns = rw (fine, e);
    fails_same = refl;
    files = λ q. ground (arith, text_eq_iff new q, text_eq_iff old q);
  }
  | inr (t, e) ↦ record {
    result = put new (some t) (put old none d);
    returns = rw (fine, e);
    fails_same = refl;
    files = λ q. rw e;
  }
]

remove-unless_missing :
    (path : FilePath) (d : Disk)
    → d.fails remove_file path ≡ false
    → (d' : Disk) × (unless_missing (remove path d) ≡ (d', none))
      × (d'.fails ≡ d.fails)
      × ((q : FilePath) → d'.content q ≡ (if text_eq path q then none else d.content q))
unfolding remove
remove-unless_missing path d fine = elim (Option-cases (d.content path)) [
  | inl e ↦ (d, rw (fine, e), refl, λ q. ground (arith, text_eq_iff path q))
  | inr (t, e) ↦ (put path none d, rw (fine, e), refl, λ q. refl)
]

-- The files have moved up by one, below number `k`.
record Shifted (r : RotatingLogger) (k : ℕ) (d d' : Disk) : Type 0 where
  fails_same : d'.fails ≡ d.fails
  first_free : 1 ≤ k → d'.content (r.instance_file_name 1) ≡ none
  moved :
      (i : ℕ)
      → 1 ≤ i
      → i < k
      → d'.content (r.instance_file_name (suc i)) ≡ d.content (r.instance_file_name i)
  others :
      (q : FilePath)
      → ((i : ℕ) → 1 ≤ i → i ≤ k → r.instance_file_name i ≢ q)
      → d'.content q ≡ d.content q

module _ (r : RotatingLogger) (distinct : DistinctNames r) where
  pub text_eq-names :
      (i j : ℕ) → i ≢ j → text_eq (r.instance_file_name i) (r.instance_file_name j) ≡ false
  text_eq-names i j ne =
      elim (Bool-cases (text_eq (r.instance_file_name i) (r.instance_file_name j))) [
        | inl e ↦ absurd (ne (distinct i j ((text_eq_iff _ _).0 e)))
        | inr e ↦ e
      ]

  text_eq-other : (p q : FilePath) → p ≢ q → text_eq p q ≡ false
  text_eq-other p q ne = elim (Bool-cases (text_eq p q)) [
    | inl e ↦ absurd (ne ((text_eq_iff p q).0 e))
    | inr e ↦ e
  ]

  Shifted-step :
      (j : ℕ) (d d₁ d' : Disk)
      → d₁.fails ≡ d.fails
      → ((q : FilePath)
          → d₁.content q ≡ (
              if text_eq (r.instance_file_name (suc (suc j))) q
              then d.content (r.instance_file_name (suc j))
              else if text_eq (r.instance_file_name (suc j)) q
              then none
              else d.content q))
      → Shifted r (suc j) d₁ d'
      → Shifted r (suc (suc j)) d d'
  Shifted-step j d d₁ d' fails files g = record {
    fails_same = g.fails_same ∙ fails;
    first_free = λ h. g.first_free (omega arith);
    moved = λ i h l. elim (dec_lt i (suc j)) [
      | yes low ↦
          g.moved i h low
          ∙ files (r.instance_file_name i)
          ∙ (rw
              (text_eq-names (suc (suc j)) i (omega arith), text_eq-names (suc j) i (omega arith)))
      | no top ↦
          let e : i ≡ suc j = omega arith in
          rw e (
            g.others (r.instance_file_name (suc (suc j)))
              (λ k h' l' same. omega (arith, distinct k (suc (suc j)) same))
            ∙ files (r.instance_file_name (suc (suc j)))
            ∙ (rw text_eq_refl))
    ];
    others = λ q ne.
        g.others q (λ i h l. ne i h (omega arith))
        ∙ files q
        ∙ (rw (
          text_eq-other _ q (ne (suc (suc j)) (omega arith) (omega arith)),
          text_eq-other _ q (ne (suc j) (omega arith) (omega arith)),
        ));
  }

  shift_files-Shifted :
      (k : ℕ) (d : Disk)
      → NoFaults d
      → d.content (r.instance_file_name k) ≡ none
      → (d' : Disk) × (shift_files r k d ≡ (d', none)) × Shifted r k d d'
  unfolding shift_files
  shift_files-Shifted zero d fine free = (
    d,
    refl,
    record {
      fails_same = refl;
      first_free = λ h. absurd (omega arith);
      moved = λ i h l. absurd (omega arith);
      others = λ q ne. refl;
    },
  )
  shift_files-Shifted (suc zero) d fine free = (
    d,
    refl,
    record {
      fails_same = refl;
      first_free = λ h. free;
      moved = λ i h l. absurd (omega arith);
      others = λ q ne. refl;
    },
  )
  shift_files-Shifted (suc (suc j)) d fine free =
      let old = r.instance_file_name (suc j) in
      let new = r.instance_file_name (suc (suc j)) in
      let m = rename-Renamed old new d (fine rename_file old) free in
      let d₁ = m.result in
      let (d', e, g) =
        shift_files-Shifted (suc j) d₁ (λ op q. rw m.fails_same (fine op q))
          (m.files old ∙ (rw (text_eq-names (suc (suc j)) (suc j) (omega arith), text_eq_refl))) in
      (d', rw m.returns e, Shifted-step j d d₁ d' m.fails_same m.files g)

-- What a rotation promises: an empty first file, each other file moved up by one, the last one gone.
pub record Rotated (r : RotatingLogger) (d d' : Disk) : Type 0 where
  pub fails_same : d'.fails ≡ d.fails
  pub first : d'.content (r.instance_file_name 1) ≡ some []
  pub moved :
      (i : ℕ)
      → 1 ≤ i
      → i < r.log_files_count
      → d'.content (r.instance_file_name (suc i)) ≡ d.content (r.instance_file_name i)
  pub others :
      (q : FilePath)
      → ((i : ℕ) → 1 ≤ i → i ≤ r.log_files_count → r.instance_file_name i ≢ q)
      → d'.content q ≡ d.content q

module _ (r : RotatingLogger) (distinct : DistinctNames r) where
  -- Where no call fails and the names of the files differ, for a logger with one file or more, a
  -- rotation succeeds. Then the first file is empty, file i + 1 is what file i was (missing, if
  -- that was missing) for every i below the number of files, and no other path has changed.
  pub perform_log_rotation-Rotated :
      (d : Disk)
      → NoFaults d
      → 1 ≤ r.log_files_count
      → (d' : Disk) × (perform_log_rotation r d ≡ (d', none)) × Rotated r d d'
  unfolding perform_log_rotation
  perform_log_rotation-Rotated d fine some_file =
      let n = r.log_files_count in
      let last = r.instance_file_name n in
      let name₁ = r.instance_file_name 1 in
      let (d₁, e₁, f₁, c₁) = remove-unless_missing last d (fine remove_file last) in
      let (d₂, e₂, g) =
        shift_files-Shifted r distinct n d₁ (λ op q. rw f₁ (fine op q))
          (c₁ last ∙ (rw text_eq_refl)) in
      let fails₂ : d₂.fails ≡ d.fails = g.fails_same ∙ f₁ in
      let writes : d₂.fails write_file name₁ ≡ false = rw fails₂ (fine write_file name₁) in
      (
        put name₁ (some []) d₂,
        rw (e₁, e₂, writes),
        record {
          fails_same = fails₂;
          first = content-put name₁ name₁ (some []) d₂ ∙ (rw text_eq_refl);
          moved = λ i h l.
              content-put name₁ (r.instance_file_name (suc i)) (some []) d₂
              ∙ (rw (text_eq-names r distinct 1 (suc i) (omega arith)))
              ∙ g.moved i h l
              ∙ c₁ (r.instance_file_name i)
              ∙ (rw (text_eq-names r distinct n i (omega arith)));
          others = λ q ne.
              content-put name₁ q (some []) d₂
              ∙ (rw (text_eq-other r distinct name₁ q (ne 1 (omega arith) some_file)))
              ∙ g.others q ne
              ∙ c₁ q
              ∙ (rw (text_eq-other r distinct last q (ne n some_file (omega arith))));
        },
      )
