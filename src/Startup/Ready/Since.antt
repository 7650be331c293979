-- ===== src/Startup/Ready/Since.antt =====
-- Since when an instance is ready, and how readiness is cleared.
use docker_local.Common.{
  ℕ, ◌<◌, ◌≡◌, refl, ◌∙◌, inl, inr, Option-cases, ap, false, Option, none, some, List, [], ◌∷◌, ok,
  arith,
}
use docker_local.Common.Text.{Text, text_eq_refl}
use docker_local.Common.Decimal.{decimal, int_limit, parse_int-decimal}
use docker_local.Disk.{FilePath, Disk, Outcome, Operation, stat_file, read_file, put, remove, write}
use docker_local.Startup.Ready.{
  check, clear, clear_file, clear_second, file_exists, get_ready_to_sync_start_time, ready_file,
  ready_to_sync_file, set_ready_to_sync, start_time_of,
}

-- Calls of `SetReadyToSync`, one after the other.
abbrev pub set_all : List ℕ → Disk → Disk
set_all [] d = d
set_all (now ∷ later) d = set_all later (set_ready_to_sync now d).0

-- No call on a disk fails.
pub record Reliable (d : Disk) : Type 0 where
  pub never : (op : Operation) (path : FilePath) → d.fails op path ≡ false

set_again :
    (now : ℕ) (d : Disk) {t : Text}
    → d.fails stat_file ready_to_sync_file ≡ false
    → d.content ready_to_sync_file ≡ some t
    → (set_ready_to_sync now d).0 ≡ d
unfolding set_ready_to_sync file_exists
set_again now d f e = rw (f, e) refl

set_all-same :
    (later : List ℕ) (d : Disk) {t : Text}
    → d.fails stat_file ready_to_sync_file ≡ false
    → d.content ready_to_sync_file ≡ some t
    → set_all later d ≡ d
set_all-same [] d f e = refl
set_all-same (now ∷ later) d f e = rw (set_again now d f e) (set_all-same later d f e)

set_first :
    (now : ℕ) (d : Disk)
    → Reliable d
    → d.content ready_to_sync_file ≡ none
    → set_ready_to_sync now d ≡ (put ready_to_sync_file (some (decimal now)) d, none)
unfolding set_ready_to_sync file_exists write
set_first now d r e =
    rw (r.never stat_file ready_to_sync_file, e, r.never Operation.write_file ready_to_sync_file)
      refl

put_same : (path : FilePath) (o : Option Text) (d : Disk) → (put path o d).content path ≡ o
unfolding put
put_same path o d = rw (text_eq_refl path) refl

start_time_first :
    (now : ℕ) (d : Disk)
    → d.fails stat_file ready_to_sync_file ≡ false
    → d.fails read_file ready_to_sync_file ≡ false
    → d.content ready_to_sync_file ≡ some (decimal now)
    → now < int_limit
    → get_ready_to_sync_start_time d ≡ ok (some (record { negative = false; absolute = now }))
unfolding get_ready_to_sync_start_time file_exists
start_time_first now d f g e h = rw (f, e, g, e, parse_int-decimal now h) refl

set_all-first :
    (now : ℕ) (later : List ℕ) (d : Disk)
    → Reliable d
    → d.content ready_to_sync_file ≡ none
    → set_all (now ∷ later) d ≡ put ready_to_sync_file (some (decimal now)) d
set_all-first now later d r e =
    let first = put ready_to_sync_file (some (decimal now)) d in
    ap (λ o. set_all later o.0) (set_first now d r e)
    ∙ set_all-same later first (unfold put in r.never stat_file ready_to_sync_file)
        (put_same ready_to_sync_file (some (decimal now)) d)

-- Where no call fails, `GetReadyToSyncStartTime` tells that the instance was not ready before `SetReadyToSync` is called,
-- and after it the time of the first call, whatever calls come later.
pub ready_to_sync_first :
    (now : ℕ) (later : List ℕ) (d : Disk)
    → Reliable d
    → d.content ready_to_sync_file ≡ none
    → now < int_limit
    → (get_ready_to_sync_start_time d ≡ ok none)
      × (get_ready_to_sync_start_time (set_all (now ∷ later) d)
          ≡ ok (some (record { negative = false; absolute = now })))
unfolding get_ready_to_sync_start_time file_exists
ready_to_sync_first now later d r e h =
    let first = put ready_to_sync_file (some (decimal now)) d in
    let written = put_same ready_to_sync_file (some (decimal now)) d in
    (
      rw (r.never stat_file ready_to_sync_file, e) refl,
      ap get_ready_to_sync_start_time (set_all-first now later d r e)
          ∙ start_time_first now first (unfold put in r.never stat_file ready_to_sync_file)
              (unfold put in r.never read_file ready_to_sync_file) written h,
    )

file_exists-none :
    (path : FilePath) (d : Disk)
    → Reliable d
    → d.content path ≡ none
    → file_exists path d ≡ ok false
unfolding file_exists
file_exists-none path d r e = rw (r.never stat_file path, e) refl

-- What `clearFile` leaves on a disk where no call fails.
clear_file_lem :
    (path : FilePath) (d : Disk)
    → Reliable d
    → Reliable (clear_file path d).0
      × ((clear_file path d).1 ≡ none)
      × ((clear_file path d).0.content path ≡ none)
      × ((other : FilePath) → d.content other ≡ none → (clear_file path d).0.content other ≡ none)
unfolding clear_file file_exists remove put
clear_file_lem path d r = elim (Option-cases (d.content path)) [
  | inl e ↦ rw (r.never stat_file path, e) (r, refl, e, λ other h. h)
  | inr (t, e) ↦
      rw (r.never stat_file path, e, r.never Operation.remove_file path, e, text_eq_refl path)
        (record { never = r.never }, refl, refl, λ other h. ground arith)
]

clear_second-none : (o : Outcome) → o.1 ≡ none → clear_second o ≡ clear_file ready_to_sync_file o.0
clear_second-none (d, none) e = refl
clear_second-none (d, some f) e = cc

-- Where no call fails, `Clear` succeeds, whatever files there are, and then the queue manager is neither ready nor
-- ready to sync.
pub clear_lem :
    (d : Disk)
    → Reliable d
    → ((clear d).1 ≡ none)
      × (check (clear d).0 ≡ ok false)
      × (get_ready_to_sync_start_time (clear d).0 ≡ ok none)
unfolding clear check get_ready_to_sync_start_time
clear_lem d r =
    let (r₁, e₁, c₁, k₁) = clear_file_lem ready_file d r in
    let (r₂, e₂, c₂, k₂) = clear_file_lem ready_to_sync_file (clear_file ready_file d).0 r₁ in
    let e = clear_second-none (clear_file ready_file d) e₁ in
    let cleared = (clear_file ready_to_sync_file (clear_file ready_file d).0).0 in
    rw e (
      e₂,
      file_exists-none ready_file cleared r₂ (k₂ ready_file c₁),
      ap (λ found. start_time_of found cleared) (file_exists-none ready_to_sync_file cleared r₂ c₂),
    )
