-- ===== src/Checks/Codes.antt =====
-- Which exit codes the programs have, and when they agree.
use docker_local.Common.{
  ℕ, ◌+◌, ◌<◌, ◌≤◌, ◌≡◌, refl, sym, ap, ◌∙◌, Bool, true, false, ◌||◌, Option, none, some, [], ◌==◌,
  leb, Result, ok, err, Bool-cases, inl, inr, arith,
}
use docker_local.Common.Text.{Text, codes, text_eq, contains, is_empty}
use docker_local.Common.Decimal.{decimal, int_limit}
use docker_local.Disk.{Disk, OsError, stat_file, write_file, put, put-content, write}
use docker_local.Startup.Environment.{getenv}
use docker_local.Startup.Name.{NameError, get_queue_manager_name}
use docker_local.Startup.Ready.{
  ready_to_sync_file, check, file_exists, set_ready_to_sync, QmStatus, unknown, active, standby,
  replica, recovery, status,
}
use docker_local.Startup.Ready.Since.{Reliable, ready_to_sync_first}
use docker_local.Checks.Programs.{
  CheckWorld, status_code, named_code, checked_code, chkmqready, is_ready, is_started,
  started_output, started_code, healthy_output, healthy_named, chkmqhealthy, code_of, started_named,
  chkmqstarted,
}

-- The codes that `chkmqready` has, less that of a replica.
abbrev pub is_met : ℕ → Bool
is_met c = c == 0 || c == 1 || c == 10

abbrev is_no_replica : Option QmStatus → Bool
is_no_replica (some replica) = false
is_no_replica _ = true

no_replica : (out : Option Text) → is_no_replica (status out) ≡ true
unfolding status
no_replica none = refl
no_replica (some out) = ground arith

status_code-met :
    (w : CheckWorld) (s : Option QmStatus)
    → is_no_replica s ≡ true
    → is_met (status_code w s) ≡ true
status_code-met w none h = refl
status_code-met w (some active) h = elim (Bool-cases w.port_open) [
  | inl e ↦ rw e refl
  | inr e ↦ rw e refl
]
status_code-met w (some recovery) h = refl
status_code-met w (some standby) h = refl
status_code-met w (some replica) h = cc
status_code-met w (some unknown) h = refl

named_code-met : (w : CheckWorld) (r : Result NameError Text) → is_met (named_code w r) ≡ true
named_code-met w (err e) = refl
named_code-met w (ok name) = status_code-met w (status w.dspmq) (no_replica w.dspmq)

checked_code-met : (w : CheckWorld) (r : Result OsError Bool) → is_met (checked_code w r) ≡ true
checked_code-met w (err e) = refl
checked_code-met w (ok false) = refl
checked_code-met w (ok true) = named_code-met w (get_queue_manager_name w.env w.hostname)

-- The exit code of `chkmqready` is 0, 1 or 10, and so never 20, that it has for a replica.
pub chkmqready-met : (w : CheckWorld) (d : Disk) → is_met (chkmqready w d) ≡ true
unfolding chkmqready
chkmqready-met w d = checked_code-met w (check d)

is_started-is_ready : (out : Text) → is_started out ≡ is_ready out
unfolding is_started is_ready
is_started-is_ready out = refl

same_output : (out : Option Text) → started_code (started_output out) ≡ code_of (healthy_output out)
same_output none = refl
same_output (some out) = elim (Bool-cases (is_ready out)) [
  | inl e ↦ rw (is_started-is_ready out, e) refl
  | inr e ↦ rw (is_started-is_ready out, e) refl
]

abbrev ends : Disk × Option Bool → Disk × ℕ
ends (d, started) = (d, started_code started)

same_named :
    (w : CheckWorld) (r : Result NameError Text) (d : Disk)
    → text_eq (getenv w.env (codes "MQ_NATIVE_HA")) (codes "true") ≡ false
    → ends (started_named w r d) ≡ (d, code_of (healthy_named w r))
same_named w (err e) d h = refl
same_named w (ok name) d h = rw h (ap (λ c. (d, c)) (same_output w.dspmq))

-- Without Native HA, `chkmqstarted` and `chkmqhealthy` exit with the same code for the same output of dspmq, and the first leaves the
-- files as they are.
pub chkmqstarted-chkmqhealthy :
    (w : CheckWorld) (d : Disk)
    → text_eq (getenv w.env (codes "MQ_NATIVE_HA")) (codes "true") ≡ false
    → chkmqstarted w d ≡ (d, chkmqhealthy w)
unfolding chkmqstarted chkmqhealthy
chkmqstarted-chkmqhealthy w d h = same_named w (get_queue_manager_name w.env w.hostname) d h

-- The second call of `SetReadyToSync` changes nothing.
set_twice :
    (first now : ℕ) (d : Disk)
    → Reliable d
    → d.content ready_to_sync_file ≡ none
    → set_ready_to_sync now (set_ready_to_sync first d).0 ≡ ((set_ready_to_sync first d).0, none)
unfolding set_ready_to_sync file_exists write
set_twice first now d r e =
    let written : set_ready_to_sync first d
        ≡ (put ready_to_sync_file (some (decimal first)) d, none) =
      rw (r.never stat_file ready_to_sync_file, e, r.never write_file ready_to_sync_file) refl in
    let there = put-content ready_to_sync_file (some (decimal first)) d in
    let found : (put ready_to_sync_file (some (decimal first)) d).fails stat_file ready_to_sync_file
        ≡ false =
      unfold put in r.never stat_file ready_to_sync_file in
    ap (λ o. set_ready_to_sync now o.0) written
    ∙ rw (found, there) refl
    ∙ ap (λ o. (o.0, none)) (sym written)

-- With Native HA: if `SetReadyToSync` was called first, on files where no call fails, and five seconds have passed since, then
-- `chkmqstarted` exits with 0 once dspmq says that the instance is running, in whichever of the ways that count as ready, whether it is in sync or not. The timeout is the default.
pub chkmqstarted-expired :
    (w : CheckWorld) (first : ℕ) (d : Disk) (name out : Text)
    → Reliable d
    → d.content ready_to_sync_file ≡ none
    → first < int_limit
    → first + 5 ≤ w.now
    → text_eq (getenv w.env (codes "MQ_NATIVE_HA")) (codes "true") ≡ true
    → is_empty (getenv w.env (codes "MQ_NATIVE_HA_IN_SYNC_TIMEOUT")) ≡ true
    → get_queue_manager_name w.env w.hostname ≡ ok name
    → w.dspmq_nativeha ≡ some out
    → is_started out ≡ true
    → (chkmqstarted w (set_ready_to_sync first d).0).1 ≡ 0
unfolding chkmqstarted
chkmqstarted-expired w first d name out r e small late ha default named said ready =
    let since = (ready_to_sync_first first [] d r e small).1 in
    let again = set_twice first w.now d r e in
    let passed : leb (first + 5) (w.now + 0 + 0) ≡ true = ground arith in
    elim (Bool-cases (contains out (codes "INSYNC(YES)"))) [
      | inl i ↦ rw (named, ha, said, i) refl
      | inr i ↦ rw (named, ha, said, i, ready, again, default, since, passed) refl
    ]
