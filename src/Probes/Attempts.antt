-- ===== src/Probes/Attempts.antt =====
-- The attempt count of the startup probe.
use docker_local.Common.{ℕ, ◌+◌, ◌≡◌, refl, sym, ◌∙◌, ap, Option, none, some, List, [], ◌∷◌, All}
use docker_local.Common.Text.{Text}
use docker_local.Probes.State.{
  ProbeLoggingExecution, ProbeStatus, passed, failed, incomplete, other_status,
  StartupProbeLoggingState,
}
use docker_local.Probes.Socket.{
  ProbeLoggingSocket, attempts, keep_attempts, set_startup, finish_startup, startup_event,
  dedup_log, handle_startup_probe,
}
use docker_local.Probes.Timeline.{dedup_log-state}
use native.Mathlib.Nat.{add-zero, add_assoc}

-- The messages of a startup probe, one after the other.
pub handle_all : List ProbeLoggingExecution → Text → ProbeLoggingSocket → ProbeLoggingSocket
handle_all [] path ps = ps
handle_all (e ∷ es) path ps = handle_all es path (handle_startup_probe e path ps)

abbrev pub starts : ProbeStatus → ℕ
starts incomplete = 1
starts _ = 0

abbrev pub count_starts : List ProbeLoggingExecution → ℕ
count_starts [] = 0
count_starts (e ∷ es) = starts e.status + count_starts es

pub record Counts (n : ℕ) (ps : ProbeLoggingSocket) : Type 0 where
  pub startup : StartupProbeLoggingState
  pub is_startup : ps.state.startup_state ≡ some startup
  pub count : attempts startup.current_run ≡ n

dedup_log-Counts :
    (path level message type : Text) (ps : ProbeLoggingSocket) (n : ℕ)
    → Counts n ps
    → Counts n (dedup_log path level message type ps)
dedup_log-Counts path level message type ps n c = record {
  startup = c.startup;
  is_startup = rw dedup_log-state c.is_startup;
  count = c.count;
}

finish_startup-Counts :
    (path : Text) (e : ProbeLoggingExecution) (ps : ProbeLoggingSocket) (n : ℕ)
    → e.attempt_count ≡ n
    → Counts n (finish_startup path e ps)
finish_startup-Counts path e ps n h =
    dedup_log-Counts path _ _ _ (set_startup e ps) n
      (record { startup = record { current_run = some e }; is_startup = refl; count = h })

kept-attempts :
    (e : ProbeLoggingExecution) (run : Option ProbeLoggingExecution)
    → e.attempt_count ≡ 0
    → (keep_attempts e run).attempt_count ≡ attempts run
kept-attempts e none z = z
kept-attempts e (some run) z = refl

startup_event-Counts :
    (status : ProbeStatus) (e : ProbeLoggingExecution) (path : Text) (ps : ProbeLoggingSocket)
    (s : StartupProbeLoggingState)
    → e.attempt_count ≡ 0
    → ps.state.startup_state ≡ some s
    → Counts (attempts s.current_run + starts status) (startup_event status e path (some s) ps)
startup_event-Counts incomplete e path ps s z h = record {
  startup = _;
  is_startup = refl;
  count = refl;
}
startup_event-Counts passed e path ps s z h =
    finish_startup-Counts path (keep_attempts e s.current_run) ps _
      (kept-attempts e s.current_run z ∙ sym (add-zero (attempts s.current_run)))
startup_event-Counts failed e path ps s z h =
    finish_startup-Counts path (keep_attempts e s.current_run) ps _
      (kept-attempts e s.current_run z ∙ sym (add-zero (attempts s.current_run)))
startup_event-Counts (other_status t) e path ps s z h = record {
  startup = s;
  is_startup = h;
  count = sym (add-zero (attempts s.current_run));
}

handle_startup_probe-Counts :
    (e : ProbeLoggingExecution) (path : Text) (ps : ProbeLoggingSocket) (n : ℕ)
    → e.attempt_count ≡ 0
    → Counts n ps
    → Counts (n + starts e.status) (handle_startup_probe e path ps)
handle_startup_probe-Counts e path ps n z c =
    let event : handle_startup_probe e path ps ≡ startup_event e.status e path (some c.startup) ps =
      unfold handle_startup_probe in ap (λ o. startup_event e.status e path o ps) c.is_startup in
    rw (← c.count, event) (startup_event-Counts e.status e path ps c.startup z c.is_startup)

-- The attempt count of the current startup run grows by one with each message that is incomplete, and only
-- with those, if the messages carry no count of their own, as the probes send them. (With no
-- current run the count is 0.)
pub handle_all-Counts :
    (es : List ProbeLoggingExecution) (path : Text) (ps : ProbeLoggingSocket) (n : ℕ)
    → All (λ e. e.attempt_count ≡ 0) es
    → Counts n ps
    → Counts (n + count_starts es) (handle_all es path ps)
unfolding handle_all
handle_all-Counts [] path ps n z c = rw add-zero c
handle_all-Counts (e ∷ es) path ps n (z, zs) c =
    rw (← add_assoc n (starts e.status) (count_starts es)) (
      handle_all-Counts es path (handle_startup_probe e path ps) (n + starts e.status) zs
        (handle_startup_probe-Counts e path ps n z c))
