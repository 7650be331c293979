-- ===== src/Probes/Tests.antt =====
-- The probes' theorems at a socket that has just started.
use docker_local.Common.{ℕ, ◌≡◌, refl, some, none, List, [], ◌∷◌, ◌++◌, ◌+◌}
use docker_local.Common.Text.{Text, codes, text_eq}
use docker_local.Probes.State.{
  ProbeLoggingExecution, liveness, startup, passed, incomplete, info, error, no_execution,
  new_probe_state,
}
use docker_local.Probes.Execution.{build_liveness_probe_output_message}
use docker_local.Probes.Socket.{
  ProbeLoggingSocket, printed, errored, handle_connection, malformed, null, execution_of,
}
use docker_local.Probes.Timeline.{
  Keeps, timeline, handle_liveness_probes, handle_liveness_probes-Keeps,
}
use docker_local.Probes.Attempts.{Counts, handle_all, handle_all-Counts}
use docker_local.Probes.Dedup.{Outcome, dedup_logs, liveness_lines, dedup_logs-liveness_lines}
use docker_local.Probes.Messages.{is_panic, is_null_read, handle_connection_null}

abbrev fresh : ProbeLoggingSocket
fresh = record { last_log = λ q. []; state = unfold new_probe_state in new_probe_state; lines = [] }

abbrev sock : Text
sock = codes "/run/liveness-probe.sock"

abbrev begun : ProbeLoggingExecution
begun = record no_execution { probe_type = liveness; start_time = some 5; status = incomplete }

abbrev started : ProbeLoggingExecution
started = record no_execution { probe_type = startup; status = incomplete }

output :
    build_liveness_probe_output_message (codes " AMQ1:  not\n\trunning ")
    ≡ codes "Output: AMQ1: not running"
unfolding build_liveness_probe_output_message
output = refl

fresh-Keeps : Keeps [] fresh
unfolding new_probe_state
fresh-Keeps = record { kept = refl }

abbrev probes : List (ℕ × ProbeLoggingExecution)
probes =
    (6, begun)
    ∷ (7, record begun { status = passed; duration = some 2 })
    ∷ (20, begun)
    ∷ (30, begun)
    ∷ []

handle_liveness_probes-Keeps_example :
    Keeps (timeline probes []) (handle_liveness_probes probes sock fresh)
handle_liveness_probes-Keeps_example = handle_liveness_probes-Keeps probes sock fresh [] fresh-Keeps

fresh-Counts : Counts 0 fresh
unfolding new_probe_state
fresh-Counts = record { startup = record { current_run = none }; is_startup = refl; count = refl }

handle_all-Counts_example : Counts (0 + 2) (handle_all (started ∷ started ∷ []) sock fresh)
handle_all-Counts_example =
    handle_all-Counts (started ∷ started ∷ []) sock fresh 0 (refl, (refl, tt)) fresh-Counts

abbrev outcomes : List Outcome
outcomes =
    (info, codes "a")
    ∷ (info, codes "a")
    ∷ (error, codes "b")
    ∷ (error, codes "b")
    ∷ (info, codes "a")
    ∷ []

dedup_logs-liveness_lines_example :
    (dedup_logs liveness sock outcomes fresh).lines ≡ [] ++ liveness_lines [] outcomes
dedup_logs-liveness_lines_example = dedup_logs-liveness_lines sock outcomes fresh

liveness_lines-outcomes :
    liveness_lines [] outcomes
    ≡ printed (codes "a") ∷ errored (codes "b") ∷ errored (codes "b") ∷ printed (codes "a") ∷ []
unfolding text_eq
liveness_lines-outcomes = refl

handle_connection_null_example :
    is_panic
      (handle_connection ((6, execution_of begun) ∷ (7, null) ∷ (8, malformed) ∷ []) sock fresh)
    ≡ is_null_read ((6, execution_of begun) ∷ (7, null) ∷ (8, malformed) ∷ [])
handle_connection_null_example =
    handle_connection_null ((6, execution_of begun) ∷ (7, null) ∷ (8, malformed) ∷ []) sock fresh
