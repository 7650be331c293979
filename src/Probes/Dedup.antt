-- ===== src/Probes/Dedup.antt =====
-- What is logged of the completed runs.
use docker_local.Common.{
  ℕ, ◌≡◌, refl, sym, ◌∙◌, ap, List, [], ◌∷◌, ◌++◌, append-nil, append_assoc, Bool-cases,
  if◌then◌else◌, inl, inr,
}
use docker_local.Common.Text.{Text, text_eq, text_eq_refl}
use docker_local.Probes.State.{
  LogLevel, info, error, other_level, ProbeType, liveness, startup, get_log_level, get_probe_type,
}
use docker_local.Probes.Socket.{
  ProbeLoggingSocket, LogLine, printed, errored, dedup_log, log_and_remember,
}

-- A level with a message.
abbrev pub Outcome : Type 0
Outcome = LogLevel × Text

-- The lines for the outcomes of a liveness probe, with the message that was last logged: errors always, others if they
-- differ from that message.
abbrev pub liveness_lines : Text → List Outcome → List LogLine
liveness_lines last [] = []
liveness_lines last ((error, m) ∷ es) = errored m ∷ liveness_lines m es
liveness_lines last ((_, m) ∷ es) =
    if text_eq last m then liveness_lines last es else printed m ∷ liveness_lines m es

-- Of a startup probe: no errors, others if they differ from that message.
abbrev pub startup_lines : Text → List Outcome → List LogLine
startup_lines last [] = []
startup_lines last ((error, m) ∷ es) = startup_lines last es
startup_lines last ((_, m) ∷ es) =
    if text_eq last m then startup_lines last es else printed m ∷ startup_lines m es

pub dedup_logs : ProbeType → Text → List Outcome → ProbeLoggingSocket → ProbeLoggingSocket
dedup_logs type path [] ps = ps
dedup_logs type path ((level, m) ∷ es) ps =
    dedup_logs type path es (dedup_log path (get_log_level level) m (get_probe_type type) ps)

abbrev lines_of_rest : ProbeType → Text → List Outcome → ProbeLoggingSocket → List LogLine
lines_of_rest type path es ps = (dedup_logs type path es ps).lines

remembered :
    (line : LogLine) (path m : Text) (ps : ProbeLoggingSocket)
    → (log_and_remember line path m ps).last_log path ≡ m
unfolding log_and_remember
remembered line path m ps = rw text_eq_refl

pub logged :
    (line : LogLine) (path m : Text) (ps : ProbeLoggingSocket)
    → (log_and_remember line path m ps).lines ≡ ps.lines ++ line ∷ []
unfolding log_and_remember
logged line path m ps = refl

-- One outcome of a liveness probe.
pub dedup_log-liveness_error :
    (path m : Text) (ps : ProbeLoggingSocket)
    → dedup_log path (get_log_level error) m (get_probe_type liveness) ps
      ≡ log_and_remember (errored m) path m ps
unfolding dedup_log
dedup_log-liveness_error path m ps = refl

dedup_log-startup_error :
    (path m : Text) (ps : ProbeLoggingSocket)
    → dedup_log path (get_log_level error) m (get_probe_type startup) ps ≡ ps
unfolding dedup_log
dedup_log-startup_error path m ps = refl

dedup_log-liveness_info :
    (path m : Text) (ps : ProbeLoggingSocket)
    → dedup_log path (get_log_level info) m (get_probe_type liveness) ps
      ≡ (if text_eq (ps.last_log path) m then ps else log_and_remember (printed m) path m ps)
unfolding dedup_log
dedup_log-liveness_info path m ps = refl

dedup_log-startup_info :
    (path m : Text) (ps : ProbeLoggingSocket)
    → dedup_log path (get_log_level info) m (get_probe_type startup) ps
      ≡ (if text_eq (ps.last_log path) m then ps else log_and_remember (printed m) path m ps)
unfolding dedup_log
dedup_log-startup_info path m ps = refl

dedup_log-liveness_other :
    (n : ℕ) (path m : Text) (ps : ProbeLoggingSocket)
    → dedup_log path (get_log_level (other_level n)) m (get_probe_type liveness) ps
      ≡ (if text_eq (ps.last_log path) m then ps else log_and_remember (printed m) path m ps)
unfolding dedup_log
dedup_log-liveness_other n path m ps = refl

dedup_log-startup_other :
    (n : ℕ) (path m : Text) (ps : ProbeLoggingSocket)
    → dedup_log path (get_log_level (other_level n)) m (get_probe_type startup) ps
      ≡ (if text_eq (ps.last_log path) m then ps else log_and_remember (printed m) path m ps)
unfolding dedup_log
dedup_log-startup_other n path m ps = refl

-- The lines of later outcomes, behind a line that has just been logged.
lines-logged :
    (line : LogLine) (path m : Text) (ps : ProbeLoggingSocket) (rest : Text → List LogLine)
    → (log_and_remember line path m ps).lines
        ++ rest ((log_and_remember line path m ps).last_log path)
      ≡ ps.lines ++ line ∷ rest m
lines-logged line path m ps rest = rw (logged, remembered, append_assoc)

-- The lines of later outcomes, behind an outcome that is logged if it is new.
lines-if_new :
    (path m : Text) (ps : ProbeLoggingSocket) (rest : Text → List LogLine)
    → let ps' =
        if text_eq (ps.last_log path) m then ps else log_and_remember (printed m) path m ps in
      ps'.lines ++ rest (ps'.last_log path)
      ≡ ps.lines
        ++ (if text_eq (ps.last_log path) m then rest (ps.last_log path) else printed m ∷ rest m)
lines-if_new path m ps rest = elim (Bool-cases (text_eq (ps.last_log path) m)) [
  | inl e ↦ rw e
  | inr n ↦ rw n (lines-logged (printed m) path m ps rest)
]

-- Of the outcomes of liveness probes on one socket every error is logged, and any other outcome just if its
-- message differs from that of the outcome before it (for the first: from what the socket remembers).
pub dedup_logs-liveness_lines :
    (path : Text) (es : List Outcome) (ps : ProbeLoggingSocket)
    → (dedup_logs liveness path es ps).lines ≡ ps.lines ++ liveness_lines (ps.last_log path) es
unfolding dedup_logs
dedup_logs-liveness_lines path [] ps = sym (append-nil ps.lines)
dedup_logs-liveness_lines path ((error, m) ∷ es) ps =
    ap (lines_of_rest liveness path es) (dedup_log-liveness_error path m ps)
    ∙ dedup_logs-liveness_lines path es (log_and_remember (errored m) path m ps)
    ∙ lines-logged (errored m) path m ps (λ last. liveness_lines last es)
dedup_logs-liveness_lines path ((info, m) ∷ es) ps =
    ap (lines_of_rest liveness path es) (dedup_log-liveness_info path m ps)
    ∙ dedup_logs-liveness_lines path es
        (if text_eq (ps.last_log path) m then ps else log_and_remember (printed m) path m ps)
    ∙ lines-if_new path m ps (λ last. liveness_lines last es)
dedup_logs-liveness_lines path ((other_level n, m) ∷ es) ps =
    ap (lines_of_rest liveness path es) (dedup_log-liveness_other n path m ps)
    ∙ dedup_logs-liveness_lines path es
        (if text_eq (ps.last_log path) m then ps else log_and_remember (printed m) path m ps)
    ∙ lines-if_new path m ps (λ last. liveness_lines last es)

-- Of the outcomes of startup probes on one socket no error is logged, and any other outcome just if its message
-- differs from that of the last outcome before it that is no error (or from what the socket remembers).
pub dedup_logs-startup_lines :
    (path : Text) (es : List Outcome) (ps : ProbeLoggingSocket)
    → (dedup_logs startup path es ps).lines ≡ ps.lines ++ startup_lines (ps.last_log path) es
unfolding dedup_logs
dedup_logs-startup_lines path [] ps = sym (append-nil ps.lines)
dedup_logs-startup_lines path ((error, m) ∷ es) ps =
    ap (lines_of_rest startup path es) (dedup_log-startup_error path m ps)
    ∙ dedup_logs-startup_lines path es ps
dedup_logs-startup_lines path ((info, m) ∷ es) ps =
    ap (lines_of_rest startup path es) (dedup_log-startup_info path m ps)
    ∙ dedup_logs-startup_lines path es
        (if text_eq (ps.last_log path) m then ps else log_and_remember (printed m) path m ps)
    ∙ lines-if_new path m ps (λ last. startup_lines last es)
dedup_logs-startup_lines path ((other_level n, m) ∷ es) ps =
    ap (lines_of_rest startup path es) (dedup_log-startup_other n path m ps)
    ∙ dedup_logs-startup_lines path es
        (if text_eq (ps.last_log path) m then ps else log_and_remember (printed m) path m ps)
    ∙ lines-if_new path m ps (λ last. startup_lines last es)
