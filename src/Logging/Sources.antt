-- ===== src/Logging/Sources.antt =====
-- The sources and the format that the environment asks for, and the messages that are left out.
use docker_local.Common.{
  ℕ, Bool, true, false, ◌&&◌, ◌||◌, not, List, [], ◌∷◌, any, all, ltb, leb, ◌==◌, if◌then◌else◌,
}
use docker_local.Common.Text.{
  Text, codes, len, is_empty, text_eq, contains, has_prefix, split, trim_space, to_lower, to_upper,
}
use docker_local.Startup.Environment.{Environment, getenv}

-- A variable that is the text `true` or `1`, as `getDebug` and the switches of the server have it.
unfoldable pub is_switched_on : Environment → Text → Bool
unfolding text_eq
is_switched_on env name =
    text_eq (getenv env name) (codes "true") || text_eq (getenv env name) (codes "1")

abbrev pub get_debug : Environment → Bool
get_debug env = is_switched_on env (codes "DEBUG")

abbrev normal : Text → Text
normal value = to_lower (trim_space value)

-- `getLogFormat`
unfoldable pub get_log_format : Environment → Text
unfolding text_eq to_lower trim_space
get_log_format env =
    let new = normal (getenv env (codes "MQ_LOGGING_CONSOLE_FORMAT")) in
    let log_format = if is_empty new then normal (getenv env (codes "LOG_FORMAT")) else new in
    if not (is_empty log_format)
      && (text_eq log_format (codes "basic") || text_eq log_format (codes "json"))
    then log_format
    else codes "basic"

-- `getMQLogConsoleSource`
unfoldable pub get_mq_log_console_source : Environment → Text
unfolding to_lower trim_space
get_mq_log_console_source env = normal (getenv env (codes "MQ_LOGGING_CONSOLE_SOURCE"))

unfoldable pub is_permitted : Text → Bool
unfolding text_eq
is_permitted src =
    text_eq src (codes "qmgr")
    || text_eq src (codes "web")
    || text_eq src (codes "mqsc")
    || text_eq src (codes "probes")
    || is_empty src

-- `isLogConsoleSourceValid`; a text is never split into no pieces.
unfoldable pub is_log_console_source_valid : Environment → Bool
unfolding get_mq_log_console_source is_permitted split
is_log_console_source_valid env =
    is_empty (get_mq_log_console_source env)
    || all (λ src. is_permitted (trim_space src)) (split (get_mq_log_console_source env) b',')

-- The argument of `checkLogSourceForMirroring`.
pub data Source : Type 0 where
  qmgr web mqsc probes : Source

abbrev pub source_name : Source → Text
source_name qmgr = codes "qmgr"
source_name web = codes "web"
source_name mqsc = codes "mqsc"
source_name probes = codes "probes"

-- The sources that are mirrored where the variable is not set.
abbrev pub is_default : Source → Bool
is_default mqsc = false
is_default _ = true

-- `checkLogSourceForMirroring`, less the line that it logs for an old variable.
unfoldable pub check_log_source_for_mirroring : Environment → Source → Bool
unfolding get_mq_log_console_source text_eq split
check_log_source_for_mirroring env source =
    if is_empty (get_mq_log_console_source env)
    then is_default source
    else any (λ arr. text_eq (trim_space arr) (source_name source))
        (split (get_mq_log_console_source env) b',')

-- `isExcludedMsgIdPresent`
unfoldable pub is_excluded_msg_id_present : Text → List Text → Bool
unfolding contains
is_excluded_msg_id_present msg ids =
    any (λ id. not (is_empty id) && contains msg (trim_space id)) ids

-- The ids of `MQ_LOGGING_CONSOLE_EXCLUDE_ID`.
unfoldable pub excluded_ids : Environment → List Text
unfolding to_upper split
excluded_ids env = split (to_upper (getenv env (codes "MQ_LOGGING_CONSOLE_EXCLUDE_ID"))) b','

-- `canMQSCLogBeMirroredToConsole`
unfoldable pub can_mqsc_log_be_mirrored_to_console : Text → Bool
unfolding has_prefix text_eq
can_mqsc_log_be_mirrored_to_console message =
    ltb 0 (len message)
    && not (has_prefix (trim_space message) (codes ": *"))
    && not (text_eq (trim_space message) (codes ":"))

-- The rest of the pattern `AMQ[0-9]+E:`, behind a digit.
abbrev pub is_digit : ℕ → Bool
is_digit c = leb b'0' c && leb c b'9'

unfoldable pub matches_digits : Text → Bool
unfolding has_prefix
matches_digits [] = false
matches_digits (c ∷ s) = has_prefix (c ∷ s) (codes "E:") || (is_digit c && matches_digits s)

abbrev pub matches_code : Text → Bool
matches_code (a ∷ m ∷ q ∷ d ∷ s) =
    a == b'A' && m == b'M' && q == b'Q' && is_digit d && matches_digits s
matches_code s = false

unfoldable pub has_code : Text → Bool
unfolding matches_digits
has_code [] = false
has_code (c ∷ s) = matches_code (c ∷ s) || has_code s

-- `determineMQSCLogLevel`
abbrev pub determine_mqsc_log_level : Text → Text
determine_mqsc_log_level message = if has_code message then codes "ERROR" else codes "INFO"
