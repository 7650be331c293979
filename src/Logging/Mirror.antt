-- ===== src/Logging/Mirror.antt =====
-- The function that `configureLogger` makes to mirror one line of a log in the format json.
use docker_local.Common.{
  Bool, true, false, ◌&&◌, not, Option, none, some, [], ◌∷◌, ◌==◌, if◌then◌else◌,
}
use docker_local.Common.Text.{Text, codes, contains, text_eq, trim_space}
use docker_local.Startup.Environment.{Environment, getenv}
use docker_local.Logging.Sources.{
  mqsc, is_excluded_msg_id_present, excluded_ids, check_log_source_for_mirroring,
  can_mqsc_log_be_mirrored_to_console, determine_mqsc_log_level,
}

-- What a line comes to: it is passed over, its JSON text cannot be read, the handler fails since a message has no
-- host that is a text, or it is printed: as it is, or as an MQSC line with a level.
pub data Mirrored : Type 0 where
  excluded filtered unreadable no_host dropped : Mirrored
  json_line : Text → Mirrored
  mqsc_line : Text → Text → Mirrored

-- Does the mirror function return true? (`none`: it panics.)
abbrev pub is_counted : Mirrored → Option Bool
is_counted excluded = some false
is_counted filtered = some false
is_counted no_host = none
is_counted _ = some true

-- What the mirror function asks of the world: the variables, the host's name, and how a JSON text is read. An object is
-- known by its `host`, if that is a text; `none` is a text that cannot be read.
pub record MirrorWorld : Type 0 where
  pub env : Environment
  pub hostname : Option Text
  pub process_log_message : Text → Option (Option Text)

-- `filterQMLogMessage`; `none` is the panic where `host` is no text.
abbrev pub is_of_other_host : Option Text → Text → Option Bool
is_of_other_host none hostname = none
is_of_other_host (some host) hostname = some (not (contains host hostname))

abbrev pub filter_on_host : Bool → Option Text → Option Text → Option Bool
filter_on_host false hostname host = some false
filter_on_host true none host = some false
filter_on_host true (some hostname) host = is_of_other_host host hostname

unfoldable pub filter_qm_log_message : MirrorWorld → Option Text → Option Bool
unfolding text_eq contains
filter_qm_log_message w host =
    filter_on_host (text_eq (getenv w.env (codes "MQ_MULTI_INSTANCE")) (codes "true")) w.hostname
      host

abbrev pub print_unless : Text → Option Bool → Mirrored
print_unless msg none = no_host
print_unless msg (some true) = filtered
print_unless msg (some false) = json_line msg

abbrev pub mirror_object : MirrorWorld → Text → Bool → Option (Option Text) → Mirrored
mirror_object w msg is_qm_log none = unreadable
mirror_object w msg is_qm_log (some host) =
    if is_qm_log then print_unless msg (filter_qm_log_message w host) else json_line msg

abbrev pub print_mqsc : Text → Mirrored
print_mqsc msg = mqsc_line (determine_mqsc_log_level (trim_space msg)) (trim_space msg)

abbrev pub is_object : Text → Bool
is_object [] = false
is_object (c ∷ s) = c == b'{'

-- The function, at one line.
unfoldable pub mirror_message : MirrorWorld → Text → Bool → Mirrored
unfolding is_excluded_msg_id_present excluded_ids filter_qm_log_message
mirror_message w msg is_qm_log =
    if is_excluded_msg_id_present msg (excluded_ids w.env)
    then excluded
    else if is_object msg
    then mirror_object w msg is_qm_log (w.process_log_message msg)
    else if check_log_source_for_mirroring w.env mqsc && can_mqsc_log_be_mirrored_to_console msg
    then print_mqsc msg
    else dropped
