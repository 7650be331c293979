-- ===== src/QueueManager/Stanza.antt =====
-- `updateQMini` and `formatMQSCOutput`: texts that the server changes.
use docker_local.Common.{
  Bool, true, false, ◌&&◌, ◌||◌, Option, none, some, List, [], ◌∷◌, ◌==◌, if◌then◌else◌,
}
use docker_local.Common.Text.{Text, codes, text_eq, contains, split, join, to_lower}
use docker_local.Redact.Loop.{redact}

-- `strconv.ParseBool` of a text in lower case.
unfoldable pub parse_bool : Text → Option Bool
unfolding text_eq
parse_bool s =
    if text_eq s (codes "1") || text_eq s (codes "t") || text_eq s (codes "true")
    then some true
    else if text_eq s (codes "0") || text_eq s (codes "f") || text_eq s (codes "false")
    then some false
    else none

-- The regular expression, on five lines that follow each other.
unfoldable pub is_stanza : Text → Text → Text → Text → Text → Bool
unfolding contains
is_stanza a b c d e =
    contains a (codes "ServiceComponent")
    && contains b (codes "Service")
    && contains c (codes "Name")
    && contains d (codes "Module")
    && contains e (codes "ComponentDataSize")

-- `ReplaceAllString` with the empty text, on lines: it leaves an empty line.
unfoldable pub remove_stanzas : List Text → List Text
unfolding is_stanza
remove_stanzas (a ∷ b ∷ c ∷ d ∷ e ∷ lines) =
    let behind = remove_stanzas lines in
    let kept = remove_stanzas (b ∷ c ∷ d ∷ e ∷ lines) in
    if is_stanza a b c d e then [] ∷ behind else a ∷ kept
remove_stanzas lines = lines

-- What `updateQMini` comes to: nothing to do, an error before qm.ini is written, or the text written.
pub data IniUpdate : Type 0 where
  untouched not_a_bool : IniUpdate
  written : Text → IniUpdate

unfoldable pub update_text : Text → IniUpdate
unfolding remove_stanzas contains split join
update_text ini =
    if contains ini (codes "ServiceComponent:")
    then written (join (remove_stanzas (split ini b'\n')) (codes "\n"))
    else untouched

abbrev pub update_when : Option Bool → Text → IniUpdate
update_when none ini = not_a_bool
update_when (some false) ini = untouched
update_when (some true) ini = update_text ini

-- `updateQMini`, given `MQ_CONNAUTH_USE_HTP` and the text of qm.ini.
unfoldable pub update_qm_ini : Option Text → Text → IniUpdate
unfolding update_text parse_bool to_lower
update_qm_ini none ini = untouched
update_qm_ini (some val) ini = update_when (parse_bool (to_lower val)) ini

-- `formatMQSCOutput`
abbrev pub indent : Text → Text
indent [] = []
indent (c ∷ s) = if c == b'\n' then c ∷ b'\t' ∷ indent s else c ∷ indent s

abbrev pub indented : Option Text → Option Text
indented none = none
indented (some redacted) = some (indent redacted)

unfoldable pub format_mqsc_output : Text → Option Text
unfolding redact
format_mqsc_output out = indented (redact out)
