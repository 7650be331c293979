-- ===== src/Redact/Loop.antt =====
-- `Redact`, its main loop turn by turn, `resetAllParameters` and `isSensitiveCommand`.
use docker_local.Common.{
  ℕ, zero, suc, Bool, true, false, not, ◌&&◌, ◌||◌, List, [], ◌∷◌, ◌++◌, Option, none, some, length,
  any, ◌==◌, if◌then◌else◌,
}
use docker_local.Common.Text.{Text, codes, is_empty, contains, to_upper, trim_space}
use docker_local.Redact.Parameter.{starts_output, get_parameter_string}

abbrev pub sensitive_parameters : List Text
sensitive_parameters = codes "LDAPPWD" ∷ codes "PASSWORD" ∷ codes "SSLCRYP" ∷ []

abbrev pub redaction_string : Text
redaction_string = codes "(*********)"

unfoldable pub is_sensitive_command : Text → Bool
unfolding contains
is_sensitive_command command = any (contains command) sensitive_parameters

-- The variables of `Redact`.
pub record Redactor : Type 0 where
  pub return_str : Text
  pub current_verb : Text
  pub original_string : Text
  pub line_continuation : Bool
  pub found_gap : Bool
  pub parameter_next : Bool
  pub redacting : Bool
  pub check_comment : Bool
  pub newline : Bool

unfoldable pub reset_all_parameters : Redactor → Redactor
reset_all_parameters st = record st {
  current_verb = [];
  original_string = [];
  line_continuation = false;
  found_gap = false;
  parameter_next = false;
  redacting = false;
  check_comment = true;
}

abbrev pub initial : Redactor
initial = record {
  return_str = [];
  current_verb = [];
  original_string = [];
  line_continuation = false;
  found_gap = false;
  parameter_next = false;
  redacting = false;
  check_comment = true;
  newline = true;
}

-- What a turn of the loop comes to: the text that `Redact` returns, or a next turn.
pub data Turn : Type 0 where
  finished : Text → Turn
  again : Redactor → Text → Turn

-- The value of a parameter is kept or replaced, and the variables are reset.
unfoldable pub emit_parameter : Redactor → Text → Redactor
unfolding reset_all_parameters
emit_parameter st parameter_str = reset_all_parameters (record st {
  return_str = st.return_str ++ (if not st.redacting then parameter_str else redaction_string);
})

abbrev pub after_value : Redactor → Option (Text × Text) → Option (Redactor × Text)
after_value st none = none
after_value st (some (parameter_str, rest)) = some (emit_parameter st parameter_str, rest)

-- `if parameterNext { … }`
unfoldable pub take_parameter : Redactor → Text → Option (Redactor × Text)
unfolding emit_parameter get_parameter_string
take_parameter st s =
    if st.parameter_next then after_value st (get_parameter_string s) else some (st, s)

-- At the end of the text.
unfoldable pub finish : Redactor → Text
finish st =
    if not (is_empty st.original_string) then st.return_str ++ st.original_string else st.return_str

abbrev pub keep_rune : ℕ → Redactor → Redactor
keep_rune c st = record st { original_string = st.original_string ++ (c ∷ []) }

-- The loop that reads a comment up to its newline.
unfoldable pub comment_loop : Redactor → Text → Turn
unfolding finish
comment_loop st [] = finished (finish st)
comment_loop st (c ∷ s) =
    let rest = comment_loop (keep_rune c st) s in
    if c == b'\n'
    then again (record (keep_rune c st) { check_comment = true; newline = true }) s
    else rest

-- White space.
unfoldable pub take_gap : ℕ → Redactor → Redactor
take_gap c st =
    keep_rune c (if not st.line_continuation then record st { found_gap = true } else st)

-- A parameter is complete: is it sensitive?
unfoldable pub complete_parameter : Redactor → Redactor
unfolding is_sensitive_command to_upper
complete_parameter st =
    if st.found_gap || st.parameter_next
    then record st {
      redacting = if is_sensitive_command (to_upper st.current_verb) then true else st.redacting;
      return_str = st.return_str ++ st.original_string;
      original_string = [];
      current_verb = [];
      found_gap = false;
      line_continuation = false;
    }
    else st

-- What stands behind the switch.
unfoldable pub take_rune : ℕ → Redactor → Redactor
unfolding complete_parameter
take_rune c st =
    let st' = complete_parameter (record st { check_comment = false; line_continuation = false }) in
    record (keep_rune c st') { current_verb = st'.current_verb ++ (c ∷ []) }

-- The switch on the rune.
unfoldable pub dispatch : ℕ → Redactor → Text → Turn
unfolding take_gap take_rune comment_loop
dispatch c st s =
    if (c == b'+') || (c == b'-')
    then again (keep_rune c (record st { line_continuation = true; found_gap = false })) s
    else if c == b'\n'
    then again (take_gap c (record st { check_comment = true; newline = true })) s
    else if (c == b'\t') || (c == b'\r') || (c == b' ')
    then again (take_gap c st) s
    else if c == b'('
    then again (take_rune c (record st { parameter_next = true })) s
    else if (c == b'*') && st.check_comment
    then comment_loop (keep_rune c st) s
    else again (take_rune c st) s

-- The rest of a turn: white space, digits and colons at the start of a line are kept as they are.
unfoldable pub read_rune : Redactor → Text → Turn
unfolding dispatch finish starts_output
read_rune st [] = finished (finish st)
read_rune st (c ∷ s) =
    if st.newline && not (starts_output c)
    then again (keep_rune c st) s
    else dispatch c (record st { newline = false }) s

-- Go on as a turn says.
abbrev pub after_turn : (Redactor → Text → Option Text) → Turn → Option Text
after_turn loop (finished out) = some out
after_turn loop (again st s) = loop st s

-- A turn from the state in which the value of a parameter, if one was next, has been read.
abbrev pub after_parameter :
    (Redactor → Text → Option Text) → Option (Redactor × Text) → Option Text
after_parameter loop none = none
after_parameter loop (some (st, s)) = after_turn loop (read_rune st s)

-- `none` means that the fuel ran out.
unfoldable pub main_loop : ℕ → Redactor → Text → Option Text
unfolding take_parameter read_rune
main_loop zero st s = none
main_loop (suc fuel) st s = after_parameter (main_loop fuel) (take_parameter st s)

unfoldable pub redact : Text → Option Text
unfolding main_loop trim_space
redact out = let s = trim_space out in main_loop (suc (length s)) initial s
