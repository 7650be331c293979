-- ===== src/Redact/Parameter.antt =====
-- `findEndOfParamterString` and `getParameterString`: the reader of one parameter value.
use docker_local.Common.{
  ℕ, zero, suc, Bool, false, not, ◌&&◌, ◌||◌, [], ◌∷◌, ◌++◌, Option, none, some, length, ◌==◌, leb,
  if◌then◌else◌,
}
use docker_local.Common.Text.{Text}

-- The pattern `[^:0-9\s]`: not white space, a digit or a colon.
unfoldable pub starts_output : ℕ → Bool
starts_output c = not (
    (c == b':')
    || (leb b'0' c && leb c b'9')
    || (c == b'\t')
    || (c == b'\n')
    || (c == 12)
    || (c == b'\r')
    || (c == b' '))

-- Where the scan of a quoted string stands: in the outer loop, in `NewLineLoop`, or in `CommentLoop`.
pub data Scan : Type 0 where
  in_string at_line_start in_comment : Scan

-- The place after reading one rune that does not end the string. At the start of a line a rune
-- that starts output is only peeked at, and is then read by the comment loop or the outer loop.
unfoldable pub after_rune : Scan → ℕ → Scan
unfolding starts_output
after_rune in_string c = if c == b'\n' then at_line_start else in_string
after_rune at_line_start c =
    if starts_output c then (if c == b'*' then in_comment else in_string) else at_line_start
after_rune in_comment c = if c == b'\n' then at_line_start else in_comment

-- Does reading `c` end the string? The outer loop reads it, at a line start only after the peek.
unfoldable pub closes : Scan → ℕ → ℕ → Bool
unfolding starts_output
closes in_string denoter c = c == denoter
closes at_line_start denoter c = starts_output c && (not (c == b'*') && (c == denoter))
closes in_comment denoter c = false

abbrev pub cons_read : ℕ → Text × Text → Text × Text
cons_read c (p, rest) = (c ∷ p, rest)

abbrev pub append_read : Text → Text × Text → Text × Text
append_read q (p, rest) = (q ++ p, rest)

-- What is read up to and with the closing quote, and what is left.
unfoldable pub find_end_of_parameter_string : Scan → ℕ → Text → Text × Text
unfolding after_rune closes
find_end_of_parameter_string m denoter [] = ([], [])
find_end_of_parameter_string m denoter (c ∷ s) =
    let rest = find_end_of_parameter_string (after_rune m c) denoter s in
    if closes m denoter c then (c ∷ [], s) else cons_read c rest

-- `parameter = parameter + read`, before what is read later.
abbrev pub prepend_read : Text → Option (Text × Text) → Option (Text × Text)
prepend_read q none = none
prepend_read q (some r) = some (append_read q r)

-- The loop of `getParameterString`; `none` means that the fuel ran out.
unfoldable pub parameter_loop : ℕ → Text → Option (Text × Text)
unfolding find_end_of_parameter_string
parameter_loop zero s = none
parameter_loop (suc fuel) [] = some ([], [])
parameter_loop (suc fuel) (c ∷ s) =
    let quoted = find_end_of_parameter_string in_string c s in
    let after_quote = parameter_loop fuel quoted.1 in
    let after_rune = parameter_loop fuel s in
    if c == b')'
    then some (c ∷ [], s)
    else if (c == b'\'') || (c == b'"')
    then prepend_read (c ∷ quoted.0) after_quote
    else prepend_read (c ∷ []) after_rune

-- The opening parenthesis was read before.
unfoldable pub get_parameter_string : Text → Option (Text × Text)
unfolding parameter_loop
get_parameter_string s = prepend_read (b'(' ∷ []) (parameter_loop (suc (length s)) s)
