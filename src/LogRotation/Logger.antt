-- ===== src/LogRotation/Logger.antt =====
-- The methods of `RotatingLogger`. Messages to stderr are not modelled, and so are the errors of
-- `Close` in `Append`, that only lead to such messages.
use mathlib.Core.List.{reverse}
use docker_local.Common.{
  ℕ, zero, suc, ◌+◌, Bool, true, false, not, ◌||◌, ◌&&◌, Option, none, some, [], ◌∷◌, ◌++◌, Result,
  ok, err, ◌==◌, leb, if◌then◌else◌,
}
use docker_local.Common.Text.{Text, text_eq, is_empty, len, trim_space, replace_rune}
use docker_local.Disk.{
  FilePath, Disk, OsError, not_exist, fault, Outcome, or_empty, create, remove, rename, write,
  append_to, open_file, close_file, stat_file, read_file,
}

-- `instance_file_name` stands for the directory and the format of the names.
pub record RotatingLogger : Type 0 where
  pub instance_file_name : ℕ → FilePath
  pub max_file_bytes : ℕ
  pub log_files_count : ℕ

-- Go on unless there was an error.
abbrev pub and_then : Outcome → (Disk → Outcome) → Outcome
and_then (d, none) next = next d
and_then (d, some e) next = (d, some e)

-- `err != nil && !os.IsNotExist(err)`
abbrev pub unless_missing : Outcome → Outcome
unless_missing (d, none) = (d, none)
unless_missing (d, some not_exist) = (d, none)
unless_missing (d, some fault) = (d, some fault)

abbrev close : FilePath → Disk → Outcome
close path d = (d, if d.fails close_file path then some fault else none)

-- `Init`: the files from number `i` on, `n` of them.
unfoldable pub init_from : RotatingLogger → ℕ → ℕ → Disk → Outcome
unfolding create
init_from r zero i d = (d, none)
init_from r (suc n) i d =
    and_then (and_then (create (r.instance_file_name i) d) (close (r.instance_file_name i)))
      (init_from r n (i + 1))

unfoldable pub init : RotatingLogger → Disk → Outcome
unfolding init_from
init r = init_from r r.log_files_count 1

-- The loop of `performLogRotation`, `i` from the given number down to 2.
unfoldable pub shift_files : RotatingLogger → ℕ → Disk → Outcome
unfolding rename
shift_files r zero d = (d, none)
shift_files r (suc zero) d = (d, none)
shift_files r (suc (suc i)) d =
    and_then
      (unless_missing
        (rename (r.instance_file_name (suc i)) (r.instance_file_name (suc (suc i))) d))
      (shift_files r (suc i))

unfoldable pub perform_log_rotation : RotatingLogger → Disk → Outcome
unfolding remove write shift_files
perform_log_rotation r d =
    and_then (unless_missing (remove (r.instance_file_name r.log_files_count) d))
      λ d₁. and_then (shift_files r r.log_files_count d₁) (write (r.instance_file_name 1) [])

-- The loop of `getLogLastLine` over the file from its end; the line is collected backwards.
unfoldable pub last_line_backwards : Text → Text → Text
last_line_backwards line [] = line
last_line_backwards line (c ∷ before) =
    let skipped = last_line_backwards line before in
    let longer = last_line_backwards (line ++ c ∷ []) before in
    if (c == b'\n') || (c == b'\r') then (if is_empty line then skipped else line) else longer

unfoldable pub last_line : Text → Text
unfolding last_line_backwards
last_line t = reverse (last_line_backwards [] (reverse t))

abbrev read_existing : Option Text → Result OsError Text
read_existing none = err not_exist
read_existing (some t) = ok (last_line t)

unfoldable pub get_log_last_line : FilePath → Disk → Result OsError Text
unfolding last_line
get_log_last_line path d =
    if d.fails open_file path
      || (d.fails read_file path && not (is_empty (or_empty (d.content path))))
    then err fault
    else read_existing (d.content path)

abbrev clean : Text → Text
clean line = replace_rune b'\n' b' ' (trim_space line)

-- `false` on an error.
abbrev differs_from : Result OsError Text → Text → Bool
differs_from (err e) line = false
differs_from (ok previous) line = not (text_eq (clean line) (clean previous))

unfoldable pub check_if_message_should_be_appended : FilePath → Text → Bool → Disk → Bool
unfolding get_log_last_line trim_space replace_rune text_eq
check_if_message_should_be_appended path line deduplicate_line d =
    if not deduplicate_line then true else differs_from (get_log_last_line path d) line

-- `checkIfLogFileSizeExceeded`
unfoldable pub check_if_log_file_size_exceeded : RotatingLogger → ℕ → Text → Bool
check_if_log_file_size_exceeded r line_length file = leb r.max_file_bytes (len file + line_length)

-- The new line of the log, with one line feed at its end.
abbrev pub terminated : Text → Text
terminated message = trim_space message ++ b'\n' ∷ []

-- The write at the end of `Append`, if the file could be opened.
abbrev pub write_if_open : FilePath → Text → Outcome → Disk
write_if_open path line (d, some e) = d
write_if_open path line (d, none) = (append_to path line d).0

-- `Append` behind the check for duplicates.
unfoldable pub append_line : RotatingLogger → Text → Disk → Disk
unfolding check_if_log_file_size_exceeded perform_log_rotation create append_to
append_line r line d =
    let path = r.instance_file_name 1 in
    if d.fails stat_file path
    then d
    else if check_if_log_file_size_exceeded r (len line) (or_empty (d.content path))
    then write_if_open path line (create path (perform_log_rotation r d).0)
    else write_if_open path line (d, none)

abbrev pub append_if_new : RotatingLogger → Text → Bool → Outcome → Disk
append_if_new r line deduplicate_line (d, some e) = d
append_if_new r line deduplicate_line (d, none) =
    if not (check_if_message_should_be_appended (r.instance_file_name 1) line deduplicate_line d)
    then d
    else append_line r line d

unfoldable pub append : RotatingLogger → Text → Bool → Disk → Disk
unfolding check_if_message_should_be_appended append_line create trim_space
append r message_line deduplicate_line d =
    append_if_new r (terminated message_line) deduplicate_line (create (r.instance_file_name 1) d)
