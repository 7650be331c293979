-- ===== src/Templates.antt =====
-- mq-container-master/internal/mqtemplate/mqtemplate.go: a template is processed into a file.
mod Tests
use docker_local.Common.{
  ℕ, ◌≡◌, refl, ap, sym, ◌∙◌, Bool, true, false, ◌&&◌, Option, none, some, List, [], ◌∷◌, ◌++◌,
  length, drop, if◌then◌else◌, Bool-cases, inl, inr, append-nil,
}
use docker_local.Common.Text.{Text, codes, text_eq, text_eq_refl, is_empty}
use docker_local.Disk.{
  Disk, OsError, fault, Outcome, open_file, write_file, put, or_empty, create, overwrite,
  overwrite-nil, write_over, put-content, put-other,
}
use docker_local.Volumes.Clean.{Found, create_volume}
use docker_local.Paths.Clean.{clean}

-- The package text/template: `parse` is `template.ParseFiles`, and the template then gives, for the values, the bytes that `Execute`
-- writes and whether it finds no error. The directories of the files that are made are outside the disk.
pub record TemplateWorld : Type 0 where
  pub parse : Text → Option (List (Text × Text) → Text × Bool)
  pub directory : Text → Found
  pub makes : Text → Bool

-- `path.Dir`: the path up to its last slash.
unfoldable pub to_slash : Text → Option Text
to_slash [] = none
to_slash (c ∷ s) = elim (to_slash s) [
  | none ↦ if text_eq (c ∷ []) (codes "/") then some (c ∷ []) else none
  | some t ↦ some (c ∷ t)
]

unfoldable pub dir : Text → Text
unfolding to_slash clean
dir path = clean (or_empty (to_slash path))

abbrev pub fault_unless : Bool → Option OsError
fault_unless true = none
fault_unless false = some fault

-- `Execute` fails where a write does; with no bytes there is none.
abbrev pub execute : Text → Text × Bool → Disk → Outcome
execute dest (out, good) d =
    if d.fails write_file dest
    then (d, fault_unless (good && is_empty out))
    else (write_over dest out d, fault_unless good)

-- The error of `os.OpenFile` is not looked at: the writes to no file fail.
abbrev pub execute_on : Text → Text × Bool → Outcome → Outcome
execute_on dest (out, good) (d, some e) = (d, fault_unless (good && is_empty out))
execute_on dest run (d, none) = execute dest run d

abbrev pub process_parsed :
    TemplateWorld
    → Text
    → List (Text × Text)
    → Option (List (Text × Text) → Text × Bool)
    → Disk
    → Outcome
process_parsed w dest values none d = (d, some fault)
process_parsed w dest values (some template) d =
    if create_volume (w.directory (dir dest)) (w.makes (dir dest))
    then execute_on dest (template values) (create dest d)
    else (d, some fault)

-- `ProcessTemplateFile`
unfoldable pub process_template_file :
    TemplateWorld → Text → Text → List (Text × Text) → Disk → Outcome
unfolding dir create
process_template_file w template_file dest values d =
    process_parsed w dest values (w.parse template_file) d

-- What is written, and whether it is, if the template can be parsed.
abbrev pub output : Option (List (Text × Text) → Text × Bool) → List (Text × Text) → Text
output none values = []
output (some template) values = (template values).0

abbrev IsWritten : Text → Text → Disk → Disk → Type 0
IsWritten dest out d d' = or_empty (d'.content dest) ≡ overwrite out (or_empty (d.content dest))

fault_unless-none : (b : Bool) → fault_unless b ≡ none → b ≡ true
fault_unless-none true h = refl
fault_unless-none false h = cc

is_empty-nil : (good : Bool) (out : Text) → (good && is_empty out) ≡ true → out ≡ []
is_empty-nil good [] h = refl
is_empty-nil false (c ∷ out) h = cc
is_empty-nil true (c ∷ out) h = cc

-- Where nothing is written, nothing was to be.
unwritten :
    (good : Bool) (out old : Text)
    → fault_unless (good && is_empty out) ≡ none
    → old ≡ overwrite out old
unwritten good out old h =
    let nil = is_empty-nil good out (fault_unless-none (good && is_empty out) h) in
    sym (overwrite-nil old) ∙ ap (λ t. overwrite t old) (sym nil)

execute-IsWritten :
    (dest : Text) (out : Text) (good : Bool) (d : Disk)
    → (execute dest (out, good) d).1 ≡ none
    → IsWritten dest out d (execute dest (out, good) d).0
unfolding write_over
execute-IsWritten dest out good d h = elim (Bool-cases (d.fails write_file dest)) [
  | inl e ↦ rw e (unwritten good out (or_empty (d.content dest)) (rw e at h))
  | inr e ↦
      rw e (ap or_empty (put-content dest (some (overwrite out (or_empty (d.content dest)))) d))
]

open_then_execute :
    (dest : Text) (out : Text) (good : Bool) (d : Disk)
    → (execute_on dest (out, good) (create dest d)).1 ≡ none
    → IsWritten dest out d (execute_on dest (out, good) (create dest d)).0
unfolding create
open_then_execute dest out good d h = elim (Bool-cases (d.fails open_file dest)) [
  | inl e ↦ rw e (unwritten good out (or_empty (d.content dest)) (rw e at h))
  | inr e ↦
      let opened = put dest (some (or_empty (d.content dest))) d in
      let same : or_empty (opened.content dest) ≡ or_empty (d.content dest) =
        ap or_empty (put-content dest (some (or_empty (d.content dest))) d) in
      rw e (execute-IsWritten dest out good opened (rw e at h) ∙ ap (overwrite out) same)
]

process_parsed-IsWritten :
    (w : TemplateWorld) (dest : Text) (values : List (Text × Text))
    (o : Option (List (Text × Text) → Text × Bool)) (d : Disk)
    → (process_parsed w dest values o d).1 ≡ none
    → IsWritten dest (output o values) d (process_parsed w dest values o d).0
process_parsed-IsWritten w dest values none d h = cc
process_parsed-IsWritten w dest values (some template) d h =
    elim (Bool-cases (create_volume (w.directory (dir dest)) (w.makes (dir dest)))) [
      | inl e ↦ rw e (open_then_execute dest (template values).0 (template values).1 d (rw e at h))
      | inr e ↦ let failed = rw e at h in cc
    ]

-- If `ProcessTemplateFile` returns no error, then the file holds what was executed, and behind it what the file held there before.
pub process_template_file-overwrites :
    (w : TemplateWorld) (template_file dest : Text) (values : List (Text × Text)) (d : Disk)
    → (process_template_file w template_file dest values d).1 ≡ none
    → or_empty ((process_template_file w template_file dest values d).0.content dest)
      ≡ overwrite (output (w.parse template_file) values) (or_empty (d.content dest))
unfolding process_template_file
process_template_file-overwrites w template_file dest values d h =
    process_parsed-IsWritten w dest values (w.parse template_file) d h
