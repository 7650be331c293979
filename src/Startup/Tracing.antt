-- ===== src/Startup/Tracing.antt =====
-- mq-container-master/cmd/runmqserver/opentracing.go: the stanzas of a tracing exit are taken out of an INI file. The lines
-- are what Go's `bufio.Scanner` makes of the text.
use docker_local.Common.{
  ◌≡◌, refl, ap, ◌∙◌, Bool, true, false, ◌&&◌, ◌||◌, not, List, [], ◌∷◌, ◌++◌, append-nil,
  append_assoc, any, foldl, if◌then◌else◌, arith, Bool-cases, inl, inr,
}
use docker_local.Common.Text.{Text, codes, contains}

-- The variables of `removeTracingExitINIEntry`.
pub record Remover : Type 0 where
  pub out : Text
  pub stanza : Text
  pub inside_tracing_exit : Bool
  pub found_tracing_exit : Bool

unfoldable pub is_header : Text → Bool
unfolding contains
is_header t = contains t (codes ":")

abbrev pub write_stanza : Remover → Text
write_stanza st = if not st.inside_tracing_exit then st.out ++ st.stanza else st.out

abbrev pub line : Text → Text
line t = t ++ b'\n' ∷ []

-- One round of the loop.
unfoldable pub read_line : Text → Remover → Text → Remover
unfolding is_header
read_line exit_name st t =
    if is_header t
    then record {
      out = write_stanza st;
      stanza = line t;
      inside_tracing_exit = false;
      found_tracing_exit = st.found_tracing_exit;
    }
    else if contains t exit_name
    then record {
      out = st.out;
      stanza = st.stanza ++ line t;
      inside_tracing_exit = true;
      found_tracing_exit = true;
    }
    else record {
      out = st.out;
      stanza = st.stanza ++ line t;
      inside_tracing_exit = st.inside_tracing_exit;
      found_tracing_exit = st.found_tracing_exit;
    }

abbrev pub removed : Text → Remover → Bool × Text
removed ini st = if st.found_tracing_exit then (true, write_stanza st) else (false, ini)

-- `removeTracingExitINIEntry`; writes to a `strings.Builder` have no error.
unfoldable pub remove_tracing_exit_ini_entry : (Text → List Text) → Text → Text → Bool × Text
unfolding read_line
remove_tracing_exit_ini_entry scan_lines exit_name ini = removed ini (
    foldl (read_line exit_name)
      (record { out = []; stanza = []; inside_tracing_exit = false; found_tracing_exit = false })
      (scan_lines ini))

-- The lines in front of the first header, and the stanzas, each a header with the lines behind it.
abbrev pub add_line : Text → List Text × List (List Text) → List Text × List (List Text)
add_line t (first, others) = if is_header t then ([], (t ∷ first) ∷ others) else (t ∷ first, others)

abbrev pub stanzas : List Text → List Text × List (List Text)
stanzas [] = ([], [])
stanzas (t ∷ ts) = add_line t (stanzas ts)

-- Does a line that is no header name the exit?
abbrev pub mentions : Text → List Text → Bool
mentions exit_name = any (λ t. not (is_header t) && contains t exit_name)

abbrev pub printed : List Text → Text
printed [] = []
printed (t ∷ ts) = line t ++ printed ts

abbrev pub kept : Text → List Text → Text
kept exit_name lines = if mentions exit_name lines then [] else printed lines

abbrev pub all_kept : Text → List (List Text) → Text
all_kept exit_name [] = []
all_kept exit_name (lines ∷ others) = kept exit_name lines ++ all_kept exit_name others

-- What is left to come, from a state of the loop.
abbrev ends : Text → Remover → List Text × List (List Text) → Bool × Text
ends exit_name st (first, others) = (
  st.found_tracing_exit || (mentions exit_name first || any (mentions exit_name) others),
  st.out
      ++ ((if st.inside_tracing_exit || mentions exit_name first
            then []
            else st.stanza ++ printed first)
          ++ all_kept exit_name others),
)

abbrev result : Remover → Bool × Text
result st = (st.found_tracing_exit, write_stanza st)

or_true : (b : Bool) → (b || true) ≡ true
or_true true = refl
or_true false = refl

ends-step :
    (exit_name t : Text) (st : Remover) (groups : List Text × List (List Text))
    → ends exit_name (read_line exit_name st t) groups ≡ ends exit_name st (add_line t groups)
unfolding read_line
ends-step exit_name t st (first, others) = elim (Bool-cases (is_header t)) [
  | inl e ↦ elim (Bool-cases st.inside_tracing_exit) [
    | inl i ↦ rw (e, e, i) refl
    | inr i ↦
        rw (e, e, i, append-nil st.stanza)
          (ap
            (λ out. (
              st.found_tracing_exit
                  || (mentions exit_name first || any (mentions exit_name) others),
              out,
            ))
            (append_assoc st.out st.stanza (
              (if mentions exit_name first then [] else line t ++ printed first)
              ++ all_kept exit_name others)))
  ]
  | inr e ↦ elim (Bool-cases (contains t exit_name)) [
    | inl c ↦ rw (e, e, c, or_true st.found_tracing_exit, or_true st.inside_tracing_exit) refl
    | inr c ↦ rw (e, e, c, append_assoc st.stanza (line t) (printed first)) refl
  ]
]

ends-nil : (exit_name : Text) (st : Remover) → result st ≡ ends exit_name st ([], [])
ends-nil exit_name st = elim (Bool-cases st.inside_tracing_exit) [
  | inl i ↦ rw (i, append-nil st.out) (ground arith)
  | inr i ↦ rw (i, append-nil st.stanza, append-nil st.stanza) (ground arith)
]

ends-foldl :
    (exit_name : Text) (ts : List Text) (st : Remover)
    → result (foldl (read_line exit_name) st ts) ≡ ends exit_name st (stanzas ts)
ends-foldl exit_name [] st = ends-nil exit_name st
ends-foldl exit_name (t ∷ ts) st =
    ends-foldl exit_name ts (read_line exit_name st t) ∙ ends-step exit_name t st (stanzas ts)

-- `removeTracingExitINIEntry` reports a change exactly if a line that is no header names the exit, and then the result
-- is the lines in front of the first header and the stanzas in which no such line does, in their order, each
-- line with a newline; else the result is the input.
pub remove_tracing_exit_ini_entry_lem :
    (scan_lines : Text → List Text) (exit_name ini : Text)
    → remove_tracing_exit_ini_entry scan_lines exit_name ini ≡ (
        let (first, others) = stanzas (scan_lines ini) in
        if mentions exit_name first || any (mentions exit_name) others
        then (true, kept exit_name first ++ all_kept exit_name others)
        else (false, ini))
unfolding remove_tracing_exit_ini_entry
remove_tracing_exit_ini_entry_lem scan_lines exit_name ini =
    ap (λ r. if r.0 then (true, r.1) else (false, ini))
      (ends-foldl exit_name (scan_lines ini)
        (record { out = []; stanza = []; inside_tracing_exit = false; found_tracing_exit = false }))
