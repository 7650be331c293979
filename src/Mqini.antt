-- ===== src/Mqini.antt =====
-- mq-container-master/pkg/mqini/mqini.go: what dspmqinf says of a queue manager.
mod Tests
use docker_local.Common.{
  ℕ, ◌≡◌, refl, sym, ap, ◌∙◌, Bool, true, false, ◌&&◌, ◌||◌, not, Option, none, some, Result, ok,
  err, List, [], ◌∷◌, ◌++◌, ◌==◌, any, if◌then◌else◌, Bool-cases, inl, inr, arith,
}
use docker_local.Common.Text.{
  Text, codes, text_eq, text_eq_iff, is_empty, trim_space, split, split-word, prepend, has_rune,
}
use docker_local.Paths.Clean.{clean_path}
use docker_local.Keystore.Listing.{scan_lines}

pub record QueueManager : Type 0 where
  pub name : Text
  pub prefix : Text
  pub directory : Text
  pub data_path : Text
  pub installation_name : Text

abbrev pub no_queue_manager : QueueManager
no_queue_manager = record {
  name = [];
  prefix = [];
  directory = [];
  data_path = [];
  installation_name = [];
}

-- `t[1]`, which panics if there is none.
abbrev pub value : List Text → (Text → QueueManager) → Option QueueManager
value [] set = none
value (v ∷ vs) set = some (set v)

unfoldable pub set_field : QueueManager → List Text → Option QueueManager
unfolding text_eq
set_field qm [] = none
set_field qm (key ∷ values) =
    if text_eq key (codes "Name")
    then value values (λ v. record qm { name = v })
    else if text_eq key (codes "Prefix")
    then value values (λ v. record qm { prefix = v })
    else if text_eq key (codes "Directory")
    then value values (λ v. record qm { directory = v })
    else if text_eq key (codes "DataPath")
    then value values (λ v. record qm { data_path = v })
    else if text_eq key (codes "InstallationName")
    then value values (λ v. record qm { installation_name = v })
    else some qm

abbrev pub with_next :
    Option QueueManager → (QueueManager → Option QueueManager) → Option QueueManager
with_next none rest = none
with_next (some qm) rest = rest qm

unfoldable pub set_fields : QueueManager → List Text → Option QueueManager
unfolding set_field trim_space split
set_fields qm [] = some qm
set_fields qm (l ∷ lines) =
    with_next (set_field qm (split (trim_space l) b'=')) (λ next. set_fields next lines)

-- `getQueueManagerFromStanza`; `none` is a panic.
unfoldable pub get_queue_manager_from_stanza : Text → Option QueueManager
unfolding set_fields scan_lines
get_queue_manager_from_stanza stanza = set_fields no_queue_manager (scan_lines (split stanza b'\n'))

-- `GetQueueManager`, given whether mqs.ini is there and the output of dspmqinf, if it succeeds.
pub data IniError : Type 0 where
  no_mqs_ini dspmqinf_failed stanza_panic : IniError

abbrev pub or_panic : Option QueueManager → Result IniError QueueManager
or_panic none = err stanza_panic
or_panic (some qm) = ok qm

abbrev pub parsed : Option Text → Result IniError QueueManager
parsed none = err dspmqinf_failed
parsed (some out) = or_panic (get_queue_manager_from_stanza out)

abbrev pub get_queue_manager : Bool → Option Text → Result IniError QueueManager
get_queue_manager false out = err no_mqs_ini
get_queue_manager true out = parsed out

-- `GetDataDirectory` and `GetErrorLogDirectory`
unfoldable pub get_data_directory : QueueManager → Text
unfolding clean_path
get_data_directory qm =
    if is_empty qm.data_path
    then clean_path (qm.prefix ∷ codes "qmgrs" ∷ qm.directory ∷ [])
    else qm.data_path

unfoldable pub get_error_log_directory : QueueManager → Text
unfolding get_data_directory
get_error_log_directory qm = clean_path (get_data_directory qm ∷ codes "errors" ∷ [])

-- A line that is only the name of a field.
abbrev pub keys : List Text
keys =
    codes "Name"
    ∷ codes "Prefix"
    ∷ codes "Directory"
    ∷ codes "DataPath"
    ∷ codes "InstallationName"
    ∷ []

abbrev pub is_bare : Text → Bool
is_bare l = any (text_eq (trim_space l)) keys

abbrev pub is_panic : Option QueueManager → Bool
is_panic none = true
is_panic (some qm) = false

-- A line with the sign has two parts or more.
split-first : (l : Text) (sep : ℕ) → (a : Text) × (more : List Text) × (split l sep ≡ a ∷ more)
unfolding split prepend
split-first [] sep = ([], [], refl)
split-first (c ∷ l) sep = elim (Bool-cases (c == sep)) [
  | inl e ↦ ([], split l sep, rw e refl)
  | inr e ↦ let (a, more, f) = split-first l sep in (c ∷ a, more, rw (e, f) refl)
]

split-two :
    (l : Text) (sep : ℕ)
    → has_rune sep l ≡ true
    → (a : Text) × (b : Text) × (more : List Text) × (split l sep ≡ a ∷ b ∷ more)
unfolding split prepend
split-two [] sep h = cc
split-two (c ∷ l) sep h = elim (Bool-cases (c == sep)) [
  | inl e ↦ let (a, more, f) = split-first l sep in ([], a, more, rw (e, f) refl)
  | inr e ↦ let (a, b, more, f) = split-two l sep (rw e at h) in (c ∷ a, b, more, rw (e, f) refl)
]

-- With a value no field panics, and without one each does.
test-some :
    (b : Bool) (qm : QueueManager) (r : Option QueueManager)
    → is_panic r ≡ false
    → is_panic (if b then some qm else r) ≡ false
test-some true qm r h = refl
test-some false qm r h = h

test-none :
    (b c : Bool) (r : Option QueueManager)
    → is_panic r ≡ c
    → is_panic (if b then none else r) ≡ (b || c)
test-none true c r h = refl
test-none false c r h = h

set_field-some :
    (qm : QueueManager) (key v : Text) (vs : List Text)
    → is_panic (set_field qm (key ∷ v ∷ vs)) ≡ false
unfolding set_field
set_field-some qm key v vs = search test-some

set_field-none :
    (qm : QueueManager) (l : Text) → is_panic (set_field qm (l ∷ [])) ≡ any (text_eq l) keys
unfolding set_field
set_field-none qm l = search test-none

-- A line with the sign is not one of names without it.
not_key :
    (l : Text) (ks : List Text)
    → any (has_rune b'=') ks ≡ false
    → has_rune b'=' l ≡ true
    → any (text_eq l) ks ≡ false
not_key l [] n h = refl
not_key l (k ∷ ks) n h = elim (Bool-cases (text_eq l k)) [
  | inl e ↦
      let same = (text_eq_iff l k).0 e in
      let first : has_rune b'=' k ≡ true = ap (has_rune b'=') (sym same) ∙ h in
      let whole = rw first at n in cc
  | inr e ↦ let rest = not_key l ks (ground arith) h in rw (e, rest) refl
]

set_field-bare :
    (qm : QueueManager) (l : Text) → is_panic (set_field qm (split l b'=')) ≡ any (text_eq l) keys
set_field-bare qm l = elim (Bool-cases (has_rune b'=' l)) [
  | inl e ↦
      let (a, b, more, f) = split-two l b'=' e in
      ap (λ t. is_panic (set_field qm t)) f
      ∙ set_field-some qm a b more
      ∙ sym (not_key l keys refl e)
  | inr e ↦ ap (λ t. is_panic (set_field qm t)) (split-word l b'=' e) ∙ set_field-none qm l
]

with_next-panic :
    (o : Option QueueManager) (b c : Bool) (rest : QueueManager → Option QueueManager)
    → is_panic o ≡ b
    → ((qm : QueueManager) → is_panic (rest qm) ≡ c)
    → is_panic (with_next o rest) ≡ (b || c)
with_next-panic none b c rest h k = ap (λ d. d || c) h
with_next-panic (some qm) b c rest h k = k qm ∙ ap (λ d. d || c) h

set_fields-bare :
    (qm : QueueManager) (lines : List Text) → is_panic (set_fields qm lines) ≡ any is_bare lines
unfolding set_fields
set_fields-bare qm [] = refl
set_fields-bare qm (l ∷ lines) =
    with_next-panic (set_field qm (split (trim_space l) b'=')) (is_bare l) (any is_bare lines)
      (λ next. set_fields next lines) (set_field-bare qm (trim_space l))
      (λ next. set_fields-bare next lines)

-- `getQueueManagerFromStanza` panics exactly if a line of the stanza, without the white space around it, is the name of a field alone.
pub get_queue_manager_from_stanza-bare :
    (stanza : Text)
    → is_panic (get_queue_manager_from_stanza stanza)
      ≡ any is_bare (scan_lines (split stanza b'\n'))
unfolding get_queue_manager_from_stanza
get_queue_manager_from_stanza-bare stanza =
    set_fields-bare no_queue_manager (scan_lines (split stanza b'\n'))
