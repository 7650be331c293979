-- ===== src/Keystore/Listing.antt =====
-- The labels in the output of the command that lists certificates.
use docker_local.Common.{Bool, ◌||◌, Option, none, some, List, [], ◌∷◌, ◌==◌, if◌then◌else◌}
use docker_local.Common.Text.{Text, codes, has_prefix, is_empty, split, trim_space, trim_left_of}
use docker_local.Keystore.Commands.{KeyStore, KeyWorld, fips_flag}

-- The lines of a `bufio.Scanner`: the last is dropped if it is empty, and a carriage return at the end of a line is, too.
unfoldable pub drop_return : Text → Text
drop_return [] = []
drop_return (c ∷ []) = if c == 13 then [] else c ∷ []
drop_return (c ∷ d ∷ s) = c ∷ drop_return (d ∷ s)

unfoldable pub scan_lines : List Text → List Text
unfolding drop_return
scan_lines [] = []
scan_lines (line ∷ []) = if is_empty line then [] else drop_return line ∷ []
scan_lines (line ∷ next ∷ lines) = drop_return line ∷ scan_lines (next ∷ lines)

unfoldable pub labels_of : (Text → Bool) → Text → List Text → List Text
unfolding trim_left_of trim_space
labels_of is_label cutset [] = []
labels_of is_label cutset (s ∷ lines) =
    let rest = labels_of is_label cutset lines in
    if is_label s then trim_space (trim_left_of s cutset) ∷ rest else rest

abbrev pub list_args : KeyStore → List Text
list_args ks =
    codes "-cert"
    ∷ codes "-list"
    ∷ fips_flag ks
    ∷ codes "-type"
    ∷ ks.key_store_type
    ∷ codes "-db"
    ∷ ks.filename
    ∷ codes "-pw"
    ∷ ks.password
    ∷ []

unfoldable pub is_own : Text → Bool
unfolding has_prefix
is_own s = has_prefix s (codes "-") || has_prefix s (codes "*-")

unfoldable pub is_listed : Text → Bool
unfolding is_own
is_listed s = is_own s || has_prefix s (codes "!")

abbrev pub labels_in : (Text → Bool) → Text → Option Text → Option (List Text)
labels_in is_label cutset none = none
labels_in is_label cutset (some out) =
    some (labels_of is_label cutset (scan_lines (split out b'\n')))

-- `GetCertificateLabels`
unfoldable pub get_certificate_labels : KeyWorld → KeyStore → Option (List Text)
unfolding is_own labels_of scan_lines split
get_certificate_labels w ks = labels_in is_own (codes "-*") (w.run ks.command (list_args ks))

-- `ListAllCertificates`
unfoldable pub list_all_certificates : KeyWorld → KeyStore → Option (List Text)
unfolding is_listed labels_of scan_lines split
list_all_certificates w ks = labels_in is_listed (codes "-*!") (w.run ks.command (list_args ks))
