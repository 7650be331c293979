-- ===== src/Version/Vrmf.antt =====
-- `vrmf`, `parseVRMF`, `String`, `compare`, `Get` and `Compare`.
use docker_local.Common.{
  ℕ, ◌&&◌, Option, none, some, List, [], ◌∷◌, ◌++◌, length, Result, ok, err, ◌>>=◌, ◌==◌, ltb,
  if◌then◌else◌,
}
use docker_local.Common.Text.{Text, is_empty, split, trim_space}
use docker_local.Common.Decimal.{Signed, parse_int, decimal}

pub record Vrmf : Type 0 where
  pub version : ℕ
  pub release : ℕ
  pub minor : ℕ
  pub fix : ℕ

-- The errors of `parseVRMF`. A part is named by its index.
pub data VersionError : Type 0 where
  part_count : ℕ → VersionError
  empty_part non_numeric negative : ℕ → VersionError
  zero_version command_failed : VersionError

abbrev pub parts : Vrmf → List ℕ
parts v = v.version ∷ v.release ∷ v.minor ∷ v.fix ∷ []

-- The checks on a part that `Atoi` has read.
abbrev pub check_value : ℕ → Option Signed → Result VersionError ℕ
check_value idx none = err (non_numeric idx)
check_value idx (some val) =
    if val.negative && ltb 0 val.absolute
    then err (negative idx)
    else if (idx == 0) && (val.absolute == 0)
    then err zero_version
    else ok val.absolute

-- One round of the loop of `parseVRMF`.
unfoldable pub parse_part : ℕ → Text → Result VersionError ℕ
unfolding parse_int
parse_part idx value =
    if is_empty value then err (empty_part idx) else check_value idx (parse_int value)

-- The loop, over the four parts.
unfoldable pub parse_parts : List Text → Result VersionError Vrmf
unfolding parse_part
parse_parts (v ∷ r ∷ m ∷ f ∷ []) = do
  version ← parse_part 0 v
  release ← parse_part 1 r
  minor ← parse_part 2 m
  fix ← parse_part 3 f
  ok (record { version = version; release = release; minor = minor; fix = fix })
parse_parts version_parts = err (part_count (length version_parts))

unfoldable pub parse_vrmf : Text → Result VersionError Vrmf
unfolding parse_parts split
parse_vrmf vrmf_string = parse_parts (split vrmf_string b'.')

-- `String`
unfoldable pub show : Vrmf → Text
unfolding decimal
show v =
    decimal v.version
    ++ (b'.' ∷ (decimal v.release ++ (b'.' ∷ (decimal v.minor ++ (b'.' ∷ decimal v.fix)))))

-- -1, 0 and 1.
pub data Comparison : Type 0 where
  less same greater : Comparison

-- The loop of `compare`, over the parts of both from one index on.
unfoldable pub compare_parts : List ℕ → List ℕ → Comparison
compare_parts [] ws = same
compare_parts (v ∷ vs) [] = same
compare_parts (v ∷ vs) (w ∷ ws) =
    let rest = compare_parts vs ws in if ltb v w then less else if ltb w v then greater else rest

unfoldable pub compare_vrmf : Vrmf → Vrmf → Comparison
unfolding compare_parts
compare_vrmf v to = compare_parts (parts v) (parts to)

-- `Get`; the argument is the output of `dspmqver`, `none` if it fails.
unfoldable pub get : Option Text → Result VersionError Text
unfolding trim_space
get none = err command_failed
get (some mq_version) = ok (trim_space mq_version)

-- `Compare`
unfoldable pub compare_version : Option Text → Text → Result VersionError Comparison
unfolding get parse_vrmf compare_vrmf
compare_version dspmqver check_version = do
  current_version ← get dspmqver
  current ← parse_vrmf current_version
  compared ← parse_vrmf check_version
  ok (compare_vrmf current compared)
