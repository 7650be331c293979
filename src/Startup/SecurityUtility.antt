-- ===== src/Startup/SecurityUtility.antt =====
-- mq-container-master/internal/securityutility/securityutility.go: passwords are encoded by Liberty's `securityUtility`.
pub mod Encoded
use docker_local.Common.{
  ℕ, ◌≤◌, ◌≡◌, refl, sym, ap, ◌∙◌, ◌↔◌, ◌⊎◌, ◌≢◌, >>=-ok, ◌==◌, ==_iff, Bool-cases, inl, inr, Bool,
  true, false, ◌||◌, Option, none, some, List, [], ◌∷◌, ◌++◌, ltb, Result, ok, err, ◌>>=◌,
  if◌then◌else◌, arith,
}
use docker_local.Common.Text.{
  Text, codes, len, contains, split, trim_space, trim_left, trim_right, cons_unless_blank, is_space,
  has_rune, has_prefix,
}

pub data SecurityError : Type 0 where
  no_utility too_long too_short encode_failed no_encoded_secret not_removed generate_failed
        no_key_file :
      SecurityError

-- The longest and the shortest secret in bytes.
abbrev pub max_secret_length : ℕ
max_secret_length = 256

abbrev pub min_secret_length : ℕ
min_secret_length = 16

abbrev pub aes_key_file : Text
aes_key_file = codes "/dev/shm/liberty-aes-key.xml"

-- What the world does: are the two programs there, and what the wrapper script prints for its arguments
-- (`none` if it fails), and the key file before and after it is removed and made.
pub record SecurityUtility : Type 0 where
  pub wrapper_exists : Bool
  pub utility_exists : Bool
  pub execute : List Text → Option Text
  pub key_file_exists : Bool
  pub key_file_removable : Bool
  pub key_file_made : Bool

-- `validateSecurityUtility`
abbrev pub validate_security_utility : SecurityUtility → Result SecurityError (Unit {0})
validate_security_utility u =
    if u.wrapper_exists
    then (if u.utility_exists then ok tt else err no_utility)
    else err no_utility

-- `executeSecurityUtility`; the secret is the last argument.
abbrev pub execute_security_utility :
    SecurityUtility → List Text → Text → SecurityError → Result SecurityError Text
execute_security_utility u args secret failure = elim (u.execute (args ++ secret ∷ [])) [
  | none ↦ err failure
  | some out ↦ ok out
]

unfoldable pub is_marked : Text → Bool
unfolding contains
is_marked line = contains line (codes "{aes}") || contains line (codes "{hash}")

unfoldable pub first_marked : List Text → Result SecurityError Text
unfolding is_marked
first_marked [] = err no_encoded_secret
first_marked (line ∷ lines) = if is_marked line then ok line else first_marked lines

-- `extractEncodedSecret`
unfoldable pub extract_encoded_secret : Text → Result SecurityError Text
unfolding first_marked split
extract_encoded_secret output = first_marked (split output 10)

abbrev pub encode_arguments : Bool → List Text
encode_arguments true =
    codes "encode" ∷ codes "--encoding=aes" ∷ (codes "--aesConfigFile=" ++ aes_key_file) ∷ []
encode_arguments false = codes "encode" ∷ codes "--encoding=hash" ∷ []

abbrev pub check_maximum : Text → Result SecurityError (Unit {0})
check_maximum secret = if ltb max_secret_length (len secret) then err too_long else ok tt

abbrev pub check_minimum : Text → Result SecurityError (Unit {0})
check_minimum secret = if ltb (len secret) min_secret_length then err too_short else ok tt

-- `EncodeSecrets`
unfoldable pub encode_secrets : SecurityUtility → Text → Bool → Result SecurityError Text
unfolding extract_encoded_secret trim_space
encode_secrets u secret use_aes = do
  valid ← validate_security_utility u
  short ← check_maximum secret
  out ← execute_security_utility u (encode_arguments use_aes) secret encode_failed
  encoded_secret ← extract_encoded_secret out
  ok (trim_space encoded_secret)

abbrev pub remove_existing_key_file : SecurityUtility → Result SecurityError (Unit {0})
remove_existing_key_file u =
    if u.key_file_exists then (if u.key_file_removable then ok tt else err not_removed) else ok tt

abbrev pub verify_key_file : SecurityUtility → Result SecurityError (Unit {0})
verify_key_file u = if u.key_file_made then ok tt else err no_key_file

-- `GenerateLibertyAESKeyFile`
abbrev pub generate_arguments : List Text
generate_arguments = codes "generateAESKey" ∷ (codes "--createConfigFile=" ++ aes_key_file) ∷ []

unfoldable pub generate_liberty_aes_key_file :
    SecurityUtility → Text → Result SecurityError (Unit {0})
generate_liberty_aes_key_file u initial_key = do
  valid ← validate_security_utility u
  long ← check_minimum initial_key
  short ← check_maximum initial_key
  removed ← remove_existing_key_file u
  out ←
      execute_security_utility u generate_arguments (codes "--key=" ++ initial_key) generate_failed
  verify_key_file u
