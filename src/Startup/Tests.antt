-- ===== src/Startup/Tests.antt =====
-- The theorems on the start of the container at concrete environments.
use docker_local.Common.{
  List, any, ◌≡◌, refl, true, false, ◌||◌, not, Option, none, some, [], ◌∷◌, ◌++◌, map, ok, ◌≤◌,
  if◌then◌else◌,
}
use docker_local.Common.Text.{Text, codes, text_eq, is_empty, len, has_rune}
use docker_local.Disk.{Disk}
use docker_local.Startup.Environment.{Environment, getenv, setenv}
use docker_local.Startup.License.{check_license, resolve_license_file}
use docker_local.Startup.Ready.Since.{Reliable}
use docker_local.Startup.HighAvailability.{
  HaConfig, configure_native_ha, should_configure_tls, instance_file, keystore_file, native_ha_file,
}
use docker_local.Startup.HighAvailability.Configured.{
  configure_native_ha_lem, when, is_labelled, is_any_set, FromEnvironment,
}
use docker_local.Startup.SecurityUtility.{SecurityUtility, encode_secrets, max_secret_length}
use docker_local.Startup.SecurityUtility.Encoded.{encode_secrets_lem}
use docker_local.Startup.Passwords.{PasswordWorld, admin, app, check_for_passwords, use_htp_env}
use docker_local.Startup.Tracing.{
  remove_tracing_exit_ini_entry, remove_tracing_exit_ini_entry_lem, stanzas, mentions, kept,
  all_kept,
}

-- An environment with two variables.
abbrev with_two : Text → Text → Text → Text → Environment
unfolding text_eq
with_two a x b y name = if text_eq name a then some x else if text_eq name b then some y else none

abbrev korean : Environment
korean = with_two (codes "LICENSE") (codes "view") (codes "LANG") (codes "ko_KR")

abbrev konkani : Environment
konkani = with_two (codes "LICENSE") (codes "accept") (codes "LANG") (codes "kok_IN")

abbrev licenses : Text → Option Text
unfolding text_eq
licenses path =
    if text_eq path (codes "/opt/mqm/licenses/Korean.txt") then some (codes "L") else none

english : resolve_license_file konkani ≡ codes "English.txt"
unfolding resolve_license_file text_eq with_two
english = refl

is_shown : (check_license korean licenses).shown ≡ some (codes "L")
unfolding check_license text_eq with_two licenses
is_shown = refl

no_name : is_empty (getenv korean (codes "MQ_QMGR_NAME")) ≡ true
unfolding with_two text_eq
no_name = refl

abbrev sysctl : Text
sysctl = codes "crypto.fips_enabled = 0"

abbrev empty_disk : Disk
empty_disk = record { content = λ path. none; fails = λ op path. false }

empty_disk-Reliable : Reliable empty_disk
empty_disk-Reliable = record { never = λ op path. refl }

abbrev full_disk : Disk
full_disk = record { content = λ path. some (codes "1"); fails = λ op path. false }

full_disk-Reliable : Reliable full_disk
full_disk-Reliable = record { never = λ op path. refl }

abbrev native_ha : Environment
native_ha =
    with_two (codes "MQ_NATIVE_HA") (codes "true") (codes "MQ_NATIVE_HA_GROUP_RECOVERY_NAME")
      (codes "dr")

is_on : getenv native_ha (codes "MQ_NATIVE_HA") ≡ codes "true"
unfolding with_two text_eq
is_on = refl

configure_native_ha_lem_example :
    (cfg : HaConfig) × (configure_native_ha
        (λ f. false)
        native_ha
        (λ fs. fs)
        true
        (some (codes "ha", []))
      ≡ (
        map
            (λ f. record { file = f; config = cfg })
            (instance_file
              ∷ (when (is_labelled (codes "ha") []) keystore_file
                  ++ when (is_any_set native_ha) native_ha_file)),
        none,
      ))
    × (cfg.fips_available ≡ true)
    × (cfg.certificate_label ≡ codes "ha")
    × (cfg.group.group_certificate_label ≡ [])
    × (should_configure_tls cfg ≡ (
        is_labelled (codes "ha") []
        || not (is_empty (getenv native_ha (codes "MQ_NATIVE_HA_GROUP_LOCAL_NAME")))))
    × FromEnvironment native_ha cfg
configure_native_ha_lem_example =
    configure_native_ha_lem native_ha (λ fs. fs) true (codes "ha") [] is_on

abbrev liberty : SecurityUtility
liberty = record {
  wrapper_exists = true;
  utility_exists = true;
  execute = λ args. some (codes "JVM is in FIPS mode\n{hash}ATAAA \n");
  key_file_exists = true;
  key_file_removable = true;
  key_file_made = true;
}

is_encoded : encode_secrets liberty (codes "passw0rd") false ≡ ok (codes "{hash}ATAAA")
unfolding encode_secrets
is_encoded = refl

encode_secrets_lem_example :
    (len (codes "passw0rd") ≤ max_secret_length)
    × ((liberty.wrapper_exists ≡ true) × (liberty.utility_exists ≡ true))
    × (has_rune b'{' (codes "{hash}ATAAA") ≡ true)
encode_secrets_lem_example =
    encode_secrets_lem liberty (codes "passw0rd") false (codes "{hash}ATAAA") is_encoded

abbrev key : Text
key = codes "0123456789abcdef"

abbrev passwords : PasswordWorld
passwords = record {
  utility = liberty;
  secret_exists = text_eq app.secret_path;
  read_secret = λ path. some (codes "passw0rd");
  refuses = λ value. false;
}

abbrev htp : Environment
htp = with_two use_htp_env (codes "True") admin.pwd_env (codes "passw0rd")

abbrev after_passwords : Environment
after_passwords =
    setenv app.pwd_secure_env (codes "{hash}ATAAA")
      (setenv admin.pwd_secure_env (codes "{hash}ATAAA") htp)

is_set : (check_for_passwords passwords htp).0 ≡ ok after_passwords
unfolding check_for_passwords encode_secrets with_two text_eq
is_set = refl

abbrev lines_of : Text → List Text
lines_of ini =
    codes "Log:"
    ∷ codes "   LogType=LINEAR"
    ∷ codes "ApiExitLocal:"
    ∷ codes "   Module=MQTrace"
    ∷ codes "SSL:"
    ∷ []

remove_tracing_exit_ini_entry_lem_example :
    remove_tracing_exit_ini_entry lines_of (codes "MQTrace") [] ≡ (
      let (first, others) = stanzas (lines_of []) in
      if mentions (codes "MQTrace") first || any (mentions (codes "MQTrace")) others
      then (true, kept (codes "MQTrace") first ++ all_kept (codes "MQTrace") others)
      else (false, []))
remove_tracing_exit_ini_entry_lem_example =
    remove_tracing_exit_ini_entry_lem lines_of (codes "MQTrace") []

stanza_removed :
    remove_tracing_exit_ini_entry lines_of (codes "MQTrace") []
    ≡ (true, codes "Log:\n   LogType=LINEAR\nSSL:\n")
unfolding remove_tracing_exit_ini_entry
stanza_removed = refl
