-- ===== src/Startup/Passwords.antt =====
-- mq-container-master/internal/simpleauth/simpleauth.go: the passwords of the users admin and app.
pub mod Enabled
use docker_local.Common.{
  ℕ, ◌≡◌, refl, sym, ap, ◌∙◌, Bool, true, false, ◌&&◌, ◌||◌, not, Option, none, some, List, [], ◌∷◌,
  ◌++◌, ltb, Result, ok, err, ◌>>=◌, >>=-ok, if◌then◌else◌, arith, Bool-cases, inl, inr,
}
use docker_local.Common.Text.{
  Text, codes, len, is_empty, equal_fold, trim_space, has_rune, text_eq, text_eq_refl, is_space,
}
use docker_local.Startup.Environment.{Environment, setenv}
use docker_local.Startup.SecurityUtility.{SecurityUtility, SecurityError, encode_secrets}
use docker_local.Startup.SecurityUtility.Encoded.{encode_secrets_lem, has_rune-trim_space}

abbrev pub use_htp_env : Text
use_htp_env = codes "MQ_CONNAUTH_USE_HTP"

-- A user: the variables for the password and for what it is encoded to, and the file with the secret.
pub record PasswordUser : Type 0 where
  pub pwd_env : Text
  pub pwd_secure_env : Text
  pub secret_path : Text

abbrev pub admin : PasswordUser
admin = record {
  pwd_env = codes "MQ_ADMIN_PASSWORD";
  pwd_secure_env = codes "MQ_ADMIN_PASSWORD_SECURE";
  secret_path = codes "/run/secrets/mqAdminPassword";
}

abbrev pub app : PasswordUser
app = record {
  pwd_env = codes "MQ_APP_PASSWORD";
  pwd_secure_env = codes "MQ_APP_PASSWORD_SECURE";
  secret_path = codes "/run/secrets/mqAppPassword";
}

-- Set, and more than white space.
unfoldable pub is_given : Option Text → Bool
unfolding trim_space
is_given none = false
is_given (some value) = ltb 0 (len (trim_space value))

unfoldable pub is_true : Option Text → Bool
unfolding equal_fold
is_true none = false
is_true (some value) = equal_fold value (codes "true")

-- `IsEnabled`
unfoldable pub is_enabled : Environment → Bool
unfolding is_given is_true
is_enabled env =
    is_true (env use_htp_env)
    && (is_given (env admin.pwd_env)
        || is_given (env app.pwd_env)
        || is_given (env app.pwd_secure_env)
        || is_given (env admin.pwd_secure_env))

-- The files and programs: the secrets that are there and can be read, and the values that `os.Setenv` refuses.
pub record PasswordWorld : Type 0 where
  pub utility : SecurityUtility
  pub secret_exists : Text → Bool
  pub read_secret : Text → Option Text
  pub refuses : Text → Bool

pub data PasswordError : Type 0 where
  unreadable secret_too_long not_set : PasswordError
  not_encoded : SecurityError → PasswordError

pub data PasswordWarning : Type 0 where
  both_present deprecated : Text → PasswordWarning

abbrev pub encoded : Result SecurityError Text → Result PasswordError Text
encoded (ok t) = ok t
encoded (err e) = err (not_encoded e)

-- `readMQSecrets`
abbrev pub encode_read : PasswordWorld → Option Text → Result PasswordError Text
encode_read w none = err unreadable
encode_read w (some password) =
    if ltb 256 (len password)
    then err secret_too_long
    else encoded (encode_secrets w.utility password false)

unfoldable pub read_mq_secrets : PasswordWorld → Text → Result PasswordError Text
unfolding encode_secrets
read_mq_secrets w secret_name = encode_read w (w.read_secret secret_name)

unfoldable pub set_secure :
    PasswordWorld → PasswordUser → Environment → Text → Result PasswordError Environment
unfolding setenv
set_secure w u env value =
    if w.refuses value then err not_set else ok (setenv u.pwd_secure_env value env)

abbrev pub set_unless_empty :
    PasswordWorld → PasswordUser → Environment → Text → Result PasswordError Environment
set_unless_empty w u env value = if ltb 0 (len value) then set_secure w u env value else ok env

-- The environment that a block leaves, or its error, and what it logs.
abbrev pub PasswordStep : Type 0
PasswordStep = Result PasswordError Environment × List PasswordWarning

abbrev pub from_secret :
    PasswordWorld → PasswordUser → Environment → Result PasswordError Environment
from_secret w u env = read_mq_secrets w u.secret_path >>= set_unless_empty w u env

abbrev pub from_variable :
    PasswordWorld → PasswordUser → Environment → Text → Result PasswordError Environment
from_variable w u env password =
    encoded (encode_secrets w.utility password false) >>= set_secure w u env

abbrev pub warn_if_set : PasswordUser → Result PasswordError Environment → PasswordStep
warn_if_set u (ok env) = (ok env, deprecated u.pwd_env ∷ [])
warn_if_set u (err e) = (err e, [])

abbrev pub use_variable : PasswordWorld → PasswordUser → Environment → Option Text → PasswordStep
use_variable w u env none = (ok env, [])
use_variable w u env (some password) =
    if is_given (some password)
    then warn_if_set u (from_variable w u env password)
    else (ok env, [])

-- One of the two blocks of `CheckForPasswords`.
abbrev pub set_password : PasswordWorld → PasswordUser → Environment → PasswordStep
set_password w u env =
    if w.secret_exists u.secret_path
    then (from_secret w u env, if is_given (env u.pwd_env) then both_present u.pwd_env ∷ [] else [])
    else use_variable w u env (env u.pwd_env)

abbrev pub then_app : PasswordWorld → PasswordStep → PasswordStep
then_app w (err e, logs) = (err e, logs)
then_app w (ok env, logs) = let (result, more) = set_password w app env in (result, logs ++ more)

-- `CheckForPasswords`. (On an error the server exits, so what has been set by then does not matter.)
unfoldable pub check_for_passwords : PasswordWorld → Environment → PasswordStep
unfolding is_given read_mq_secrets set_secure
check_for_passwords w env = then_app w (set_password w admin env)
