-- ===== src/Startup/Passwords/Enabled.antt =====
-- When `IsEnabled` holds after `CheckForPasswords`.
use docker_local.Common.{
  ℕ, ◌≡◌, refl, sym, ap, ◌∙◌, Bool, true, false, ◌&&◌, ◌||◌, Option, none, some, ◌∷◌, [], subst,
  ltb, Result, ok, err, >>=-ok, arith, Bool-cases, inl, inr,
}
use docker_local.Common.Text.{Text, len, trim_space, has_rune, text_eq, text_eq_refl, is_space}
use docker_local.Startup.Environment.{Environment, setenv}
use docker_local.Startup.SecurityUtility.{SecurityError, encode_secrets}
use docker_local.Startup.SecurityUtility.Encoded.{encode_secrets_lem, has_rune-trim_space}
use docker_local.Startup.Passwords.{
  PasswordUser, PasswordWorld, PasswordStep, PasswordError, admin, app, use_htp_env, is_given,
  is_true, is_enabled, encoded, encode_read, read_mq_secrets, set_secure, from_secret,
  from_variable, warn_if_set, use_variable, set_password, then_app, check_for_passwords,
}

ltb-len : (b : ℕ) (s : Text) → has_rune b s ≡ true → ltb 0 (len s) ≡ true
ltb-len b [] h = cc
ltb-len b (c ∷ s) h = ground arith

is_given-brace : (t : Text) → has_rune b'{' t ≡ true → is_given (some t) ≡ true
unfolding is_given
is_given-brace t h =
    ltb-len b'{' (trim_space t) (has_rune-trim_space b'{' t (unfold is_space in refl) ∙ h)

-- The secure variable of the user is given if a password was, or if it was before, and no other changes.
record Sets (u : PasswordUser) (env : Environment) (given : Bool) (left : Environment)
    : Type 0 where
  secure : is_given (left u.pwd_secure_env) ≡ (given || is_given (env u.pwd_secure_env))
  others : (name : Text) → text_eq name u.pwd_secure_env ≡ false → left name ≡ env name

setenv-Sets :
    (u : PasswordUser) (env : Environment) (value : Text)
    → has_rune b'{' value ≡ true
    → Sets u env true (setenv u.pwd_secure_env value env)
unfolding setenv
setenv-Sets u env value h = record {
  secure = rw (text_eq_refl u.pwd_secure_env) (is_given-brace value h);
  others = λ name e. rw e refl;
}

abbrev left_by : Environment → Result PasswordError Environment → Environment
left_by env (ok left) = left
left_by env (err e) = env

set_secure-Sets :
    (w : PasswordWorld) (u : PasswordUser) (env left : Environment) (value : Text)
    → has_rune b'{' value ≡ true
    → set_secure w u env value ≡ ok left
    → Sets u env true left
unfolding set_secure
set_secure-Sets w u env left value b h = elim (Bool-cases (w.refuses value)) [
  | inl e ↦ let h' = rw e at h in cc
  | inr e ↦ subst (Sets u env true) (ap (left_by env) (rw e at h)) (setenv-Sets u env value b)
]

abbrev value_of : Result PasswordError Text → Text
value_of (ok t) = t
value_of (err e) = []

encoded-brace :
    (r : Result SecurityError Text) (t : Text)
    → ((s : Text) → r ≡ ok s → has_rune b'{' s ≡ true)
    → encoded r ≡ ok t
    → has_rune b'{' t ≡ true
encoded-brace (ok s) t b h = subst (λ x. has_rune b'{' x ≡ true) (ap value_of h) (b s refl)
encoded-brace (err e) t b h = cc

from_variable-Sets :
    (w : PasswordWorld) (u : PasswordUser) (env left : Environment) (password : Text)
    → from_variable w u env password ≡ ok left
    → Sets u env true left
from_variable-Sets w u env left password h =
    let r = encode_secrets w.utility password false in
    let (value, e, h') = >>=-ok (encoded r) _ h in
    set_secure-Sets w u env left value
      (encoded-brace r value (λ s e'. (encode_secrets_lem w.utility password false s e').2) e) h'

encode_read-brace :
    (w : PasswordWorld) (o : Option Text) (t : Text)
    → encode_read w o ≡ ok t
    → has_rune b'{' t ≡ true
encode_read-brace w none t h = cc
encode_read-brace w (some password) t h = elim (Bool-cases (ltb 256 (len password))) [
  | inl e ↦ let h' = rw e at h in cc
  | inr e ↦
      encoded-brace (encode_secrets w.utility password false) t
        (λ s e'. (encode_secrets_lem w.utility password false s e').2) (rw e at h)
]

from_secret-Sets :
    (w : PasswordWorld) (u : PasswordUser) (env left : Environment)
    → from_secret w u env ≡ ok left
    → Sets u env true left
unfolding read_mq_secrets
from_secret-Sets w u env left h =
    let (value, e, h') = >>=-ok (encode_read w (w.read_secret u.secret_path)) _ h in
    let b = encode_read-brace w (w.read_secret u.secret_path) value e in
    set_secure-Sets w u env left value b (rw (ltb-len b'{' value b) at h')

same-Sets : (u : PasswordUser) (env : Environment) → Sets u env false env
same-Sets u env = record { secure = refl; others = λ name e. refl }

warn_if_set-ok : (u : PasswordUser) (r : Result PasswordError Environment) → (warn_if_set u r).0 ≡ r
warn_if_set-ok u (ok env) = refl
warn_if_set-ok u (err e) = refl

use_variable-Sets :
    (w : PasswordWorld) (u : PasswordUser) (env left : Environment) (o : Option Text)
    → (use_variable w u env o).0 ≡ ok left
    → Sets u env (is_given o) left
use_variable-Sets w u env left none h =
    subst (Sets u env (is_given none)) (ap (left_by env) h) (unfold is_given in same-Sets u env)
use_variable-Sets w u env left (some password) h = elim (Bool-cases (is_given (some password))) [
  | inl e ↦ rw e (
      from_variable-Sets w u env left password
        (sym (warn_if_set-ok u (from_variable w u env password)) ∙ (rw e at h)))
  | inr e ↦ rw e (subst (Sets u env false) (ap (left_by env) (rw e at h)) (same-Sets u env))
]

set_password-Sets :
    (w : PasswordWorld) (u : PasswordUser) (env left : Environment)
    → (set_password w u env).0 ≡ ok left
    → Sets u env (w.secret_exists u.secret_path || is_given (env u.pwd_env)) left
set_password-Sets w u env left h = elim (Bool-cases (w.secret_exists u.secret_path)) [
  | inl e ↦ rw e (from_secret-Sets w u env left (rw e at h))
  | inr e ↦ rw e (use_variable-Sets w u env left (env u.pwd_env) (rw e at h))
]

then_app-ok :
    (w : PasswordWorld) (step : PasswordStep) (left : Environment)
    → (then_app w step).0 ≡ ok left
    → (middle : Environment) × (step.0 ≡ ok middle) × ((set_password w app middle).0 ≡ ok left)
then_app-ok w (ok env, logs) left h = (env, refl, h)
then_app-ok w (err e, logs) left h = cc

-- What was given before `CheckForPasswords`: a password in any of the four variables or a file with a secret.
unfoldable pub any_given : PasswordWorld → Environment → Bool
any_given w env =
    is_given (env admin.pwd_env)
    || is_given (env app.pwd_env)
    || is_given (env app.pwd_secure_env)
    || is_given (env admin.pwd_secure_env)
    || w.secret_exists admin.secret_path
    || w.secret_exists app.secret_path

or_all :
    (a b c d s t : Bool)
    → (a || b || ((t || b) || c) || ((s || a) || d)) ≡ (a || b || c || d || s || t)
or_all a b c d s t = ground arith

-- After `CheckForPasswords` has succeeded, `IsEnabled` holds exactly if `MQ_CONNAUTH_USE_HTP` is true, in any case, and
-- a password that is more than white space is in one of the four variables, or there is a file with a secret.
pub check_for_passwords-is_enabled :
    (w : PasswordWorld) (env left : Environment)
    → (check_for_passwords w env).0 ≡ ok left
    → is_enabled left ≡ (is_true (env use_htp_env) && any_given w env)
unfolding check_for_passwords is_enabled any_given text_eq
check_for_passwords-is_enabled w env left h =
    let (middle, e, h') = then_app-ok w (set_password w admin env) left h in
    let first = set_password-Sets w admin env middle e in
    let second = set_password-Sets w app middle left h' in
    let htp = second.others use_htp_env refl ∙ first.others use_htp_env refl in
    let admin_pwd = second.others admin.pwd_env refl ∙ first.others admin.pwd_env refl in
    let app_pwd = second.others app.pwd_env refl ∙ first.others app.pwd_env refl in
    let app_middle = first.others app.pwd_env refl in
    let app_secure =
      second.secure
      ∙ ap
          (λ p.
            (w.secret_exists app.secret_path || is_given p) || is_given (middle app.pwd_secure_env))
          app_middle
      ∙ ap (λ c. (w.secret_exists app.secret_path || is_given (env app.pwd_env)) || is_given c)
          (first.others app.pwd_secure_env refl) in
    let admin_secure = ap is_given (second.others admin.pwd_secure_env refl) ∙ first.secure in
    rw (htp, admin_pwd, app_pwd, app_secure, admin_secure)
      (ap (λ given. is_true (env use_htp_env) && given)
        (or_all (is_given (env admin.pwd_env)) (is_given (env app.pwd_env))
          (is_given (env app.pwd_secure_env)) (is_given (env admin.pwd_secure_env))
          (w.secret_exists admin.secret_path) (w.secret_exists app.secret_path)))
