-- ===== src/Startup/Fips.antt =====
-- mq-container-master/internal/fips/fips.go: is cryptography certified for FIPS asked for, and by whom?
use docker_local.Common.{
  ℕ, ◌≡◌, Bool, ◌&&◌, ◌||◌, not, Option, none, some, List, [], ◌∷◌, ◌++◌, if◌then◌else◌, arith, ltb,
  ◌==◌,
}
use docker_local.Common.Text.{Text, codes, contains, equal_fold, text_eq}

-- `FIPSEnabledType`: `FIPS_ENABLED_OFF`, `FIPS_ENABLED_PLATFORM` and `FIPS_ENABLED_ENV_VAR`.
abbrev pub off : ℕ
off = 0

abbrev pub platform : ℕ
platform = 1

abbrev pub env_var : ℕ
env_var = 2

abbrev pub is_fips_enabled : ℕ → Bool
is_fips_enabled fips_enabled_type = ltb off fips_enabled_type

-- The output of `sysctl`, `none` if it failed.
unfoldable pub host_type : Option Text → ℕ
unfolding contains
host_type none = off
host_type (some out) = if contains out (codes "crypto.fips_enabled = 1") then platform else off

unfoldable pub turns_off : Text → Bool
unfolding equal_fold
turns_off fips_override =
    equal_fold fips_override (codes "false") || equal_fold fips_override (codes "0")

unfoldable pub turns_on : Text → Bool
unfolding equal_fold
turns_on fips_override =
    equal_fold fips_override (codes "true") || equal_fold fips_override (codes "1")

-- The lines that are logged.
pub data FipsWarning : Type 0 where
  invalid_value : Text → FipsWarning
  unavailable : Text → FipsWarning

-- `MQ_ENABLE_FIPS`, `none` if it is not set.
unfoldable pub override_type : Option Text → ℕ → ℕ × List FipsWarning
unfolding turns_off turns_on
override_type none fips_enabled_type = (fips_enabled_type, [])
override_type (some fips_override) fips_enabled_type =
    if turns_off fips_override
    then (off, [])
    else if turns_on fips_override
    then (if not (fips_enabled_type == platform) then env_var else fips_enabled_type, [])
    else if equal_fold fips_override (codes "auto")
    then (fips_enabled_type, [])
    else (fips_enabled_type, invalid_value fips_override ∷ [])

unfoldable pub is_unsupported : Text → Bool
unfolding text_eq
is_unsupported arch = text_eq arch (codes "s390x") || text_eq arch (codes "arm64")

unfoldable pub restrict_type : Text → ℕ × List FipsWarning → ℕ × List FipsWarning
unfolding is_unsupported
restrict_type arch (fips_enabled_type, logs) =
    if is_fips_enabled fips_enabled_type && is_unsupported arch
    then (off, logs ++ unavailable arch ∷ [])
    else (fips_enabled_type, logs)

-- `ProcessFIPSType`: the type, and the lines logged.
unfoldable pub process_fips_type : Option Text → Option Text → Text → ℕ × List FipsWarning
unfolding host_type override_type restrict_type
process_fips_type sysctl mq_enable_fips arch =
    restrict_type arch (override_type mq_enable_fips (host_type sysctl))

-- The three messages of `PostInit`.
pub data FipsMessage : Type 0 where
  not_enabled host_true host_false : FipsMessage

unfoldable pub post_init : ℕ → FipsMessage
post_init fips_enabled_type =
    if fips_enabled_type == platform
    then host_true
    else if fips_enabled_type == env_var
    then host_false
    else not_enabled

-- What the documentation of `MQ_ENABLE_FIPS` says: off if asked to be off, else on if the variable or the host says so,
-- and never on where it is not available.
unfoldable pub wanted : Bool → Option Text → Text → Bool
wanted host none arch = host && not (is_unsupported arch)
wanted host (some fips_override) arch =
    not (turns_off fips_override) && (turns_on fips_override || host) && not (is_unsupported arch)

unfoldable pub message : Bool → Bool → FipsMessage
message wants host = if wants then (if host then host_true else host_false) else not_enabled

-- FIPS is on after `ProcessFIPSType` exactly when it is wanted, and the message of `PostInit` says so, and what the
-- host's setting is.
pub process_fips_type_lem :
    (sysctl mq_enable_fips : Option Text) (arch : Text)
    → (is_fips_enabled (process_fips_type sysctl mq_enable_fips arch).0
        ≡ wanted (is_fips_enabled (host_type sysctl)) mq_enable_fips arch)
      × (post_init (process_fips_type sysctl mq_enable_fips arch).0
          ≡ message
              (wanted (is_fips_enabled (host_type sysctl)) mq_enable_fips arch)
              (is_fips_enabled (host_type sysctl)))
unfolding process_fips_type host_type override_type restrict_type wanted message post_init
process_fips_type_lem none none arch = ground arith
process_fips_type_lem none (some v) arch = ground arith
process_fips_type_lem (some out) none arch = ground arith
process_fips_type_lem (some out) (some v) arch = ground arith
