-- ===== src/Startup/HighAvailability.antt =====
-- mq-container-master/internal/ha/ha.go: the configuration of Native HA.
pub mod Configured
use docker_local.Common.{
  ◌≡◌, refl, ap, ◌∙◌, map, Bool-cases, inl, inr, Bool, true, false, ◌&&◌, ◌||◌, not, Option, none,
  some, List, [], ◌∷◌, ◌++◌, any, if◌then◌else◌, arith,
}
use docker_local.Common.Text.{Text, codes, is_empty, text_eq, text_eq_refl}
use docker_local.Startup.Environment.{Environment, getenv}

pub record HaInstance : Type 0 where
  pub name : Text
  pub replication_address : Text

pub record HaLocalGroupConfig : Type 0 where
  pub local_name : Text
  pub role : Text
  pub local_address : Text

pub record HaRecoveryGroupConfig : Type 0 where
  pub recovery_name : Text
  pub enabled : Bool
  pub recovery_address : Text

pub record HaGroupConfig : Type 0 where
  pub local : HaLocalGroupConfig
  pub recovery : HaRecoveryGroupConfig
  pub group_cipher_spec : Text
  pub group_certificate_label : Text

pub record HaConfig : Type 0 where
  pub host : Text
  pub instances : List HaInstance
  pub group : HaGroupConfig
  pub ha_tls_enabled : Bool
  pub cipher_spec : Text
  pub certificate_label : Text
  pub key_repository : Text
  pub fips_available : Bool

-- The variables of `envConfigPresent`.
abbrev pub check_vars : List Text
check_vars =
    codes "MQ_NATIVE_HA_INSTANCE_0_NAME"
    ∷ codes "MQ_NATIVE_HA_INSTANCE_0_REPLICATION_ADDRESS"
    ∷ codes "MQ_NATIVE_HA_INSTANCE_1_NAME"
    ∷ codes "MQ_NATIVE_HA_INSTANCE_1_REPLICATION_ADDRESS"
    ∷ codes "MQ_NATIVE_HA_INSTANCE_2_NAME"
    ∷ codes "MQ_NATIVE_HA_INSTANCE_2_REPLICATION_ADDRESS"
    ∷ codes "MQ_NATIVE_HA_TLS"
    ∷ codes "MQ_NATIVE_HA_CIPHERSPEC"
    ∷ []

unfoldable pub env_config_present : Environment → Bool
env_config_present env = any (λ check_var. not (is_empty (getenv env check_var))) check_vars

unfoldable pub load_group : Environment → HaGroupConfig
unfolding text_eq
load_group env = record {
  local = record {
    local_name = getenv env (codes "MQ_NATIVE_HA_GROUP_LOCAL_NAME");
    role = getenv env (codes "MQ_NATIVE_HA_GROUP_ROLE");
    local_address = getenv env (codes "MQ_NATIVE_HA_GROUP_LOCAL_ADDRESS");
  };
  recovery = record {
    recovery_name = getenv env (codes "MQ_NATIVE_HA_GROUP_RECOVERY_NAME");
    enabled =
        not (text_eq (getenv env (codes "MQ_NATIVE_HA_GROUP_RECOVERY_ENABLED")) (codes "false"));
    recovery_address = getenv env (codes "MQ_NATIVE_HA_GROUP_REPLICATION_ADDRESS");
  };
  group_cipher_spec = getenv env (codes "MQ_NATIVE_HA_GROUP_CIPHERSPEC");
  group_certificate_label = [];
}

-- A group with no recovery group's name has no recovery group.
abbrev pub disable_unnamed : HaGroupConfig → HaGroupConfig
disable_unnamed g =
    if is_empty g.recovery.recovery_name
    then record g { recovery = record (g.recovery) { enabled = false } }
    else g

-- `loadConfigFromEnv`, which has no error.
unfoldable pub load_config_from_env : Environment → HaConfig
unfolding load_group
load_config_from_env env = record {
  host = getenv env (codes "HOSTNAME");
  instances =
      record {
        name = getenv env (codes "MQ_NATIVE_HA_INSTANCE_0_NAME");
        replication_address = getenv env (codes "MQ_NATIVE_HA_INSTANCE_0_REPLICATION_ADDRESS");
      }
      ∷ record {
        name = getenv env (codes "MQ_NATIVE_HA_INSTANCE_1_NAME");
        replication_address = getenv env (codes "MQ_NATIVE_HA_INSTANCE_1_REPLICATION_ADDRESS");
      }
      ∷ record {
        name = getenv env (codes "MQ_NATIVE_HA_INSTANCE_2_NAME");
        replication_address = getenv env (codes "MQ_NATIVE_HA_INSTANCE_2_REPLICATION_ADDRESS");
      }
      ∷ [];
  group = disable_unnamed (load_group env);
  ha_tls_enabled = false;
  cipher_spec = getenv env (codes "MQ_NATIVE_HA_CIPHERSPEC");
  certificate_label = [];
  key_repository = getenv env (codes "MQ_NATIVE_HA_KEY_REPOSITORY");
  fips_available = false;
}

abbrev pub should_configure_tls : HaConfig → Bool
should_configure_tls h =
    if h.ha_tls_enabled
    then true
    else if not (is_empty h.group.local.local_name)
    then true
    else false

-- `yesNo.String`, and `SSLFipsRequired` by it.
abbrev pub yes_no : Bool → Text
yes_no true = codes "Yes"
yes_no false = codes "No"

abbrev pub ssl_fips_required : HaConfig → Text
ssl_fips_required h = yes_no h.fips_available

abbrev pub key_repository_of : HaConfig → Text
key_repository_of h =
    if not (is_empty h.key_repository)
    then h.key_repository
    else codes "/run/runmqserver/ha/tls/key"

abbrev pub label_instance : Text → HaConfig → HaConfig
label_instance label h =
    if not (is_empty label)
    then record h { certificate_label = label; ha_tls_enabled = true }
    else h

abbrev pub label_group : Text → HaConfig → HaConfig
label_group label h =
    if not (is_empty label)
    then record h {
      group = record (h.group) { group_certificate_label = label };
      ha_tls_enabled = true;
    }
    else h

-- `updateTLS`, which has no error.
abbrev pub update_tls : Bool → Text → Text → HaConfig → HaConfig
update_tls fips_available ha_cert_label ha_group_cert_label h =
    record (label_group ha_group_cert_label (label_instance ha_cert_label h)) {
      fips_available = fips_available;
    }

-- A file to write, and its template.
pub record ConfigFile : Type 0 where
  pub output_path : Text
  pub template_file : Text

abbrev pub instance_file : ConfigFile
instance_file = record {
  output_path = codes "/run/10-native-ha-instance.ini";
  template_file = codes "/etc/mqm/10-native-ha-instance.ini.tpl";
}

abbrev pub keystore_file : ConfigFile
keystore_file = record {
  output_path = codes "/run/10-native-ha-keystore.ini";
  template_file = codes "/etc/mqm/10-native-ha-keystore.ini.tpl";
}

abbrev pub native_ha_file : ConfigFile
native_ha_file = record {
  output_path = codes "/run/10-native-ha.ini";
  template_file = codes "/etc/mqm/10-native-ha.ini.tpl";
}

-- `configFiles` as `ConfigureNativeHA` fills it.
unfoldable pub config_files : Environment → Text → Text → List ConfigFile
unfolding env_config_present
config_files env ha_cert_label ha_group_cert_label =
    instance_file
    ∷ ((if not (is_empty ha_cert_label) || not (is_empty ha_group_cert_label)
          then keystore_file ∷ []
          else [])
        ++ (if env_config_present env then native_ha_file ∷ [] else []))

pub data HaError : Type 0 where
  tls_keys : HaError
  template : ConfigFile → HaError

-- A file that was written, with the configuration that the template was given.
pub record Generated : Type 0 where
  pub file : ConfigFile
  pub config : HaConfig

-- The files written, and the error.
abbrev pub Generation : Type 0
Generation = List Generated × Option HaError

-- The loop of `loadConfigAndGenerate`. `fails` tells which template fails. The order of a Go map is not fixed; the
-- files are taken in any one order.
unfoldable pub generate_all : (ConfigFile → Bool) → HaConfig → List ConfigFile → Generation
generate_all fails cfg [] = ([], none)
generate_all fails cfg (f ∷ fs) =
    let (rest, e) = generate_all fails cfg fs in
    if fails f then ([], some (template f)) else (record { file = f; config = cfg } ∷ rest, e)

unfoldable pub load_config_and_generate :
    (ConfigFile → Bool) → Environment → List ConfigFile → Bool → Text → Text → Generation
unfolding generate_all load_config_from_env
load_config_and_generate fails env template_configs fips_available ha_cert_label
      ha_group_cert_label =
    generate_all fails
      (update_tls fips_available ha_cert_label ha_group_cert_label (load_config_from_env env))
      template_configs

-- The two labels that `tls.ConfigureHATLSKeystore` returns, `none` if it fails.
abbrev pub configure_with :
    (ConfigFile → Bool)
    → Environment
    → (List ConfigFile → List ConfigFile)
    → Bool
    → Option (Text × Text)
    → Generation
configure_with fails env order fips_available none = ([], some tls_keys)
configure_with fails env order fips_available (some (ha_cert_label, ha_group_cert_label)) =
    load_config_and_generate fails env (order (config_files env ha_cert_label ha_group_cert_label))
      fips_available ha_cert_label ha_group_cert_label

-- `ConfigureNativeHA`; `order` is the order in which the map is walked.
unfoldable pub configure_native_ha :
    (ConfigFile → Bool)
    → Environment
    → (List ConfigFile → List ConfigFile)
    → Bool
    → Option (Text × Text)
    → Generation
unfolding load_config_and_generate config_files text_eq
configure_native_ha fails env order fips_available labels =
    if not (text_eq (getenv env (codes "MQ_NATIVE_HA")) (codes "true"))
    then ([], none)
    else configure_with fails env order fips_available labels
