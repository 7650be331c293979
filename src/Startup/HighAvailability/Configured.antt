-- ===== src/Startup/HighAvailability/Configured.antt =====
-- What `ConfigureNativeHA` writes.
use docker_local.Common.{
  ◌≡◌, refl, sym, ap, ◌∙◌, map, Bool-cases, inl, inr, Bool, false, ◌&&◌, ◌||◌, not, none, some,
  List, [], ◌∷◌, ◌++◌, any, if◌then◌else◌, arith,
}
use docker_local.Common.Text.{Text, codes, is_empty, text_eq, text_eq_refl}
use docker_local.Startup.Environment.{Environment, getenv}
use docker_local.Startup.HighAvailability.{
  ConfigFile, HaInstance, HaConfig, HaGroupConfig, config_files, configure_native_ha,
  disable_unnamed, env_config_present, generate_all, instance_file, keystore_file,
  load_config_and_generate, load_config_from_env, load_group, native_ha_file, should_configure_tls,
  update_tls,
}

generate_all-none :
    (cfg : HaConfig) (fs : List ConfigFile)
    → generate_all (λ f. false) cfg fs ≡ (map (λ f. record { file = f; config = cfg }) fs, none)
unfolding generate_all
generate_all-none cfg [] = refl
generate_all-none cfg (f ∷ fs) = rw (generate_all-none cfg fs) refl

-- A part of a list that a test keeps or drops.
abbrev pub when : Bool → ConfigFile → List ConfigFile
when wanted f = if wanted then f ∷ [] else []

-- The TLS files exactly if there is a label or a group is named.
abbrev pub is_labelled : Text → Text → Bool
is_labelled ha_cert_label ha_group_cert_label =
    not (is_empty ha_cert_label) || not (is_empty ha_group_cert_label)

-- An instance, by the names of its two variables.
abbrev pub instance_of : Environment → Text → Text → HaInstance
instance_of env named at = record { name = getenv env named; replication_address = getenv env at }

-- The rest of a configuration, as the environment gives it: the host, the three instances, the cipher specifications,
-- the key repository and the two groups.
pub record FromEnvironment (env : Environment) (cfg : HaConfig) : Type 0 where
  pub host_is : cfg.host ≡ getenv env (codes "HOSTNAME")
  pub instances_are :
      cfg.instances
      ≡ instance_of env
          (codes "MQ_NATIVE_HA_INSTANCE_0_NAME")
          (codes "MQ_NATIVE_HA_INSTANCE_0_REPLICATION_ADDRESS")
        ∷ instance_of env
            (codes "MQ_NATIVE_HA_INSTANCE_1_NAME")
            (codes "MQ_NATIVE_HA_INSTANCE_1_REPLICATION_ADDRESS")
        ∷ instance_of env
            (codes "MQ_NATIVE_HA_INSTANCE_2_NAME")
            (codes "MQ_NATIVE_HA_INSTANCE_2_REPLICATION_ADDRESS")
        ∷ []
  pub cipher_spec_is : cfg.cipher_spec ≡ getenv env (codes "MQ_NATIVE_HA_CIPHERSPEC")
  pub key_repository_is : cfg.key_repository ≡ getenv env (codes "MQ_NATIVE_HA_KEY_REPOSITORY")
  pub group_cipher_spec_is :
      cfg.group.group_cipher_spec ≡ getenv env (codes "MQ_NATIVE_HA_GROUP_CIPHERSPEC")
  pub local_is : cfg.group.local ≡ record {
    local_name = getenv env (codes "MQ_NATIVE_HA_GROUP_LOCAL_NAME");
    role = getenv env (codes "MQ_NATIVE_HA_GROUP_ROLE");
    local_address = getenv env (codes "MQ_NATIVE_HA_GROUP_LOCAL_ADDRESS");
  }
  pub recovery_is : cfg.group.recovery ≡ record {
    recovery_name = getenv env (codes "MQ_NATIVE_HA_GROUP_RECOVERY_NAME");
    enabled =
        not (is_empty (getenv env (codes "MQ_NATIVE_HA_GROUP_RECOVERY_NAME")))
        && not (text_eq (getenv env (codes "MQ_NATIVE_HA_GROUP_RECOVERY_ENABLED")) (codes "false"));
    recovery_address = getenv env (codes "MQ_NATIVE_HA_GROUP_REPLICATION_ADDRESS");
  }

-- One of the eight variables of the instances, of the TLS mode and of the cipher specification is set and not empty.
abbrev pub is_any_set : Environment → Bool
is_any_set env =
    any (λ name. not (is_empty (getenv env name)))
      (codes "MQ_NATIVE_HA_CIPHERSPEC"
        ∷ codes "MQ_NATIVE_HA_TLS"
        ∷ codes "MQ_NATIVE_HA_INSTANCE_0_NAME"
        ∷ codes "MQ_NATIVE_HA_INSTANCE_1_NAME"
        ∷ codes "MQ_NATIVE_HA_INSTANCE_2_NAME"
        ∷ codes "MQ_NATIVE_HA_INSTANCE_0_REPLICATION_ADDRESS"
        ∷ codes "MQ_NATIVE_HA_INSTANCE_1_REPLICATION_ADDRESS"
        ∷ codes "MQ_NATIVE_HA_INSTANCE_2_REPLICATION_ADDRESS"
        ∷ [])

env_config_present-is_any_set : (env : Environment) → env_config_present env ≡ is_any_set env
unfolding env_config_present
env_config_present-is_any_set env = ground arith

-- `updateTLS` leaves the rest of a configuration as it was.
FromEnvironment-update_tls :
    (env : Environment) (fips : Bool) (label group_label : Text) (h : HaConfig)
    → FromEnvironment env h
    → FromEnvironment env (update_tls fips label group_label h)
FromEnvironment-update_tls env fips [] [] h f = record {
  host_is = f.host_is;
  instances_are = f.instances_are;
  cipher_spec_is = f.cipher_spec_is;
  key_repository_is = f.key_repository_is;
  group_cipher_spec_is = f.group_cipher_spec_is;
  local_is = f.local_is;
  recovery_is = f.recovery_is;
}
FromEnvironment-update_tls env fips [] (c ∷ s) h f = record {
  host_is = f.host_is;
  instances_are = f.instances_are;
  cipher_spec_is = f.cipher_spec_is;
  key_repository_is = f.key_repository_is;
  group_cipher_spec_is = f.group_cipher_spec_is;
  local_is = f.local_is;
  recovery_is = f.recovery_is;
}
FromEnvironment-update_tls env fips (c ∷ s) [] h f = record {
  host_is = f.host_is;
  instances_are = f.instances_are;
  cipher_spec_is = f.cipher_spec_is;
  key_repository_is = f.key_repository_is;
  group_cipher_spec_is = f.group_cipher_spec_is;
  local_is = f.local_is;
  recovery_is = f.recovery_is;
}
FromEnvironment-update_tls env fips (c ∷ s) (d ∷ r) h f = record {
  host_is = f.host_is;
  instances_are = f.instances_are;
  cipher_spec_is = f.cipher_spec_is;
  key_repository_is = f.key_repository_is;
  group_cipher_spec_is = f.group_cipher_spec_is;
  local_is = f.local_is;
  recovery_is = f.recovery_is;
}

-- What `updateTLS` makes of a configuration that has no labels.
update_tls_lem :
    (fips : Bool) (label group_label : Text) (h : HaConfig)
    → h.certificate_label ≡ []
    → h.group.group_certificate_label ≡ []
    → h.ha_tls_enabled ≡ false
    → ((update_tls fips label group_label h).certificate_label ≡ label)
      × ((update_tls fips label group_label h).group.group_certificate_label ≡ group_label)
      × (should_configure_tls (update_tls fips label group_label h)
          ≡ (is_labelled label group_label || not (is_empty h.group.local.local_name)))
update_tls_lem fips [] [] h e₁ e₂ e₃ = (e₁, e₂, rw e₃ (ground arith))
update_tls_lem fips [] (c ∷ s) h e₁ e₂ e₃ = (e₁, refl, refl)
update_tls_lem fips (c ∷ s) [] h e₁ e₂ e₃ = (refl, e₂, refl)
update_tls_lem fips (c ∷ s) (d ∷ r) h e₁ e₂ e₃ = (refl, refl, refl)

disable_unnamed_lem :
    (g : HaGroupConfig)
    → ((disable_unnamed g).recovery ≡ record (g.recovery) {
      enabled = not (is_empty g.recovery.recovery_name) && g.recovery.enabled;
    })
      × ((disable_unnamed g).local ≡ g.local)
      × ((disable_unnamed g).group_certificate_label ≡ g.group_certificate_label)
      × ((disable_unnamed g).group_cipher_spec ≡ g.group_cipher_spec)
disable_unnamed_lem g = elim (Bool-cases (is_empty g.recovery.recovery_name)) [
  | inl e ↦ rw e (refl, refl, refl, refl)
  | inr e ↦ rw e (refl, refl, refl, refl)
]

load_config_from_env-FromEnvironment :
    (env : Environment) → FromEnvironment env (load_config_from_env env)
unfolding load_config_from_env load_group
load_config_from_env-FromEnvironment env =
    let (recovery, local, label, spec) = disable_unnamed_lem (load_group env) in
    record {
      host_is = refl;
      instances_are = refl;
      cipher_spec_is = refl;
      key_repository_is = refl;
      group_cipher_spec_is = spec;
      local_is = local;
      recovery_is = recovery;
    }

-- With Native HA on, where the step for the TLS keystore succeeds with two labels and no template fails, `ConfigureNativeHA`
-- writes the instance file, the keystore file if a label is not empty, and the third file if any of the eight
-- variables of the instances, of the TLS mode and of the cipher specification is set and not empty, all from one
-- configuration. It has the labels and the FIPS mode of the calls, asks for TLS just if there is a label or a
-- local group's name, and has the host, the instances, the cipher specifications, the key repository and the two groups
-- of the environment's variables, with the recovery group enabled just if it is named and not disabled.
pub configure_native_ha_lem :
    (env : Environment) (order : List ConfigFile → List ConfigFile) (fips : Bool)
    (label group_label : Text)
    → getenv env (codes "MQ_NATIVE_HA") ≡ codes "true"
    → (cfg : HaConfig) × (configure_native_ha
          (λ f. false)
          env
          order
          fips
          (some (label, group_label))
        ≡ (
          map
              (λ f. record { file = f; config = cfg })
              (order (
                instance_file
                ∷ (when (is_labelled label group_label) keystore_file
                    ++ when (is_any_set env) native_ha_file))),
          none,
        ))
      × (cfg.fips_available ≡ fips)
      × (cfg.certificate_label ≡ label)
      × (cfg.group.group_certificate_label ≡ group_label)
      × (should_configure_tls cfg ≡ (
          is_labelled label group_label
          || not (is_empty (getenv env (codes "MQ_NATIVE_HA_GROUP_LOCAL_NAME")))))
      × FromEnvironment env cfg
unfolding configure_native_ha load_config_and_generate config_files load_config_from_env load_group
configure_native_ha_lem env order fips label group_label on =
    let loaded = load_config_from_env env in
    let cfg = update_tls fips label group_label loaded in
    let (_, local, group, _) = disable_unnamed_lem (load_group env) in
    let (a, b, tls) = update_tls_lem fips label group_label loaded refl group refl in
    (
      cfg,
      rw (on, text_eq_refl (codes "true"), sym (env_config_present-is_any_set env))
          (generate_all-none cfg _),
      refl,
      a,
      b,
      tls ∙ ap (λ l. is_labelled label group_label || not (is_empty l.local_name)) local,
      FromEnvironment-update_tls env fips label group_label loaded
          (load_config_from_env-FromEnvironment env),
    )
