-- ===== src/Tls/Web.antt =====
-- `ConfigureTLS`, and mq-container-master/internal/tls/tls_web.go: the settings for TLS of the queue manager and of the web server.
use docker_local.Common.{
  ℕ, ◌-◌, Bool, true, false, ◌&&◌, ◌||◌, not, Option, none, some, List, [], ◌∷◌, ◌++◌, length, take,
  Result, ok, err, if◌then◌else◌,
}
use docker_local.Common.Text.{Text, codes, text_eq, has_suffix, is_empty}
use docker_local.Disk.{Disk, Outcome, read_file}
use docker_local.Paths.Clean.{clean_path}
use docker_local.Startup.Environment.{Environment, getenv}
use docker_local.Startup.SecurityUtility.{
  SecurityUtility, SecurityError, encode_secrets, generate_liberty_aes_key_file,
}
use docker_local.Templates.{TemplateWorld, process_template_file}
use docker_local.Keystore.Commands.{
  KeyStore, KeyWorld, Effect, is_there, new_pkcs12_key_store, create,
  create_self_signed_certificate,
}
use docker_local.Keystore.Listing.{list_all_certificates}
use docker_local.Tls.Configure.{keystore_dir_default}
use docker_local.Tls.Password.{generate_random_password}
use docker_local.Tls.InitialKey.{trim_key}

-- `strings.TrimSuffix`
abbrev pub trim_suffix : Text → Text → Text
trim_suffix s suffix = if has_suffix s suffix then take (length s - length suffix) s else s

-- What `ConfigureTLS` reads of the key store: the ring, if it holds a certificate, and whether FIPS is on. A list that cannot be got is empty.
abbrev pub ring_of : KeyStore → Option (List Text) → Text
ring_of ks none = []
ring_of ks (some []) = []
ring_of ks (some (label ∷ labels)) = trim_suffix ks.filename (codes ".kdb")

pub record Settings : Type 0 where
  pub ssl_key_ring : Text
  pub fips_enabled : Text

abbrev pub settings_of : KeyWorld → Option KeyStore → Text → Settings
settings_of k none key_label = record { ssl_key_ring = []; fips_enabled = codes "NO" }
settings_of k (some ks) [] = record { ssl_key_ring = []; fips_enabled = codes "NO" }
settings_of k (some ks) (c ∷ key_label) = record {
  ssl_key_ring = ring_of ks (list_all_certificates k ks);
  fips_enabled = if ks.fips_enabled then codes "YES" else codes "NO";
}

-- `configureTLSDev`
abbrev pub configure_tls_dev : TemplateWorld → Environment → Disk → Outcome
configure_tls_dev tw env d =
    if text_eq (getenv env (codes "MQ_DEV")) (codes "true")
    then process_template_file tw (codes "/etc/mqm/20-dev-tls.mqsc.tpl")
        (codes "/run/20-dev-tls.mqsc") [] d
    else (d, none)

abbrev pub mqsc_values : Text → Settings → List (Text × Text)
mqsc_values key_label settings =
    (codes "SSLKeyR", settings.ssl_key_ring)
    ∷ (codes "CertificateLabel", key_label)
    ∷ (codes "SSLFips", settings.fips_enabled)
    ∷ []

abbrev pub then_dev : TemplateWorld → Environment → Bool → Outcome → Outcome
then_dev tw env dev (d, some e) = (d, some e)
then_dev tw env dev (d, none) = if dev then configure_tls_dev tw env d else (d, none)

-- `ConfigureTLS`
unfoldable pub configure_tls :
    TemplateWorld → KeyWorld → Environment → Option KeyStore → Text → Bool → Disk → Outcome
unfolding process_template_file list_all_certificates has_suffix text_eq
configure_tls tw k env keystore key_label dev_mode d =
    then_dev tw env (dev_mode && not (is_empty key_label)) (
      process_template_file tw (codes "/etc/mqm/15-tls.mqsc.tpl") (codes "/run/15-tls.mqsc")
        (mqsc_values key_label (settings_of k keystore key_label)) d)

-- The errors of the configuration of the web server, and `no_initial_key`, the panic of a random key that could not be made.
pub data WebError : Type 0 where
  keystore_not_made certificate_not_made no_keystore no_truststore no_initial_key no_key_file
        no_template :
      WebError

-- The initial key: the valid part of the file, if it has one, or else a random key.
abbrev pub or_random : (ℕ → List ℕ) → Option Text × Text → Option Text
or_random read (some key, buffer) = some key
or_random read (none, buffer) = generate_random_password read

abbrev pub initial_key : (ℕ → List ℕ) → Option Text → Option Text
initial_key read none = generate_random_password read
initial_key read (some file) = or_random read (trim_key file)

abbrev pub file_of : Disk → Text → Option Text
file_of d path = if d.fails read_file path then none else d.content path

-- A password that cannot be encoded is replaced by an empty one.
abbrev pub or_empty_password : Result SecurityError Text → Text
or_empty_password (ok password) = password
or_empty_password (err e) = []

abbrev pub truststore_ref : Bool → Text
truststore_ref true = codes "MQWebTrustStore"
truststore_ref false = codes "MQWebKeyStore"

abbrev pub template_error : Outcome → Disk × Option WebError
template_error (d, none) = (d, none)
template_error (d, some e) = (d, some no_template)

abbrev pub write_tls_xml : TemplateWorld → Text → Text → Text → Disk → Disk × Option WebError
write_tls_xml tw password webkeystore ref d = template_error (
    process_template_file tw
      (codes "/etc/mqm/web/installations/Installation1/servers/mqweb/tls.xml.tpl")
      (codes "/run/tls.xml")
      ((codes "password", password)
        ∷ (codes "webKeystore", webkeystore)
        ∷ (codes "webTruststoreRef", ref)
        ∷ [])
      d)

abbrev pub with_key_file :
    TemplateWorld
    → Text
    → Text
    → Text
    → Result SecurityError (Unit {0})
    → Disk
    → Disk × Option WebError
with_key_file tw password webkeystore ref (err e) d = (d, some no_key_file)
with_key_file tw password webkeystore ref (ok u) d = write_tls_xml tw password webkeystore ref d

abbrev pub with_initial_key :
    TemplateWorld
    → SecurityUtility
    → Text
    → Text
    → Text
    → Option Text
    → Disk
    → Disk × Option WebError
with_initial_key tw u password webkeystore ref none d = (d, some no_initial_key)
with_initial_key tw u password webkeystore ref (some key) d =
    with_key_file tw (or_empty_password (encode_secrets u password true)) webkeystore ref
      (generate_liberty_aes_key_file u key) d

-- The web server has an identity: a label, or the name of a host to make a certificate for.
abbrev pub has_identity : Environment → Text → Bool
has_identity env key_label =
    not (is_empty key_label)
    || not (is_empty (getenv env (codes "MQ_GENERATE_CERTIFICATE_HOSTNAME")))

-- `ConfigureWebTLS`, given the random bytes, the password of the truststore and whether it trusts a certificate.
unfoldable pub configure_web_tls :
    TemplateWorld
    → SecurityUtility
    → (ℕ → List ℕ)
    → Environment
    → Text
    → Text
    → Text
    → Bool
    → Disk
    → Disk × Option WebError
unfolding process_template_file generate_random_password trim_key
configure_web_tls tw u read env key_label webkeystore password trusts d =
    if has_identity env key_label
    then with_initial_key tw u password webkeystore (truststore_ref trusts)
        (initial_key read (file_of d (codes "/run/secrets/initial.key"))) d
    else (d, none)

-- `ConfigureWebKeystore`: the name of the key store or an error, and what has been done.
pub record WebKeystore : Type 0 where
  pub result : Result WebError Text
  pub effects : List Effect

abbrev pub web_keystore_name : Text → Text
web_keystore_name [] = codes "default.p12"
web_keystore_name (c ∷ key_label) = (c ∷ key_label) ++ codes ".p12"

abbrev pub check_truststore : KeyWorld → Text → Text → List Effect → WebKeystore
check_truststore k truststore name effects =
    if is_there (k.stat truststore)
    then record { result = ok name; effects = effects }
    else record { result = err no_truststore; effects = effects }

abbrev pub self_signed : KeyWorld → KeyStore → Text → Text → Text → WebKeystore
self_signed k ks truststore name hostname =
    let made = create k ks in
    let certified =
      create_self_signed_certificate k ks (codes "default") (codes "CN=" ++ hostname) hostname in
    if not made.succeeded
    then record { result = err keystore_not_made; effects = made.effects }
    else if not certified.succeeded
    then record { result = err certificate_not_made; effects = made.effects ++ certified.effects }
    else check_truststore k truststore name (made.effects ++ certified.effects)

unfoldable pub configure_web_keystore :
    KeyWorld → Environment → Bool → Text → Text → Text → WebKeystore
unfolding create clean_path
configure_web_keystore k env fips truststore password key_label =
    let name = web_keystore_name key_label in
    let file = clean_path (keystore_dir_default ∷ name ∷ []) in
    let made =
      self_signed k (new_pkcs12_key_store file password fips) truststore name
        (getenv env (codes "MQ_GENERATE_CERTIFICATE_HOSTNAME")) in
    if is_empty key_label
    then made
    else if is_there (k.stat file)
    then check_truststore k truststore name []
    else record { result = err no_keystore; effects = [] }
