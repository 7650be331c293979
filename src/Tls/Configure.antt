-- ===== src/Tls/Configure.antt =====
-- `processKeys` and the functions that configure the key stores.
use docker_local.Common.{
  Bool, true, false, ◌&&◌, ◌||◌, not, Option, none, some, List, [], ◌∷◌, ◌++◌, any, Result, ok, err,
  if◌then◌else◌,
}
use docker_local.Common.Text.{Text, codes, text_eq, has_suffix, is_empty, trim_of}
use docker_local.Paths.Clean.{clean_path}
use docker_local.Keystore.Commands.{
  KeyStore, import, rename_certificate, new_cms_key_store, new_pkcs12_key_store, create,
}
use docker_local.Keystore.Listing.{get_certificate_labels}
use docker_local.Tls.Store.{
  Crypto, TlsWorld, KeyStoreData, TlsStore, TlsError, label_of_truststore, no_public_certificate,
  same_subject, not_encoded, not_written, key_command, not_relabelled, nil_pointer, not_made,
  wrong_labels, M, ◌>>=◌, ◌>>◌, return, fail, guard, need, perform,
}
use docker_local.Tls.Certificates.{process_trust_certificates}
use docker_local.Tls.Keys.{
  truststore_label, Private, Public, process_private_key, certificate_files, process_certificates,
  are_valid,
}

-- `relabelCertificate`: the first label that no key has yet.
unfoldable pub new_one : List Text → List Text → Option Text
unfolding trim_of text_eq
new_one key_labels [] = none
new_one key_labels (label ∷ labels) =
    let rest = new_one key_labels labels in
    if any (text_eq (trim_of label (codes "\""))) key_labels
    then rest
    else some (trim_of label (codes "\""))

-- The default and HA directories.
abbrev pub keystore_dir_default : Text
keystore_dir_default = codes "/run/runmqserver/tls/"

abbrev pub keystore_dir_ha : Text
keystore_dir_ha = codes "/run/runmqserver/ha/tls/"

-- A label is set once.
abbrev pub key_label_of : Text → Text → Text
key_label_of key_label name = if is_empty key_label then name else key_label

-- `haveKeysAndCerts`
abbrev pub is_key_or_certificate : Text → Bool
is_key_or_certificate name = has_suffix name (codes ".key") || has_suffix name (codes ".crt")

unfoldable pub have_keys_and_certs : TlsWorld → Text → Bool
unfolding has_suffix clean_path
have_keys_and_certs w key_dir =
    any (λ set. any is_key_or_certificate (w.read_dir (clean_path (key_dir ∷ set ∷ []))))
      (w.read_dir key_dir)

module _ {Block Key Certificate : Type 0} (x : Crypto Block Key Certificate) where
  -- The call that a key store has to be there for; without one it panics.
  abbrev pub with_store : {A : Type 0} → (KeyStore → M Block Key A) → M Block Key A
  with_store use_store s = (need nil_pointer s.keystore.keystore >>= use_store) s

  abbrev pub add_label : Text → M Block Key (Unit {0})
  add_label label s = ok (
    tt,
    record s { keystore = record s.keystore { key_labels = s.keystore.key_labels ++ label ∷ [] } },
  )

  abbrev pub labels_now : TlsWorld → KeyStore → M Block Key (List Text)
  labels_now w ks s = need key_command (get_certificate_labels (w.keys s.done) ks) s

  abbrev pub unlabelled : List Text → M Block Key Text
  unlabelled labels s = need not_relabelled (new_one s.keystore.key_labels labels) s

  unfoldable pub relabel_certificate : TlsWorld → KeyStore → Text → M Block Key (Unit {0})
  unfolding new_one rename_certificate get_certificate_labels
  relabel_certificate w ks new_label = do
    labels ← labels_now w ks
    label ← unlabelled labels
    perform w (λ k. rename_certificate k ks label new_label)
    add_label new_label

  -- A key that is not known yet: it is encoded, written and imported.
  abbrev pub p12_path : Text → Text → Text
  p12_path keystore_dir set = clean_path (keystore_dir ∷ (set ++ codes ".p12") ∷ [])

  unfoldable pub load_set :
      TlsWorld → Text → Text → Key → Option Certificate → List Certificate → M Block Key (Unit {0})
  unfolding clean_path are_valid relabel_certificate
  load_set w keystore_dir set key none issuers = fail no_public_certificate
  load_set w keystore_dir set key (some personal) issuers = do
    guard (are_valid x w.env personal issuers) same_subject
    _ ← need not_encoded (x.encode key personal issuers)
    guard (not (w.write_fails (p12_path keystore_dir set))) not_written
    with_store (λ ks. perform w (λ k. import k ks (p12_path keystore_dir set) ks.password))
    with_store (λ ks. relabel_certificate w ks set)

  abbrev pub is_old : Private Key → Public Certificate → Bool
  is_old private public = not (is_empty private.previous_label) && not public.new

  -- One set, with the label so far; `none` for the key is the set that is skipped.
  abbrev pub use_key :
      TlsWorld → Text → Text → Text → Text → List Text → Private Key → Option Key → M Block Key Text
  use_key w keystore_dir key_dir key_label set names private none = return key_label
  use_key w keystore_dir key_dir key_label set names private (some key) = do
    public ← process_certificates x w key_dir set private.key_prefix names
    if is_old private public then return (key_label_of key_label private.previous_label) else (do
      load_set w keystore_dir set key public.certificate public.ca_certificates
      return (key_label_of key_label set))

  abbrev pub process_set : TlsWorld → Text → Text → Text → Text → List Text → M Block Key Text
  process_set w keystore_dir key_dir key_label set names = do
    guard (not (text_eq set truststore_label)) label_of_truststore
    private ← process_private_key x w key_dir set names
    use_key w keystore_dir key_dir key_label set names private private.key

  unfoldable pub process_sets : TlsWorld → Text → Text → Text → List Text → M Block Key Text
  unfolding process_private_key certificate_files clean_path text_eq load_set
  process_sets w keystore_dir key_dir key_label [] = return key_label
  process_sets w keystore_dir key_dir key_label (set ∷ sets) = do
    next ←
        process_set w keystore_dir key_dir key_label set
          (w.read_dir (clean_path (key_dir ∷ set ∷ [])))
    process_sets w keystore_dir key_dir next sets

  -- `processKeys`
  unfoldable pub process_keys : TlsWorld → Text → Text → M Block Key Text
  unfolding process_sets
  process_keys w keystore_dir key_dir = process_sets w keystore_dir key_dir [] (w.read_dir key_dir)

  -- `generateAllKeystores`, given the password and whether FIPS is on.
  abbrev pub no_data : KeyStoreData Block Key
  no_data = record {
    keystore = none;
    trusted_certs = [];
    known_finger_prints = [];
    key_labels = [];
    key_label_lookup = [];
  }

  abbrev pub no_stores : TlsStore Block Key
  no_stores = record { keystore = no_data; truststore = no_data; done = [] }

  abbrev pub set_keystore : KeyStore → M Block Key (Unit {0})
  set_keystore ks s = ok (tt, record s { keystore = record s.keystore { keystore = some ks } })

  abbrev pub set_truststore : KeyStore → M Block Key (Unit {0})
  set_truststore ks s =
      ok (tt, record s { truststore = record s.truststore { keystore = some ks } })

  abbrev pub make_keystore : TlsWorld → KeyStore → M Block Key (Unit {0})
  make_keystore w ks = do perform w (λ k. create k ks); set_keystore ks

  abbrev pub make_truststore : TlsWorld → KeyStore → M Block Key (Unit {0})
  make_truststore w ks = do perform w (λ k. create k ks); set_truststore ks

  unfoldable pub generate_all_keystores :
      TlsWorld → Text → Bool → Text → Bool → Bool → M Block Key (Unit {0})
  unfolding create clean_path
  generate_all_keystores w password fips keystore_dir create_cms p12_required = do
    guard (not (w.mkdir_fails keystore_dir)) not_made
    if create_cms
        then make_keystore w
            (new_cms_key_store (clean_path (keystore_dir ∷ codes "key.kdb" ∷ [])) password fips)
        else return tt
    if p12_required
        then make_truststore w (
            new_pkcs12_key_store (clean_path (keystore_dir ∷ codes "trust.p12" ∷ [])) password fips)
        else return tt

  -- `configureTLSKeystores`
  unfoldable pub process_dirs : TlsWorld → Text → List Text → M Block Key (List Text)
  unfolding process_keys
  process_dirs w keystore_dir [] = return []
  process_dirs w keystore_dir (key_dir ∷ key_dirs) = do
    label ← process_keys w keystore_dir key_dir
    labels ← process_dirs w keystore_dir key_dirs
    return (label ∷ labels)

  abbrev pub no_labels : List Text → List Text
  no_labels [] = []
  no_labels (key_dir ∷ key_dirs) = [] ∷ no_labels key_dirs

  abbrev pub label_dirs : TlsWorld → Text → List Text → Option KeyStore → M Block Key (List Text)
  label_dirs w keystore_dir key_dirs none = return (no_labels key_dirs)
  label_dirs w keystore_dir key_dirs (some ks) = process_dirs w keystore_dir key_dirs

  abbrev pub label_if_made : TlsWorld → Text → List Text → M Block Key (List Text)
  label_if_made w keystore_dir key_dirs s = label_dirs w keystore_dir key_dirs s.keystore.keystore s

  unfoldable pub trust_dirs_of : TlsWorld → List Text → M Block Key (Unit {0})
  unfolding process_trust_certificates
  trust_dirs_of w [] = return tt
  trust_dirs_of w (trust_dir ∷ trust_dirs) = do
    process_trust_certificates x w trust_dir
    trust_dirs_of w trust_dirs

  abbrev pub keystores_of :
      TlsWorld → Text → Bool → Text → List Text → List Text → Bool → M Block Key (List Text)
  keystores_of w password fips keystore_dir key_dirs trust_dirs p12_required = do
    generate_all_keystores w password fips keystore_dir
        (any (have_keys_and_certs w) (key_dirs ++ trust_dirs)) p12_required
    labels ← label_if_made w keystore_dir key_dirs
    trust_dirs_of w trust_dirs
    return labels

  unfoldable pub configure_tls_keystores :
      TlsWorld
      → Text
      → Bool
      → Text
      → List Text
      → List Text
      → Bool
      → Result TlsError (List Text × TlsStore Block Key)
  unfolding generate_all_keystores have_keys_and_certs process_dirs trust_dirs_of
  configure_tls_keystores w password fips keystore_dir key_dirs trust_dirs p12_required =
      keystores_of w password fips keystore_dir key_dirs trust_dirs p12_required no_stores

  -- `ConfigureDefaultTLSKeystores` and `ConfigureHATLSKeystore`: the labels of the result.
  abbrev pub first_label :
      Result TlsError (List Text × TlsStore Block Key) → Result TlsError (Text × TlsStore Block Key)
  first_label (ok ([], s)) = ok ([], s)
  first_label (ok (label ∷ labels, s)) = ok (label, s)
  first_label (err e) = err e

  unfoldable pub configure_default_tls_keystores :
      TlsWorld → Text → Bool → Result TlsError (Text × TlsStore Block Key)
  unfolding configure_tls_keystores
  configure_default_tls_keystores w password fips = first_label (
      configure_tls_keystores w password fips keystore_dir_default (codes "/etc/mqm/pki/keys" ∷ [])
        (codes "/etc/mqm/pki/trust" ∷ []) true)

  abbrev pub two_labels :
      Result TlsError (List Text × TlsStore Block Key)
      → Result TlsError ((Text × Text) × TlsStore Block Key)
  two_labels (ok (instance_label ∷ group_label ∷ [], s)) = ok ((instance_label, group_label), s)
  two_labels (ok (labels, s)) = err wrong_labels
  two_labels (err e) = err e

  unfoldable pub configure_ha_tls_keystore :
      TlsWorld → Text → Bool → Result TlsError ((Text × Text) × TlsStore Block Key)
  unfolding configure_tls_keystores
  configure_ha_tls_keystore w password fips = two_labels (
      configure_tls_keystores w password fips keystore_dir_ha
        (codes "/etc/mqm/ha/pki/keys" ∷ codes "/etc/mqm/groupha/pki/keys" ∷ [])
        (codes "/etc/mqm/groupha/pki/trust" ∷ []) false)
