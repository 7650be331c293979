-- ===== src/Tls/Certificates.antt =====
-- The certificates of a key store: each is known once, by its fingerprint.
use docker_local.Common.{
  ℕ, ◌+◌, Bool, true, false, not, Option, none, some, List, [], ◌∷◌, ◌++◌, any, Result, ok, err,
  if◌then◌else◌,
}
use docker_local.Common.Text.{Text, codes, text_eq, has_suffix, trim_of, trim_space}
use docker_local.Common.Decimal.{decimal}
use docker_local.Paths.Clean.{clean_path}
use docker_local.Volumes.Clean.{Found, there, missing, unknown}
use docker_local.Keystore.Commands.{
  KeyStore, KeyWorld, Outcome, remove_file, nothing, behind, rename_certificate, add_no_label,
}
use docker_local.Keystore.Listing.{list_all_certificates}
use docker_local.Tls.Store.{
  Crypto, TlsWorld, KeyStoreData, TlsStore, TlsError, unreadable, unparsable, not_written,
  key_command, nil_pointer, unending, M, ◌>>=◌, ◌>>◌, return, fail, guard, need, perform,
}
use docker_local.Tls.Blocks.{blocks_of}

module _ {Block Key Certificate : Type 0} (x : Crypto Block Key Certificate) where
  -- `getCertificateFingerprint`
  abbrev pub print_of : Option Certificate → Option Text
  print_of none = none
  print_of (some certificate) = some (x.fingerprint certificate)

  abbrev pub get_certificate_fingerprint : Block → Option Text
  get_certificate_fingerprint block = print_of (x.parse_certificate block)

  abbrev pub add_unknown : Block → Bool → Text → KeyStoreData Block Key → KeyStoreData Block Key
  add_unknown block to_keystore sha d = record d {
    trusted_certs = if to_keystore then d.trusted_certs ++ block ∷ [] else d.trusted_certs;
    known_finger_prints = d.known_finger_prints ++ sha ∷ [];
  }

  unfoldable pub is_known : Text → List Text → Bool
  unfolding text_eq
  is_known sha prints = any (text_eq sha) prints

  abbrev pub add_print :
      Block
      → Bool
      → KeyStoreData Block Key
      → Option Text
      → Result TlsError (Bool × KeyStoreData Block Key)
  add_print block to_keystore d none = err unparsable
  add_print block to_keystore d (some sha) = ok (
    not (is_known sha d.known_finger_prints),
    if is_known sha d.known_finger_prints then d else add_unknown block to_keystore sha d,
  )

  -- `addToKnownCertificates`: was it new, and what the key store knows then.
  unfoldable pub add_to_known_certificates :
      Block → Bool → KeyStoreData Block Key → Result TlsError (Bool × KeyStoreData Block Key)
  unfolding is_known
  add_to_known_certificates block to_keystore d =
      add_print block to_keystore d (get_certificate_fingerprint block)

  -- The same on the two key stores of the state.
  abbrev pub put_keystore :
      TlsStore Block Key
      → Result TlsError (Bool × KeyStoreData Block Key)
      → Result TlsError (Bool × TlsStore Block Key)
  put_keystore s (ok (new, d)) = ok (new, record s { keystore = d })
  put_keystore s (err e) = err e

  abbrev pub put_truststore :
      TlsStore Block Key
      → Result TlsError (Bool × KeyStoreData Block Key)
      → Result TlsError (Bool × TlsStore Block Key)
  put_truststore s (ok (new, d)) = ok (new, record s { truststore = d })
  put_truststore s (err e) = err e

  abbrev pub know_in_keystore : Block → Bool → M Block Key Bool
  know_in_keystore block to_keystore s =
      put_keystore s (add_to_known_certificates block to_keystore s.keystore)

  -- The truststore is left out where there is none.
  abbrev pub is_made : Option KeyStore → Bool
  is_made none = false
  is_made (some ks) = true

  abbrev pub know_in_truststore : Block → M Block Key Bool
  know_in_truststore block s =
      if is_made s.truststore.keystore
      then put_truststore s (add_to_known_certificates block true s.truststore)
      else ok (false, s)

  -- `processTrustCertificates`: one block, the blocks of a file, the files of a set, and the sets.
  unfoldable pub trust_blocks : List Block → M Block Key (Unit {0})
  unfolding add_to_known_certificates
  trust_blocks [] = return tt
  trust_blocks (block ∷ bs) = do
    _ ← know_in_keystore block true
    _ ← know_in_truststore block
    trust_blocks bs

  abbrev pub trust_file : TlsWorld → Text → M Block Key (Unit {0})
  trust_file w path = do
    file ← need unreadable (w.read_file path)
    bs ← need unending (blocks_of x.decode file)
    trust_blocks bs

  unfoldable pub trust_files : TlsWorld → Text → Text → List Text → M Block Key (Unit {0})
  unfolding trust_blocks has_suffix clean_path
  trust_files w trust_dir set [] = return tt
  trust_files w trust_dir set (key ∷ keys) = do
    if has_suffix key (codes ".crt")
        then trust_file w (clean_path (trust_dir ∷ set ∷ key ∷ []))
        else return tt
    trust_files w trust_dir set keys

  unfoldable pub trust_sets : TlsWorld → Text → List Text → M Block Key (Unit {0})
  unfolding trust_files
  trust_sets w trust_dir [] = return tt
  trust_sets w trust_dir (set ∷ sets) = do
    trust_files w trust_dir set (w.read_dir (clean_path (trust_dir ∷ set ∷ [])))
    trust_sets w trust_dir sets

  -- The temporary file of `addCertificatesToTruststore` and `addCertificatesToCMSKeystore`.
  abbrev pub fresh_file : Text → KeyWorld → Outcome
  fresh_file path k = fresh (k.stat path)
    where
      fresh : Found → Outcome
      fresh there = behind (remove_file path) (nothing (not (k.remove_fails path)))
      fresh missing = nothing true
      fresh unknown = nothing true

  abbrev pub write_certificates_to_file : TlsWorld → Text → M Block Key (Unit {0})
  write_certificates_to_file w path = guard (not (w.write_fails path)) not_written

  -- The labels Trust0, Trust1, and so on.
  unfoldable pub relabel_all : TlsWorld → KeyStore → ℕ → List Text → M Block Key (Unit {0})
  unfolding decimal trim_of trim_space rename_certificate
  relabel_all w ks i [] = return tt
  relabel_all w ks i (certificate ∷ certificates) = do
    perform w (λ k.
        rename_certificate k ks (trim_space (trim_of certificate (codes "\"")))
          (codes "Trust" ++ decimal i))
    relabel_all w ks (i + 1) certificates

  -- An answer with no certificate counts as none.
  abbrev pub some_certificates : Option (List Text) → Option (List Text)
  some_certificates none = none
  some_certificates (some []) = none
  some_certificates (some (c ∷ cs)) = some (c ∷ cs)

  abbrev pub list_certificates : TlsWorld → KeyStore → M Block Key (List Text)
  list_certificates w ks s =
      need key_command (some_certificates (list_all_certificates (w.keys s.done) ks)) s

  -- `addCertificatesToTruststore`
  unfoldable pub add_certificates_to_truststore : TlsWorld → KeyStore → M Block Key (Unit {0})
  unfolding relabel_all list_all_certificates
  add_certificates_to_truststore w ks = do
    perform w (fresh_file (codes "/tmp/trust.pem"))
    write_certificates_to_file w (codes "/tmp/trust.pem")
    perform w (λ k. add_no_label k ks (codes "/tmp/trust.pem"))
    certificates ← list_certificates w ks
    relabel_all w ks 0 certificates

  -- `addCertificatesToCMSKeystore`
  abbrev pub add_certificates_to_cms_keystore : TlsWorld → KeyStore → M Block Key (Unit {0})
  add_certificates_to_cms_keystore w ks = do
    perform w (fresh_file (codes "/tmp/cmsTrust.pem"))
    write_certificates_to_file w (codes "/tmp/cmsTrust.pem")
    perform w (λ k. add_no_label k ks (codes "/tmp/cmsTrust.pem"))

  -- The two calls, where there are certificates to add. Without a key store the second panics.
  abbrev pub is_filled : List Block → Bool
  is_filled [] = false
  is_filled (b ∷ bs) = true

  abbrev pub add_trusted : TlsWorld → Option KeyStore → Bool → M Block Key (Unit {0})
  add_trusted w none filled = return tt
  add_trusted w (some ks) filled = if filled then add_certificates_to_truststore w ks else return tt

  abbrev pub add_to_cms : TlsWorld → Option KeyStore → Bool → M Block Key (Unit {0})
  add_to_cms w ks false = return tt
  add_to_cms w none true = fail nil_pointer
  add_to_cms w (some ks) true = add_certificates_to_cms_keystore w ks

  abbrev pub fill_truststore : TlsWorld → M Block Key (Unit {0})
  fill_truststore w s = add_trusted w s.truststore.keystore (is_filled s.truststore.trusted_certs) s

  abbrev pub fill_keystore : TlsWorld → M Block Key (Unit {0})
  fill_keystore w s = add_to_cms w s.keystore.keystore (is_filled s.keystore.trusted_certs) s

  -- `processTrustCertificates`
  unfoldable pub process_trust_certificates : TlsWorld → Text → M Block Key (Unit {0})
  unfolding trust_sets add_certificates_to_truststore
  process_trust_certificates w trust_dir = do
    trust_sets w trust_dir (w.read_dir trust_dir)
    fill_truststore w
    fill_keystore w
