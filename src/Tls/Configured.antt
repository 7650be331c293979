-- ===== src/Tls/Configured.antt =====
-- What `configureTLSKeystores` leaves in the key stores, and the labels that it returns.
use docker_local.Common.{
  ◌≡◌, refl, sym, subst, ap, ◌∙◌, Bool, true, false, Option, none, some, List, [], ◌∷◌, ◌++◌, any,
  any-append, all, ok, Bool-cases, inl, inr, arith,
}
use docker_local.Common.Text.{Text, codes, has_suffix}
use docker_local.Paths.Clean.{clean_path}
use docker_local.Keystore.Commands.{KeyStore}
use docker_local.Tls.Store.{Crypto, TlsWorld, TlsStore, ◌>>=◌, ◌>>◌, return}
use docker_local.Tls.Certificates.{
  is_made, trust_files, trust_sets, is_filled, add_trusted, add_to_cms, fill_truststore,
  fill_keystore, process_trust_certificates,
}
use docker_local.Tls.Configure.{
  is_key_or_certificate, have_keys_and_certs, no_stores, process_dirs, no_labels, label_dirs,
  label_if_made, trust_dirs_of, configure_tls_keystores,
}
use docker_local.Tls.Distinct.{IsDistinct}
use docker_local.Tls.Safely.{Good, Safe, >>=-Safe}
use docker_local.Tls.Trusted.{Lawful, IsSound, seq, process_trust_certificates-Keeps}
use docker_local.Tls.Labelled.{is_free, free_empty, Sound, SoundFree}
use docker_local.Tls.Accepted.{process_keys-Safe}
use docker_local.Tls.Made.{
  IsEmpty, IsBare, IsEmpty-IsDistinct, generate_all_keystores-Sound, generate_all_keystores-Bare,
}

module _ {Block Key Certificate : Type 0} (x : Crypto Block Key Certificate) where
  -- No label is the truststore's, no fingerprint is known twice, and no certificate is trusted twice.
  abbrev pub Configured : List Text → TlsStore Block Key → Type 0
  Configured labels s =
      (all is_free labels ≡ true) × IsDistinct x s.keystore × IsDistinct x s.truststore

  -- With a key store for the keys.
  abbrev SoundLabels : List Text → TlsStore Block Key → Type 0
  SoundLabels labels s = IsSound x s × (all is_free labels ≡ true)

  process_dirs-Safe :
      (w : TlsWorld) (dir : Text) (key_dirs : List Text)
      → Safe (Sound x) (process_dirs x w dir key_dirs) SoundLabels
  unfolding process_dirs
  process_dirs-Safe w dir [] = λ s i. (i, refl)
  process_dirs-Safe w dir (key_dir ∷ key_dirs) =
      >>=-Safe (Sound x) (SoundFree x) SoundLabels _ _ (process_keys-Safe x w dir key_dir)
        (λ label s i.
          >>=-Safe (Sound x) SoundLabels SoundLabels _ (λ labels. return (label ∷ labels))
            (process_dirs-Safe w dir key_dirs) (λ labels t j. (j.0, rw (i.1, j.1) refl)) s i.0)

  trust_dirs_of-Keeps :
      (w : TlsWorld) (trust_dirs : List Text)
      → Safe (Sound x) (trust_dirs_of x w trust_dirs) (λ u. Sound x)
  unfolding trust_dirs_of
  trust_dirs_of-Keeps w [] = λ s i. i
  trust_dirs_of-Keeps w (trust_dir ∷ trust_dirs) =
      seq x _ _ (process_trust_certificates-Keeps x w trust_dir)
        (λ u. trust_dirs_of-Keeps w trust_dirs)

  label_dirs-Sound :
      (w : TlsWorld) (dir : Text) (key_dirs : List Text) (ks : Option KeyStore)
      → is_made x ks ≡ true
      → Safe (Sound x) (label_dirs x w dir key_dirs ks) SoundLabels
  label_dirs-Sound w dir key_dirs none m = cc
  label_dirs-Sound w dir key_dirs (some ks) m = process_dirs-Safe w dir key_dirs

  then_trusted-Sound :
      (w : TlsWorld) (trust_dirs labels : List Text)
      → Safe (SoundLabels labels) (trust_dirs_of x w trust_dirs >> return labels) Configured
  then_trusted-Sound w trust_dirs labels s (i, f) =
      >>=-Safe (Sound x) (λ u. Sound x) Configured _ (λ u. return labels)
        (trust_dirs_of-Keeps w trust_dirs)
        (λ u t j. (f, j.keystore_distinct, j.truststore_distinct)) s i

  -- Without one: no file of the directories is a certificate.
  no_trust_files :
      (w : TlsWorld) (trust_dir set : Text) (keys : List Text)
      → any is_key_or_certificate keys ≡ false
      → (s : TlsStore Block Key) → trust_files x w trust_dir set keys s ≡ ok (tt, s)
  unfolding trust_files
  no_trust_files w trust_dir set [] e = λ s. refl
  no_trust_files w trust_dir set (key ∷ keys) e = λ s.
      let other : has_suffix key (codes ".crt") ≡ false = ground arith in
      rw other (no_trust_files w trust_dir set keys (ground arith) s)

  no_trust_sets :
      (w : TlsWorld) (trust_dir : Text) (sets : List Text)
      → any (λ set. any is_key_or_certificate (w.read_dir (clean_path (trust_dir ∷ set ∷ [])))) sets
        ≡ false
      → (s : TlsStore Block Key) → trust_sets x w trust_dir sets s ≡ ok (tt, s)
  unfolding trust_sets
  no_trust_sets w trust_dir [] e = λ s. refl
  no_trust_sets w trust_dir (set ∷ sets) e = λ s.
      let files =
        no_trust_files w trust_dir set (w.read_dir (clean_path (trust_dir ∷ set ∷ [])))
          (ground arith) s in
      let rest = no_trust_sets w trust_dir sets (ground arith) s in rw files rest

  add_trusted_none :
      (w : TlsWorld) (ks : Option KeyStore) (s : TlsStore Block Key)
      → add_trusted x w ks false s ≡ ok (tt, s)
  add_trusted_none w none s = refl
  add_trusted_none w (some ks) s = refl

  no_fill_truststore :
      (w : TlsWorld) (s : TlsStore Block Key)
      → s.truststore.trusted_certs ≡ []
      → fill_truststore x w s ≡ ok (tt, s)
  no_fill_truststore w s e =
      ap (λ b. add_trusted x w s.truststore.keystore (is_filled x b) s) e
      ∙ add_trusted_none w s.truststore.keystore s

  no_fill_keystore :
      (w : TlsWorld) (s : TlsStore Block Key)
      → s.keystore.trusted_certs ≡ []
      → fill_keystore x w s ≡ ok (tt, s)
  no_fill_keystore w s e = ap (λ b. add_to_cms x w s.keystore.keystore (is_filled x b) s) e

  no_trust :
      (w : TlsWorld) (trust_dir : Text)
      → have_keys_and_certs w trust_dir ≡ false
      → Safe (IsBare x) (process_trust_certificates x w trust_dir) (λ u. (IsBare x))
  unfolding process_trust_certificates have_keys_and_certs
  no_trust w trust_dir e s (i, n) =
      let sets = no_trust_sets w trust_dir (w.read_dir trust_dir) e s in
      let truststore = no_fill_truststore w s i.trusted_p12 in
      let keystore = no_fill_keystore w s i.trusted in rw (sets, truststore, keystore) (i, n)

  no_trust_dirs :
      (w : TlsWorld) (trust_dirs : List Text)
      → any (have_keys_and_certs w) trust_dirs ≡ false
      → Safe (IsBare x) (trust_dirs_of x w trust_dirs) (λ u. (IsBare x))
  unfolding trust_dirs_of
  no_trust_dirs w [] e = λ s i. i
  no_trust_dirs w (trust_dir ∷ trust_dirs) e =
      >>=-Safe (IsBare x) (λ u. (IsBare x)) (λ u. (IsBare x)) _ _
        (no_trust w trust_dir (ground arith)) (λ u. no_trust_dirs w trust_dirs (ground arith))

  no_labels-free : (key_dirs : List Text) → all is_free (no_labels x key_dirs) ≡ true
  no_labels-free [] = refl
  no_labels-free (key_dir ∷ key_dirs) = rw (free_empty, no_labels-free key_dirs) refl

  without_keystore :
      (w : TlsWorld) (dir : Text) (key_dirs trust_dirs : List Text)
      → any (have_keys_and_certs w) (key_dirs ++ trust_dirs) ≡ false
      → Safe
          (IsBare x)
          (label_if_made x w dir key_dirs >>= λ labels.
            trust_dirs_of x w trust_dirs >> return labels)
          Configured
  without_keystore w dir key_dirs trust_dirs e s (i, n) =
      let none_trusted : any (have_keys_and_certs w) trust_dirs ≡ false =
        let parts = sym (any-append (have_keys_and_certs w) key_dirs trust_dirs) ∙ e in
        ground arith in
      let finish : Safe (IsBare x) (trust_dirs_of x w trust_dirs >> return (no_labels x key_dirs))
          Configured =
        >>=-Safe (IsBare x) (λ u. (IsBare x)) Configured _ (λ u. return (no_labels x key_dirs))
          (no_trust_dirs w trust_dirs none_trusted)
          (λ u t (j, m).
            let (k, p) = IsEmpty-IsDistinct x t j in (no_labels-free key_dirs, k, p)) in
      subst
        (λ o. Good Configured (
          (label_dirs x w dir key_dirs o >>= λ labels.
          trust_dirs_of x w trust_dirs >> return labels)
            s))
        (sym n) (finish s (i, n))

  beyond_keystore :
      (w : TlsWorld) (dir : Text) (key_dirs trust_dirs : List Text)
      → Safe
          (Sound x)
          (label_if_made x w dir key_dirs >>= λ labels.
            trust_dirs_of x w trust_dirs >> return labels)
          Configured
  beyond_keystore w dir key_dirs trust_dirs =
      >>=-Safe (Sound x) SoundLabels Configured _
        (λ labels. trust_dirs_of x w trust_dirs >> return labels)
        (λ s i. label_dirs-Sound w dir key_dirs s.keystore.keystore i.made s i)
        (λ labels. then_trusted-Sound w trust_dirs labels)

  no_stores-IsEmpty : Lawful x → IsEmpty x (no_stores x)
  no_stores-IsEmpty lawful = record {
    lawful = lawful;
    trusted = refl;
    known = refl;
    looked_up = refl;
    trusted_p12 = refl;
    known_p12 = refl;
  }

  -- Where every private key that can be compared can be the key of a map (an Ed25519 key cannot), and `pem.Decode` leaves less
  -- text than it reads: whatever the directories hold, the key stores are configured without a panic and without an endless loop over
  -- the blocks of a file. The result, if no step fails, has no label of the truststore, and each of the two key stores knows every
  -- fingerprint once and trusts every certificate once.
  pub configure_tls_keystores-Configured :
      Lawful x
      → (w : TlsWorld) (password : Text) (fips : Bool) (dir : Text)
        (key_dirs trust_dirs : List Text) (p12 : Bool)
      → Good Configured (configure_tls_keystores x w password fips dir key_dirs trust_dirs p12)
  unfolding configure_tls_keystores
  configure_tls_keystores-Configured lawful w password fips dir key_dirs trust_dirs p12 =
      elim (Bool-cases (any (have_keys_and_certs w) (key_dirs ++ trust_dirs))) [
        | inl e ↦ rw e (
            >>=-Safe (IsEmpty x) (λ u. Sound x) Configured _ _
              (generate_all_keystores-Sound x w password fips dir p12)
              (λ u. beyond_keystore w dir key_dirs trust_dirs) (no_stores x)
              (no_stores-IsEmpty lawful))
        | inr e ↦ rw e (
            >>=-Safe (IsBare x) (λ u. (IsBare x)) Configured _ _
              (generate_all_keystores-Bare x w password fips dir p12)
              (λ u. without_keystore w dir key_dirs trust_dirs e) (no_stores x)
              (no_stores-IsEmpty lawful, refl))
      ]
