-- ===== src/Tls/Accepted.antt =====
-- The certificates of a set, and the sets of keys in a directory.
use docker_local.Common.{
  ◌≡◌, refl, Bool, true, false, ◌||◌, not, Option, none, some, List, [], ◌∷◌, ◌++◌, Bool-cases, inl,
  inr,
}
use docker_local.Common.Text.{Text, codes, has_prefix, has_suffix, is_empty}
use docker_local.Paths.Clean.{clean_path}
use docker_local.Keystore.Commands.{KeyStore, import, rename_certificate}
use docker_local.Keystore.Listing.{get_certificate_labels}
use docker_local.Tls.Store.{
  Crypto, TlsWorld, TlsStore, TlsError, label_of_truststore, unreadable, unparsable, same_subject,
  not_encoded, not_written, key_command, not_relabelled, nil_pointer, M, ◌>>=◌, ◌>>◌, return, guard,
  need, perform,
}
use docker_local.Tls.Certificates.{is_made}
use docker_local.Tls.Keys.{
  Private, Public, issuer_blocks, issuers_in, public_file, certificate_file, read_certificate,
  certificate_files, are_valid,
}
use docker_local.Tls.Configure.{
  new_one, key_label_of, with_store, add_label, relabel_certificate, p12_path, load_set, is_old,
  use_key, process_set, process_sets, process_keys,
}
use docker_local.Tls.Safely.{never_returns, Good, Safe, >>=-Safe, need-Safe, guard-Safe, if-Safe}
use docker_local.Tls.Trusted.{
  Keeps, seq, performed, blocks_of-Safe, know_in_keystore-Keeps, know_in_truststore-Keeps,
}
use docker_local.Tls.Labelled.{
  is_free, free_empty, Sound, SoundFree, SoundPrivate, process_private_key-Safe,
}

module _ {Block Key Certificate : Type 0} (x : Crypto Block Key Certificate) where
  -- The certificates of a set.
  issuer_blocks-Keeps :
      (public : Public Certificate) (bs : List Block) → Keeps x (issuer_blocks x public bs)
  unfolding issuer_blocks
  issuer_blocks-Keeps public [] = λ s i. i
  issuer_blocks-Keeps public (block ∷ bs) = seq x _ _ (know_in_keystore-Keeps x block false) (λ new.
      seq x _ _ (know_in_truststore-Keeps x block) (λ a.
        seq x _ _ (need-Safe (Sound x) unparsable (x.parse_certificate block) refl) (λ certificate.
          issuer_blocks-Keeps
            (record public {
              ca_certificates = public.ca_certificates ++ certificate ∷ [];
              new = public.new || new;
            })
            bs)))

  issuers_in-Keeps :
      (public : Public Certificate) (file : Text) → Keeps x (issuers_in x public file)
  issuers_in-Keeps public file =
      seq x _ _ (blocks_of-Safe x file) (λ bs. issuer_blocks-Keeps public bs)

  public_file-Keeps :
      (public : Public Certificate) (d : Option (Block × Text)) → Keeps x (public_file x public d)
  public_file-Keeps public none = λ s i. refl
  public_file-Keeps public (some (block, rest)) =
      seq x _ _ (need-Safe (Sound x) unparsable (x.parse_certificate block) refl) (λ certificate.
        seq x _ _ (know_in_keystore-Keeps x block false) (λ new.
          issuers_in-Keeps
            (record public { certificate = some certificate; new = public.new || new }) rest))

  certificate_file-Keeps :
      (own : Bool) (public : Public Certificate) (file : Text)
      → Keeps x (certificate_file x own public file)
  certificate_file-Keeps true public file = public_file-Keeps public (x.decode file)
  certificate_file-Keeps false public file = issuers_in-Keeps public file

  read_certificate-Keeps :
      (w : TlsWorld) (key_dir set key_prefix : Text) (public : Public Certificate) (name : Text)
      → Keeps x (read_certificate x w key_dir set key_prefix public name)
  read_certificate-Keeps w key_dir set key_prefix public name =
      seq x _ _
        (need-Safe (Sound x) unreadable (w.read_file (clean_path (key_dir ∷ set ∷ name ∷ []))) refl)
        (λ file. certificate_file-Keeps (has_prefix name key_prefix) public file)

  certificate_files-Keeps :
      (w : TlsWorld) (key_dir set key_prefix : Text) (public : Public Certificate)
      (names : List Text)
      → Keeps x (certificate_files x w key_dir set key_prefix public names)
  unfolding certificate_files
  certificate_files-Keeps w key_dir set key_prefix public [] = λ s i. i
  certificate_files-Keeps w key_dir set key_prefix public (name ∷ names) =
      seq x _ _
        (if-Safe (Sound x) (λ a. (Sound x)) (has_suffix name (codes ".crt")) _ _
          (read_certificate-Keeps w key_dir set key_prefix public name) (λ s i. i))
        (λ next. certificate_files-Keeps w key_dir set key_prefix next names)

  -- A set whose key is new.
  with_store-Keeps :
      {A : Type 0} (use_store : KeyStore → M Block Key A)
      → ((ks : KeyStore) → Keeps x (use_store ks))
      → Keeps x (with_store x use_store)
  with_store-Keeps use_store h s i = found s.keystore.keystore i.made
    where
      found :
          (o : Option KeyStore)
          → is_made x o ≡ true
          → Good (λ a. (Sound x)) ((need nil_pointer o >>= use_store) s)
      found none m = cc
      found (some ks) m = h ks s i

  add_label-Keeps : (label : Text) → Keeps x (add_label x label)
  add_label-Keeps label s i = record {
    made = i.made;
    keystore_distinct = record {
      once = i.keystore_distinct.once;
      trusted_known = i.keystore_distinct.trusted_known;
      trusted_once = i.keystore_distinct.trusted_once;
    };
    truststore_distinct = i.truststore_distinct;
    named = i.named;
    lawful = i.lawful;
  }

  relabel_certificate-Keeps :
      (w : TlsWorld) (ks : KeyStore) (label : Text) → Keeps x (relabel_certificate x w ks label)
  unfolding relabel_certificate
  relabel_certificate-Keeps w ks label =
      seq x _ _
        (λ s. need-Safe (Sound x) key_command (get_certificate_labels (w.keys s.done) ks) refl s)
        (λ labels.
          seq x _ _
            (λ s. need-Safe (Sound x) not_relabelled (new_one s.keystore.key_labels labels) refl s)
            (λ old.
              seq x _ _ (performed x w (λ k. rename_certificate k ks old label))
                (λ u. add_label-Keeps label)))

  load_set-Keeps :
      (w : TlsWorld) (keystore_dir set : Text) (key : Key) (personal : Option Certificate)
      (issuers : List Certificate)
      → Keeps x (load_set x w keystore_dir set key personal issuers)
  unfolding load_set
  load_set-Keeps w keystore_dir set key none issuers = λ s i. refl
  load_set-Keeps w keystore_dir set key (some personal) issuers =
      seq x _ _ (guard-Safe (Sound x) (are_valid x w.env personal issuers) same_subject refl) (λ u.
        seq x _ _ (need-Safe (Sound x) not_encoded (x.encode key personal issuers) refl) (λ file.
          seq x _ _
            (guard-Safe (Sound x) (not (w.write_fails (p12_path x keystore_dir set))) not_written
              refl)
            (λ u.
              seq x _ _
                (with_store-Keeps
                  (λ ks. perform w (λ k. import k ks (p12_path x keystore_dir set) ks.password))
                  (λ ks.
                    performed x w (λ k. import k ks (p12_path x keystore_dir set) ks.password)))
                (λ u.
                  with_store-Keeps (λ ks. relabel_certificate x w ks set)
                    (λ ks. relabel_certificate-Keeps w ks set)))))

  key_label_of-free :
      (label name : Text)
      → is_free label ≡ true
      → is_free name ≡ true
      → is_free (key_label_of label name) ≡ true
  key_label_of-free label name f g = elim (Bool-cases (is_empty label)) [
    | inl e ↦ rw e g
    | inr e ↦ rw e f
  ]

  give_label : (label : Text) → is_free label ≡ true → Safe (Sound x) (return label) (SoundFree x)
  give_label label f s i = (i, f)

  use_key-Safe :
      (w : TlsWorld) (keystore_dir key_dir label set : Text) (names : List Text)
      (private : Private Key) (key : Option Key)
      → is_free label ≡ true
      → is_free set ≡ true
      → is_free private.previous_label ≡ true
      → Safe (Sound x) (use_key x w keystore_dir key_dir label set names private key) (SoundFree x)
  use_key-Safe w keystore_dir key_dir label set names private none f g h = give_label label f
  use_key-Safe w keystore_dir key_dir label set names private (some key) f g h =
      >>=-Safe (Sound x) (λ a. (Sound x)) (SoundFree x) _ _
        (certificate_files-Keeps w key_dir set private.key_prefix
          (record { certificate = none; ca_certificates = []; new = false }) names)
        (λ public.
          if-Safe (Sound x) (SoundFree x) (is_old x private public) _ _
            (give_label (key_label_of label private.previous_label)
              (key_label_of-free label private.previous_label f h))
            (>>=-Safe (Sound x) (λ a. (Sound x)) (SoundFree x) _ _
              (load_set-Keeps w keystore_dir set key public.certificate public.ca_certificates)
              (λ u. give_label (key_label_of label set) (key_label_of-free label set f g))))

  guarded :
      {A : Type 0} (Q : A → TlsStore Block Key → Type 0) (b : Bool) (e : TlsError)
      (rest : M Block Key A)
      → never_returns e ≡ false
      → (b ≡ true → Safe (Sound x) rest Q)
      → Safe (Sound x) (guard b e >> rest) Q
  guarded Q true e rest h k s i = k refl s i
  guarded Q false e rest h k s i = h

  process_set-Safe :
      (w : TlsWorld) (keystore_dir key_dir label set : Text) (names : List Text)
      → is_free label ≡ true
      → Safe (Sound x) (process_set x w keystore_dir key_dir label set names) (SoundFree x)
  process_set-Safe w keystore_dir key_dir label set names f =
      guarded (SoundFree x) (is_free set) label_of_truststore _ refl (λ g.
        >>=-Safe (Sound x) (SoundPrivate x) (SoundFree x) _ _
          (process_private_key-Safe x w key_dir set names g)
          (λ private s i.
            use_key-Safe w keystore_dir key_dir label set names private private.key f g i.1 s i.0))

  process_sets-Safe :
      (w : TlsWorld) (keystore_dir key_dir label : Text) (sets : List Text)
      → is_free label ≡ true
      → Safe (Sound x) (process_sets x w keystore_dir key_dir label sets) (SoundFree x)
  unfolding process_sets
  process_sets-Safe w keystore_dir key_dir label [] f = give_label label f
  process_sets-Safe w keystore_dir key_dir label (set ∷ sets) f =
      >>=-Safe (Sound x) (SoundFree x) (SoundFree x) _ _
        (process_set-Safe w keystore_dir key_dir label set
          (w.read_dir (clean_path (key_dir ∷ set ∷ []))) f)
        (λ next s i. process_sets-Safe w keystore_dir key_dir next sets i.1 s i.0)

  pub process_keys-Safe :
      (w : TlsWorld) (keystore_dir key_dir : Text)
      → Safe (Sound x) (process_keys x w keystore_dir key_dir) (SoundFree x)
  unfolding process_keys
  process_keys-Safe w keystore_dir key_dir =
      process_sets-Safe w keystore_dir key_dir [] (w.read_dir key_dir) free_empty
