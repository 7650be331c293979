-- ===== src/Tls/Trusted.antt =====
-- The trust certificates, and what holds of the key stores while they are added.
use docker_local.Common.{
  ℕ, ◌+◌, ◌≡◌, refl, ap, ◌∙◌, Bool, true, false, not, Option, none, some, List, [], ◌∷◌, ◌++◌, all,
  Result, ok, err, Bool-cases, inl, inr,
}
use docker_local.Common.Text.{Text, codes, text_eq, has_suffix, trim_of, trim_space}
use docker_local.Common.Decimal.{decimal}
use docker_local.Paths.Clean.{clean_path}
use docker_local.Keystore.Commands.{KeyStore, KeyWorld, Outcome, rename_certificate, add_no_label}
use docker_local.Keystore.Listing.{list_all_certificates}
use docker_local.Tls.Store.{
  Crypto, TlsWorld, PrivateKeyInfo, KeyStoreData, TlsStore, TlsError, unreadable, key_command,
  not_written, unending, M, ◌>>=◌, need, perform,
}
use docker_local.Tls.Blocks.{Shrinks, blocks_of, blocks_of-returns}
use docker_local.Tls.Certificates.{
  add_to_known_certificates, put_keystore, put_truststore, know_in_keystore, is_made,
  know_in_truststore, trust_blocks, trust_file, trust_files, trust_sets, fresh_file,
  write_certificates_to_file, relabel_all, some_certificates, list_certificates,
  add_certificates_to_truststore, add_certificates_to_cms_keystore, is_filled, add_trusted,
  add_to_cms, process_trust_certificates,
}
use docker_local.Tls.Keys.{truststore_label}
use docker_local.Tls.Distinct.{IsDistinct, KnowsIfOk, add_to_known_certificates-Knows}
use docker_local.Tls.Safely.{
  never_returns, Good, Safe, >>=-Safe, need-Safe, guard-Safe, Ignores, perform-Safe, if-Safe,
}

module _ {Block Key Certificate : Type 0} (x : Crypto Block Key Certificate) where
  -- A private key that can be compared can be the key of a map, and `pem.Decode` leaves less text.
  pub record Lawful : Type 0 where
    pub hashes : (key : Key) → x.is_comparable key ≡ true → x.is_hashable key ≡ true
    pub shrinks : Shrinks x.decode

  -- No set of keys has the label of the truststore.
  abbrev pub is_named : (Key × PrivateKeyInfo) → Bool
  is_named (key, info) = not (text_eq info.key_set_name truststore_label)

  -- What holds once the CMS key store has been made, with what the packages of Go promise.
  pub record IsSound (s : TlsStore Block Key) : Type 0 where
    pub made : is_made x s.keystore.keystore ≡ true
    pub keystore_distinct : IsDistinct x s.keystore
    pub truststore_distinct : IsDistinct x s.truststore
    pub named : all is_named s.keystore.key_label_lookup ≡ true
    pub lawful : Lawful

  abbrev pub Keeps : {A : Type 0} → M Block Key A → Type 0
  Keeps m = Safe IsSound m (λ a. IsSound)

  pub seq :
      {A B : Type 0} (m : M Block Key A) (rest : A → M Block Key B)
      → Keeps m
      → ((a : A) → Keeps (rest a))
      → Keeps (m >>= rest)
  seq m rest h k = >>=-Safe IsSound (λ a. IsSound) (λ b. IsSound) m rest h k

  pub IsSound-Ignores : Ignores IsSound
  IsSound-Ignores s o i = record {
    made = i.made;
    keystore_distinct = i.keystore_distinct;
    truststore_distinct = i.truststore_distinct;
    named = i.named;
    lawful = i.lawful;
  }

  pub performed : (w : TlsWorld) (operation : KeyWorld → Outcome) → Keeps (perform w operation)
  performed w operation = perform-Safe IsSound w operation IsSound-Ignores

  put_keystore-Good :
      (s : TlsStore Block Key) (r : Result TlsError (Bool × KeyStoreData Block Key))
      → IsSound s
      → KnowsIfOk x s.keystore r
      → Good (λ a. IsSound) (put_keystore x s r)
  put_keystore-Good s (ok (new, d)) i k = record {
    made = ap (is_made x) k.same_keystore ∙ i.made;
    keystore_distinct = k.distinct_still;
    truststore_distinct = i.truststore_distinct;
    named = ap (all is_named) k.same_lookup ∙ i.named;
    lawful = i.lawful;
  }
  put_keystore-Good s (err e) i k = ap never_returns k

  put_truststore-Good :
      (s : TlsStore Block Key) (r : Result TlsError (Bool × KeyStoreData Block Key))
      → IsSound s
      → KnowsIfOk x s.truststore r
      → Good (λ a. IsSound) (put_truststore x s r)
  put_truststore-Good s (ok (new, d)) i k = record {
    made = i.made;
    keystore_distinct = i.keystore_distinct;
    truststore_distinct = k.distinct_still;
    named = i.named;
    lawful = i.lawful;
  }
  put_truststore-Good s (err e) i k = ap never_returns k

  pub know_in_keystore-Keeps : (block : Block) (b : Bool) → Keeps (know_in_keystore x block b)
  know_in_keystore-Keeps block b s i =
      put_keystore-Good s (add_to_known_certificates x block b s.keystore) i
        (add_to_known_certificates-Knows x block b s.keystore i.keystore_distinct)

  pub know_in_truststore-Keeps : (block : Block) → Keeps (know_in_truststore x block)
  know_in_truststore-Keeps block s i = elim (Bool-cases (is_made x s.truststore.keystore)) [
    | inl e ↦ rw e (
        put_truststore-Good s (add_to_known_certificates x block true s.truststore) i
          (add_to_known_certificates-Knows x block true s.truststore i.truststore_distinct))
    | inr e ↦ rw e i
  ]

  trust_blocks-Keeps : (bs : List Block) → Keeps (trust_blocks x bs)
  unfolding trust_blocks
  trust_blocks-Keeps [] = λ s i. i
  trust_blocks-Keeps (block ∷ bs) =
      seq _ _ (know_in_keystore-Keeps block true)
        (λ a. seq _ _ (know_in_truststore-Keeps block) (λ b. trust_blocks-Keeps bs))

  -- The blocks of a file are found in full.
  pub blocks_of-Safe :
      (file : Text) → Safe IsSound (need unending (blocks_of x.decode file)) (λ bs. IsSound)
  blocks_of-Safe file s i = let (bs, e) = blocks_of-returns x.decode i.lawful.shrinks file in rw e i

  trust_file-Keeps : (w : TlsWorld) (path : Text) → Keeps (trust_file x w path)
  trust_file-Keeps w path =
      seq _ _ (need-Safe IsSound unreadable (w.read_file path) refl)
        (λ file. seq _ _ (blocks_of-Safe file) (λ bs. trust_blocks-Keeps bs))

  trust_files-Keeps :
      (w : TlsWorld) (trust_dir set : Text) (keys : List Text)
      → Keeps (trust_files x w trust_dir set keys)
  unfolding trust_files
  trust_files-Keeps w trust_dir set [] = λ s i. i
  trust_files-Keeps w trust_dir set (key ∷ keys) =
      seq _ _
        (if-Safe IsSound (λ a. IsSound) (has_suffix key (codes ".crt")) _ _
          (trust_file-Keeps w (clean_path (trust_dir ∷ set ∷ key ∷ []))) (λ s i. i))
        (λ u. trust_files-Keeps w trust_dir set keys)

  trust_sets-Keeps :
      (w : TlsWorld) (trust_dir : Text) (sets : List Text) → Keeps (trust_sets x w trust_dir sets)
  unfolding trust_sets
  trust_sets-Keeps w trust_dir [] = λ s i. i
  trust_sets-Keeps w trust_dir (set ∷ sets) =
      seq _ _ (trust_files-Keeps w trust_dir set (w.read_dir (clean_path (trust_dir ∷ set ∷ []))))
        (λ u. trust_sets-Keeps w trust_dir sets)

  relabel_all-Keeps :
      (w : TlsWorld) (ks : KeyStore) (n : ℕ) (certificates : List Text)
      → Keeps (relabel_all x w ks n certificates)
  unfolding relabel_all
  relabel_all-Keeps w ks n [] = λ s i. i
  relabel_all-Keeps w ks n (certificate ∷ certificates) =
      seq _ _
        (performed w (λ k.
          rename_certificate k ks (trim_space (trim_of certificate (codes "\"")))
            (codes "Trust" ++ decimal n)))
        (λ u. relabel_all-Keeps w ks (n + 1) certificates)

  write-Keeps : (w : TlsWorld) (path : Text) → Keeps (write_certificates_to_file x w path)
  write-Keeps w path = guard-Safe IsSound (not (w.write_fails path)) not_written refl

  list_certificates-Keeps : (w : TlsWorld) (ks : KeyStore) → Keeps (list_certificates x w ks)
  list_certificates-Keeps w ks s =
      need-Safe IsSound key_command (some_certificates x (list_all_certificates (w.keys s.done) ks))
        refl s

  add_certificates_to_truststore-Keeps :
      (w : TlsWorld) (ks : KeyStore) → Keeps (add_certificates_to_truststore x w ks)
  unfolding add_certificates_to_truststore
  add_certificates_to_truststore-Keeps w ks =
      seq _ _ (performed w (fresh_file x (codes "/tmp/trust.pem"))) (λ u.
        seq _ _ (write-Keeps w (codes "/tmp/trust.pem")) (λ u.
          seq _ _ (performed w (λ k. add_no_label k ks (codes "/tmp/trust.pem")))
            (λ u. seq _ _ (list_certificates-Keeps w ks) (λ cs. relabel_all-Keeps w ks 0 cs))))

  add_to_cms-Keeps :
      (w : TlsWorld) (ks : KeyStore) → Keeps (add_certificates_to_cms_keystore x w ks)
  add_to_cms-Keeps w ks = seq _ _ (performed w (fresh_file x (codes "/tmp/cmsTrust.pem"))) (λ u.
      seq _ _ (write-Keeps w (codes "/tmp/cmsTrust.pem"))
        (λ u. performed w (λ k. add_no_label k ks (codes "/tmp/cmsTrust.pem"))))

  fill_truststore-Good :
      (w : TlsWorld) (ks : Option KeyStore) (filled : Bool) → Keeps (add_trusted x w ks filled)
  fill_truststore-Good w none filled = λ s i. i
  fill_truststore-Good w (some ks) filled =
      if-Safe IsSound (λ a. IsSound) filled _ _ (add_certificates_to_truststore-Keeps w ks)
        (λ s i. i)

  fill_keystore-Good :
      (w : TlsWorld) (ks : Option KeyStore) (filled : Bool)
      → is_made x ks ≡ true
      → Keeps (add_to_cms x w ks filled)
  fill_keystore-Good w ks false m = λ s i. i
  fill_keystore-Good w none true m = cc
  fill_keystore-Good w (some ks) true m = add_to_cms-Keeps w ks

  pub process_trust_certificates-Keeps :
      (w : TlsWorld) (trust_dir : Text) → Keeps (process_trust_certificates x w trust_dir)
  unfolding process_trust_certificates
  process_trust_certificates-Keeps w trust_dir =
      seq _ _ (trust_sets-Keeps w trust_dir (w.read_dir trust_dir)) (λ u.
        seq _ _
          (λ s i.
            fill_truststore-Good w s.truststore.keystore (is_filled x s.truststore.trusted_certs) s
              i)
          (λ u s i.
            fill_keystore-Good w s.keystore.keystore (is_filled x s.keystore.trusted_certs) i.made s
              i))
