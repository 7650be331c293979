-- ===== src/Tls/Made.antt =====
-- `generateAllKeystores`, and the state that it starts from.
use docker_local.Common.{◌≡◌, refl, ap, ◌∙◌, Bool, true, false, not, none, some, [], ◌∷◌, ◌++◌, all}
use docker_local.Common.Text.{Text, codes}
use docker_local.Paths.Clean.{clean_path}
use docker_local.Keystore.Commands.{KeyStore, create, new_cms_key_store, new_pkcs12_key_store}
use docker_local.Tls.Store.{Crypto, TlsWorld, TlsStore, not_made, guard, perform}
use docker_local.Tls.Configure.{
  set_keystore, set_truststore, make_keystore, make_truststore, generate_all_keystores,
}
use docker_local.Tls.Distinct.{distinct, within, prints_of, IsDistinct}
use docker_local.Tls.Safely.{Safe, >>=-Safe, guard-Safe, Ignores, perform-Safe, if-Safe}
use docker_local.Tls.Trusted.{Lawful, is_named, seq, performed}
use docker_local.Tls.Labelled.{Sound}

module _ {Block Key Certificate : Type 0} (x : Crypto Block Key Certificate) where
  -- Before the first certificate, with what the packages of Go promise.
  pub record IsEmpty (s : TlsStore Block Key) : Type 0 where
    pub trusted : s.keystore.trusted_certs ≡ []
    pub known : s.keystore.known_finger_prints ≡ []
    pub looked_up : s.keystore.key_label_lookup ≡ []
    pub trusted_p12 : s.truststore.trusted_certs ≡ []
    pub known_p12 : s.truststore.known_finger_prints ≡ []
    pub lawful : Lawful x

  pub IsEmpty-IsDistinct :
      (s : TlsStore Block Key) → IsEmpty s → IsDistinct x s.keystore × IsDistinct x s.truststore
  IsEmpty-IsDistinct s i = (
    record {
      once = ap distinct i.known;
      trusted_known = ap (λ b. within s.keystore.known_finger_prints (prints_of x b)) i.trusted;
      trusted_once = ap (λ b. distinct (prints_of x b)) i.trusted;
    },
    record {
      once = ap distinct i.known_p12;
      trusted_known =
          ap (λ b. within s.truststore.known_finger_prints (prints_of x b)) i.trusted_p12;
      trusted_once = ap (λ b. distinct (prints_of x b)) i.trusted_p12;
    },
  )

  -- No key store for the keys, and nothing to add to one.
  abbrev pub IsBare : TlsStore Block Key → Type 0
  IsBare s = IsEmpty s × (s.keystore.keystore ≡ none)

  kept :
      (s t : TlsStore Block Key)
      → t.keystore ≡ s.keystore
      → t.truststore.trusted_certs ≡ s.truststore.trusted_certs
      → t.truststore.known_finger_prints ≡ s.truststore.known_finger_prints
      → IsEmpty s
      → IsEmpty t
  kept s t k p q i = record {
    trusted = ap (λ d. d.trusted_certs) k ∙ i.trusted;
    known = ap (λ d. d.known_finger_prints) k ∙ i.known;
    looked_up = ap (λ d. d.key_label_lookup) k ∙ i.looked_up;
    trusted_p12 = p ∙ i.trusted_p12;
    known_p12 = q ∙ i.known_p12;
    lawful = i.lawful;
  }

  IsEmpty-Ignores : Ignores IsEmpty
  IsEmpty-Ignores s o i = kept s (record s { done = s.done ++ o.effects }) refl refl refl i

  IsBare-Ignores : Ignores IsBare
  IsBare-Ignores s o (i, n) = (IsEmpty-Ignores s o i, n)

  -- The key stores are made.
  set_keystore-Safe : (ks : KeyStore) → Safe IsEmpty (set_keystore x ks) (λ u. Sound x)
  set_keystore-Safe ks s i =
      let (k, t) = IsEmpty-IsDistinct s i in
      record {
        made = refl;
        keystore_distinct = record {
          once = k.once;
          trusted_known = k.trusted_known;
          trusted_once = k.trusted_once;
        };
        truststore_distinct = t;
        named = ap (all (is_named x)) i.looked_up;
        lawful = i.lawful;
      }

  make_keystore-Safe :
      (w : TlsWorld) (ks : KeyStore) → Safe IsEmpty (make_keystore x w ks) (λ u. Sound x)
  make_keystore-Safe w ks =
      >>=-Safe IsEmpty (λ u. IsEmpty) (λ u. Sound x) (perform w (λ k. create k ks))
        (λ u. set_keystore x ks) (perform-Safe IsEmpty w (λ k. create k ks) IsEmpty-Ignores)
        (λ u. set_keystore-Safe ks)

  make_truststore-Keeps :
      (w : TlsWorld) (ks : KeyStore) → Safe (Sound x) (make_truststore x w ks) (λ u. Sound x)
  make_truststore-Keeps w ks = seq x _ _ (performed x w (λ k. create k ks)) (λ u s i. record {
    made = i.made;
    keystore_distinct = i.keystore_distinct;
    truststore_distinct = record {
      once = i.truststore_distinct.once;
      trusted_known = i.truststore_distinct.trusted_known;
      trusted_once = i.truststore_distinct.trusted_once;
    };
    named = i.named;
    lawful = i.lawful;
  })

  make_truststore-Bare :
      (w : TlsWorld) (ks : KeyStore) → Safe IsBare (make_truststore x w ks) (λ u. IsBare)
  make_truststore-Bare w ks =
      >>=-Safe IsBare (λ u. IsBare) (λ u. IsBare) (perform w (λ k. create k ks))
        (λ u. set_truststore x ks) (perform-Safe IsBare w (λ k. create k ks) IsBare-Ignores)
        (λ u s (i, n). (
          kept s (record s { truststore = record s.truststore { keystore = some ks } }) refl refl
              refl i,
          n,
        ))

  pub generate_all_keystores-Sound :
      (w : TlsWorld) (password : Text) (fips : Bool) (dir : Text) (p12 : Bool)
      → Safe IsEmpty (generate_all_keystores x w password fips dir true p12) (λ u. Sound x)
  unfolding generate_all_keystores
  generate_all_keystores-Sound w password fips dir p12 =
      >>=-Safe IsEmpty (λ u. IsEmpty) (λ u. Sound x) (guard (not (w.mkdir_fails dir)) not_made) _
        (guard-Safe IsEmpty (not (w.mkdir_fails dir)) not_made refl)
        (λ u.
          >>=-Safe IsEmpty (λ u. Sound x) (λ u. Sound x) _ _
            (make_keystore-Safe w
              (new_cms_key_store (clean_path (dir ∷ codes "key.kdb" ∷ [])) password fips))
            (λ u.
              if-Safe (Sound x) (λ u. Sound x) p12 _ _
                (make_truststore-Keeps w
                  (new_pkcs12_key_store (clean_path (dir ∷ codes "trust.p12" ∷ [])) password fips))
                (λ s i. i)))

  pub generate_all_keystores-Bare :
      (w : TlsWorld) (password : Text) (fips : Bool) (dir : Text) (p12 : Bool)
      → Safe IsBare (generate_all_keystores x w password fips dir false p12) (λ u. IsBare)
  unfolding generate_all_keystores
  generate_all_keystores-Bare w password fips dir p12 =
      >>=-Safe IsBare (λ u. IsBare) (λ u. IsBare) (guard (not (w.mkdir_fails dir)) not_made) _
        (guard-Safe IsBare (not (w.mkdir_fails dir)) not_made refl)
        (λ u s i.
          if-Safe IsBare (λ u. IsBare) p12 _ _
            (make_truststore-Bare w
              (new_pkcs12_key_store (clean_path (dir ∷ codes "trust.p12" ∷ [])) password fips))
            (λ s i. i) s i)
