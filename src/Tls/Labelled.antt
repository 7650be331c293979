-- ===== src/Tls/Labelled.antt =====
-- The private key of a set, and the labels that the sets with the same key had before.
use docker_local.Common.{
  ◌≡◌, refl, sym, ap, ◌∙◌, Bool, true, not, Option, none, some, List, [], ◌∷◌, all, all-append,
  arith, Bool-cases, inl, inr,
}
use docker_local.Common.Text.{Text, codes, text_eq, has_suffix}
use docker_local.Paths.Clean.{clean_path}
use docker_local.Tls.Store.{
  Crypto, TlsWorld, PrivateKeyInfo, TlsStore, unreadable, unparsable, not_comparable, return, need,
}
use docker_local.Tls.Keys.{
  no_info, truststore_label, Loaded, Private, or_else, parse_private_key, load_key, load_keys,
  equals, previous_of, comparable, remember, look_up, process_private_key,
}
use docker_local.Tls.Safely.{Good, Safe, >>=-Safe, need-Safe, if-Safe}
use docker_local.Tls.Trusted.{is_named, IsSound, Keeps}

-- A label that is not the truststore's.
abbrev pub is_free : Text → Bool
is_free label = not (text_eq label truststore_label)

pub free_empty : is_free [] ≡ true
unfolding text_eq
free_empty = refl

-- What `processPrivateKey` returns for a key that is not in the table.
abbrev not_seen : {Key : Type 0} → Loaded Key → Private Key
not_seen loaded = record {
  key = loaded.key;
  key_prefix = loaded.key_prefix;
  previous_label = [];
  previous_directory = [];
}

module _ {Block Key Certificate : Type 0} (x : Crypto Block Key Certificate) where
  -- Sound, and with a text that is no label of the truststore.
  abbrev pub Sound : TlsStore Block Key → Type 0
  Sound s = IsSound x s

  abbrev pub SoundFree : Text → TlsStore Block Key → Type 0
  SoundFree label s = IsSound x s × (is_free label ≡ true)

  abbrev pub SoundInfo : Loaded Key → TlsStore Block Key → Type 0
  SoundInfo loaded s = SoundFree loaded.info.key_set_name s

  abbrev pub SoundPrivate : Private Key → TlsStore Block Key → Type 0
  SoundPrivate private s = SoundFree private.previous_label s

  give_free :
      (private : Private Key)
      → is_free private.previous_label ≡ true
      → Safe Sound (return private) SoundPrivate
  give_free private f s i = (i, f)

  parse_private_key-Keeps : (d : Option (Block × Text)) → Keeps x (parse_private_key x d)
  parse_private_key-Keeps none = λ s i. refl
  parse_private_key-Keeps (some (block, rest)) =
      need-Safe Sound unparsable (or_else x (x.parse_pkcs1 block) (x.parse_pkcs8 block)) refl

  load_key-Safe :
      (w : TlsWorld) (key_dir set name : Text)
      → is_free set ≡ true
      → Safe Sound (load_key x w key_dir set name) SoundInfo
  load_key-Safe w key_dir set name f =
      >>=-Safe Sound (λ a. Sound) SoundInfo _ _
        (need-Safe Sound unreadable (w.read_file (clean_path (key_dir ∷ set ∷ name ∷ []))) refl)
        (λ file.
          >>=-Safe Sound (λ a. Sound) SoundInfo _ _ (parse_private_key-Keeps (x.decode file))
            (λ key s i. (i, f)))

  load_keys-Safe :
      (w : TlsWorld) (key_dir set : Text) (loaded : Loaded Key) (names : List Text)
      → is_free set ≡ true
      → is_free loaded.info.key_set_name ≡ true
      → Safe Sound (load_keys x w key_dir set loaded names) SoundInfo
  unfolding load_keys
  load_keys-Safe w key_dir set loaded [] f g = λ s i. (i, g)
  load_keys-Safe w key_dir set loaded (name ∷ names) f g =
      >>=-Safe Sound SoundInfo SoundInfo _ _
        (if-Safe Sound SoundInfo (has_suffix name (codes ".key")) _ _
          (load_key-Safe w key_dir set name f) (λ s i. (i, g)))
        (λ next s i. load_keys-Safe w key_dir set next names f i.1 s i.0)

  previous_of-free :
      (known : List (Key × PrivateKeyInfo)) (key : Option Key) (info : PrivateKeyInfo)
      → all (is_named x) known ≡ true
      → previous_of x known key ≡ some info
      → is_free info.key_set_name ≡ true
  unfolding previous_of
  previous_of-free [] key info h e = cc
  previous_of-free ((k, i) ∷ known) key info h e = elim (Bool-cases (equals x k key)) [
    | inl q ↦
        let same : some i ≡ some info = rw q at e in
        let here : is_free i.key_set_name ≡ true = ground arith in
        let fields : i ≡ info = cc in ap (λ j. is_free j.key_set_name) (sym fields) ∙ here
    | inr q ↦ previous_of-free known key info (ground arith) (rw q at e)
  ]

  comparable-Safe :
      (key : Option Key)
      → Safe Sound
          (need not_comparable (comparable x key))
          (λ k s. Sound s × (x.is_comparable k ≡ true))
  comparable-Safe none s i = refl
  comparable-Safe (some key) s i = elim (Bool-cases (x.is_comparable key)) [
    | inl e ↦ rw e (i, e)
    | inr e ↦ rw e refl
  ]

  remember-Safe :
      (key : Key) (info : PrivateKeyInfo)
      → is_free info.key_set_name ≡ true
      → Keeps x (remember x key info)
  remember-Safe key info f s i = record {
    made = i.made;
    keystore_distinct = record {
      once = i.keystore_distinct.once;
      trusted_known = i.keystore_distinct.trusted_known;
      trusted_once = i.keystore_distinct.trusted_once;
    };
    truststore_distinct = i.truststore_distinct;
    named =
        all-append (is_named x) s.keystore.key_label_lookup ((key, info) ∷ [])
        ∙ rw (i.named, f) refl;
    lawful = i.lawful;
  }

  look_up-Good :
      (loaded : Loaded Key) (o : Option PrivateKeyInfo) (s : TlsStore Block Key)
      → previous_of x s.keystore.key_label_lookup loaded.key ≡ o
      → SoundInfo loaded s
      → Good SoundPrivate (look_up x loaded o s)
  look_up-Good loaded (some previous) s e (i, f) =
      (i, previous_of-free s.keystore.key_label_lookup loaded.key previous i.named e)
  look_up-Good loaded none s e (i, f) =
      >>=-Safe Sound (λ key s. Sound s × (x.is_comparable key ≡ true)) SoundPrivate _ _
        (comparable-Safe loaded.key)
        (λ key s (i, c). rw (i.lawful.hashes key c) (
          >>=-Safe Sound (λ a. Sound) SoundPrivate (remember x key loaded.info)
            (λ u. return (not_seen loaded)) (remember-Safe key loaded.info f)
            (λ u. give_free (not_seen loaded) free_empty) s i))
        s i

  pub process_private_key-Safe :
      (w : TlsWorld) (key_dir set : Text) (names : List Text)
      → is_free set ≡ true
      → Safe Sound (process_private_key x w key_dir set names) SoundPrivate
  unfolding process_private_key
  process_private_key-Safe w key_dir set names f =
      >>=-Safe Sound SoundInfo SoundPrivate _ _
        (load_keys-Safe w key_dir set (record { key = none; key_prefix = []; info = no_info }) names
          f free_empty)
        (λ loaded s i.
          look_up-Good loaded (previous_of x s.keystore.key_label_lookup loaded.key) s refl i)
