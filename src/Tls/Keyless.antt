-- ===== src/Tls/Keyless.antt =====
-- The sets of keys that have no private key, which `processKeys` is to skip.
use docker_local.Common.{
  ◌≡◌, refl, ap, Bool, true, false, not, none, List, [], ◌∷◌, any, Result, ok, err, Bool-cases, inl,
  inr, arith,
}
use docker_local.Common.Text.{Text, codes, has_suffix, text_eq}
use docker_local.Paths.Clean.{clean_path}
use docker_local.Tls.Store.{
  Crypto, TlsWorld, PrivateKeyInfo, TlsStore, TlsError, not_comparable, M, then_with,
}
use docker_local.Tls.Keys.{
  no_info, truststore_label, Loaded, load_keys, previous_of, process_private_key,
}
use docker_local.Tls.Configure.{process_set, process_sets, process_keys}
use docker_local.Tls.Safely.{never_returns, Good}
use docker_local.Tls.Trusted.{IsSound}
use docker_local.Tls.Labelled.{SoundFree}
use docker_local.Tls.Accepted.{process_keys-Safe}

abbrev pub is_key : Text → Bool
is_key name = has_suffix name (codes ".key")

abbrev is_err : {A : Type 0} → Result TlsError A → Bool
is_err (ok a) = false
is_err (err e) = true

-- An error that the caller gets: neither a panic nor a loop that does not end.
abbrev pub is_returned : {A : Type 0} → Result TlsError A → Bool
is_returned (ok a) = false
is_returned (err e) = not (never_returns e)

module _ {Block Key Certificate : Type 0} (x : Crypto Block Key Certificate) where
  load_keys-none :
      (w : TlsWorld) (key_dir set : Text) (loaded : Loaded Key) (names : List Text)
      (s : TlsStore Block Key)
      → any is_key names ≡ false
      → load_keys x w key_dir set loaded names s ≡ ok (loaded, s)
  unfolding load_keys
  load_keys-none w key_dir set loaded [] s e = refl
  load_keys-none w key_dir set loaded (name ∷ names) s e =
      let other : has_suffix name (codes ".key") ≡ false = ground arith in
      rw other (load_keys-none w key_dir set loaded names s (ground arith))

  previous_of-none : (known : List (Key × PrivateKeyInfo)) → previous_of x known none ≡ none
  unfolding previous_of
  previous_of-none [] = refl
  previous_of-none ((k, info) ∷ known) = previous_of-none known

  process_private_key-keyless :
      (w : TlsWorld) (key_dir set : Text) (names : List Text) (s : TlsStore Block Key)
      → any is_key names ≡ false
      → process_private_key x w key_dir set names s ≡ err not_comparable
  unfolding process_private_key
  process_private_key-keyless w key_dir set names s e =
      let loaded =
        load_keys-none w key_dir set (record { key = none; key_prefix = []; info = no_info }) names
          s e in
      let unknown = previous_of-none s.keystore.key_label_lookup in rw (loaded, unknown) refl

  process_set-keyless :
      (w : TlsWorld) (keystore_dir key_dir label set : Text) (names : List Text)
      (s : TlsStore Block Key)
      → any is_key names ≡ false
      → is_err (process_set x w keystore_dir key_dir label set names s) ≡ true
  process_set-keyless w keystore_dir key_dir label set names s e =
      elim (Bool-cases (text_eq set truststore_label)) [
        | inl f ↦ rw f refl
        | inr f ↦ rw (f, process_private_key-keyless w key_dir set names s e) refl
      ]

  abbrev pub no_key_in : TlsWorld → Text → Text → Bool
  no_key_in w key_dir set = not (any is_key (w.read_dir (clean_path (key_dir ∷ set ∷ []))))

  then_with-is_err :
      {A B : Type 0} (r : Result TlsError (A × TlsStore Block Key)) (rest : A → M Block Key B)
      → ((a : A) (s : TlsStore Block Key) → is_err (rest a s) ≡ true)
      → is_err (then_with r rest) ≡ true
  then_with-is_err (ok (a, s)) rest h = h a s
  then_with-is_err (err e) rest h = refl

  then_with_err :
      {A B : Type 0} (r : Result TlsError (A × TlsStore Block Key)) (rest : A → M Block Key B)
      → is_err r ≡ true
      → is_err (then_with r rest) ≡ true
  then_with_err (ok (a, s)) rest h = cc
  then_with_err (err e) rest h = refl

  process_sets-keyless :
      (w : TlsWorld) (keystore_dir key_dir label : Text) (sets : List Text) (s : TlsStore Block Key)
      → any (no_key_in w key_dir) sets ≡ true
      → is_err (process_sets x w keystore_dir key_dir label sets s) ≡ true
  unfolding process_sets
  process_sets-keyless w keystore_dir key_dir label [] s e = cc
  process_sets-keyless w keystore_dir key_dir label (set ∷ sets) s e =
      elim (Bool-cases (no_key_in w key_dir set)) [
        | inl f ↦ then_with_err _ _ (
            process_set-keyless w keystore_dir key_dir label set
              (w.read_dir (clean_path (key_dir ∷ set ∷ []))) s (ground arith))
        | inr f ↦
            then_with-is_err _ _
              (λ next t. process_sets-keyless w keystore_dir key_dir next sets t (ground arith))
      ]

  process_keys-is_err :
      (w : TlsWorld) (keystore_dir key_dir : Text) (s : TlsStore Block Key)
      → any (no_key_in w key_dir) (w.read_dir key_dir) ≡ true
      → is_err (process_keys x w keystore_dir key_dir s) ≡ true
  unfolding process_keys
  process_keys-is_err w keystore_dir key_dir s e =
      process_sets-keyless w keystore_dir key_dir [] (w.read_dir key_dir) s e

  Good-is_returned :
      {A : Type 0} (Q : A → TlsStore Block Key → Type 0)
      (r : Result TlsError (A × TlsStore Block Key))
      → Good Q r
      → is_err r ≡ true
      → is_returned r ≡ true
  Good-is_returned Q (ok (a, s)) h e = cc
  Good-is_returned Q (err e) h f = ap not h

  -- From a state in which the CMS key store has been made and its tables agree, where every private key that can be compared can
  -- be the key of a map and `pem.Decode` leaves less text than it reads: if a directory in `keyDir` has no file *.key, then
  -- `processKeys` returns an error, neither panicking nor looping for ever before, whatever the other directories hold.
  pub process_keys-keyless :
      (w : TlsWorld) (keystore_dir key_dir : Text) (s : TlsStore Block Key)
      → IsSound x s
      → any (no_key_in w key_dir) (w.read_dir key_dir) ≡ true
      → is_returned (process_keys x w keystore_dir key_dir s) ≡ true
  process_keys-keyless w keystore_dir key_dir s i e =
      Good-is_returned (SoundFree x) (process_keys x w keystore_dir key_dir s)
        (process_keys-Safe x w keystore_dir key_dir s i)
        (process_keys-is_err w keystore_dir key_dir s e)
