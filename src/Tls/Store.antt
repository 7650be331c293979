-- ===== src/Tls/Store.antt =====
-- The state of tls.go, what it asks of the world, and a monad of steps that may fail.
use docker_local.Common.{Bool, true, false, Option, none, some, List, ◌++◌, Result, ok, err}
use docker_local.Common.Text.{Text}
use docker_local.Startup.Environment.{Environment}
use docker_local.Keystore.Commands.{KeyStore, Effect, KeyWorld, Outcome}

-- Go's packages `encoding/pem`, `crypto/x509`, `crypto/sha512` and the package pkcs12. `decode` gives the first block of a file and the
-- text behind it; `key_equal` is the method `Equal` of a private key, `is_comparable` the test that it has one,
-- and `is_hashable` holds if the key can be the key of a map: a slice, as an Ed25519 key is, cannot.
pub record Crypto (Block Key Certificate : Type 0) : Type 0 where
  pub decode : Text → Option (Block × Text)
  pub parse_pkcs1 : Block → Option Key
  pub parse_pkcs8 : Block → Option Key
  pub parse_certificate : Block → Option Certificate
  pub fingerprint : Certificate → Text
  pub subject : Certificate → Text
  pub key_equal : Key → Key → Bool
  pub is_comparable : Key → Bool
  pub is_hashable : Key → Bool
  pub encode : Key → Certificate → List Certificate → Option Text

-- The files, with the names in a directory (none, if it cannot be read), and the key commands, which may answer by what has been done.
pub record TlsWorld : Type 0 where
  pub env : Environment
  pub read_file : Text → Option Text
  pub read_dir : Text → List Text
  pub write_fails : Text → Bool
  pub mkdir_fails : Text → Bool
  pub keys : List Effect → KeyWorld

pub record PrivateKeyInfo : Type 0 where
  pub key_set_name : Text
  pub directory : Text
  pub filename : Text

pub record KeyStoreData (Block Key : Type 0) : Type 0 where
  pub keystore : Option KeyStore
  pub trusted_certs : List Block
  pub known_finger_prints : List Text
  pub key_labels : List Text
  pub key_label_lookup : List (Key × PrivateKeyInfo)

-- `TLSStore`, with what has been done outside so far.
pub record TlsStore (Block Key : Type 0) : Type 0 where
  pub keystore : KeyStoreData Block Key
  pub truststore : KeyStoreData Block Key
  pub done : List Effect

-- `nil_pointer` and `unhashable_key` are panics, and `unending` the loop over the blocks of a file that does not end.
pub data TlsError : Type 0 where
  label_of_truststore unreadable undecodable unparsable not_comparable no_public_certificate :
      TlsError
  same_subject not_encoded not_written key_command not_relabelled nil_pointer unhashable_key
        unending not_made wrong_labels :
      TlsError

abbrev pub M : Type 0 → Type 0 → Type 0 → Type 0
M Block Key A = TlsStore Block Key → Result TlsError (A × TlsStore Block Key)

module _ {Block Key : Type 0} where
  abbrev pub then_with :
      {A B : Type 0}
      → Result TlsError (A × TlsStore Block Key)
      → (A → M Block Key B)
      → Result TlsError (B × TlsStore Block Key)
  then_with (ok (a, s)) rest = rest a s
  then_with (err e) rest = err e

  infixl 5 ◌>>=◌ ◌>>◌
  abbrev pub ◌>>=◌ : {A B : Type 0} → M Block Key A → (A → M Block Key B) → M Block Key B
  ◌>>=◌ m rest s = then_with (m s) rest

  abbrev pub ◌>>◌ : {B : Type 0} → M Block Key (Unit {0}) → M Block Key B → M Block Key B
  m >> rest = m >>= λ _. rest

  abbrev pub return : {A : Type 0} → A → M Block Key A
  return a s = ok (a, s)

  abbrev pub fail : {A : Type 0} → TlsError → M Block Key A
  fail e s = err e

  abbrev pub guard : Bool → TlsError → M Block Key (Unit {0})
  guard true e = return tt
  guard false e = fail e

  -- A value that may be missing.
  abbrev pub need : {A : Type 0} → TlsError → Option A → M Block Key A
  need e none = fail e
  need e (some a) = return a

  abbrev pub did : Outcome → M Block Key (Unit {0})
  did o s = guard o.succeeded key_command (record s { done = s.done ++ o.effects })

  -- An operation of the package keystore on a key store.
  abbrev pub perform : TlsWorld → (KeyWorld → Outcome) → M Block Key (Unit {0})
  perform w operation s = did (operation (w.keys s.done)) s
