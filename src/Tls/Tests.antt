-- ===== src/Tls/Tests.antt =====
-- One set of keys and one set of trust certificates: K stands for a private key, and any other letter for a certificate.
use docker_local.Common.{
  ℕ, zero, suc, ◌<◌, ◌≡◌, refl, ap, true, false, Option, none, some, List, [], ◌∷◌, ◌++◌, length,
  any, all, Result, ok, err, arith, if◌then◌else◌,
}
use docker_local.Common.Text.{Text, codes, text_eq}
use docker_local.Keystore.Commands.{KeyWorld, new_cms_key_store}
use docker_local.Volumes.Clean.{there}
use docker_local.Tls.Store.{Crypto, TlsWorld, TlsStore, TlsError}
use docker_local.Tls.Blocks.{Shrinks}
use docker_local.Tls.Configure.{
  no_stores, process_keys, configure_tls_keystores, keystore_dir_default,
}
use docker_local.Tls.Safely.{Good}
use docker_local.Tls.Trusted.{Lawful, IsSound}
use docker_local.Tls.Configured.{Configured, configure_tls_keystores-Configured}
use docker_local.Paths.Clean.{clean_path}
use docker_local.Tls.Keyless.{is_returned, no_key_in, process_keys-keyless}
use docker_local.Tls.Password.{
  is_alphanumeric, generate_random_password, generate_random_password-alphanumeric,
}
use docker_local.Tls.InitialKey.{trim_key, zeros, trim_key-run}

-- Each letter of a file is a block.
abbrev first_letter : Text → Option (Text × Text)
first_letter [] = none
first_letter (c ∷ file) = some (c ∷ [], file)

abbrev key_block : Text → Option Text
key_block block = if text_eq block (codes "K") then some block else none

abbrev certificate_block : Text → Option Text
certificate_block block = if text_eq block (codes "K") then none else some block

abbrev letters : Crypto Text Text Text
letters = record {
  decode = first_letter;
  parse_pkcs1 = key_block;
  parse_pkcs8 = λ block. none;
  parse_certificate = certificate_block;
  fingerprint = λ certificate. certificate;
  subject = λ certificate. certificate;
  key_equal = λ k l. text_eq k l;
  is_comparable = λ k. true;
  is_hashable = λ k. true;
  encode = λ key personal issuers. some key;
}

abbrev lookup : List (Text × Text) → Text → Option Text
lookup [] path = none
lookup ((name, file) ∷ files) path =
    let rest = lookup files path in if text_eq name path then some file else rest

abbrev names_in : List (Text × List Text) → Text → List Text
names_in [] path = []
names_in ((name, names) ∷ dirs) path =
    let rest = names_in dirs path in if text_eq name path then names else rest

abbrev key_world : KeyWorld
key_world = record {
  stat = λ path. there;
  remove_fails = λ path. false;
  run = λ command args. some (codes "-\tgenerated\n!\tC\n");
}

abbrev tls_world : List Text → TlsWorld
tls_world sets = record {
  env = λ name. none;
  read_file = lookup (
      (codes "/keys/qm1/tls.key", codes "K")
      ∷ (codes "/keys/qm1/tls.crt", codes "AB")
      ∷ (codes "/trust/ca/ca.crt", codes "BCC")
      ∷ []);
  read_dir = names_in (
      (codes "/keys", sets)
      ∷ (codes "/keys/qm1", codes "tls.crt" ∷ codes "tls.key" ∷ [])
      ∷ (codes "/trust", codes "ca" ∷ [])
      ∷ (codes "/trust/ca", codes "ca.crt" ∷ [])
      ∷ []);
  write_fails = λ path. false;
  mkdir_fails = λ path. false;
  keys = λ done. key_world;
}

shrinks : Shrinks first_letter
shrinks [] b rest e = cc
shrinks (c ∷ file) b rest e = shorter
  where
    tail_of : Option (Text × Text) → Text
    tail_of none = []
    tail_of (some p) = p.1

    shorter : length rest < length (c ∷ file)
    shorter = let same : file ≡ rest = ap tail_of e in omega (arith, ap (λ t. length t) same)

letters-Lawful : Lawful letters
letters-Lawful = record { hashes = λ key c. refl; shrinks = shrinks }

configure_tls_keystores-Configured_example : Good (Configured letters) (
    configure_tls_keystores letters
      (tls_world (codes "qm1" ∷ []))
      (codes "pw")
      false
      keystore_dir_default
      (codes "/keys" ∷ [])
      (codes "/trust" ∷ [])
      true)
configure_tls_keystores-Configured_example =
    configure_tls_keystores-Configured letters letters-Lawful (tls_world (codes "qm1" ∷ []))
      (codes "pw") false keystore_dir_default (codes "/keys" ∷ []) (codes "/trust" ∷ []) true

-- What is left: the label, and the certificates that are trusted.
abbrev summary : Result TlsError (List Text × TlsStore Text Text) → Option (List Text × List Text)
summary (ok (labels, s)) = some (labels, s.truststore.trusted_certs)
summary (err e) = none

one_set :
    summary (
      configure_tls_keystores letters
        (tls_world (codes "qm1" ∷ []))
        (codes "pw")
        false
        keystore_dir_default
        (codes "/keys" ∷ [])
        (codes "/trust" ∷ [])
        true)
    ≡ some (codes "qm1" ∷ [], codes "B" ∷ codes "C" ∷ [])
unfolding configure_tls_keystores
one_set = refl

-- A set with no key in it.
abbrev keyless_world : TlsWorld
keyless_world = tls_world (codes "empty" ∷ codes "qm1" ∷ [])

one_keyless :
    any (no_key_in letters keyless_world (codes "/keys")) (keyless_world.read_dir (codes "/keys"))
    ≡ true
unfolding text_eq clean_path
one_keyless = refl

-- The state in which the CMS key store has been made.
abbrev cms_store : TlsStore Text Text
cms_store =
    let s = no_stores letters in
    record s {
      keystore = record s.keystore {
        keystore = some (new_cms_key_store (codes "/run/key.kdb") (codes "pw") false);
      };
    }

cms_store-IsSound : IsSound letters cms_store
cms_store-IsSound = record {
  made = refl;
  keystore_distinct = record { once = refl; trusted_known = refl; trusted_once = refl };
  truststore_distinct = record { once = refl; trusted_known = refl; trusted_once = refl };
  named = refl;
  lawful = letters-Lawful;
}

process_keys-keyless_example :
    is_returned (process_keys letters keyless_world keystore_dir_default (codes "/keys") cms_store)
    ≡ true
process_keys-keyless_example =
    process_keys-keyless letters keyless_world keystore_dir_default (codes "/keys") cms_store
      cms_store-IsSound one_keyless

-- Bytes that are all larger than the number of characters.
abbrev large_bytes : ℕ → List ℕ
large_bytes zero = []
large_bytes (suc n) = 255 ∷ large_bytes n

length-large_bytes : (n : ℕ) → length (large_bytes n) ≡ n
length-large_bytes zero = refl
length-large_bytes (suc n) = ap suc (length-large_bytes n)

generate_random_password-alphanumeric_example :
    (password : Text) × (generate_random_password large_bytes ≡ some password)
    × (length password ≡ 16)
    × (all is_alphanumeric password ≡ true)
generate_random_password-alphanumeric_example =
    generate_random_password-alphanumeric large_bytes length-large_bytes

trim_key-run_example :
    trim_key (codes "\n " ++ (b'k' ∷ (codes "ey" ++ codes " # old\n")))
    ≡ (some (codes "key"), zeros (codes "\n ") ++ (b'k' ∷ (codes "ey" ++ zeros (codes " # old\n"))))
trim_key-run_example =
    trim_key-run (codes "\n ") b'k' (codes "ey") (codes " # old\n") refl refl refl refl

-- A carriage return and a tab are valid.
windows_line : (trim_key (codes "key\r\n")).0 ≡ some (codes "key\r")
unfolding trim_key
windows_line = refl
