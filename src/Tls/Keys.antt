-- ===== src/Tls/Keys.antt =====
-- The sets of keys: each a directory with a private key, its certificate, and the certificates of its issuers.
use docker_local.Common.{
  Bool, true, false, ◌&&◌, ◌||◌, not, Option, none, some, List, [], ◌∷◌, ◌++◌, any, ok,
  if◌then◌else◌,
}
use docker_local.Common.Text.{Text, codes, equal_fold, has_prefix, has_suffix}
use docker_local.Paths.Clean.{clean_path, join_paths}
use docker_local.Startup.Environment.{Environment}
use docker_local.Keystore.Commands.{without_extension}
use docker_local.Tls.Store.{
  Crypto, TlsWorld, PrivateKeyInfo, unreadable, undecodable, unparsable, not_comparable,
  unhashable_key, unending, M, ◌>>=◌, ◌>>◌, return, fail, guard, need,
}
use docker_local.Tls.Blocks.{blocks_of}
use docker_local.Tls.Certificates.{add_to_known_certificates, know_in_keystore, know_in_truststore}

abbrev pub no_info : PrivateKeyInfo
no_info = record { key_set_name = []; directory = []; filename = [] }

-- The name of the truststore without its extension.
abbrev pub truststore_label : Text
truststore_label = codes "trust"

-- The variables of the loops in `processPrivateKey` and `processCertificates`, and what the first function returns.
pub record Loaded (Key : Type 0) : Type 0 where
  pub key : Option Key
  pub key_prefix : Text
  pub info : PrivateKeyInfo

pub record Private (Key : Type 0) : Type 0 where
  pub key : Option Key
  pub key_prefix : Text
  pub previous_label : Text
  pub previous_directory : Text

pub record Public (Certificate : Type 0) : Type 0 where
  pub certificate : Option Certificate
  pub ca_certificates : List Certificate
  pub new : Bool

module _ {Block Key Certificate : Type 0} (x : Crypto Block Key Certificate) where
  abbrev pub or_else : Option Key → Option Key → Option Key
  or_else none k = k
  or_else (some k) k' = some k

  abbrev pub parse_private_key : Option (Block × Text) → M Block Key Key
  parse_private_key none = fail undecodable
  parse_private_key (some (block, rest)) =
      need unparsable (or_else (x.parse_pkcs1 block) (x.parse_pkcs8 block))

  abbrev pub load_key : TlsWorld → Text → Text → Text → M Block Key (Loaded Key)
  load_key w key_dir set name = do
    file ← need unreadable (w.read_file (clean_path (key_dir ∷ set ∷ name ∷ [])))
    key ← parse_private_key (x.decode file)
    return (record {
      key = some key;
      key_prefix = without_extension name;
      info = record { key_set_name = set; directory = join_paths key_dir set; filename = name };
    })

  unfoldable pub load_keys :
      TlsWorld → Text → Text → Loaded Key → List Text → M Block Key (Loaded Key)
  unfolding has_suffix clean_path without_extension join_paths
  load_keys w key_dir set loaded [] = return loaded
  load_keys w key_dir set loaded (name ∷ names) = do
    next ← if has_suffix name (codes ".key") then load_key w key_dir set name else return loaded
    load_keys w key_dir set next names

  -- The first key of the table that is equal to the one loaded. No key is equal to nil.
  abbrev pub equals : Key → Option Key → Bool
  equals k none = false
  equals k (some key) = x.key_equal k key

  unfoldable pub previous_of : List (Key × PrivateKeyInfo) → Option Key → Option PrivateKeyInfo
  previous_of [] key = none
  previous_of ((k, info) ∷ known) key =
      let rest = previous_of known key in if equals k key then some info else rest

  abbrev pub comparable : Option Key → Option Key
  comparable none = none
  comparable (some key) = if x.is_comparable key then some key else none

  abbrev pub remember : Key → PrivateKeyInfo → M Block Key (Unit {0})
  remember key info s = ok (
    tt,
    record s {
      keystore = record s.keystore {
        key_label_lookup = s.keystore.key_label_lookup ++ (key, info) ∷ [];
      };
    },
  )

  abbrev pub look_up : Loaded Key → Option PrivateKeyInfo → M Block Key (Private Key)
  look_up loaded (some previous) = return (record {
    key = loaded.key;
    key_prefix = loaded.key_prefix;
    previous_label = previous.key_set_name;
    previous_directory = previous.directory;
  })
  look_up loaded none = do
    key ← need not_comparable (comparable loaded.key)
    guard (x.is_hashable key) unhashable_key
    remember key loaded.info
    return (record {
      key = loaded.key;
      key_prefix = loaded.key_prefix;
      previous_label = [];
      previous_directory = [];
    })

  abbrev pub look_up_in_store : Loaded Key → M Block Key (Private Key)
  look_up_in_store loaded s = look_up loaded (previous_of s.keystore.key_label_lookup loaded.key) s

  -- `processPrivateKey`
  unfoldable pub process_private_key :
      TlsWorld → Text → Text → List Text → M Block Key (Private Key)
  unfolding load_keys previous_of
  process_private_key w key_dir set names = do
    loaded ← load_keys w key_dir set (record { key = none; key_prefix = []; info = no_info }) names
    look_up_in_store loaded

  -- `processCertificates`: the blocks of issuers.
  unfoldable pub issuer_blocks : Public Certificate → List Block → M Block Key (Public Certificate)
  unfolding add_to_known_certificates
  issuer_blocks public [] = return public
  issuer_blocks public (block ∷ bs) = do
    new ← know_in_keystore x block false
    _ ← know_in_truststore x block
    certificate ← need unparsable (x.parse_certificate block)
    issuer_blocks
        (record public {
          ca_certificates = public.ca_certificates ++ certificate ∷ [];
          new = public.new || new;
        })
        bs

  abbrev pub issuers_in : Public Certificate → Text → M Block Key (Public Certificate)
  issuers_in public file = do bs ← need unending (blocks_of x.decode file); issuer_blocks public bs

  -- The certificate of the key, and the issuers behind it in its file.
  abbrev pub public_file :
      Public Certificate → Option (Block × Text) → M Block Key (Public Certificate)
  public_file public none = fail undecodable
  public_file public (some (block, rest)) = do
    certificate ← need unparsable (x.parse_certificate block)
    new ← know_in_keystore x block false
    issuers_in (record public { certificate = some certificate; new = public.new || new }) rest

  abbrev pub certificate_file : Bool → Public Certificate → Text → M Block Key (Public Certificate)
  certificate_file true public file = public_file public (x.decode file)
  certificate_file false public file = issuers_in public file

  abbrev pub read_certificate :
      TlsWorld → Text → Text → Text → Public Certificate → Text → M Block Key (Public Certificate)
  read_certificate w key_dir set key_prefix public name = do
    file ← need unreadable (w.read_file (clean_path (key_dir ∷ set ∷ name ∷ [])))
    certificate_file (has_prefix name key_prefix) public file

  unfoldable pub certificate_files :
      TlsWorld
      → Text
      → Text
      → Text
      → Public Certificate
      → List Text
      → M Block Key (Public Certificate)
  unfolding has_suffix has_prefix clean_path issuer_blocks blocks_of
  certificate_files w key_dir set key_prefix public [] = return public
  certificate_files w key_dir set key_prefix public (name ∷ names) = do
    next ←
        if has_suffix name (codes ".crt")
        then read_certificate w key_dir set key_prefix public name
        else return public
    certificate_files w key_dir set key_prefix next names

  abbrev pub process_certificates :
      TlsWorld → Text → Text → Text → List Text → M Block Key (Public Certificate)
  process_certificates w key_dir set key_prefix names =
      certificate_files w key_dir set key_prefix
        (record { certificate = none; ca_certificates = []; new = false }) names

  -- `validateCertificates`; `strings.Trim` with no rune to cut changes nothing.
  abbrev pub validates : Option Text → Bool
  validates none = true
  validates (some value) = not (equal_fold value (codes "false"))

  unfoldable pub are_valid : Environment → Certificate → List Certificate → Bool
  unfolding equal_fold
  are_valid env personal issuers = not (
      validates (env (codes "MQ_ENABLE_CERT_VALIDATION"))
      && any (λ issuer. equal_fold (x.subject personal) (x.subject issuer)) issuers)
