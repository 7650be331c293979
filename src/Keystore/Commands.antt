-- ===== src/Keystore/Commands.antt =====
-- The operations on a key database: the files that they remove and the commands that they run.
use docker_local.Common.{
  Bool, true, false, ◌&&◌, not, Option, none, some, List, [], ◌∷◌, ◌++◌, if◌then◌else◌,
}
use docker_local.Common.Text.{Text, codes, text_eq, has_rune}
use docker_local.Volumes.Clean.{Found, there, missing, unknown}

pub record KeyStore : Type 0 where
  pub filename : Text
  pub password : Text
  pub key_store_type : Text
  pub command : Text
  pub fips_enabled : Bool

abbrev pub runmqakm : Text
runmqakm = codes "/opt/mqm/bin/runmqakm"

abbrev pub new_store : Text → Text → Text → Text → Bool → KeyStore
new_store key_store_type command filename password fips_enabled = record {
  filename = filename;
  password = password;
  key_store_type = key_store_type;
  command = command;
  fips_enabled = fips_enabled;
}

-- `NewJKSKeyStore`, `NewCMSKeyStore` and `NewPKCS12KeyStore`; the last argument is `fips.IsFIPSEnabled()`.
abbrev pub new_jks_key_store : Text → Text → Bool → KeyStore
new_jks_key_store = new_store (codes "jks") (codes "/opt/mqm/bin/runmqckm")

abbrev pub new_cms_key_store : Text → Text → Bool → KeyStore
new_cms_key_store = new_store (codes "cms") runmqakm

abbrev pub new_pkcs12_key_store : Text → Text → Bool → KeyStore
new_pkcs12_key_store = new_store (codes "p12") runmqakm

-- A name without its extension, `filename[0:len(filename)-len(filepath.Ext(filename))]`.
abbrev pub keep_rune : Text → Text → Option Text → Option Text
keep_rune c s (some t) = some (c ++ t)
keep_rune c s none = if text_eq c (codes ".") && not (has_rune b'/' s) then some [] else none

unfoldable pub before_dot : Text → Option Text
unfolding text_eq
before_dot [] = none
before_dot (c ∷ s) = keep_rune (c ∷ []) s (before_dot s)

abbrev pub or_whole : Text → Option Text → Text
or_whole s none = s
or_whole s (some t) = t

unfoldable pub without_extension : Text → Text
unfolding before_dot
without_extension s = or_whole s (before_dot s)

-- What an operation does outside the program, in order.
pub data Effect : Type 0 where
  remove_file : Text → Effect
  run_command : Text → List Text → Effect

-- What the files and commands answer; a command's output is `none` if it fails.
pub record KeyWorld : Type 0 where
  pub stat : Text → Found
  pub remove_fails : Text → Bool
  pub run : Text → List Text → Option Text

pub record Outcome : Type 0 where
  pub effects : List Effect
  pub succeeded : Bool

abbrev pub fips_flag : KeyStore → Text
fips_flag ks = if ks.fips_enabled then codes "-fips" else codes "-fips false"

abbrev pub is_some : Option Text → Bool
is_some none = false
is_some (some out) = true

abbrev pub ran : KeyWorld → Text → List Text → Outcome
ran w command args = record {
  effects = run_command command args ∷ [];
  succeeded = is_some (w.run command args);
}

abbrev pub behind : Effect → Outcome → Outcome
behind e o = record { effects = e ∷ o.effects; succeeded = o.succeeded }

abbrev pub nothing : Bool → Outcome
nothing succeeded = record { effects = []; succeeded = succeeded }

-- Files removed one after the other, up to the first that cannot be, and then the rest.
unfoldable pub remove_all : KeyWorld → List Text → Outcome → Outcome
remove_all w [] rest = rest
remove_all w (path ∷ paths) rest =
    let removed = behind (remove_file path) (remove_all w paths rest) in
    if w.remove_fails path then nothing false else removed

-- The files that `Create` removes where the key database is there.
unfoldable pub old_files : KeyStore → List Text
unfolding text_eq without_extension
old_files ks =
    (if text_eq ks.key_store_type (codes "cms")
      then (without_extension ks.filename ++ codes ".sth")
        ∷ (without_extension ks.filename ++ codes ".rdb")
        ∷ (without_extension ks.filename ++ codes ".crl")
        ∷ []
      else [])
    ++ ks.filename ∷ []

abbrev pub create_args : KeyStore → List Text
create_args ks =
    codes "-keydb"
    ∷ codes "-create"
    ∷ fips_flag ks
    ∷ codes "-type"
    ∷ ks.key_store_type
    ∷ codes "-db"
    ∷ ks.filename
    ∷ codes "-pw"
    ∷ ks.password
    ∷ codes "-stash"
    ∷ []

abbrev pub create_when : KeyWorld → KeyStore → Found → Outcome
create_when w ks there = remove_all w (old_files ks) (ran w ks.command (create_args ks))
create_when w ks missing = ran w ks.command (create_args ks)
create_when w ks unknown = nothing false

-- `Create`
unfoldable pub create : KeyWorld → KeyStore → Outcome
unfolding remove_all old_files
create w ks = create_when w ks (w.stat ks.filename)

abbrev pub stash_args : KeyStore → List Text
stash_args ks =
    codes "-keydb"
    ∷ fips_flag ks
    ∷ codes "-stashpw"
    ∷ codes "-type"
    ∷ ks.key_store_type
    ∷ codes "-db"
    ∷ ks.filename
    ∷ codes "-pw"
    ∷ ks.password
    ∷ []

-- `CreateStash`: behind the command, the error of `os.Stat` is returned.
abbrev pub stash_when : KeyWorld → KeyStore → Found → Outcome
stash_when w ks there = nothing true
stash_when w ks missing = record {
  effects = run_command ks.command (stash_args ks) ∷ [];
  succeeded = false;
}
stash_when w ks unknown = nothing false

unfoldable pub create_stash : KeyWorld → KeyStore → Outcome
unfolding without_extension
create_stash w ks = stash_when w ks (w.stat (without_extension ks.filename ++ codes ".sth"))

abbrev pub import_args : KeyStore → Text → Text → List Text
import_args ks input_file password =
    codes "-cert"
    ∷ codes "-import"
    ∷ fips_flag ks
    ∷ codes "-file"
    ∷ input_file
    ∷ codes "-pw"
    ∷ password
    ∷ codes "-target"
    ∷ ks.filename
    ∷ codes "-target_pw"
    ∷ ks.password
    ∷ codes "-target_type"
    ∷ ks.key_store_type
    ∷ []

-- `Import`
abbrev pub import : KeyWorld → KeyStore → Text → Text → Outcome
import w ks input_file password = ran w ks.command (import_args ks input_file password)

-- `CreateSelfSignedCertificate`
abbrev pub self_signed_args : KeyStore → Text → Text → Text → List Text
self_signed_args ks label dn hostname =
    codes "-cert"
    ∷ codes "-create"
    ∷ fips_flag ks
    ∷ codes "-db"
    ∷ ks.filename
    ∷ codes "-pw"
    ∷ ks.password
    ∷ codes "-label"
    ∷ label
    ∷ codes "-dn"
    ∷ dn
    ∷ codes "-san_dnsname"
    ∷ hostname
    ∷ codes "-size 2048 -sig_alg sha512 -eku serverAuth"
    ∷ []

abbrev pub create_self_signed_certificate : KeyWorld → KeyStore → Text → Text → Text → Outcome
create_self_signed_certificate w ks label dn hostname =
    ran w ks.command (self_signed_args ks label dn hostname)

-- `Add` and `AddNoLabel`
abbrev pub add_args : KeyStore → Text → List Text
add_args ks input_file =
    codes "-cert"
    ∷ codes "-add"
    ∷ fips_flag ks
    ∷ codes "-db"
    ∷ ks.filename
    ∷ codes "-type"
    ∷ ks.key_store_type
    ∷ codes "-pw"
    ∷ ks.password
    ∷ codes "-file"
    ∷ input_file
    ∷ []

abbrev pub add : KeyWorld → KeyStore → Text → Text → Outcome
add w ks input_file label = ran w ks.command (add_args ks input_file ++ codes "-label" ∷ label ∷ [])

abbrev pub add_no_label : KeyWorld → KeyStore → Text → Outcome
add_no_label w ks input_file = ran w ks.command (add_args ks input_file)

-- `RenameCertificate`: the installation of GSKit that is there runs the command, but for Java key stores.
abbrev pub is_there : Found → Bool
is_there there = true
is_there missing = false
is_there unknown = false

abbrev pub rename_args : KeyStore → Text → Text → List Text
rename_args ks from to =
    codes "-cert"
    ∷ codes "-rename"
    ∷ codes "-db"
    ∷ ks.filename
    ∷ codes "-pw"
    ∷ ks.password
    ∷ codes "-label"
    ∷ from
    ∷ codes "-new_label"
    ∷ to
    ∷ []

unfoldable pub rename_certificate : KeyWorld → KeyStore → Text → Text → Outcome
unfolding text_eq
rename_certificate w ks from to =
    if text_eq ks.command runmqakm
    then (if is_there (w.stat (codes "/opt/mqm/gskit9"))
        then ran w (codes "/opt/mqm/gskit9/bin/gsk9certutil_64") (rename_args ks from to)
        else if is_there (w.stat (codes "/opt/mqm/gskit8"))
        then ran w (codes "/opt/mqm/gskit8/bin/gsk8capicmd_64") (rename_args ks from to)
        else nothing false)
    else ran w ks.command (rename_args ks from to)
