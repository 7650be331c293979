-- ===== src/Keystore/Created.antt =====
-- What `Create` leaves behind, and what `CreateStash` returns.
use docker_local.Common.{
  ◌≡◌, refl, ap, ◌∙◌, if◌then◌else◌, Bool, true, false, ◌&&◌, List, [], ◌∷◌, ◌++◌, map, any,
  Bool-cases, inl, inr,
}
use docker_local.Common.Text.{Text, codes, text_eq}
use docker_local.Volumes.Clean.{Found, there, missing, unknown}
use docker_local.Keystore.Commands.{
  KeyStore, Effect, remove_file, run_command, KeyWorld, Outcome, ran, remove_all, old_files,
  without_extension, create_args, create_when, is_some, create, stash_when, create_stash, is_there,
}

-- The files of an old key database, with the stash, the requests and the revocation list of a CMS one.
abbrev pub replaced : KeyStore → Found → List Text
replaced ks there =
    map (λ extension. without_extension ks.filename ++ extension)
      (if text_eq ks.key_store_type (codes "cms")
        then codes ".sth" ∷ codes ".rdb" ∷ codes ".crl" ∷ []
        else [])
    ++ ks.filename ∷ []
replaced ks missing = []
replaced ks unknown = []

-- The command, as it is typed, less the program.
abbrev pub typed : KeyStore → List Text
typed ks =
    codes "-keydb"
    ∷ codes "-create"
    ∷ (if ks.fips_enabled then codes "-fips" else codes "-fips false")
    ∷ codes "-type"
    ∷ ks.key_store_type
    ∷ codes "-db"
    ∷ ks.filename
    ∷ codes "-pw"
    ∷ ks.password
    ∷ codes "-stash"
    ∷ []

old_files-replaced : (ks : KeyStore) → old_files ks ≡ replaced ks there
unfolding old_files
old_files-replaced ks = elim (Bool-cases (text_eq ks.key_store_type (codes "cms"))) [
  | inl e ↦ rw e refl
  | inr e ↦ rw e refl
]

remove_all-succeeded :
    (w : KeyWorld) (paths : List Text) (rest : Outcome)
    → (remove_all w paths rest).succeeded ≡ true
    → ((remove_all w paths rest).effects ≡ map remove_file paths ++ rest.effects)
      × (rest.succeeded ≡ true)
unfolding remove_all
remove_all-succeeded w [] rest h = (refl, h)
remove_all-succeeded w (p ∷ ps) rest h = elim (Bool-cases (w.remove_fails p)) [
  | inl e ↦ absurd (let f = rw e at h in cc)
  | inr e ↦
      let (same, good) = remove_all-succeeded w ps rest (rw e at h) in
      (rw e (ap (λ es. remove_file p ∷ es) same), good)
]

create_when-succeeded :
    (w : KeyWorld) (ks : KeyStore) (found : Found)
    → (create_when w ks found).succeeded ≡ true
    → ((create_when w ks found).effects
        ≡ map remove_file (replaced ks found) ++ run_command ks.command (typed ks) ∷ [])
      × (is_some (w.run ks.command (typed ks)) ≡ true)
create_when-succeeded w ks there h =
    let (effects, good) =
      remove_all-succeeded w (old_files ks) (ran w ks.command (create_args ks)) h in
    (
      effects
          ∙ ap (λ files. map remove_file files ++ run_command ks.command (typed ks) ∷ [])
              (old_files-replaced ks),
      good,
    )
create_when-succeeded w ks missing h = (refl, h)
create_when-succeeded w ks unknown h = cc

-- Where `Create` succeeds, what it has done is this and nothing else: it has removed the old key database, if there was one, but for a CMS
-- one first its three other files, .sth, .rdb and .crl, and then it has run the command `-keydb -create` with the type, the name, the
-- password and the FIPS mode of the key store, and `-stash`, and that has succeeded.
pub create-succeeded :
    (w : KeyWorld) (ks : KeyStore)
    → (create w ks).succeeded ≡ true
    → ((create w ks).effects
        ≡ map remove_file (replaced ks (w.stat ks.filename))
          ++ run_command ks.command (typed ks) ∷ [])
      × (is_some (w.run ks.command (typed ks)) ≡ true)
unfolding create
create-succeeded w ks h = create_when-succeeded w ks (w.stat ks.filename) h

abbrev pub is_run : Effect → Bool
is_run (remove_file path) = false
is_run (run_command command args) = true

stash_when-created :
    (w : KeyWorld) (ks : KeyStore) (found : Found)
    → ((stash_when w ks found).succeeded ≡ is_there found)
      × ((any is_run (stash_when w ks found).effects && (stash_when w ks found).succeeded) ≡ false)
stash_when-created w ks there = (refl, refl)
stash_when-created w ks missing = (refl, refl)
stash_when-created w ks unknown = (refl, refl)

-- `CreateStash` returns no error exactly if the stash was there before, and so whenever it has run the command that makes
-- the stash, it returns an error, also if the command succeeded.
pub create_stash-created :
    (w : KeyWorld) (ks : KeyStore)
    → ((create_stash w ks).succeeded
        ≡ is_there (w.stat (without_extension ks.filename ++ codes ".sth")))
      × ((any is_run (create_stash w ks).effects && (create_stash w ks).succeeded) ≡ false)
unfolding create_stash
create_stash-created w ks =
    stash_when-created w ks (w.stat (without_extension ks.filename ++ codes ".sth"))
