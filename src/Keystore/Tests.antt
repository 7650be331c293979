-- ===== src/Keystore/Tests.antt =====
-- A CMS key database that is there already, and the labels of one certificate of its own and one that is trusted.
use docker_local.Common.{◌≡◌, refl, true, false, some, [], ◌∷◌, ◌++◌, map}
use docker_local.Common.Text.{codes}
use docker_local.Volumes.Clean.{Found, there}
use docker_local.Keystore.Commands.{
  KeyStore, is_some, new_cms_key_store, KeyWorld, remove_file, run_command, remove_all, old_files,
  without_extension, before_dot, create,
}
use docker_local.Keystore.Listing.{get_certificate_labels, list_all_certificates}
use docker_local.Keystore.Created.{replaced, typed, create-succeeded}

abbrev key_db : KeyStore
key_db = new_cms_key_store (codes "/run/tls.d/key.kdb") (codes "secret") true

abbrev working : Found → KeyWorld
working found = record {
  stat = λ path. found;
  remove_fails = λ path. false;
  run = λ command args.
      some (codes "Certificates\n* default, - personal, ! trusted\n-\tqm1\n!\t\"CN=ca\"\r\n");
}

stash_removed : without_extension (codes "/run/tls.d/key.kdb") ≡ codes "/run/tls.d/key"
unfolding without_extension before_dot
stash_removed = refl

created : (create (working there) key_db).succeeded ≡ true
unfolding create remove_all old_files
created = refl

create-succeeded_example :
    ((create (working there) key_db).effects
      ≡ map remove_file (replaced key_db there) ++ run_command key_db.command (typed key_db) ∷ [])
    × (is_some ((working there).run key_db.command (typed key_db)) ≡ true)
create-succeeded_example = create-succeeded (working there) key_db created

own_labels : get_certificate_labels (working there) key_db ≡ some (codes "qm1" ∷ [])
unfolding get_certificate_labels
own_labels = refl

all_labels :
    list_all_certificates (working there) key_db ≡ some (codes "qm1" ∷ codes "\"CN=ca\"" ∷ [])
unfolding list_all_certificates
all_labels = refl
