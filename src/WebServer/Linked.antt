-- ===== src/WebServer/Linked.antt =====
-- The files mqwebuser.xml, which may hold a secret, on the volume.
use docker_local.Common.{
  ◌≡◌, sym, ap, ◌∙◌, Bool, true, false, ◌||◌, not, Option, none, some, List, [], ◌∷◌, ◌++◌,
  Bool-cases, inl, inr,
}
use docker_local.Common.Text.{Text, codes, text_eq, text_eq_iff, has_suffix}
use docker_local.Disk.{Disk, remove_file, remove, remove_existing, put, put-other, put-content}
use docker_local.Copying.{copy_file-other}
use docker_local.Volumes.Clean.{Found, there, missing, unknown}
use docker_local.WebServer.Ltpa.{is_there}
use docker_local.WebServer.Files.{
  Tree, Step, link_at, stat, is_directory, is_taken, make_directory, remove_it, remove_path,
  symlink, Visit, prefix, volume, from, to, is_user_file, place, place_behind, visit_file,
  visit_directory, visit_as, visit_found, visit, walk_on, walk,
}

-- No file has the name; a link may.
abbrev pub is_absent : Text → Tree → Bool
is_absent path t = not (is_there (t.disk.content path))

gone :
    (path other : Text) (d : Disk)
    → is_there (d.content other) ≡ false
    → is_there ((put path none d).content other) ≡ false
gone path other d h = elim (Bool-cases (text_eq path other)) [
  | inl e ↦
      let same = (text_eq_iff path other).0 e in
      ap (λ p. is_there ((put path none d).content p)) (sym same)
      ∙ ap is_there (put-content path none d)
  | inr e ↦ ap is_there (put-other path other none d e) ∙ h
]

remove-absent :
    (path other : Text) (d : Disk)
    → is_there (d.content other) ≡ false
    → is_there ((remove path d).0.content other) ≡ false
unfolding remove
remove-absent path other d h = elim (Bool-cases (d.fails remove_file path)) [
  | inl e ↦ rw e h
  | inr e ↦ rw e (existing (d.content path))
]
  where
    existing : (o : Option Text) → is_there ((remove_existing o path d).0.content other) ≡ false
    existing none = h
    existing (some t) = gone path other d h

-- With the fields of a state that a step changes; the file stays absent.
module _ (rest : Text) (user : has_suffix (prefix ++ rest) (codes "/mqwebuser.xml") ≡ true) where
  abbrev IsAbsent : Step → Type 0
  IsAbsent (t, e) = is_there (t.disk.content (volume ++ rest)) ≡ false

  abbrev Keeps : (Tree → Step) → Type 0
  Keeps step = (t : Tree) → is_there (t.disk.content (volume ++ rest)) ≡ false → IsAbsent (step t)

  remove_path-Keeps : (path : Text) → Keeps (remove_path path)
  remove_path-Keeps path t h = by_link (link_at path t.links)
    where
      by_link : (o : Option Text) → IsAbsent (remove_it path t o)
      by_link (some target) = elim (Bool-cases (t.disk.fails remove_file path)) [
        | inl e ↦ rw e h
        | inr e ↦ rw e h
      ]
      by_link none = elim (Bool-cases (is_directory path t)) [
        | inl d ↦ elim (Bool-cases (t.disk.fails remove_file path)) [
          | inl e ↦ rw (d, e) h
          | inr e ↦ rw (d, e) h
        ]
        | inr d ↦ rw d (remove-absent path (volume ++ rest) t.disk h)
      ]

  symlink-Keeps : (target path : Text) → Keeps (symlink target path)
  symlink-Keeps target path t h = elim (Bool-cases (t.symlink_fails path || is_taken path t)) [
    | inl e ↦ rw e h
    | inr e ↦ rw e h
  ]

  make_directory-Keeps : (path : Text) → Keeps (make_directory path)
  make_directory-Keeps path t h = elim (Bool-cases (t.mkdir_fails path)) [
    | inl e ↦ rw e h
    | inr e ↦ rw e h
  ]

  to-other : (v : Visit) → is_user_file v ≡ false → text_eq (to v) (volume ++ rest) ≡ false
  unfolding text_eq
  to-other v n = elim (Bool-cases (text_eq v.below rest)) [
    | inl e ↦
        let same = (text_eq_iff v.below rest).0 e in
        let suffix = ap (λ b. has_suffix (prefix ++ b) (codes "/mqwebuser.xml")) same ∙ user in cc
    | inr e ↦ e
  ]

  place-Keeps : (v : Visit) → Keeps (place v)
  place-Keeps v t h = elim (Bool-cases (is_user_file v)) [
    | inl e ↦ rw e (symlink-Keeps (from v) (to v) t h)
    | inr e ↦ rw e (
        ap is_there
          (copy_file-other (codes "/") (from v) (to v) (volume ++ rest) t.disk (to-other v e))
        ∙ h)
  ]

  place_behind-Keeps : (v : Visit) (s : Step) → IsAbsent s → IsAbsent (place_behind v s)
  place_behind-Keeps v (t, some e) h = h
  place_behind-Keeps v (t, none) h = place-Keeps v t h

  visit_file-Keeps : (v : Visit) (exists : Bool) → Keeps (visit_file v exists)
  visit_file-Keeps v true t h =
      place_behind-Keeps v (remove_path (to v) t) (remove_path-Keeps (to v) t h)
  visit_file-Keeps v false t h = place-Keeps v t h

  visit_directory-Keeps : (v : Visit) (exists : Bool) → Keeps (visit_directory v exists)
  visit_directory-Keeps v true t h = h
  visit_directory-Keeps v false t h = make_directory-Keeps (to v) t h

  visit_as-Keeps : (v : Visit) (exists : Bool) → Keeps (visit_as v exists)
  visit_as-Keeps v exists t h = elim (Bool-cases v.is_dir) [
    | inl e ↦ rw e (visit_directory-Keeps v exists t h)
    | inr e ↦ rw e (visit_file-Keeps v exists t h)
  ]

  visit_found-Keeps : (v : Visit) (f : Found) → Keeps (visit_found v f)
  visit_found-Keeps v there t h = visit_as-Keeps v true t h
  visit_found-Keeps v missing t h = visit_as-Keeps v false t h
  visit_found-Keeps v unknown t h = h

  visit-Keeps : (v : Visit) → Keeps (visit v)
  unfolding visit
  visit-Keeps v t h = elim (Bool-cases v.failed) [
    | inl e ↦ rw e h
    | inr e ↦ rw e (visit_found-Keeps v (stat (to v) t) t h)
  ]

  walk_on-Keeps :
      (next : Tree → Step) (s : Step) → Keeps next → IsAbsent s → IsAbsent (walk_on next s)
  walk_on-Keeps next (t, some e) k h = h
  walk_on-Keeps next (t, none) k h = k t h

  walk-Keeps : (vs : List Visit) → Keeps (walk vs)
  unfolding walk
  walk-Keeps [] t h = h
  walk-Keeps (v ∷ vs) t h = walk_on-Keeps (walk vs) (visit v t) (walk-Keeps vs) (visit-Keeps v t h)

-- Whatever the walk comes to and whichever calls fail: where the path under /etc/mqm/web ends in /mqwebuser.xml and the volume has no
-- file of that path, it has none after the walk.
pub walk-unpersisted :
    (rest : Text) (vs : List Visit) (t : Tree)
    → has_suffix (prefix ++ rest) (codes "/mqwebuser.xml") ≡ true
    → is_there (t.disk.content (volume ++ rest)) ≡ false
    → is_there ((walk vs t).0.disk.content (volume ++ rest)) ≡ false
walk-unpersisted rest vs t user h = walk-Keeps rest user vs t h
