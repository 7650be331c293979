-- ===== src/WebServer/Refreshed.antt =====
-- The runs of `ltpaKeysFileFix` at one start after the other.
use docker_local.Common.{
  ◌≡◌, refl, ap, ◌∙◌, true, false, Option, none, some, List, [], ◌∷◌, Bool-cases, inl, inr,
}
use docker_local.Common.Text.{Text, text_eq}
use docker_local.Disk.{
  Disk, stat_file, remove_file, write_file, put, remove, remove_existing, write, put-content,
  put-other,
}
use docker_local.WebServer.Ltpa.{
  ltpa_keys_file, refreshed_file, is_there, file_exists, LtpaMessage, removed_keys,
  write_dt472893_marker_file, removed, refresh, ltpa_keys_file_fix,
}

apart : text_eq refreshed_file ltpa_keys_file ≡ false
unfolding text_eq
apart = refl

-- The marker is written without a fault.
marker-there :
    (before : List LtpaMessage) (d : Disk)
    → d.fails write_file refreshed_file ≡ false
    → is_there ((write_dt472893_marker_file before d).disk.content refreshed_file) ≡ true
unfolding write
marker-there before d e = rw e (ap is_there (put-content refreshed_file (some []) d))

removed-there :
    (d : Disk)
    → d.fails write_file refreshed_file ≡ false
    → (removed (remove ltpa_keys_file d)).error ≡ none
    → is_there ((removed (remove ltpa_keys_file d)).disk.content refreshed_file) ≡ true
unfolding remove put
removed-there d e h = elim (Bool-cases (d.fails remove_file ltpa_keys_file)) [
  | inl f ↦ let failed = rw f at h in cc
  | inr f ↦ rw f (existing (d.content ltpa_keys_file) (rw f at h))
]
  where
    existing :
        (o : Option Text)
        → (removed (remove_existing o ltpa_keys_file d)).error ≡ none
        → is_there ((removed (remove_existing o ltpa_keys_file d)).disk.content refreshed_file)
          ≡ true
    existing none g = cc
    existing (some t) g = marker-there (removed_keys ∷ []) (put ltpa_keys_file none d) e

refresh-there :
    (d : Disk)
    → d.fails write_file refreshed_file ≡ false
    → (refresh d (file_exists refreshed_file d)).error ≡ none
    → is_there ((refresh d (file_exists refreshed_file d)).disk.content refreshed_file) ≡ true
unfolding file_exists
refresh-there d e h = elim (Bool-cases (d.fails stat_file refreshed_file)) [
  | inl f ↦ let failed = rw f at h in cc
  | inr f ↦ elim (Bool-cases (is_there (d.content refreshed_file))) [
    | inl g ↦ rw (f, g) g
    | inr g ↦ rw (f, g) (removed-there d e (rw (f, g) at h))
  ]
]

ltpa_keys_file_fix-there :
    (d : Disk)
    → d.fails write_file refreshed_file ≡ false
    → (ltpa_keys_file_fix d).error ≡ none
    → is_there ((ltpa_keys_file_fix d).disk.content refreshed_file) ≡ true
unfolding ltpa_keys_file_fix file_exists
ltpa_keys_file_fix-there d e h = elim (Bool-cases (d.fails stat_file ltpa_keys_file)) [
  | inl f ↦ let failed = rw f at h in cc
  | inr f ↦ elim (Bool-cases (is_there (d.content ltpa_keys_file))) [
    | inl g ↦ rw (f, g) (refresh-there d e (rw (f, g) at h))
    | inr g ↦ rw (f, g) (marker-there [] d e)
  ]
]

-- Writing the marker leaves the keys.
marker-keys :
    (before : List LtpaMessage) (d : Disk)
    → (write_dt472893_marker_file before d).disk.content ltpa_keys_file ≡ d.content ltpa_keys_file
unfolding write
marker-keys before d = elim (Bool-cases (d.fails write_file refreshed_file)) [
  | inl e ↦ rw e refl
  | inr e ↦ rw e (put-other refreshed_file ltpa_keys_file (some []) d apart)
]

refresh-keys :
    (d : Disk)
    → is_there (d.content refreshed_file) ≡ true
    → (refresh d (file_exists refreshed_file d)).disk.content ltpa_keys_file
      ≡ d.content ltpa_keys_file
unfolding file_exists
refresh-keys d m = elim (Bool-cases (d.fails stat_file refreshed_file)) [
  | inl f ↦ rw f refl
  | inr f ↦ rw (f, m) refl
]

ltpa_keys_file_fix-keys :
    (d : Disk)
    → is_there (d.content refreshed_file) ≡ true
    → (ltpa_keys_file_fix d).disk.content ltpa_keys_file ≡ d.content ltpa_keys_file
unfolding ltpa_keys_file_fix file_exists
ltpa_keys_file_fix-keys d m = elim (Bool-cases (d.fails stat_file ltpa_keys_file)) [
  | inl f ↦ rw f refl
  | inr f ↦ elim (Bool-cases (is_there (d.content ltpa_keys_file))) [
    | inl g ↦ rw (f, g) (refresh-keys d m)
    | inr g ↦ rw (f, g) (marker-keys [] d)
  ]
]

-- If `ltpaKeysFileFix` returns no error and the marker file can be written, then every later run that finds the marker as it was left
-- keeps the file ltpa.keys, whatever it holds by then and whichever calls fail.
pub ltpa_keys_file_fix-once :
    (d later : Disk)
    → d.fails write_file refreshed_file ≡ false
    → (ltpa_keys_file_fix d).error ≡ none
    → later.content refreshed_file ≡ (ltpa_keys_file_fix d).disk.content refreshed_file
    → (ltpa_keys_file_fix later).disk.content ltpa_keys_file ≡ later.content ltpa_keys_file
ltpa_keys_file_fix-once d later e h same =
    ltpa_keys_file_fix-keys later (ap is_there same ∙ ltpa_keys_file_fix-there d e h)
