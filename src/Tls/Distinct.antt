-- ===== src/Tls/Distinct.antt =====
-- The fingerprints that a key store knows, and the certificates that it trusts, as lists without repetition.
use docker_local.Common.{
  ◌≡◌, refl, ap, ◌∙◌, Bool, true, false, ◌&&◌, not, Option, none, some, List, [], ◌∷◌, ◌++◌, map,
  any, any-append, all, all-append, Result, ok, err, arith, Bool-cases, inl, inr,
}
use docker_local.Common.Text.{Text, text_eq, text_eq_iff, text_eq_refl}
use docker_local.Tls.Store.{Crypto, KeyStoreData, TlsError, unparsable}
use docker_local.Tls.Certificates.{
  get_certificate_fingerprint, is_known, add_unknown, add_print, add_to_known_certificates,
}

abbrev pub distinct : List Text → Bool
distinct [] = true
distinct (x ∷ xs) = not (any (text_eq x) xs) && distinct xs

text_eq_sym : (a b : Text) → text_eq a b ≡ text_eq b a
text_eq_sym a b = elim (Bool-cases (text_eq a b)) [
  | inl e ↦ let same = (text_eq_iff a b).0 e in rw (same, text_eq_refl b) refl
  | inr e ↦ elim (Bool-cases (text_eq b a)) [
    | inl f ↦ let same = (text_eq_iff b a).0 f in rw (same, text_eq_refl a) refl
    | inr f ↦ rw (e, f) refl
  ]
]

any-text_eq :
    (a b : Text) (xs : List Text)
    → text_eq a b ≡ true
    → any (text_eq b) xs ≡ true
    → any (text_eq a) xs ≡ true
any-text_eq a b xs e h = rw ((text_eq_iff a b).0 e) h

pub distinct-append :
    (xs : List Text) (y : Text)
    → distinct xs ≡ true
    → any (text_eq y) xs ≡ false
    → distinct (xs ++ y ∷ []) ≡ true
distinct-append [] y h n = refl
distinct-append (x ∷ xs) y h n =
    let rest = distinct-append xs y (ground arith) (ground arith) in
    let apart : text_eq x y ≡ false = text_eq_sym x y ∙ ground arith in
    let others : any (text_eq x) xs ≡ false = ground arith in
    rw (any-append (text_eq x) xs (y ∷ []), others, apart, rest) refl

-- A list of fingerprints within another.
abbrev pub within : List Text → List Text → Bool
within known prints = all (λ p. any (text_eq p) known) prints

within-more :
    (known prints : List Text) (y : Text)
    → within known prints ≡ true
    → within (known ++ y ∷ []) prints ≡ true
within-more known [] y h = refl
within-more known (p ∷ ps) y h =
    let first : any (text_eq p) known ≡ true = ground arith in
    let rest = within-more known ps y (ground arith) in
    rw (any-append (text_eq p) known (y ∷ []), first, rest) refl

within-any :
    (known prints : List Text) (y : Text)
    → within known prints ≡ true
    → any (text_eq y) known ≡ false
    → any (text_eq y) prints ≡ false
within-any known [] y h n = refl
within-any known (p ∷ ps) y h n =
    let rest = within-any known ps y (ground arith) n in
    elim (Bool-cases (text_eq y p)) [
      | inl e ↦
          let first : any (text_eq p) known ≡ true = ground arith in
          let f = any-text_eq y p known e first in absurd (ground arith)
      | inr e ↦ rw (e, rest) refl
    ]

within-last : (known : List Text) (y : Text) → any (text_eq y) (known ++ y ∷ []) ≡ true
within-last known y = any-append (text_eq y) known (y ∷ []) ∙ rw (text_eq_refl y) (ground arith)

abbrev or_empty : Option Text → Text
or_empty none = []
or_empty (some t) = t

module _ {Block Key Certificate : Type 0} (x : Crypto Block Key Certificate) where
  abbrev pub prints_of : List Block → List Text
  prints_of blocks = map (λ b. or_empty (get_certificate_fingerprint x b)) blocks

  pub record IsDistinct (d : KeyStoreData Block Key) : Type 0 where
    pub once : distinct d.known_finger_prints ≡ true
    pub trusted_known : within d.known_finger_prints (prints_of d.trusted_certs) ≡ true
    pub trusted_once : distinct (prints_of d.trusted_certs) ≡ true

  prints_of-append :
      (bs : List Block) (b : Block) → prints_of (bs ++ b ∷ []) ≡ prints_of bs ++ prints_of (b ∷ [])
  prints_of-append [] b = refl
  prints_of-append (c ∷ bs) b =
      ap (λ ps. or_empty (get_certificate_fingerprint x c) ∷ ps) (prints_of-append bs b)

  add_unknown-IsDistinct :
      (block : Block) (to_keystore : Bool) (sha : Text) (d : KeyStoreData Block Key)
      → get_certificate_fingerprint x block ≡ some sha
      → any (text_eq sha) d.known_finger_prints ≡ false
      → IsDistinct d
      → IsDistinct (add_unknown x block to_keystore sha d)
  add_unknown-IsDistinct block false sha d e n i = record {
    once = distinct-append d.known_finger_prints sha i.once n;
    trusted_known =
        within-more d.known_finger_prints (prints_of d.trusted_certs) sha i.trusted_known;
    trusted_once = i.trusted_once;
  }
  add_unknown-IsDistinct block true sha d e n i =
      let added : prints_of (d.trusted_certs ++ block ∷ [])
          ≡ prints_of d.trusted_certs ++ sha ∷ [] =
        prints_of-append d.trusted_certs block
        ∙ ap (λ o. prints_of d.trusted_certs ++ or_empty o ∷ []) e in
      let apart =
        within-any d.known_finger_prints (prints_of d.trusted_certs) sha i.trusted_known n in
      record {
        once = distinct-append d.known_finger_prints sha i.once n;
        trusted_known =
            ap (within (d.known_finger_prints ++ sha ∷ [])) added
            ∙ all-append (λ p. any (text_eq p) (d.known_finger_prints ++ sha ∷ []))
                (prints_of d.trusted_certs) (sha ∷ [])
            ∙ rw
                (
                  within-more d.known_finger_prints (prints_of d.trusted_certs) sha i.trusted_known,
                  within-last d.known_finger_prints sha,
                )
                refl;
        trusted_once =
            ap distinct added
            ∙ distinct-append (prints_of d.trusted_certs) sha i.trusted_once apart;
      }

  -- What `addToKnownCertificates` leaves, where it does not fail: the key store and its keys as they were.
  pub record Knows (d d' : KeyStoreData Block Key) : Type 0 where
    pub distinct_still : IsDistinct d'
    pub same_keystore : d'.keystore ≡ d.keystore
    pub same_lookup : d'.key_label_lookup ≡ d.key_label_lookup

  abbrev pub KnowsIfOk :
      KeyStoreData Block Key → Result TlsError (Bool × KeyStoreData Block Key) → Type 0
  KnowsIfOk d (ok (new, d')) = Knows d d'
  KnowsIfOk d (err e) = e ≡ unparsable

  add_print-Knows :
      (block : Block) (to_keystore : Bool) (d : KeyStoreData Block Key) (o : Option Text)
      → get_certificate_fingerprint x block ≡ o
      → IsDistinct d
      → KnowsIfOk d (add_print x block to_keystore d o)
  add_print-Knows block to_keystore d none e i = refl
  add_print-Knows block to_keystore d (some sha) e i =
      elim (Bool-cases (is_known x sha d.known_finger_prints)) [
        | inl f ↦ rw f (record { distinct_still = i; same_keystore = refl; same_lookup = refl })
        | inr f ↦ rw f (record {
          distinct_still =
              add_unknown-IsDistinct block to_keystore sha d e (unfold is_known in f) i;
          same_keystore = refl;
          same_lookup = refl;
        })
      ]

  pub add_to_known_certificates-Knows :
      (block : Block) (to_keystore : Bool) (d : KeyStoreData Block Key)
      → IsDistinct d
      → KnowsIfOk d (add_to_known_certificates x block to_keystore d)
  unfolding add_to_known_certificates
  add_to_known_certificates-Knows block to_keystore d i =
      add_print-Knows block to_keystore d (get_certificate_fingerprint x block) refl i
