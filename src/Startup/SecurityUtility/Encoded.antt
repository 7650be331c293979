-- ===== src/Startup/SecurityUtility/Encoded.antt =====
-- What the security utility is given and returns.
use docker_local.Common.{
  ℕ, ◌≤◌, ◌≡◌, refl, sym, ap, ◌∙◌, ◌↔◌, ◌⊎◌, ◌≢◌, >>=-ok, ◌==◌, ==_iff, Bool-cases, inl, inr, Bool,
  true, false, ◌||◌, none, List, [], ◌∷◌, ◌++◌, Result, ok, err, arith,
}
use docker_local.Common.Text.{
  Text, codes, len, contains, split, trim_space, trim_left, trim_right, cons_unless_blank, is_space,
  has_rune, has_prefix,
}
use docker_local.Startup.SecurityUtility.{
  encode_failed, SecurityError, SecurityUtility, check_maximum, encode_arguments, encode_secrets,
  execute_security_utility, extract_encoded_secret, first_marked, generate_arguments,
  generate_liberty_aes_key_file, is_marked, max_secret_length, min_secret_length,
  validate_security_utility,
}

-- White space is not the rune that is looked for.
distinct : (b c : ℕ) → is_space b ≡ false → is_space c ≡ true → false ≡ (c == b)
distinct b c h e = elim (Bool-cases (c == b)) [
  | inl same ↦ let same' = (==_iff c b).0 same in let e' = rw same' at e in cc
  | inr other ↦ rw other refl
]

has_rune-cons_unless_blank :
    (b c : ℕ) (s : Text)
    → is_space b ≡ false
    → has_rune b (cons_unless_blank c s) ≡ has_rune b (c ∷ s)
unfolding cons_unless_blank
has_rune-cons_unless_blank b c [] h = elim (Bool-cases (is_space c)) [
  | inl e ↦ rw e (ap (λ found. found || false) (distinct b c h e))
  | inr e ↦ rw e refl
]
has_rune-cons_unless_blank b c (d ∷ s) h = refl

has_rune-trim_right :
    (b : ℕ) (s : Text) → is_space b ≡ false → has_rune b (trim_right s) ≡ has_rune b s
unfolding trim_right
has_rune-trim_right b [] h = refl
has_rune-trim_right b (c ∷ s) h =
    has_rune-cons_unless_blank b c (trim_right s) h
    ∙ ap (λ found. (c == b) || found) (has_rune-trim_right b s h)

has_rune-trim_left :
    (b : ℕ) (s : Text) → is_space b ≡ false → has_rune b (trim_left s) ≡ has_rune b s
unfolding trim_left
has_rune-trim_left b [] h = refl
has_rune-trim_left b (c ∷ s) h = elim (Bool-cases (is_space c)) [
  | inl e ↦ rw e (has_rune-trim_left b s h ∙ ap (λ found. found || has_rune b s) (distinct b c h e))
  | inr e ↦ rw e refl
]

-- Trimming leaves what is not white space.
pub has_rune-trim_space :
    (b : ℕ) (s : Text) → is_space b ≡ false → has_rune b (trim_space s) ≡ has_rune b s
unfolding trim_space
has_rune-trim_space b s h = has_rune-trim_right b (trim_left s) h ∙ has_rune-trim_left b s h

has_rune-prefix : (b : ℕ) (s p : Text) → has_prefix s (b ∷ p) ≡ true → has_rune b s ≡ true
unfolding has_prefix
has_rune-prefix b [] p h = cc
has_rune-prefix b (c ∷ s) p h = ground arith

has_rune-contains : (b : ℕ) (s p : Text) → contains s (b ∷ p) ≡ true → has_rune b s ≡ true
unfolding contains
has_rune-contains b [] p h = cc
has_rune-contains b (c ∷ s) p h =
    ground (arith, has_rune-prefix b (c ∷ s) p, has_rune-contains b s p)

is_marked-brace : (line : Text) → is_marked line ≡ true → has_rune b'{' line ≡ true
unfolding is_marked
is_marked-brace line h =
    ground (
      arith,
      has_rune-contains b'{' line (codes "aes}"),
      has_rune-contains b'{' line (codes "hash}"),
    )

first_marked-brace :
    (lines : List Text) {line : Text} → first_marked lines ≡ ok line → has_rune b'{' line ≡ true
unfolding first_marked
first_marked-brace [] h = cc
first_marked-brace (l ∷ lines) h = elim (Bool-cases (is_marked l)) [
  | inl e ↦ ground (arith, is_marked-brace l e)
  | inr e ↦ first_marked-brace lines (rw e at h)
]

check_maximum_lem : (s : Text) {u : Unit {0}} → check_maximum s ≡ ok u → len s ≤ max_secret_length
check_maximum_lem s h = ground arith

validate-exists :
    (u : SecurityUtility) {v : Unit {0}}
    → validate_security_utility u ≡ ok v
    → (u.wrapper_exists ≡ true) × (u.utility_exists ≡ true)
validate-exists u h = ground arith

abbrev text_of : Result SecurityError Text → Text
text_of (ok t) = t
text_of (err e) = []

trimmed-brace :
    (line : Text) {t : Text} {r : Result SecurityError Text}
    → r ≡ ok t
    → text_of r ≡ trim_space line
    → has_rune b'{' line ≡ true
    → has_rune b'{' t ≡ true
trimmed-brace line h same e =
    ap (has_rune b'{') (sym (ap text_of h) ∙ same)
    ∙ has_rune-trim_space b'{' line (unfold is_space in refl)
    ∙ e

-- `EncodeSecrets` returns no secret that is longer than 256 bytes or where a program is missing, and what it
-- returns holds a brace, so it is never empty.
pub encode_secrets_lem :
    (u : SecurityUtility) (secret : Text) (use_aes : Bool) (encoded : Text)
    → encode_secrets u secret use_aes ≡ ok encoded
    → (len secret ≤ max_secret_length)
      × ((u.wrapper_exists ≡ true) × (u.utility_exists ≡ true))
      × (has_rune b'{' encoded ≡ true)
unfolding encode_secrets extract_encoded_secret
encode_secrets_lem u secret use_aes encoded h =
    let (v, e₀, h₀) = >>=-ok (validate_security_utility u) _ h in
    let (w, e₁, h₁) = >>=-ok (check_maximum secret) _ h₀ in
    let (out, e₂, h₂) =
      >>=-ok (execute_security_utility u (encode_arguments use_aes) secret encode_failed) _ h₁ in
    let (line, e₃, h₃) = >>=-ok (first_marked (split out 10)) _ h₂ in
    (
      check_maximum_lem secret e₁,
      validate-exists u e₀,
      trimmed-brace line h₃ refl (first_marked-brace (split out 10) e₃),
    )

-- `GenerateLibertyAESKeyFile` makes the key file exactly if the two programs are there, the key has 16 to 256
-- bytes, no old file stays in the way, and the utility succeeds and leaves the file.
pub generate_liberty_aes_key_file_lem :
    (u : SecurityUtility) (initial_key : Text)
    → (generate_liberty_aes_key_file u initial_key ≡ ok tt) ↔ (
        (u.wrapper_exists ≡ true)
        × (u.utility_exists ≡ true)
        × (min_secret_length ≤ len initial_key)
        × (len initial_key ≤ max_secret_length)
        × ((u.key_file_exists ≡ false) ⊎ (u.key_file_removable ≡ true))
        × (u.execute (generate_arguments ++ (codes "--key=" ++ initial_key) ∷ []) ≢ none)
        × (u.key_file_made ≡ true))
unfolding generate_liberty_aes_key_file
generate_liberty_aes_key_file_lem u initial_key = ground arith
