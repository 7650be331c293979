-- ===== src/Tls/Password.antt =====
-- `generateRandomPassword`: sixteen random bytes, each turned into a letter or a digit.
use docker_local.Common.{
  ℕ, zero, suc, ◌<◌, ◌%◌, ◌≡◌, refl, ap, ◌∙◌, Bool, true, ◌&&◌, ◌||◌, Option, none, some, List, [],
  ◌∷◌, length, all, leb, arith,
}
use docker_local.Common.Text.{Text, codes}

abbrev pub valid_chars : Text
valid_chars = codes "ABCDEFGHIJKLMNOPQRSTUVWXYZabcdefghijklmnopqrstuvwxyz0123456789"

-- An index out of range is a panic.
unfoldable pub get_elem? : Text → ℕ → Option ℕ
get_elem? [] n = none
get_elem? (c ∷ s) zero = some c
get_elem? (c ∷ s) (suc n) = get_elem? s n

abbrev pub put_character : Option ℕ → Option Text → Option Text
put_character none s = none
put_character (some c) none = none
put_character (some c) (some s) = some (c ∷ s)

unfoldable pub to_characters : List ℕ → Option Text
unfolding get_elem?
to_characters [] = some []
to_characters (byte ∷ bytes) =
    put_character (get_elem? valid_chars (byte % length valid_chars)) (to_characters bytes)

-- `rand.Read`, which never fails, fills a slice of so many bytes.
unfoldable pub generate_random_password : (ℕ → List ℕ) → Option Text
unfolding to_characters
generate_random_password read = to_characters (read 16)

-- A letter or a digit.
abbrev pub is_alphanumeric : ℕ → Bool
is_alphanumeric c =
    (leb b'A' c && leb c b'Z') || (leb b'a' c && leb c b'z') || (leb b'0' c && leb c b'9')

get_elem?-alphanumeric :
    (s : Text) (n : ℕ)
    → all is_alphanumeric s ≡ true
    → n < length s
    → (c : ℕ) × (get_elem? s n ≡ some c) × (is_alphanumeric c ≡ true)
unfolding get_elem?
get_elem?-alphanumeric [] n a h = absurd (omega arith)
get_elem?-alphanumeric (c ∷ s) zero a h = (c, refl, ground arith)
get_elem?-alphanumeric (c ∷ s) (suc n) a h = get_elem?-alphanumeric s n (ground arith) (omega arith)

to_characters-alphanumeric :
    (bytes : List ℕ)
    → (password : Text) × (to_characters bytes ≡ some password)
      × (length password ≡ length bytes)
      × (all is_alphanumeric password ≡ true)
unfolding to_characters
to_characters-alphanumeric [] = ([], refl, refl, refl)
to_characters-alphanumeric (byte ∷ bytes) =
    let (c, found, is_c) =
      get_elem?-alphanumeric valid_chars (byte % length valid_chars) refl (omega arith) in
    let (password, e, l, a) = to_characters-alphanumeric bytes in
    (c ∷ password, rw (found, e) refl, ap suc l, rw (is_c, a) refl)

-- If as many random bytes are read as are asked for, whatever they are, then no index is out of range, and the password is made and has
-- sixteen characters, all letters and digits.
pub generate_random_password-alphanumeric :
    (read : ℕ → List ℕ)
    → ((n : ℕ) → length (read n) ≡ n)
    → (password : Text) × (generate_random_password read ≡ some password)
      × (length password ≡ 16)
      × (all is_alphanumeric password ≡ true)
unfolding generate_random_password
generate_random_password-alphanumeric read fills =
    let (password, e, l, a) = to_characters-alphanumeric (read 16) in (password, e, l ∙ fills 16, a)
