-- ===== src/Version/RoundTrip.antt =====
-- What is printed is read back.
use docker_local.Common.{
  ℕ, ◌<◌, ◌≡◌, ◌≢◌, refl, subst, ap, true, false, List, [], ◌∷◌, Option, none, some, ◌⊎◌, >>=-ok,
  Result, ok, err, arith,
}
use docker_local.Common.Text.{Text, is_empty, split, split-word, split-separator}
use docker_local.Common.Decimal.{
  decimal, int_limit, Signed, parse_int, parse_int-bound, parse_int-decimal, decimal-ne-nil,
  has_rune-decimal,
}
use docker_local.Version.Vrmf.{
  Vrmf, VersionError, check_value, parse_part, parse_parts, parse_vrmf, show,
}

-- The parts are those of a version that Go's int can hold; the first is not zero.
pub record IsValid (v : Vrmf) : Type 0 where
  pub version_pos : 0 < v.version
  pub version_fits : v.version < int_limit
  pub release_fits : v.release < int_limit
  pub minor_fits : v.minor < int_limit
  pub fix_fits : v.fix < int_limit

is_empty-ne : (s : Text) → s ≢ [] → is_empty s ≡ false
is_empty-ne [] h = absurd (h refl)
is_empty-ne (c ∷ s) h = refl

parse_part-decimal :
    (idx n : ℕ) → (idx ≡ 0 → 0 < n) → n < int_limit → parse_part idx (decimal n) ≡ ok n
unfolding parse_part
parse_part-decimal idx n pos fits =
    rw (is_empty-ne (decimal n) (decimal-ne-nil n), parse_int-decimal n fits) (ground arith)

split-show :
    (v : Vrmf)
    → split (show v) b'.'
      ≡ decimal v.version ∷ decimal v.release ∷ decimal v.minor ∷ decimal v.fix ∷ []
unfolding show
split-show v = rw (split-separator (decimal v.version) _ b'.' (has_rune-decimal v.version)) (
    rw (split-separator (decimal v.release) _ b'.' (has_rune-decimal v.release)) (
      rw (split-separator (decimal v.minor) _ b'.' (has_rune-decimal v.minor))
        (rw (split-word (decimal v.fix) b'.' (has_rune-decimal v.fix)))))

-- `parseVRMF` of the text that `String` makes of a version is that version, if its parts fit an int
-- and the first is not 0.
pub parse_vrmf-show : (v : Vrmf) → IsValid v → parse_vrmf (show v) ≡ ok v
unfolding parse_vrmf
parse_vrmf-show v h = rw split-show (
    rw (
      parse_part-decimal 0 v.version (λ _. h.version_pos) h.version_fits,
      parse_part-decimal 1 v.release (λ e. cc) h.release_fits,
      parse_part-decimal 2 v.minor (λ e. cc) h.minor_fits,
      parse_part-decimal 3 v.fix (λ e. cc) h.fix_fits,
    ))

check_value-bound :
    (idx : ℕ) (o : Option Signed) {n : ℕ}
    → ((x : Signed) → o ≡ some x → (x.absolute < int_limit) ⊎ (x.negative ≡ true))
    → check_value idx o ≡ ok n
    → (n < int_limit) × (idx ≡ 0 → 0 < n)
check_value-bound idx none b h = cc
check_value-bound idx (some x) b h = ground (arith, b x refl)

parse_part-bound :
    (idx : ℕ) (s : Text) {n : ℕ} → parse_part idx s ≡ ok n → (n < int_limit) × (idx ≡ 0 → 0 < n)
unfolding parse_part
parse_part-bound idx [] h = cc
parse_part-bound idx (c ∷ s) h =
    check_value-bound idx (parse_int (c ∷ s)) (λ x e. parse_int-bound (c ∷ s) e) h

abbrev from_ok : Vrmf → Result VersionError Vrmf → Vrmf
from_ok v (ok w) = w
from_ok v (err e) = v

four-IsValid :
    {n r m f : ℕ}
    → 0 < n
    → n < int_limit
    → r < int_limit
    → m < int_limit
    → f < int_limit
    → IsValid (record { version = n; release = r; minor = m; fix = f })
four-IsValid p b₀ b₁ b₂ b₃ = record {
  version_pos = p;
  version_fits = b₀;
  release_fits = b₁;
  minor_fits = b₂;
  fix_fits = b₃;
}

parse_four-IsValid :
    (a b c d : Text) (v : Vrmf) → parse_parts (a ∷ b ∷ c ∷ d ∷ []) ≡ ok v → IsValid v
unfolding parse_parts
parse_four-IsValid a b c d v h =
    let (version, e₀, h₀) = >>=-ok (parse_part 0 a) _ h in
    let (release, e₁, h₁) = >>=-ok (parse_part 1 b) _ h₀ in
    let (minor, e₂, h₂) = >>=-ok (parse_part 2 c) _ h₁ in
    let (fix, e₃, h₃) = >>=-ok (parse_part 3 d) _ h₂ in
    let (b₀, p) = parse_part-bound 0 a e₀ in
    subst IsValid (ap (from_ok v) h₃) (
      four-IsValid (p refl) b₀ (parse_part-bound 1 b e₁).0 (parse_part-bound 2 c e₂).0
        (parse_part-bound 3 d e₃).0)

parse_parts-IsValid : (ws : List Text) (v : Vrmf) → parse_parts ws ≡ ok v → IsValid v
unfolding parse_parts
parse_parts-IsValid (a ∷ b ∷ c ∷ d ∷ []) v h = parse_four-IsValid a b c d v h
parse_parts-IsValid ws v h = cc

-- What `parseVRMF` accepts has four parts that fit an int, the first of which is not 0.
pub parse_vrmf-IsValid : (s : Text) (v : Vrmf) → parse_vrmf s ≡ ok v → IsValid v
unfolding parse_vrmf
parse_vrmf-IsValid s v h = parse_parts-IsValid (split s b'.') v h
