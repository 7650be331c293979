-- ===== src/Common/Errors.antt =====
-- A value or an error, as the pair `(value, error)` of the source.
use mathlib.Core.Path.{◌≡◌, refl}

pub data Result {ℓ κ} (E : Type ℓ) (A : Type κ) : Type (ℓ ⊔ κ) where
  ok : A → Result E A
  err : E → Result E A

-- `if err != nil { return …, err }`, and then the rest.
infixl 5 ◌>>=◌
abbrev pub ◌>>=◌ {ℓ κ μ} :
    {E : Type ℓ} {A : Type κ} {B : Type μ} → Result E A → (A → Result E B) → Result E B
ok value >>= rest = rest value
err reason >>= rest = err reason

-- Behind a step that may fail, a value comes from the value of that step.
pub >>=-ok {ℓ κ μ} :
    {E : Type ℓ} {A : Type κ} {B : Type μ} (step : Result E A) (rest : A → Result E B) {result : B}
    → step >>= rest ≡ ok result
    → (value : A) × (step ≡ ok value) × (rest value ≡ ok result)
>>=-ok (err reason) rest e = cc
>>=-ok (ok value) rest e = (value, refl, e)
