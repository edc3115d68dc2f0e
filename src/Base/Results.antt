-- ===== src/Base/Results.antt =====
-- Go's `(value, error)` results, over any type of errors.
use mathlib.Core.Path.{◌≡◌, refl}

pub data Result {ℓ} (Failure : Type 0) (Value : Type ℓ) : Type ℓ where
  err : Failure → Result Failure Value
  ok : Value → Result Failure Value

-- `if err != nil { return err }`, then the rest of the function.
infixl 5 ◌>>=◌
abbrev pub ◌>>=◌ {ℓ κ} :
    {E : Type 0} {A : Type ℓ} {B : Type κ} (step : Result E A) (rest : A → Result E B) → Result E B
(err failure) >>= rest = err failure
(ok value) >>= rest = rest value

-- A function that returns no error has had none in its first step.
pub >>=-eq-ok {ℓ κ} :
    {E : Type 0} {A : Type ℓ} {B : Type κ} (step : Result E A) (rest : A → Result E B) {out : B}
    → (step >>= rest) ≡ ok out
    → (value : A) × (step ≡ ok value) × (rest value ≡ ok out)
>>=-eq-ok (err failure) rest returned = cc
>>=-eq-ok (ok value) rest returned = (value, refl, returned)
