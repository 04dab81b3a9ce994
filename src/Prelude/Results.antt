-- ===== src/Prelude/Results.antt =====
-- A computation that may throw: the value, or the error that was thrown.
use mathlib.Core.Path.{◌≡◌, refl}
use mathlib.Core.Logic.{◌⊎◌, inl, inr}
use mathlib.Core.Bool.{Bool}
use autopw.Prelude.Tests.{if◌then◌else◌}
use native.Mathlib.Omega.{arith}

-- `E` is what may be thrown.
pub data Result {ℓ} (E : Type 0) (A : Type ℓ) : Type ℓ where
  err : E → Result E A
  ok : A → Result E A

infixl 5 ◌>>=◌ ◌>>◌
abbrev pub ◌>>=◌ {ℓ₁ ℓ₂} :
    {E : Type 0} {A : Type ℓ₁} {B : Type ℓ₂} → Result E A → (A → Result E B) → Result E B
err thrown >>= next = err thrown
ok value >>= next = next value

abbrev pub ◌>>◌ {ℓ₂} : {E : Type 0} {B : Type ℓ₂} → Result E (Unit {0}) → Result E B → Result E B
err thrown >> rest = err thrown
ok done >> rest = rest

-- `if (bad) throw e`.
abbrev pub throw_if : {E : Type 0} → Bool → E → Result E (Unit {0})
throw_if bad thrown = if bad then err thrown else ok tt

-- A chain succeeded, so its first step did.
pub >>=-eq-ok {ℓ₁ ℓ₂} :
    {E : Type 0} {A : Type ℓ₁} {B : Type ℓ₂} {last : B} (first : Result E A) (next : A → Result E B)
    → (first >>= next) ≡ ok last
    → (value : A) × (first ≡ ok value) × (next value ≡ ok last)
>>=-eq-ok (err thrown) next succeeded = ground arith
>>=-eq-ok (ok value) next succeeded = (value, refl, succeeded)

pub >>-eq-ok {ℓ₂} :
    {E : Type 0} {B : Type ℓ₂} {last : B} (first : Result E (Unit {0})) (rest : Result E B)
    → (first >> rest) ≡ ok last
    → (first ≡ ok tt) × (rest ≡ ok last)
>>-eq-ok (err thrown) rest succeeded = ground arith
>>-eq-ok (ok done) rest succeeded = (refl, succeeded)

pub Result-cases {ℓ₁} :
    {E : Type 0} {A : Type ℓ₁} (m : Result E A)
    → ((value : A) × (m ≡ ok value)) ⊎ ((thrown : E) × (m ≡ err thrown))
Result-cases (err thrown) = inr (thrown, refl)
Result-cases (ok value) = inl (value, refl)
