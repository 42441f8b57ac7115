-- ===== src/Base/Outcomes.antt =====
-- How a call can end: with a value, by reading or writing out of the bounds of an object or through
-- NULL (undefined behaviour in C), by exit(), by waiting at a semaphore, or not yet, when the fuel of
-- the model ran out.
use mathlib.Core.Path.{◌≡◌, refl}

pub data Outcome {ℓ} (A : Type ℓ) : Type ℓ where
  done : A → Outcome A
  fault : Outcome A
  exits : Outcome A
  waits : Outcome A
  spent : Outcome A

infixl 5 ◌>>=◌
abbrev pub ◌>>=◌ {ℓ κ} : {A : Type ℓ} {B : Type κ} → Outcome A → (A → Outcome B) → Outcome B
done a >>= f = f a
fault >>= f = fault
exits >>= f = exits
waits >>= f = waits
spent >>= f = spent

pub >>=-eq-done {ℓ κ} :
    {A : Type ℓ} {B : Type κ} (m : Outcome A) (f : A → Outcome B) {b : B}
    → (m >>= f) ≡ done b
    → (a : A) × (m ≡ done a) × (f a ≡ done b)
>>=-eq-done (done a) f h = (a, refl, h)
>>=-eq-done fault f h = cc
>>=-eq-done exits f h = cc
>>=-eq-done waits f h = cc
>>=-eq-done spent f h = cc
