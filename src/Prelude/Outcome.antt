-- ===== src/Prelude/Outcome.antt =====
-- What a call comes to in C++: a value, or behaviour that the language leaves undefined.
use mathlib.Core.Path.{◌≡◌, refl, ap}

pub data Outcome {ℓ} (A : Type ℓ) : Type ℓ where
  ok : A → Outcome A
  undefined : Outcome A

infixl 5 ◌>>=◌
abbrev pub ◌>>=◌ {ℓ κ} : {A : Type ℓ} {B : Type κ} → Outcome A → (A → Outcome B) → Outcome B
ok a >>= f = f a
undefined >>= f = undefined

pub ok-injective {ℓ} : {A : Type ℓ} {a b : A} → ok a ≡ ok b → a ≡ b
ok-injective e = cc

-- What a call returned that is passed on beside a constant.
pub ok_of_pair {ℓ} :
    {A B : Type ℓ} (m : Outcome A) (n : B) {x : A} {y : B}
    → ◌>>=◌ {B = A × B} m (λ a. ok (a, n)) ≡ ok (x, y)
    → m ≡ ok x
ok_of_pair (ok a) n e = ap ok (ap (λ p. p.0) (ok-injective e))
ok_of_pair undefined n e = cc

-- A chain that returns has returned at its first link.
pub >>=-ok {ℓ κ} :
    {A : Type ℓ} {B : Type κ} (x : Outcome A) (f : A → Outcome B) {b : B}
    → x >>= f ≡ ok b
    → (a : A) × (x ≡ ok a) × (f a ≡ ok b)
>>=-ok (ok a) f e = (a, refl, e)
>>=-ok undefined f e = absurd (cc e)
