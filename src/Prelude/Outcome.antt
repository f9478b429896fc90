-- ===== src/Prelude/Outcome.antt =====
-- Code that may panic: a value, or the panic, which ends the task that runs it.
use mathlib.Core.Path.{◌≡◌, refl, ap, subst}

pub data Outcome (A : Type 0) : Type 0 where
  ret : A → Outcome A
  panic : Outcome A

infixl 5 ◌>>=◌
abbrev pub ◌>>=◌ : {A B : Type 0} → Outcome A → (A → Outcome B) → Outcome B
ret a >>= f = f a
panic >>= f = panic

-- Code that does not panic, with what it returns.
pub record Returns {A : Type 0} (m : Outcome A) : Type 0 where
  pub value : A
  pub is : m ≡ ret value

pub Returns-ret : {A : Type 0} (a : A) → Returns (ret a)
Returns-ret a = record { value = a; is = refl }

pub Returns-bind :
    {A B : Type 0} (m : Outcome A) (f : A → Outcome B)
    → Returns m
    → ((a : A) → Returns (f a))
    → Returns (m >>= f)
Returns-bind (ret a) f h k = k a
Returns-bind panic f h k = absurd (absurd_panic h.is)
  where
    absurd_panic : {A : Type 0} {a : A} → panic ≡ ret a → ⊥
    absurd_panic e = cc

-- Inversion of a chain that returned.
pub >>=-eq-ret :
    {A B : Type 0} (m : Outcome A) (f : A → Outcome B) {b : B}
    → (m >>= f) ≡ ret b
    → (a : A) × (m ≡ ret a) × (f a ≡ ret b)
>>=-eq-ret (ret a) f h = (a, refl, h)
>>=-eq-ret panic f h = cc

pub ret-injective : {A : Type 0} {a b : A} → ret a ≡ ret b → a ≡ b
ret-injective {a} e = ap (λ o. elim o [ ret x ↦ x | panic ↦ a ]) e

-- What holds of the value holds of the result.
pub of_ret : {A : Type 0} (P : A → Type 0) {a r : A} → ret a ≡ ret r → P a → P r
of_ret P e p = subst P (ret-injective e) p
