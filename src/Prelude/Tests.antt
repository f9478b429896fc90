-- ===== src/Prelude/Tests.antt =====
-- Boolean tests on the native numbers, the conditional, decidable keys, and case lemmas.
use Prim.Native.Nat.{ℕ, compare, Ordering}
use Prim.Native.String.{String}
use mathlib.Core.Path.{◌≡◌, refl, sym, ◌∙◌}
use mathlib.Core.Logic.{◌↔◌, ◌⊎◌, inl, inr}
use mathlib.Core.Bool.{Bool, true, false, false≢true}
use mathlib.Core.Option.{Option, none, some}
use native.Mathlib.Decide.{ℕ_discrete}
use text.Mathlib.Text.{◌==◌ as str_eq}
use text.Mathlib.TextEquality.{eq_iff}

abbrev pub ltb : ℕ → ℕ → Bool
ltb a b = elim (compare a b) [ Ordering.lt ↦ true | _ ↦ false ]

abbrev pub leb : ℕ → ℕ → Bool
leb a b = elim (compare a b) [ Ordering.gt ↦ false | _ ↦ true ]

infix 50 ◌==◌
abbrev pub ◌==◌ : ℕ → ℕ → Bool
a == b = elim (compare a b) [ Ordering.eq ↦ true | _ ↦ false ]

infix 1 if◌then◌else◌
abbrev pub if◌then◌else◌ {ℓ} : {A : Type ℓ} → Bool → A → A → A
if true then x else y = x
if false then x else y = y

pub Bool-cases : (b : Bool) → (b ≡ true) ⊎ (b ≡ false)
Bool-cases true = inl refl
Bool-cases false = inr refl

-- What holds of both branches holds of the conditional.
pub either : {A : Type 0} (P : A → Type 0) (b : Bool) {x y : A} → P x → P y → P (if b then x else y)
either P true p q = p
either P false p q = q

pub Option-cases {ℓ} : {A : Type ℓ} (o : Option A) → (o ≡ none) ⊎ ((a : A) × (o ≡ some a))
Option-cases none = inl refl
Option-cases (some a) = inr (a, refl)

-- What a hash map asks of its keys (`Eq` and `Hash`): here, that equality is decided.
pub record Key {ℓ} (A : Type ℓ) : Type ℓ where
  pub dec : Discrete A

infix 50 ◌≟◌
abbrev pub ◌≟◌ {ℓ} : {A : Type ℓ} ⦃e : Key A⦄ → (a b : A) → Dec (a ≡ b)
◌≟◌ ⦃e⦄ = e.dec

instance abbrev pub nat_key : Key ℕ
nat_key = record { dec = ℕ_discrete }

-- A decision from a Boolean test.
abbrev pub dec_of_bool {ℓ} : {P : Type ℓ} (b : Bool) → (b ≡ true) ↔ P → Dec P
dec_of_bool true h = yes (h.0 refl)
dec_of_bool false h = no (λ p. false≢true (h.1 p))

unfoldable pub string_discrete : Discrete String
string_discrete a b = dec_of_bool (str_eq a b) (eq_iff a b)

instance abbrev pub string_key : Key String
string_key = record { dec = string_discrete }

pub string-differs : (a b : String) → str_eq a b ≡ false → a ≡ b → ⊥
string-differs a b h p = false≢true (sym h ∙ (eq_iff a b).1 p)

-- Each branch of the conditional knows how the test ends.
pub if_lem :
    {A : Type 0} (P : A → Type 0) (b : Bool) {x y : A}
    → (b ≡ true → P x)
    → (b ≡ false → P y)
    → P (if b then x else y)
if_lem P true p q = p refl
if_lem P false p q = q refl
