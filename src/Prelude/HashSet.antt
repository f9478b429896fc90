-- ===== src/Prelude/HashSet.antt =====
-- The standard library's `HashSet`, as the list of its items in iteration order.
use mathlib.Core.Bool.{Bool, true, false}
use mathlib.Core.List.{List, [], ◌∷◌}
use mathlib.Core.Logic.{ite}
use mathlib.Core.Path.{◌≡◌, refl}
use native.Mathlib.Omega.{arith}
use substation.Prelude.Tests.{Key, ◌≟◌}

abbrev pub HashSet : Type 0 → Type 0
HashSet A = List A

module _ {A : Type 0} ⦃e : Key A⦄ where
  unfoldable pub contains : A → HashSet A → Bool
  contains a [] = false
  contains a (x ∷ xs) = ite (x ≟ a) true (contains a xs)

  unfoldable pub insert : A → HashSet A → HashSet A
  insert a [] = a ∷ []
  insert a (x ∷ xs) = ite (x ≟ a) (x ∷ xs) (x ∷ insert a xs)

  unfoldable pub remove : A → HashSet A → HashSet A
  remove a [] = []
  remove a (x ∷ xs) = ite (x ≟ a) (remove a xs) (x ∷ remove a xs)

  pub contains-insert :
      (a b : A) (s : HashSet A) → contains b (insert a s) ≡ ite (a ≟ b) true (contains b s)
  unfolding contains insert
  contains-insert a b [] = refl
  contains-insert a b (x ∷ xs) = ground (arith, contains-insert a b xs)

  pub contains-remove :
      (a b : A) (s : HashSet A) → contains b (remove a s) ≡ ite (a ≟ b) false (contains b s)
  unfolding contains remove
  contains-remove a b [] = ground arith
  contains-remove a b (x ∷ xs) = ground (arith, contains-remove a b xs)
