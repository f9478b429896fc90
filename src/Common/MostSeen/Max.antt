-- ===== src/Common/MostSeen/Max.antt =====
-- The entry of the greatest count (`max_by` in backend/common/src/most_seen.rs).
use substation.Prelude.{ℕ, ◌≤◌, ◌≡◌, ◌⊎◌, inl, refl, List, [], ◌∷◌, none, some, Key, arith}
use substation.Prelude.HashMap.{
  HashMap, Distinct, get-insert, get-remove, insert-Distinct, remove-Distinct,
}
use substation.Prelude.HashMap
use substation.Common.MostSeen.{or_zero, max_from, max_by_count}

module _ {T : Type 0} ⦃e : Key T⦄ where
  max_from-ge : (b : T × ℕ) (m : List (T × ℕ)) → b.1 ≤ (max_from b m).1
  unfolding max_from
  max_from-ge b [] = omega arith
  max_from-ge b (x ∷ xs) = ground (arith, max_from-ge b xs, max_from-ge x xs)

  max_from-upper :
      (b : T × ℕ) (m : List (T × ℕ)) (x : T) → or_zero (HashMap.get x m) ≤ (max_from b m).1
  unfolding max_from HashMap.get
  max_from-upper b [] x = omega arith
  max_from-upper b ((k, n) ∷ m) x = ground (
    arith,
    max_from-upper b m x,
    max_from-upper (k, n) m x,
    max_from-ge b m,
    max_from-ge (k, n) m,
  )

  -- The entry found is the one begun with, or stands in the map.
  max_from-entry :
      (b : T × ℕ) (m : List (T × ℕ))
      → Distinct m
      → (max_from b m ≡ b) ⊎ (HashMap.get (max_from b m).0 m ≡ some (max_from b m).1)
  unfolding max_from HashMap.get
  max_from-entry b [] d = inl refl
  max_from-entry b ((k, n) ∷ m) d =
      ground (arith, max_from-entry b m d.1, max_from-entry (k, n) m d.1)

  pub get_of_max :
      (m : List (T × ℕ)) (k : T) (n : ℕ)
      → Distinct m
      → max_by_count m ≡ some (k, n)
      → (HashMap.get k m ≡ some n) × ((x : T) → or_zero (HashMap.get x m) ≤ n)
  unfolding max_by_count HashMap.get
  get_of_max [] k n d h = cc
  get_of_max ((j, v) ∷ m) k n d h = (
    ground (arith, max_from-entry (j, v) m d.1, max_from-ge (j, v) m),
    λ x. ground (arith, max_from-upper (j, v) m x, max_from-ge (j, v) m),
  )

  pub max-none : (m : List (T × ℕ)) (x : T) → max_by_count m ≡ none → HashMap.get x m ≡ none
  unfolding max_by_count HashMap.get
  max-none [] x h = refl
  max-none (b ∷ m) x h = cc
