-- ===== src/Common/BiMap.antt =====
-- The `bimap` crate, which is not part of the repository: what the code uses of it, with what its
-- documentation promises. Lefts and rights are matched one to one; `insert` takes out every pair that
-- shares its left or its right.
use substation.Prelude.{◌↔◌, ◌≡◌, List, Option, none, some, Key, ◌≟◌, ite}
use substation.Prelude.HashMap.{Distinct}
use substation.Prelude.HashMap

abbrev pub without : {R : Type 0} ⦃r : Key R⦄ → R → Option R → Option R
without right none = none
without right (some old) = ite (old ≟ right) none (some old)

pub record BiMap (L R : Type 0) ⦃l : Key L⦄ ⦃r : Key R⦄ : Type 1 where
  pub Map : Type 0
  pub empty : Map
  pub insert : L → R → Map → Map
  pub get_by_left : L → Map → Option R
  pub get_by_right : R → Map → Option L
  pub remove_by_left : L → Map → Map
  pub remove_by_right : R → Map → Map
  -- The pairs in iteration order.
  pub iter : Map → List (L × R)
  pub inverse :
      (left : L) (right : R) (m : Map)
      → (get_by_left left m ≡ some right) ↔ (get_by_right right m ≡ some left)
  pub left-empty : (left : L) → get_by_left left empty ≡ none
  pub left-insert :
      (left other : L) (right : R) (m : Map)
      → get_by_left other (insert left right m)
        ≡ ite (left ≟ other) (some right) (without right (get_by_left other m))
  pub left-remove_by_left :
      (left other : L) (m : Map)
      → get_by_left other (remove_by_left left m) ≡ ite (left ≟ other) none (get_by_left other m)
  pub left-remove_by_right :
      (right : R) (other : L) (m : Map)
      → get_by_left other (remove_by_right right m) ≡ without right (get_by_left other m)
  pub left-iter : (left : L) (m : Map) → HashMap.get left (iter m) ≡ get_by_left left m
  pub iter-Distinct : (m : Map) → Distinct (iter m)
