-- ===== src/Common/DenseMap.antt =====
-- backend/common/src/dense_map.rs. An id type converts to and from a number and back, so an id is
-- its number here. The head of `retired` is the back of the vector.
pub mod Laws
use substation.Prelude.{
  ℕ, zero, suc, ◌-◌, List, [], ◌∷◌, ◌++◌, Option, none, some, length, get_elem?, set, Bool, ◌==◌,
}

pub record DenseMap {ℓ} (T : Type ℓ) : Type ℓ where
  pub retired : List ℕ
  pub items : List (Option T)

module _ {ℓ} {T : Type ℓ} where
  unfoldable pub new : DenseMap T
  new = record { retired = []; items = [] }

  unfoldable pub add_with : DenseMap T → (ℕ → T) → DenseMap T × ℕ
  add_with m f = elim m.retired [
    | [] ↦ (record m { items = m.items ++ some (f (length m.items)) ∷ [] }, length m.items)
    | id ∷ rest ↦ (record { retired = rest; items = set m.items id (some (f id)) }, id)
  ]

  unfoldable pub add : DenseMap T → T → DenseMap T × ℕ
  unfolding add_with
  add m item = add_with m (λ _. item)

  -- `as_ref` on a slot that may be out of range.
  abbrev pub flat : Option (Option T) → Option T
  flat none = none
  flat (some o) = o

  unfoldable pub get : DenseMap T → ℕ → Option T
  get m id = flat (get_elem? m.items id)

  -- What is written through the reference of `get_mut`, where that is not `None`.
  unfoldable pub put : DenseMap T → ℕ → T → DenseMap T
  put m id item = record m { items = set m.items id (some item) }

  unfoldable pub remove : DenseMap T → ℕ → DenseMap T × Option T
  unfolding get
  remove m id = elim (get m id) [
    | none ↦ (m, none)
    | some old ↦ (record { retired = id ∷ m.retired; items = set m.items id none }, some old)
  ]

  -- `iter`: the occupied slots from index `i` on, with their ids.
  unfoldable pub entries : ℕ → List (Option T) → List (ℕ × T)
  entries i [] = []
  entries i (none ∷ xs) = entries (suc i) xs
  entries i (some x ∷ xs) = (i, x) ∷ entries (suc i) xs

  unfoldable pub iter : DenseMap T → List (ℕ × T)
  unfolding entries
  iter m = entries 0 m.items

  -- The subtraction of two `usize`, which would panic or wrap below 0.
  unfoldable pub len : DenseMap T → ℕ
  len m = length m.items - length m.retired

  unfoldable pub is_empty : DenseMap T → Bool
  unfolding len
  is_empty m = len m == 0

  unfoldable pub next_id : DenseMap T → ℕ
  next_id m = elim m.retired [ [] ↦ length m.items | id ∷ _ ↦ id ]
