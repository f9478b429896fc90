-- ===== src/Common/MultiMapUnique.antt =====
-- backend/common/src/multi_map_unique.rs: a value belongs to one key at a time.
pub mod Laws
use substation.Prelude.{
  ℕ, Bool, true, false, List, [], ◌∷◌, Option, none, some, Key, ◌≟◌, length, ite,
}
use substation.Prelude.HashMap.{HashMap}
use substation.Prelude.HashMap
use substation.Prelude.HashSet.{HashSet}
use substation.Prelude.HashSet

pub record MultiMapUnique (K V : Type 0) : Type 0 where
  pub value_to_key : HashMap V K
  pub key_to_values : HashMap K (HashSet V)

abbrev pub or_empty : {V : Type 0} → Option (HashSet V) → HashSet V
or_empty none = []
or_empty (some values) = values

module _ {K V : Type 0} where
  unfoldable pub new : MultiMapUnique K V
  new = record { value_to_key = []; key_to_values = [] }

  unfoldable pub num_values : MultiMapUnique K V → ℕ
  num_values m = length m.value_to_key

  unfoldable pub num_keys : MultiMapUnique K V → ℕ
  num_keys m = length m.key_to_values

module _ {K V : Type 0} ⦃k : Key K⦄ ⦃v : Key V⦄ where
  unfoldable pub get_values : MultiMapUnique K V → K → Option (HashSet V)
  get_values m key = HashMap.get key m.key_to_values

  -- A set that becomes empty leaves the map.
  unfoldable pub keep_values : K → HashSet V → HashMap K (HashSet V) → HashMap K (HashSet V)
  keep_values key [] sets = HashMap.remove key sets
  keep_values key (x ∷ xs) sets = HashMap.insert key (x ∷ xs) sets

  unfoldable pub drop_value : K → V → HashMap K (HashSet V) → HashMap K (HashSet V)
  unfolding keep_values
  drop_value key value sets = elim (HashMap.get key sets) [
    | none ↦ sets
    | some values ↦ keep_values key (HashSet.remove value values) sets
  ]

  unfoldable pub remove_value : MultiMapUnique K V → V → MultiMapUnique K V × Option K
  unfolding drop_value
  remove_value m value = elim (HashMap.get value m.value_to_key) [
    | none ↦ (m, none)
    | some key ↦ (
      record {
        value_to_key = HashMap.remove value m.value_to_key;
        key_to_values = drop_value key value m.key_to_values;
      },
      some key,
    )
  ]

  unfoldable pub put_value : MultiMapUnique K V → K → V → MultiMapUnique K V
  put_value m key value = record {
    value_to_key = HashMap.insert value key m.value_to_key;
    key_to_values =
        HashMap.insert key (HashSet.insert value (or_empty (HashMap.get key m.key_to_values)))
          m.key_to_values;
  }

  -- The key that the value was under before is returned.
  unfoldable pub insert : MultiMapUnique K V → K → V → MultiMapUnique K V × Option K
  insert m key value = let (m', old_key) = remove_value m value in (put_value m' key value, old_key)
