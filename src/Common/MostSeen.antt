-- ===== src/Common/MostSeen.antt =====
-- backend/common/src/most_seen.rs. A count is a natural number: `usize` does not overflow before
-- memory runs out, since each count stands for nodes that are connected.
pub mod Laws
pub mod Max
use substation.Prelude.{
  ℕ, ◌+◌, ◌-◌, Bool, true, false, List, [], ◌∷◌, Option, none, some, ltb, if◌then◌else◌, ite, Key,
  ◌≟◌,
}
use substation.Prelude.HashMap.{HashMap}
use substation.Prelude.HashMap

pub record MostSeen (T : Type 0) : Type 0 where
  pub current_best : T
  pub current_count : ℕ
  pub others : HashMap T ℕ

pub data ChangeResult : Type 0 where
  no_change new_most_seen_item : ChangeResult

unfoldable pub has_changed : ChangeResult → Bool
has_changed new_most_seen_item = true
has_changed no_change = false

abbrev pub or_zero : Option ℕ → ℕ
or_zero none = 0
or_zero (some n) = n

module _ {T : Type 0} where
  -- `default`, over the default value of the type.
  unfoldable pub default : T → MostSeen T
  default d = record { current_best = d; current_count = 0; others = [] }

  unfoldable pub new : T → MostSeen T
  new item = record { current_best = item; current_count = 1; others = [] }

  unfoldable pub best : MostSeen T → T
  best m = m.current_best

  unfoldable pub best_count : MostSeen T → ℕ
  best_count m = m.current_count

  -- `max_by_key` over the counts: the last of the greatest entries.
  unfoldable pub max_from : T × ℕ → List (T × ℕ) → T × ℕ
  max_from b [] = b
  max_from b (x ∷ xs) = max_from (if ltb x.1 b.1 then b else x) xs

  unfoldable pub max_by_count : List (T × ℕ) → Option (T × ℕ)
  unfolding max_from
  max_by_count [] = none
  max_by_count (x ∷ xs) = some (max_from x xs)

module _ {T : Type 0} ⦃e : Key T⦄ where
  -- The entry of `item` leaves `others` for the top, and the old best takes its place there.
  unfoldable pub promote : MostSeen T → HashMap T ℕ → T → MostSeen T
  promote m others item = record {
    current_best = item;
    current_count = or_zero (HashMap.get item others);
    others = HashMap.insert m.current_best m.current_count (HashMap.remove item others);
  }

  -- The rest of `insert`, for an item that is not the best one.
  unfoldable pub insert_other : MostSeen T → T → MostSeen T × ChangeResult
  unfolding promote
  insert_other m item =
      let item_count = or_zero (HashMap.get item m.others) + 1 in
      let others = HashMap.insert item item_count m.others in
      if ltb m.current_count item_count
      then (promote m others item, new_most_seen_item)
      else (record m { others = others }, no_change)

  unfoldable pub insert : MostSeen T → T → MostSeen T × ChangeResult
  unfolding insert_other
  insert m item =
      ite (m.current_best ≟ item) (record m { current_count = m.current_count + 1 }, no_change)
        (insert_other m item)

  unfoldable pub remove_best : MostSeen T → Option (T × ℕ) → MostSeen T × ChangeResult
  unfolding promote
  remove_best m none = (m, no_change)
  remove_best m (some (other_item, other_count)) =
      if ltb m.current_count other_count
      then (promote m m.others other_item, new_most_seen_item)
      else (m, no_change)

  unfoldable pub decrement : HashMap T ℕ → T → Option ℕ → HashMap T ℕ
  decrement others item none = others
  decrement others item (some count) = HashMap.insert item (count - 1) others

  -- `saturating_sub` is `-`, which stops at 0.
  unfoldable pub remove : MostSeen T → T → MostSeen T × ChangeResult
  unfolding remove_best decrement max_by_count
  remove m item =
      ite (m.current_best ≟ item)
        (remove_best (record m { current_count = m.current_count - 1 }) (max_by_count m.others))
        (record m { others = decrement m.others item (HashMap.get item m.others) }, no_change)
