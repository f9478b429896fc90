-- ===== src/Common/AssignId.antt =====
-- backend/common/src/assign_id.rs, over an implementation of the `bimap` crate. An id type is its
-- number. The counter is a `usize` and wraps.
use substation.Prelude.{ℕ, ◌+◌, ◌%◌, ◌^◌, List, Option, Key, nat_key}
use substation.Common.BiMap.{BiMap}

module _ {Details : Type 0} ⦃d : Key Details⦄ (B : BiMap ℕ Details) where
  pub record AssignId : Type 0 where
    pub current_id : ℕ
    pub mapping : B.Map

  unfoldable pub new : AssignId
  new = record { current_id = 0; mapping = B.empty }

  unfoldable pub assign_id : AssignId → Details → AssignId × ℕ
  assign_id a details = (
    record {
      current_id = (a.current_id + 1) % 2 ^ 64;
      mapping = B.insert a.current_id details a.mapping;
    },
    a.current_id,
  )

  unfoldable pub get_details : AssignId → ℕ → Option Details
  get_details a id = B.get_by_left id a.mapping

  unfoldable pub get_id : AssignId → Details → Option ℕ
  get_id a details = B.get_by_right details a.mapping

  unfoldable pub remove_by_id : AssignId → ℕ → AssignId × Option Details
  remove_by_id a id =
      (record a { mapping = B.remove_by_left id a.mapping }, B.get_by_left id a.mapping)

  unfoldable pub remove_by_details : AssignId → Details → AssignId × Option ℕ
  remove_by_details a details =
      (record a { mapping = B.remove_by_right details a.mapping }, B.get_by_right details a.mapping)

  unfoldable pub clear : AssignId → AssignId
  unfolding new
  clear a = new

  unfoldable pub iter : AssignId → List (ℕ × Details)
  iter a = B.iter a.mapping
