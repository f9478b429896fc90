-- ===== src/Common/RollingTotal.antt =====
-- backend/common/src/rolling_total.rs, at `usize` values. An instant and a duration are numbers of
-- nanoseconds; the time source is the argument `time`.
pub mod Laws
use substation.Prelude.{
  ℕ, zero, suc, ◌+◌, ◌-◌, ◌*◌, ◌/◌, ◌%◌, ◌^◌, Bool, List, [], ◌∷◌, ◌++◌, Option, none, some, ltb,
  leb, min, if◌then◌else◌,
}

pub record RollingTotalBuilder : Type 0 where
  pub window_size_multiple : ℕ
  pub granularity : ℕ

pub record RollingTotal : Type 0 where
  pub window_size_multiple : ℕ
  pub granularity : ℕ
  -- The front of the queue is the head of the list.
  pub averages : List (ℕ × ℕ)
  pub total : ℕ

unfoldable pub new_builder : RollingTotalBuilder
new_builder = record { window_size_multiple = 10; granularity = 1_000_000_000 }

unfoldable pub start : RollingTotalBuilder → ℕ → RollingTotal
start builder time = record {
  window_size_multiple = builder.window_size_multiple;
  granularity = builder.granularity;
  averages = (time, 0) ∷ [];
  total = 0;
}

abbrev pub usize_max : ℕ
usize_max = 2 ^ 64 - 1

unfoldable pub saturating_add : ℕ → ℕ → ℕ
saturating_add a b = min (a + b) usize_max

-- The last bucket of a queue that begins with the one given.
unfoldable pub last_time : ℕ × ℕ → List (ℕ × ℕ) → ℕ
last_time bucket [] = bucket.0
last_time bucket (next ∷ rest) = last_time next rest

unfoldable pub add_to_last : ℕ × ℕ → List (ℕ × ℕ) → ℕ → List (ℕ × ℕ)
unfolding saturating_add
add_to_last (time, old) [] value = (time, saturating_add old value) ∷ []
add_to_last bucket (next ∷ rest) value = bucket ∷ add_to_last next rest value

-- The `while` loop: buckets that are too old leave the front, and the total. The last bucket is the
-- one just pushed, which is not too old, so the queue does not run empty; it would panic there.
unfoldable pub pop_old : ℕ → List (ℕ × ℕ) → ℕ → List (ℕ × ℕ) × ℕ
pop_old oldest [] total = ([], total)
pop_old oldest ((time, value) ∷ rest) total =
    let popped = pop_old oldest rest (total - value) in
    if ltb time oldest then popped else ((time, value) ∷ rest, total)

-- The new bucket's time: whole steps from the last one, their number cast to `u32`.
unfoldable pub step_time : RollingTotal → ℕ → ℕ → ℕ
step_time r last time = last + r.granularity * (((time - last) / r.granularity) % 2 ^ 32)

unfoldable pub push_bucket : RollingTotal → ℕ → ℕ → RollingTotal
unfolding pop_old saturating_add
push_bucket r new_time value =
    let oldest = new_time - r.granularity * ((r.window_size_multiple - 1) % 2 ^ 32) in
    let (averages, total) =
      pop_old oldest (r.averages ++ (new_time, value) ∷ []) (saturating_add r.total value) in
    record r { averages = averages; total = total }

-- The code panics (`expect("always 1 value")`) where there is no bucket; there is one from the start.
unfoldable pub push : RollingTotal → ℕ → ℕ → RollingTotal
unfolding last_time add_to_last step_time push_bucket
push r time value = elim r.averages [
  | [] ↦ r
  | first ∷ rest ↦
      let last = last_time first rest in
      if leb r.granularity (time - last)
      then push_bucket r (step_time r last time) value
      else record r {
        averages = add_to_last first rest value;
        total = saturating_add r.total value;
      }
]
