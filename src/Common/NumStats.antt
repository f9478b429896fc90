-- ===== src/Common/NumStats.antt =====
-- backend/common/src/num_stats.rs, at `u64`: the release build's arithmetic, which wraps.
pub mod Laws
use substation.Prelude.{
  ℕ, ◌+◌, ◌-◌, ◌/◌, ◌%◌, ◌^◌, List, Option, none, some, length, get_elem?, set, replicate, min,
  ◌==◌, if◌then◌else◌,
}

pub record NumStats : Type 0 where
  pub stack : List ℕ
  pub index : ℕ
  pub sum : ℕ

unfoldable pub new : ℕ → NumStats
new size = record { stack = replicate size 0; index = 0; sum = 0 }

abbrev pub or_zero : Option ℕ → ℕ
or_zero none = 0
or_zero (some n) = n

-- `index % len` panics at length 0; the program makes one of 50 slots.
unfoldable pub push : NumStats → ℕ → NumStats
push s val =
    let slot = s.index % length s.stack in
    record {
      sum = ((s.sum + val) % 2 ^ 64 + 2 ^ 64 - or_zero (get_elem? s.stack slot)) % 2 ^ 64;
      stack = set s.stack slot val;
      index = (s.index + 1) % 2 ^ 64;
    }

unfoldable pub average : NumStats → ℕ
average s = let cap = min s.index (length s.stack) in if cap == 0 then 0 else s.sum / cap

unfoldable pub reset : NumStats → NumStats
reset s = record { stack = replicate (length s.stack) 0; index = 0; sum = 0 }
