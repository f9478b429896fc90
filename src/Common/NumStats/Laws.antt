-- ===== src/Common/NumStats/Laws.antt =====
-- The cached sum of `NumStats` (backend/common/src/num_stats.rs).
use native.Mathlib.Nat.{mod-lt}
use substation.Prelude.{
  ℕ, zero, suc, ◌+◌, ◌%◌, ◌^◌, ◌≤◌, ◌<◌, ◌≡◌, refl, List, [], ◌∷◌, length, get_elem?, set,
  replicate, sum, arith, length-set, length-replicate,
}
use substation.Common.NumStats.{NumStats, new, or_zero, push}

-- There is a slot, and the sum is that of the slots.
pub record IsValid (s : NumStats) : Type 0 where
  pub room : 0 < length s.stack
  pub summed : s.sum ≡ sum s.stack

sum-replicate : (n : ℕ) → sum (replicate n 0) ≡ 0
sum-replicate zero = refl
sum-replicate (suc n) = omega (arith, sum-replicate n)

sum-set :
    (xs : List ℕ) (i v : ℕ)
    → i < length xs
    → (sum (set xs i v) + or_zero (get_elem? xs i) ≡ sum xs + v)
      × (or_zero (get_elem? xs i) ≤ sum xs)
sum-set [] i v h = absurd (omega arith)
sum-set (x ∷ xs) zero v h = (omega arith, omega arith)
sum-set (x ∷ xs) (suc i) v h =
    let (a, b) = sum-set xs i v (omega arith) in (omega (arith, a), omega (arith, b))

pub new-IsValid : (size : ℕ) → 0 < size → IsValid (new size)
unfolding new
new-IsValid size h = record {
  room = omega (arith, length-replicate {A = ℕ} size 0);
  summed = omega (arith, sum-replicate size);
}

-- A push keeps the sum that of the slots, and their number, where there is a slot, the sum was
-- that of the slots, and it and the value together fit a `u64`.
pub sum-push :
    (s : NumStats) (val : ℕ)
    → IsValid s
    → s.sum + val < 2 ^ 64
    → IsValid (push s val) × (length (push s val).stack ≡ length s.stack)
unfolding push
sum-push s val v h =
    let slot = s.index % length s.stack in
    let (a, b) = sum-set s.stack slot val (mod-lt s.index v.room) in
    (
      record {
        room = omega (arith, length-set s.stack slot val, v.room);
        summed = omega (arith, a, b, v.summed);
      },
      length-set s.stack slot val,
    )
