-- ===== src/Core/Score.antt =====
-- The relative score of backend/telemetry_core/src/state/chain_stats.rs is computed in IEEE doubles:
-- both integers are rounded to 53 bits, the quotient is rounded, the product with 100 is rounded,
-- and the cast to `u32` drops the fraction and saturates. A double is kept here as an integer number
-- of parts of `2 ^ 128`, which is exact: no quotient that occurs is below `2 ^ -64`, so that its last
-- bit is above `2 ^ -128`.
use substation.Prelude.{
  ℕ, zero, suc, ◌+◌, ◌-◌, ◌*◌, ◌/◌, ◌%◌, ◌^◌, min, Bool, true, false, ◌&&◌, ◌||◌, not, ◌≡◌, refl,
  ltb, ◌==◌, if◌then◌else◌,
}

-- The number of binary digits; `fuel` bounds it.
bit_length : ℕ → ℕ → ℕ
bit_length zero n = 0
bit_length (suc fuel) n = elim (n == 0) [ true ↦ 0 | false ↦ suc (bit_length fuel (n / 2)) ]

-- Round `n` to a multiple of `unit`, to the nearest and ties to even; `more` says that the exact
-- value is a little above `n`.
round_to : ℕ → ℕ → Bool → ℕ
round_to n unit more =
    let q = n / unit in
    let twice = 2 * (n % unit) in
    if ltb unit twice || (twice == unit && (more || (q % 2 == 1))) then (q + 1) * unit else q * unit

-- To 53 significant bits.
round_double : ℕ → Bool → ℕ
unfolding bit_length round_to
round_double n more = round_to n (2 ^ (bit_length 320 n - 53)) more

scale : ℕ
scale = 2 ^ 128

-- `score as f64 / reference_score as f64`, in parts of `scale`.
quotient : ℕ → ℕ → ℕ
unfolding round_double scale
quotient score reference =
    let a = round_double score false in
    let b = round_double reference false in round_double (a * scale / b) (not (a * scale % b == 0))

-- `((score as f64 / reference_score as f64) * 100.0) as u32`
unfoldable pub relative_score : ℕ → ℕ → ℕ
unfolding quotient round_double scale
relative_score score reference =
    min (round_double (quotient score reference * 100) false / scale) (2 ^ 32 - 1)

-- 0.29 * 100 is a little below 29 in doubles.
relative_score_29 : relative_score 29 100 ≡ 28
unfolding relative_score
relative_score_29 = refl

relative_score_100 : relative_score 100 100 ≡ 100
unfolding relative_score
relative_score_100 = refl

relative_score_500 : relative_score 500 100 ≡ 500
unfolding relative_score
relative_score_500 = refl

relative_score_57 : relative_score 57 100 ≡ 56
unfolding relative_score
relative_score_57 = refl
