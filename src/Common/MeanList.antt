-- ===== src/Common/MeanList.antt =====
-- backend/common/src/mean_list.rs. A floating-point number is kept as the expression that computes
-- it, so nothing is assumed of rounding; the control flow of `MeanList` reads none.
pub mod Laws
use substation.Prelude.{
  ℕ, ◌+◌, ◌*◌, Bool, true, false, ◌&&◌, List, [], ◌∷◌, ◌++◌, take, drop, replicate, set, ltb, ◌==◌,
  if◌then◌else◌,
}

pub data Float : Type 0 where
  -- A value that came in, by its bit pattern, and an integer that was cast.
  bits cast : ℕ → Float
  plus over : Float → Float → Float

pub record MeanList : Type 0 where
  pub period_sum : Float
  pub period_count : ℕ
  pub mean_index : ℕ
  pub means : List Float
  pub ticks_per_mean : ℕ

unfoldable pub default : MeanList
default = record {
  period_sum = cast 0;
  period_count = 0;
  mean_index = 0;
  means = replicate 20 (cast 0);
  ticks_per_mean = 1;
}

unfoldable pub slice : MeanList → List Float
slice m = take m.mean_index m.means

-- `rotate_left(1)` with the last item replaced.
unfoldable pub shift_in : List Float → Float → List Float
shift_in means mean = drop 1 means ++ mean ∷ []

unfoldable pub push_mean : MeanList → MeanList
unfolding shift_in
push_mean m =
    let mean = over m.period_sum (cast m.period_count) in
    if m.mean_index == 20 && m.ticks_per_mean == 32
    then record m { means = shift_in m.means mean; period_sum = cast 0; period_count = 0 }
    else record m {
      means = set m.means m.mean_index mean;
      mean_index = m.mean_index + 1;
      period_sum = cast 0;
      period_count = 0;
    }

-- Each two neighbours give their mean. The loop writes slot `i` after it has read slots `2 * i` and
-- `2 * i + 1`, which no earlier round has written.
unfoldable pub pair_means : List Float → List Float
pair_means (a ∷ b ∷ rest) = over (plus a b) (cast 2) ∷ pair_means rest
pair_means _ = []

unfoldable pub squash_means : MeanList → MeanList
unfolding pair_means
squash_means m = record m {
  ticks_per_mean = m.ticks_per_mean * 2;
  mean_index = 10;
  means = pair_means m.means ++ drop 10 m.means;
}

unfoldable pub squash_if_full : MeanList → MeanList
unfolding squash_means
squash_if_full m = if m.mean_index == 20 && ltb m.ticks_per_mean 32 then squash_means m else m

unfoldable pub accumulate : MeanList → Float → MeanList
accumulate m val = record m {
  period_sum = plus m.period_sum val;
  period_count = m.period_count + 1;
}

unfoldable pub push : MeanList → Float → MeanList × Bool
unfolding squash_if_full accumulate push_mean
push m val =
    let m' = accumulate (squash_if_full m) val in
    if m'.period_count == m'.ticks_per_mean then (push_mean m', true) else (m', false)
