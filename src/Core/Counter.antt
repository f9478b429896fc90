-- ===== src/Core/Counter.antt =====
-- backend/telemetry_core/src/state/counter.rs, and `Ranking` of feed_message.rs. A decrement of a
-- `u64` wraps, as in the release build.
pub mod Laws
pub mod Rankings
pub mod Tally
use substation.Prelude.{
  ℕ, zero, suc, ◌+◌, ◌-◌, ◌%◌, ◌^◌, Bool, List, [], ◌∷◌, Option, none, some, Key, ◌≟◌, take, drop,
  leb, ◌==◌, if◌then◌else◌,
}
use substation.Prelude.HashMap.{HashMap}
use substation.Prelude.HashMap
use substation.Prelude.Outcome.{Outcome, ret, panic}

pub record Counter (K : Type 0) : Type 0 where
  pub map : HashMap K ℕ
  pub empty : ℕ

pub data CounterValue : Type 0 where
  increment decrement : CounterValue

pub record Ranking (K : Type 0) : Type 0 where
  pub list : List (K × ℕ)
  pub other : ℕ
  pub unknown : ℕ

unfoldable pub less_one : ℕ → ℕ
less_one n = (n + 2 ^ 64 - 1) % 2 ^ 64

module _ {K : Type 0} where
  unfoldable pub new : Counter K
  new = record { map = []; empty = 0 }

  unfoldable pub modify_empty : Counter K → CounterValue → Counter K
  unfolding less_one
  modify_empty c increment = record c { empty = c.empty + 1 }
  modify_empty c decrement = record c { empty = less_one c.empty }

module _ {K : Type 0} ⦃e : Key K⦄ where
  unfoldable pub modify_found : Counter K → K → ℕ → CounterValue → Counter K
  unfolding less_one
  modify_found c key entry increment = record c { map = HashMap.insert key (entry + 1) c.map }
  modify_found c key entry decrement =
      if less_one entry == 0
      then record c { map = HashMap.remove key c.map }
      else record c { map = HashMap.insert key (less_one entry) c.map }

  -- `assert_eq!(op, CounterValue::Increment)`
  unfoldable pub modify_absent : Counter K → K → CounterValue → Outcome (Counter K)
  modify_absent c key increment = ret (record c { map = HashMap.insert key 1 c.map })
  modify_absent c key decrement = panic

  unfoldable pub modify : Counter K → Option K → CounterValue → Outcome (Counter K)
  unfolding modify_empty modify_found modify_absent
  modify c none op = ret (modify_empty c op)
  modify c (some key) op = elim (HashMap.get key c.map) [
    | some entry ↦ ret (modify_found c key entry op)
    | none ↦ modify_absent c key op
  ]

-- Sorting by a test for "stands before or beside". An unstable sort may order entries of equal keys
-- in any way; so may the iteration order that the entries come in.
module _ {A : Type 0} (before : A → A → Bool) where
  unfoldable pub insert_sorted : A → List A → List A
  insert_sorted x [] = x ∷ []
  insert_sorted x (y ∷ ys) = if before x y then x ∷ y ∷ ys else y ∷ insert_sorted x ys

  unfoldable pub sort_by : List A → List A
  unfolding insert_sorted
  sort_by [] = []
  sort_by (x ∷ xs) = insert_sorted x (sort_by xs)

module _ {K : Type 0} where
  unfoldable pub total : List (K × ℕ) → ℕ
  total [] = 0
  total ((k, n) ∷ m) = n + total m

  -- The key of the sort is the complement of the count, so the greatest counts come first.
  unfoldable pub generate_ranking_top : Counter K → ℕ → Ranking K
  unfolding sort_by total
  generate_ranking_top c max_count =
      let all = sort_by (λ a b. leb b.1 a.1) c.map in
      record { list = take max_count all; other = total (drop max_count all); unknown = c.empty }

  -- A key has one entry, so the order of keys decides.
  unfoldable pub generate_ranking_ordered : (K → K → Bool) → Counter K → Ranking K
  unfolding sort_by
  generate_ranking_ordered before c = record {
    list = sort_by (λ a b. before a.0 b.0) c.map;
    other = 0;
    unknown = c.empty;
  }
