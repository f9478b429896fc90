-- ===== src/Core/ChainStats/Laws.antt =====
-- Adding a node to the statistics does not panic, whatever they are.
use substation.Prelude.{nat_key, string_key, Option, none, some, Key, arith, Option-cases, inl, inr}
use substation.Prelude.HashMap
use substation.Prelude.Outcome.{Returns, Returns-ret, Returns-bind}
use substation.Common.Types.{NodeDetails, NodeHwBench}
use substation.Core.Counter.{Counter, increment, modify, modify_found}
use substation.Core.ChainStats.{
  bool_key, bucket_key, ChainStatsCollator, add_or_remove_node, update_hwbench,
}

module _ {K : Type 0} ⦃e : Key K⦄ where
  pub Returns-increment : (c : Counter K) (key : Option K) → Returns (modify c key increment)
  unfolding modify
  Returns-increment c none = Returns-ret _
  Returns-increment c (some k) = elim (Option-cases (HashMap.get k c.map)) [
    | inl h ↦ record { value = record c { map = HashMap.insert k 1 c.map }; is = ground arith }
    | inr (n, h) ↦ record { value = modify_found c k n increment; is = ground arith }
  ]

pub update_hwbench-Returns :
    (c : ChainStatsCollator) (h : Option NodeHwBench) → Returns (update_hwbench c h increment)
unfolding update_hwbench
update_hwbench-Returns c h = Returns-bind _ _ (Returns-increment _ _) λ c1.
    Returns-bind _ _ (Returns-increment _ _) λ c2.
      Returns-bind _ _ (Returns-increment _ _)
        λ c3. Returns-bind _ _ (Returns-increment _ _) λ c4. Returns-ret _

pub add_node-Returns :
    (c : ChainStatsCollator) (d : NodeDetails) (h : Option NodeHwBench)
    → Returns (add_or_remove_node c d h increment)
unfolding add_or_remove_node
add_node-Returns c d h = Returns-bind _ _ (Returns-increment _ _) λ c1.
    Returns-bind _ _ (Returns-increment _ _) λ c2. Returns-bind _ _ (Returns-increment _ _) λ c3.
      Returns-bind _ _ (Returns-increment _ _) λ c4. Returns-bind _ _ (Returns-increment _ _) λ c5.
        Returns-bind _ _ (Returns-increment _ _) λ c6.
          Returns-bind _ _ (Returns-increment _ _) λ c7.
            Returns-bind _ _ (Returns-increment _ _)
              λ c8. Returns-bind _ _ (Returns-increment _ _) λ c9. update_hwbench-Returns _ h
