-- ===== src/Core/Chain/Laws.antt =====
-- What the operations of a chain keep: its hash, its limit, its number of nodes within that limit.
use substation.Prelude.{
  ◌≡◌, ◌≤◌, ◌<◌, ◌^◌, subst, ◌⊎◌, inl, inr, refl, sym, ◌∙◌, ℕ, ◌+◌, Bool, true, false, Option, none,
  some, arith, Bool-cases, Option-cases, nat_key, string_key,
}
use substation.Prelude.Outcome.{of_ret, ret, >>=-eq-ret}
use substation.Common.DenseMap.{DenseMap}
use substation.Common.DenseMap
use substation.Common.DenseMap.Laws.{
  occupied, len-occupied, add-IsValid, remove-IsValid, len-add, len-remove, get-add, get-remove,
}
use substation.Common.DenseMap.Laws
use substation.Common.Types.{BlockHash}
use substation.Core.ChainStats.{ChainStatsCollator, add_or_remove_node}
use substation.Core.ChainStats.Tallies.{Tallies, traits_of, new-Tallies}
use substation.Core.ChainStats.Tallies.Moves.{add-Tallies, remove-Tallies}
use substation.Core.Counter.Tally.{Gains}
use substation.Core.Chain.Roster.{traits, roster, roster-occupied, Gains-add, Gains-remove}
use substation.Common.MostSeen
use substation.Common.MostSeen.{has_changed}
use substation.Core.Counter.{decrement}
use substation.Core.Node.{Node, Clock}
use substation.Core.Chain.{
  Chain, overquota, added, is_overquota, add_counted, add_node, remove_found, remove_node,
  node_count, new,
}

pub record IsValid (c : Chain) : Type 0 where
  pub nodes_valid : Laws.IsValid c.nodes
  pub within : node_count c ≤ c.max_nodes
  -- `max_nodes` is a `usize`.
  pub limit : c.max_nodes < 2 ^ 64
  -- The statistics count what the nodes have.
  pub tallied : Tallies c.stats_collator (roster c.nodes.items)

pub new-IsValid : (clock : Clock) (h : BlockHash) (n : ℕ) → n < 2 ^ 64 → IsValid (new clock h n)
unfolding new node_count DenseMap.len DenseMap.new
new-IsValid clock h n r = record {
  nodes_valid = unfold DenseMap.new in Laws.new-IsValid;
  within = omega arith;
  limit = r;
  tallied = new-Tallies;
}

-- There is room for one more in every count of the statistics.
room :
    (c : Chain) → IsValid c → is_overquota c ≡ false → occupied (roster c.nodes.items) + 1 < 2 ^ 64
unfolding is_overquota node_count
room c v q =
    ground (arith, v.limit, len-occupied c.nodes v.nodes_valid, roster-occupied c.nodes.items)

-- `add_node` refuses exactly when the chain is over quota, and never panics.
pub add_node_cases :
    (c : Chain) (node : Node)
    → IsValid c
    → node.hwbench ≡ none
    → ((is_overquota c ≡ true) × (add_node c node ≡ ret (c, overquota)))
      ⊎ ((is_overquota c ≡ false)
          × ((collator : ChainStatsCollator) × (add_node c node ≡ ret (add_counted c node collator))
              × Tallies collator (roster (DenseMap.add c.nodes node).0.items)))
unfolding add_node
add_node_cases c node v h = elim (Bool-cases (is_overquota c)) [
  | inl e ↦ inl (e, rw e)
  | inr e ↦
      let gains : Gains (roster c.nodes.items) (traits_of node.details none)
          (roster (DenseMap.add c.nodes node).0.items) =
        subst
          (λ o.
            Gains (roster c.nodes.items) (traits_of node.details o)
              (roster (DenseMap.add c.nodes node).0.items))
          h (Gains-add c.nodes node v.nodes_valid) in
      let (collator, is, tallied) =
        add-Tallies c.stats_collator node.details none (roster c.nodes.items)
          (roster (DenseMap.add c.nodes node).0.items) v.tallied gains (room c v e) in
      inr (e, (collator, rw (e, is), tallied))
]

-- The chain after a node went in.
pub add_counted_lem :
    (c : Chain) (node : Node) (collator : ChainStatsCollator)
    → IsValid c
    → is_overquota c ≡ false
    → Tallies collator (roster (DenseMap.add c.nodes node).0.items)
    → let result = add_counted c node collator in
      IsValid result.0
      × (result.0.genesis_hash ≡ c.genesis_hash)
      × (result.0.max_nodes ≡ c.max_nodes)
      × (node_count result.0 ≡ node_count c + 1)
      × ((renamed : Bool) × (result.1 ≡ added (DenseMap.add c.nodes node).1 renamed)
          × (DenseMap.get result.0.nodes (DenseMap.add c.nodes node).1 ≡ some node))
unfolding add_counted node_count is_overquota
add_counted_lem c node collator v q t = (
  record {
    nodes_valid = add-IsValid c.nodes node v.nodes_valid;
    within = ground (arith, len-add c.nodes node v.nodes_valid);
    limit = v.limit;
    tallied = t;
  },
  refl,
  refl,
  len-add c.nodes node v.nodes_valid,
  (_, refl, ground (arith, get-add c.nodes node (DenseMap.add c.nodes node).1 v.nodes_valid)),
)

-- What a chain's operations keep of a chain `c`.
pub record Keeps (c d : Chain) : Type 0 where
  pub valid : IsValid d
  pub same_hash : d.genesis_hash ≡ c.genesis_hash
  pub same_max : d.max_nodes ≡ c.max_nodes

remove_found-Returns :
    (c : Chain) (nodes : DenseMap Node) (o : Option Node)
    → IsValid c
    → Laws.IsValid nodes
    → DenseMap.len nodes ≤ c.max_nodes
    → ((x : Node) → o ≡ some x → Gains (roster nodes.items) (traits x) (roster c.nodes.items))
    → (r : Chain × Bool) × (remove_found c nodes o ≡ ret r) × Keeps c r.0
unfolding remove_found node_count
remove_found-Returns c nodes none v w l g =
    ((c, false), refl, record { valid = v; same_hash = refl; same_max = refl })
remove_found-Returns c nodes (some node) v w l g =
    let (collator, is, tallied) =
      remove-Tallies c.stats_collator node.details node.hwbench (roster nodes.items)
        (roster c.nodes.items) v.tallied (g node refl) in
    let labels = MostSeen.remove c.labels node.details.chain in
    let d : Chain = record c { labels = labels.0; nodes = nodes; stats_collator = collator } in
    (
      (d, has_changed labels.1),
      rw is refl,
      record {
        valid = record { nodes_valid = w; within = l; limit = v.limit; tallied = tallied };
        same_hash = refl;
        same_max = refl;
      },
    )

-- A removal does not panic, and keeps the chain valid.
pub remove_node-Returns :
    (c : Chain) (id : ℕ) → IsValid c → (r : Chain × Bool) × (remove_node c id ≡ ret r) × Keeps c r.0
unfolding remove_node
remove_node-Returns c id v =
    remove_found-Returns c (DenseMap.remove c.nodes id).0 (DenseMap.remove c.nodes id).1 v
      (remove-IsValid c.nodes id v.nodes_valid)
      (unfold node_count in omega (arith, len-remove c.nodes id v.nodes_valid, v.within))
      (λ x e. Gains-remove c.nodes id x (sym (get-remove c.nodes id id).0 ∙ e))

remove_found-nodes :
    (c : Chain) (nodes : DenseMap Node) (o : Option Node) {r : Chain × Bool}
    → remove_found c nodes o ≡ ret r
    → (o ≡ none → nodes ≡ c.nodes)
    → r.0.nodes ≡ nodes
unfolding remove_found
remove_found-nodes c nodes none e same = of_ret (λ r. r.0.nodes ≡ nodes) e (sym (same refl))
remove_found-nodes c nodes (some node) e same =
    let (collator, _, e') =
      >>=-eq-ret (add_or_remove_node c.stats_collator node.details node.hwbench decrement) _ e in
    of_ret (λ r. r.0.nodes ≡ nodes) e' refl

remove-none :
    (m : DenseMap Node) (id : ℕ) → (DenseMap.remove m id).1 ≡ none → (DenseMap.remove m id).0 ≡ m
unfolding DenseMap.remove
remove-none m id e = elim (Option-cases (DenseMap.get m id)) [
  | inl n ↦ ground (arith, n)
  | inr (x, h) ↦ ground (arith, h, e)
]

-- A removal that returns takes the node out of the chain, and no other.
pub remove_node-nodes :
    (c : Chain) (id : ℕ) {r : Chain × Bool}
    → remove_node c id ≡ ret r
    → r.0.nodes ≡ (DenseMap.remove c.nodes id).0
unfolding remove_node
remove_node-nodes c id e =
    remove_found-nodes c (DenseMap.remove c.nodes id).0 (DenseMap.remove c.nodes id).1 e
      (remove-none c.nodes id)
