-- ===== src/Core/State/RemoveNode.antt =====
-- What backend/telemetry_core/src/state/state.rs promises of a node that is removed.
use substation.Prelude.{
  ◌≡◌, inl, inr, refl, Option, none, some, arith, Bool-cases, Option-cases, nat_key, if◌then◌else◌,
  ◌==◌,
}
use substation.Prelude.HashMap.{HashMap, get-insert}
use substation.Prelude.HashMap
use substation.Prelude.Outcome.{ret}
use substation.Common.DenseMap.{DenseMap}
use substation.Common.DenseMap
use substation.Common.DenseMap.Laws.{get-put, get-remove}
use substation.Core.Chain.{Chain}
use substation.Core.Chain
use substation.Core.Chain.Laws.{Keeps, remove_node-Returns}
use substation.Core.State.{
  State, NodeId, RemovedNode, store_or_drop, remove_from_chain, remove_node,
  get_chain_by_genesis_hash, get_chain_by_node_id,
}
use substation.Core.State.Laws.{IsValid, put-IsValid_lem, drop-IsValid}
use substation.Core.Chain.Laws.{remove_node-nodes}

-- What the state after `remove_node` holds, by what it reports.
pub Reports : State → NodeId → State → Option RemovedNode → Type 0
Reports s node_id s' none = (get_chain_by_node_id s node_id ≡ none) × (s' ≡ s)
Reports s node_id s' (some removed) =
    (c : Chain) × (d : Chain) × (get_chain_by_node_id s node_id ≡ some c)
    × (d.nodes ≡ (DenseMap.remove c.nodes node_id.chain_node_id).0)
    × (removed.chain_node_count ≡ Chain.node_count d)
    × (removed.chain_genesis_hash ≡ c.genesis_hash)
    × (get_chain_by_node_id s' node_id ≡ (if Chain.node_count d == 0 then none else some d))
    × (get_chain_by_genesis_hash s' c.genesis_hash
        ≡ (if Chain.node_count d == 0 then none else some d))

store_or_drop_lem :
    (s : State) (node_id : NodeId) (c d : Chain)
    → IsValid s
    → get_chain_by_node_id s node_id ≡ some c
    → Keeps c d
    → let s' = store_or_drop s node_id.chain_id d in
      IsValid s'
      × (get_chain_by_node_id s' node_id ≡ (if Chain.node_count d == 0 then none else some d))
      × (get_chain_by_genesis_hash s' c.genesis_hash
          ≡ (if Chain.node_count d == 0 then none else some d))
unfolding store_or_drop get_chain_by_node_id get_chain_by_genesis_hash
store_or_drop_lem s node_id c d v e k =
    let i = node_id.chain_id in
    elim (Bool-cases (Chain.node_count d == 0)) [
      | inl z ↦ rw z (
        rw k.same_hash (drop-IsValid s i c v e),
        ground (arith, (get-remove s.chains i i).1),
        ground (
          arith,
          HashMap.get-remove c.genesis_hash c.genesis_hash s.chains_by_genesis_hash,
          k.same_hash,
        ),
      )
      | inr z ↦ rw z (
        put-IsValid_lem s i c d v e k,
        ground (arith, get-put s.chains i i d c e),
        ground (arith, get-put s.chains i i d c e, v.backward i c e),
      )
    ]

-- From a valid state a removal never panics and keeps the state valid, and its report is true: the
-- node is out of its chain, and a chain that has no node left is neither found by id nor by hash.
pub remove_node_lem :
    (s : State) (node_id : NodeId)
    → IsValid s
    → (r : State × Option RemovedNode) × (remove_node s node_id ≡ ret r)
      × IsValid r.0
      × Reports s node_id r.0 r.1
unfolding remove_node get_chain_by_node_id Reports remove_from_chain
remove_node_lem s node_id v = elim (Option-cases (DenseMap.get s.chains node_id.chain_id)) [
  | inl n ↦ ((s, none), rw (n, remove_node) refl, v, (n, refl))
  | inr (c, at) ↦
      let (d, de, k) = remove_node-Returns c node_id.chain_node_id (v.each _ c at).0 in
      let (valid, by_id, by_hash) = store_or_drop_lem s node_id c d.0 v at k in
      let removed : RemovedNode = record {
        chain_node_count = Chain.node_count d.0;
        has_chain_label_changed = d.1;
        old_chain_label = Chain.label c;
        chain_genesis_hash = d.0.genesis_hash;
        new_chain_label = Chain.label d.0;
      } in
      (
        (store_or_drop s node_id.chain_id d.0, some removed),
        rw (at, remove_node, de) refl,
        valid,
        (
          c,
          d.0,
          at,
          remove_node-nodes c node_id.chain_node_id de,
          refl,
          k.same_hash,
          by_id,
          by_hash,
        ),
      )
]
