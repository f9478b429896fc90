-- ===== src/Core/State/AddNode.antt =====
-- What backend/telemetry_core/src/state/state.rs promises of a node that is added.
use substation.Prelude.{
  ◌≡◌, ◌≤◌, inl, inr, refl, ℕ, true, false, some, arith, Bool-cases, Option-cases, nat_key,
}
use substation.Prelude.HashMap.{HashMap, get-insert}
use substation.Prelude.HashMap
use substation.Prelude.Outcome.{ret}
use substation.Common.DenseMap.{DenseMap}
use substation.Common.DenseMap
use substation.Common.DenseMap.Laws.{get-add, get-put}
use substation.Common.Types.{BlockHash, NodeDetails}
use substation.Core.Chain.{Chain}
use substation.Core.Chain
use substation.Core.Chain.Laws.{Keeps, add_node_cases, add_counted_lem}
use substation.Core.Node.{Clock}
use substation.Core.State.{
  State, NodeAddedToChain, AddNodeResult, chain_on_deny_list, chain_over_quota, node_added_to_chain,
  max_nodes_of, ensure_chain, expect, report_added, add_to_chain, add_node, denied,
  get_chain_by_genesis_hash, get_chain_by_node_id,
}
use substation.Core.State.Laws.{IsValid, put-IsValid_lem, add-IsValid_lem}
use substation.Core.Node

-- What holds once a chain for `h` is ensured.
record Ensured (s : State) (h : BlockHash) (r : State × ℕ) : Type 0 where
  pub valid : IsValid r.0
  pub chain : Chain
  pub at : DenseMap.get r.0.chains r.1 ≡ some chain
  pub hash : chain.genesis_hash ≡ h
  pub limit : r.0.max_third_party_nodes ≡ s.max_third_party_nodes

ensure_chain_lem :
    (s : State) (h : BlockHash) (clock : Clock) → IsValid s → Ensured s h (ensure_chain s h clock)
unfolding ensure_chain
ensure_chain_lem s h clock v = elim (Option-cases (HashMap.get h s.chains_by_genesis_hash)) [
  | inl e ↦
      let chain = Chain.new clock h (max_nodes_of s h) in
      rw (e, ensure_chain)
        (record {
          valid = add-IsValid_lem s h clock v e;
          chain = chain;
          at =
              ground (arith, get-add s.chains chain (DenseMap.add s.chains chain).1 v.chains_valid);
          hash = unfold Chain.new in refl;
          limit = refl;
        })
  | inr (id, e) ↦
      let (x, at, hash) = v.forward h id e in
      rw (e, ensure_chain) (record { valid = v; chain = x; at = at; hash = hash; limit = refl })
]

-- What the state after `add_node` holds, by what it reports.
pub Reports : State → BlockHash → NodeDetails → Clock → State → AddNodeResult → Type 0
Reports s h details clock s' chain_on_deny_list =
    (denied details.chain s.denylist ≡ true) × (s' ≡ s)
Reports s h details clock s' chain_over_quota =
    (denied details.chain s.denylist ≡ false)
    × ((c : Chain) × (get_chain_by_genesis_hash s' h ≡ some c)
        × (max_nodes_of s h ≤ Chain.node_count c))
Reports s h details clock s' (node_added_to_chain a) =
    (denied details.chain s.denylist ≡ false)
    × (a.node ≡ Node.new clock details)
    × ((c : Chain) × (get_chain_by_genesis_hash s' h ≡ some c)
        × (get_chain_by_node_id s' a.id ≡ some c)
        × (DenseMap.get c.nodes a.id.chain_node_id ≡ some a.node)
        × (a.chain_node_count ≡ Chain.node_count c)
        × (a.new_chain_label ≡ Chain.label c))

-- The chain of the result is the one under `id` and under its hash.
stored :
    (s : State) (id : ℕ) (c d : Chain)
    → IsValid s
    → DenseMap.get s.chains id ≡ some c
    → Keeps c d
    → let s' = record s { chains = DenseMap.put s.chains id d } in
      (get_chain_by_genesis_hash s' c.genesis_hash ≡ some d) × (DenseMap.get s'.chains id ≡ some d)
unfolding get_chain_by_genesis_hash
stored s id c d v e k = (
  ground (arith, v.backward id c e, get-put s.chains id id d c e),
  ground (arith, get-put s.chains id id d c e),
)

full : (c : Chain) → Chain.is_overquota c ≡ true → c.max_nodes ≤ Chain.node_count c
unfolding Chain.is_overquota Chain.node_count
full c q = ground arith

same_limit :
    (s t : State) (h : BlockHash)
    → t.max_third_party_nodes ≡ s.max_third_party_nodes
    → max_nodes_of t h ≡ max_nodes_of s h
unfolding max_nodes_of
same_limit s t h e = ground arith

-- `add_to_chain`, at a chain that is there.
add_to_chain_lem :
    (s t : State) (h : BlockHash) (details : NodeDetails) (clock : Clock) (id : ℕ)
    → denied details.chain s.denylist ≡ false
    → Ensured s h (t, id)
    → (r : State × AddNodeResult) × (add_to_chain t id details clock ≡ ret r)
      × IsValid r.0
      × Reports s h details clock r.0 r.1
unfolding add_to_chain Reports get_chain_by_node_id report_added expect
add_to_chain_lem s t h details clock id allowed en =
    let node = Node.new clock details in
    let c = en.chain in
    let cv = en.valid.each id c en.at in
    elim (add_node_cases c node cv.0 (unfold Node.new in refl)) [
      | inl (q, e) ↦
          let k : Keeps c c = record { valid = cv.0; same_hash = refl; same_max = refl } in
          let st = stored t id c c en.valid en.at k in
          (
            (record t { chains = DenseMap.put t.chains id c }, chain_over_quota),
            rw (en.at, e) refl,
            put-IsValid_lem t id c c en.valid en.at k,
            (
              allowed,
              (
                c,
                ground (arith, st.0, en.hash),
                ground (arith, full c q, same_limit s t h en.limit, cv.1, en.hash),
              ),
            ),
          )
      | inr (q, (collator, e, tallied)) ↦
          let d = Chain.add_counted c node collator in
          let (dv, hash, limit, count, (renamed, is, there)) =
            add_counted_lem c node collator cv.0 q tallied in
          let k : Keeps c d.0 = record { valid = dv; same_hash = hash; same_max = limit } in
          let st = stored t id c d.0 en.valid en.at k in
          let a : NodeAddedToChain = record {
            id = record { chain_id = id; chain_node_id = (DenseMap.add c.nodes node).1 };
            old_chain_label = Chain.label c;
            new_chain_label = Chain.label d.0;
            node = node;
            chain_node_count = Chain.node_count d.0;
            has_chain_label_changed = renamed;
          } in
          (
            (record t { chains = DenseMap.put t.chains id d.0 }, node_added_to_chain a),
            rw (en.at, e, is, there) refl,
            put-IsValid_lem t id c d.0 en.valid en.at k,
            (allowed, refl, (d.0, ground (arith, st.0, en.hash), st.1, there, refl, refl)),
          )
    ]

-- From a valid state `add_node` never panics and keeps the state valid, and its report is true: a
-- denied chain leaves the state alone, over quota means that the chain has all the nodes its kind
-- allows, and otherwise the node is in the chain with its hash, under the id reported, with that
-- chain's count and label.
pub add_node_lem :
    (s : State) (h : BlockHash) (details : NodeDetails) (clock : Clock)
    → IsValid s
    → (r : State × AddNodeResult) × (add_node s h details clock ≡ ret r)
      × IsValid r.0
      × Reports s h details clock r.0 r.1
unfolding add_node Reports
add_node_lem s h details clock v = elim (Bool-cases (denied details.chain s.denylist)) [
  | inl e ↦ ((s, chain_on_deny_list), ground (arith, e), v, (e, refl))
  | inr e ↦
      let (s', id) = ensure_chain s h clock in
      rw e (add_to_chain_lem s s' h details clock id e (ensure_chain_lem s h clock v))
]
