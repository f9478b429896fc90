-- ===== src/Core/Chain/MessageKeeps.antt =====
-- A node's message, `update_node` of backend/telemetry_core/src/state/chain.rs, keeps what a chain's
-- operations keep.
use substation.Prelude.{
  ◌≡◌, refl, ℕ, ◌+◌, ◌<◌, ◌^◌, String, set, arith, Option, none, some, ltb, Option-cases, inl, inr,
  either,
}
use substation.Prelude.Outcome.{ret}
use substation.Common.DenseMap.{DenseMap}
use substation.Common.DenseMap
use substation.Common.Types.{
  zero_block, Block, Payload, NodeHwBench, SystemInterval, system_interval, system_connected,
  block_import, notify_finalized, afg_authority_set, hw_bench,
}
use substation.Common.Types
use substation.Core.FeedMessage
use substation.Core.FeedMessage.{FeedMessageSerializer, ◌▹◌}
use substation.Core.Node.{Node, Clock}
use substation.Core.Node
use substation.Core.Chain.{Chain, node_count}
use substation.Core.Chain.Blocks.{handle_block}
use substation.Core.Chain.Update.{
  update_interval, raise_finalized, update_finalized, update_hw, update_found, update_node,
}
use substation.Core.Chain.Laws.{IsValid, Keeps}
use substation.Core.Chain.Roster.{traits, roster, roster-occupied, Gains-put}
use substation.Core.Counter.Tally.{Gains-occupied}
use substation.Core.ChainStats.Tallies.Moves.{bench-Tallies}
use substation.Common.DenseMap.Laws.{occupied, len-occupied}
use substation.Core.Chain.Keeps.{
  same-Keeps, put-Keeps_with, put-Keeps, trans-Keeps, KeepsIn, handle_block-Keeps,
}

update_finalized-Keeps :
    (c : Chain) (node old : Node) (nid : ℕ) (o : Option Block) (feed : FeedMessageSerializer)
    → IsValid c
    → DenseMap.get c.nodes nid ≡ some old
    → traits node ≡ traits old
    → Keeps c (update_finalized c node nid o feed).0
unfolding update_finalized raise_finalized
update_finalized-Keeps c node old nid none feed v at alike =
    put-Keeps c (record c { nodes = DenseMap.put c.nodes nid node }) nid node old v at alike refl
      refl refl refl
update_finalized-Keeps c node old nid (some block) feed v at alike =
    let (node', news) = Node.update_finalized node block in
    let c' : Chain = record c { nodes = DenseMap.put c.nodes nid node' } in
    let alike' : traits node' ≡ traits old =
      unfold Node.update_finalized in ground (arith, alike) in
    let k = put-Keeps c c' nid node' old v at alike' refl refl refl refl in
    elim (Option-cases news) [
      | inl e ↦ rw (e, update_finalized) k
      | inr (b, e) ↦
          let feed' = feed ▹ FeedMessage.finalized_block nid b.height b.hash in
          rw (e, update_finalized)
            (either (KeepsIn c) (ltb c.finalized.height b.height)
              (trans-Keeps c c' (record c' { finalized = b }) k
                (same-Keeps c' _ k.valid refl refl refl refl))
              k)
    ]

-- A new benchmark takes the place of the old one in the statistics, where that was counted.
update_hw-Returns :
    (c : Chain) (node : Node) (nid : ℕ) (hwbench : NodeHwBench) (feed : FeedMessageSerializer)
    → IsValid c
    → DenseMap.get c.nodes nid ≡ some node
    → (r : Chain × FeedMessageSerializer) × (update_hw c node nid hwbench feed ≡ ret r)
      × Keeps c r.0
unfolding update_hw Node.update_hwbench
update_hw-Returns c node nid hwbench feed v at =
    let node' : Node = record node { hwbench = some hwbench } in
    let mid = roster (set c.nodes.items nid none) in
    let (gains, gains') = Gains-put c.nodes nid node' node at in
    let fits : occupied mid + 1 < 2 ^ 64 =
      unfold node_count in
      omega (
        arith,
        v.within,
        v.limit,
        len-occupied c.nodes v.nodes_valid,
        roster-occupied c.nodes.items,
        Gains-occupied mid (roster c.nodes.items) (traits node) gains,
      ) in
    let (less, more, is, is', tallied) =
      bench-Tallies c.stats_collator node.details node.hwbench (some hwbench) mid
        (roster c.nodes.items) (roster (DenseMap.put c.nodes nid node').items) v.tallied gains
        gains' fits in
    let d : Chain = record c { nodes = DenseMap.put c.nodes nid node'; stats_collator = more } in
    ((d, feed), rw (is, is') refl, put-Keeps_with c d nid node' node v at refl tallied refl refl)

interval-traits :
    (node : Node) (i : SystemInterval) (nid : ℕ) (clock : Clock) (feed : FeedMessageSerializer)
    → traits (update_interval node i nid clock feed).0 ≡ traits node
unfolding update_interval Node.update_hardware Node.update_stats Node.update_io
interval-traits node i nid clock feed = refl

validator-traits :
    (node : Node) (addr : String) → traits (Node.set_validator_address node addr).0 ≡ traits node
unfolding Node.set_validator_address
validator-traits node addr = ground arith

update_found-Returns :
    (c : Chain) (node : Node) (nid : ℕ) (p : Payload) (clock : Clock) (feed : FeedMessageSerializer)
    → IsValid c
    → DenseMap.get c.nodes nid ≡ some node
    → (r : Chain × FeedMessageSerializer) × (update_found c node nid p clock feed ≡ ret r)
      × Keeps c r.0
unfolding update_found
update_found-Returns c node nid (system_interval i) clock feed v at =
    let (node', feed') = update_interval node i nid clock feed in
    (
      _,
      refl,
      update_finalized-Keeps c node' node nid (Types.finalized_block (system_interval i)) feed' v at
          (interval-traits node i nid clock feed),
    )
update_found-Returns c node nid (afg_authority_set a) clock feed v at = (
  _,
  refl,
  put-Keeps c _ nid (Node.set_validator_address node a.authority_id).0 node v at
      (validator-traits node a.authority_id) refl refl refl refl,
)
update_found-Returns c node nid (hw_bench h) clock feed v at =
    update_hw-Returns c node nid h feed v at
update_found-Returns c node nid (system_connected i) clock feed v at = (
  _,
  refl,
  update_finalized-Keeps c node node nid (Types.finalized_block (system_connected i)) feed v at
      refl,
)
update_found-Returns c node nid (block_import i) clock feed v at = (
  _,
  refl,
  update_finalized-Keeps c node node nid (Types.finalized_block (block_import i)) feed v at refl,
)
update_found-Returns c node nid (notify_finalized i) clock feed v at = (
  _,
  refl,
  update_finalized-Keeps c node node nid (Types.finalized_block (notify_finalized i)) feed v at
      refl,
)

-- The block that a message brings, if it does.
first_part :
    (c : Chain) (o : Option Block) (nid : ℕ) (clock : Clock) (feed : FeedMessageSerializer)
    → IsValid c
    → let r : Chain × FeedMessageSerializer = elim o [
      | none ↦ (c, feed)
      | some block ↦ handle_block c block nid clock feed
    ] in
      KeepsIn c r
first_part c none nid clock feed v = same-Keeps c c v refl refl refl refl
first_part c (some block) nid clock feed v = handle_block-Keeps c block nid clock feed v

-- A message from a node does not panic, and keeps the chain valid.
pub update_node-Returns :
    (c : Chain) (nid : ℕ) (p : Payload) (clock : Clock) (feed : FeedMessageSerializer)
    → IsValid c
    → (r : Chain × FeedMessageSerializer) × (update_node c nid p clock feed ≡ ret r) × Keeps c r.0
unfolding update_node
update_node-Returns c nid p clock feed v =
    let s : Chain × FeedMessageSerializer = elim (Types.best_block p) [
      | none ↦ (c, feed)
      | some block ↦ handle_block c block nid clock feed
    ] in
    let k : Keeps c s.0 = first_part c (Types.best_block p) nid clock feed v in
    elim (Option-cases (DenseMap.get s.0.nodes nid)) [
      | inl n ↦ (s, rw (n, update_node) refl, k)
      | inr (node, n) ↦
          let (r, is, l) = update_found-Returns s.0 node nid p clock s.1 k.valid n in
          (r, rw (n, update_node) is, trans-Keeps c s.0 r.0 k l)
    ]
