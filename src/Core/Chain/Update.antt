-- ===== src/Core/Chain/Update.antt =====
-- backend/telemetry_core/src/state/chain.rs: a message from a node.
use substation.Core.Chain.{Chain}
use substation.Core.Chain.Blocks.{handle_block}
use substation.Prelude.{ℕ, Option, none, some, ltb, if◌then◌else◌, string_key, nat_key}
use substation.Prelude.Outcome.{Outcome, ret, ◌>>=◌}
use substation.Common.DenseMap.{DenseMap}
use substation.Common.DenseMap
use substation.Common.Types.{
  Block, BlockHash, NodeHwBench, Payload, system_interval, afg_authority_set, hw_bench,
  SystemInterval, zero_block, Timestamp,
}
use substation.Common.Types
use substation.Core.Counter.{increment, decrement}
use substation.Core.ChainStats.{update_hwbench}
use substation.Core.FeedMessage.{FeedMessageSerializer, ◌▹◌}
use substation.Core.FeedMessage
use substation.Core.Node.{Node, Clock, Location}
use substation.Core.Node

-- `if let Some(value) = … { feed.push(…) }`
abbrev pub push_if :
    {A : Type 0}
    → FeedMessageSerializer
    → Option A
    → (A → FeedMessage.FeedMessage)
    → FeedMessageSerializer
push_if feed none f = feed
push_if feed (some a) f = feed ▹ f a

unfoldable pub update_interval :
    Node → SystemInterval → ℕ → Clock → FeedMessageSerializer → Node × FeedMessageSerializer
update_interval node interval nid clock feed =
    let (n1, changed) = Node.update_hardware node clock interval in
    let feed1 = if changed then feed ▹ FeedMessage.hardware nid n1.hardware else feed in
    let (n2, stats) = Node.update_stats n1 interval in
    let feed2 = push_if feed1 stats (FeedMessage.node_stats_update nid) in
    let (n3, io) = Node.update_io n2 interval in
    (n3, push_if feed2 io (FeedMessage.node_io_update nid))

-- The chain's finalized block rises with a node's.
unfoldable pub raise_finalized :
    Chain → FeedMessageSerializer → Block → Chain × FeedMessageSerializer
raise_finalized c feed block =
    if ltb c.finalized.height block.height
    then (record c { finalized = block }, feed ▹ FeedMessage.best_finalized block.height block.hash)
    else (c, feed)

unfoldable pub update_finalized :
    Chain → Node → ℕ → Option Block → FeedMessageSerializer → Chain × FeedMessageSerializer
unfolding raise_finalized
update_finalized c node nid none feed = (record c { nodes = DenseMap.put c.nodes nid node }, feed)
update_finalized c node nid (some block) feed =
    let (node', news) = Node.update_finalized node block in
    let c' = record c { nodes = DenseMap.put c.nodes nid node' } in
    elim news [
      | none ↦ (c', feed)
      | some finalized ↦
          raise_finalized c'
            (feed ▹ FeedMessage.finalized_block nid finalized.height finalized.hash) finalized
    ]

unfoldable pub update_hw :
    Chain → Node → ℕ → NodeHwBench → FeedMessageSerializer → Outcome (Chain × FeedMessageSerializer)
update_hw c node nid hwbench feed = do
  let replaced = Node.update_hwbench node hwbench
  less ← update_hwbench c.stats_collator replaced.1 decrement
  more ← update_hwbench less replaced.0.hwbench increment
  ret (record c { nodes = DenseMap.put c.nodes nid replaced.0; stats_collator = more }, feed)

-- The `match` on the payload of a message from a node that is there.
unfoldable pub update_found :
    Chain
    → Node
    → ℕ
    → Payload
    → Clock
    → FeedMessageSerializer
    → Outcome (Chain × FeedMessageSerializer)
unfolding update_interval update_finalized update_hw
update_found c node nid (system_interval interval) clock feed =
    let (node', feed') = update_interval node interval nid clock feed in
    ret (update_finalized c node' nid (Types.finalized_block (system_interval interval)) feed')
update_found c node nid (afg_authority_set authority) clock feed =
    let (node', changed) = Node.set_validator_address node authority.authority_id in
    ret (
      record c { nodes = DenseMap.put c.nodes nid node' },
      (if changed then feed ▹ FeedMessage.added_node nid node' else feed),
    )
update_found c node nid (hw_bench hwbench) clock feed = update_hw c node nid hwbench feed
update_found c node nid payload clock feed =
    ret (update_finalized c node nid (Types.finalized_block payload) feed)

unfoldable pub update_node :
    Chain → ℕ → Payload → Clock → FeedMessageSerializer → Outcome (Chain × FeedMessageSerializer)
unfolding handle_block update_found
update_node c nid payload clock feed =
    let (c', feed') =
      let r : Chain × FeedMessageSerializer = elim (Types.best_block payload) [
        | none ↦ (c, feed)
        | some block ↦ handle_block c block nid clock feed
      ] in
      r in
    elim (DenseMap.get c'.nodes nid) [
      | none ↦ ret (c', feed')
      | some node ↦ update_found c' node nid payload clock feed'
    ]
