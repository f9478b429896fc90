-- ===== src/Core/Chain/Blocks.antt =====
-- backend/telemetry_core/src/state/chain.rs: a block that a node imported.
use substation.Core.Chain.{Chain}
use substation.Core.Chain.Stale.{update_stale_nodes, regenerate_stats_if_necessary}
use substation.Prelude.{ℕ, ◌-◌, Option, none, some, ltb, ◌==◌, if◌then◌else◌, string_key, nat_key}
use substation.Common.DenseMap.{DenseMap}
use substation.Common.DenseMap
use substation.Common.NumStats.{NumStats}
use substation.Common.NumStats
use substation.Common.Types.{Block}
use substation.Core.FeedMessage.{FeedMessageSerializer, ◌▹◌}
use substation.Core.FeedMessage
use substation.Core.Node.{Node, Clock, Location}
use substation.Core.Node

-- A block above the best one: the times between best blocks are averaged.
unfoldable pub push_block_time : Chain → ℕ → Chain
push_block_time c now = elim c.timestamp [
  | none ↦ c
  | some timestamp ↦
      let times = NumStats.push c.block_times (now - timestamp) in
      record c { block_times = times; average_block_time = some (NumStats.average times) }
]

-- The chain and the feed after a block that is news to its node, and the propagation time.
unfoldable pub note_block :
    Chain → Block → ℕ → FeedMessageSerializer → Chain × FeedMessageSerializer × Option ℕ
unfolding push_block_time
note_block c block now feed =
    let c' = record (push_block_time c now) { best = block; timestamp = some now } in
    let since : Option ℕ = elim c.timestamp [ none ↦ none | some t ↦ some (now - t) ] in
    if ltb c.best.height block.height
    then (c', feed ▹ FeedMessage.best_block block.height now c'.average_block_time, some 0)
    else (c, feed, (if block.height == c.best.height then since else none))

-- The node's part of `handle_block`.
unfoldable pub handle_node_block :
    Chain → Node → Block → ℕ → ℕ → FeedMessageSerializer → Chain × FeedMessageSerializer
unfolding note_block
handle_node_block c node block nid now feed =
    let (node', news) = Node.update_block node block in
    let (c', feed', propagation_time) = note_block c block now feed in
    let (node'', shown) = Node.update_details node' now propagation_time in
    if news
    then (
      record c' { nodes = DenseMap.put c'.nodes nid node'' },
      (elim shown [ none ↦ feed' | some details ↦ feed' ▹ FeedMessage.imported_block nid details ]),
    )
    else (c, feed)

unfoldable pub handle_block :
    Chain → Block → ℕ → Clock → FeedMessageSerializer → Chain × FeedMessageSerializer
unfolding update_stale_nodes regenerate_stats_if_necessary handle_node_block
handle_block c block nid clock feed =
    let (c1, feed1) = update_stale_nodes c clock.block_now feed in
    let (c2, feed2) = regenerate_stats_if_necessary c1 clock feed1 in
    elim (DenseMap.get c2.nodes nid) [
      | none ↦ (c2, feed2)
      | some node ↦ handle_node_block c2 node block nid clock.block_now feed2
    ]
