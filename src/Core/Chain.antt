-- ===== src/Core/Chain.antt =====
-- backend/telemetry_core/src/state/chain.rs: the chain, and its nodes coming and going. `Stale` has
-- the checks that are made when time passes, `Blocks` a new block, `Update` a node's message.
pub mod Roster
pub mod Laws
pub mod Stale
pub mod Blocks
pub mod Update
pub mod Keeps
pub mod MessageKeeps
use substation.Prelude.{
  ℕ, zero, suc, ◌+◌, ◌-◌, ◌%◌, ◌^◌, ◌*◌, Bool, true, false, not, ◌&&◌, ◌||◌, String, ◌≡◌, List, [],
  ◌∷◌, Option, none, some, ltb, leb, ◌==◌, if◌then◌else◌, ite, ◌≟◌, string_key, nat_key,
}
use substation.Prelude.Outcome.{Outcome, ret, panic, ◌>>=◌}
use substation.Common.DenseMap.{DenseMap}
use substation.Common.DenseMap
use substation.Common.MostSeen.{MostSeen, has_changed}
use substation.Common.MostSeen
use substation.Common.NumStats.{NumStats}
use substation.Common.NumStats
use substation.Common.Types.{
  Block, BlockHash, NodeHwBench, Payload, system_interval, afg_authority_set, hw_bench,
  SystemInterval, zero_block, Timestamp,
}
use substation.Common.Types
use substation.Core.Counter.{increment, decrement}
use substation.Core.ChainStats.{
  ChainStats, ChainStatsCollator, new_collator, default_stats, update_hwbench, add_or_remove_node,
  generate, ChainStats-discrete,
}
use substation.Core.FeedMessage.{FeedMessageSerializer, ◌▹◌}
use substation.Core.FeedMessage
use substation.Core.Node.{Node, Clock, Location}
use substation.Core.Node

pub record Chain : Type 0 where
  pub labels : MostSeen String
  pub nodes : DenseMap Node
  pub best : Block
  pub finalized : Block
  pub block_times : NumStats
  pub average_block_time : Option ℕ
  pub timestamp : Option Timestamp
  pub genesis_hash : BlockHash
  pub max_nodes : ℕ
  pub stats_collator : ChainStatsCollator
  pub stats : ChainStats
  pub stats_last_regenerated : ℕ

pub data AddNodeResult : Type 0 where
  overquota : AddNodeResult
  added : ℕ → Bool → AddNodeResult

-- Polkadot, Kusama, Westend and Rococo.
abbrev pub first_party_networks : List BlockHash
first_party_networks =
    0x91b171bb158e2d3848fa23a9f1c25182fb8e20313b2c1eb49219da7a70ce90c3
    ∷ 0xb0a8d493285c2df73290dfb7e61f870f17b41801197a149ca93654499ea3dafe
    ∷ 0xe143f23803ac50e8f6f8e62695d1ce9e4e1d68aa36c1cd2cfd15340213f3423e
    ∷ 0xf6e9983c37baf68846fedafe21e56718790e39fb1c582abc408b81bc7b208f9a ∷ []

unfoldable pub among : BlockHash → List BlockHash → Bool
among h [] = false
among h (x ∷ xs) = x == h || among h xs

unfoldable pub is_first_party_network : BlockHash → Bool
unfolding among
is_first_party_network genesis_hash = among genesis_hash first_party_networks

unfoldable pub new : Clock → BlockHash → ℕ → Chain
unfolding MostSeen.default DenseMap.new NumStats.new zero_block new_collator default_stats
new clock genesis_hash max_nodes = record {
  labels = MostSeen.default "";
  nodes = DenseMap.new;
  best = zero_block;
  finalized = zero_block;
  block_times = NumStats.new 50;
  average_block_time = none;
  timestamp = none;
  genesis_hash = genesis_hash;
  max_nodes = max_nodes;
  stats_collator = new_collator;
  stats = default_stats;
  stats_last_regenerated = clock.instant_now;
}

unfoldable pub is_overquota : Chain → Bool
is_overquota c = leb c.max_nodes (DenseMap.len c.nodes)

-- The node, with its details in the collator already, goes into the map and its label is counted.
unfoldable pub add_counted : Chain → Node → ChainStatsCollator → Chain × AddNodeResult
add_counted c node collator =
    let (labels, label_result) = MostSeen.insert c.labels node.details.chain in
    let (nodes, node_id) = DenseMap.add c.nodes node in
    (
      record c { labels = labels; nodes = nodes; stats_collator = collator },
      added node_id (has_changed label_result),
    )

unfoldable pub add_node : Chain → Node → Outcome (Chain × AddNodeResult)
unfolding is_overquota add_counted
add_node c node = if is_overquota c then ret (c, overquota) else do
  collator ← add_or_remove_node c.stats_collator node.details none increment
  ret (add_counted c node collator)

-- The result is `chain_renamed`.
unfoldable pub remove_found : Chain → DenseMap Node → Option Node → Outcome (Chain × Bool)
remove_found c nodes none = ret (c, false)
remove_found c nodes (some node) = do
  collator ← add_or_remove_node c.stats_collator node.details node.hwbench decrement
  let labels = MostSeen.remove c.labels node.details.chain
  ret (
    record c { labels = labels.0; nodes = nodes; stats_collator = collator },
    has_changed labels.1,
  )

unfoldable pub remove_node : Chain → ℕ → Outcome (Chain × Bool)
unfolding remove_found
remove_node c node_id =
    let (nodes, node) = DenseMap.remove c.nodes node_id in remove_found c nodes node

unfoldable pub update_node_location : Chain → ℕ → Location → Chain × Bool
update_node_location c node_id location = elim (DenseMap.get c.nodes node_id) [
  | none ↦ (c, false)
  | some node ↦
      (record c { nodes = DenseMap.put c.nodes node_id (Node.update_location node location) }, true)
]

unfoldable pub label : Chain → String
label c = MostSeen.best c.labels

unfoldable pub node_count : Chain → ℕ
node_count c = DenseMap.len c.nodes
