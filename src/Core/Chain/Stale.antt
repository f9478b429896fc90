-- ===== src/Core/Chain/Stale.antt =====
-- backend/telemetry_core/src/state/chain.rs: nodes and best blocks that are out of date, and the
-- statistics that are sent at most every five seconds.
use substation.Core.Chain.{Chain}
use substation.Prelude.{
  ℕ, suc, ◌+◌, ◌-◌, ◌%◌, ◌^◌, ◌*◌, Bool, true, false, ◌&&◌, List, [], ◌∷◌, Option, none, some, ltb,
  ◌==◌, if◌then◌else◌, ite, string_key, nat_key,
}
use substation.Common.NumStats.{NumStats}
use substation.Common.NumStats
use substation.Common.Types.{Block, zero_block}
use substation.Core.ChainStats.{generate, ChainStats-discrete}
use substation.Core.FeedMessage.{FeedMessageSerializer, ◌▹◌}
use substation.Core.FeedMessage
use substation.Core.Node.{Node, Clock, Location}
use substation.Core.Node

abbrev pub stale_timeout : ℕ
stale_timeout = 2 * 60 * 1000

-- Five seconds, in nanoseconds.
abbrev pub stats_update_interval : ℕ
stats_update_interval = 5 * 1_000_000_000

-- The variables of the loop in `update_stale_nodes`.
pub record StaleScan : Type 0 where
  pub best : Block
  pub finalized : Block
  pub timestamp : Option ℕ
  pub feed : FeedMessageSerializer

-- One node that is in time.
unfoldable pub scan_fresh : StaleScan → Node → StaleScan
scan_fresh s node =
    let higher = ltb s.best.height node.best.block.height in
    record s {
      best = if higher then node.best.block else s.best;
      timestamp = if higher then some node.best.block_timestamp else s.timestamp;
      finalized =
          if ltb s.finalized.height node.finalized.height then node.finalized else s.finalized;
    }

unfoldable pub scan_node : ℕ → StaleScan → Node → Bool → StaleScan
unfolding scan_fresh
scan_node nid s node false = scan_fresh s node
scan_node nid s node true = record s { feed = s.feed ▹ FeedMessage.stale_node nid }

unfoldable pub scan_nodes : ℕ → ℕ → StaleScan → List (Option Node) → List (Option Node) × StaleScan
unfolding scan_node
scan_nodes threshold nid s [] = ([], s)
scan_nodes threshold nid s (none ∷ items) =
    let (rest, last) = scan_nodes threshold (suc nid) s items in (none ∷ rest, last)
scan_nodes threshold nid s (some node ∷ items) =
    let (node', stale) = Node.update_stale node threshold in
    let (rest, last) = scan_nodes threshold (suc nid) (scan_node nid s node' stale) items in
    (some node' ∷ rest, last)

-- The last part of `update_stale_nodes`, with the nodes as the loop leaves them.
unfoldable pub reset_best : Chain → ℕ → StaleScan → Chain × FeedMessageSerializer
reset_best c now s = if c.best.height == 0 && c.finalized.height == 0 then (c, s.feed) else (
  record c {
    best = s.best;
    finalized = s.finalized;
    block_times = NumStats.reset c.block_times;
    timestamp = s.timestamp;
  },
  s.feed
      ▹ FeedMessage.best_block s.best.height (elim s.timestamp [ none ↦ now | some t ↦ t ]) none
      ▹ FeedMessage.best_finalized s.finalized.height s.finalized.hash,
)

unfoldable pub stale_threshold : ℕ → ℕ
stale_threshold now = (now + 2 ^ 64 - stale_timeout) % 2 ^ 64

unfoldable pub update_stale_nodes :
    Chain → ℕ → FeedMessageSerializer → Chain × FeedMessageSerializer
unfolding stale_threshold scan_nodes reset_best
update_stale_nodes c now feed = elim c.timestamp [
  | none ↦ (c, feed)
  | some timestamp ↦
      let threshold = stale_threshold now in
      let start : StaleScan = record {
        best = zero_block;
        finalized = zero_block;
        timestamp = none;
        feed = feed;
      } in
      let (items, s) = scan_nodes threshold 0 start c.nodes.items in
      if ltb threshold timestamp
      then (c, feed)
      else reset_best (record c { nodes = record (c.nodes) { items = items } }) now s
]

unfoldable pub regenerate_stats_if_necessary :
    Chain → Clock → FeedMessageSerializer → Chain × FeedMessageSerializer
unfolding ChainStats-discrete
regenerate_stats_if_necessary c clock feed =
    let now = clock.instant_now in
    let stats = generate c.stats_collator in
    if ltb (now - c.stats_last_regenerated) stats_update_interval
    then (c, feed)
    else ite (ChainStats-discrete stats c.stats) (record c { stats_last_regenerated = now }, feed)
        (
          record c { stats_last_regenerated = now; stats = stats },
          feed ▹ FeedMessage.chain_stats_update stats,
        )
