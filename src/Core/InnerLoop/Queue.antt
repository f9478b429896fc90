-- ===== src/Core/InnerLoop/Queue.antt =====
-- backend/telemetry_core/src/aggregator/inner_loop.rs, `handle`: the task that takes messages in and
-- the task that handles them, with the queue between. The counters are `u64` and wrap.
pub mod Laws
use substation.Prelude.{
  ℕ, zero, suc, ◌+◌, ◌%◌, ◌^◌, Bool, true, false, List, [], ◌∷◌, ◌++◌, Option, none, some, length,
  ltb, ◌&&◌, if◌then◌else◌, sum, map,
}
use substation.Prelude.HashMap.{HashMap}
use substation.Prelude.Outcome.{Outcome, ret, panic, ◌>>=◌}
use substation.Common.BiMap.{BiMap}
use substation.Common.MultiMapUnique
use substation.Core.Node.{Clock}
use substation.Core.State.{NodeId, node_id_key}
use substation.Core.InnerLoop.{
  Channel, ShardId, shard_id_key, FromShardWebsocket, InnerLoop, ToAggregator, from_shard_websocket,
  from_feed_websocket, from_find_location, gather_metrics, metrics, send,
}
use substation.Core.InnerLoop.Shards.{handle_from_shard, handle_from_find_location}
use substation.Core.InnerLoop.Feeds.{handle_from_feed}

-- The messages from outside that may be dropped.
unfoldable pub is_update : ToAggregator → Bool
is_update (from_shard_websocket _ (FromShardWebsocket.update _ _)) = true
is_update _ = false

module _ (B : BiMap NodeId ShardId) where
  pub record Tasks : Type 0 where
    pub inner : InnerLoop B
    pub queue : List ToAggregator
    pub total_messages : ℕ
    pub dropped_messages : ℕ

  -- The length of a channel's queue, which the environment knows.
  unfoldable pub handle_gather_metrics :
      Tasks → Clock → (Channel → ℕ) → Channel → List ToAggregator → InnerLoop B
  handle_gather_metrics tasks clock waiting rx rest =
      let loop = tasks.inner in
      send B loop (
        metrics rx (record {
          timestamp_unix_ms = clock.block_now;
          chains_subscribed_to = MultiMapUnique.num_keys loop.chain_to_feed_conn_ids;
          subscribed_feeds = MultiMapUnique.num_values loop.chain_to_feed_conn_ids;
          total_messages_to_feeds = sum (map (λ e. waiting e.1) loop.feed_channels);
          current_messages_to_aggregator = length rest;
          total_messages_to_aggregator = tasks.total_messages;
          dropped_messages_to_aggregator = tasks.dropped_messages;
          connected_nodes = length (B.iter loop.node_ids);
          connected_feeds = length loop.feed_channels;
          connected_shards = length loop.shard_channels;
        }))

  unfoldable pub dispatch :
      Tasks → Clock → (Channel → ℕ) → ToAggregator → List ToAggregator → Outcome (InnerLoop B)
  unfolding handle_gather_metrics
  dispatch tasks clock waiting (from_feed_websocket conn_id msg) rest =
      ret (handle_from_feed B tasks.inner clock conn_id msg)
  dispatch tasks clock waiting (from_shard_websocket conn_id msg) rest =
      handle_from_shard B tasks.inner clock conn_id msg
  dispatch tasks clock waiting (from_find_location node_id location) rest =
      ret (handle_from_find_location B tasks.inner node_id location)
  dispatch tasks clock waiting (gather_metrics rx) rest =
      ret (handle_gather_metrics tasks clock waiting rx rest)

  -- A message comes in: a node update is dropped while the queue is too long.
  unfoldable pub receive : Tasks → ToAggregator → Tasks
  unfolding is_update
  receive tasks msg =
      let total = (tasks.total_messages + 1) % 2 ^ 64 in
      if ltb tasks.inner.max_queue_len (length tasks.queue) && is_update msg
      then record tasks {
        total_messages = total;
        dropped_messages = (tasks.dropped_messages + 1) % 2 ^ 64;
      }
      else record tasks { total_messages = total; queue = tasks.queue ++ msg ∷ [] }

  -- The oldest message is handled; with none there is nothing to do.
  unfoldable pub handle_next : Tasks → Clock → (Channel → ℕ) → Outcome Tasks
  unfolding dispatch
  handle_next tasks clock waiting = elim tasks.queue [
    | [] ↦ ret tasks
    | msg ∷ rest ↦ do
      loop ← dispatch tasks clock waiting msg rest
      ret (record tasks { inner = loop; queue = rest })
  ]
