-- ===== src/Core/InnerLoop/Drain.antt =====
-- The loop over the queue of the aggregator, backend/telemetry_core/src/aggregator/inner_loop.rs.
use substation.Prelude.{ℕ, ◌≡◌, refl, ◌≤◌, List, [], ◌∷◌, ◌++◌, length, nat_key, arith}
use substation.Prelude.Outcome.{Outcome, ret, ◌>>=◌}
use substation.Common.BiMap.{BiMap}
use substation.Core.Node.{Clock, Location}
use substation.Core.State.{NodeId, node_id_key}
use substation.Core.InnerLoop.{
  ConnId, Channel, ShardId, shard_id_key, InnerLoop, ToAggregator, from_shard_websocket,
  from_feed_websocket, from_find_location, gather_metrics, Metrics, metrics, send,
  FromShardWebsocket, FromFeedWebsocket,
}
use substation.Core.InnerLoop.Shards.{handle_from_shard, handle_from_find_location}
use substation.Core.InnerLoop.Feeds.{handle_from_feed}
use substation.Core.InnerLoop.Queue.{Tasks, dispatch, handle_gather_metrics, handle_next}
use substation.Core.InnerLoop.Sound.{IsValid, handle_from_shard-Safe, find_location-IsValid}
use substation.Core.InnerLoop.Sound.Feeds.{handle_from_feed-IsValid}

module _ (B : BiMap NodeId ShardId) where
  -- The loop over the queue, with the clock at each message.
  unfoldable pub drain : Tasks B → (Channel → ℕ) → List Clock → Outcome (Tasks B)
  drain tasks waiting [] = ret tasks
  drain tasks waiting (clock ∷ clocks) = do
    t ← handle_next B tasks clock waiting
    drain t waiting clocks

  -- An answer to a request for metrics, when these messages still wait.
  pub record Counted (l : InnerLoop B) (ms : List ToAggregator) (m : Metrics) : Type 0 where
    pub waiting_for_aggregator : m.current_messages_to_aggregator ≡ length ms
    pub nodes : m.connected_nodes ≡ length (B.iter l.node_ids)
    pub feeds : m.connected_feeds ≡ length l.feed_channels
    pub shards : m.connected_shards ≡ length l.shard_channels

  -- The messages handled one after the other, each at its clock: those of shards and feeds and the
  -- places of nodes do what their handlers say, and a request for metrics is answered on its channel.
  pub data Handled : List Clock → InnerLoop B → List ToAggregator → InnerLoop B → Type 0 where
    all_handled : (clocks : List Clock) (l : InnerLoop B) → Handled clocks l [] l
    by_shard :
        (clock : Clock) {clocks : List Clock} (l : InnerLoop B) (conn_id : ConnId)
        (m : FromShardWebsocket) {ms : List ToAggregator} {k u : InnerLoop B}
        → handle_from_shard B l clock conn_id m ≡ ret k
        → Handled clocks k ms u
        → Handled (clock ∷ clocks) l (from_shard_websocket conn_id m ∷ ms) u
    by_feed :
        (clock : Clock) {clocks : List Clock} (l : InnerLoop B) (conn_id : ConnId)
        (m : FromFeedWebsocket) {ms : List ToAggregator} {u : InnerLoop B}
        → Handled clocks (handle_from_feed B l clock conn_id m) ms u
        → Handled (clock ∷ clocks) l (from_feed_websocket conn_id m ∷ ms) u
    by_locator :
        (clock : Clock) {clocks : List Clock} (l : InnerLoop B) (node_id : NodeId)
        (location : Location) {ms : List ToAggregator} {u : InnerLoop B}
        → Handled clocks (handle_from_find_location B l node_id location) ms u
        → Handled (clock ∷ clocks) l (from_find_location node_id location ∷ ms) u
    answered :
        (clock : Clock) {clocks : List Clock} (l : InnerLoop B) (rx : Channel) (m : Metrics)
        {ms : List ToAggregator} {u : InnerLoop B}
        → Counted l ms m
        → Handled clocks (record l { sent = l.sent ++ metrics rx m ∷ [] }) ms u
        → Handled (clock ∷ clocks) l (gather_metrics rx ∷ ms) u

  -- The loop over this queue returns with all of it handled.
  abbrev Drained : Tasks B → List ToAggregator → (Channel → ℕ) → List Clock → Type 0
  Drained tasks queue waiting clocks =
      (t : Tasks B) × (drain (record tasks { queue = queue }) waiting clocks ≡ ret t)
      × Handled clocks tasks.inner queue t.inner
      × (t.queue ≡ [])
      × IsValid B t.inner

  drain_empty :
      (tasks : Tasks B) (waiting : Channel → ℕ) (clocks : List Clock)
      → drain (record tasks { queue = [] }) waiting clocks ≡ ret (record tasks { queue = [] })
  unfolding drain handle_next
  drain_empty tasks waiting [] = refl
  drain_empty tasks waiting (clock ∷ clocks) = drain_empty tasks waiting clocks

  drain_queue :
      (tasks : Tasks B) (waiting : Channel → ℕ) (queue : List ToAggregator) (clocks : List Clock)
      → IsValid B tasks.inner
      → length queue ≤ length clocks
      → Drained tasks queue waiting clocks
  unfolding drain handle_next dispatch handle_gather_metrics send
  drain_queue tasks waiting [] clocks v h =
      (_, drain_empty tasks waiting clocks, all_handled clocks tasks.inner, refl, v)
  drain_queue tasks waiting (m ∷ ms) [] v h = absurd (omega arith)
  drain_queue tasks waiting (from_shard_websocket conn_id m ∷ ms) (clock ∷ clocks) v h =
      let (l, is, w) = handle_from_shard-Safe B tasks.inner clock conn_id m v in
      let (t, end, done, empty, w') =
        drain_queue (record tasks { inner = l }) waiting ms clocks w (omega arith) in
      (t, rw is end, by_shard clock tasks.inner conn_id m is done, empty, w')
  drain_queue tasks waiting (from_feed_websocket conn_id m ∷ ms) (clock ∷ clocks) v h =
      let l : InnerLoop B = handle_from_feed B tasks.inner clock conn_id m in
      let (t, end, done, empty, w') =
        drain_queue (record tasks { inner = l }) waiting ms clocks
          (handle_from_feed-IsValid B tasks.inner clock conn_id m v) (omega arith) in
      (t, end, by_feed clock tasks.inner conn_id m done, empty, w')
  drain_queue tasks waiting (from_find_location node_id location ∷ ms) (clock ∷ clocks) v h =
      let l : InnerLoop B = handle_from_find_location B tasks.inner node_id location in
      let (t, end, done, empty, w') =
        drain_queue (record tasks { inner = l }) waiting ms clocks
          (find_location-IsValid B tasks.inner node_id location v) (omega arith) in
      (t, end, by_locator clock tasks.inner node_id location done, empty, w')
  drain_queue tasks waiting (gather_metrics rx ∷ ms) (clock ∷ clocks) v h =
      let full : Tasks B = record tasks { queue = gather_metrics rx ∷ ms } in
      let l : InnerLoop B = handle_gather_metrics B full clock waiting rx ms in
      let (t, end, done, empty, w') =
        drain_queue (record tasks { inner = l }) waiting ms clocks v (omega arith) in
      (
        t,
        end,
        answered clock tasks.inner rx _
            (record { waiting_for_aggregator = refl; nodes = refl; feeds = refl; shards = refl })
            done,
        empty,
        w',
      )

  -- Where the aggregator is valid, as many turns of the loop as there are messages in the queue, or
  -- more, return. By then every message was handled, oldest first: each message of a shard, of a feed
  -- or of the locator by its handler, on what the ones before it left, and each request for metrics
  -- with an answer on its channel that counts the nodes, feeds and shards there are and the messages
  -- that wait behind it. The queue is empty, and the aggregator valid.
  pub drain_lem :
      (tasks : Tasks B) (waiting : Channel → ℕ) (clocks : List Clock)
      → IsValid B tasks.inner
      → length tasks.queue ≤ length clocks
      → (t : Tasks B) × (drain tasks waiting clocks ≡ ret t)
        × Handled clocks tasks.inner tasks.queue t.inner
        × (t.queue ≡ [])
        × IsValid B t.inner
  drain_lem tasks waiting clocks v h = drain_queue tasks waiting tasks.queue clocks v h
