-- ===== src/Core/InnerLoop/Run.antt =====
-- The aggregator's loop, backend/telemetry_core/src/aggregator/inner_loop.rs, on any messages that come
-- from shards, feeds and the locator.
use substation.Prelude.{
  either, ltb, ◌&&◌, ℕ, ◌≡◌, refl, ◌<◌, ◌^◌, String, List, [], ◌∷◌, length, nat_key,
}
use substation.Prelude.HashMap.{HashMap, get-insert, get-remove}
use substation.Prelude.HashMap
use substation.Prelude.Outcome.{Outcome, ret, ◌>>=◌}
use substation.Common.BiMap.{BiMap}
use substation.Common.MultiMapUnique.{MultiMapUnique}
use substation.Common.MultiMapUnique
use substation.Common.MultiMapUnique.Laws as SubLaws
use substation.Common.MultiMapUnique.Laws.{
  holds, values-remove_value, insert_lem, remove_value-IsValid, insert-IsValid,
}
use substation.Core.Node.{Clock}
use substation.Core.State.{NodeId, node_id_key}
use substation.Core.State.Laws as StateLaws
use substation.Core.InnerLoop.{
  Channel, ShardId, shard_id_key, InnerLoop, ToAggregator, from_shard_websocket,
  from_feed_websocket, from_find_location, gather_metrics, new, send,
}
use substation.Core.InnerLoop.Queue.{
  Tasks, is_update, dispatch, handle_gather_metrics, handle_next, receive,
}
use substation.Core.InnerLoop.Sound.{IsValid, handle_from_shard-Safe, find_location-IsValid}
use substation.Core.InnerLoop.Sound.Feeds.{handle_from_feed-IsValid}

-- A message comes in, or the oldest one is handled.
pub data Event : Type 0 where
  arrive : ToAggregator → Event
  next : Clock → (Channel → ℕ) → Event

module _ (B : BiMap NodeId ShardId) where
  -- The tasks as `handle` starts them.
  unfoldable pub start : List String → ℕ → ℕ → Tasks B
  start denylist max_queue_len max_third_party_nodes = record {
    inner = new B denylist max_queue_len max_third_party_nodes;
    queue = [];
    total_messages = 0;
    dropped_messages = 0;
  }

  unfoldable pub step : Tasks B → Event → Outcome (Tasks B)
  step tasks (arrive message) = ret (receive B tasks message)
  step tasks (next clock waiting) = handle_next B tasks clock waiting

  unfoldable pub run : Tasks B → List Event → Outcome (Tasks B)
  unfolding step
  run tasks [] = ret tasks
  run tasks (event ∷ events) = do t ← step tasks event; run t events

  pub new-IsValid :
      (denylist : List String) (max_queue_len n : ℕ)
      → n < 2 ^ 64
      → IsValid B (new B denylist max_queue_len n)
  unfolding new MultiMapUnique.new MultiMapUnique.get_values HashMap.get
  new-IsValid denylist max_queue_len n r = record {
    state_valid = StateLaws.new-IsValid denylist n r;
    subscriptions_valid = SubLaws.new-IsValid;
    listening = λ h c on. cc;
  }

  dispatch-Safe :
      (tasks : Tasks B) (clock : Clock) (waiting : Channel → ℕ) (message : ToAggregator)
      (rest : List ToAggregator)
      → IsValid B tasks.inner
      → (loop : InnerLoop B) × (dispatch B tasks clock waiting message rest ≡ ret loop)
        × IsValid B loop
  unfolding dispatch handle_gather_metrics send
  dispatch-Safe tasks clock waiting (from_shard_websocket conn_id m) rest v =
      handle_from_shard-Safe B tasks.inner clock conn_id m v
  dispatch-Safe tasks clock waiting (from_feed_websocket conn_id m) rest v =
      (_, refl, handle_from_feed-IsValid B tasks.inner clock conn_id m v)
  dispatch-Safe tasks clock waiting (from_find_location node_id location) rest v =
      (_, refl, find_location-IsValid B tasks.inner node_id location v)
  dispatch-Safe tasks clock waiting (gather_metrics rx) rest v = (_, refl, v)

  -- What one turn of the loop leaves in the queue.
  abbrev tail : List ToAggregator → List ToAggregator
  tail [] = []
  tail (m ∷ ms) = ms

  handle_next_cases :
      (tasks : Tasks B) (queue : List ToAggregator) (clock : Clock) (waiting : Channel → ℕ)
      → let t : Tasks B = record tasks { queue = queue } in
        IsValid B t.inner
        → (u : Tasks B) × (handle_next B t clock waiting ≡ ret u)
          × IsValid B u.inner
          × (u.queue ≡ tail queue)
  unfolding handle_next
  handle_next_cases tasks [] clock waiting v = (_, refl, v, refl)
  handle_next_cases tasks (message ∷ rest) clock waiting v =
      let t : Tasks B = record tasks { queue = message ∷ rest } in
      let (loop, is, w) = dispatch-Safe t clock waiting message rest v in
      (record tasks { inner = loop; queue = rest }, rw is refl, w, refl)

  handle_next-Safe :
      (tasks : Tasks B) (clock : Clock) (waiting : Channel → ℕ)
      → IsValid B tasks.inner
      → (u : Tasks B) × (handle_next B tasks clock waiting ≡ ret u)
        × IsValid B u.inner
        × (u.queue ≡ tail tasks.queue)
  handle_next-Safe tasks clock waiting v = handle_next_cases tasks tasks.queue clock waiting v

  step-Safe :
      (tasks : Tasks B) (event : Event)
      → IsValid B tasks.inner
      → (t : Tasks B) × (step tasks event ≡ ret t) × IsValid B t.inner
  unfolding step receive
  step-Safe tasks (arrive message) v = (
    _,
    refl,
    either {A = Tasks B} (λ t. IsValid B t.inner)
        (ltb tasks.inner.max_queue_len (length tasks.queue) && is_update message) v v,
  )
  step-Safe tasks (next clock waiting) v =
      let (t, is, w, _) = handle_next-Safe tasks clock waiting v in (t, is, w)

  run-Safe :
      (tasks : Tasks B) (events : List Event)
      → IsValid B tasks.inner
      → (t : Tasks B) × (run tasks events ≡ ret t) × IsValid B t.inner
  unfolding run
  run-Safe tasks [] v = (tasks, refl, v)
  run-Safe tasks (event ∷ events) v =
      let (t, is, w) = step-Safe tasks event v in
      let (u, is', x) = run-Safe t events w in (u, rw is is', x)

  -- From the start, on whatever messages come from shards, feeds and the locator, and however their
  -- arrival and their handling are interleaved, the core's loop does not panic. Then its state and
  -- its subscriptions are valid, and every feed that is subscribed to a chain is connected.
  pub loop-IsValid :
      (denylist : List String) (max_queue_len n : ℕ) (events : List Event)
      → n < 2 ^ 64
      → (t : Tasks B) × (run (start denylist max_queue_len n) events ≡ ret t) × IsValid B t.inner
  unfolding start
  loop-IsValid denylist max_queue_len n events r =
      run-Safe (start denylist max_queue_len n) events (new-IsValid denylist max_queue_len n r)
