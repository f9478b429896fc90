-- ===== src/Core/InnerLoop/Sound.antt =====
-- What holds of the aggregator, backend/telemetry_core/src/aggregator/inner_loop.rs, between messages, and
-- that the messages of shards and of the locator keep it. `Feeds` is about those of the feeds.
pub mod Feeds
use substation.Prelude.{
  ℕ, ◌≡◌, ◌≢◌, refl, sym, ◌∙◌, subst, ◌<◌, ◌^◌, Bool, true, false, String, List, [], ◌∷◌, ◌++◌,
  Option, none, some, length, nat_key, arith, Option-cases, inl, inr, ite, ◌≟◌,
}
use substation.Prelude.HashMap.{HashMap, get-insert, get-remove}
use substation.Prelude.HashMap
use substation.Prelude.Outcome.{Outcome, ret, ◌>>=◌}
use substation.Common.BiMap.{BiMap}
use substation.Common.MultiMapUnique.{MultiMapUnique}
use substation.Common.MultiMapUnique
use substation.Common.MultiMapUnique.Laws as SubLaws
use substation.Common.MultiMapUnique.Laws.{
  holds, values-remove_value, insert_lem, remove_value-IsValid, insert-IsValid,
}
use substation.Common.Types.{BlockHash}
use substation.Core.Chain.{Chain}
use substation.Core.FeedMessage.{FeedMessageSerializer, ◌▹◌, into_finalized}
use substation.Core.FeedMessage
use substation.Core.Node.{Clock, Location}
use substation.Core.State.{State, NodeId, node_id_key, get_chain_by_genesis_hash, iter_chains}
use substation.Core.State
use substation.Core.State.AddNode.{add_node_lem}
use substation.Core.State.History.{update_node-Returns_state, locate-IsValid}
use substation.Core.State.Laws as StateLaws
use substation.Core.State.RemoveNode.{remove_node_lem}
use substation.Core.InnerLoop.{
  ConnId, Channel, ShardId, shard_id_key, FromFeedWebsocket, FromShardWebsocket, InnerLoop,
  ToAggregator, from_shard_websocket, from_feed_websocket, from_find_location, gather_metrics, new,
  send_feed, finalize_and_broadcast_to_chain_feeds, finalize_and_broadcast_to_all_feeds,
}
use substation.Core.InnerLoop.Feeds.{
  subscribe, subscribe_to, handle_from_feed, chunk_messages, push_chains, send_chunks,
  subscription_messages, chain_of,
}
use substation.Core.InnerLoop.Queue.{Tasks, dispatch, handle_gather_metrics, handle_next, receive}
use substation.Core.InnerLoop.Sends.{
  optional, View, view, Same, send_feed-Same, send_chunks-Same, chain_feeds-Same, all_feeds-Same,
  finish_add-Same, finish_update-Same,
}
use substation.Core.InnerLoop.Shards.{
  remove_node, remove_each, remove_groups, group_by_chain, ids_of_shard,
  remove_nodes_and_broadcast_result, handle_from_shard, handle_from_find_location, finish_add,
  finish_update, tell_if_removed,
}

module _ (B : BiMap NodeId ShardId) where
  -- The state and the subscriptions are valid, and only a feed that is connected is subscribed.
  pub record Sound (v : View B) : Type 0 where
    pub state_valid : StateLaws.IsValid v.0
    pub subscriptions_valid : SubLaws.IsValid v.1
    pub listening :
        (hash : BlockHash) (conn_id : ConnId)
        → holds v.1 hash conn_id ≡ true
        → HashMap.get conn_id v.2 ≢ none

  abbrev pub IsValid : InnerLoop B → Type 0
  IsValid loop = Sound (view B loop)

  -- Code that returns a valid loop.
  abbrev pub Safe : Outcome (InnerLoop B) → Type 0
  Safe m = (loop : InnerLoop B) × (m ≡ ret loop) × IsValid loop

  pub Same-IsValid : (loop after : InnerLoop B) → Same B loop after → IsValid loop → IsValid after
  Same-IsValid loop after e v = subst Sound (sym e) v

  state-IsValid :
      (loop : InnerLoop B) (s : State)
      → IsValid loop
      → StateLaws.IsValid s
      → IsValid (record loop { node_state = s })
  state-IsValid loop s v w = record {
    state_valid = w;
    subscriptions_valid = v.subscriptions_valid;
    listening = v.listening;
  }

  remove_each-Safe :
      (loop : InnerLoop B) (node_ids : List NodeId)
      (feeds : FeedMessageSerializer × FeedMessageSerializer)
      → IsValid loop
      → (r : InnerLoop B × (FeedMessageSerializer × FeedMessageSerializer)) × (remove_each B loop
            node_ids feeds
          ≡ ret r)
        × IsValid r.0
  unfolding remove_each remove_node
  remove_each-Safe loop [] feeds v = ((loop, feeds), refl, v)
  remove_each-Safe loop (node_id ∷ node_ids) feeds v =
      let (result, is, w, _) = remove_node_lem loop.node_state node_id v.state_valid in
      let after : InnerLoop B = record loop {
        node_state = result.0;
        node_ids = B.remove_by_left node_id loop.node_ids;
      } in
      let told = tell_if_removed B node_id result.1 feeds in
      let (r, is', x) = remove_each-Safe after node_ids told (state-IsValid loop result.0 v w) in
      (r, rw is is', x)

  remove_groups-Safe :
      (loop : InnerLoop B) (groups : HashMap BlockHash (List NodeId)) (all : FeedMessageSerializer)
      → IsValid loop
      → (r : InnerLoop B × FeedMessageSerializer) × (remove_groups B loop groups all ≡ ret r)
        × IsValid r.0
  unfolding remove_groups
  remove_groups-Safe loop [] all v = ((loop, all), refl, v)
  remove_groups-Safe loop ((hash, node_ids) ∷ groups) all v =
      let (r, is, w) = remove_each-Safe loop node_ids (FeedMessage.new, all) v in
      let told = finalize_and_broadcast_to_chain_feeds B r.0 hash r.1.0 in
      let told-valid = Same-IsValid r.0 told (chain_feeds-Same B r.0 hash r.1.0) w in
      let (r', is', x) = remove_groups-Safe told groups r.1.1 told-valid in (r', rw is is', x)

  remove_nodes-Safe :
      (loop : InnerLoop B) (node_ids : List NodeId)
      → IsValid loop
      → Safe (remove_nodes_and_broadcast_result B loop node_ids)
  unfolding remove_nodes_and_broadcast_result
  remove_nodes-Safe loop node_ids v =
      let (r, is, w) =
        remove_groups-Safe loop (group_by_chain B loop.node_state node_ids []) FeedMessage.new v in
      let told = finalize_and_broadcast_to_all_feeds B r.0 r.1 in
      (told, rw is refl, Same-IsValid r.0 told (all_feeds-Same B r.0 r.1) w)

  pub handle_from_shard-Safe :
      (loop : InnerLoop B) (clock : Clock) (conn_id : ConnId) (message : FromShardWebsocket)
      → IsValid loop
      → Safe (handle_from_shard B loop clock conn_id message)
  unfolding handle_from_shard
  handle_from_shard-Safe loop clock conn_id (FromShardWebsocket.initialize channel) v = (_, refl, v)
  handle_from_shard-Safe loop clock conn_id (FromShardWebsocket.add local_id ip node hash) v =
      let (r, is, w, _) = add_node_lem loop.node_state hash node clock v.state_valid in
      let added : InnerLoop B = record loop { node_state = r.0 } in
      let told = finish_add B added (conn_id, local_id) ip hash r.1 in
      (
        told,
        rw is refl,
        Same-IsValid added told (finish_add-Same B added (conn_id, local_id) ip hash r.1)
            (state-IsValid loop r.0 v w),
      )
  handle_from_shard-Safe loop clock conn_id (FromShardWebsocket.remove local_id) v =
      optional Safe (B.get_by_right (conn_id, local_id) loop.node_ids) (loop, refl, v)
        λ node_id.
          remove_nodes-Safe
            (record loop { node_ids = B.remove_by_right (conn_id, local_id) loop.node_ids })
            (node_id ∷ []) v
  handle_from_shard-Safe loop clock conn_id (FromShardWebsocket.update local_id payload) v =
      optional Safe (B.get_by_right (conn_id, local_id) loop.node_ids) (loop, refl, v)
        λ node_id.
          let (r, is, w) =
            update_node-Returns_state loop.node_state node_id payload clock FeedMessage.new
              v.state_valid in
          let updated : InnerLoop B = record loop { node_state = r.0 } in
          let told = finish_update B updated node_id r.1 in
          (
            told,
            rw is refl,
            Same-IsValid updated told (finish_update-Same B updated node_id r.1)
                (state-IsValid loop r.0 v w),
          )
  handle_from_shard-Safe loop clock conn_id FromShardWebsocket.disconnected v =
      remove_nodes-Safe
        (record loop { shard_channels = HashMap.remove conn_id loop.shard_channels })
        (ids_of_shard B conn_id (B.iter loop.node_ids)) v

  pub find_location-IsValid :
      (loop : InnerLoop B) (node_id : NodeId) (location : Location)
      → IsValid loop
      → IsValid (handle_from_find_location B loop node_id location)
  unfolding handle_from_find_location
  find_location-IsValid loop node_id location v =
      let w = locate-IsValid loop.node_state node_id location v.state_valid in
      let located : InnerLoop B = record loop {
        node_state = (State.update_node_location loop.node_state node_id location).0;
      } in
      let x = state-IsValid loop located.node_state v w in
      optional IsValid location x λ place.
        let feed =
          FeedMessage.new
          ▹ FeedMessage.located_node node_id.chain_node_id place.latitude place.longitude
              place.city in
        Same-IsValid located (finish_update B located node_id feed)
          (finish_update-Same B located node_id feed) x
