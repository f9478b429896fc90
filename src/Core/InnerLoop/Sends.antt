-- ===== src/Core/InnerLoop/Sends.antt =====
-- What the aggregator sends (backend/telemetry_core/src/aggregator/inner_loop.rs) leaves its state, its
-- subscriptions and its feeds alone.
use substation.Prelude.{◌≡◌, refl, ◌∙◌, List, [], ◌∷◌, Option, none, some, nat_key}
use substation.Prelude.HashMap.{HashMap}
use substation.Prelude.HashMap
use substation.Common.BiMap.{BiMap}
use substation.Common.MultiMapUnique.{MultiMapUnique}
use substation.Common.MultiMapUnique
use substation.Common.Types.{BlockHash, IpAddr, v4, v6}
use substation.Core.FeedMessage.{FeedMessage, FeedMessageSerializer, into_finalized}
use substation.Core.State.{
  State, NodeId, node_id_key, AddNodeResult, NodeAddedToChain, chain_on_deny_list, chain_over_quota,
  node_added_to_chain, get_chain_by_node_id,
}
use substation.Core.InnerLoop.{
  ConnId, Channel, ShardId, shard_id_key, InnerLoop, Sent, to_feed, send, send_to, send_feed,
  send_each, send_all, broadcast_to_chain_feeds, broadcast_to_all_feeds,
  finalize_and_broadcast_to_chain_feeds, finalize_and_broadcast_to_all_feeds,
}
use substation.Core.InnerLoop.Feeds.{send_chunks}
use substation.Core.InnerLoop.Shards.{request_location, announce_added, finish_add, finish_update}

-- What holds of both branches on an option.
pub optional :
    {A L : Type 0} (P : L → Type 0) (o : Option A) {x : L} {f : A → L}
    → P x
    → ((a : A) → P (f a))
    → P (elim o [ none ↦ x | some a ↦ f a ])
optional P none p q = p
optional P (some a) p q = q a

module _ (B : BiMap NodeId ShardId) where
  abbrev pub View : Type 0
  View = State × MultiMapUnique BlockHash ConnId × HashMap ConnId Channel

  abbrev pub view : InnerLoop B → View
  view loop = (loop.node_state, loop.chain_to_feed_conn_ids, loop.feed_channels)

  -- The second has the same view as the first.
  abbrev pub Same : InnerLoop B → InnerLoop B → Type 0
  Same loop after = view after ≡ view loop

  send_to-Same :
      (loop : InnerLoop B) (o : Option Channel) (f : Channel → Sent)
      → Same loop (send_to B loop o f)
  unfolding send_to send
  send_to-Same loop none f = refl
  send_to-Same loop (some channel) f = refl

  pub send_feed-Same :
      (loop : InnerLoop B) (channel : Channel) (o : Option (List FeedMessage))
      → Same loop (send_feed B loop channel o)
  unfolding send_feed send
  send_feed-Same loop channel none = refl
  send_feed-Same loop channel (some bytes) = refl

  pub send_chunks-Same :
      (loop : InnerLoop B) (channel : Channel) (messages : List (List FeedMessage))
      → Same loop (send_chunks B loop channel messages)
  unfolding send_chunks send
  send_chunks-Same loop channel [] = refl
  send_chunks-Same loop channel (bytes ∷ rest) =
      send_chunks-Same (send B loop (to_feed channel bytes)) channel rest

  send_each-Same :
      (loop : InnerLoop B) (feeds : List ConnId) (bytes : List FeedMessage)
      → Same loop (send_each B loop feeds bytes)
  unfolding send_each
  send_each-Same loop [] bytes = refl
  send_each-Same loop (feed_id ∷ feeds) bytes =
      let f : Channel → Sent = λ channel. to_feed channel bytes in
      let sent = send_to B loop (HashMap.get feed_id loop.feed_channels) f in
      send_each-Same sent feeds bytes ∙ send_to-Same loop (HashMap.get feed_id loop.feed_channels) f

  send_all-Same :
      (loop : InnerLoop B) (channels : HashMap ConnId Channel) (bytes : List FeedMessage)
      → Same loop (send_all B loop channels bytes)
  unfolding send_all send
  send_all-Same loop [] bytes = refl
  send_all-Same loop ((_, channel) ∷ channels) bytes =
      send_all-Same (send B loop (to_feed channel bytes)) channels bytes

  pub chain_feeds-Same :
      (loop : InnerLoop B) (hash : BlockHash) (serializer : FeedMessageSerializer)
      → Same loop (finalize_and_broadcast_to_chain_feeds B loop hash serializer)
  unfolding finalize_and_broadcast_to_chain_feeds broadcast_to_chain_feeds
  chain_feeds-Same loop hash serializer =
      optional (Same loop) (into_finalized serializer) refl λ bytes.
        optional (Same loop) (MultiMapUnique.get_values loop.chain_to_feed_conn_ids hash) refl
          λ feeds. send_each-Same loop feeds bytes

  pub all_feeds-Same :
      (loop : InnerLoop B) (serializer : FeedMessageSerializer)
      → Same loop (finalize_and_broadcast_to_all_feeds B loop serializer)
  unfolding finalize_and_broadcast_to_all_feeds broadcast_to_all_feeds
  all_feeds-Same loop serializer =
      optional (Same loop) (into_finalized serializer) refl
        λ bytes. send_all-Same loop loop.feed_channels bytes

  request_location-Same :
      (loop : InnerLoop B) (node_id : NodeId) (ip : IpAddr)
      → Same loop (request_location B loop node_id ip)
  unfolding request_location send
  request_location-Same loop node_id (v4 ip) = refl
  request_location-Same loop node_id (v6 ip) = refl

  announce_added-Same :
      (loop : InnerLoop B) (shard_id : ShardId) (ip : IpAddr) (hash : BlockHash)
      (details : NodeAddedToChain)
      → Same loop (announce_added B loop shard_id ip hash details)
  unfolding announce_added
  announce_added-Same loop shard_id ip hash details =
      request_location-Same _ details.id ip ∙ all_feeds-Same _ _ ∙ chain_feeds-Same _ hash _

  pub finish_add-Same :
      (loop : InnerLoop B) (shard_id : ShardId) (ip : IpAddr) (hash : BlockHash)
      (result : AddNodeResult)
      → Same loop (finish_add B loop shard_id ip hash result)
  unfolding finish_add
  finish_add-Same loop shard_id ip hash chain_on_deny_list = send_to-Same loop _ _
  finish_add-Same loop shard_id ip hash chain_over_quota = send_to-Same loop _ _
  finish_add-Same loop shard_id ip hash (node_added_to_chain details) =
      announce_added-Same loop shard_id ip hash details

  pub finish_update-Same :
      (loop : InnerLoop B) (node_id : NodeId) (feed : FeedMessageSerializer)
      → Same loop (finish_update B loop node_id feed)
  unfolding finish_update
  finish_update-Same loop node_id feed =
      optional (Same loop) (get_chain_by_node_id loop.node_state node_id) refl
        λ chain. chain_feeds-Same loop chain.genesis_hash feed
