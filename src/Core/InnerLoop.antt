-- ===== src/Core/InnerLoop.antt =====
-- backend/telemetry_core/src/aggregator/inner_loop.rs: the state of an aggregator and what it sends.
-- `Shards` handles what shards say, `Feeds` what browsers say, `Queue` the queue before both.
pub mod Shards
pub mod Feeds
pub mod Queue
pub mod Sends
pub mod Sound
pub mod Run
pub mod Drain
use substation.Prelude.{
  ℕ, Bool, true, false, String, ◌≡◌, List, [], ◌∷◌, ◌++◌, Option, none, some, Key, nat_key,
  ℕ_discrete,
}
use substation.Prelude.HashMap.{HashMap}
use substation.Prelude.HashMap
use substation.Common.BiMap.{BiMap}
use substation.Common.MultiMapUnique.{MultiMapUnique}
use substation.Common.MultiMapUnique
use substation.Common.Types.{BlockHash, IpAddr, MuteReason, NodeDetails, Payload}
use substation.Core.FeedMessage.{FeedMessage, FeedMessageSerializer, into_finalized}
use substation.Core.Node.{Location}
use substation.Core.State.{State, NodeId, node_id_key}
use substation.Core.State

abbrev pub ConnId : Type 0
ConnId = ℕ

abbrev pub ShardNodeId : Type 0
ShardNodeId = ℕ

-- The sending end of a channel, by a number of its own.
abbrev pub Channel : Type 0
Channel = ℕ

-- A shard connection and that shard's id of the node.
abbrev pub ShardId : Type 0
ShardId = ConnId × ShardNodeId

unfoldable pub ShardId-discrete : Discrete ShardId
ShardId-discrete = hlevel ℕ_discrete

instance abbrev pub shard_id_key : Key ShardId
unfolding ShardId-discrete
shard_id_key = record { dec = ShardId-discrete }

pub data FromShardWebsocket : Type 0 where
  initialize : Channel → FromShardWebsocket
  add : ShardNodeId → IpAddr → NodeDetails → BlockHash → FromShardWebsocket
  update : ShardNodeId → Payload → FromShardWebsocket
  remove : ShardNodeId → FromShardWebsocket
  disconnected : FromShardWebsocket

pub data FromFeedWebsocket : Type 0 where
  initialize : Channel → FromFeedWebsocket
  subscribe : BlockHash → FromFeedWebsocket
  ping : String → FromFeedWebsocket
  disconnected : FromFeedWebsocket

pub record Metrics : Type 0 where
  pub timestamp_unix_ms : ℕ
  pub chains_subscribed_to : ℕ
  pub subscribed_feeds : ℕ
  pub total_messages_to_feeds : ℕ
  pub current_messages_to_aggregator : ℕ
  pub total_messages_to_aggregator : ℕ
  pub dropped_messages_to_aggregator : ℕ
  pub connected_nodes : ℕ
  pub connected_feeds : ℕ
  pub connected_shards : ℕ

pub data ToAggregator : Type 0 where
  from_shard_websocket : ConnId → FromShardWebsocket → ToAggregator
  from_feed_websocket : ConnId → FromFeedWebsocket → ToAggregator
  from_find_location : NodeId → Location → ToAggregator
  gather_metrics : Channel → ToAggregator

-- What is sent, and on which channel; `locate` asks for the place of an IPv4 address.
pub data Sent : Type 0 where
  to_feed : Channel → List FeedMessage → Sent
  mute : Channel → ShardNodeId → MuteReason → Sent
  locate : NodeId → ℕ → Sent
  metrics : Channel → Metrics → Sent

-- `node_ids` is a map of the `bimap` crate, so the state is over an implementation of it.
module _ (B : BiMap NodeId ShardId) where
  pub record InnerLoop : Type 0 where
    pub node_state : State
    pub node_ids : B.Map
    pub feed_channels : HashMap ConnId Channel
    pub shard_channels : HashMap ConnId Channel
    pub chain_to_feed_conn_ids : MultiMapUnique BlockHash ConnId
    pub max_queue_len : ℕ
    -- All that was sent so far, oldest first.
    pub sent : List Sent

  unfoldable pub new : List String → ℕ → ℕ → InnerLoop
  unfolding State.new MultiMapUnique.new
  new denylist max_queue_len max_third_party_nodes = record {
    node_state = State.new denylist max_third_party_nodes;
    node_ids = B.empty;
    feed_channels = [];
    shard_channels = [];
    chain_to_feed_conn_ids = MultiMapUnique.new;
    max_queue_len = max_queue_len;
    sent = [];
  }

  unfoldable pub send : InnerLoop → Sent → InnerLoop
  send loop message = record loop { sent = loop.sent ++ message ∷ [] }

  -- A send to a connection that may be gone.
  unfoldable pub send_to : InnerLoop → Option Channel → (Channel → Sent) → InnerLoop
  unfolding send
  send_to loop none message = loop
  send_to loop (some channel) message = send loop (message channel)

  unfoldable pub send_feed : InnerLoop → Channel → Option (List FeedMessage) → InnerLoop
  unfolding send
  send_feed loop channel none = loop
  send_feed loop channel (some bytes) = send loop (to_feed channel bytes)

  -- The loop over the feeds of a chain.
  unfoldable pub send_each : InnerLoop → List ConnId → List FeedMessage → InnerLoop
  unfolding send_to
  send_each loop [] bytes = loop
  send_each loop (feed_id ∷ feeds) bytes =
      send_each
        (send_to loop (HashMap.get feed_id loop.feed_channels) (λ channel. to_feed channel bytes))
        feeds bytes

  unfoldable pub broadcast_to_chain_feeds : InnerLoop → BlockHash → List FeedMessage → InnerLoop
  unfolding send_each
  broadcast_to_chain_feeds loop genesis_hash bytes =
      elim (MultiMapUnique.get_values loop.chain_to_feed_conn_ids genesis_hash) [
        | none ↦ loop
        | some feeds ↦ send_each loop feeds bytes
      ]

  unfoldable pub finalize_and_broadcast_to_chain_feeds :
      InnerLoop → BlockHash → FeedMessageSerializer → InnerLoop
  unfolding broadcast_to_chain_feeds
  finalize_and_broadcast_to_chain_feeds loop genesis_hash serializer =
      elim (into_finalized serializer) [
        | none ↦ loop
        | some bytes ↦ broadcast_to_chain_feeds loop genesis_hash bytes
      ]

  unfoldable pub send_all : InnerLoop → HashMap ConnId Channel → List FeedMessage → InnerLoop
  unfolding send
  send_all loop [] bytes = loop
  send_all loop ((_, channel) ∷ channels) bytes =
      send_all (send loop (to_feed channel bytes)) channels bytes

  unfoldable pub broadcast_to_all_feeds : InnerLoop → List FeedMessage → InnerLoop
  unfolding send_all
  broadcast_to_all_feeds loop bytes = send_all loop loop.feed_channels bytes

  unfoldable pub finalize_and_broadcast_to_all_feeds : InnerLoop → FeedMessageSerializer → InnerLoop
  unfolding broadcast_to_all_feeds
  finalize_and_broadcast_to_all_feeds loop serializer = elim (into_finalized serializer) [
    | none ↦ loop
    | some bytes ↦ broadcast_to_all_feeds loop bytes
  ]
