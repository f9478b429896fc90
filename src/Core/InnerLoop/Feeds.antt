-- ===== src/Core/InnerLoop/Feeds.antt =====
-- backend/telemetry_core/src/aggregator/inner_loop.rs: messages from the feeds, which are browsers.
pub mod Laws
pub mod Chunks
use substation.Prelude.{
  ℕ, zero, suc, ◌+◌, Bool, true, false, String, List, [], ◌∷◌, ◌++◌, Option, none, some, Key,
  nat_key, length, take, drop, if◌then◌else◌,
}
use substation.Prelude.HashMap.{HashMap}
use substation.Prelude.HashMap
use substation.Common.BiMap.{BiMap}
use substation.Common.MultiMapUnique
use substation.Common.Types.{BlockHash}
use substation.Core.Chain.{Chain}
use substation.Core.Chain
use substation.Core.FeedMessage.{FeedMessage, FeedMessageSerializer, ◌▹◌, into_finalized}
use substation.Core.FeedMessage
use substation.Core.Node.{Node, Clock}
use substation.Core.State.{State, NodeId, node_id_key, get_chain_by_genesis_hash, iter_chains}
use substation.Core.InnerLoop.{
  ConnId, Channel, ShardId, shard_id_key, FromFeedWebsocket, InnerLoop, to_feed, send, send_feed,
}

-- What a new feed is told: the version, and each chain.
unfoldable pub push_chains : FeedMessageSerializer → List Chain → FeedMessageSerializer
push_chains feed [] = feed
push_chains feed (chain ∷ chains) =
    push_chains
      (feed
        ▹ FeedMessage.added_chain (Chain.label chain) chain.genesis_hash (Chain.node_count chain))
      chains

-- The messages about the subscription itself.
unfoldable pub subscription_messages : Option Chain → Chain → ℕ → FeedMessageSerializer
subscription_messages old_chain chain now =
    let start : FeedMessageSerializer = elim old_chain [
      | none ↦ FeedMessage.new
      | some old ↦ FeedMessage.new ▹ FeedMessage.unsubscribed_from old.genesis_hash
    ] in
    start
    ▹ FeedMessage.subscribed_to chain.genesis_hash
    ▹ FeedMessage.time_sync now
    ▹ FeedMessage.best_block chain.best.height (elim chain.timestamp [ none ↦ 0 | some t ↦ t ])
        chain.average_block_time
    ▹ FeedMessage.best_finalized chain.finalized.height chain.finalized.hash
    ▹ FeedMessage.chain_stats_update chain.stats

unfoldable pub push_node : FeedMessageSerializer → ℕ → Node → FeedMessageSerializer
push_node feed node_id node =
    let shown =
      feed
      ▹ FeedMessage.added_node node_id node
      ▹ FeedMessage.finalized_block node_id node.finalized.height node.finalized.hash in
    if node.stale then shown ▹ FeedMessage.stale_node node_id else shown

-- The nodes of one chunk, whose first slot has the id `node_id`.
unfoldable pub push_nodes : FeedMessageSerializer → ℕ → List (Option Node) → FeedMessageSerializer
unfolding push_node
push_nodes feed node_id [] = feed
push_nodes feed node_id (none ∷ nodes) = push_nodes feed (suc node_id) nodes
push_nodes feed node_id (some node ∷ nodes) =
    push_nodes (push_node feed node_id node) (suc node_id) nodes

abbrev pub keep_some : Option (List FeedMessage) → List (List FeedMessage) → List (List FeedMessage)
keep_some none rest = rest
keep_some (some bytes) rest = bytes ∷ rest

-- One message for each chunk of 64 slots that has a node. The fuel is the number of slots.
unfoldable pub chunk_messages : ℕ → ℕ → List (Option Node) → List (List FeedMessage)
unfolding push_nodes
chunk_messages zero node_id nodes = []
chunk_messages (suc fuel) node_id [] = []
chunk_messages (suc fuel) node_id (node ∷ nodes) =
    let chunk = take 64 (node ∷ nodes) in
    keep_some (into_finalized (push_nodes FeedMessage.new node_id chunk))
      (chunk_messages fuel (node_id + 64) (drop 64 (node ∷ nodes)))

abbrev pub chain_of : State → Option BlockHash → Option Chain
chain_of s none = none
chain_of s (some hash) = get_chain_by_genesis_hash s hash

module _ (B : BiMap NodeId ShardId) where
  unfoldable pub send_chunks : InnerLoop B → Channel → List (List FeedMessage) → InnerLoop B
  send_chunks loop channel [] = loop
  send_chunks loop channel (bytes ∷ rest) =
      send_chunks (send B loop (to_feed channel bytes)) channel rest

  -- The new chain is there.
  unfoldable pub subscribe_to :
      InnerLoop B → ConnId → Channel → Option Chain → Chain → ℕ → InnerLoop B
  unfolding send_chunks
  subscribe_to loop conn_id channel old_chain chain now =
      let told =
        send_feed B loop channel (into_finalized (subscription_messages old_chain chain now)) in
      let slots = chain.nodes.items in
      let shown = send_chunks told channel (chunk_messages (length slots) 0 slots) in
      record shown {
        chain_to_feed_conn_ids =
            (MultiMapUnique.insert shown.chain_to_feed_conn_ids chain.genesis_hash conn_id).0;
      }

  -- The old subscription goes before the new chain is looked for.
  unfoldable pub subscribe : InnerLoop B → ConnId → Channel → BlockHash → ℕ → InnerLoop B
  unfolding subscribe_to
  subscribe loop conn_id channel genesis_hash now =
      let (subscriptions, old_genesis_hash) =
        MultiMapUnique.remove_value loop.chain_to_feed_conn_ids conn_id in
      let left : InnerLoop B = record loop { chain_to_feed_conn_ids = subscriptions } in
      let old_chain = chain_of loop.node_state old_genesis_hash in
      elim (get_chain_by_genesis_hash loop.node_state genesis_hash) [
        | none ↦ left
        | some chain ↦ subscribe_to left conn_id channel old_chain chain now
      ]

  unfoldable pub handle_from_feed : InnerLoop B → Clock → ConnId → FromFeedWebsocket → InnerLoop B
  unfolding push_chains subscribe
  handle_from_feed loop clock conn_id (FromFeedWebsocket.initialize channel) =
      send_feed B
        (record loop { feed_channels = HashMap.insert conn_id channel loop.feed_channels }) channel
        (into_finalized
          (push_chains (FeedMessage.new ▹ FeedMessage.version 32) (iter_chains loop.node_state)))
  handle_from_feed loop clock conn_id (FromFeedWebsocket.ping value) =
      elim (HashMap.get conn_id loop.feed_channels) [
        | none ↦ loop
        | some channel ↦
            send_feed B loop channel (into_finalized (FeedMessage.new ▹ FeedMessage.pong value))
      ]
  handle_from_feed loop clock conn_id (FromFeedWebsocket.subscribe genesis_hash) =
      elim (HashMap.get conn_id loop.feed_channels) [
        | none ↦ loop
        | some channel ↦ subscribe loop conn_id channel genesis_hash clock.block_now
      ]
  handle_from_feed loop clock conn_id FromFeedWebsocket.disconnected = record loop {
    chain_to_feed_conn_ids = (MultiMapUnique.remove_value loop.chain_to_feed_conn_ids conn_id).0;
    feed_channels = HashMap.remove conn_id loop.feed_channels;
  }
