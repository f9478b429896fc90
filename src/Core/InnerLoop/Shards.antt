-- ===== src/Core/InnerLoop/Shards.antt =====
-- backend/telemetry_core/src/aggregator/inner_loop.rs: messages from shards and from the locator.
use substation.Prelude.{List, [], ◌∷◌, ◌++◌, Option, none, some, nat_key, ◌==◌, ◌||◌, if◌then◌else◌}
use substation.Prelude.HashMap.{HashMap}
use substation.Prelude.HashMap
use substation.Prelude.Outcome.{Outcome, ret, ◌>>=◌}
use substation.Common.BiMap.{BiMap}
use substation.Common.Types.{BlockHash, IpAddr, v4, v6, overquota, chain_not_allowed}
use substation.Core.FeedMessage.{FeedMessageSerializer, ◌▹◌}
use substation.Core.FeedMessage
use substation.Core.Node.{Clock, Location}
use substation.Core.State.{
  State, NodeId, node_id_key, AddNodeResult, NodeAddedToChain, RemovedNode, chain_on_deny_list,
  chain_over_quota, node_added_to_chain, get_chain_by_node_id,
}
use substation.Core.State
use substation.Core.InnerLoop.{
  ConnId, ShardId, shard_id_key, FromShardWebsocket, InnerLoop, mute, locate, send, send_to,
  finalize_and_broadcast_to_chain_feeds, finalize_and_broadcast_to_all_feeds,
}

module _ (B : BiMap NodeId ShardId) where
  unfoldable pub request_location : InnerLoop B → NodeId → IpAddr → InnerLoop B
  request_location loop node_id (v4 ip) = send B loop (locate node_id ip)
  request_location loop node_id (v6 ip) = loop

  -- A node is in the state: its ids are noted, and the feeds are told.
  unfoldable pub announce_added :
      InnerLoop B → ShardId → IpAddr → BlockHash → NodeAddedToChain → InnerLoop B
  unfolding request_location
  announce_added loop shard_id ip genesis_hash details =
      let noted : InnerLoop B = record loop {
        node_ids = B.insert details.id shard_id loop.node_ids;
      } in
      let for_chain =
        FeedMessage.new ▹ FeedMessage.added_node (details.id.chain_node_id) details.node in
      let told_chain = finalize_and_broadcast_to_chain_feeds B noted genesis_hash for_chain in
      let renamed =
        if details.has_chain_label_changed
        then FeedMessage.new ▹ FeedMessage.removed_chain genesis_hash
        else FeedMessage.new in
      let for_all =
        renamed
        ▹ FeedMessage.added_chain details.new_chain_label genesis_hash details.chain_node_count in
      request_location (finalize_and_broadcast_to_all_feeds B told_chain for_all) details.id ip

  unfoldable pub finish_add :
      InnerLoop B → ShardId → IpAddr → BlockHash → AddNodeResult → InnerLoop B
  unfolding announce_added
  finish_add loop shard_id ip genesis_hash chain_on_deny_list =
      send_to B loop (HashMap.get shard_id.0 loop.shard_channels)
        (λ channel. mute channel shard_id.1 chain_not_allowed)
  finish_add loop shard_id ip genesis_hash chain_over_quota =
      send_to B loop (HashMap.get shard_id.0 loop.shard_channels)
        (λ channel. mute channel shard_id.1 overquota)
  finish_add loop shard_id ip genesis_hash (node_added_to_chain details) =
      announce_added loop shard_id ip genesis_hash details

  -- What the feeds are told of a removal: those of the chain, and all.
  unfoldable pub tell_removed :
      NodeId
      → RemovedNode
      → FeedMessageSerializer × FeedMessageSerializer
      → FeedMessageSerializer × FeedMessageSerializer
  tell_removed node_id removed (for_chain, for_all) =
      let gone =
        if removed.chain_node_count == 0 || removed.has_chain_label_changed
        then for_all ▹ FeedMessage.removed_chain removed.chain_genesis_hash
        else for_all in
      if removed.chain_node_count == 0 then (for_chain, gone) else (
        for_chain ▹ FeedMessage.removed_node node_id.chain_node_id,
        gone
            ▹ FeedMessage.added_chain removed.new_chain_label removed.chain_genesis_hash
                removed.chain_node_count,
      )

  unfoldable pub tell_if_removed :
      NodeId
      → Option RemovedNode
      → FeedMessageSerializer × FeedMessageSerializer
      → FeedMessageSerializer × FeedMessageSerializer
  unfolding tell_removed
  tell_if_removed node_id none feeds = feeds
  tell_if_removed node_id (some removed) feeds = tell_removed node_id removed feeds

  unfoldable pub remove_node :
      InnerLoop B
      → NodeId
      → FeedMessageSerializer × FeedMessageSerializer
      → Outcome (InnerLoop B × (FeedMessageSerializer × FeedMessageSerializer))
  unfolding tell_if_removed
  remove_node loop node_id feeds = do
    result ← State.remove_node loop.node_state node_id
    ret (
      record loop { node_state = result.0; node_ids = B.remove_by_left node_id loop.node_ids },
      tell_if_removed node_id result.1 feeds,
    )

  unfoldable pub remove_each :
      InnerLoop B
      → List NodeId
      → FeedMessageSerializer × FeedMessageSerializer
      → Outcome (InnerLoop B × (FeedMessageSerializer × FeedMessageSerializer))
  unfolding remove_node
  remove_each loop [] feeds = ret (loop, feeds)
  remove_each loop (node_id ∷ node_ids) feeds = do
    result ← remove_node loop node_id feeds
    remove_each result.0 node_ids result.1

  abbrev or_no_ids : Option (List NodeId) → List NodeId
  or_no_ids none = []
  or_no_ids (some ids) = ids

  unfoldable pub group_one :
      NodeId → Option BlockHash → HashMap BlockHash (List NodeId) → HashMap BlockHash (List NodeId)
  group_one node_id none groups = groups
  group_one node_id (some hash) groups =
      HashMap.insert hash (or_no_ids (HashMap.get hash groups) ++ node_id ∷ []) groups

  abbrev hash_of : State → NodeId → Option BlockHash
  hash_of s node_id = elim (get_chain_by_node_id s node_id) [
    | none ↦ none
    | some chain ↦ some chain.genesis_hash
  ]

  -- The nodes by the genesis hash of their chain; a node with no chain is left out.
  unfoldable pub group_by_chain :
      State → List NodeId → HashMap BlockHash (List NodeId) → HashMap BlockHash (List NodeId)
  unfolding group_one
  group_by_chain s [] groups = groups
  group_by_chain s (node_id ∷ node_ids) groups =
      group_by_chain s node_ids (group_one node_id (hash_of s node_id) groups)

  unfoldable pub remove_groups :
      InnerLoop B
      → HashMap BlockHash (List NodeId)
      → FeedMessageSerializer
      → Outcome (InnerLoop B × FeedMessageSerializer)
  unfolding remove_each
  remove_groups loop [] for_all = ret (loop, for_all)
  remove_groups loop ((genesis_hash, node_ids) ∷ groups) for_all = do
    result ← remove_each loop node_ids (FeedMessage.new, for_all)
    remove_groups (finalize_and_broadcast_to_chain_feeds B result.0 genesis_hash result.1.0) groups
        (result.1.1)

  unfoldable pub remove_nodes_and_broadcast_result :
      InnerLoop B → List NodeId → Outcome (InnerLoop B)
  unfolding group_by_chain remove_groups
  remove_nodes_and_broadcast_result loop node_ids = do
    result ← remove_groups loop (group_by_chain loop.node_state node_ids []) FeedMessage.new
    ret (finalize_and_broadcast_to_all_feeds B result.0 result.1)

  -- The nodes of one shard connection.
  unfoldable pub ids_of_shard : ConnId → List (NodeId × ShardId) → List NodeId
  ids_of_shard conn_id [] = []
  ids_of_shard conn_id ((node_id, (this_conn_id, _)) ∷ pairs) =
      let rest = ids_of_shard conn_id pairs in
      if conn_id == this_conn_id then node_id ∷ rest else rest

  unfoldable pub finish_update : InnerLoop B → NodeId → FeedMessageSerializer → InnerLoop B
  finish_update loop node_id feed = elim (get_chain_by_node_id loop.node_state node_id) [
    | none ↦ loop
    | some chain ↦ finalize_and_broadcast_to_chain_feeds B loop chain.genesis_hash feed
  ]

  unfoldable pub handle_from_shard :
      InnerLoop B → Clock → ConnId → FromShardWebsocket → Outcome (InnerLoop B)
  unfolding finish_add remove_nodes_and_broadcast_result ids_of_shard finish_update
  handle_from_shard loop clock conn_id (FromShardWebsocket.initialize channel) =
      ret (record loop { shard_channels = HashMap.insert conn_id channel loop.shard_channels })
  handle_from_shard loop clock conn_id (FromShardWebsocket.add local_id ip node genesis_hash) = do
    result ← State.add_node loop.node_state genesis_hash node clock
    ret (
        finish_add (record loop { node_state = result.0 }) (conn_id, local_id) ip genesis_hash
          result.1)
  handle_from_shard loop clock conn_id (FromShardWebsocket.remove local_id) =
      elim (B.get_by_right (conn_id, local_id) loop.node_ids) [
        | none ↦ ret loop
        | some node_id ↦
            remove_nodes_and_broadcast_result
              (record loop { node_ids = B.remove_by_right (conn_id, local_id) loop.node_ids })
              (node_id ∷ [])
      ]
  handle_from_shard loop clock conn_id (FromShardWebsocket.update local_id payload) =
      elim (B.get_by_right (conn_id, local_id) loop.node_ids) [
        | none ↦ ret loop
        | some node_id ↦ do
          result ← State.update_node loop.node_state node_id payload clock FeedMessage.new
          ret (finish_update (record loop { node_state = result.0 }) node_id result.1)
      ]
  handle_from_shard loop clock conn_id FromShardWebsocket.disconnected =
      remove_nodes_and_broadcast_result
        (record loop { shard_channels = HashMap.remove conn_id loop.shard_channels })
        (ids_of_shard conn_id (B.iter loop.node_ids))

  unfoldable pub handle_from_find_location : InnerLoop B → NodeId → Location → InnerLoop B
  unfolding finish_update
  handle_from_find_location loop node_id location =
      let loop' : InnerLoop B = record loop {
        node_state = (State.update_node_location loop.node_state node_id location).0;
      } in
      elim location [
        | none ↦ loop'
        | some loc ↦ finish_update loop' node_id (
            FeedMessage.new
            ▹ FeedMessage.located_node (node_id.chain_node_id) loc.latitude loc.longitude loc.city)
      ]
