-- ===== src/Shard/Aggregator.antt =====
-- backend/telemetry_shard/src/aggregator.rs: the shard's aggregator loop, one message at a time.
pub mod Laws
pub mod Trace
pub mod CoreView
use substation.Prelude.{
  ℕ, Bool, true, false, not, ◌≡◌, List, [], ◌∷◌, ◌++◌, Option, none, some, Key, ℕ_discrete, nat_key,
  ◌==◌, if◌then◌else◌,
}
use substation.Prelude.HashMap.{HashMap}
use substation.Prelude.HashMap
use substation.Prelude.HashSet.{HashSet}
use substation.Prelude.HashSet
use substation.Common.AssignId
use substation.Common.AssignId.{AssignId}
use substation.Common.BiMap.{BiMap}
use substation.Common.Types.{
  BlockHash, IpAddr, NodeDetails, Payload, FromShardAggregator, FromTelemetryCore, add_node,
  update_node, remove_node, mute,
}

abbrev pub ConnId : Type 0
ConnId = ℕ

abbrev pub Closer : Type 0
Closer = ℕ

-- A connection and the id that its messages carry.
abbrev pub MessageKey : Type 0
MessageKey = ConnId × ℕ

unfoldable pub MessageKey-discrete : Discrete MessageKey
MessageKey-discrete = hlevel ℕ_discrete

instance abbrev pub message_key : Key MessageKey
unfolding MessageKey-discrete
message_key = record { dec = MessageKey-discrete }

pub data FromWebsocket : Type 0 where
  initialize : Closer → FromWebsocket
  add : ℕ → IpAddr → NodeDetails → BlockHash → FromWebsocket
  update : ℕ → Payload → FromWebsocket
  remove : ℕ → FromWebsocket
  disconnected : FromWebsocket

pub data ToAggregator : Type 0 where
  disconnected_from_telemetry_core connected_to_telemetry_core : ToAggregator
  from_websocket : ConnId → FromWebsocket → ToAggregator
  from_telemetry_core : FromTelemetryCore → ToAggregator

-- What the loop sends: to the core, and to a connection that it closes.
pub data Sent : Type 0 where
  to_core : FromShardAggregator → Sent
  close : Closer → Sent

-- The local ids of one connection.
unfoldable pub ids_of_conn : ConnId → List (ℕ × MessageKey) → List ℕ
ids_of_conn conn_id [] = []
ids_of_conn conn_id ((local_id, (this_conn_id, _)) ∷ pairs) =
    let rest = ids_of_conn conn_id pairs in
    if conn_id == this_conn_id then local_id ∷ rest else rest

module _ (B : BiMap ℕ MessageKey) where
  pub record Aggregator : Type 0 where
    pub connected_to_telemetry_core : Bool
    pub close_connections : HashMap ConnId Closer
    pub to_local_id : AssignId B
    pub muted : HashSet ℕ
    -- All that was sent so far, oldest first.
    pub sent : List Sent

  unfoldable pub new : Aggregator
  unfolding AssignId.new
  new = record {
    connected_to_telemetry_core = false;
    close_connections = [];
    to_local_id = AssignId.new B;
    muted = [];
    sent = [];
  }

  unfoldable pub send : Aggregator → Sent → Aggregator
  send a message = record a { sent = a.sent ++ message ∷ [] }

  unfoldable pub close_all : Aggregator → HashMap ConnId Closer → Aggregator
  unfolding send
  close_all a [] = a
  close_all a ((_, closer) ∷ closers) = close_all (send a (close closer)) closers

  -- A node goes: its id is given up, and the core is told.
  unfoldable pub remove_local : Aggregator → ℕ → Aggregator
  unfolding send
  remove_local a local_id =
      send
        (record a {
          to_local_id = (AssignId.remove_by_id B a.to_local_id local_id).0;
          muted = HashSet.remove local_id a.muted;
        })
        (to_core (remove_node local_id))

  unfoldable pub remove_locals : Aggregator → List ℕ → Aggregator
  unfolding remove_local
  remove_locals a [] = a
  remove_locals a (local_id ∷ local_ids) = remove_locals (remove_local a local_id) local_ids

  unfoldable pub forward_update : Aggregator → Option ℕ → Payload → Aggregator
  unfolding send
  forward_update a none payload = a
  forward_update a (some local_id) payload =
      if HashSet.contains local_id a.muted
      then a
      else send a (to_core (update_node local_id payload))

  unfoldable pub handle_from_websocket : Aggregator → ConnId → FromWebsocket → Aggregator
  unfolding remove_locals ids_of_conn forward_update
  handle_from_websocket a conn_id (initialize close_connection) = record a {
    close_connections = HashMap.insert conn_id close_connection a.close_connections;
  }
  handle_from_websocket a conn_id (add message_id ip node genesis_hash) =
      if a.connected_to_telemetry_core
      then (let (to_local_id, local_id) =
            AssignId.assign_id B a.to_local_id (conn_id, message_id) in
          send (record a { to_local_id = to_local_id })
            (to_core (add_node ip node local_id genesis_hash)))
      else a
  handle_from_websocket a conn_id (update message_id payload) =
      if a.connected_to_telemetry_core
      then forward_update a (AssignId.get_id B a.to_local_id (conn_id, message_id)) payload
      else a
  handle_from_websocket a conn_id (remove message_id) =
      elim (AssignId.get_id B a.to_local_id (conn_id, message_id)) [
        | none ↦ a
        | some local_id ↦ remove_local a local_id
      ]
  handle_from_websocket a conn_id disconnected =
      remove_locals (record a { close_connections = HashMap.remove conn_id a.close_connections })
        (ids_of_conn conn_id (AssignId.iter B a.to_local_id))

  unfoldable pub handle : Aggregator → ToAggregator → Aggregator
  unfolding close_all handle_from_websocket
  handle a connected_to_telemetry_core =
      let closed = close_all a a.close_connections in
      record closed {
        close_connections = [];
        to_local_id = AssignId.clear B closed.to_local_id;
        muted = [];
        connected_to_telemetry_core = true;
      }
  handle a disconnected_from_telemetry_core = record a { connected_to_telemetry_core = false }
  handle a (from_websocket conn_id msg) = handle_from_websocket a conn_id msg
  handle a (from_telemetry_core (mute local_id reason)) = record a {
    muted = HashSet.insert local_id a.muted;
  }

  -- `handle_messages`: the loop over what comes in.
  unfoldable pub handle_messages : Aggregator → List ToAggregator → Aggregator
  handle_messages a [] = a
  handle_messages a (msg ∷ msgs) = handle_messages (handle a msg) msgs
