-- ===== src/Core/Server/Shards.antt =====
-- `handle_shard_websocket_connection` of backend/telemetry_core/src/main.rs. What bincode makes of
-- bytes is a parameter.
use substation.Prelude.{false, List, [], ◌∷◌, Option, none, some}
use substation.Common.Types.{
  FromShardAggregator, add_node, update_node, remove_node, FromTelemetryCore, mute, MuteReason,
}
use substation.Core.InnerLoop.{
  FromShardWebsocket, initialize, add, update, remove, disconnected, ShardNodeId,
}
use substation.Core.Server.{Read, command, stop, Handler}

pub data ToShardWebsocket : Type 0 where
  mute_node : ShardNodeId → MuteReason → ToShardWebsocket

unfoldable pub into_aggregator_message : FromShardAggregator → FromShardWebsocket
into_aggregator_message (add_node ip node local_id genesis_hash) = add local_id ip node genesis_hash
into_aggregator_message (update_node local_id payload) = update local_id payload
into_aggregator_message (remove_node local_id) = remove local_id

unfoldable pub into_internal_message : ToShardWebsocket → FromTelemetryCore
into_internal_message (mute_node local_id reason) = mute local_id reason

-- One message in a round.
unfoldable pub batch_one : List ToShardWebsocket → List ToShardWebsocket × List ToShardWebsocket
batch_one [] = ([], [])
batch_one (m ∷ ms) = (m ∷ [], ms)

module _ {Bytes : Type 0} (deserialize : Bytes → Option FromShardAggregator) where
  -- Bytes that do not decode boot the shard.
  unfoldable pub read : Bytes → Read FromShardWebsocket
  unfolding into_aggregator_message
  read bytes = elim (deserialize bytes) [
    | none ↦ stop
    | some m ↦ command (into_aggregator_message m)
  ]

  -- A call has no deadline, and one that fails is logged only.
  unfoldable pub handler : Handler Bytes FromShardWebsocket ToShardWebsocket FromTelemetryCore
  unfolding read batch_one into_internal_message
  handler = record {
    initialize = initialize;
    disconnected = disconnected;
    read = read;
    batch = batch_one;
    encode = into_internal_message;
    stops = false;
    rests = false;
  }
