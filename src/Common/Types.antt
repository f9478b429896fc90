-- ===== src/Common/Types.antt =====
-- backend/common/src/node_types.rs, node_message.rs and internal_messages.rs: the data that nodes
-- send. A block hash is its 256-bit number, an id its number, a `Box<str>` or `ArrayString` its text.
use substation.Prelude.{ℕ, Bool, String, Option, none, some, nat_key}
use substation.Prelude.ParseInt.{parse_u64}
use substation.Common.MeanList.{Float, MeanList}

abbrev pub BlockHash : Type 0
BlockHash = ℕ

abbrev pub BlockNumber : Type 0
BlockNumber = ℕ

abbrev pub Timestamp : Type 0
Timestamp = ℕ

pub record NodeSysInfo : Type 0 where
  pub cpu : Option String
  pub memory : Option ℕ
  pub core_count : Option ℕ
  pub linux_kernel : Option String
  pub linux_distro : Option String
  pub is_virtual_machine : Option Bool

pub record NodeHwBench : Type 0 where
  pub cpu_hashrate_score : ℕ
  pub memory_memcpy_score : ℕ
  pub disk_sequential_write_score : Option ℕ
  pub disk_random_write_score : Option ℕ

pub record NodeDetails : Type 0 where
  pub chain : String
  pub name : String
  pub implementation : String
  pub version : String
  pub validator : Option String
  pub network_id : String
  pub startup_time : Option String
  pub target_os : Option String
  pub target_arch : Option String
  pub target_env : Option String
  pub sysinfo : Option NodeSysInfo

pub record NodeStats : Type 0 where
  pub peers : ℕ
  pub txcount : ℕ

pub record NodeIo : Type 0 where
  pub used_state_cache_size : MeanList

pub record Block : Type 0 where
  pub hash : BlockHash
  pub height : BlockNumber

unfoldable pub zero_block : Block
zero_block = record { hash = 0; height = 0 }

pub record NodeHardware : Type 0 where
  pub upload : MeanList
  pub download : MeanList
  pub chart_stamps : MeanList

pub record NodeLocation : Type 0 where
  pub latitude : Float
  pub longitude : Float
  pub city : String

pub record BlockDetails : Type 0 where
  pub block : Block
  pub block_time : ℕ
  pub block_timestamp : ℕ
  pub propagation_time : Option ℕ

-- `default` reads the clock.
unfoldable pub default_details : ℕ → BlockDetails
unfolding zero_block
default_details now = record {
  block = zero_block;
  block_time = 0;
  block_timestamp = now;
  propagation_time = none;
}

pub record SystemConnected : Type 0 where
  pub genesis_hash : BlockHash
  pub node : NodeDetails

pub record SystemInterval : Type 0 where
  pub peers : Option ℕ
  pub txcount : Option ℕ
  pub bandwidth_upload : Option Float
  pub bandwidth_download : Option Float
  pub finalized_height : Option BlockNumber
  pub finalized_hash : Option BlockHash
  pub block : Option Block
  pub used_state_cache_size : Option Float

pub record Finalized : Type 0 where
  pub hash : BlockHash
  pub height : String

pub record AfgAuthoritySet : Type 0 where
  pub authority_id : String
  pub authorities : String
  pub authority_set_id : String

pub data Payload : Type 0 where
  system_connected : SystemConnected → Payload
  system_interval : SystemInterval → Payload
  block_import : Block → Payload
  notify_finalized : Finalized → Payload
  afg_authority_set : AfgAuthoritySet → Payload
  hw_bench : NodeHwBench → Payload

unfoldable pub best_block : Payload → Option Block
best_block (block_import block) = some block
best_block (system_interval interval) = interval.block
best_block _ = none

abbrev pub pair_block : Option BlockHash → Option BlockNumber → Option Block
pair_block (some hash) (some height) = some (record { hash = hash; height = height })
pair_block _ _ = none

unfoldable pub finalized_block : Payload → Option Block
finalized_block (system_interval interval) =
    pair_block interval.finalized_hash interval.finalized_height
finalized_block (notify_finalized finalized) =
    pair_block (some finalized.hash) (parse_u64 finalized.height)
finalized_block _ = none

pub data NodeMessage : Type 0 where
  v1 : Payload → NodeMessage
  v2 : ℕ → Payload → NodeMessage

-- The id of a message, or 0 if it has none.
unfoldable pub message_id : NodeMessage → ℕ
message_id (v1 payload) = 0
message_id (v2 id payload) = id

unfoldable pub into_payload : NodeMessage → Payload
into_payload (v1 payload) = payload
into_payload (v2 id payload) = payload

pub data IpAddr : Type 0 where
  v4 v6 : ℕ → IpAddr

pub data MuteReason : Type 0 where
  overquota chain_not_allowed : MuteReason

pub data FromShardAggregator : Type 0 where
  add_node : IpAddr → NodeDetails → ℕ → BlockHash → FromShardAggregator
  update_node : ℕ → Payload → FromShardAggregator
  remove_node : ℕ → FromShardAggregator

pub data FromTelemetryCore : Type 0 where
  mute : ℕ → MuteReason → FromTelemetryCore
