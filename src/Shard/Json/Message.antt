-- ===== src/Shard/Json/Message.antt =====
-- backend/telemetry_shard/src/json_message/node_message.rs: a node's message as the JSON has it, and as the
-- rest of the program takes it.
pub mod Laws
use mathlib.Core.Option
use substation.Prelude.{ℕ, Bool, true, false, ◌&&◌, String, Option, none, some, if◌then◌else◌}
use substation.Common.MeanList.{Float}
use substation.Common.Types as Internal
use substation.Shard.Json.Hash.{Hash, into_block_hash}
use substation.Prelude.Text.{Text, chars, text}
use substation.Shard.Json.OldVersion.{split_old_style_version}

pub record NodeSysInfo : Type 0 where
  pub cpu : Option String
  pub memory : Option ℕ
  pub core_count : Option ℕ
  pub linux_kernel : Option String
  pub linux_distro : Option String
  pub is_virtual_machine : Option Bool

pub record NodeHwBench : Type 0 where
  pub cpu_hashrate_score : ℕ
  pub memory_memcpy_score : ℕ
  pub disk_sequential_write_score : Option ℕ
  pub disk_random_write_score : Option ℕ

pub record NodeDetails : Type 0 where
  pub chain : String
  pub name : String
  pub implementation : String
  pub version : String
  pub validator : Option String
  pub network_id : String
  pub startup_time : Option String
  pub target_os : Option String
  pub target_arch : Option String
  pub target_env : Option String
  pub sysinfo : Option NodeSysInfo

pub record Block : Type 0 where
  pub hash : Hash
  pub height : ℕ

pub record SystemConnected : Type 0 where
  pub genesis_hash : Hash
  pub node : NodeDetails

pub record SystemInterval : Type 0 where
  pub peers : Option ℕ
  pub txcount : Option ℕ
  pub bandwidth_upload : Option Float
  pub bandwidth_download : Option Float
  pub finalized_height : Option ℕ
  pub finalized_hash : Option Hash
  pub block : Option Block
  pub used_state_cache_size : Option Float

pub record Finalized : Type 0 where
  pub hash : Hash
  pub height : String

pub record AfgAuthoritySet : Type 0 where
  pub authority_id : String
  pub authorities : String
  pub authority_set_id : String

pub data Payload : Type 0 where
  system_connected : SystemConnected → Payload
  system_interval : SystemInterval → Payload
  block_import : Block → Payload
  notify_finalized : Finalized → Payload
  afg_authority_set : AfgAuthoritySet → Payload
  hw_bench : NodeHwBench → Payload

-- With an id, or without.
pub data NodeMessage : Type 0 where
  v1 : Payload → NodeMessage
  v2 : ℕ → Payload → NodeMessage

-- The `From` conversions.
unfoldable pub into_sysinfo : NodeSysInfo → Internal.NodeSysInfo
into_sysinfo msg = record {
  cpu = msg.cpu;
  memory = msg.memory;
  core_count = msg.core_count;
  linux_kernel = msg.linux_kernel;
  linux_distro = msg.linux_distro;
  is_virtual_machine = msg.is_virtual_machine;
}

unfoldable pub into_hwbench : NodeHwBench → Internal.NodeHwBench
into_hwbench msg = record {
  cpu_hashrate_score = msg.cpu_hashrate_score;
  memory_memcpy_score = msg.memory_memcpy_score;
  disk_sequential_write_score = msg.disk_sequential_write_score;
  disk_random_write_score = msg.disk_random_write_score;
}

unfoldable pub into_block : Block → Internal.Block
unfolding into_block_hash
into_block msg = record { hash = into_block_hash msg.hash; height = msg.height }

abbrev is_none : {A : Type 0} → Option A → Bool
is_none none = true
is_none (some a) = false

-- The `version` of an old node also has its target.
unfoldable pub migrate : NodeDetails → NodeDetails
migrate details =
    if is_none details.target_os && is_none details.target_arch && is_none details.target_env
    then elim (split_old_style_version (chars details.version)) [
      | none ↦ details
      | some (version, target_arch, target_os, target_env) ↦ record details {
        target_arch = some (text target_arch);
        target_os = some (text target_os);
        target_env = some (text target_env);
        version = text version;
      }
    ]
    else details

unfoldable pub into_details : NodeDetails → Internal.NodeDetails
unfolding migrate into_sysinfo
into_details msg =
    let details = migrate msg in
    record {
      chain = details.chain;
      name = details.name;
      implementation = details.implementation;
      version = details.version;
      validator = details.validator;
      network_id = details.network_id;
      startup_time = details.startup_time;
      target_os = details.target_os;
      target_arch = details.target_arch;
      target_env = details.target_env;
      sysinfo = Option.map into_sysinfo details.sysinfo;
    }

unfoldable pub into_connected : SystemConnected → Internal.SystemConnected
unfolding into_block_hash into_details
into_connected msg = record {
  genesis_hash = into_block_hash msg.genesis_hash;
  node = into_details msg.node;
}

unfoldable pub into_interval : SystemInterval → Internal.SystemInterval
unfolding into_block into_block_hash
into_interval msg = record {
  peers = msg.peers;
  txcount = msg.txcount;
  bandwidth_upload = msg.bandwidth_upload;
  bandwidth_download = msg.bandwidth_download;
  finalized_height = msg.finalized_height;
  finalized_hash = Option.map into_block_hash msg.finalized_hash;
  block = Option.map into_block msg.block;
  used_state_cache_size = msg.used_state_cache_size;
}

unfoldable pub into_finalized : Finalized → Internal.Finalized
unfolding into_block_hash
into_finalized msg = record { hash = into_block_hash msg.hash; height = msg.height }

unfoldable pub into_authority_set : AfgAuthoritySet → Internal.AfgAuthoritySet
into_authority_set msg = record {
  authority_id = msg.authority_id;
  authorities = msg.authorities;
  authority_set_id = msg.authority_set_id;
}

unfoldable pub into_payload : Payload → Internal.Payload
unfolding into_connected into_interval into_block into_finalized into_authority_set into_hwbench
into_payload (system_connected m) = Internal.system_connected (into_connected m)
into_payload (system_interval m) = Internal.system_interval (into_interval m)
into_payload (block_import m) = Internal.block_import (into_block m)
into_payload (notify_finalized m) = Internal.notify_finalized (into_finalized m)
into_payload (afg_authority_set m) = Internal.afg_authority_set (into_authority_set m)
into_payload (hw_bench m) = Internal.hw_bench (into_hwbench m)

unfoldable pub into_message : NodeMessage → Internal.NodeMessage
unfolding into_payload
into_message (v1 payload) = Internal.v1 (into_payload payload)
into_message (v2 id payload) = Internal.v2 id (into_payload payload)
