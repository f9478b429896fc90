-- ===== src/Core/Node.antt =====
-- backend/telemetry_core/src/state/node.rs. The clock readings of one call are its argument `Clock`;
-- arithmetic on `u64` wraps, as in the release build.
use substation.Prelude.{
  ℕ, ◌+◌, ◌-◌, ◌%◌, ◌^◌, Bool, true, false, String, Option, none, some, ltb, leb, ◌==◌, ◌||◌,
  if◌then◌else◌, ite, ◌≟◌, string_key,
}
use substation.Prelude.ParseInt.{parse_u64}
use substation.Common.MeanList.{Float, MeanList, cast}
use substation.Common.MeanList
use substation.Common.Types.{
  Block, BlockDetails, NodeDetails, NodeHardware, NodeHwBench, NodeIo, NodeLocation, NodeStats,
  SystemInterval, Timestamp, zero_block, default_details,
}

-- What `time::now()` and `Instant::now()` return during one call, at the places where they are read.
pub record Clock : Type 0 where
  -- `time::now()` when a node is made, when a block is handled, and when a chart stamp is pushed.
  pub created_now : ℕ
  pub block_now : ℕ
  pub chart_now : ℕ
  -- `Instant::now()`, in nanoseconds.
  pub instant_now : ℕ

abbrev pub throttle_threshold : ℕ
throttle_threshold = 100

abbrev pub throttle_interval : ℕ
throttle_interval = 1000

abbrev pub Location : Type 0
Location = Option NodeLocation

pub record Node : Type 0 where
  pub details : NodeDetails
  pub stats : NodeStats
  pub io : NodeIo
  pub best : BlockDetails
  pub finalized : Block
  pub throttle : ℕ
  pub hardware : NodeHardware
  pub location : Location
  pub stale : Bool
  pub startup_time : Option Timestamp
  pub hwbench : Option NodeHwBench

abbrev and_parse : Option String → Option ℕ
and_parse none = none
and_parse (some s) = parse_u64 s

-- `take` leaves no start-up time in the details.
unfoldable pub new : Clock → NodeDetails → Node
unfolding MeanList.default zero_block default_details
new clock details = record {
  details = record details { startup_time = none };
  stats = record { peers = 0; txcount = 0 };
  io = record { used_state_cache_size = MeanList.default };
  best = default_details clock.created_now;
  finalized = zero_block;
  throttle = 0;
  hardware = record {
    upload = MeanList.default;
    download = MeanList.default;
    chart_stamps = MeanList.default;
  };
  location = none;
  stale = false;
  startup_time = and_parse details.startup_time;
  hwbench = none;
}

unfoldable pub update_location : Node → Location → Node
update_location n location = record n { location = location }

-- The old benchmark comes back.
unfoldable pub update_hwbench : Node → NodeHwBench → Node × Option NodeHwBench
update_hwbench n hwbench = (record n { hwbench = some hwbench }, n.hwbench)

unfoldable pub update_block : Node → Block → Node × Bool
update_block n block =
    if ltb n.best.block.height block.height
    then (record n { stale = false; best = record (n.best) { block = block } }, true)
    else (n, false)

-- The details as `update_details` leaves them.
unfoldable pub stamped : BlockDetails → ℕ → Option ℕ → BlockDetails
stamped best timestamp propagation_time = record best {
  block_time = (timestamp + 2 ^ 64 - best.block_timestamp) % 2 ^ 64;
  block_timestamp = timestamp;
  propagation_time = propagation_time;
}

unfoldable pub update_details : Node → ℕ → Option ℕ → Node × Option BlockDetails
unfolding stamped
update_details n timestamp propagation_time =
    let best = stamped n.best timestamp propagation_time in
    if ltb n.throttle timestamp
    then (
      record n {
        best = best;
        throttle =
            if leb best.block_time throttle_threshold
            then (timestamp + throttle_interval) % 2 ^ 64
            else n.throttle;
      },
      some best,
    )
    else (record n { best = best }, none)

-- `if let Some(value) = … { changed |= list.push(value) }`
unfoldable pub push_some : MeanList → Option Float → MeanList × Bool
push_some list none = (list, false)
push_some list (some value) = MeanList.push list value

unfoldable pub update_hardware : Node → Clock → SystemInterval → Node × Bool
unfolding push_some
update_hardware n clock interval =
    let (upload, up) = push_some n.hardware.upload interval.bandwidth_upload in
    let (download, down) = push_some n.hardware.download interval.bandwidth_download in
    let (chart_stamps, _) = MeanList.push n.hardware.chart_stamps (cast clock.chart_now) in
    let hardware : NodeHardware = record {
      upload = upload;
      download = download;
      chart_stamps = chart_stamps;
    } in
    (record n { hardware = hardware }, up || down)

-- A value that differs from the one at hand, and whether it does.
unfoldable pub replaced : ℕ → Option ℕ → ℕ × Bool
replaced old none = (old, false)
replaced old (some value) = if value == old then (old, false) else (value, true)

unfoldable pub update_stats : Node → SystemInterval → Node × Option NodeStats
unfolding replaced
update_stats n interval =
    let (peers, p) = replaced n.stats.peers interval.peers in
    let (txcount, t) = replaced n.stats.txcount interval.txcount in
    let stats : NodeStats = record { peers = peers; txcount = txcount } in
    (record n { stats = stats }, (if p || t then some stats else none))

unfoldable pub update_io : Node → SystemInterval → Node × Option NodeIo
unfolding push_some
update_io n interval =
    let (size, changed) = push_some n.io.used_state_cache_size interval.used_state_cache_size in
    let io : NodeIo = record { used_state_cache_size = size } in
    (record n { io = io }, (if changed then some io else none))

unfoldable pub update_finalized : Node → Block → Node × Option Block
update_finalized n block =
    if ltb n.finalized.height block.height
    then (record n { finalized = block }, some block)
    else (n, none)

unfoldable pub update_stale : Node → ℕ → Node × Bool
update_stale n threshold =
    let stale = if ltb n.best.block_timestamp threshold then true else n.stale in
    (record n { stale = stale }, stale)

unfoldable pub set_validator_address : Node → String → Node × Bool
set_validator_address n addr = elim n.details.validator [
  | none ↦ (record n { details = record (n.details) { validator = some addr } }, true)
  | some old ↦
      ite (old ≟ addr) (n, false)
        (record n { details = record (n.details) { validator = some addr } }, true)
]
