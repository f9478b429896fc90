-- ===== src/Shard/BlockedAddrs.antt =====
-- backend/telemetry_shard/src/blocked_addrs.rs. An address is its `IpAddr`; time is in nanoseconds.
pub mod Laws
use substation.Prelude.{ℕ, ◌+◌, String, Option, none, some, ltb, if◌then◌else◌, Key, ℕ_discrete, []}
use substation.Prelude.HashMap.{HashMap}
use substation.Prelude.HashMap
use substation.Common.Types.{IpAddr}

unfoldable pub IpAddr-discrete : Discrete IpAddr
IpAddr-discrete = hlevel ℕ_discrete

instance abbrev pub ip_key : Key IpAddr
unfolding IpAddr-discrete
ip_key = record { dec = IpAddr-discrete }

pub record BlockedAddrs : Type 0 where
  pub block_duration : ℕ
  pub inner : HashMap IpAddr (String × ℕ)

unfoldable pub new : ℕ → BlockedAddrs
new block_duration = record { block_duration = block_duration; inner = [] }

unfoldable pub block_addr : BlockedAddrs → ℕ → IpAddr → String → BlockedAddrs
block_addr b now addr reason = record b { inner = HashMap.insert addr (reason, now) b.inner }

-- A block that has run out is forgotten.
unfoldable pub blocked_reason : BlockedAddrs → ℕ → IpAddr → BlockedAddrs × Option String
blocked_reason b now addr = elim (HashMap.get addr b.inner) [
  | none ↦ (b, none)
  | some (reason, time) ↦
      if ltb (time + b.block_duration) now
      then (record b { inner = HashMap.remove addr b.inner }, none)
      else (b, some reason)
]
