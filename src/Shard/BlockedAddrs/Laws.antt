-- ===== src/Shard/BlockedAddrs/Laws.antt =====
-- How long an address is blocked (backend/telemetry_shard/src/blocked_addrs.rs).
use substation.Prelude.{ℕ, ◌+◌, ◌≡◌, String, none, some, ltb, if◌then◌else◌, ite, ◌≟◌, arith}
use substation.Prelude.HashMap.{get-insert, get-remove}
use substation.Prelude.HashMap
use substation.Common.Types.{IpAddr}
use substation.Shard.BlockedAddrs.{BlockedAddrs, ip_key, block_addr, blocked_reason}

-- A new block of an address is heard of exactly until its duration is over, and is forgotten then; what is
-- known of every other address stays, whether its own block is still in force or not.
pub block-blocked_lem :
    (b : BlockedAddrs) (now later : ℕ) (addr other : IpAddr) (reason : String)
    → let c = block_addr b now addr reason in
      let r = blocked_reason c later addr in
      (r.1 ≡ (if ltb (now + b.block_duration) later then none else some reason))
      × (HashMap.get addr r.0.inner
          ≡ (if ltb (now + b.block_duration) later then none else some (reason, now)))
      × (HashMap.get other r.0.inner
          ≡ ite (addr ≟ other) (HashMap.get addr r.0.inner) (HashMap.get other b.inner))
unfolding block_addr blocked_reason
block-blocked_lem b now later addr other reason =
    let here = get-insert addr addr (reason, now) b.inner in
    let there = get-insert addr other (reason, now) b.inner in
    let gone = get-remove addr other (HashMap.insert addr (reason, now) b.inner) in
    let gone_here = get-remove addr addr (HashMap.insert addr (reason, now) b.inner) in
    (
      ground (arith, here),
      ground (arith, here, gone_here),
      ground (arith, here, there, gone, gone_here),
    )
