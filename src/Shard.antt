-- ===== src/Shard.antt =====
-- backend/telemetry_shard: what nodes say goes through a shard to the core.
pub mod Aggregator
pub mod BlockedAddrs
pub mod Connection
pub mod CoreConnection
pub mod Json
pub mod RealIp
