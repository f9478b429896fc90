-- ===== src/Shard/Json.antt =====
-- backend/telemetry_shard/src/json_message: what nodes send as JSON.
pub mod OldVersion
pub mod Hash
pub mod Message
