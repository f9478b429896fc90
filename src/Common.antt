-- ===== src/Common.antt =====
-- backend/common: the collections and the data types that the core and the shard share.
pub mod DenseMap
pub mod MostSeen
pub mod MultiMapUnique
pub mod AssignId
pub mod BiMap
pub mod ReadyChunksAll
pub mod RollingTotal
pub mod MeanList
pub mod NumStats
pub mod Types
