-- ===== src/Core.antt =====
-- backend/telemetry_core: the state of chains and nodes, and the aggregator that serves the feeds.
pub mod Counter
mod Score
pub mod ChainStats
pub mod Node
pub mod FeedMessage
pub mod Chain
pub mod State
pub mod InnerLoop
pub mod Server
