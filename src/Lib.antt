-- ===== src/Lib.antt =====
-- The Substrate telemetry backend (backend/), in two programs. A shard takes the websocket connections
-- of nodes, limits them, gives each node a local id and forwards what it sends to the core. The core
-- keeps the chains and their nodes, and tells the feeds (browsers) that subscribe to a chain what
-- changes. Shard and core exchange the messages of internal_messages.rs.
--
-- Where each part stands:
-- Common: backend/common/src. DenseMap, MostSeen, MultiMapUnique, AssignId, RollingTotal, NumStats,
--   MeanList and ReadyChunksAll are the files of these names in snake case; Types has the data of
--   node_types.rs, node_message.rs and internal_messages.rs. BiMap is the interface of the `bimap`
--   crate, with what its documentation promises; AssignId, Shard.Aggregator and Core.InnerLoop are over any
--   implementation of it.
-- Core: backend/telemetry_core/src. Counter, Score and ChainStats are state/counter.rs and
--   state/chain_stats.rs, Node is state/node.rs, Chain with its children Update, Blocks and Stale is
--   state/chain.rs, State is state/state.rs. FeedMessage is feed_message.rs. InnerLoop is
--   aggregator/inner_loop.rs: Shards for the messages of shards and of the locator, Feeds for those of
--   feeds, Queue for the two tasks of `handle`, Run for their interleaving, and Drain for
--   the loop over the queue. Server is the two tasks of a
--   websocket connection in main.rs, Feeds and Shards what a feed and a shard have of their own, over
--   any parser of hashes and of bincode, and Feeds.from_str the commands of feeds.
-- Shard: backend/telemetry_shard/src. Aggregator is the loop of aggregator.rs, BlockedAddrs is
--   blocked_addrs.rs, CoreConnection is connection.rs, Connection is
--   `handle_node_websocket_connection` of main.rs. Json is json_message: Hash is hash.rs, over any
--   implementation of the `hex` crate; Message has the data of
--   node_message.rs as the JSON has it, with the conversions, and OldVersion its
--   `split_old_style_version`. RealIp is real_ip.rs, over any parsers of addresses.
-- Prelude: what the components share, with Text for what they use of `str`.
-- Tests: each result at a concrete input, and the implementation of BiMap that they run on.
--
-- How state and operations correspond: a struct is a record, a method is a function from the old state
-- to the new one with its result, a task's loop is a function on the list of its messages. What a
-- task sends is the field `sent` of its state, oldest first. The readings of a clock are arguments.
-- A task that waits at several places (the websocket tasks, the connection to the core) is a state
-- machine whose events are what its awaits come back with; each call on a socket is a wait of its own.
-- A panic (`expect`, `assert_eq!`) is the outcome `panic` of Prelude.Outcome. A hash map is an
-- association list; what is proved of it depends on lookups and on its keys being distinct.
-- A `u64` or `usize` that the code may wrap is taken modulo 2 ^ 64; a floating-point number
-- is its bits or the expression that computes it.
--
-- Loops are structural recursion. `chunk_messages` has fuel, the number of slots, where each round
-- takes 64 of them, so it does not run out.
--
-- Not modelled: sockets, HTTP and channels, the command lines, the text of the metrics, the JSON and
-- bincode encodings, the geolocation database, byte_size.rs, the sets of aggregators, the test
-- utilities, and the frontend.
pub mod Prelude
pub mod Common
pub mod Core
pub mod Shard
pub mod Tests
