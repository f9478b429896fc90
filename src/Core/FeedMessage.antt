-- ===== src/Core/FeedMessage.antt =====
-- backend/telemetry_core/src/feed_message.rs. A serializer is the list of the messages pushed onto
-- it, oldest first; the bytes that serde_json writes for each are not modelled.
use substation.Prelude.{ℕ, String, List, [], ◌∷◌, ◌++◌, Option, none, some}
use substation.Common.MeanList.{Float}
use substation.Common.Types.{
  BlockDetails, BlockHash, BlockNumber, NodeHardware, NodeIo, NodeStats, Timestamp,
}
use substation.Core.ChainStats.{ChainStats}
use substation.Core.Node.{Node}

pub data FeedMessage : Type 0 where
  version : ℕ → FeedMessage
  best_block : BlockNumber → Timestamp → Option ℕ → FeedMessage
  best_finalized : BlockNumber → BlockHash → FeedMessage
  added_node : ℕ → Node → FeedMessage
  removed_node : ℕ → FeedMessage
  located_node : ℕ → Float → Float → String → FeedMessage
  imported_block : ℕ → BlockDetails → FeedMessage
  finalized_block : ℕ → BlockNumber → BlockHash → FeedMessage
  node_stats_update : ℕ → NodeStats → FeedMessage
  hardware : ℕ → NodeHardware → FeedMessage
  time_sync : ℕ → FeedMessage
  added_chain : String → BlockHash → ℕ → FeedMessage
  removed_chain : BlockHash → FeedMessage
  subscribed_to : BlockHash → FeedMessage
  unsubscribed_from : BlockHash → FeedMessage
  pong : String → FeedMessage
  stale_node : ℕ → FeedMessage
  node_io_update : ℕ → NodeIo → FeedMessage
  chain_stats_update : ChainStats → FeedMessage

-- The number that names the kind of a message to the browser.
unfoldable pub action : FeedMessage → ℕ
action (version _) = 0
action (best_block _ _ _) = 1
action (best_finalized _ _) = 2
action (added_node _ _) = 3
action (removed_node _) = 4
action (located_node _ _ _ _) = 5
action (imported_block _ _) = 6
action (finalized_block _ _ _) = 7
action (node_stats_update _ _) = 8
action (hardware _ _) = 9
action (time_sync _) = 10
action (added_chain _ _ _) = 11
action (removed_chain _) = 12
action (subscribed_to _) = 13
action (unsubscribed_from _) = 14
action (pong _) = 15
action (stale_node _) = 20
action (node_io_update _ _) = 21
action (chain_stats_update _) = 22

pub record FeedMessageSerializer : Type 0 where
  pub messages : List FeedMessage

unfoldable pub new : FeedMessageSerializer
new = record { messages = [] }

infixl 66 ◌▹◌
unfoldable pub ◌▹◌ : FeedMessageSerializer → FeedMessage → FeedMessageSerializer
ser ▹ msg = record { messages = ser.messages ++ msg ∷ [] }

-- Nothing is sent where nothing was pushed.
unfoldable pub into_finalized : FeedMessageSerializer → Option (List FeedMessage)
into_finalized ser = elim ser.messages [ [] ↦ none | msg ∷ rest ↦ some (msg ∷ rest) ]
