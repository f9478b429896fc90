-- ===== src/Core/Server/Feeds.antt =====
-- `handle_feed_websocket_connection` of backend/telemetry_core/src/main.rs, with the commands that
-- feeds send (`FromStr` in aggregator/inner_loop.rs). `String::from_utf8` and the parser of hashes are
-- parameters; bytes for a feed are of any type.
pub mod Commands
use substation.Prelude.{
  ℕ, Bool, true, false, String, List, [], ◌∷◌, Option, none, some, ◌≟◌, string_key,
}
use substation.Prelude.Text.{Text, cut_at, text}
use substation.Common.Types.{BlockHash}
use substation.Core.InnerLoop.{FromFeedWebsocket, initialize, subscribe, ping, disconnected}
use substation.Core.Server.{Read, command, ignored, Handler}

abbrev pub subscribe_to : Option BlockHash → Option FromFeedWebsocket
subscribe_to none = none
subscribe_to (some chain) = some (subscribe chain)

module _ (parse_hash : Text → Option BlockHash) where
  -- The command before the first colon, applied to what comes after it.
  unfoldable pub from_parts : String → Text → Option FromFeedWebsocket
  from_parts cmd value = elim (cmd ≟ "ping") [
    | yes _ ↦ some (ping (text value))
    | no _ ↦ elim (cmd ≟ "subscribe") [ yes _ ↦ subscribe_to (parse_hash value) | no _ ↦ none ]
  ]

  unfoldable pub from_str : Text → Option FromFeedWebsocket
  unfolding from_parts
  from_str s = elim (cut_at b':' s) [
    | none ↦ none
    | some (cmd, value) ↦ from_parts (text cmd) value
  ]

-- Invalid commands are ignored.
abbrev pub as_read : {Command : Type 0} → Option Command → Read Command
as_read none = ignored
as_read (some x) = command x

module _ {Bytes : Type 0} (from_utf8 : Bytes → Option Text)
    (parse_hash : Text → Option BlockHash) where
  unfoldable pub read : Bytes → Read FromFeedWebsocket
  unfolding from_str
  read bytes = elim (from_utf8 bytes) [ none ↦ ignored | some s ↦ as_read (from_str parse_hash s) ]

  -- A round sends all that wait. Each call has the deadline of the round, a call that fails or misses it
  -- ends the task, and the rest is the debounce.
  unfoldable pub handler : {Message : Type 0} → Handler Bytes FromFeedWebsocket Message Message
  unfolding read
  handler = record {
    initialize = initialize;
    disconnected = disconnected;
    read = read;
    batch = λ ms. (ms, []);
    encode = λ m. m;
    stops = true;
    rests = true;
  }
