-- ===== src/Shard/Connection.antt =====
-- backend/telemetry_shard/src/main.rs, `handle_node_websocket_connection`: the loop that serves the
-- connection of one node. Its events are ticks of the interval and messages; parsing a message from
-- its JSON is serde_json's part, so a message that came in is its length and what it parses to.
pub mod Laws
pub mod Run
use substation.Prelude.{
  ℕ, ◌+◌, ◌-◌, ◌*◌, ◌/◌, Bool, true, false, not, ◌&&◌, String, List, [], ◌∷◌, ◌++◌, Option, none,
  some, length, ltb, leb, if◌then◌else◌, nat_key,
}
use substation.Prelude.HashMap.{HashMap}
use substation.Prelude.HashMap
use substation.Common.RollingTotal.{RollingTotal, RollingTotalBuilder}
use substation.Common.RollingTotal
use substation.Common.Types.{
  IpAddr, NodeMessage, Payload, SystemConnected, system_connected, message_id, into_payload,
}
use substation.Shard.Aggregator.{FromWebsocket, add, update, remove}
use substation.Shard.BlockedAddrs.{BlockedAddrs, block_addr}

-- What the command line sets, and the address of the peer.
pub record Limits : Type 0 where
  pub real_addr : IpAddr
  pub max_nodes_per_connection : ℕ
  pub bytes_per_second : ℕ
  -- In nanoseconds.
  pub stale_node_timeout : ℕ

pub record Connection : Type 0 where
  pub allowed_message_ids : HashMap ℕ ℕ
  pub rolling_total_bytes : RollingTotal
  pub block_list : BlockedAddrs
  -- All that was sent to the aggregator, oldest first.
  pub sent : List FromWebsocket
  pub running : Bool

pub data Event : Type 0 where
  tick : Event
  -- The length of the message, and what it parses to if it does.
  received : ℕ → Option NodeMessage → Event
  no_more_messages : Event

-- The state in which the loop begins. `initialize` was sent.
unfoldable pub new : ℕ → BlockedAddrs → ℕ → Connection
unfolding RollingTotal.new_builder RollingTotal.start
new now block_list closer = record {
  allowed_message_ids = [];
  rolling_total_bytes = RollingTotal.start RollingTotal.new_builder now;
  block_list = block_list;
  sent = FromWebsocket.initialize closer ∷ [];
  running = true;
}

unfoldable pub send : Connection → FromWebsocket → Connection
send c msg = record c { sent = c.sent ++ msg ∷ [] }

-- The ids that were not heard of for longer than the timeout.
unfoldable pub stale_ids : ℕ → ℕ → HashMap ℕ ℕ → List ℕ
stale_ids now timeout [] = []
stale_ids now timeout ((id, last_seen) ∷ ids) =
    let rest = stale_ids now timeout ids in
    if ltb timeout (now - last_seen) then id ∷ rest else rest

unfoldable pub remove_stale : Connection → List ℕ → Connection
unfolding send
remove_stale c [] = c
remove_stale c (id ∷ ids) =
    remove_stale
      (send (record c { allowed_message_ids = HashMap.remove id c.allowed_message_ids })
        (remove id))
      ids

abbrev pub is_nil : {A : Type 0} → List A → Bool
is_nil [] = true
is_nil (x ∷ xs) = false

unfoldable pub handle_tick : Limits → ℕ → Connection → Connection
unfolding stale_ids remove_stale
handle_tick limits now c =
    let ids = stale_ids now limits.stale_node_timeout c.allowed_message_ids in
    let c' = remove_stale c ids in
    if not (is_nil ids) && is_nil c'.allowed_message_ids then record c' { running = false } else c'

-- A node asks to be known.
unfoldable pub handle_connected : Limits → ℕ → Connection → ℕ → SystemConnected → Connection
unfolding send
handle_connected limits now c id info =
    if leb limits.max_nodes_per_connection (length c.allowed_message_ids)
    then c
    else send (record c { allowed_message_ids = HashMap.insert id now c.allowed_message_ids })
        (add id limits.real_addr info.node info.genesis_hash)

-- Anything else counts only for an id that is known.
unfoldable pub handle_update : ℕ → Connection → ℕ → Payload → Connection
unfolding send
handle_update now c id payload = elim (HashMap.get id c.allowed_message_ids) [
  | none ↦ c
  | some _ ↦
      send (record c { allowed_message_ids = HashMap.insert id now c.allowed_message_ids })
        (update id payload)
]

unfoldable pub handle_payload : Limits → ℕ → Connection → ℕ → Payload → Connection
unfolding handle_connected handle_update
handle_payload limits now c id (system_connected info) = handle_connected limits now c id info
handle_payload limits now c id payload = handle_update now c id payload

unfoldable pub handle_parsed : Limits → ℕ → Connection → Option NodeMessage → Connection
unfolding handle_payload
handle_parsed limits now c none = c
handle_parsed limits now c (some message) =
    handle_payload limits now c (message_id message) (into_payload message)

unfoldable pub handle_received : Limits → ℕ → Connection → ℕ → Option NodeMessage → Connection
unfolding handle_parsed
handle_received limits now c bytes message =
    let total = RollingTotal.push c.rolling_total_bytes now bytes in
    let counted = record c { rolling_total_bytes = total } in
    if ltb limits.bytes_per_second (total.total / 10)
    then record counted {
      block_list = block_addr c.block_list now limits.real_addr "Too much traffic";
      running = false;
    }
    else handle_parsed limits now counted message

-- One round of the select loop at a time; a loop that has ended does nothing.
unfoldable pub handle_event : Limits → Connection → ℕ × Event → Connection
unfolding handle_tick handle_received
handle_event limits c (now, tick) = if c.running then handle_tick limits now c else c
handle_event limits c (now, received bytes message) =
    if c.running then handle_received limits now c bytes message else c
handle_event limits c (now, no_more_messages) = record c { running = false }

unfoldable pub run : Limits → Connection → List (ℕ × Event) → Connection
run limits c [] = c
run limits c (e ∷ es) = run limits (handle_event limits c e) es
