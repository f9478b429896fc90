-- ===== src/Shard/CoreConnection.antt =====
-- backend/telemetry_shard/src/connection.rs: the task that keeps a connection to the core. Each `await`
-- is a phase, and what it comes back with is an event. `In` is what the aggregator sends to the
-- core, `Out` what it gets.
pub mod Session
pub mod Order
pub mod Delivery
pub mod Linked
use substation.Prelude.{Bool, true, false, List, [], ◌∷◌, ◌++◌, if◌then◌else◌}

pub data Message (Out : Type 0) : Type 0 where
  connected disconnected : Message Out
  received : Out → Message Out

-- Where the task is: at `connect`, in the inner loop, at `sleep`, or at its end.
pub data Phase : Type 0 where
  connecting forwarding sleeping ended : Phase

pub data Event (In Out : Type 0) : Type 0 where
  -- The aggregator puts a message in, or lets go of its end of a channel.
  input : In → Event In Out
  input_closed output_closed : Event In Out
  -- `connect` comes back.
  connect_ok connect_failed : Event In Out
  -- The inner loop gets a message of the core, bytes that are none, or nothing more.
  from_core : Out → Event In Out
  undecodable core_gone : Event In Out
  -- It takes a message of the aggregator, and the websocket takes that or not.
  write : Bool → Event In Out
  woken : Event In Out

pub record CoreConnection (In Out : Type 0) : Type 0 where
  pub phase : Phase
  pub is_connected : Bool
  -- Does the aggregator hold the other end of `tx_out`?
  pub listening : Bool
  -- What waits in `rx_in`.
  pub pending : List In
  -- All that the aggregator and the core were sent, oldest first.
  pub sent : List (Message Out)
  pub written : List In

module _ {In Out : Type 0} where
  -- The task starts with an empty channel at `connect`.
  unfoldable pub new : CoreConnection In Out
  new = record {
    phase = connecting;
    is_connected = false;
    listening = true;
    pending = [];
    sent = [];
    written = [];
  }

  -- `tx_out.send_async`: the task goes on in the given phase, or returns.
  unfoldable pub send : CoreConnection In Out → Message Out → Phase → CoreConnection In Out
  send c message phase =
      if c.listening
      then record c { sent = c.sent ++ message ∷ []; phase = phase }
      else record c { phase = ended }

  -- What follows the `match` on `connect`.
  unfoldable pub after_connection : CoreConnection In Out → CoreConnection In Out
  unfolding send
  after_connection c =
      if c.is_connected
      then send (record c { is_connected = false }) disconnected sleeping
      else record c { phase = sleeping }

  -- The websocket takes the message or is broken, and then the message is lost.
  unfoldable pub write_to_core : CoreConnection In Out → In → List In → Bool → CoreConnection In Out
  unfolding after_connection
  write_to_core c m rest true = record c { pending = rest; written = c.written ++ m ∷ [] }
  write_to_core c m rest false = after_connection (record c { pending = rest })

  -- With no message there `recv_async` waits.
  unfoldable pub take_pending : CoreConnection In Out → Bool → CoreConnection In Out
  unfolding write_to_core
  take_pending c ok = elim c.pending [ [] ↦ c | m ∷ rest ↦ write_to_core c m rest ok ]

  -- `recv_async` reports that the channel is closed once it is empty.
  unfoldable pub close_input : CoreConnection In Out → CoreConnection In Out
  close_input c = elim c.pending [ [] ↦ record c { phase = ended } | _ ∷ _ ↦ c ]

  unfoldable pub step_connecting : CoreConnection In Out → Event In Out → CoreConnection In Out
  unfolding send after_connection
  step_connecting c connect_ok = send (record c { is_connected = true }) connected forwarding
  step_connecting c connect_failed = after_connection c
  step_connecting c _ = c

  -- Bytes that do not decode fail an `expect`, and the task ends.
  unfoldable pub step_forwarding : CoreConnection In Out → Event In Out → CoreConnection In Out
  unfolding send after_connection take_pending close_input
  step_forwarding c (from_core m) = send c (received m) forwarding
  step_forwarding c undecodable = record c { phase = ended }
  step_forwarding c core_gone = after_connection c
  step_forwarding c (write ok) = take_pending c ok
  step_forwarding c input_closed = close_input c
  step_forwarding c _ = c

  -- The next round starts by throwing away what waits.
  unfoldable pub step_sleeping : CoreConnection In Out → Event In Out → CoreConnection In Out
  step_sleeping c woken = record c { phase = connecting; pending = [] }
  step_sleeping c _ = c

  unfoldable pub step_task : CoreConnection In Out → Event In Out → CoreConnection In Out
  unfolding step_connecting step_forwarding step_sleeping
  step_task c event = elim c.phase [
    | connecting ↦ step_connecting c event
    | forwarding ↦ step_forwarding c event
    | sleeping ↦ step_sleeping c event
    | ended ↦ c
  ]

  -- The aggregator's own moves, and the task's.
  unfoldable pub step : CoreConnection In Out → Event In Out → CoreConnection In Out
  unfolding step_task
  step c (input m) = record c { pending = c.pending ++ m ∷ [] }
  step c output_closed = record c { listening = false }
  step c event = step_task c event

  unfoldable pub run : CoreConnection In Out → List (Event In Out) → CoreConnection In Out
  unfolding step
  run c [] = c
  run c (event ∷ events) = run (step c event) events
