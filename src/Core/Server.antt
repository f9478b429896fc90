-- ===== src/Core/Server.antt =====
-- backend/telemetry_core/src/main.rs: the two tasks that serve a websocket, one for what comes in and
-- one for what the aggregator sends, and what `start_server` does after them. Feeds and Shards have what
-- the two kinds of connection do each in its own way. Each `await` that matters comes back with an
-- event.
pub mod Feeds
pub mod Shards
pub mod Course
pub mod Session
pub mod End
use substation.Prelude.{Bool, true, false, ◌||◌, List, [], ◌∷◌, ◌++◌, if◌then◌else◌}
use substation.Core.InnerLoop.{Channel}

-- What becomes of bytes that came in: a command for the aggregator, nothing, or the end of the task.
pub data Read (Command : Type 0) : Type 0 where
  command : Command → Read Command
  ignored stop : Read Command

-- Where the task that sends is: at the `select!` of its loop, waiting for a call on the socket, or at
-- the end of a round. The call sends the first of the messages, or flushes when there is none.
pub data Round (Message : Type 0) : Type 0 where
  idle : Round Message
  calling : List Message → Round Message
  resting : Round Message

-- A kind of connection: its first and last message to the aggregator, what it makes of bytes, how it
-- splits the messages that wait, which are some, into those of a round and the others, what it sends
-- for one, whether a call that fails ends the task, and whether a round ends with a rest.
pub record Handler (Bytes Command Message Out : Type 0) : Type 0 where
  pub initialize : Channel → Command
  pub disconnected : Command
  pub read : Bytes → Read Command
  pub batch : List Message → List Message × List Message
  pub encode : Message → Out
  pub stops : Bool
  pub rests : Bool

pub record Connection (Command Message Out : Type 0) : Type 0 where
  -- Do the two tasks run, and has the handler returned?
  pub receiving : Bool
  pub sending : Bool
  pub finished : Bool
  -- Does the aggregator take commands, and does it hold the channel to this connection?
  pub accepting : Bool
  pub channel_open : Bool
  pub waiting : List Message
  pub round : Round Message
  -- What the aggregator and the socket were given, oldest first.
  pub told : List Command
  pub written : List Out

pub data Event (Bytes Message : Type 0) : Type 0 where
  -- `receive_data` comes back with data, or with an error or the end.
  received : Bytes → Event Bytes Message
  receive_failed : Event Bytes Message
  -- The aggregator sends a message, drops its end of the channel, or is gone.
  from_aggregator : Message → Event Bytes Message
  channel_dropped aggregator_gone : Event Bytes Message
  -- The task that sends looks into its channel, a call on the socket ends well or not, also by a
  -- deadline where there is one, and the rest is over.
  next : Event Bytes Message
  answered : Bool → Event Bytes Message
  rested : Event Bytes Message
  -- A `select!` takes the closer that the other task's end drops.
  recv_closed send_closed : Event Bytes Message
  -- Both tasks are awaited.
  joined : Event Bytes Message

-- A command goes to the aggregator, or fails to and ends the task that receives.
unfoldable pub tell :
    {Command Message Out : Type 0}
    → Connection Command Message Out
    → Read Command
    → Connection Command Message Out
tell c (command x) =
    if c.accepting then record c { told = c.told ++ x ∷ [] } else record c { receiving = false }
tell c ignored = c
tell c stop = record c { receiving = false }

module _ {Bytes Command Message Out : Type 0} (h : Handler Bytes Command Message Out) where
  -- The connection's first message; without it there are no tasks.
  unfoldable pub start : Channel → Bool → Connection Command Message Out
  start channel accepting = record {
    receiving = accepting;
    sending = accepting;
    finished = false;
    accepting = accepting;
    channel_open = accepting;
    waiting = [];
    round = idle;
    told = if accepting then h.initialize channel ∷ [] else [];
    written = [];
  }

  -- A round begins; the task ends with its channel.
  unfoldable pub take_batch : Connection Command Message Out → Connection Command Message Out
  take_batch c = elim c.waiting [
    | [] ↦ if c.channel_open then c else record c { sending = false }
    | m ∷ ms ↦
        let (taken, left) = h.batch (m ∷ ms) in record c { waiting = left; round = calling taken }
  ]

  -- The round goes on with these calls, or is over.
  unfoldable pub after_failure :
      Connection Command Message Out → Round Message → Connection Command Message Out
  after_failure c round =
      if h.stops then record c { sending = false; round = idle } else record c { round = round }

  unfoldable pub call_answered :
      Connection Command Message Out → List Message → Bool → Connection Command Message Out
  unfolding after_failure
  call_answered c (m ∷ ms) true = record c {
    round = calling ms;
    written = c.written ++ h.encode m ∷ [];
  }
  call_answered c (m ∷ ms) false = after_failure c (calling ms)
  call_answered c [] true = record c { round = if h.rests then resting else idle }
  call_answered c [] false = after_failure c idle

  unfoldable pub send_step :
      Connection Command Message Out → Event Bytes Message → Connection Command Message Out
  unfolding take_batch call_answered
  send_step c next = elim c.round [ idle ↦ take_batch c | _ ↦ c ]
  send_step c (answered ok) = elim c.round [ calling ms ↦ call_answered c ms ok | _ ↦ c ]
  send_step c rested = elim c.round [ resting ↦ record c { round = idle } | _ ↦ c ]
  send_step c send_closed = elim c.round [
    | idle ↦ if c.receiving then c else record c { sending = false }
    | _ ↦ c
  ]
  send_step c _ = c

  -- `start_server` tells the aggregator that the connection has closed.
  unfoldable pub finish : Connection Command Message Out → Connection Command Message Out
  finish c =
      if c.accepting
      then record c { finished = true; told = c.told ++ h.disconnected ∷ [] }
      else record c { finished = true }

  unfoldable pub step :
      Connection Command Message Out → Event Bytes Message → Connection Command Message Out
  unfolding tell send_step finish
  step c (received bytes) = if c.receiving then tell c (h.read bytes) else c
  step c receive_failed = record c { receiving = false }
  step c (from_aggregator m) =
      if c.channel_open then record c { waiting = c.waiting ++ m ∷ [] } else c
  step c channel_dropped = record c { channel_open = false }
  step c aggregator_gone = record c { accepting = false; channel_open = false }
  step c recv_closed = if c.sending then c else record c { receiving = false }
  step c joined = if c.receiving || c.sending || c.finished then c else finish c
  step c event = if c.sending then send_step c event else c

  unfoldable pub run :
      Connection Command Message Out → List (Event Bytes Message) → Connection Command Message Out
  unfolding step
  run c [] = c
  run c (event ∷ events) = run (step c event) events
