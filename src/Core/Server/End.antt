-- ===== src/Core/Server/End.antt =====
-- When the handler of a websocket connection of the core's server returns
-- (backend/telemetry_core/src/main.rs).
use substation.Prelude.{◌≡◌, Bool, true, false, List, [], ◌∷◌}
use substation.Core.Server.{
  calling, Handler, Connection, Event, answered, rested, send_closed, joined, run,
}

module _ {Bytes Message : Type 0} where
  -- Anything happens but that a call on the socket ends.
  abbrev pub Unanswered : List (Event Bytes Message) → Type 0
  Unanswered [] = Unit
  Unanswered (answered ok ∷ events) = ⊥
  Unanswered (event ∷ events) = Unanswered events

  -- Calls on the socket end like this, then the rest is over, if there is one, and the task that sends
  -- sees that the other one has ended.
  unfoldable pub answers : List Bool → List (Event Bytes Message)
  answers [] = rested ∷ send_closed ∷ joined ∷ []
  answers (ok ∷ oks) = answered ok ∷ answers oks

module _ {Bytes Command Message Out : Type 0} (h : Handler Bytes Command Message Out) where
  -- In a call on the socket, with these messages left.
  busy : Connection Command Message Out → List Message → Connection Command Message Out
  busy c ms = record c { sending = true; round = calling ms; finished = false }

  Busy : List Message → Connection Command Message Out → Type 0
  Busy ms x = (d : Connection Command Message Out) × (x ≡ busy d ms)

  -- The handler has returned after these answers.
  Returned : Connection Command Message Out → List Bool → Type 0
  Returned c oks = (run h c (answers oks)).finished ≡ true
