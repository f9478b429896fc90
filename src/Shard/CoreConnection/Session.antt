-- ===== src/Shard/CoreConnection/Session.antt =====
-- What the aggregator hears of its connection to the core (backend/telemetry_shard/src/connection.rs):
-- the sessions of an abstract link, one after the other.
use substation.Prelude.{
  ◌≡◌, refl, Bool, true, false, List, [], ◌∷◌, ◌++◌, Bool-cases, inl, inr, subst, sym,
}
use substation.Shard.CoreConnection.{
  Message, connected, disconnected, received, Phase, connecting, forwarding, sleeping, ended, Event,
  input, input_closed, output_closed, connect_ok, connect_failed, from_core, undecodable, core_gone,
  write, woken, CoreConnection, new, send, after_connection, write_to_core, take_pending,
  close_input, step_connecting, step_forwarding, step_sleeping, step_task, step, run,
}

-- A link that is down or up, with all that it said so far: it goes up, says what it received while it
-- is up, and goes down.
pub data Link {Out : Type 0} : List (Message Out) → Bool → Type 0 where
  start : Link [] false
  goes_up : (ms : List (Message Out)) → Link ms false → Link (ms ++ connected ∷ []) true
  says : (ms : List (Message Out)) (m : Out) → Link ms true → Link (ms ++ received m ∷ []) true
  goes_down : (ms : List (Message Out)) → Link ms true → Link (ms ++ disconnected ∷ []) false

-- Is the link up in this phase?
abbrev pub is_up : Phase → Bool
is_up forwarding = true
is_up _ = false

-- The task is where a link in the state that it notes would be, or has ended.
pub data Fits {In Out : Type 0} (c : CoreConnection In Out) : Type 0 where
  alive : c.is_connected ≡ is_up c.phase → Link c.sent (is_up c.phase) → Fits c
  over : (up : Bool) → c.phase ≡ ended → Link c.sent up → Fits c

module _ {In Out : Type 0} where
  send-Fits :
      (c : CoreConnection In Out) (m : Message Out) (phase : Phase) (up : Bool)
      → c.is_connected ≡ is_up phase
      → Link c.sent up
      → Link (c.sent ++ m ∷ []) (is_up phase)
      → Fits (send c m phase)
  unfolding send
  send-Fits c m phase up e l k = elim (Bool-cases c.listening) [
    | inl h ↦ rw (h, send) (alive e k)
    | inr h ↦ rw (h, send) (over up refl l)
  ]

  after_connection-Fits :
      (c : CoreConnection In Out) → Link c.sent c.is_connected → Fits (after_connection c)
  unfolding after_connection
  after_connection-Fits c l = elim (Bool-cases c.is_connected) [
    | inl e ↦
        let l' : Link c.sent true = subst (λ b. Link c.sent b) e l in
        rw (e, after_connection)
          (send-Fits (record c { is_connected = false }) disconnected sleeping true refl l'
            (goes_down c.sent l'))
    | inr e ↦ rw (e, after_connection) (alive refl (subst (λ b. Link c.sent b) e l))
  ]

  -- A step of the inner loop, while the link is up.
  forwarding-Fits :
      (c : CoreConnection In Out) (event : Event In Out)
      → c.is_connected ≡ true
      → c.phase ≡ forwarding
      → Link c.sent true
      → Fits (step_forwarding c event)
  unfolding step_forwarding take_pending write_to_core close_input
  forwarding-Fits c (from_core m) e p l =
      send-Fits c (received m) forwarding true e l (says c.sent m l)
  forwarding-Fits c undecodable e p l = over true refl l
  forwarding-Fits c core_gone e p l = after_connection-Fits c (subst (λ b. Link c.sent b) (sym e) l)
  forwarding-Fits c (write ok) e p l = taken c.pending ok
    where
      stays : Fits c
      stays = alive (rw p e) (rw p l)

      taken :
          (waiting : List In) (ok : Bool)
          → Fits (elim waiting [ [] ↦ c | m ∷ rest ↦ write_to_core c m rest ok ])
      taken [] ok = stays
      taken (m ∷ rest) true = alive (rw p e) (rw p l)
      taken (m ∷ rest) false =
          after_connection-Fits (record c { pending = rest }) (subst (λ b. Link c.sent b) (sym e) l)
  forwarding-Fits c input_closed e p l = closed c.pending
    where
      closed :
          (waiting : List In) → Fits (elim waiting [ [] ↦ record c { phase = ended } | _ ∷ _ ↦ c ])
      closed [] = over true refl l
      closed (m ∷ rest) = alive (rw p e) (rw p l)
  forwarding-Fits c (input m) e p l = alive (rw p e) (rw p l)
  forwarding-Fits c output_closed e p l = alive (rw p e) (rw p l)
  forwarding-Fits c connect_ok e p l = alive (rw p e) (rw p l)
  forwarding-Fits c connect_failed e p l = alive (rw p e) (rw p l)
  forwarding-Fits c woken e p l = alive (rw p e) (rw p l)

  -- A step of the task in a given phase.
  task-Fits :
      (c : CoreConnection In Out) (p : Phase) (event : Event In Out)
      → let d : CoreConnection In Out = record c { phase = p } in
        c.is_connected ≡ is_up p → Link c.sent (is_up p) → Fits (step_task d event)
  unfolding step_task step_connecting step_sleeping
  task-Fits c connecting event e l = at_connect event
    where
      d : CoreConnection In Out
      d = record c { phase = connecting }

      at_connect : (event : Event In Out) → Fits (step_connecting d event)
      at_connect connect_ok =
          send-Fits (record d { is_connected = true }) connected forwarding false refl l
            (goes_up c.sent l)
      at_connect connect_failed = after_connection-Fits d (subst (λ b. Link c.sent b) (sym e) l)
      at_connect (input m) = alive e l
      at_connect input_closed = alive e l
      at_connect output_closed = alive e l
      at_connect (from_core m) = alive e l
      at_connect undecodable = alive e l
      at_connect core_gone = alive e l
      at_connect (write ok) = alive e l
      at_connect woken = alive e l
  task-Fits c forwarding event e l =
      forwarding-Fits (record c { phase = forwarding }) event e refl l
  task-Fits c sleeping event e l = asleep event
    where
      d : CoreConnection In Out
      d = record c { phase = sleeping }

      asleep : (event : Event In Out) → Fits (step_sleeping d event)
      asleep woken = alive e l
      asleep connect_ok = alive e l
      asleep connect_failed = alive e l
      asleep (input m) = alive e l
      asleep input_closed = alive e l
      asleep output_closed = alive e l
      asleep (from_core m) = alive e l
      asleep undecodable = alive e l
      asleep core_gone = alive e l
      asleep (write ok) = alive e l
  task-Fits c ended event e l = alive e l

  step_task-Fits :
      (c : CoreConnection In Out) (event : Event In Out) → Fits c → Fits (step_task c event)
  unfolding step_task
  step_task-Fits c event (alive e l) = task-Fits c c.phase event e l
  step_task-Fits c event (over up p l) = rw (p, step_task) (over up p l)

  step-Fits : (c : CoreConnection In Out) (event : Event In Out) → Fits c → Fits (step c event)
  unfolding step
  step-Fits c (input m) (alive e l) = alive e l
  step-Fits c (input m) (over up p l) = over up p l
  step-Fits c output_closed (alive e l) = alive e l
  step-Fits c output_closed (over up p l) = over up p l
  step-Fits c input_closed f = step_task-Fits c input_closed f
  step-Fits c connect_ok f = step_task-Fits c connect_ok f
  step-Fits c connect_failed f = step_task-Fits c connect_failed f
  step-Fits c (from_core m) f = step_task-Fits c (from_core m) f
  step-Fits c undecodable f = step_task-Fits c undecodable f
  step-Fits c core_gone f = step_task-Fits c core_gone f
  step-Fits c (write ok) f = step_task-Fits c (write ok) f
  step-Fits c woken f = step_task-Fits c woken f

  pub run-Fits_from :
      (c : CoreConnection In Out) (events : List (Event In Out)) → Fits c → Fits (run c events)
  unfolding run
  run-Fits_from c [] f = f
  run-Fits_from c (event ∷ events) f = run-Fits_from (step c event) events (step-Fits c event f)

  -- Whatever the network, the core and the aggregator do, and whenever, what the aggregator hears is
  -- what an abstract link says that goes up, passes on data only while it is up, and goes down: no
  -- second `Connected` before a `Disconnected`, no `Disconnected` before a `Connected`. While the
  -- task runs, it notes that it is connected exactly when the link is up, which is in the inner loop.
  pub run-Fits : (events : List (Event In Out)) → Fits (run new events)
  unfolding new
  run-Fits events = run-Fits_from new events (alive refl start)
