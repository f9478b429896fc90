-- ===== src/Shard/CoreConnection/Order.antt =====
-- What the core is sent over all its connections (backend/telemetry_shard/src/connection.rs), beside what
-- the aggregator put in.
use substation.Prelude.{
  sym, subst, Bool, true, false, List, [], ◌∷◌, ◌++◌, append_assoc, append-nil, either,
}
use substation.Shard.CoreConnection.{
  Message, connected, disconnected, received, Phase, connecting, forwarding, sleeping, ended, Event,
  input, input_closed, output_closed, connect_ok, connect_failed, from_core, undecodable, core_gone,
  write, woken, CoreConnection, new, send, after_connection, write_to_core, take_pending,
  close_input, step_connecting, step_forwarding, step_sleeping, step_task, step, run,
}

-- The first list is the second with some items left out.
pub data Within {A : Type 0} : List A → List A → Type 0 where
  nothing : Within [] []
  kept : (x : A) {xs ys : List A} → Within xs ys → Within (x ∷ xs) (x ∷ ys)
  left_out : (y : A) {xs ys : List A} → Within xs ys → Within xs (y ∷ ys)

module _ {A : Type 0} where
  Within-snoc : (x : A) {xs ys : List A} → Within xs ys → Within (xs ++ x ∷ []) (ys ++ x ∷ [])
  Within-snoc x nothing = kept x nothing
  Within-snoc x (kept y w) = kept y (Within-snoc x w)
  Within-snoc x (left_out y w) = left_out y (Within-snoc x w)

  Within-refl : (xs : List A) → Within xs xs
  Within-refl [] = nothing
  Within-refl (x ∷ xs) = kept x (Within-refl xs)

  Within-trans : {ys zs : List A} → Within ys zs → {xs : List A} → Within xs ys → Within xs zs
  Within-trans nothing v = v
  Within-trans (left_out z w) v = left_out z (Within-trans w v)
  Within-trans (kept y w) (kept x v) = kept x (Within-trans w v)
  Within-trans (kept z w) (left_out y v) = left_out y (Within-trans w v)

  pub Within-append : (zs : List A) {xs ys : List A} → Within xs ys → Within (xs ++ zs) (ys ++ zs)
  Within-append zs nothing = Within-refl zs
  Within-append zs (kept x w) = kept x (Within-append zs w)
  Within-append zs (left_out y w) = left_out y (Within-append zs w)

  Within-without : (ws : List A) (x : A) (xs : List A) → Within (ws ++ xs) (ws ++ x ∷ xs)
  Within-without [] x xs = left_out x (Within-refl xs)
  Within-without (v ∷ ws) x xs = kept v (Within-without ws x xs)

  Within-lose :
      (ws : List A) (x : A) (xs ys : List A) → Within (ws ++ x ∷ xs) ys → Within (ws ++ xs) ys
  Within-lose ws x xs ys w = Within-trans w (Within-without ws x xs)

  Within-lose_all : (ws xs ys : List A) → Within (ws ++ xs) ys → Within (ws ++ []) ys
  Within-lose_all ws [] ys w = w
  Within-lose_all ws (x ∷ xs) ys w = Within-lose_all ws xs ys (Within-lose ws x xs ys w)

-- What the aggregator puts in.
unfoldable pub inputs : {In Out : Type 0} → List (Event In Out) → List In
inputs [] = []
inputs (input m ∷ events) = m ∷ inputs events
inputs (event ∷ events) = inputs events

module _ {In Out : Type 0} where
  -- What was written and what waits stands in a list in that order.
  abbrev pub InOrder : List In → CoreConnection In Out → Type 0
  InOrder ms c = Within (c.written ++ c.pending) ms

  send-InOrder :
      (ms : List In) (c : CoreConnection In Out) (m : Message Out) (phase : Phase)
      → InOrder ms c
      → InOrder ms (send c m phase)
  unfolding send
  send-InOrder ms c m phase w = either (InOrder ms) c.listening w w

  after_connection-InOrder :
      (ms : List In) (c : CoreConnection In Out) → InOrder ms c → InOrder ms (after_connection c)
  unfolding after_connection
  after_connection-InOrder ms c w =
      either (InOrder ms) c.is_connected
        (send-InOrder ms (record c { is_connected = false }) disconnected sleeping w) w

  take_pending-InOrder :
      (ms : List In) (c : CoreConnection In Out) (waiting : List In) (ok : Bool)
      → let d : CoreConnection In Out = record c { pending = waiting } in
        InOrder ms d → InOrder ms (take_pending d ok)
  unfolding take_pending write_to_core
  take_pending-InOrder ms c [] ok w = w
  take_pending-InOrder ms c (m ∷ rest) true w =
      subst (λ l. Within l ms) (sym (append_assoc c.written (m ∷ []) rest)) w
  take_pending-InOrder ms c (m ∷ rest) false w =
      after_connection-InOrder ms (record c { pending = rest }) (Within-lose c.written m rest ms w)

  close_input-InOrder :
      (ms : List In) (c : CoreConnection In Out) (waiting : List In)
      → let d : CoreConnection In Out = record c { pending = waiting } in
        InOrder ms d → InOrder ms (close_input d)
  unfolding close_input
  close_input-InOrder ms c [] w = w
  close_input-InOrder ms c (m ∷ rest) w = w

  task-InOrder :
      (ms : List In) (c : CoreConnection In Out) (p : Phase) (event : Event In Out)
      → let d : CoreConnection In Out = record c { phase = p } in
        InOrder ms d → InOrder ms (step_task d event)
  unfolding step_task step_connecting step_forwarding step_sleeping
  task-InOrder ms c ended event w = w
  task-InOrder ms c connecting connect_ok w =
      send-InOrder ms (record c { phase = connecting; is_connected = true }) connected forwarding w
  task-InOrder ms c connecting connect_failed w =
      after_connection-InOrder ms (record c { phase = connecting }) w
  task-InOrder ms c connecting (input m) w = w
  task-InOrder ms c connecting input_closed w = w
  task-InOrder ms c connecting output_closed w = w
  task-InOrder ms c connecting (from_core m) w = w
  task-InOrder ms c connecting undecodable w = w
  task-InOrder ms c connecting core_gone w = w
  task-InOrder ms c connecting (write ok) w = w
  task-InOrder ms c connecting woken w = w
  task-InOrder ms c forwarding (from_core m) w =
      send-InOrder ms (record c { phase = forwarding }) (received m) forwarding w
  task-InOrder ms c forwarding undecodable w = w
  task-InOrder ms c forwarding core_gone w =
      after_connection-InOrder ms (record c { phase = forwarding }) w
  task-InOrder ms c forwarding (write ok) w =
      take_pending-InOrder ms (record c { phase = forwarding }) c.pending ok w
  task-InOrder ms c forwarding input_closed w =
      close_input-InOrder ms (record c { phase = forwarding }) c.pending w
  task-InOrder ms c forwarding (input m) w = w
  task-InOrder ms c forwarding output_closed w = w
  task-InOrder ms c forwarding connect_ok w = w
  task-InOrder ms c forwarding connect_failed w = w
  task-InOrder ms c forwarding woken w = w
  task-InOrder ms c sleeping woken w = Within-lose_all c.written c.pending ms w
  task-InOrder ms c sleeping connect_ok w = w
  task-InOrder ms c sleeping connect_failed w = w
  task-InOrder ms c sleeping (input m) w = w
  task-InOrder ms c sleeping input_closed w = w
  task-InOrder ms c sleeping output_closed w = w
  task-InOrder ms c sleeping (from_core m) w = w
  task-InOrder ms c sleeping undecodable w = w
  task-InOrder ms c sleeping core_gone w = w
  task-InOrder ms c sleeping (write ok) w = w

  run-InOrder_from :
      (ms : List In) (c : CoreConnection In Out) (events : List (Event In Out))
      → InOrder ms c
      → InOrder (ms ++ inputs events) (run c events)
  unfolding run step inputs
  run-InOrder_from ms c [] w = subst (λ l. InOrder l c) (sym (append-nil ms)) w
  run-InOrder_from ms c (input m ∷ events) w =
      let d : CoreConnection In Out = record c { pending = c.pending ++ m ∷ [] } in
      let more : InOrder (ms ++ m ∷ []) d =
        subst (λ l. Within l (ms ++ m ∷ [])) (append_assoc c.written c.pending (m ∷ []))
          (Within-snoc m w) in
      subst (λ l. InOrder l (run d events)) (append_assoc ms (m ∷ []) (inputs events))
        (run-InOrder_from (ms ++ m ∷ []) d events more)
  run-InOrder_from ms c (output_closed ∷ events) w =
      run-InOrder_from ms (record c { listening = false }) events w
  run-InOrder_from ms c (input_closed ∷ events) w =
      run-InOrder_from ms (step_task c input_closed) events
        (task-InOrder ms c c.phase input_closed w)
  run-InOrder_from ms c (connect_ok ∷ events) w =
      run-InOrder_from ms (step_task c connect_ok) events (task-InOrder ms c c.phase connect_ok w)
  run-InOrder_from ms c (connect_failed ∷ events) w =
      run-InOrder_from ms (step_task c connect_failed) events
        (task-InOrder ms c c.phase connect_failed w)
  run-InOrder_from ms c (from_core m ∷ events) w =
      run-InOrder_from ms (step_task c (from_core m)) events
        (task-InOrder ms c c.phase (from_core m) w)
  run-InOrder_from ms c (undecodable ∷ events) w =
      run-InOrder_from ms (step_task c undecodable) events (task-InOrder ms c c.phase undecodable w)
  run-InOrder_from ms c (core_gone ∷ events) w =
      run-InOrder_from ms (step_task c core_gone) events (task-InOrder ms c c.phase core_gone w)
  run-InOrder_from ms c (write ok ∷ events) w =
      run-InOrder_from ms (step_task c (write ok)) events (task-InOrder ms c c.phase (write ok) w)
  run-InOrder_from ms c (woken ∷ events) w =
      run-InOrder_from ms (step_task c woken) events (task-InOrder ms c c.phase woken w)

  -- What was written, and then what still waits, are messages that were put in, in their order and each
  -- at most once.
  pub written_lem :
      (events : List (Event In Out))
      → Within ((run new events).written ++ (run new events).pending) (inputs events)
  unfolding new
  written_lem events = run-InOrder_from [] new events nothing
