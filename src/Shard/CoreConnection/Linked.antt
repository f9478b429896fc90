-- ===== src/Shard/CoreConnection/Linked.antt =====
-- The aggregator (backend/telemetry_shard/src/aggregator.rs) at the other end of its connection to the
-- core (connection.rs).
use substation.Prelude.{
  ◌≡◌, ◌≢◌, refl, sym, ◌∙◌, ap, Bool, true, false, List, [], ◌∷◌, ◌++◌, map, ℕ, Option, none, some,
  either, nat_key,
}
use substation.Prelude.HashMap
use substation.Prelude.HashMap.{HashMap}
use substation.Prelude.HashSet
use substation.Common.AssignId
use substation.Common.BiMap.{BiMap}
use substation.Common.Types.{FromShardAggregator, FromTelemetryCore, mute}
use substation.Shard.Aggregator.{
  Aggregator, Closer, ConnId, MessageKey, message_key, ToAggregator, FromWebsocket, initialize, add,
  update, remove, disconnected, from_websocket, connected_to_telemetry_core,
  disconnected_from_telemetry_core, from_telemetry_core, handle, handle_messages,
  handle_from_websocket, forward_update, remove_local, remove_locals, send, ids_of_conn, close_all,
}
use substation.Shard.Aggregator as Loop
use substation.Shard.CoreConnection.{Message, Event, run, ended}
use substation.Shard.CoreConnection as Link
use substation.Shard.CoreConnection.Session.{
  Link, start, goes_up, says, goes_down, Fits, alive, over, run-Fits,
}

-- What the task that forwards the messages of the connection makes of one.
unfoldable pub to_aggregator : Message FromTelemetryCore → ToAggregator
to_aggregator Link.connected = connected_to_telemetry_core
to_aggregator Link.disconnected = disconnected_from_telemetry_core
to_aggregator (Link.received m) = from_telemetry_core m

-- The messages that do not come from nodes.
unfoldable pub from_link : List ToAggregator → List ToAggregator
from_link [] = []
from_link (from_websocket conn_id m ∷ ms) = from_link ms
from_link (m ∷ ms) = m ∷ from_link ms

-- Whether the core is there after a message, by what was so before.
heard : Bool → ToAggregator → Bool
heard up connected_to_telemetry_core = true
heard up disconnected_from_telemetry_core = false
heard up _ = up

heard_all : Bool → List ToAggregator → Bool
heard_all up [] = up
heard_all up (m ∷ ms) = heard_all (heard up m) ms

heard_all-snoc :
    (up : Bool) (ms : List ToAggregator) (m : ToAggregator)
    → heard_all up (ms ++ m ∷ []) ≡ heard (heard_all up ms) m
unfolding heard_all
heard_all-snoc up [] m = refl
heard_all-snoc up (k ∷ ms) m = heard_all-snoc (heard up k) ms m

map-snoc :
    (ms : List (Message FromTelemetryCore)) (m : Message FromTelemetryCore)
    → map to_aggregator (ms ++ m ∷ []) ≡ map to_aggregator ms ++ to_aggregator m ∷ []
map-snoc [] m = refl
map-snoc (k ∷ ms) m = ap (λ l. to_aggregator k ∷ l) (map-snoc ms m)

snoc :
    (ms : List (Message FromTelemetryCore)) (m : Message FromTelemetryCore)
    → heard_all false (map to_aggregator (ms ++ m ∷ []))
      ≡ heard (heard_all false (map to_aggregator ms)) (to_aggregator m)
snoc ms m =
    ap (heard_all false) (map-snoc ms m)
    ∙ heard_all-snoc false (map to_aggregator ms) (to_aggregator m)

Link-heard :
    (ms : List (Message FromTelemetryCore)) (up : Bool)
    → Link ms up
    → heard_all false (map to_aggregator ms) ≡ up
unfolding heard_all heard to_aggregator
Link-heard ms up start = refl
Link-heard ms up (goes_up ns l) = snoc ns Link.connected
Link-heard ms up (goes_down ns l) = snoc ns Link.disconnected
Link-heard ms up (says ns m l) = snoc ns (Link.received m) ∙ Link-heard ns true l

module _ (B : BiMap ℕ MessageKey) where
  -- Whether the core is there.
  abbrev there : Aggregator B → Bool
  there a = a.connected_to_telemetry_core

  remove_locals-there : (a : Aggregator B) (ids : List ℕ) → there (remove_locals B a ids) ≡ there a
  unfolding remove_locals remove_local send
  remove_locals-there a [] = refl
  remove_locals-there a (id ∷ ids) = remove_locals-there (remove_local B a id) ids

  websocket-there :
      (a : Aggregator B) (conn_id : ConnId) (m : FromWebsocket)
      → there (handle_from_websocket B a conn_id m) ≡ there a
  unfolding handle_from_websocket forward_update send remove_local
  websocket-there a conn_id (initialize closer) = refl
  websocket-there a conn_id (add id ip node hash) =
      either (λ b. there b ≡ there a) a.connected_to_telemetry_core refl refl
  websocket-there a conn_id (update id payload) =
      either (λ b. there b ≡ there a) a.connected_to_telemetry_core
        (forwarded (AssignId.get_id B a.to_local_id (conn_id, id))) refl
    where
      forwarded : (o : Option ℕ) → there (forward_update B a o payload) ≡ there a
      forwarded none = refl
      forwarded (some i) = either (λ b. there b ≡ there a) (HashSet.contains i a.muted) refl refl
  websocket-there a conn_id (remove id) = removed (AssignId.get_id B a.to_local_id (conn_id, id))
    where
      removed : (o : Option ℕ) → there (elim o [ none ↦ a | some i ↦ remove_local B a i ]) ≡ there a
      removed none = refl
      removed (some i) = refl
  websocket-there a conn_id disconnected =
      remove_locals-there
        (record a { close_connections = HashMap.remove conn_id a.close_connections })
        (ids_of_conn conn_id (AssignId.iter B a.to_local_id))

  heard-there :
      (a : Aggregator B) (ms : List ToAggregator)
      → there (handle_messages B a ms) ≡ heard_all (there a) (from_link ms)
  unfolding handle_messages handle heard_all heard from_link
  heard-there a [] = refl
  heard-there a (from_websocket conn_id m ∷ ms) =
      heard-there (handle_from_websocket B a conn_id m) ms
      ∙ ap (λ up. heard_all up (from_link ms)) (websocket-there a conn_id m)
  heard-there a (connected_to_telemetry_core ∷ ms) =
      heard-there (handle B a connected_to_telemetry_core) ms
  heard-there a (disconnected_from_telemetry_core ∷ ms) =
      heard-there (handle B a disconnected_from_telemetry_core) ms
  heard-there a (from_telemetry_core (mute i reason) ∷ ms) =
      heard-there (handle B a (from_telemetry_core (mute i reason))) ms

  -- Once the aggregator has handled all that its connection to the core said, among any messages of
  -- nodes and in any interleaving with them, and the task of the connection has not ended, it takes
  -- the core to be there exactly when the task is connected.
  pub linked_lem :
      (events : List (Event FromShardAggregator FromTelemetryCore)) (ms : List ToAggregator)
      → (run Link.new events).phase ≢ ended
      → from_link ms ≡ map to_aggregator (run Link.new events).sent
      → (handle_messages B (Loop.new B) ms).connected_to_telemetry_core
        ≡ (run Link.new events).is_connected
  unfolding Loop.new
  linked_lem events ms running e = agree (run-Fits events)
    where
      agree :
          Fits (run Link.new events)
          → there (handle_messages B (Loop.new B) ms) ≡ (run Link.new events).is_connected
      agree (alive same l) =
          heard-there (Loop.new B) ms ∙ ap (heard_all false) e ∙ Link-heard _ _ l ∙ sym same
      agree (over up p l) = absurd (running p)
