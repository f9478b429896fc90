-- ===== src/Tests/Shard.antt =====
-- The theorems of the shard at concrete inputs.
use substation.Prelude.{
  ite, ◌≟◌, ◌≡◌, ◌≤◌, refl, ℕ, true, false, List, [], ◌∷◌, ◌++◌, none, some, length, map, nat_key,
  if◌then◌else◌, arith,
}
use substation.Prelude.HashMap.{HashMap}
use substation.Prelude.HashMap
use substation.Prelude.HashSet
use substation.Common.AssignId
use substation.Common.BiMap.{BiMap}
use substation.Common.RollingTotal
use substation.Common.Types.{
  IpAddr, v4, NodeDetails, v2, system_connected, block_import, remove_node, add_node,
  FromShardAggregator, FromTelemetryCore, mute, overquota,
}
use substation.Shard.Aggregator.{
  Aggregator, MessageKey, message_key, Sent, to_core, close, ToAggregator, FromWebsocket,
  initialize, add, update, remove, disconnected, from_websocket, connected_to_telemetry_core,
  disconnected_from_telemetry_core, handle, handle_messages, from_telemetry_core, ids_of_conn,
}
use substation.Shard.Aggregator as Loop
use substation.Shard.Aggregator.Laws as AggregatorLaws
use substation.Shard.Aggregator.CoreView
use substation.Shard.BlockedAddrs
use substation.Shard.BlockedAddrs.{ip_key}
use substation.Shard.BlockedAddrs.Laws as BlockedLaws
use substation.Shard.BlockedAddrs.{BlockedAddrs}
use substation.Shard.Connection.{
  Limits, Connection, Event, tick, received, no_more_messages, run, handle_tick,
}
use substation.Shard.Connection
use substation.Shard.Connection.Laws as ConnectionLaws
use substation.Shard.Connection.Run
use substation.Shard.CoreConnection as Link
use substation.Shard.CoreConnection.Session
use substation.Shard.CoreConnection.Order
use substation.Shard.CoreConnection.Delivery
use substation.Shard.CoreConnection.Linked
use substation.Tests.PairList.{pair_list}

abbrev details : NodeDetails
details = record {
  chain = "Local";
  name = "alice";
  implementation = "substrate";
  version = "1";
  validator = none;
  network_id = "12D3";
  startup_time = none;
  target_os = none;
  target_arch = none;
  target_env = none;
  sysinfo = none;
}

abbrev alice : IpAddr
alice = v4 2_130_706_433

-- The aggregator with the core there and one node, of connection 1.
abbrev pairs : BiMap ℕ MessageKey
pairs = pair_list

abbrev one_node : Aggregator pairs
one_node = handle_messages pairs (Loop.new pairs) (
    connected_to_telemetry_core
    ∷ from_websocket 1 (initialize 7)
    ∷ from_websocket 1 (add 3 alice details 0xabc)
    ∷ [])

disconnect_example :
    let b = handle pairs one_node (from_websocket 1 disconnected) in
    let ids = ids_of_conn 1 (AssignId.iter pairs one_node.to_local_id) in
    (b.sent ≡ one_node.sent ++ map (λ i. to_core (remove_node i)) ids)
    × (HashSet.contains 0 ids
        ≡ AggregatorLaws.of_conn 1 (AssignId.get_details pairs one_node.to_local_id 0))
    × (AssignId.get_details pairs b.to_local_id 0 ≡ (
        if AggregatorLaws.of_conn 1 (AssignId.get_details pairs one_node.to_local_id 0)
        then none
        else AssignId.get_details pairs one_node.to_local_id 0))
    × (HashMap.get 1 b.close_connections ≡ none)
disconnect_example = AggregatorLaws.disconnect_lem pairs one_node 1 0

reconnect_example :
    let b = handle pairs one_node connected_to_telemetry_core in
    (b.sent ≡ one_node.sent ++ map (λ e. close e.1) one_node.close_connections)
    × (AssignId.get_details pairs b.to_local_id 0 ≡ none)
    × (HashSet.contains 0 b.muted ≡ false)
    × (b.close_connections ≡ [])
    × (b.connected_to_telemetry_core ≡ true)
reconnect_example = AggregatorLaws.reconnect_lem pairs one_node 0

abbrev later : List ToAggregator
later =
    from_websocket 1 (add 3 alice details 0xabc)
    ∷ from_websocket 1 (update 3 (block_import (record { hash = 0x1; height = 1 })))
    ∷ from_websocket 1 disconnected
    ∷ []

core_view_example :
    CoreView.Agrees pairs
      (handle pairs one_node connected_to_telemetry_core).sent
      (handle_messages pairs (handle pairs one_node connected_to_telemetry_core) later)
unfolding CoreView.all_same_core
core_view_example = CoreView.core_view_lem pairs one_node later refl

-- Connection 1 adds its id 3 again.
readd_example :
    let b = handle pairs one_node (from_websocket 1 (add 3 alice details 0xabc)) in
    (b.sent
      ≡ one_node.sent
        ++ to_core (add_node alice details one_node.to_local_id.current_id 0xabc) ∷ [])
    × (AssignId.get_id pairs b.to_local_id (1, 3) ≡ some one_node.to_local_id.current_id)
    × (AssignId.get_details pairs b.to_local_id 0 ≡ none)
unfolding Loop.new handle handle_messages Loop.send AssignId.new AssignId.assign_id AssignId.get_id
    AssignId.clear
readd_example =
    AggregatorLaws.readd_lem pairs one_node 1 3 0 alice details 0xabc refl
      ((pairs.inverse 0 (1, 3) (pairs.insert 0 (1, 3) pairs.empty)).0
        (ground (arith, pairs.left-insert 0 0 (1, 3) pairs.empty)))
      (omega arith)

abbrev limits : Limits
limits = record {
  real_addr = alice;
  max_nodes_per_connection = 2;
  bytes_per_second = 1000;
  stale_node_timeout = 60;
}

abbrev blocked : BlockedAddrs
blocked = BlockedAddrs.new 600

abbrev opened : Connection
opened = Connection.new 0 blocked 7

abbrev hello : ℕ → Event
hello id =
    received 100 (some (v2 id (system_connected (record { genesis_hash = 0xabc; node = details }))))

-- Three nodes ask, for which there is room for two; the first is then heard of, and time passes.
abbrev events : List (ℕ × Event)
events =
    (1, hello 1)
    ∷ (2, hello 2)
    ∷ (3, hello 3)
    ∷ (50, received 100 (some (v2 1 (block_import (record { hash = 0x1; height = 1 })))))
    ∷ (90, tick)
    ∷ []

run-within_example : length (run limits opened events).allowed_message_ids ≤ 2
run-within_example = Run.run-within limits 0 blocked 7 events

run-orderly_example :
    let c = run limits opened events in
    (ConnectionLaws.orderly 2 false c.sent ≡ true)
    × (ConnectionLaws.track 2 false c.sent
        ≡ ConnectionLaws.is_some (HashMap.get 2 c.allowed_message_ids))
run-orderly_example = Run.run-orderly limits 0 blocked 7 events 2

abbrev busy : Connection
busy = run limits opened ((1, hello 1) ∷ (2, hello 2) ∷ [])

handle_tick_example : HashMap.get 1 (handle_tick limits 90 busy).allowed_message_ids ≡ (
    if ConnectionLaws.aged 90 60 (HashMap.get 1 busy.allowed_message_ids)
    then none
    else HashMap.get 1 busy.allowed_message_ids)
handle_tick_example = Run.handle_tick_lem limits 90 busy 1 (
    Run.run-IsValid limits opened ((1, hello 1) ∷ (2, hello 2) ∷ [])
      (ConnectionLaws.new-IsValid limits 0 blocked 7))

flood_example :
    let d = run limits opened ((5, received 20_000 none) ∷ events) in
    (d.running ≡ false)
    × (d.sent ≡ opened.sent)
    × ((BlockedAddrs.blocked_reason d.block_list 100 alice).1 ≡ some "Too much traffic")
unfolding Connection.new RollingTotal.push RollingTotal.new_builder RollingTotal.start
    RollingTotal.last_time RollingTotal.add_to_last RollingTotal.saturating_add BlockedAddrs.new
flood_example = Run.flood_lem limits opened 5 20_000 100 none events refl refl (omega arith)

block_example :
    let c = BlockedAddrs.block_addr blocked 10 alice "Too much traffic" in
    let r = BlockedAddrs.blocked_reason c 700 alice in
    (r.1 ≡ none)
    × (HashMap.get alice r.0.inner ≡ none)
    × (HashMap.get (v4 1) r.0.inner
        ≡ ite (alice ≟ v4 1) (HashMap.get alice r.0.inner) (HashMap.get (v4 1) blocked.inner))
unfolding BlockedAddrs.new
block_example = BlockedLaws.block-blocked_lem blocked 10 700 alice (v4 1) "Too much traffic"

-- The core is there, gets a node, goes away with the next message, and comes back.
abbrev link_events : List (Link.Event FromShardAggregator FromTelemetryCore)
link_events =
    Link.connect_failed
    ∷ Link.woken
    ∷ Link.connect_ok
    ∷ Link.input (remove_node 3)
    ∷ Link.input (remove_node 4)
    ∷ Link.write true
    ∷ Link.from_core (mute 3 overquota)
    ∷ Link.write false
    ∷ Link.input (remove_node 5)
    ∷ Link.woken
    ∷ Link.input (remove_node 6)
    ∷ Link.connect_ok
    ∷ Link.write true
    ∷ []

run-Fits_example : Session.Fits (Link.run Link.new link_events)
run-Fits_example = Session.run-Fits link_events

-- In that connection one more is put in, and the websocket takes two.
abbrev healthy_events : List (Link.Event FromShardAggregator FromTelemetryCore)
healthy_events = Link.input (remove_node 7) ∷ Link.write true ∷ Link.input (remove_node 8) ∷ []

delivered_example :
    let c = Link.run Link.new link_events in
    let u = Link.run (Link.run c healthy_events) (Delivery.write_all 1) in
    (u.written ≡ (c.written ++ c.pending) ++ Order.inputs healthy_events)
    × (u.pending ≡ [])
    × Order.Within u.written (Order.inputs link_events ++ Order.inputs healthy_events)
unfolding Link.run Link.step Link.new
delivered_example =
    Delivery.delivered_lem link_events healthy_events 1 refl refl
      (Delivery.puts_in _ (Delivery.writes (Delivery.puts_in _ Delivery.done))) (omega arith)

-- What the aggregator gets of it, with messages of a node between.
abbrev linked_messages : List ToAggregator
linked_messages =
    from_websocket 1 (initialize 7)
    ∷ connected_to_telemetry_core
    ∷ from_websocket 1 (add 1 alice details 0xabc)
    ∷ from_telemetry_core (mute 3 overquota)
    ∷ disconnected_from_telemetry_core
    ∷ from_websocket 1 disconnected
    ∷ connected_to_telemetry_core
    ∷ []

linked_example :
    (handle_messages pairs (Loop.new pairs) linked_messages).connected_to_telemetry_core ≡ true
unfolding Link.run Link.step Link.new Linked.from_link Linked.to_aggregator
linked_example = Linked.linked_lem pairs link_events linked_messages (λ e. cc) refl
