-- ===== src/Shard/Connection/Run.antt =====
-- Whole runs of a connection's loop, `handle_node_websocket_connection` of
-- backend/telemetry_shard/src/main.rs.
use substation.Prelude.{
  either, inl, inr, ℕ, ◌+◌, ◌/◌, ◌≤◌, ◌≡◌, refl, sym, subst, ap, ◌∙◌, Bool, true, false, not, ◌&&◌,
  List, [], ◌∷◌, Option, none, some, length, ltb, if◌then◌else◌, nat_key, arith, Bool-cases,
}
use substation.Prelude.HashMap.{
  HashMap, get-insert, get-remove, length-insert, length-remove, Distinct, insert-Distinct,
  remove-Distinct,
}
use substation.Prelude.HashMap
use substation.Common.RollingTotal
use substation.Common.Types.{NodeMessage, Payload, message_id, into_payload, system_connected}
use substation.Shard.BlockedAddrs.{BlockedAddrs, block_addr}
use substation.Shard.Connection.{
  Limits, Connection, Event, tick, received, no_more_messages, new, stale_ids, remove_stale,
  handle_tick, is_nil, handle_payload, handle_parsed, handle_received, handle_event, run,
}
use substation.Shard.Connection.Laws.{
  IsValid, new-IsValid, add-IsValid, update-IsValid, remove_stale_lem, Removed, aged, is_some,
  track, orderly,
}
use substation.Shard.BlockedAddrs
use substation.Shard.BlockedAddrs.{ip_key}

stop-IsValid :
    (limits : Limits) (c : Connection)
    → IsValid limits c
    → IsValid limits (record c { running = false })
stop-IsValid limits c v = record {
  within = v.within;
  distinct = v.distinct;
  agrees = λ j. record { same = (v.agrees j).same; order = (v.agrees j).order };
}

removed :
    (limits : Limits) (now : ℕ) (c : Connection)
    → IsValid limits c
    → Removed limits now limits.stale_node_timeout c.allowed_message_ids c
        (remove_stale c (stale_ids now limits.stale_node_timeout c.allowed_message_ids))
removed limits now c v =
    remove_stale_lem limits now limits.stale_node_timeout c.allowed_message_ids c v.distinct
      (λ j t e. e) v

-- In a valid connection an id goes at a tick exactly if it was not heard of for longer than the
-- timeout.
pub handle_tick_lem :
    (limits : Limits) (now : ℕ) (c : Connection) (j : ℕ)
    → IsValid limits c
    → HashMap.get j (handle_tick limits now c).allowed_message_ids ≡ (
        if aged now limits.stale_node_timeout (HashMap.get j c.allowed_message_ids)
        then none
        else HashMap.get j c.allowed_message_ids)
unfolding handle_tick
handle_tick_lem limits now c j v = ground (arith, (removed limits now c v).left j)

tick-IsValid :
    (limits : Limits) (now : ℕ) (c : Connection)
    → IsValid limits c
    → IsValid limits (handle_tick limits now c)
unfolding handle_tick
tick-IsValid limits now c v =
    let ids = stale_ids now limits.stale_node_timeout c.allowed_message_ids in
    let d = remove_stale c ids in
    let w = (removed limits now c v).valid in
    elim (Bool-cases (not (is_nil ids) && is_nil d.allowed_message_ids)) [
      | inl e ↦ rw (e, handle_tick) (stop-IsValid limits d w)
      | inr e ↦ rw (e, handle_tick) w
    ]

payload-IsValid :
    (limits : Limits) (now : ℕ) (c : Connection) (id : ℕ) (p : Payload)
    → IsValid limits c
    → IsValid limits (handle_payload limits now c id p)
unfolding handle_payload
payload-IsValid limits now c id (system_connected info) v = add-IsValid limits now c id info v
payload-IsValid limits now c id p v = update-IsValid limits now c id p v

parsed-IsValid :
    (limits : Limits) (now : ℕ) (c : Connection) (m : Option NodeMessage)
    → IsValid limits c
    → IsValid limits (handle_parsed limits now c m)
unfolding handle_parsed
parsed-IsValid limits now c none v = v
parsed-IsValid limits now c (some m) v =
    payload-IsValid limits now c (message_id m) (into_payload m) v

-- The state with which a message is handled: its bytes are counted, and the rest is as it was.
Same-IsValid :
    (limits : Limits) (c d : Connection)
    → d.allowed_message_ids ≡ c.allowed_message_ids
    → d.sent ≡ c.sent
    → IsValid limits c
    → IsValid limits d
Same-IsValid limits c d e f v = record {
  within = ground (arith, v.within);
  distinct = subst (λ m. Distinct m) (sym e) v.distinct;
  agrees = λ j. record {
    same = ground (arith, (v.agrees j).same);
    order = ground (arith, (v.agrees j).order);
  };
}

-- Too many bytes in the window, this message's included.
abbrev pub floods : Limits → ℕ → Connection → ℕ → Bool
floods limits now c bytes =
    ltb limits.bytes_per_second ((RollingTotal.push c.rolling_total_bytes now bytes).total / 10)

received-IsValid :
    (limits : Limits) (now : ℕ) (c : Connection) (bytes : ℕ) (m : Option NodeMessage)
    → IsValid limits c
    → IsValid limits (handle_received limits now c bytes m)
unfolding handle_received
received-IsValid limits now c bytes m v = elim (Bool-cases (floods limits now c bytes)) [
  | inl e ↦ rw (e, handle_received) (Same-IsValid limits c _ refl refl v)
  | inr e ↦
      rw (e, handle_received)
        (parsed-IsValid limits now
          (record c { rolling_total_bytes = RollingTotal.push c.rolling_total_bytes now bytes }) m
          (Same-IsValid limits c _ refl refl v))
]

pub handle_event-IsValid :
    (limits : Limits) (c : Connection) (e : ℕ × Event)
    → IsValid limits c
    → IsValid limits (handle_event limits c e)
unfolding handle_event
handle_event-IsValid limits c (now, tick) v =
    either (λ d. IsValid limits d) c.running (tick-IsValid limits now c v) v
handle_event-IsValid limits c (now, received bytes m) v =
    either (λ d. IsValid limits d) c.running (received-IsValid limits now c bytes m v) v
handle_event-IsValid limits c (now, no_more_messages) v = stop-IsValid limits c v

pub run-IsValid :
    (limits : Limits) (c : Connection) (es : List (ℕ × Event))
    → IsValid limits c
    → IsValid limits (run limits c es)
unfolding run
run-IsValid limits c [] v = v
run-IsValid limits c (e ∷ es) v =
    run-IsValid limits (handle_event limits c e) es (handle_event-IsValid limits c e v)

-- Whatever events a connection has from its start, it never has more ids than `max_nodes_per_connection`.
pub run-within :
    (limits : Limits) (now : ℕ) (b : BlockedAddrs) (closer : ℕ) (es : List (ℕ × Event))
    → length (run limits (new now b closer) es).allowed_message_ids
      ≤ limits.max_nodes_per_connection
run-within limits now b closer es =
    (run-IsValid limits (new now b closer) es (new-IsValid limits now b closer)).within

-- Whatever events a connection has from its start, it sends the aggregator an update or a removal only
-- for an id that it added and has not removed since, and has an id exactly while that is so.
pub run-orderly :
    (limits : Limits) (now : ℕ) (b : BlockedAddrs) (closer : ℕ) (es : List (ℕ × Event)) (id : ℕ)
    → let c = run limits (new now b closer) es in
      (orderly id false c.sent ≡ true)
      × (track id false c.sent ≡ is_some (HashMap.get id c.allowed_message_ids))
run-orderly limits now b closer es id =
    let v =
      (run-IsValid limits (new now b closer) es (new-IsValid limits now b closer)).agrees id in
    (v.order, v.same)

handle_event-ended :
    (limits : Limits) (c : Connection) (e : ℕ × Event)
    → c.running ≡ false
    → handle_event limits c e ≡ c
unfolding handle_event
handle_event-ended limits c (now, tick) e = ap (λ b. if b then handle_tick limits now c else c) e
handle_event-ended limits c (now, received bytes m) e =
    ap (λ b. if b then handle_received limits now c bytes m else c) e
handle_event-ended limits c (now, no_more_messages) e = ap (λ b. record c { running = b }) (sym e)

-- A loop that has ended stays as it is.
run-ended :
    (limits : Limits) (c : Connection) (es : List (ℕ × Event))
    → c.running ≡ false
    → run limits c es ≡ c
unfolding run
run-ended limits c [] e = refl
run-ended limits c (x ∷ es) e =
    ap (λ d. run limits d es) (handle_event-ended limits c x e) ∙ run-ended limits c es e

-- In a loop that runs, a message that brings the traffic of the window over the limit ends the
-- loop: no event after it is heard, nothing more is sent to the aggregator, and the address is
-- blocked until the block's duration is over.
pub flood_lem :
    (limits : Limits) (c : Connection) (now bytes later : ℕ) (m : Option NodeMessage)
    (es : List (ℕ × Event))
    → c.running ≡ true
    → floods limits now c bytes ≡ true
    → later ≤ now + c.block_list.block_duration
    → let d = run limits c ((now, received bytes m) ∷ es) in
      (d.running ≡ false)
      × (d.sent ≡ c.sent)
      × ((BlockedAddrs.blocked_reason d.block_list later limits.real_addr).1
          ≡ some "Too much traffic")
unfolding run handle_event handle_received BlockedAddrs.blocked_reason block_addr
flood_lem limits c now bytes later m es r f l =
    let d = record c {
      rolling_total_bytes = RollingTotal.push c.rolling_total_bytes now bytes;
      block_list = block_addr c.block_list now limits.real_addr "Too much traffic";
      running = false;
    } in
    let step : handle_event limits c (now, received bytes m) ≡ d =
      ap (λ b. if b then handle_received limits now c bytes m else c) r
      ∙ ap
          (λ b.
            if b
            then d
            else handle_parsed limits now
                (record c {
                  rolling_total_bytes = RollingTotal.push c.rolling_total_bytes now bytes;
                })
                m)
          f in
    let ends : run limits c ((now, received bytes m) ∷ es) ≡ d =
      ap (λ x. run limits x es) step ∙ run-ended limits d es refl in
    subst
      (λ x.
        (x.running ≡ false)
        × (x.sent ≡ c.sent)
        × ((BlockedAddrs.blocked_reason x.block_list later limits.real_addr).1
            ≡ some "Too much traffic"))
      (sym ends)
      (
        refl,
        refl,
        ground (
          arith,
          get-insert limits.real_addr limits.real_addr ("Too much traffic", now) c.block_list.inner,
        ),
      )
