-- ===== src/Shard/Aggregator/CoreView.antt =====
-- What the core hears of a shard's local ids (backend/telemetry_shard/src/aggregator.rs), between one
-- connection to the core and the next.
use substation.Prelude.{
  either, inl, inr, ℕ, ◌≡◌, refl, sym, ap, ◌∙◌, Bool, true, false, ◌&&◌, List, [], ◌∷◌, ◌++◌,
  append_assoc, append-nil, none, some, nat_key, ◌==◌, arith, ite, ◌≟◌, Bool-cases, Option-cases,
}
use substation.Prelude.HashMap.{HashMap, Distinct}
use substation.Prelude.HashMap
use substation.Prelude.HashSet
use substation.Common.AssignId
use substation.Common.AssignId.{AssignId}
use substation.Common.BiMap.{BiMap}
use substation.Common.Types.{add_node, update_node, remove_node, mute, Payload}
use substation.Shard.Aggregator.{
  Aggregator, ConnId, MessageKey, message_key, Sent, to_core, ToAggregator, FromWebsocket,
  initialize, add, update, remove, disconnected, from_websocket, connected_to_telemetry_core,
  disconnected_from_telemetry_core, from_telemetry_core, forward_update, handle_messages, handle,
  handle_from_websocket, remove_local, remove_locals, ids_of_conn, send,
}
use substation.Shard.Aggregator.Trace.{next, proper, track, orderly, track-snoc, orderly-snoc}

-- A message that is not the core's return.
abbrev pub same_core : ToAggregator → Bool
same_core connected_to_telemetry_core = false
same_core _ = true

unfoldable pub all_same_core : List ToAggregator → Bool
all_same_core [] = true
all_same_core (m ∷ ms) = same_core m && all_same_core ms

none_lem : {key : MessageKey} → none ≡ some key → ⊥
none_lem e = cc

module _ (B : BiMap ℕ MessageKey) where
  pub record View (out : List Sent) (a : Aggregator B) (id : ℕ) : Type 0 where
    pub order : orderly id false out ≡ true
    pub known :
        (key : MessageKey)
        → AssignId.get_details B a.to_local_id id ≡ some key
        → track id false out ≡ true

  -- What was sent since `base` is orderly, and an id that has details stands for a node.
  pub record Agrees (base : List Sent) (a : Aggregator B) : Type 0 where
    pub out : List Sent
    pub is : a.sent ≡ base ++ out
    pub view : (id : ℕ) → View out a id

  same-Agrees :
      (base : List Sent) (a b : Aggregator B)
      → b.sent ≡ a.sent
      → b.to_local_id ≡ a.to_local_id
      → Agrees base a
      → Agrees base b
  same-Agrees base a b e f v = record {
    out = v.out;
    is = e ∙ v.is;
    view = λ id. record {
      order = (v.view id).order;
      known = λ key h. (v.view id).known key (ap (λ m. AssignId.get_details B m id) (sym f) ∙ h);
    };
  }

  snoc :
      (base : List Sent) (a : Aggregator B) (m : Sent) (v : Agrees base a)
      → (a.sent ++ m ∷ []) ≡ base ++ (v.out ++ m ∷ [])
  snoc base a m v = ap (λ s. s ++ m ∷ []) v.is ∙ append_assoc base v.out (m ∷ [])

  remove_local-Agrees :
      (base : List Sent) (a : Aggregator B) (i : ℕ) (key : MessageKey)
      → AssignId.get_details B a.to_local_id i ≡ some key
      → Agrees base a
      → Agrees base (remove_local B a i)
  unfolding remove_local send next proper AssignId.get_details AssignId.remove_by_id
  remove_local-Agrees base a i key e v =
      let m = to_core (remove_node i) in
      record {
        out = v.out ++ m ∷ [];
        is = snoc base a m v;
        view = λ id. record {
          order =
              ground
                (arith, orderly-snoc id false v.out m, (v.view id).order, (v.view id).known key);
          known = λ k h. ground (
            arith,
            track-snoc id false v.out m,
            (v.view id).known k,
            B.left-remove_by_left i id a.to_local_id.mapping,
          );
        };
      }

  -- The local ids of a connection, out of a part of the pairs.
  remove_locals-Agrees :
      (base : List Sent) (a : Aggregator B) (conn_id : ConnId) (pairs : List (ℕ × MessageKey))
      → Distinct pairs
      → ((j : ℕ) (key : MessageKey)
          → HashMap.get j pairs ≡ some key
          → AssignId.get_details B a.to_local_id j ≡ some key)
      → Agrees base a
      → Agrees base (remove_locals B a (ids_of_conn conn_id pairs))
  unfolding remove_locals ids_of_conn HashMap.get
  remove_locals-Agrees base a conn_id [] d w v = v
  remove_locals-Agrees base a conn_id ((i, (this, n)) ∷ pairs) d w v =
      let here : AssignId.get_details B a.to_local_id i ≡ some (this, n) =
        w i (this, n) (ground arith) in
      elim (Bool-cases (conn_id == this)) [
        | inl e ↦ rw e (
            remove_locals-Agrees base (remove_local B a i) conn_id pairs d.1
              (λ j key f.
                unfold remove_local send AssignId.get_details AssignId.remove_by_id in
                ground (arith, B.left-remove_by_left i j a.to_local_id.mapping, d.0, w j key))
              (remove_local-Agrees base a i (this, n) here v))
        | inr e ↦ rw e (
            remove_locals-Agrees base a conn_id pairs d.1 (λ j key f. w j key (ground (arith, d.0)))
              v)
      ]

  add-Agrees :
      (base : List Sent) (a : Aggregator B) (key : MessageKey) (m : Sent) (i : ℕ)
      → (AssignId.assign_id B a.to_local_id key).1 ≡ i
      → ((id : ℕ) (live : Bool)
          → (next id live m ≡ ite (i ≟ id) true live) × (proper id live m ≡ true))
      → Agrees base a
      → Agrees base
          (send B (record a { to_local_id = (AssignId.assign_id B a.to_local_id key).0 }) m)
  unfolding send AssignId.get_details AssignId.assign_id
  add-Agrees base a key m i is n v = record {
    out = v.out ++ m ∷ [];
    is = snoc base a m v;
    view = λ id. record {
      order = ground (
        arith,
        orderly-snoc id false v.out m,
        (v.view id).order,
        (n id (track id false v.out)).1,
      );
      known = λ k h. ground (
        arith,
        track-snoc id false v.out m,
        (v.view id).known k,
        (n id (track id false v.out)).0,
        B.left-insert a.to_local_id.current_id id key a.to_local_id.mapping,
      );
    };
  }

  update-Agrees :
      (base : List Sent) (a : Aggregator B) (key : MessageKey) (p : Payload)
      → Agrees base a
      → Agrees base (forward_update B a (AssignId.get_id B a.to_local_id key) p)
  unfolding send AssignId.get_details AssignId.get_id forward_update next proper
  update-Agrees base a key p v = elim (Option-cases (B.get_by_right key a.to_local_id.mapping)) [
    | inl e ↦ rw (e, forward_update) v
    | inr (i, e) ↦ elim (Bool-cases (HashSet.contains i a.muted)) [
      | inl f ↦ rw (e, forward_update, f) v
      | inr f ↦
          let m = to_core (update_node i p) in
          let at = (B.inverse i key a.to_local_id.mapping).1 e in
          rw (e, forward_update, f)
            (record {
              out = v.out ++ m ∷ [];
              is = snoc base a m v;
              view = λ id. record {
                order = ground (
                  arith,
                  orderly-snoc id false v.out m,
                  (v.view id).order,
                  (v.view id).known key,
                );
                known = λ k h. ground (arith, track-snoc id false v.out m, (v.view id).known k);
              };
            })
    ]
  ]

  websocket-Agrees :
      (base : List Sent) (a : Aggregator B) (conn_id : ConnId) (msg : FromWebsocket)
      → Agrees base a
      → Agrees base (handle_from_websocket B a conn_id msg)
  unfolding handle_from_websocket AssignId.get_id next proper
  websocket-Agrees base a conn_id (initialize k) v = same-Agrees base a _ refl refl v
  websocket-Agrees base a conn_id (add message_id ip node hash) v =
      let (_, i) = AssignId.assign_id B a.to_local_id (conn_id, message_id) in
      either (λ b. Agrees base b) a.connected_to_telemetry_core
        (add-Agrees base a (conn_id, message_id) (to_core (add_node ip node i hash)) i refl
          (λ id live. (refl, refl)) v)
        v
  websocket-Agrees base a conn_id (update message_id p) v =
      either (λ b. Agrees base b) a.connected_to_telemetry_core
        (update-Agrees base a (conn_id, message_id) p v) v
  websocket-Agrees base a conn_id (remove message_id) v =
      elim (Option-cases (B.get_by_right (conn_id, message_id) a.to_local_id.mapping)) [
        | inl e ↦ rw (e, handle_from_websocket) v
        | inr (i, e) ↦
            rw (e, handle_from_websocket)
              (remove_local-Agrees base a i (conn_id, message_id)
                (unfold AssignId.get_details in
                  (B.inverse i (conn_id, message_id) a.to_local_id.mapping).1 e)
                v)
      ]
  websocket-Agrees base a conn_id disconnected v =
      let b : Aggregator B = record a {
        close_connections = HashMap.remove conn_id a.close_connections;
      } in
      remove_locals-Agrees base b conn_id (AssignId.iter B a.to_local_id)
        (unfold AssignId.iter in B.iter-Distinct a.to_local_id.mapping)
        (λ j key f.
          unfold AssignId.get_details AssignId.iter in
          sym (B.left-iter j a.to_local_id.mapping) ∙ f)
        (same-Agrees base a b refl refl v)

  handle-Agrees :
      (base : List Sent) (a : Aggregator B) (m : ToAggregator)
      → same_core m ≡ true
      → Agrees base a
      → Agrees base (handle B a m)
  unfolding handle
  handle-Agrees base a connected_to_telemetry_core h v = cc
  handle-Agrees base a disconnected_from_telemetry_core h v = same-Agrees base a _ refl refl v
  handle-Agrees base a (from_websocket conn_id msg) h v = websocket-Agrees base a conn_id msg v
  handle-Agrees base a (from_telemetry_core (mute local_id reason)) h v =
      same-Agrees base a _ refl refl v

  handle_messages-Agrees :
      (base : List Sent) (a : Aggregator B) (ms : List ToAggregator)
      → all_same_core ms ≡ true
      → Agrees base a
      → Agrees base (handle_messages B a ms)
  unfolding handle_messages all_same_core
  handle_messages-Agrees base a [] h v = v
  handle_messages-Agrees base a (m ∷ ms) h v =
      handle_messages-Agrees base (handle B a m) ms (ground (arith, h))
        (handle-Agrees base a m (ground (arith, h)) v)

  -- From the time that the core is there, for whatever messages come until it is there again: the
  -- core gets an update or a removal only of a local id that it was told to add and not yet to
  -- remove, and every local id that the aggregator knows stands for a node of the core.
  pub core_view_lem :
      (a : Aggregator B) (ms : List ToAggregator)
      → all_same_core ms ≡ true
      → let start = handle B a connected_to_telemetry_core in
        Agrees start.sent (handle_messages B start ms)
  unfolding handle AssignId.get_details AssignId.clear AssignId.new track orderly
  core_view_lem a ms h =
      let start = handle B a connected_to_telemetry_core in
      handle_messages-Agrees start.sent start ms h (record {
        out = [];
        is = sym (append-nil start.sent);
        view = λ id. record {
          order = refl;
          known = λ key e. absurd (none_lem (sym (B.left-empty id) ∙ e));
        };
      })
