-- ===== src/Shard/Aggregator/Laws.antt =====
-- What the shard's aggregator (backend/telemetry_shard/src/aggregator.rs) does with the local ids of a
-- connection that goes, and of all connections when the core comes back.
use substation.Prelude.{
  inl, inr, ℕ, ◌≢◌, ◌≡◌, refl, sym, ap, ◌∙◌, Bool, true, false, List, [], ◌∷◌, ◌++◌, append_assoc,
  append-nil, Option, none, some, nat_key, ◌==◌, if◌then◌else◌, arith, Bool-cases, Option-cases,
  map,
}
use substation.Prelude.HashMap.{HashMap, Distinct}
use substation.Prelude.HashMap
use substation.Prelude.HashSet
use substation.Common.AssignId
use substation.Common.AssignId.{AssignId}
use substation.Common.BiMap.{BiMap}
use substation.Common.Types.{BlockHash, IpAddr, NodeDetails, add_node, remove_node}
use substation.Shard.Aggregator.{
  Aggregator, ConnId, Closer, MessageKey, message_key, to_core, close, add, disconnected,
  from_websocket, connected_to_telemetry_core, handle, handle_from_websocket, remove_local,
  remove_locals, ids_of_conn, send, close_all,
}

-- Whether a local id is of the connection.
abbrev pub of_conn : ConnId → Option MessageKey → Bool
of_conn conn_id none = false
of_conn conn_id (some (this, _)) = conn_id == this

-- The list of a connection's ids has the ids whose details name that connection.
ids_of_conn_lem :
    (conn_id : ConnId) (pairs : List (ℕ × MessageKey)) (j : ℕ)
    → Distinct pairs
    → HashSet.contains j (ids_of_conn conn_id pairs) ≡ of_conn conn_id (HashMap.get j pairs)
unfolding ids_of_conn HashMap.get HashSet.contains
ids_of_conn_lem conn_id [] j d = refl
ids_of_conn_lem conn_id ((i, (this, m)) ∷ pairs) j d =
    ground (arith, ids_of_conn_lem conn_id pairs j d.1, d.0)

-- A message of the connection does not belong to what is kept of other connections.
gone_lem : (c m : ℕ) (o : Option MessageKey) → some (c, m) ≡ (if of_conn c o then none else o) → ⊥
gone_lem c m none h = cc
gone_lem c m (some (d, n)) h = elim (Bool-cases (c == d)) [
  | inl e ↦ ground (arith, rw e at h)
  | inr e ↦
      let f : some (c, m) ≡ some (d, n) = rw e at h in
      let g : c ≡ d = ap (λ o. elim o [ none ↦ c | some k ↦ k.0 ]) f in ground (arith, g)
]

module _ (B : BiMap ℕ MessageKey) where
  -- The removal of several local ids.
  remove_locals_lem :
      (a : Aggregator B) (ids : List ℕ) (j : ℕ)
      → let b = remove_locals B a ids in
        (AssignId.get_details B b.to_local_id j
          ≡ (if HashSet.contains j ids then none else AssignId.get_details B a.to_local_id j))
        × (b.sent ≡ a.sent ++ map (λ i. to_core (remove_node i)) ids)
        × (b.close_connections ≡ a.close_connections)
        × (b.connected_to_telemetry_core ≡ a.connected_to_telemetry_core)
  unfolding remove_locals remove_local send HashSet.contains AssignId.get_details
      AssignId.remove_by_id
  remove_locals_lem a [] j = (refl, sym (append-nil a.sent), refl, refl)
  remove_locals_lem a (i ∷ ids) j =
      let (g, s, c, t) = remove_locals_lem (remove_local B a i) ids j in
      (
        ground (arith, g, B.left-remove_by_left i j a.to_local_id.mapping),
        s
            ∙ append_assoc a.sent (to_core (remove_node i) ∷ [])
                (map (λ i. to_core (remove_node i)) ids),
        c,
        t,
      )

  -- When a connection goes, the core is told to remove exactly the local ids of that connection; the
  -- aggregator forgets those, keeps every other, and forgets how to close the connection.
  pub disconnect_lem :
      (a : Aggregator B) (conn_id : ConnId) (j : ℕ)
      → let b = handle B a (from_websocket conn_id disconnected) in
        let ids = ids_of_conn conn_id (AssignId.iter B a.to_local_id) in
        (b.sent ≡ a.sent ++ map (λ i. to_core (remove_node i)) ids)
        × (HashSet.contains j ids ≡ of_conn conn_id (AssignId.get_details B a.to_local_id j))
        × (AssignId.get_details B b.to_local_id j ≡ (
            if of_conn conn_id (AssignId.get_details B a.to_local_id j)
            then none
            else AssignId.get_details B a.to_local_id j))
        × (HashMap.get conn_id b.close_connections ≡ none)
  unfolding handle handle_from_websocket AssignId.get_details AssignId.iter
  disconnect_lem a conn_id j =
      let pairs = B.iter a.to_local_id.mapping in
      let ids = ids_of_conn conn_id pairs in
      let start : Aggregator B = record a {
        close_connections = HashMap.remove conn_id a.close_connections;
      } in
      let (g, s, c, t) = remove_locals_lem start ids j in
      let who : HashSet.contains j ids ≡ of_conn conn_id (B.get_by_left j a.to_local_id.mapping) =
        ids_of_conn_lem conn_id pairs j (B.iter-Distinct a.to_local_id.mapping)
        ∙ ap (λ o. of_conn conn_id o) (B.left-iter j a.to_local_id.mapping) in
      (
        s,
        who,
        g ∙ ap (λ t. if t then none else B.get_by_left j a.to_local_id.mapping) who,
        ap (λ m. HashMap.get conn_id m) c
            ∙ ground (arith, HashMap.get-remove conn_id conn_id a.close_connections),
      )

  -- After a connection has gone no message of that connection finds a local id.
  disconnect-get_id :
      (a : Aggregator B) (conn_id : ConnId) (message_id : ℕ)
      → AssignId.get_id B
          (handle B a (from_websocket conn_id disconnected)).to_local_id
          (conn_id, message_id)
        ≡ none
  unfolding AssignId.get_id AssignId.get_details
  disconnect-get_id a conn_id message_id =
      let b = handle B a (from_websocket conn_id disconnected) in
      elim (Option-cases (B.get_by_right (conn_id, message_id) b.to_local_id.mapping)) [
        | inl e ↦ e
        | inr (j, e) ↦
            let there = (B.inverse j (conn_id, message_id) b.to_local_id.mapping).1 e in
            let (_, _, gone, _) = disconnect_lem a conn_id j in
            absurd (
              gone_lem conn_id message_id (B.get_by_left j a.to_local_id.mapping)
                (sym there ∙ gone))
      ]

  close_all_lem :
      (a : Aggregator B) (closers : HashMap ConnId Closer)
      → close_all B a closers ≡ record a { sent = a.sent ++ map (λ e. close e.1) closers }
  unfolding close_all send
  close_all_lem a [] = ap (λ s. record a { sent = s }) (sym (append-nil a.sent))
  close_all_lem a ((c, k) ∷ closers) =
      close_all_lem (record a { sent = a.sent ++ close k ∷ [] }) closers
      ∙ ap (λ s. record a { sent = s })
          (append_assoc a.sent (close k ∷ []) (map (λ e. close e.1) closers))

  -- When the core is there again, every connection that is known is closed, in order and once, and
  -- nothing is left of the ids and the mutes of before.
  pub reconnect_lem :
      (a : Aggregator B) (j : ℕ)
      → let b = handle B a connected_to_telemetry_core in
        (b.sent ≡ a.sent ++ map (λ e. close e.1) a.close_connections)
        × (AssignId.get_details B b.to_local_id j ≡ none)
        × (HashSet.contains j b.muted ≡ false)
        × (b.close_connections ≡ [])
        × (b.connected_to_telemetry_core ≡ true)
  unfolding handle AssignId.get_details AssignId.clear AssignId.new HashSet.contains
  reconnect_lem a j =
      (ap (λ x. x.sent) (close_all_lem a a.close_connections), B.left-empty j, refl, refl, refl)

  -- A second `add` for an id that a connection has already, while the core is there: the id gets a new
  -- local id, the old one is known no more, and all that the core hears is the new node.
  pub readd_lem :
      (a : Aggregator B) (conn_id : ConnId) (message_id old : ℕ) (ip : IpAddr) (node : NodeDetails)
      (hash : BlockHash)
      → a.connected_to_telemetry_core ≡ true
      → AssignId.get_id B a.to_local_id (conn_id, message_id) ≡ some old
      → old ≢ a.to_local_id.current_id
      → let b = handle B a (from_websocket conn_id (add message_id ip node hash)) in
        let local_id = a.to_local_id.current_id in
        (b.sent ≡ a.sent ++ to_core (add_node ip node local_id hash) ∷ [])
        × (AssignId.get_id B b.to_local_id (conn_id, message_id) ≡ some local_id)
        × (AssignId.get_details B b.to_local_id old ≡ none)
  unfolding handle handle_from_websocket AssignId.get_id AssignId.get_details AssignId.assign_id
      send
  readd_lem a conn_id message_id old ip node hash c e n =
      let key : MessageKey = (conn_id, message_id) in
      let map = a.to_local_id.mapping in
      let local_id = a.to_local_id.current_id in
      let was : B.get_by_left old map ≡ some key = (B.inverse old key map).1 e in
      rw (c, handle_from_websocket)
        (
          refl,
          (B.inverse local_id key (B.insert local_id key map)).0
              (ground (arith, B.left-insert local_id local_id key map)),
          ground (arith, B.left-insert local_id old key map, was),
        )
