-- ===== src/Shard/Connection/Laws.antt =====
-- What a connection's loop (backend/telemetry_shard/src/main.rs) promises over a whole run: how many
-- ids it has, what the aggregator hears of each, and how flooding ends it.
use substation.Prelude.{
  inl, inr, ℕ, ◌-◌, ◌≤◌, ◌≡◌, refl, Bool, true, false, ◌&&◌, List, [], ◌∷◌, ◌++◌, Option, none,
  some, length, ltb, leb, if◌then◌else◌, nat_key, arith, ite, ◌≟◌, Bool-cases, Option-cases,
}
use substation.Prelude.HashMap.{
  HashMap, get-insert, get-remove, length-insert, length-remove, Distinct, insert-Distinct,
  remove-Distinct,
}
use substation.Prelude.HashMap
use substation.Common.Types.{Payload, SystemConnected}
use substation.Shard.Aggregator.{FromWebsocket, add, update, remove}
use substation.Shard.BlockedAddrs.{BlockedAddrs}
use substation.Shard.Connection.{
  Limits, Connection, new, send, stale_ids, remove_stale, handle_connected, handle_update,
}

-- Whether an id is live after a message, as the aggregator sees it.
unfoldable pub next : ℕ → Bool → FromWebsocket → Bool
next id live (add i _ _ _) = ite (i ≟ id) true live
next id live (remove i) = ite (i ≟ id) false live
next id live _ = live

-- An update or a removal is of an id that is live.
unfoldable pub proper : ℕ → Bool → FromWebsocket → Bool
proper id live (update i _) = ite (i ≟ id) live true
proper id live (remove i) = ite (i ≟ id) live true
proper id live _ = true

unfoldable pub track : ℕ → Bool → List FromWebsocket → Bool
track id live [] = live
track id live (m ∷ ms) = track id (next id live m) ms

unfoldable pub orderly : ℕ → Bool → List FromWebsocket → Bool
orderly id live [] = true
orderly id live (m ∷ ms) = proper id live m && orderly id (next id live m) ms

track-snoc :
    (id : ℕ) (live : Bool) (ms : List FromWebsocket) (m : FromWebsocket)
    → track id live (ms ++ m ∷ []) ≡ next id (track id live ms) m
unfolding track
track-snoc id live [] m = refl
track-snoc id live (x ∷ ms) m = track-snoc id (next id live x) ms m

orderly-snoc :
    (id : ℕ) (live : Bool) (ms : List FromWebsocket) (m : FromWebsocket)
    → orderly id live (ms ++ m ∷ []) ≡ (orderly id live ms && proper id (track id live ms) m)
unfolding track orderly
orderly-snoc id live [] m = ground arith
orderly-snoc id live (x ∷ ms) m = ground (arith, orderly-snoc id (next id live x) ms m)

abbrev pub is_some : {A : Type 0} → Option A → Bool
is_some none = false
is_some (some _) = true

-- The ids allowed are those that are live, and no message was about another.
pub record Agrees (c : Connection) (id : ℕ) : Type 0 where
  pub same : track id false c.sent ≡ is_some (HashMap.get id c.allowed_message_ids)
  pub order : orderly id false c.sent ≡ true

pub record IsValid (limits : Limits) (c : Connection) : Type 0 where
  pub within : length c.allowed_message_ids ≤ limits.max_nodes_per_connection
  pub distinct : Distinct c.allowed_message_ids
  pub agrees : (id : ℕ) → Agrees c id

pub new-IsValid :
    (limits : Limits) (now : ℕ) (b : BlockedAddrs) (closer : ℕ) → IsValid limits (new now b closer)
unfolding new track orderly next proper HashMap.get
new-IsValid limits now b closer = record {
  within = omega arith;
  distinct = tt;
  agrees = λ id. record { same = refl; order = refl };
}

-- One id more, fewer, or heard of again.
pub add-IsValid :
    (limits : Limits) (now : ℕ) (c : Connection) (id : ℕ) (info : SystemConnected)
    → IsValid limits c
    → IsValid limits (handle_connected limits now c id info)
unfolding handle_connected send next proper
add-IsValid limits now c id info v =
    elim (Bool-cases (leb limits.max_nodes_per_connection (length c.allowed_message_ids))) [
      | inl e ↦ rw e v
      | inr e ↦ rw e (record {
        within = ground (arith, length-insert id now c.allowed_message_ids);
        distinct = insert-Distinct id now c.allowed_message_ids v.distinct;
        agrees = λ j.
            let m = add id limits.real_addr info.node info.genesis_hash in
            record {
              same = ground (
                arith,
                track-snoc j false c.sent m,
                get-insert id j now c.allowed_message_ids,
                (v.agrees j).same,
              );
              order = ground (arith, orderly-snoc j false c.sent m, (v.agrees j).order);
            };
      })
    ]

pub update-IsValid :
    (limits : Limits) (now : ℕ) (c : Connection) (id : ℕ) (p : Payload)
    → IsValid limits c
    → IsValid limits (handle_update now c id p)
unfolding handle_update send next proper
update-IsValid limits now c id p v = elim (Option-cases (HashMap.get id c.allowed_message_ids)) [
  | inl e ↦ rw (e, handle_update) v
  | inr (t, e) ↦
      rw (e, handle_update)
        (record {
          within = ground (arith, length-insert id now c.allowed_message_ids, v.within);
          distinct = insert-Distinct id now c.allowed_message_ids v.distinct;
          agrees = λ j. record {
            same = ground (
              arith,
              track-snoc j false c.sent (update id p),
              get-insert id j now c.allowed_message_ids,
              (v.agrees j).same,
            );
            order = ground (
              arith,
              orderly-snoc j false c.sent (update id p),
              (v.agrees j).order,
              (v.agrees j).same,
            );
          };
        })
]

-- What the stale ids of a part `m` of the map leave of the map, once they are removed.
abbrev pub aged : ℕ → ℕ → Option ℕ → Bool
aged now timeout none = false
aged now timeout (some t) = ltb timeout (now - t)

-- A part of a map has the values of the map.
abbrev Within : HashMap ℕ ℕ → HashMap ℕ ℕ → Type 0
Within m n = (j t : ℕ) → HashMap.get j m ≡ some t → HashMap.get j n ≡ some t

-- One stale id goes.
remove-IsValid :
    (limits : Limits) (c : Connection) (id t : ℕ)
    → IsValid limits c
    → HashMap.get id c.allowed_message_ids ≡ some t
    → IsValid limits (
        send
          (record c { allowed_message_ids = HashMap.remove id c.allowed_message_ids })
          (remove id))
unfolding send next proper
remove-IsValid limits c id t v e = record {
  within = ground (arith, length-remove id c.allowed_message_ids, v.within);
  distinct = remove-Distinct id c.allowed_message_ids v.distinct;
  agrees = λ j. record {
    same = ground (
      arith,
      track-snoc j false c.sent (remove id),
      get-remove id j c.allowed_message_ids,
      (v.agrees j).same,
    );
    order =
        ground
          (arith, orderly-snoc j false c.sent (remove id), (v.agrees j).order, (v.agrees j).same);
  };
}

-- The removal of the stale ids of a part of the map.
pub record Removed (limits : Limits) (now timeout : ℕ) (m : HashMap ℕ ℕ) (c d : Connection)
    : Type 0 where
  pub valid : IsValid limits d
  pub left :
      (j : ℕ)
      → HashMap.get j d.allowed_message_ids
        ≡ (if aged now timeout (HashMap.get j m) then none else HashMap.get j c.allowed_message_ids)
  pub running : d.running ≡ c.running

pub remove_stale_lem :
    (limits : Limits) (now timeout : ℕ) (m : HashMap ℕ ℕ) (c : Connection)
    → Distinct m
    → Within m c.allowed_message_ids
    → IsValid limits c
    → Removed limits now timeout m c (remove_stale c (stale_ids now timeout m))
unfolding remove_stale stale_ids HashMap.get send
remove_stale_lem limits now timeout [] c d w v = record {
  valid = v;
  left = λ j. refl;
  running = refl;
}
remove_stale_lem limits now timeout ((id, t) ∷ m) c d w v =
    let here : HashMap.get id c.allowed_message_ids ≡ some t = w id t (ground arith) in
    elim (Bool-cases (ltb timeout (now - t))) [
      | inl e ↦
          let c' =
            send (record c { allowed_message_ids = HashMap.remove id c.allowed_message_ids })
              (remove id) in
          let rest : Removed limits now timeout m c' (remove_stale c' (stale_ids now timeout m)) =
            remove_stale_lem limits now timeout m c' d.1
              (λ j u f. ground (arith, d.0, w j u, get-remove id j c.allowed_message_ids))
              (remove-IsValid limits c id t v here) in
          rw e (record {
            valid = rest.valid;
            left = λ j. ground (arith, rest.left j, get-remove id j c.allowed_message_ids, d.0);
            running = rest.running;
          })
      | inr e ↦
          let rest : Removed limits now timeout m c (remove_stale c (stale_ids now timeout m)) =
            remove_stale_lem limits now timeout m c d.1 (λ j u f. w j u (ground (arith, d.0))) v in
          rw e (record {
            valid = rest.valid;
            left = λ j. ground (arith, rest.left j, d.0);
            running = rest.running;
          })
    ]
