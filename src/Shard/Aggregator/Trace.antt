-- ===== src/Shard/Aggregator/Trace.antt =====
-- What a shard sends to the core (backend/telemetry_shard/src/aggregator.rs), read as the core reads it:
-- which local ids stand for a node.
use substation.Prelude.{
  ℕ, ◌≡◌, refl, Bool, true, false, ◌&&◌, List, [], ◌∷◌, ◌++◌, nat_key, arith, ite, ◌≟◌,
}
use substation.Common.Types.{add_node, update_node, remove_node}
use substation.Shard.Aggregator.{message_key, Sent, to_core}

-- Whether a local id stands for a node of the core's, after a message.
unfoldable pub next : ℕ → Bool → Sent → Bool
next id live (to_core (add_node _ _ i _)) = ite (i ≟ id) true live
next id live (to_core (remove_node i)) = ite (i ≟ id) false live
next id live _ = live

-- An update or a removal is of an id that stands for a node.
unfoldable pub proper : ℕ → Bool → Sent → Bool
proper id live (to_core (update_node i _)) = ite (i ≟ id) live true
proper id live (to_core (remove_node i)) = ite (i ≟ id) live true
proper id live _ = true

unfoldable pub track : ℕ → Bool → List Sent → Bool
track id live [] = live
track id live (m ∷ ms) = track id (next id live m) ms

unfoldable pub orderly : ℕ → Bool → List Sent → Bool
orderly id live [] = true
orderly id live (m ∷ ms) = proper id live m && orderly id (next id live m) ms

pub track-snoc :
    (id : ℕ) (live : Bool) (ms : List Sent) (m : Sent)
    → track id live (ms ++ m ∷ []) ≡ next id (track id live ms) m
unfolding track
track-snoc id live [] m = refl
track-snoc id live (x ∷ ms) m = track-snoc id (next id live x) ms m

pub orderly-snoc :
    (id : ℕ) (live : Bool) (ms : List Sent) (m : Sent)
    → orderly id live (ms ++ m ∷ []) ≡ (orderly id live ms && proper id (track id live ms) m)
unfolding track orderly
orderly-snoc id live [] m = ground arith
orderly-snoc id live (x ∷ ms) m = ground (arith, orderly-snoc id (next id live x) ms m)
