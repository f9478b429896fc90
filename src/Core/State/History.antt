-- ===== src/Core/State/History.antt =====
-- Any history of operations on the state, backend/telemetry_core/src/state/state.rs.
use substation.Prelude.{◌≡◌, refl, ℕ, ◌<◌, ◌^◌, String, List, [], ◌∷◌, Option-cases, inl, inr}
use substation.Prelude.Outcome.{Outcome, ret, ◌>>=◌}
use substation.Common.DenseMap.{DenseMap}
use substation.Common.DenseMap
use substation.Common.Types.{BlockHash, NodeDetails, Payload}
use substation.Core.Chain.{Chain, node_count}
use substation.Core.Chain
use substation.Core.Chain.Keeps.{put-Keeps, same-Keeps}
use substation.Core.Chain.MessageKeeps.{update_node-Returns}
use substation.Core.Chain.Laws.{Keeps}
use substation.Core.Chain.Laws as ChainLaws
use substation.Core.FeedMessage.{FeedMessageSerializer}
use substation.Core.Node.{Node, Clock, Location}
use substation.Core.Node
use substation.Core.State.{
  State, NodeId, new, add_node, remove_node, update_node, update_node_location,
}
use substation.Core.State.AddNode.{add_node_lem}
use substation.Core.State.Laws.{IsValid, new-IsValid, put-IsValid_lem}
use substation.Core.State.RemoveNode.{remove_node_lem}

-- One call of the state.
pub data Call : Type 0 where
  add : BlockHash → NodeDetails → Clock → Call
  remove : NodeId → Call
  update : NodeId → Payload → Clock → FeedMessageSerializer → Call
  locate : NodeId → Location → Call

unfoldable pub call : State → Call → Outcome State
call s (add h details clock) = do r ← add_node s h details clock; ret (r.0)
call s (remove node_id) = do r ← remove_node s node_id; ret (r.0)
call s (update node_id payload clock feed) = do
  r ← update_node s node_id payload clock feed
  ret (r.0)
call s (locate node_id location) = ret (update_node_location s node_id location).0

unfoldable pub history : State → List Call → Outcome State
history s [] = ret s
history s (c ∷ cs) = do t ← call s c; history t cs

pub update_node-Returns_state :
    (s : State) (node_id : NodeId) (p : Payload) (clock : Clock) (feed : FeedMessageSerializer)
    → IsValid s
    → (r : State × FeedMessageSerializer) × (update_node s node_id p clock feed ≡ ret r)
      × IsValid r.0
unfolding update_node
update_node-Returns_state s node_id p clock feed v =
    elim (Option-cases (DenseMap.get s.chains node_id.chain_id)) [
      | inl n ↦ ((s, feed), rw (n, update_node) refl, v)
      | inr (c, n) ↦
          let (d, is, k) =
            update_node-Returns c node_id.chain_node_id p clock feed
              (v.each node_id.chain_id c n).0 in
          (
            (record s { chains = DenseMap.put s.chains node_id.chain_id d.0 }, d.1),
            rw (n, update_node, is) refl,
            put-IsValid_lem s node_id.chain_id c d.0 v n k,
          )
    ]

locate-Keeps :
    (c : Chain) (id : ℕ) (location : Location)
    → ChainLaws.IsValid c
    → Keeps c (Chain.update_node_location c id location).0
unfolding Chain.update_node_location
locate-Keeps c id location v = elim (Option-cases (DenseMap.get c.nodes id)) [
  | inl e ↦ rw (e, Chain.update_node_location) (same-Keeps c c v refl refl refl refl)
  | inr (node, e) ↦
      rw (e, Chain.update_node_location)
        (put-Keeps c
          (record c { nodes = DenseMap.put c.nodes id (Node.update_location node location) }) id
          (Node.update_location node location) node v e (unfold Node.update_location in refl) refl
          refl refl refl)
]

pub locate-IsValid :
    (s : State) (node_id : NodeId) (location : Location)
    → IsValid s
    → IsValid (update_node_location s node_id location).0
unfolding update_node_location
locate-IsValid s node_id location v = elim (Option-cases (DenseMap.get s.chains node_id.chain_id)) [
  | inl n ↦ rw (n, update_node_location) v
  | inr (c, n) ↦
      rw (n, update_node_location)
        (put-IsValid_lem s node_id.chain_id c
          (Chain.update_node_location c node_id.chain_node_id location).0 v n
          (locate-Keeps c node_id.chain_node_id location (v.each node_id.chain_id c n).0))
]

call-Returns : (s : State) (c : Call) → IsValid s → (t : State) × (call s c ≡ ret t) × IsValid t
unfolding call
call-Returns s (add h details clock) v =
    let (r, is, w, _) = add_node_lem s h details clock v in (r.0, rw is refl, w)
call-Returns s (remove node_id) v =
    let (r, is, w, _) = remove_node_lem s node_id v in (r.0, rw is refl, w)
call-Returns s (update node_id p clock feed) v =
    let (r, is, w) = update_node-Returns_state s node_id p clock feed v in (r.0, rw is refl, w)
call-Returns s (locate node_id location) v = (_, refl, locate-IsValid s node_id location v)

history-Returns :
    (s : State) (cs : List Call) → IsValid s → (t : State) × (history s cs ≡ ret t) × IsValid t
unfolding history
history-Returns s [] v = (s, refl, v)
history-Returns s (c ∷ cs) v =
    let (t, is, w) = call-Returns s c v in
    let (u, is', x) = history-Returns t cs w in (u, rw is is', x)

-- From the start, any history of calls returns, so no `expect` or `assert_eq!` of the state, of the
-- chains or of the counters fails, whatever nodes send and in whatever order they come and go. In the
-- state that it returns the chains and the index by hash agree, no chain has more nodes than its kind
-- allows, and each of the thirteen statistics counts exactly what the chain's nodes have.
pub history-IsValid :
    (denylist : List String) (n : ℕ) (cs : List Call)
    → n < 2 ^ 64
    → (t : State) × (history (new denylist n) cs ≡ ret t) × IsValid t
history-IsValid denylist n cs r = history-Returns (new denylist n) cs (new-IsValid denylist n r)
