-- ===== src/Core/State.antt =====
-- backend/telemetry_core/src/state/state.rs.
pub mod Laws
pub mod AddNode
pub mod RemoveNode
pub mod History
use mathlib.Core.Option
use substation.Prelude.{
  ℕ, ◌-◌, ◌^◌, Bool, true, false, ◌||◌, String, ◌≡◌, List, [], ◌∷◌, Option, none, some, ◌==◌,
  if◌then◌else◌, ite, ◌≟◌, string_key, nat_key, Key, ℕ_discrete, map,
}
use substation.Prelude.HashMap.{HashMap}
use substation.Prelude.HashMap
use substation.Prelude.Outcome.{Outcome, ret, panic, ◌>>=◌}
use substation.Common.DenseMap.{DenseMap}
use substation.Common.DenseMap
use substation.Common.Types.{BlockHash, NodeDetails, Payload}
use substation.Core.Chain.{Chain, is_first_party_network}
use substation.Core.Chain
use substation.Core.Chain.Update
use substation.Core.FeedMessage.{FeedMessageSerializer}
use substation.Core.Node.{Node, Clock, Location}
use substation.Core.Node

-- A chain's id and the node's id in that chain.
pub record NodeId : Type 0 where
  pub chain_id : ℕ
  pub chain_node_id : ℕ

unfoldable pub NodeId-discrete : Discrete NodeId
NodeId-discrete = hlevel ℕ_discrete

instance abbrev pub node_id_key : Key NodeId
unfolding NodeId-discrete
node_id_key = record { dec = NodeId-discrete }

pub record State : Type 0 where
  pub chains : DenseMap Chain
  pub chains_by_genesis_hash : HashMap BlockHash ℕ
  pub denylist : List String
  pub max_third_party_nodes : ℕ

pub record NodeAddedToChain : Type 0 where
  pub id : NodeId
  pub old_chain_label : String
  pub new_chain_label : String
  pub node : Node
  pub chain_node_count : ℕ
  pub has_chain_label_changed : Bool

pub data AddNodeResult : Type 0 where
  chain_on_deny_list chain_over_quota : AddNodeResult
  node_added_to_chain : NodeAddedToChain → AddNodeResult

pub record RemovedNode : Type 0 where
  pub chain_node_count : ℕ
  pub has_chain_label_changed : Bool
  pub old_chain_label : String
  pub chain_genesis_hash : BlockHash
  pub new_chain_label : String

unfoldable pub new : List String → ℕ → State
unfolding DenseMap.new
new denylist max_third_party_nodes = record {
  chains = DenseMap.new;
  chains_by_genesis_hash = [];
  denylist = denylist;
  max_third_party_nodes = max_third_party_nodes;
}

unfoldable pub denied : String → List String → Bool
denied label [] = false
denied label (x ∷ xs) = ite (x ≟ label) true (denied label xs)

unfoldable pub iter_chains : State → List Chain
iter_chains s = map (λ e. e.1) (DenseMap.iter s.chains)

unfoldable pub get_chain_by_node_id : State → NodeId → Option Chain
get_chain_by_node_id s node_id = DenseMap.get s.chains node_id.chain_id

unfoldable pub get_chain_by_genesis_hash : State → BlockHash → Option Chain
get_chain_by_genesis_hash s genesis_hash =
    elim (HashMap.get genesis_hash s.chains_by_genesis_hash) [
      | none ↦ none
      | some chain_id ↦ DenseMap.get s.chains chain_id
    ]

unfoldable pub max_nodes_of : State → BlockHash → ℕ
max_nodes_of s genesis_hash =
    if is_first_party_network genesis_hash then 2 ^ 64 - 1 else s.max_third_party_nodes

-- The id of the chain, which is made where there is none.
unfoldable pub ensure_chain : State → BlockHash → Clock → State × ℕ
unfolding max_nodes_of
ensure_chain s genesis_hash clock = elim (HashMap.get genesis_hash s.chains_by_genesis_hash) [
  | some chain_id ↦ (s, chain_id)
  | none ↦
      let chain = Chain.new clock genesis_hash (max_nodes_of s genesis_hash) in
      let (chains, chain_id) = DenseMap.add s.chains chain in
      (
        record s {
          chains = chains;
          chains_by_genesis_hash = HashMap.insert genesis_hash chain_id s.chains_by_genesis_hash;
        },
        chain_id,
      )
]

-- The `expect` on a value that must be there.
unfoldable pub expect : {A : Type 0} → Option A → Outcome A
expect none = panic
expect (some a) = ret a

-- What `add_node` reports once the chain has answered.
unfoldable pub report_added : ℕ → String → Chain → Chain.AddNodeResult → Outcome AddNodeResult
unfolding expect
report_added chain_id old_label chain Chain.overquota = ret chain_over_quota
report_added chain_id old_label chain (Chain.added id chain_renamed) = do
  node ← expect (DenseMap.get chain.nodes id)
  ret (
      node_added_to_chain (record {
        id = record { chain_id = chain_id; chain_node_id = id };
        old_chain_label = old_label;
        new_chain_label = Chain.label chain;
        node = node;
        chain_node_count = Chain.node_count chain;
        has_chain_label_changed = chain_renamed;
      }))

-- A node for a chain that is in the state.
unfoldable pub add_to_chain : State → ℕ → NodeDetails → Clock → Outcome (State × AddNodeResult)
unfolding expect report_added
add_to_chain s chain_id node_details clock = do
  chain ← expect (DenseMap.get s.chains chain_id)
  result ← Chain.add_node chain (Node.new clock node_details)
  report ← report_added chain_id (Chain.label chain) result.0 result.1
  ret (record s { chains = DenseMap.put s.chains chain_id result.0 }, report)

unfoldable pub add_node : State → BlockHash → NodeDetails → Clock → Outcome (State × AddNodeResult)
unfolding denied ensure_chain add_to_chain
add_node s genesis_hash node_details clock =
    if denied node_details.chain s.denylist
    then ret (s, chain_on_deny_list)
    else let (s', chain_id) = ensure_chain s genesis_hash clock in
      add_to_chain s' chain_id node_details clock

-- The chain after a removal is written back, or dropped with its index if it is empty.
unfoldable pub store_or_drop : State → ℕ → Chain → State
store_or_drop s chain_id chain =
    if Chain.node_count chain == 0
    then record s {
      chains = (DenseMap.remove s.chains chain_id).0;
      chains_by_genesis_hash = HashMap.remove chain.genesis_hash s.chains_by_genesis_hash;
    }
    else record s { chains = DenseMap.put s.chains chain_id chain }

unfoldable pub remove_from_chain : State → ℕ → ℕ → Chain → Outcome (State × Option RemovedNode)
unfolding store_or_drop
remove_from_chain s chain_id chain_node_id chain = do
  result ← Chain.remove_node chain chain_node_id
  ret (
    store_or_drop s chain_id result.0,
    some (record {
      chain_node_count = Chain.node_count (result.0);
      has_chain_label_changed = result.1;
      old_chain_label = Chain.label chain;
      chain_genesis_hash = result.0.genesis_hash;
      new_chain_label = Chain.label (result.0);
    }),
  )

unfoldable pub remove_node : State → NodeId → Outcome (State × Option RemovedNode)
unfolding remove_from_chain
remove_node s node_id = elim (DenseMap.get s.chains node_id.chain_id) [
  | none ↦ ret (s, none)
  | some chain ↦ remove_from_chain s node_id.chain_id node_id.chain_node_id chain
]

unfoldable pub update_node :
    State
    → NodeId
    → Payload
    → Clock
    → FeedMessageSerializer
    → Outcome (State × FeedMessageSerializer)
update_node s node_id payload clock feed = elim (DenseMap.get s.chains node_id.chain_id) [
  | none ↦ ret (s, feed)
  | some chain ↦ do
    result ← Update.update_node chain node_id.chain_node_id payload clock feed
    ret (record s { chains = DenseMap.put s.chains node_id.chain_id result.0 }, result.1)
]

-- `false` if the chain or the node is not there.
unfoldable pub update_node_location : State → NodeId → Location → State × Bool
update_node_location s node_id location = elim (DenseMap.get s.chains node_id.chain_id) [
  | none ↦ (s, false)
  | some chain ↦
      let (chain', found) = Chain.update_node_location chain node_id.chain_node_id location in
      (record s { chains = DenseMap.put s.chains node_id.chain_id chain' }, found)
]
