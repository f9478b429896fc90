-- ===== src/Tests/Core.antt =====
-- The theorems of the core at concrete inputs.
use mathlib.Core.List.{Perm}
use substation.Prelude.{
  ◌≡◌, ◌≢◌, ◌≤◌, ◌<◌, ◌+◌, ◌-◌, ◌^◌, refl, ℕ, Bool, true, false, String, List, [], ◌∷◌, ◌++◌,
  Option, none, some, length, map, nat_key, string_key, if◌then◌else◌, ite, ◌≟◌, arith, min,
}
use substation.Prelude.HashMap
use substation.Prelude.Outcome.{ret, panic}
use substation.Common.BiMap.{BiMap}
use substation.Common.MultiMapUnique
use substation.Common.MultiMapUnique.Laws as MultiLaws
use substation.Common.Types.{NodeDetails, NodeHwBench, block_import, hw_bench, v4}
use substation.Core.Counter.{
  Counter, CounterValue, increment, decrement, modify, generate_ranking_top,
}
use substation.Core.Counter
use substation.Core.Counter.Laws as CounterLaws
use substation.Core.Counter.Rankings
use substation.Core.FeedMessage
use substation.Core.Node.{Node, Clock}
use substation.Core.Node
use substation.Core.State.{
  State, NodeId, node_id_key, RemovedNode, AddNodeResult, add_node, remove_node,
  get_chain_by_genesis_hash,
}
use substation.Core.State
use substation.Core.State.Laws as StateLaws
use substation.Core.State.AddNode
use substation.Core.State.RemoveNode
use substation.Core.State.History
use substation.Core.InnerLoop.{
  ConnId, Channel, ShardId, shard_id_key, FromFeedWebsocket, FromShardWebsocket, ToAggregator,
  from_shard_websocket, from_feed_websocket, gather_metrics, InnerLoop,
}
use substation.Core.InnerLoop
use substation.Core.InnerLoop.Feeds.{handle_from_feed, push_nodes, chunk_messages}
use substation.Core.InnerLoop.Feeds.Laws as FeedLaws
use substation.Core.InnerLoop.Feeds.Chunks
use substation.Core.InnerLoop.Run
use substation.Core.InnerLoop.Drain
use substation.Core.InnerLoop.Sound
use substation.Core.InnerLoop.Queue.{Tasks}
use substation.Core.InnerLoop.Queue.Laws as QueueLaws
use substation.Tests.PairList.{pair_list}

abbrev details : NodeDetails
details = record {
  chain = "Local";
  name = "alice";
  implementation = "substrate";
  version = "1";
  validator = none;
  network_id = "12D3";
  startup_time = none;
  target_os = none;
  target_arch = none;
  target_env = none;
  sysinfo = none;
}

abbrev clock : Clock
clock = record { created_now = 1000; block_now = 1000; chart_now = 1000; instant_now = 0 }

abbrev empty : State
empty = State.new ("Secret" ∷ []) 500

empty-IsValid : StateLaws.IsValid empty
empty-IsValid = StateLaws.new-IsValid ("Secret" ∷ []) 500 (omega arith)

add_node_example :
    (r : State × AddNodeResult) × (add_node empty 0xabc details clock ≡ ret r)
    × StateLaws.IsValid r.0
    × AddNode.Reports empty 0xabc details clock r.0 r.1
add_node_example = AddNode.add_node_lem empty 0xabc details clock empty-IsValid

-- The state after that node came, and the node's id.
abbrev listed : State
listed = (AddNode.add_node_lem empty 0xabc details clock empty-IsValid).0.0

listed-IsValid : StateLaws.IsValid listed
listed-IsValid =
    let (_, _, v, _) = AddNode.add_node_lem empty 0xabc details clock empty-IsValid in v

abbrev node_id : NodeId
node_id = record { chain_id = 0; chain_node_id = 0 }

remove_node_example :
    (r : State × Option RemovedNode) × (remove_node listed node_id ≡ ret r)
    × StateLaws.IsValid r.0
    × RemoveNode.Reports listed node_id r.0 r.1
remove_node_example = RemoveNode.remove_node_lem listed node_id listed-IsValid

-- Two keys, hit once and twice.
abbrev cores : Counter ℕ
cores = record { map = (4, 1) ∷ (8, 2) ∷ []; empty = 3 }

cores-IsValid : CounterLaws.IsValid cores
unfolding HashMap.get
cores-IsValid = record {
  positive = λ k h. ground arith;
  small = λ k. elim k as (λ k. CounterLaws.hits cores k < 2 ^ 64) [
    | none ↦ omega arith
    | some j ↦ ground arith
  ];
}

hits-decrement_example :
    (c' : Counter ℕ) × (modify cores (some 4) decrement ≡ ret c')
    × CounterLaws.IsValid c'
    × (CounterLaws.hits c' (some 4) ≡ CounterLaws.bumped (some 4) (some 4) (λ n. n - 1) cores)
unfolding HashMap.get substation.Prelude.ℕ_discrete
hits-decrement_example =
    CounterLaws.hits-decrement cores (some 4) (some 4) cores-IsValid (omega arith)

decrement-panics_example : modify cores (some 5) decrement ≡ panic
unfolding HashMap.get substation.Prelude.ℕ_discrete
decrement-panics_example = CounterLaws.decrement-panics cores 5 cores-IsValid refl

ranking_example :
    let r = generate_ranking_top cores 1 in
    (rest : List (ℕ × ℕ)) × Rankings.IsSorted Rankings.heavier (r.list ++ rest)
    × Perm (r.list ++ rest) cores.map
    × (length r.list ≡ min 1 (length cores.map))
    × (r.other ≡ Counter.total rest)
    × (r.unknown ≡ cores.empty)
ranking_example = Rankings.ranking_lem cores 1

abbrev pairs : BiMap NodeId ShardId
pairs = pair_list

-- One feed, 9, follows chain 0xdef; the chain 0xabc is there.
abbrev loop : InnerLoop pairs
loop = record (InnerLoop.new pairs [] 2 500) {
  node_state = listed;
  feed_channels = (9, 70) ∷ [];
  chain_to_feed_conn_ids = (MultiMapUnique.insert MultiMapUnique.new 0xdef 9).0;
}

subscribe_example :
    let after = handle_from_feed pairs loop clock 9 (InnerLoop.subscribe 0xabc) in
    MultiLaws.IsValid after.chain_to_feed_conn_ids
    × (MultiLaws.holds after.chain_to_feed_conn_ids 0xabc 9
        ≡ ite
            (◌≟◌ {A = ℕ} 9 9)
            (elim (get_chain_by_genesis_hash loop.node_state 0xabc) [
              | none ↦ false
              | some _ ↦ ite (◌≟◌ {A = ℕ} 0xabc 0xabc) true false
            ])
            (MultiLaws.holds loop.chain_to_feed_conn_ids 0xabc 9))
unfolding HashMap.get substation.Prelude.ℕ_discrete
subscribe_example =
    FeedLaws.subscribe_lem pairs loop clock 9 9 70 0xabc 0xabc listed-IsValid
      (MultiLaws.insert-IsValid MultiMapUnique.new 0xdef 9 MultiLaws.new-IsValid) refl

abbrev node : Node
node = Node.new clock details

chunk_messages_example :
    Chunks.concat (chunk_messages 3 0 (some node ∷ none ∷ some node ∷ []))
    ≡ (push_nodes FeedMessage.new 0 (some node ∷ none ∷ some node ∷ [])).messages
chunk_messages_example =
    Chunks.chunk_messages_lem 3 0 (some node ∷ none ∷ some node ∷ []) (omega arith)

-- A queue of at most 0 waiting messages: the update that finds one there is dropped.
abbrev tasks : Tasks pairs
tasks = record {
  inner = InnerLoop.new pairs [] 0 500;
  queue = [];
  total_messages = 0;
  dropped_messages = 0;
}

abbrev incoming : List ToAggregator
incoming =
    gather_metrics 70
    ∷ from_shard_websocket 1 (InnerLoop.update 5 (block_import (record { hash = 0x1; height = 1 })))
    ∷ from_shard_websocket 1 (InnerLoop.remove 5)
    ∷ []

receive_all_example :
    let t = QueueLaws.receive_all pairs tasks incoming in
    (t.total_messages ≡ 3)
    × (length t.queue + t.dropped_messages ≡ 3)
    × (QueueLaws.kept t.queue ≡ QueueLaws.kept [] ++ QueueLaws.kept incoming)
receive_all_example = QueueLaws.receive_all_lem pairs tasks incoming (omega arith) (omega arith)

-- Two nodes come, the first says how fast it is, is located and goes.
abbrev first : NodeId
first = record { chain_id = 0; chain_node_id = 0 }

abbrev bench : NodeHwBench
bench = record {
  cpu_hashrate_score = 1028;
  memory_memcpy_score = 14899;
  disk_sequential_write_score = some 485;
  disk_random_write_score = none;
}

abbrev calls : List History.Call
calls =
    History.add 0xabc details clock
    ∷ History.add 0xabc details clock
    ∷ History.update first (hw_bench bench) clock FeedMessage.new
    ∷ History.locate first none
    ∷ History.remove first
    ∷ []

history_example :
    (t : State) × (History.history (State.new [] 500) calls ≡ ret t) × StateLaws.IsValid t
history_example = History.history-IsValid [] 500 calls (omega arith)

-- A feed connects and subscribes while a shard connects, adds a node, updates it and goes.
abbrev events : List Run.Event
events =
    Run.arrive (from_shard_websocket 1 (FromShardWebsocket.initialize 4))
    ∷ Run.arrive (from_feed_websocket 2 (FromFeedWebsocket.initialize 5))
    ∷ Run.arrive (from_shard_websocket 1 (InnerLoop.add 7 (v4 0x7f000001) details 0xabc))
    ∷ Run.next clock (λ c. 0)
    ∷ Run.arrive (from_feed_websocket 2 (FromFeedWebsocket.subscribe 0xabc))
    ∷ Run.next clock (λ c. 0)
    ∷ Run.next clock (λ c. 0)
    ∷ Run.arrive (from_shard_websocket 1 (InnerLoop.update 7 (hw_bench bench)))
    ∷ Run.next clock (λ c. 0)
    ∷ Run.arrive (from_shard_websocket 1 FromShardWebsocket.disconnected)
    ∷ Run.next clock (λ c. 0)
    ∷ Run.next clock (λ c. 0)
    ∷ []

loop-IsValid_example :
    (t : Tasks pairs) × (Run.run pairs (Run.start pairs [] 10 500) events ≡ ret t)
    × Sound.IsValid pairs t.inner
loop-IsValid_example = Run.loop-IsValid pairs [] 10 500 events (omega arith)

abbrev busy : Tasks pairs
busy = record (Run.start pairs [] 10 500) { queue = incoming }

drain_example :
    (t : Tasks pairs) × (Drain.drain pairs busy (λ c. 0) (clock ∷ clock ∷ clock ∷ []) ≡ ret t)
    × Drain.Handled pairs (clock ∷ clock ∷ clock ∷ []) busy.inner incoming t.inner
    × (t.queue ≡ [])
    × Sound.IsValid pairs t.inner
unfolding Run.start
drain_example =
    Drain.drain_lem pairs busy (λ c. 0) (clock ∷ clock ∷ clock ∷ [])
      (Run.new-IsValid pairs [] 10 500 (omega arith)) (omega arith)
