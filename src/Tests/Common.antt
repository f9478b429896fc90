-- ===== src/Tests/Common.antt =====
-- The theorems of the shared containers at concrete inputs.
use substation.Prelude.{
  ◌≡◌, ◌≢◌, ◌≤◌, ◌<◌, ◌+◌, ◌-◌, ◌^◌, refl, ℕ, Bool, true, false, List, [], ◌∷◌, Option, none, some,
  ite, ◌≟◌, nat_key, length, arith,
}
use substation.Prelude.HashMap
use substation.Common.DenseMap
use substation.Common.DenseMap.{DenseMap}
use substation.Common.DenseMap.Laws as DenseLaws
use substation.Common.MostSeen
use substation.Common.MostSeen.{MostSeen}
use substation.Common.MostSeen.Laws as SeenLaws
use substation.Common.MultiMapUnique
use substation.Common.MultiMapUnique.{MultiMapUnique}
use substation.Common.MultiMapUnique.Laws as MultiLaws
use substation.Common.NumStats as NumStats
use substation.Common.NumStats.{NumStats}
use substation.Common.NumStats.Laws as NumStatsLaws
use substation.Common.MeanList as MeanList
use substation.Common.MeanList.{MeanList}
use substation.Common.MeanList.Laws as MeanListLaws
use substation.Common.ReadyChunksAll as Chunks
use substation.Common.ReadyChunksAll.Laws as ChunksLaws
use substation.Common.RollingTotal
use substation.Common.RollingTotal.{RollingTotal}
use substation.Common.RollingTotal.Laws as RollingLaws

-- Three items, of which the middle one was removed.
abbrev holed : DenseMap ℕ
holed =
    (DenseMap.remove (DenseMap.add (DenseMap.add (DenseMap.add DenseMap.new 10).0 20).0 30).0 1).0

holed-IsValid : DenseLaws.IsValid holed
holed-IsValid = DenseLaws.remove-IsValid _ 1 (
    DenseLaws.add-IsValid _ 30
      (DenseLaws.add-IsValid _ 20 (DenseLaws.add-IsValid _ 10 DenseLaws.new-IsValid)))

add_example :
    DenseLaws.IsValid (DenseMap.add holed 40).0
    × ((DenseMap.add holed 40).1 ≡ DenseMap.next_id holed)
    × (DenseMap.get holed (DenseMap.add holed 40).1 ≡ none)
    × (DenseMap.get (DenseMap.add holed 40).0 2
        ≡ ite ((DenseMap.add holed 40).1 ≟ 2) (some 40) (DenseMap.get holed 2))
    × (DenseMap.len (DenseMap.add holed 40).0 ≡ DenseMap.len holed + 1)
add_example = DenseLaws.add_lem holed 40 2 holed-IsValid

remove_example :
    DenseLaws.IsValid (DenseMap.remove holed 2).0
    × ((DenseMap.remove holed 2).1 ≡ DenseMap.get holed 2)
    × (DenseMap.get (DenseMap.remove holed 2).0 0
        ≡ ite (◌≟◌ {A = ℕ} 2 0) none (DenseMap.get holed 0))
    × (DenseMap.len (DenseMap.remove holed 2).0
          + elim (DenseMap.get holed 2) [ none ↦ 0 | some _ ↦ 1 ]
        ≡ DenseMap.len holed)
remove_example = DenseLaws.remove_lem holed 2 0 holed-IsValid

-- Seven stood once, then nine twice.
abbrev labels : MostSeen ℕ
labels = (MostSeen.insert (MostSeen.insert (MostSeen.insert (MostSeen.default 0) 7).0 9).0 9).0

labels-IsValid : SeenLaws.IsValid labels
labels-IsValid = SeenLaws.insert_item-IsValid _ 9 (
    SeenLaws.insert_item-IsValid _ 9
      (SeenLaws.insert_item-IsValid _ 7 (SeenLaws.default-IsValid 0)))

insert_item_example :
    SeenLaws.IsValid (MostSeen.insert labels 7).0
    × (SeenLaws.seen (MostSeen.insert labels 7).0 9
        ≡ ite (◌≟◌ {A = ℕ} 7 9) (SeenLaws.seen labels 7 + 1) (SeenLaws.seen labels 9))
    × ((MostSeen.insert labels 7).1
        ≡ ite
            (MostSeen.best labels ≟ MostSeen.best (MostSeen.insert labels 7).0)
            MostSeen.no_change
            MostSeen.new_most_seen_item)
insert_item_example = SeenLaws.insert_item_lem labels 7 9 labels-IsValid

remove_item_example :
    SeenLaws.IsValid (MostSeen.remove labels 9).0
    × (SeenLaws.seen (MostSeen.remove labels 9).0 9
        ≡ ite (◌≟◌ {A = ℕ} 9 9) (SeenLaws.seen labels 9 - 1) (SeenLaws.seen labels 9))
    × ((MostSeen.remove labels 9).1
        ≡ ite
            (MostSeen.best labels ≟ MostSeen.best (MostSeen.remove labels 9).0)
            MostSeen.no_change
            MostSeen.new_most_seen_item)
remove_item_example = SeenLaws.remove_item_lem labels 9 9 labels-IsValid

-- Feed 1 follows chain 5, feed 2 chain 6.
abbrev followed : MultiMapUnique ℕ ℕ
followed = (MultiMapUnique.insert (MultiMapUnique.insert MultiMapUnique.new 5 1).0 6 2).0

followed-IsValid : MultiLaws.IsValid followed
followed-IsValid =
    MultiLaws.insert-IsValid _ 6 2 (MultiLaws.insert-IsValid _ 5 1 MultiLaws.new-IsValid)

insert_value_example :
    MultiLaws.IsValid (MultiMapUnique.insert followed 6 1).0
    × ((MultiMapUnique.insert followed 6 1).1 ≡ some 5)
    × (MultiLaws.holds (MultiMapUnique.insert followed 6 1).0 5 1 ≡ false)
unfolding MultiMapUnique.insert MultiMapUnique.remove_value MultiMapUnique.new HashMap.get
    HashMap.insert MultiMapUnique.put_value substation.Prelude.ℕ_discrete
insert_value_example = MultiLaws.insert_value_lem followed 6 1 5 1 followed-IsValid

multi-remove_value_example :
    let (n, old_key) = MultiMapUnique.remove_value followed 2 in
    MultiLaws.IsValid n
    × (old_key ≡ some 6)
    × (HashMap.get 2 n.value_to_key ≡ none)
    × (MultiLaws.holds n 6 2 ≡ false)
unfolding MultiMapUnique.insert MultiMapUnique.remove_value MultiMapUnique.new HashMap.get
    HashMap.insert MultiMapUnique.put_value substation.Prelude.ℕ_discrete
multi-remove_value_example = MultiLaws.remove_value_lem followed 2 6 2 followed-IsValid

-- Two buckets of 10 nanoseconds in a window of three.
abbrev window : RollingTotal
window = record {
  window_size_multiple = 3;
  granularity = 10;
  averages = (0, 4) ∷ (10, 5) ∷ [];
  total = 9;
}

window-IsValid : RollingLaws.IsValid window
unfolding RollingTotal.last_time
window-IsValid = record {
  steps = (omega arith, omega arith, omega arith);
  window = ((omega arith, tt), omega arith);
  summed = refl;
}

push-IsValid_example : RollingLaws.Pushed (RollingTotal.push window 47 6) 47
unfolding RollingTotal.last_time
push-IsValid_example =
    RollingLaws.push-IsValid window 47 6 window-IsValid (omega arith) (omega arith) (omega arith)

length-push_example : length (RollingTotal.push window 35 1).averages ≤ 3
unfolding RollingTotal.last_time
length-push_example =
    RollingLaws.length-push window 35 1 window-IsValid (omega arith) (omega arith) (omega arith)

-- The tenth of three slots is the first of them again.
abbrev times : NumStats
times = record { stack = 4 ∷ 5 ∷ 6 ∷ []; index = 9; sum = 15 }

sum-push_example :
    NumStatsLaws.IsValid (NumStats.push times 7) × (length (NumStats.push times 7).stack ≡ 3)
sum-push_example =
    NumStatsLaws.sum-push times 7 (record { room = omega arith; summed = refl }) (omega arith)

-- A chart of which every slot is used, one value before the next mean.
abbrev chart : MeanList
chart = record MeanList.default { mean_index = 20; ticks_per_mean = 2; period_count = 1 }

bounds-push_example : MeanListLaws.IsValid (MeanList.push chart (MeanList.bits 7)).0
unfolding MeanList.default
bounds-push_example =
    MeanListLaws.bounds-push chart (MeanList.bits 7)
      (record { slots = refl; used = omega arith; ticks = refl; unfinished = omega arith })

-- Two items, a pause, a third and the end.
abbrev answers : List (Chunks.Poll ℕ)
answers =
    Chunks.ready 4
    ∷ Chunks.ready 5
    ∷ Chunks.pending
    ∷ Chunks.pending
    ∷ Chunks.ready 6
    ∷ Chunks.finished
    ∷ []

collect_example :
    let r = Chunks.collect 7 (Chunks.new answers) in
    (ChunksLaws.concat r.0 ≡ 4 ∷ 5 ∷ 6 ∷ []) × ChunksLaws.NoneEmpty r.0 × (r.1 ≡ true)
unfolding ChunksLaws.contents
collect_example = ChunksLaws.collect_lem 7 answers (omega arith)
