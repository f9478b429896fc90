-- ===== src/Core/ChainStats/Tallies/Moves.antt =====
-- The statistics of a chain, backend/telemetry_core/src/state/chain_stats.rs, as nodes come, say how
-- fast they are, and go.
use substation.Prelude.{nat_key, string_key, ◌+◌, ◌<◌, ◌^◌, ◌≡◌, refl, List, Option}
use substation.Prelude.Outcome.{ret}
use substation.Common.DenseMap.Laws.{occupied}
use substation.Common.Types.{NodeDetails, NodeHwBench}
use substation.Core.Counter.{CounterValue, increment, decrement}
use substation.Core.Counter.Tally.{Gains}
use substation.Core.ChainStats.{
  bucket_key, bool_key, ChainStatsCollator, add_or_remove_node, update_hwbench,
}
use substation.Core.ChainStats.Tallies.{Traits, traits_of, TalliesDetails, TalliesBench, Tallies}
use substation.Core.ChainStats.Tallies.Steps.{
  StepsDetails, StepsBench, increment-StepsDetails, increment-StepsBench, decrement-StepsDetails,
  decrement-StepsBench, swap-TalliesDetails,
}

-- The collator after the four counters of a benchmark moved, with what it keeps.
bench_step :
    (c : ChainStatsCollator) (t : Traits) (op : CounterValue) (ys : List (Option Traits))
    → StepsBench c t op ys
    → (c' : ChainStatsCollator) × (update_hwbench c t.hwbench op ≡ ret c')
      × TalliesBench c' ys
      × ((xs : List (Option Traits)) → TalliesDetails c xs → TalliesDetails c' xs)
unfolding update_hwbench
bench_step c t op ys s = (
  record c {
    cpu_hashrate_score = s.cpu_hashrate_score.value;
    memory_memcpy_score = s.memory_memcpy_score.value;
    disk_sequential_write_score = s.disk_sequential_write_score.value;
    disk_random_write_score = s.disk_random_write_score.value;
  },
  rw
      (
        s.cpu_hashrate_score.is, s.memory_memcpy_score.is, s.disk_sequential_write_score.is,
        s.disk_random_write_score.is,
      )
      refl,
  record {
    cpu_hashrate_score = s.cpu_hashrate_score.agree;
    memory_memcpy_score = s.memory_memcpy_score.agree;
    disk_sequential_write_score = s.disk_sequential_write_score.agree;
    disk_random_write_score = s.disk_random_write_score.agree;
  },
  λ xs d. record {
    version = d.version;
    target_os = d.target_os;
    target_arch = d.target_arch;
    cpu = d.cpu;
    memory = d.memory;
    core_count = d.core_count;
    linux_kernel = d.linux_kernel;
    linux_distro = d.linux_distro;
    is_virtual_machine = d.is_virtual_machine;
  },
)

both_step :
    (c : ChainStatsCollator) (d : NodeDetails) (h : Option NodeHwBench) (op : CounterValue)
    (ys : List (Option Traits))
    → StepsDetails c (traits_of d h) op ys
    → StepsBench c (traits_of d h) op ys
    → (c' : ChainStatsCollator) × (add_or_remove_node c d h op ≡ ret c') × Tallies c' ys
unfolding add_or_remove_node
both_step c d h op ys s b =
    let moved : ChainStatsCollator = record c {
      version = s.version.value;
      target_os = s.target_os.value;
      target_arch = s.target_arch.value;
      cpu = s.cpu.value;
      memory = s.memory.value;
      core_count = s.core_count.value;
      linux_kernel = s.linux_kernel.value;
      linux_distro = s.linux_distro.value;
      is_virtual_machine = s.is_virtual_machine.value;
    } in
    let steps : StepsBench moved (traits_of d h) op ys = record {
      cpu_hashrate_score = b.cpu_hashrate_score;
      memory_memcpy_score = b.memory_memcpy_score;
      disk_sequential_write_score = b.disk_sequential_write_score;
      disk_random_write_score = b.disk_random_write_score;
    } in
    let (c', is, bench, keeps) = bench_step moved (traits_of d h) op ys steps in
    let details : TalliesDetails moved ys = record {
      version = s.version.agree;
      target_os = s.target_os.agree;
      target_arch = s.target_arch.agree;
      cpu = s.cpu.agree;
      memory = s.memory.agree;
      core_count = s.core_count.agree;
      linux_kernel = s.linux_kernel.agree;
      linux_distro = s.linux_distro.agree;
      is_virtual_machine = s.is_virtual_machine.agree;
    } in
    (
      c',
      rw
          (
            s.version.is, s.target_os.is, s.target_arch.is, s.cpu.is, s.memory.is, s.core_count.is,
            s.linux_kernel.is, s.linux_distro.is, s.is_virtual_machine.is,
          )
          is,
      record { details = keeps ys details; bench = bench },
    )

-- A node's details and benchmark go into the collator of a chain that has room for one more.
pub add-Tallies :
    (c : ChainStatsCollator) (d : NodeDetails) (h : Option NodeHwBench)
    (xs ys : List (Option Traits))
    → Tallies c xs
    → Gains xs (traits_of d h) ys
    → occupied xs + 1 < 2 ^ 64
    → (c' : ChainStatsCollator) × (add_or_remove_node c d h increment ≡ ret c') × Tallies c' ys
add-Tallies c d h xs ys a g room =
    both_step c d h increment ys (increment-StepsDetails c xs ys (traits_of d h) a.details g room)
      (increment-StepsBench c xs ys (traits_of d h) a.bench g room)

-- Those of a node that is counted go out of it.
pub remove-Tallies :
    (c : ChainStatsCollator) (d : NodeDetails) (h : Option NodeHwBench)
    (xs ys : List (Option Traits))
    → Tallies c ys
    → Gains xs (traits_of d h) ys
    → (c' : ChainStatsCollator) × (add_or_remove_node c d h decrement ≡ ret c') × Tallies c' xs
remove-Tallies c d h xs ys a g =
    both_step c d h decrement xs (decrement-StepsDetails c xs ys (traits_of d h) a.details g)
      (decrement-StepsBench c xs ys (traits_of d h) a.bench g)

-- A node's benchmark goes out of the collator and another comes in.
pub bench-Tallies :
    (c : ChainStatsCollator) (d : NodeDetails) (o h : Option NodeHwBench)
    (mid xs ys : List (Option Traits))
    → Tallies c xs
    → Gains mid (traits_of d o) xs
    → Gains mid (traits_of d h) ys
    → occupied mid + 1 < 2 ^ 64
    → (c1 : ChainStatsCollator) × (c2 : ChainStatsCollator) × (update_hwbench c o decrement
        ≡ ret c1)
      × (update_hwbench c1 h increment ≡ ret c2)
      × Tallies c2 ys
bench-Tallies c d o h mid xs ys a g g' room =
    let (c1, is, bench, keeps) =
      bench_step c (traits_of d o) decrement mid
        (decrement-StepsBench c mid xs (traits_of d o) a.bench g) in
    let (c2, is', bench', keeps') =
      bench_step c1 (traits_of d h) increment ys
        (increment-StepsBench c1 mid ys (traits_of d h) bench g' room) in
    (
      c1,
      c2,
      is,
      is',
      record {
        details = keeps' ys (swap-TalliesDetails c1 d o h mid xs ys (keeps xs a.details) g g');
        bench = bench';
      },
    )
