-- ===== src/Core/ChainStats/Tallies.antt =====
-- The thirteen counters of a chain agree with its nodes: each key of each statistic is counted as often
-- as a node has it. Then a node that leaves, or a new benchmark, does not panic.
pub mod Steps
pub mod Moves
use substation.Prelude.{
  nat_key, string_key, ℕ, suc, ◌+◌, ◌<◌, ◌^◌, ◌≡◌, refl, sym, Bool, String, List, [], ◌∷◌, Option,
  none, some, Key, arith,
}
use mathlib.Core.Option
use substation.Prelude.Outcome.{ret}
use substation.Common.DenseMap.Laws.{occupied}
use substation.Common.Types.{NodeDetails, NodeHwBench, NodeSysInfo}
use substation.Core.Counter
use substation.Core.Counter.{Counter, CounterValue, increment, decrement}
use substation.Core.Counter.Tally.{
  Agrees, Agrees-swap, new-Agrees, Follows, Gains, increment-Follows, decrement-Follows,
}
use substation.Core.ChainStats.{
  Bucket, bucket_key, bool_key, bucket_memory, of_sysinfo, cpu_bucket, memcpy_bucket,
  sequential_bucket, random_bucket, ChainStatsCollator, new_collator, add_or_remove_node,
  update_hwbench,
}

-- What the statistics read of a node.
pub record Traits : Type 0 where
  pub version : String
  pub target_os : Option String
  pub target_arch : Option String
  pub sysinfo : Option NodeSysInfo
  pub hwbench : Option NodeHwBench

abbrev pub traits_of : NodeDetails → Option NodeHwBench → Traits
traits_of d hwbench = record {
  version = d.version;
  target_os = d.target_os;
  target_arch = d.target_arch;
  sysinfo = d.sysinfo;
  hwbench = hwbench;
}

-- The nine counters of what a node says when it connects.
pub record TalliesDetails (c : ChainStatsCollator) (xs : List (Option Traits)) : Type 0 where
  pub version : Agrees c.version (λ t. some t.version) xs
  pub target_os : Agrees c.target_os (λ t. t.target_os) xs
  pub target_arch : Agrees c.target_arch (λ t. t.target_arch) xs
  pub cpu : Agrees c.cpu (λ t. of_sysinfo t.sysinfo (λ s. s.cpu)) xs
  pub memory :
      Agrees c.memory (λ t. of_sysinfo t.sysinfo (λ s. Option.map bucket_memory s.memory)) xs
  pub core_count : Agrees c.core_count (λ t. of_sysinfo t.sysinfo (λ s. s.core_count)) xs
  pub linux_kernel : Agrees c.linux_kernel (λ t. of_sysinfo t.sysinfo (λ s. s.linux_kernel)) xs
  pub linux_distro : Agrees c.linux_distro (λ t. of_sysinfo t.sysinfo (λ s. s.linux_distro)) xs
  pub is_virtual_machine :
      Agrees c.is_virtual_machine (λ t. of_sysinfo t.sysinfo (λ s. s.is_virtual_machine)) xs

-- The four counters of its benchmark.
pub record TalliesBench (c : ChainStatsCollator) (xs : List (Option Traits)) : Type 0 where
  pub cpu_hashrate_score : Agrees c.cpu_hashrate_score (λ t. cpu_bucket t.hwbench) xs
  pub memory_memcpy_score : Agrees c.memory_memcpy_score (λ t. memcpy_bucket t.hwbench) xs
  pub disk_sequential_write_score :
      Agrees c.disk_sequential_write_score (λ t. sequential_bucket t.hwbench) xs
  pub disk_random_write_score : Agrees c.disk_random_write_score (λ t. random_bucket t.hwbench) xs

pub record Tallies (c : ChainStatsCollator) (xs : List (Option Traits)) : Type 0 where
  pub details : TalliesDetails c xs
  pub bench : TalliesBench c xs

pub new-Tallies : Tallies new_collator []
unfolding new_collator Counter.new
new-Tallies = record {
  details = record {
    version = new-Agrees;
    target_os = new-Agrees;
    target_arch = new-Agrees;
    cpu = new-Agrees;
    memory = new-Agrees;
    core_count = new-Agrees;
    linux_kernel = new-Agrees;
    linux_distro = new-Agrees;
    is_virtual_machine = new-Agrees;
  };
  bench = record {
    cpu_hashrate_score = new-Agrees;
    memory_memcpy_score = new-Agrees;
    disk_sequential_write_score = new-Agrees;
    disk_random_write_score = new-Agrees;
  };
}
