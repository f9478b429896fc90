-- ===== src/Core/ChainStats/Tallies/Steps.antt =====
-- Each counter of a chain's statistics, backend/telemetry_core/src/state/chain_stats.rs, as a node
-- comes or goes.
use substation.Prelude.{nat_key, string_key, ◌+◌, ◌<◌, ◌^◌, refl, List, Option, some}
use mathlib.Core.Option
use substation.Common.DenseMap.Laws.{occupied}
use substation.Common.Types.{NodeDetails, NodeHwBench}
use substation.Core.Counter.{CounterValue, increment, decrement}
use substation.Core.Counter.Tally.{
  Agrees-swap, Follows, Gains, increment-Follows, decrement-Follows,
}
use substation.Core.ChainStats.{
  bucket_key, bool_key, bucket_memory, of_sysinfo, cpu_bucket, memcpy_bucket, sequential_bucket,
  random_bucket, ChainStatsCollator,
}
use substation.Core.ChainStats.Tallies.{Traits, traits_of, TalliesDetails, TalliesBench}

-- Every counter that a step changes follows the slots.
pub record StepsDetails (c : ChainStatsCollator) (t : Traits) (op : CounterValue)
    (ys : List (Option Traits)) : Type 0 where
  pub version : Follows c.version (some t.version) op (λ t. some t.version) ys
  pub target_os : Follows c.target_os (t.target_os) op (λ t. t.target_os) ys
  pub target_arch : Follows c.target_arch (t.target_arch) op (λ t. t.target_arch) ys
  pub cpu :
      Follows c.cpu
        (of_sysinfo t.sysinfo (λ s. s.cpu))
        op
        (λ t. of_sysinfo t.sysinfo (λ s. s.cpu))
        ys
  pub memory :
      Follows c.memory
        (of_sysinfo t.sysinfo (λ s. Option.map bucket_memory s.memory))
        op
        (λ t. of_sysinfo t.sysinfo (λ s. Option.map bucket_memory s.memory))
        ys
  pub core_count :
      Follows c.core_count
        (of_sysinfo t.sysinfo (λ s. s.core_count))
        op
        (λ t. of_sysinfo t.sysinfo (λ s. s.core_count))
        ys
  pub linux_kernel :
      Follows c.linux_kernel
        (of_sysinfo t.sysinfo (λ s. s.linux_kernel))
        op
        (λ t. of_sysinfo t.sysinfo (λ s. s.linux_kernel))
        ys
  pub linux_distro :
      Follows c.linux_distro
        (of_sysinfo t.sysinfo (λ s. s.linux_distro))
        op
        (λ t. of_sysinfo t.sysinfo (λ s. s.linux_distro))
        ys
  pub is_virtual_machine :
      Follows c.is_virtual_machine
        (of_sysinfo t.sysinfo (λ s. s.is_virtual_machine))
        op
        (λ t. of_sysinfo t.sysinfo (λ s. s.is_virtual_machine))
        ys

pub record StepsBench (c : ChainStatsCollator) (t : Traits) (op : CounterValue)
    (ys : List (Option Traits)) : Type 0 where
  pub cpu_hashrate_score :
      Follows c.cpu_hashrate_score (cpu_bucket t.hwbench) op (λ t. cpu_bucket t.hwbench) ys
  pub memory_memcpy_score :
      Follows c.memory_memcpy_score (memcpy_bucket t.hwbench) op (λ t. memcpy_bucket t.hwbench) ys
  pub disk_sequential_write_score :
      Follows c.disk_sequential_write_score
        (sequential_bucket t.hwbench)
        op
        (λ t. sequential_bucket t.hwbench)
        ys
  pub disk_random_write_score :
      Follows c.disk_random_write_score
        (random_bucket t.hwbench)
        op
        (λ t. random_bucket t.hwbench)
        ys

pub increment-StepsDetails :
    (c : ChainStatsCollator) (xs ys : List (Option Traits)) (t : Traits)
    → TalliesDetails c xs
    → Gains xs t ys
    → occupied xs + 1 < 2 ^ 64
    → StepsDetails c t increment ys
increment-StepsDetails c xs ys t a g room = record {
  version = increment-Follows c.version (λ t. some t.version) xs ys t a.version g room;
  target_os = increment-Follows c.target_os (λ t. t.target_os) xs ys t a.target_os g room;
  target_arch = increment-Follows c.target_arch (λ t. t.target_arch) xs ys t a.target_arch g room;
  cpu = increment-Follows c.cpu (λ t. of_sysinfo t.sysinfo (λ s. s.cpu)) xs ys t a.cpu g room;
  memory =
      increment-Follows c.memory
        (λ t. of_sysinfo t.sysinfo (λ s. Option.map bucket_memory s.memory)) xs ys t a.memory g
        room;
  core_count =
      increment-Follows c.core_count (λ t. of_sysinfo t.sysinfo (λ s. s.core_count)) xs ys t
        a.core_count g room;
  linux_kernel =
      increment-Follows c.linux_kernel (λ t. of_sysinfo t.sysinfo (λ s. s.linux_kernel)) xs ys t
        a.linux_kernel g room;
  linux_distro =
      increment-Follows c.linux_distro (λ t. of_sysinfo t.sysinfo (λ s. s.linux_distro)) xs ys t
        a.linux_distro g room;
  is_virtual_machine =
      increment-Follows c.is_virtual_machine (λ t. of_sysinfo t.sysinfo (λ s. s.is_virtual_machine))
        xs ys t a.is_virtual_machine g room;
}

pub decrement-StepsDetails :
    (c : ChainStatsCollator) (xs ys : List (Option Traits)) (t : Traits)
    → TalliesDetails c ys
    → Gains xs t ys
    → StepsDetails c t decrement xs
decrement-StepsDetails c xs ys t a g = record {
  version = decrement-Follows c.version (λ t. some t.version) xs ys t a.version g;
  target_os = decrement-Follows c.target_os (λ t. t.target_os) xs ys t a.target_os g;
  target_arch = decrement-Follows c.target_arch (λ t. t.target_arch) xs ys t a.target_arch g;
  cpu = decrement-Follows c.cpu (λ t. of_sysinfo t.sysinfo (λ s. s.cpu)) xs ys t a.cpu g;
  memory =
      decrement-Follows c.memory
        (λ t. of_sysinfo t.sysinfo (λ s. Option.map bucket_memory s.memory)) xs ys t a.memory g;
  core_count =
      decrement-Follows c.core_count (λ t. of_sysinfo t.sysinfo (λ s. s.core_count)) xs ys t
        a.core_count g;
  linux_kernel =
      decrement-Follows c.linux_kernel (λ t. of_sysinfo t.sysinfo (λ s. s.linux_kernel)) xs ys t
        a.linux_kernel g;
  linux_distro =
      decrement-Follows c.linux_distro (λ t. of_sysinfo t.sysinfo (λ s. s.linux_distro)) xs ys t
        a.linux_distro g;
  is_virtual_machine =
      decrement-Follows c.is_virtual_machine (λ t. of_sysinfo t.sysinfo (λ s. s.is_virtual_machine))
        xs ys t a.is_virtual_machine g;
}

pub increment-StepsBench :
    (c : ChainStatsCollator) (xs ys : List (Option Traits)) (t : Traits)
    → TalliesBench c xs
    → Gains xs t ys
    → occupied xs + 1 < 2 ^ 64
    → StepsBench c t increment ys
increment-StepsBench c xs ys t a g room = record {
  cpu_hashrate_score =
      increment-Follows c.cpu_hashrate_score (λ t. cpu_bucket t.hwbench) xs ys t
        a.cpu_hashrate_score g room;
  memory_memcpy_score =
      increment-Follows c.memory_memcpy_score (λ t. memcpy_bucket t.hwbench) xs ys t
        a.memory_memcpy_score g room;
  disk_sequential_write_score =
      increment-Follows c.disk_sequential_write_score (λ t. sequential_bucket t.hwbench) xs ys t
        a.disk_sequential_write_score g room;
  disk_random_write_score =
      increment-Follows c.disk_random_write_score (λ t. random_bucket t.hwbench) xs ys t
        a.disk_random_write_score g room;
}

pub decrement-StepsBench :
    (c : ChainStatsCollator) (xs ys : List (Option Traits)) (t : Traits)
    → TalliesBench c ys
    → Gains xs t ys
    → StepsBench c t decrement xs
decrement-StepsBench c xs ys t a g = record {
  cpu_hashrate_score =
      decrement-Follows c.cpu_hashrate_score (λ t. cpu_bucket t.hwbench) xs ys t
        a.cpu_hashrate_score g;
  memory_memcpy_score =
      decrement-Follows c.memory_memcpy_score (λ t. memcpy_bucket t.hwbench) xs ys t
        a.memory_memcpy_score g;
  disk_sequential_write_score =
      decrement-Follows c.disk_sequential_write_score (λ t. sequential_bucket t.hwbench) xs ys t
        a.disk_sequential_write_score g;
  disk_random_write_score =
      decrement-Follows c.disk_random_write_score (λ t. random_bucket t.hwbench) xs ys t
        a.disk_random_write_score g;
}

pub swap-TalliesDetails :
    (c : ChainStatsCollator) (d : NodeDetails) (o h : Option NodeHwBench)
    (mid xs ys : List (Option Traits))
    → TalliesDetails c xs
    → Gains mid (traits_of d o) xs
    → Gains mid (traits_of d h) ys
    → TalliesDetails c ys
swap-TalliesDetails c d o h mid xs ys a g g' =
    let x = traits_of d o in
    let y = traits_of d h in
    record {
      version = Agrees-swap c.version (λ t. some t.version) mid xs ys x y a.version g g' refl;
      target_os = Agrees-swap c.target_os (λ t. t.target_os) mid xs ys x y a.target_os g g' refl;
      target_arch =
          Agrees-swap c.target_arch (λ t. t.target_arch) mid xs ys x y a.target_arch g g' refl;
      cpu =
          Agrees-swap c.cpu (λ t. of_sysinfo t.sysinfo (λ s. s.cpu)) mid xs ys x y a.cpu g g' refl;
      memory =
          Agrees-swap c.memory (λ t. of_sysinfo t.sysinfo (λ s. Option.map bucket_memory s.memory))
            mid xs ys x y a.memory g g' refl;
      core_count =
          Agrees-swap c.core_count (λ t. of_sysinfo t.sysinfo (λ s. s.core_count)) mid xs ys x y
            a.core_count g g' refl;
      linux_kernel =
          Agrees-swap c.linux_kernel (λ t. of_sysinfo t.sysinfo (λ s. s.linux_kernel)) mid xs ys x y
            a.linux_kernel g g' refl;
      linux_distro =
          Agrees-swap c.linux_distro (λ t. of_sysinfo t.sysinfo (λ s. s.linux_distro)) mid xs ys x y
            a.linux_distro g g' refl;
      is_virtual_machine =
          Agrees-swap c.is_virtual_machine (λ t. of_sysinfo t.sysinfo (λ s. s.is_virtual_machine))
            mid xs ys x y a.is_virtual_machine g g' refl;
    }
