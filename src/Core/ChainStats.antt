-- ===== src/Core/ChainStats.antt =====
-- backend/telemetry_core/src/state/chain_stats.rs, and `ChainStats` of feed_message.rs.
pub mod Laws
pub mod Tallies
use substation.Prelude.{
  ℕ, zero, suc, ◌*◌, ◌/◌, Bool, true, false, String, ◌≡◌, refl, List, [], ◌∷◌, Option, none, some,
  Key, ◌≟◌, nat_key, string_key, string_discrete, ℕ_discrete, ltb, leb, ◌==◌, ◌||◌, ◌&&◌,
  if◌then◌else◌, ite,
}
use mathlib.Core.Option
use substation.Prelude.Outcome.{Outcome, ret, panic, ◌>>=◌}
use substation.Common.Types.{NodeDetails, NodeHwBench, NodeSysInfo}
use substation.Core.Counter.{
  Counter, CounterValue, Ranking, modify, generate_ranking_top, generate_ranking_ordered,
}
use substation.Core.Counter
use substation.Core.Score.{relative_score}

abbrev pub reference_cpu_score : ℕ
reference_cpu_score = 1028

abbrev pub reference_memory_score : ℕ
reference_memory_score = 14899

abbrev pub reference_disk_sequential_write_score : ℕ
reference_disk_sequential_write_score = 485

abbrev pub reference_disk_random_write_score : ℕ
reference_disk_random_write_score = 222

-- A lower bound, and an upper bound that the last bucket lacks.
abbrev pub Bucket : Type 0
Bucket = ℕ × Option ℕ

Bucket-discrete : Discrete Bucket
Bucket-discrete = hlevel ℕ_discrete

instance abbrev pub bucket_key : Key Bucket
unfolding Bucket-discrete
bucket_key = record { dec = Bucket-discrete }

Bool-discrete : Discrete Bool
Bool-discrete = hlevel

instance abbrev pub bool_key : Key Bool
unfolding Bool-discrete
bool_key = record { dec = Bool-discrete }

-- The macro `buckets!`, with the first lower bound apart from the list of those that follow.
unfoldable pub bucket : ℕ → ℕ → List ℕ → Bucket
bucket value low [] = (low, none)
bucket value low (high ∷ rest) = if ltb value high then (low, some high) else bucket value high rest

abbrev score_bounds : List ℕ
score_bounds = 10 ∷ 30 ∷ 50 ∷ 70 ∷ 90 ∷ 110 ∷ 130 ∷ 150 ∷ 200 ∷ 300 ∷ 400 ∷ 500 ∷ []

unfoldable pub bucket_score : ℕ → ℕ → Bucket
unfolding bucket relative_score
bucket_score score reference_score = bucket (relative_score score reference_score) 0 score_bounds

abbrev memory_bounds : List ℕ
memory_bounds = 2 ∷ 4 ∷ 6 ∷ 8 ∷ 10 ∷ 16 ∷ 24 ∷ 32 ∷ 48 ∷ 56 ∷ 64 ∷ []

unfoldable pub bucket_memory : ℕ → Bucket
unfolding bucket
bucket_memory memory = bucket (memory / (1024 * 1024) / 1000) 1 memory_bounds

pub record ChainStatsCollator : Type 0 where
  pub version : Counter String
  pub target_os : Counter String
  pub target_arch : Counter String
  pub cpu : Counter String
  pub memory : Counter Bucket
  pub core_count : Counter ℕ
  pub linux_kernel : Counter String
  pub linux_distro : Counter String
  pub is_virtual_machine : Counter Bool
  pub cpu_hashrate_score : Counter Bucket
  pub memory_memcpy_score : Counter Bucket
  pub disk_sequential_write_score : Counter Bucket
  pub disk_random_write_score : Counter Bucket

pub record ChainStats : Type 0 where
  pub version : Ranking String
  pub target_os : Ranking String
  pub target_arch : Ranking String
  pub cpu : Ranking String
  pub memory : Ranking Bucket
  pub core_count : Ranking ℕ
  pub linux_kernel : Ranking String
  pub linux_distro : Ranking String
  pub is_virtual_machine : Ranking Bool
  pub cpu_hashrate_score : Ranking Bucket
  pub memory_memcpy_score : Ranking Bucket
  pub disk_sequential_write_score : Ranking Bucket
  pub disk_random_write_score : Ranking Bucket

unfoldable pub new_collator : ChainStatsCollator
unfolding Counter.new
new_collator = record {
  version = Counter.new;
  target_os = Counter.new;
  target_arch = Counter.new;
  cpu = Counter.new;
  memory = Counter.new;
  core_count = Counter.new;
  linux_kernel = Counter.new;
  linux_distro = Counter.new;
  is_virtual_machine = Counter.new;
  cpu_hashrate_score = Counter.new;
  memory_memcpy_score = Counter.new;
  disk_sequential_write_score = Counter.new;
  disk_random_write_score = Counter.new;
}

abbrev no_ranking : {K : Type 0} → Ranking K
no_ranking = record { list = []; other = 0; unknown = 0 }

unfoldable pub default_stats : ChainStats
default_stats = record {
  version = no_ranking;
  target_os = no_ranking;
  target_arch = no_ranking;
  cpu = no_ranking;
  memory = no_ranking;
  core_count = no_ranking;
  linux_kernel = no_ranking;
  linux_distro = no_ranking;
  is_virtual_machine = no_ranking;
  cpu_hashrate_score = no_ranking;
  memory_memcpy_score = no_ranking;
  disk_sequential_write_score = no_ranking;
  disk_random_write_score = no_ranking;
}

-- `and_then` on the hardware information.
abbrev pub of_sysinfo : {A : Type 0} → Option NodeSysInfo → (NodeSysInfo → Option A) → Option A
of_sysinfo none f = none
of_sysinfo (some s) f = f s

abbrev of_bench : {A : Type 0} → Option NodeHwBench → (NodeHwBench → Option A) → Option A
of_bench none f = none
of_bench (some s) f = f s

-- The scores of a benchmark as the four counters take them.
unfoldable pub cpu_bucket : Option NodeHwBench → Option Bucket
cpu_bucket b = of_bench b λ h. some (bucket_score h.cpu_hashrate_score reference_cpu_score)

unfoldable pub memcpy_bucket : Option NodeHwBench → Option Bucket
memcpy_bucket b = of_bench b λ h. some (bucket_score h.memory_memcpy_score reference_memory_score)

unfoldable pub sequential_bucket : Option NodeHwBench → Option Bucket
sequential_bucket b = of_bench b λ h.
    Option.map (λ s. bucket_score s reference_disk_sequential_write_score)
      h.disk_sequential_write_score

unfoldable pub random_bucket : Option NodeHwBench → Option Bucket
random_bucket b = of_bench b λ h.
    Option.map (λ s. bucket_score s reference_disk_random_write_score) h.disk_random_write_score

unfoldable pub update_hwbench :
    ChainStatsCollator → Option NodeHwBench → CounterValue → Outcome ChainStatsCollator
unfolding cpu_bucket memcpy_bucket sequential_bucket random_bucket
update_hwbench c hwbench op = do
  cpu ← modify c.cpu_hashrate_score (cpu_bucket hwbench) op
  memcpy ← modify c.memory_memcpy_score (memcpy_bucket hwbench) op
  sequential ← modify c.disk_sequential_write_score (sequential_bucket hwbench) op
  random ← modify c.disk_random_write_score (random_bucket hwbench) op
  ret (record c {
    cpu_hashrate_score = cpu;
    memory_memcpy_score = memcpy;
    disk_sequential_write_score = sequential;
    disk_random_write_score = random;
  })

unfoldable pub add_or_remove_node :
    ChainStatsCollator
    → NodeDetails
    → Option NodeHwBench
    → CounterValue
    → Outcome ChainStatsCollator
add_or_remove_node c details hwbench op = do
  version' ← modify c.version (some details.version) op
  target_os' ← modify c.target_os details.target_os op
  target_arch' ← modify c.target_arch details.target_arch op
  cpu' ← modify c.cpu (of_sysinfo details.sysinfo (λ s. s.cpu)) op
  memory' ← modify c.memory (of_sysinfo details.sysinfo (λ s. Option.map bucket_memory s.memory)) op
  core_count' ← modify c.core_count (of_sysinfo details.sysinfo (λ s. s.core_count)) op
  linux_kernel' ← modify c.linux_kernel (of_sysinfo details.sysinfo (λ s. s.linux_kernel)) op
  linux_distro' ← modify c.linux_distro (of_sysinfo details.sysinfo (λ s. s.linux_distro)) op
  virtual ← modify c.is_virtual_machine (of_sysinfo details.sysinfo (λ s. s.is_virtual_machine)) op
  update_hwbench
      (record c {
        version = version';
        target_os = target_os';
        target_arch = target_arch';
        cpu = cpu';
        memory = memory';
        core_count = core_count';
        linux_kernel = linux_kernel';
        linux_distro = linux_distro';
        is_virtual_machine = virtual;
      })
      hwbench op

-- The orders of the keys: false before true, and a bucket by its bounds, the one with none first.
abbrev bool_before : Bool → Bool → Bool
bool_before true false = false
bool_before _ _ = true

abbrev bound_before : Option ℕ → Option ℕ → Bool
bound_before none _ = true
bound_before (some a) none = false
bound_before (some a) (some b) = leb a b

abbrev bucket_before : Bucket → Bucket → Bool
bucket_before a b = ltb a.0 b.0 || (a.0 == b.0 && bound_before a.1 b.1)

unfoldable pub generate : ChainStatsCollator → ChainStats
unfolding generate_ranking_top generate_ranking_ordered
generate c = record {
  version = generate_ranking_top c.version 10;
  target_os = generate_ranking_top c.target_os 10;
  target_arch = generate_ranking_top c.target_arch 10;
  cpu = generate_ranking_top c.cpu 10;
  memory = generate_ranking_ordered bucket_before c.memory;
  core_count = generate_ranking_top c.core_count 10;
  linux_kernel = generate_ranking_top c.linux_kernel 10;
  linux_distro = generate_ranking_top c.linux_distro 10;
  is_virtual_machine = generate_ranking_ordered bool_before c.is_virtual_machine;
  cpu_hashrate_score = generate_ranking_top c.cpu_hashrate_score 10;
  memory_memcpy_score = generate_ranking_ordered bucket_before c.memory_memcpy_score;
  disk_sequential_write_score =
      generate_ranking_ordered bucket_before c.disk_sequential_write_score;
  disk_random_write_score = generate_ranking_ordered bucket_before c.disk_random_write_score;
}

unfoldable pub ChainStats-discrete : Discrete ChainStats
ChainStats-discrete = hlevel (ℕ_discrete, string_discrete)

bucket_score_29 : bucket_score 29 100 ≡ (10, some 30)
unfolding bucket_score
bucket_score_29 = refl

bucket_score_500 : bucket_score 500 100 ≡ (500, none)
unfolding bucket_score
bucket_score_500 = refl
