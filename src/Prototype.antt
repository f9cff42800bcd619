-- ===== src/Prototype.antt =====
-- memtier_pytorch/memtier/benchmark.py: the three paths of the PyTorch prototype, over the datasets.
-- What PyTorch, CUDA and the compiled extension do is a parameter with a state.
pub mod Loops
pub mod Paths
pub mod Format
pub mod Example
use Prim.Native.String.{String, ◌++◌ as ◌<>◌}
use text.Mathlib.Text.{◌==◌ as str_eq}
use mem_tier_gds.Base.{
  ℕ, zero, suc, ◌+◌, ◌-◌, ◌*◌, ◌^◌, max, Bool, true, false, not, ◌||◌, List, [], ◌∷◌, ◌≡◌, leb,
  if◌then◌else◌, Result, ok, raise, refuse, runtime_error, gather,
}
use mem_tier_gds.Base.Action.{Action, after, ◌>>=◌, ◌>>◌, lift, change, read}
use mem_tier_gds.Base.Integer.{ℤ, pos, negsuc}
use mem_tier_gds.Datasets.{Table, Files, check_index}
use mem_tier_gds.Datasets.Memtier.{MemTierFileDataset, read_batch}
use mem_tier_gds.Datasets.Memtier
use mem_tier_gds.Datasets.Baseline.{BaselineNumpyDataset}
use mem_tier_gds.Datasets.Baseline

-- The counters of the extension, by their names.
abbrev pub Counters : Type 0
Counters = List (String × ℕ)

-- The process by its states: `torch.cuda`, the monotonic clock in picoseconds, the copy of a batch to a device,
-- the functions of the extension, if it is built, and `gc.collect`. A `DataLoader` without a batch
-- size asks a dataset for its items in order, from the first to the last; it refuses a negative
-- number of workers, and page-locked memory has the same values.
pub record Machine (F W : Type 0) : Type 0 where
  pub is_available : W → Bool
  pub device_count : W → ℕ
  pub synchronize : ℤ → Action W (Unit {0})
  pub perf_counter : W → ℕ × W
  pub to_device : ℤ → Table F → Action W (Unit {0})
  pub data_loader : ℕ → ℤ → Bool → Result (List ℕ)
  pub data_loader_lem :
      (n workers : ℕ) (pin : Bool) → data_loader n (pos workers) pin ≡ ok (gather (λ i. i) 0 n)
  pub collate : Bool → Table F → Table F
  pub collate_lem : (pin : Bool) (batch : Table F) → collate pin batch ≡ batch
  pub is_built : Bool
  pub reset_stats : W → W
  pub uvm_tensor_from_file : String → ℕ → ℕ → ℕ → ℤ → String → Action W (Table F)
  pub touch_gpu : Table F → Action W (Unit {0})
  pub get_stats : W → Counters
  pub collect : W → W

-- A duration is in picoseconds; a quotient is the two numbers that are divided.
pub record BenchmarkResult : Type 0 where
  pub name : String
  pub num_batches : ℕ
  pub total_bytes : ℕ
  pub total_ps : ℕ
  pub end_to_end_batch_ms : ℕ × ℕ
  pub effective_gb_s : ℕ × ℕ
  pub file_read_ms : ℕ × ℕ
  pub prefetch_ms : ℕ × ℕ
  pub gpu_touch_ms : ℕ × ℕ
  pub extension_stats : Counters

-- `stats.get(key, 0)`
unfoldable pub counter : Counters → String → ℕ
counter [] key = 0
counter ((k, n) ∷ stats) key = let rest = counter stats key in if str_eq k key then n else rest

-- `_result`; the least duration that a rate is taken of, 1e-12 seconds, is one picosecond.
unfoldable pub result_of : String → ℕ → ℕ → ℕ → Counters → BenchmarkResult
unfolding counter
result_of name num_batches total_bytes elapsed stats = record {
  name = name;
  num_batches = num_batches;
  total_bytes = total_bytes;
  total_ps = elapsed;
  end_to_end_batch_ms = (elapsed, 10 ^ 9 * max num_batches 1);
  effective_gb_s = (total_bytes * 1000, max elapsed 1);
  file_read_ms = (counter stats "total_file_read_us", 1000);
  prefetch_ms = (counter stats "total_prefetch_us", 1000);
  gpu_touch_ms = (counter stats "total_gpu_touch_us", 1000);
  extension_stats = stats;
}

-- `batch.numel() * batch.element_size()`, for float32.
abbrev pub num_bytes : {F : Type 0} → Table F → ℕ
num_bytes batch = batch.height * batch.width * 4

-- `device < 0 or device >= count`
abbrev pub is_invalid : ℤ → ℕ → Bool
is_invalid (negsuc n) count = true
is_invalid (pos n) count = leb count n

abbrev pub uvm_name : String → String
uvm_name policy = if str_eq policy "gpu" then "uvm_prefetch" else "uvm_" <> policy

module _ {F W : Type 0} (files : Files F) (m : Machine F W) where
  unfoldable pub require_cuda : ℤ → Action W (Unit {0})
  require_cuda device = do
    available ← read m.is_available
    lift (refuse (not available) runtime_error)
    count ← read m.device_count
    lift (refuse (is_invalid device count) runtime_error)

  abbrev pub require_extension : Result (Unit {0})
  require_extension = refuse (not m.is_built) runtime_error

  -- `MemTierFileDataset.__getitem__`, by the states of the process.
  unfoldable pub uvm_item : MemTierFileDataset → ℤ → Action W (Table F)
  uvm_item d idx = do
    i ← lift (check_index idx (Memtier.len d))
    lift require_extension
    read_batch m.uvm_tensor_from_file d i

  -- The loop of `run_baseline` over the indices that are left, with its two counts.
  unfoldable pub baseline_loop : BaselineNumpyDataset F → ℤ → List ℕ → ℕ → ℕ → Action W (ℕ × ℕ)
  baseline_loop d device [] num_batches total_bytes = lift (ok (num_batches, total_bytes))
  baseline_loop d device (i ∷ order) num_batches total_bytes = do
    item ← lift (Baseline.getitem files d (pos i))
    let batch = m.collate true item
    m.to_device device batch
    m.synchronize device
    baseline_loop d device order (num_batches + 1) (total_bytes + num_bytes batch)

  -- The loop of `run_uvm`.
  unfoldable pub uvm_loop : MemTierFileDataset → ℤ → List ℕ → ℕ → ℕ → Action W (ℕ × ℕ)
  unfolding uvm_item
  uvm_loop d device [] num_batches total_bytes = lift (ok (num_batches, total_bytes))
  uvm_loop d device (i ∷ order) num_batches total_bytes = do
    item ← uvm_item d (pos i)
    let batch = m.collate false item
    m.touch_gpu batch
    m.synchronize device
    uvm_loop d device order (num_batches + 1) (total_bytes + num_bytes batch)

  abbrev clock : Action W ℕ
  clock w = let (now, w') = m.perf_counter w in (ok now, w')

  -- A loop between two reads of the clock: its counts, and the time that it took.
  unfoldable pub timed : ℤ → Action W (ℕ × ℕ) → Action W ((ℕ × ℕ) × ℕ)
  timed device loop = do
    m.synchronize device
    begin ← clock
    counts ← loop
    m.synchronize device
    end ← clock
    lift (ok (counts, end - begin))

  unfoldable pub run_baseline : String → ℤ → ℤ → ℤ → ℤ → ℤ → Action W BenchmarkResult
  unfolding require_cuda baseline_loop timed result_of
  run_baseline path rows cols batch_rows device num_workers = do
    require_cuda device
    d ← lift (Baseline.init files path rows cols batch_rows true)
    order ← lift (m.data_loader (Baseline.len files d) num_workers true)
    timing ← timed device (baseline_loop d device order 0 0)
    lift (ok (result_of "baseline" timing.0.0 timing.0.1 timing.1 []))

  unfoldable pub run_uvm : String → ℤ → ℤ → ℤ → ℤ → String → ℤ → Action W BenchmarkResult
  unfolding require_cuda uvm_loop timed result_of
  run_uvm path rows cols batch_rows device policy num_workers = do
    require_cuda device
    lift require_extension
    change m.collect
    change m.reset_stats
    d ← lift (Memtier.init path rows cols batch_rows device policy)
    order ← lift (m.data_loader (Memtier.len d) num_workers false)
    timing ← timed device (uvm_loop d device order 0 0)
    change m.collect
    stats ← read m.get_stats
    lift (ok (result_of (uvm_name policy) timing.0.0 timing.0.1 timing.1 stats))

  unfoldable pub run_all : String → ℤ → ℤ → ℤ → ℤ → ℤ → Action W (List BenchmarkResult)
  unfolding run_baseline run_uvm
  run_all path rows cols batch_rows device num_workers = do
    baseline ← run_baseline path rows cols batch_rows device num_workers
    on_demand ← run_uvm path rows cols batch_rows device "none" (pos 0)
    prefetched ← run_uvm path rows cols batch_rows device "gpu" (pos 0)
    lift (ok (baseline ∷ on_demand ∷ prefetched ∷ []))
