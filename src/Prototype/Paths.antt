-- ===== src/Prototype/Paths.antt =====
-- The paths of the benchmark on a machine that works.
use Prim.Native.String.{String}
use mem_tier_gds.Base.{
  ℕ, ◌+◌, ◌-◌, ◌*◌, ◌≤◌, ◌<◌, true, false, [], ◌∷◌, ◌≡◌, refl, ◌∙◌, ap, arith, length, ok, ceil_div,
  gather,
}
use mem_tier_gds.Base.Action.{Ends, after-ok}
use mem_tier_gds.Base.Integer.{ℤ, pos, positive_at}
use mem_tier_gds.Datasets.{Files}
use mem_tier_gds.Datasets.Memtier.{MemTierFileDataset}
use mem_tier_gds.Datasets.Memtier
use mem_tier_gds.Datasets.Baseline.{BaselineNumpyDataset}
use mem_tier_gds.Datasets.Baseline
use mem_tier_gds.Datasets.Batches.{baseline_with}
use mem_tier_gds.Datasets.Same.{opened, init-opened}
use mem_tier_gds.Prototype.{
  Machine, Counters, BenchmarkResult, result_of, uvm_name, require_cuda, baseline_loop, uvm_loop,
  timed, run_baseline, run_uvm, run_all,
}
use mem_tier_gds.Prototype.Loops.{
  IsWorking, WorksFor, bytes_from, mapped, require_cuda-Ends, timed-Ends, baseline_loop-Ends,
  uvm_loop-Ends,
}

-- What a benchmark says of a path.
pub record IsRun (name : String) (num_batches total_bytes : ℕ) (r : BenchmarkResult) : Type 0 where
  pub named : r.name ≡ name
  pub batches : r.num_batches ≡ num_batches
  pub bytes : r.total_bytes ≡ total_bytes

module _ {F W : Type 0} (files : Files F) (m : Machine F W) (d : MemTierFileDataset)
    (works : WorksFor files m d) (r0 : 0 < d.rows) (c0 : 0 < d.cols) (b0 : 0 < d.batch_rows)
    (big : d.rows * d.cols ≤ length (files.contents d.path)) where
  -- All batches and all bytes of the table.
  abbrev IsWhole : String → BenchmarkResult → Type 0
  IsWhole name = IsRun name (Memtier.len d) (d.rows * d.cols * 4)

  -- The counts of a loop over all batches, in a result.
  result_of-IsWhole :
      (name : String) (t : (ℕ × ℕ) × ℕ) (stats : Counters)
      → t.0 ≡ (0 + Memtier.len d, 0 + bytes_from files d 0)
      → IsWhole name (result_of name t.0.0 t.0.1 t.1 stats)
  unfolding result_of
  result_of-IsWhole name t stats e =
      let start : d.rows - 0 * d.batch_rows ≡ d.rows = omega arith in
      record {
        named = refl;
        batches = ap (λ c. c.0) e ∙ omega arith;
        bytes = ap (λ c. c.1) e ∙ rw start (omega arith);
      }

  run_baseline-Ends :
      (workers : ℕ)
      → Ends
          (run_baseline files m d.path
            (pos d.rows)
            (pos d.cols)
            (pos d.batch_rows)
            d.device
            (pos workers))
          (IsWhole "baseline")
  unfolding Ends run_baseline Baseline.len baseline_with opened Memtier.len
  run_baseline-Ends workers w =
      let n = Memtier.len d in
      let w1 = (require_cuda files m d.device w).1 in
      let made = init-opened files d true r0 c0 b0 big in
      let order = m.data_loader_lem n workers true in
      let (u, allowed, p) = require_cuda-Ends files m d works w in
      let loop = baseline_loop files m (mapped files d) d.device (gather (λ j. j) 0 n) 0 0 in
      let (t, returned, is) =
        timed-Ends files m d works loop (λ c. c ≡ (0 + n, 0 + bytes_from files d 0))
          (baseline_loop-Ends files m d works c0 b0 big 0 n 0 0 (omega arith)) w1 in
      (
        result_of "baseline" t.0.0 t.0.1 t.1 [],
        after-ok (require_cuda files m d.device w) u _ allowed
            ∙ rw (made, order) (after-ok (timed files m d.device loop w1) t _ returned),
        result_of-IsWhole "baseline" t [] is,
      )

  init_made :
      Memtier.is_policy d.policy ≡ true
      → Memtier.init d.path (pos d.rows) (pos d.cols) (pos d.batch_rows) d.device d.policy ≡ ok d
  unfolding Memtier.init
  init_made known =
      ground
        (arith, positive_at d.rows r0, positive_at d.cols c0, positive_at d.batch_rows b0, known)

  run_uvm-Ends :
      (workers : ℕ)
      → Memtier.is_policy d.policy ≡ true
      → Ends
          (run_uvm files m d.path
            (pos d.rows)
            (pos d.cols)
            (pos d.batch_rows)
            d.device
            d.policy
            (pos workers))
          (IsWhole (uvm_name d.policy))
  unfolding Ends run_uvm Memtier.len
  run_uvm-Ends workers known w =
      let n = Memtier.len d in
      let w1 = (require_cuda files m d.device w).1 in
      let w2 = m.reset_stats (m.collect w1) in
      let order = m.data_loader_lem n workers false in
      let (u, allowed, p) = require_cuda-Ends files m d works w in
      let loop = uvm_loop files m d d.device (gather (λ j. j) 0 n) 0 0 in
      let (t, returned, is) =
        timed-Ends files m d works loop (λ c. c ≡ (0 + n, 0 + bytes_from files d 0))
          (uvm_loop-Ends files m d works c0 b0 big known 0 n 0 0 (omega arith)) w2 in
      let stats = m.get_stats (m.collect (timed files m d.device loop w2).1) in
      (
        result_of (uvm_name d.policy) t.0.0 t.0.1 t.1 stats,
        after-ok (require_cuda files m d.device w) u _ allowed
            ∙ rw (works.built, init_made known, order)
                (after-ok (timed files m d.device loop w2) t _ returned),
        result_of-IsWhole (uvm_name d.policy) t stats is,
      )

-- The dataset of a policy.
abbrev dataset_of : String → ℕ → ℕ → ℕ → ℤ → String → MemTierFileDataset
dataset_of path rows cols batch_rows device policy = record {
  path = path;
  rows = rows;
  cols = cols;
  batch_rows = batch_rows;
  device = device;
  policy = policy;
}

module _ {F W : Type 0} (files : Files F) (m : Machine F W) (device : ℤ) (path : String)
    (cols batch_rows : ℕ) (works : IsWorking files m path cols batch_rows device) where
  -- On a machine that works with batches of so many rows and columns, and over a file with all its
  -- values, where the numbers of rows, columns and rows of a batch are not 0, the benchmark returns,
  -- from every state of the process and with every number of workers: three results, of the
  -- baseline, of UVM on demand and of UVM with prefetch, each of all batches and of exactly the
  -- bytes of the table.
  pub run_all_lem :
      (rows workers : ℕ)
      → 0 < rows
      → 0 < cols
      → 0 < batch_rows
      → rows * cols ≤ length (files.contents path)
      → (w : W)
      → let n = ceil_div rows batch_rows in
        let bytes = rows * cols * 4 in
        (a b c : BenchmarkResult) × ((run_all files m path
            (pos rows)
            (pos cols)
            (pos batch_rows)
            device
            (pos workers)
            w).0
          ≡ ok (a ∷ b ∷ c ∷ []))
        × IsRun "baseline" n bytes a
        × IsRun "uvm_none" n bytes b
        × IsRun "uvm_prefetch" n bytes c
  unfolding run_all Ends Memtier.len Memtier.is_policy
  run_all_lem rows workers r0 c0 b0 big w =
      let d = dataset_of path rows cols batch_rows device in
      let baseline =
        run_baseline files m path (pos rows) (pos cols) (pos batch_rows) device (pos workers) in
      let uvm = λ (policy : String).
        run_uvm files m path (pos rows) (pos cols) (pos batch_rows) device policy (pos 0) in
      let w1 = (baseline w).1 in
      let w2 = (uvm "none" w1).1 in
      let (a, ra, pa) = run_baseline-Ends files m (d "none") works r0 c0 b0 big workers w in
      let (b, rb, pb) = run_uvm-Ends files m (d "none") works r0 c0 b0 big 0 refl w1 in
      let (c, rc, pc) = run_uvm-Ends files m (d "gpu") works r0 c0 b0 big 0 refl w2 in
      (
        a,
        b,
        c,
        after-ok (baseline w) a _ ra
            ∙ after-ok (uvm "none" w1) b _ rb
            ∙ after-ok (uvm "gpu" w2) c _ rc,
        pa,
        pb,
        pc,
      )
