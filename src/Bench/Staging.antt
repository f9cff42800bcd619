-- ===== src/Bench/Staging.antt =====
-- `run` of memtier_embedding_bench/python/baseline_cpu_staging.py, at a file of given bytes. Timings
-- and the copy of the data itself are not modelled: a copy counts its bytes.
pub mod Generated
pub mod Outcome
pub mod Whole
pub mod Reads
use mem_tier_gds.Base.{
  ℕ, zero, suc, ◌+◌, ◌*◌, Bool, not, List, [], ◌∷◌, Option, none, some, ◌==◌, if◌then◌else◌, length,
  take, drop, Result, ok, raise, ◌>>=◌, ◌>>◌, refuse, runtime_error,
}
use mem_tier_gds.Base.Numpy.{Numpy}
use mem_tier_gds.Workload.{IdSource, ids_to_blocks}
use mem_tier_gds.Trace.{Source, init}
use mem_tier_gds.Bench.{
  Batches, Synthetic, trace_batches, synthetic_batches, Stats, no_stats, observe, Summary, summary,
}

pub data Dtype : Type 0 where
  fp16 : Dtype
  fp32 : Dtype

-- `_dtype_size`
unfoldable pub dtype_size_of : Option Dtype → ℕ → ℕ
dtype_size_of (some fp16) size = 2
dtype_size_of (some fp32) size = 4
dtype_size_of none size = size

-- What is counted of the reads.
pub record Traffic : Type 0 where
  pub bytes_read : ℕ
  pub dram_to_gpu : ℕ
  pub posix_reads : ℕ

abbrev pub no_traffic : Traffic
no_traffic = record { bytes_read = 0; dram_to_gpu = 0; posix_reads = 0 }

-- The file, the size of a block and `use_torch_copy`.
module _ (file : List ℕ) (block_bytes : ℕ) (use_torch_copy : Bool) where
  -- `for block_id in blocks`
  unfoldable pub read_blocks : List ℕ → Traffic → Result Traffic
  read_blocks [] t = ok t
  read_blocks (block_id ∷ blocks) t = do
    let offset = block_id * block_bytes
    let bytes = take block_bytes (drop offset file)
    refuse (not (length bytes == block_bytes)) runtime_error
    read_blocks blocks (record {
      bytes_read = t.bytes_read + length bytes;
      posix_reads = t.posix_reads + 1;
      dram_to_gpu = if use_torch_copy then t.dram_to_gpu + block_bytes else t.dram_to_gpu;
    })

  -- `for batch in batches`, from a batch on, with the batches left.
  unfoldable pub run_batches :
      Numpy → ℕ → Batches → ℕ → ℕ → Stats → Traffic → Result (Stats × Traffic)
  unfolding read_blocks
  run_batches np rows_per_block b i zero s t = ok (s, t)
  run_batches np rows_per_block b i (suc left) s t = do
    batch ← b.batch i
    t' ← read_blocks (ids_to_blocks np rows_per_block batch) t
    run_batches np rows_per_block b (i + 1) left (observe np rows_per_block batch s) t'

-- The entries of the result that are not copies of the arguments, constants or timings.
pub record StagingResult : Type 0 where
  pub num_batches : ℕ
  pub ssd_read_bytes : ℕ
  pub dram_to_gpu_bytes : ℕ
  pub posix_reads : ℕ
  pub counts : Summary

-- `--trace-file` or the arguments of a synthetic trace.
pub data Input : Type 0 where
  trace_file : Source → Input
  synthetic : Synthetic → Input

pub record Args : Type 0 where
  pub embedding_dim : ℕ
  pub rows_per_block : ℕ
  pub dtype : Option Dtype
  pub dtype_size : ℕ
  pub input : Input

module _ {F S : Type 0} (np : Numpy) (source : IdSource F S)
    (parse_row : List ℕ → Result (List ℕ)) where
  unfoldable pub open_batches : Input → ℕ → Result Batches
  open_batches (trace_file path) rows_per_block = do
    t ← init path (some rows_per_block)
    ok (trace_batches parse_row t)
  open_batches (synthetic a) rows_per_block = synthetic_batches source a

  unfoldable pub run : List ℕ → Bool → Args → Result StagingResult
  unfolding open_batches dtype_size_of run_batches
  run file use_torch_copy args = do
    b ← open_batches args.input args.rows_per_block
    let block_bytes =
        args.rows_per_block * args.embedding_dim * dtype_size_of args.dtype args.dtype_size
    (s, t) ←
        run_batches file block_bytes use_torch_copy np args.rows_per_block b 0 b.num_batches
          no_stats no_traffic
    counts ← summary s
    ok (record {
      num_batches = b.num_batches;
      ssd_read_bytes = t.bytes_read;
      dram_to_gpu_bytes = t.dram_to_gpu;
      posix_reads = t.posix_reads;
      counts = counts;
    })
