-- ===== src/Bench.antt =====
-- The loops of memtier_embedding_bench/python/baseline_cpu_staging.py and memtier_embedding.py:
-- what both have, the batches that they run over and what they count of each batch.
pub mod Counted
pub mod Staging
pub mod Torch
pub mod Log
pub mod Embedding
use mem_tier_gds.Base.{
  ℕ, zero, suc, ◌+◌, ◌/◌, max, List, [], ◌∷◌, ◌++◌, Option, none, some, if◌then◌else◌, length,
  set_of, inter, Result, ok, raise, ◌>>=◌, at_index,
}
use mem_tier_gds.Base.Numpy.{Numpy}
use mem_tier_gds.Base.Text.{is_empty}
use mem_tier_gds.Trace.{Source, EmbeddingTrace, init, num_batches, get_batch_ids}
use mem_tier_gds.Workload.{Dist, Ratio, IdSource, generate_ids, ids_to_blocks, mean}
use mem_tier_gds.Analyze.Percentile.{ninety_five, percentile}

-- What a loop runs over: how many batches, and each, which an iterator makes when it is asked.
pub record Batches : Type 0 where
  pub num_batches : ℕ
  pub batch : ℕ → Result (List ℕ)

-- The arguments of `generate_ids`.
pub record Synthetic : Type 0 where
  pub num_embeddings : ℕ
  pub batch_size : ℕ
  pub bag_size : ℕ
  pub num_batches : ℕ
  pub dist : Dist
  pub overlap_ratio : Ratio
  pub seed : ℕ

-- `EmbeddingTrace(…)` and its iterator.
unfoldable pub trace_batches : (List ℕ → Result (List ℕ)) → EmbeddingTrace → Batches
trace_batches parse_row t = record {
  num_batches = num_batches t;
  batch = get_batch_ids parse_row t;
}

-- `generate_ids(…)` and `iter(trace)`.
unfoldable pub synthetic_batches : {F S : Type 0} → IdSource F S → Synthetic → Result Batches
synthetic_batches source a = do
  trace ←
      generate_ids source a.dist a.num_embeddings a.batch_size a.bag_size a.num_batches
        a.overlap_ratio a.seed
  ok (record { num_batches = length trace; batch = at_index trace })

-- What is counted over the batches; a ratio is the two numbers that are divided.
pub record Stats : Type 0 where
  pub previous_blocks : List ℕ
  pub unique_ids_per_batch : List ℕ
  pub unique_blocks_per_batch : List ℕ
  pub block_reuse_ratios : List (ℕ × ℕ)
  pub all_unique_ids : List ℕ
  pub all_unique_blocks : List ℕ
  pub total_lookups : ℕ

abbrev pub no_stats : Stats
no_stats = record {
  previous_blocks = [];
  unique_ids_per_batch = [];
  unique_blocks_per_batch = [];
  block_reuse_ratios = [];
  all_unique_ids = [];
  all_unique_blocks = [];
  total_lookups = 0;
}

-- `s.update(t)`
unfoldable pub union : List ℕ → List ℕ → List ℕ
union s t = set_of (s ++ t)

-- The first statements of the loop's body.
unfoldable pub observe : Numpy → ℕ → List ℕ → Stats → Stats
unfolding union
observe np rows_per_block batch s =
    let block_set = set_of (ids_to_blocks np rows_per_block batch) in
    let id_set = set_of batch in
    record {
      previous_blocks = block_set;
      unique_ids_per_batch = s.unique_ids_per_batch ++ length id_set ∷ [];
      unique_blocks_per_batch = s.unique_blocks_per_batch ++ length block_set ∷ [];
      block_reuse_ratios =
          if is_empty s.previous_blocks
          then s.block_reuse_ratios
          else s.block_reuse_ratios
            ++ (length (inter block_set s.previous_blocks), max (length block_set) 1) ∷ [];
      all_unique_ids = union s.all_unique_ids id_set;
      all_unique_blocks = union s.all_unique_blocks block_set;
      total_lookups = s.total_lookups + length batch;
    }

-- The entries of the result that both programs make of the counts; a mean is a sum and how many it
-- is of, and a list of ratios stands for its mean.
pub record Summary : Type 0 where
  pub num_unique_ids : ℕ
  pub num_unique_blocks : ℕ
  pub avg_unique_ids_per_batch : ℕ × ℕ
  pub avg_unique_blocks_per_batch : ℕ × ℕ
  pub p95_unique_blocks_per_batch : ℕ
  pub block_reuse_ratio : List (ℕ × ℕ)
  pub lookups : ℕ

unfoldable pub summary : Stats → Result Summary
summary s = do
  p95 ← percentile s.unique_blocks_per_batch ninety_five
  ok (record {
    num_unique_ids = length s.all_unique_ids;
    num_unique_blocks = length s.all_unique_blocks;
    avg_unique_ids_per_batch = mean s.unique_ids_per_batch;
    avg_unique_blocks_per_batch = mean s.unique_blocks_per_batch;
    p95_unique_blocks_per_batch = p95;
    block_reuse_ratio = s.block_reuse_ratios;
    lookups = s.total_lookups;
  })
