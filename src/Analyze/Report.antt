-- ===== src/Analyze/Report.antt =====
-- `analyze_trace_file` and `write_csv` of memtier_embedding_bench/scripts/analyze_trace.py. A mean is
-- a sum and how many it is of, a list of ratios stands for its mean, and the fit of the Zipf slope,
-- which is floating-point arithmetic, is a parameter.
pub mod Noted
pub mod Whole
pub mod Unread
use Prim.Native.String.{String}
use mem_tier_gds.Base.{
  ℕ, zero, suc, ◌+◌, ◌-◌, ◌/◌, max, List, [], ◌∷◌, ◌++◌, map, Option, none, some, ltb,
  if◌then◌else◌, length, take, contains, inter, set_of, lookup, insert, Result, ok, raise, ◌>>=◌,
}
use mem_tier_gds.Base.Numpy.{Numpy}
use mem_tier_gds.Base.Text.{is_empty}
use mem_tier_gds.Trace.{Source, Metadata, EmbeddingTrace, init, num_batches, iter_batches}
use mem_tier_gds.Workload.{ids_to_blocks, mean}
use mem_tier_gds.Analyze.Lru.{
  Sims, dram_gb, capacity, capacities, new_sims, new_hits, update_lru_sims, hit_rate,
}
use mem_tier_gds.Analyze.Overlap.{batch_multi_gpu_overlap}
use mem_tier_gds.Analyze.Percentile.{fifty, ninety_five, percentile}
use mem_tier_gds.Analyze.Coverage.{Counter, update, values, most_common, Report, coverage}

-- What the loop keeps beside the simulations.
pub record Notes : Type 0 where
  pub id_counter : Counter
  pub block_counter : Counter
  pub unique_blocks_per_batch : List ℕ
  pub unique_ids_per_batch : List ℕ
  pub reuse_ratios : List (ℕ × ℕ)
  pub reuse_distances : List ℕ
  pub last_seen : List (ℕ × ℕ)
  pub previous_blocks : List ℕ
  pub total_lookups : ℕ
  pub overlap_ratios : List (ℕ × ℕ)
  pub duplicate_blocks : List ℕ

abbrev pub no_notes : Notes
no_notes = record {
  id_counter = [];
  block_counter = [];
  unique_blocks_per_batch = [];
  unique_ids_per_batch = [];
  reuse_ratios = [];
  reuse_distances = [];
  last_seen = [];
  previous_blocks = [];
  total_lookups = 0;
  overlap_ratios = [];
  duplicate_blocks = [];
}

-- `if block in last_seen: reuse_distances.append(…)`, by the entry of the block.
unfoldable pub note_distance : ℕ → Option ℕ → List ℕ → List ℕ
note_distance batch_idx none distances = distances
note_distance batch_idx (some last) distances = distances ++ (batch_idx - last) ∷ []

-- `for block in current_blocks`: the distances and the batch that each block was seen in last. The
-- order of a set is not told by the language; the report makes a mean and percentiles of the distances.
unfoldable pub see_blocks : ℕ → List ℕ → List ℕ × List (ℕ × ℕ) → List ℕ × List (ℕ × ℕ)
unfolding note_distance
see_blocks batch_idx [] seen = seen
see_blocks batch_idx (block ∷ blocks) (distances, last_seen) =
    see_blocks batch_idx blocks
      (note_distance batch_idx (lookup block last_seen) distances, insert block batch_idx last_seen)

module _ (np : Numpy) (rows_per_block : ℕ) where
  -- The body of the loop, without the simulations.
  unfoldable pub note : ℕ → List ℕ → Notes → Notes
  unfolding see_blocks
  note batch_idx ids n =
      let blocks = ids_to_blocks np rows_per_block ids in
      let overlap = batch_multi_gpu_overlap np blocks 4 in
      let current_blocks = set_of blocks in
      let seen = see_blocks batch_idx current_blocks (n.reuse_distances, n.last_seen) in
      record {
        id_counter = update ids n.id_counter;
        block_counter = update blocks n.block_counter;
        unique_blocks_per_batch = n.unique_blocks_per_batch ++ length current_blocks ∷ [];
        unique_ids_per_batch = n.unique_ids_per_batch ++ length (set_of ids) ∷ [];
        reuse_ratios =
            if is_empty n.previous_blocks
            then n.reuse_ratios
            else n.reuse_ratios
              ++ (length (inter current_blocks n.previous_blocks), max (length current_blocks) 1)
                ∷ [];
        reuse_distances = seen.0;
        last_seen = seen.1;
        previous_blocks = current_blocks;
        total_lookups = n.total_lookups + length ids;
        overlap_ratios = n.overlap_ratios ++ overlap.0 ∷ [];
        duplicate_blocks = n.duplicate_blocks ++ overlap.1 ∷ [];
      }

  -- `for batch_idx, ids in enumerate(trace.iter_batches())`
  unfoldable pub note_batches : ℕ → List (List ℕ) → Notes → Sims → Result (Notes × Sims)
  unfolding note
  note_batches batch_idx [] n s = ok (n, s)
  note_batches batch_idx (ids ∷ batches) n s = do
    r ← update_lru_sims (ids_to_blocks np rows_per_block ids) s.sims s.hits
    note_batches (batch_idx + 1) batches (note batch_idx ids n)
        (record { total = s.total + r.total; sims = r.sims; hits = r.hits })

-- `cache_simulation`
abbrev pub rates : Sims → ℕ → List ℕ → Result (List (ℕ × (ℕ × ℕ)))
rates s block_bytes [] = ok []
rates s block_bytes (gb ∷ gbs) = do
  rate ← hit_rate s (capacity block_bytes gb)
  rest ← rates s block_bytes gbs
  ok ((gb, rate) ∷ rest)

pub record Distances : Type 0 where
  pub avg_batches : ℕ × ℕ
  pub p50_batches : ℕ
  pub p95_batches : ℕ

-- `F` stands for floating-point numbers.
pub record Stats (F : Type 0) : Type 0 where
  pub num_batches : ℕ
  pub total_lookups : ℕ
  pub unique_ids : ℕ
  pub unique_blocks : ℕ
  pub id_frequency : Report
  pub block_frequency : Report
  pub estimated_zipf_alpha_ids : F
  pub estimated_zipf_alpha_blocks : F
  pub avg_unique_ids_per_batch : ℕ × ℕ
  pub avg_unique_blocks_per_batch : ℕ × ℕ
  pub p50_unique_blocks_per_batch : ℕ
  pub p95_unique_blocks_per_batch : ℕ
  pub block_reuse_rate : List (ℕ × ℕ)
  pub reuse_distance_approx : Distances
  pub cache_simulation : List (ℕ × (ℕ × ℕ))
  pub avg_overlap_ratio : List (ℕ × ℕ)
  pub avg_duplicate_blocks : ℕ × ℕ
  pub metadata : Metadata

-- The number 0.0, and the slope that is fitted to counts, of which there are two at least.
module _ {F : Type 0} (zero_slope : F) (fit : List ℕ → F) where
  unfoldable pub estimate_zipf_slope : Counter → F
  estimate_zipf_slope counter =
      let freqs = values (take 1000 (most_common counter)) in
      if ltb (length freqs) 2 then zero_slope else fit freqs

  -- The dictionary that is returned, of what the loop has kept, the percentiles of the unique blocks
  -- and of the distances, and the rates.
  unfoldable pub stats_of :
      EmbeddingTrace → ℕ → Notes → ℕ → ℕ → ℕ → ℕ → List (ℕ × (ℕ × ℕ)) → Stats F
  unfolding estimate_zipf_slope
  stats_of trace topk n p50 p95 p50_distance p95_distance cache_simulation = record {
    num_batches = num_batches trace;
    total_lookups = n.total_lookups;
    unique_ids = length n.id_counter;
    unique_blocks = length n.block_counter;
    id_frequency = coverage n.id_counter topk;
    block_frequency = coverage n.block_counter topk;
    estimated_zipf_alpha_ids = estimate_zipf_slope n.id_counter;
    estimated_zipf_alpha_blocks = estimate_zipf_slope n.block_counter;
    avg_unique_ids_per_batch = mean n.unique_ids_per_batch;
    avg_unique_blocks_per_batch = mean n.unique_blocks_per_batch;
    p50_unique_blocks_per_batch = p50;
    p95_unique_blocks_per_batch = p95;
    block_reuse_rate = n.reuse_ratios;
    reuse_distance_approx = record {
      avg_batches = mean n.reuse_distances;
      p50_batches = p50_distance;
      p95_batches = p95_distance;
    };
    cache_simulation = cache_simulation;
    avg_overlap_ratio = n.overlap_ratios;
    avg_duplicate_blocks = mean n.duplicate_blocks;
    metadata = trace.metadata;
  }

  unfoldable pub analyze_trace_file :
      Numpy → (List ℕ → Result (List ℕ)) → Source → ℕ → ℕ → ℕ → Result (Stats F)
  unfolding note_batches stats_of
  analyze_trace_file np parse_row trace_file rows_per_block topk block_bytes = do
    trace ← init trace_file (some rows_per_block)
    batches ← iter_batches parse_row trace
    let caps = capacities block_bytes
    (n, s) ←
        note_batches np rows_per_block 0 batches no_notes
          (record { total = 0; sims = new_sims caps; hits = new_hits caps })
    p50 ← percentile n.unique_blocks_per_batch fifty
    p95 ← percentile n.unique_blocks_per_batch ninety_five
    p50_distance ← percentile n.reuse_distances fifty
    p95_distance ← percentile n.reuse_distances ninety_five
    cache_simulation ← rates s block_bytes dram_gb
    ok (stats_of trace topk n p50 p95 p50_distance p95_distance cache_simulation)

-- A line of the `.csv` file.
pub record CsvRow : Type 0 where
  pub kind : String
  pub rank : ℕ
  pub key : ℕ
  pub count : ℕ

-- `enumerate(stats[kind]["topk"], start=1)`, from a rank on.
unfoldable pub rows_of_kind : String → ℕ → List (ℕ × ℕ) → List CsvRow
rows_of_kind kind rank [] = []
rows_of_kind kind rank ((key, count) ∷ topk) =
    record { kind = kind; rank = rank; key = key; count = count }
    ∷ rows_of_kind kind (rank + 1) topk

-- The rows that `write_csv` writes.
unfoldable pub write_csv : {F : Type 0} → Stats F → List CsvRow
unfolding rows_of_kind
write_csv stats =
    rows_of_kind "id_frequency" 1 stats.id_frequency.topk
    ++ rows_of_kind "block_frequency" 1 stats.block_frequency.topk
