-- ===== src/Tests/BenchRuns.antt =====
-- Runs of the synthetic workload and of the benchmark's two loops.
use mem_tier_gds.Base.{
  ℕ, ◌-◌, ◌<◌, true, false, List, [], ◌∷◌, flatten, some, ◌≡◌, refl, arith, length, sum, All,
  set_of, contains, Result, ok, raise, value_error, runtime_error,
}
use mem_tier_gds.Tests.NumpyReference.{numpy}
use mem_tier_gds.Tests.BenchReference.{draw, counting, half, report, refused_blocks, steady, flaky}
use mem_tier_gds.Workload.{
  uniform, zipf, fresh_ids, rows_from, generate_ids, estimate_block_reuse, unique_counts,
  reuse_rates,
}
use mem_tier_gds.Workload.Generated.{IsTrace, generate_ids_lem}
use mem_tier_gds.Workload.Reuse.{IsShare, reuse_of_overlap}
use mem_tier_gds.Bench.{Synthetic, synthetic_batches, no_stats, Summary, summary}
use mem_tier_gds.Bench.Counted.{observe_all, all_blocks, observe_all_lem}
use mem_tier_gds.Bench.Staging.{fp16, dtype_size_of}
use mem_tier_gds.Bench.Staging
use mem_tier_gds.Bench.Staging.Outcome.{
  block_bytes_of, row_bytes_of, result_of, run_whole, run_part,
}
use mem_tier_gds.Bench.Staging.Whole.{iter, iter-Yields}
use mem_tier_gds.Bench.Embedding
use mem_tier_gds.Bench.Embedding.{
  kept_bits, config_of, mean_mode, sum_mode, other_mode, EmbeddingResult,
}
use mem_tier_gds.Bench.Embedding.Lifecycle.{IsReleased, fresh, run-IsReleased}
use mem_tier_gds.Bench.Embedding.Outcome.{IsWorking, run_working}

-- No row of these traces is read from a `.jsonl` file.
abbrev pub no_rows : List ℕ → Result (List ℕ)
no_rows line = raise value_error

generate_ids_lem_example :
    (trace : List (List ℕ)) × (generate_ids counting zipf 8 2 2 3 half 5 ≡ ok trace)
    × IsTrace counting 4 2 3 8 trace
generate_ids_lem_example = generate_ids_lem counting zipf 8 2 2 3 5 half tt (omega arith) refl

-- A batch begins with the first two ids of the batch before it.
abbrev batches : List (List ℕ)
batches = (1 ∷ 9 ∷ 4 ∷ []) ∷ (1 ∷ 9 ∷ 2 ∷ []) ∷ (1 ∷ 9 ∷ 9 ∷ []) ∷ []

reuse_of_overlap_example :
    (length (estimate_block_reuse numpy batches 4).avg_inter_batch_block_reuse ≡ length batches - 1)
    × All IsShare (estimate_block_reuse numpy batches 4).avg_inter_batch_block_reuse
reuse_of_overlap_example =
    reuse_of_overlap numpy 4 2 3 batches (omega arith) (omega arith) (refl, (refl, (refl, tt)))
      (refl, (refl, tt))

observe_all_lem_example :
    let r = observe_all numpy 4 batches no_stats in
    (length r.all_unique_ids ≡ length (set_of (flatten batches)))
    × (length r.all_unique_blocks ≡ length (set_of (all_blocks numpy 4 batches)))
    × (r.total_lookups ≡ length (flatten batches))
    × (r.unique_blocks_per_batch ≡ unique_counts numpy 4 batches)
    × (r.block_reuse_ratios ≡ reuse_rates numpy 4 [] batches)
observe_all_lem_example = observe_all_lem numpy 4 batches

-- A table of four rows of one number of two bytes.
abbrev table : List ℕ
table = 1 ∷ 2 ∷ 3 ∷ 4 ∷ 5 ∷ 6 ∷ 7 ∷ 8 ∷ []

abbrev pub arguments : Synthetic
arguments = record {
  num_embeddings = 4;
  batch_size = 2;
  bag_size = 2;
  num_batches = 3;
  dist = uniform;
  overlap_ratio = half;
  seed = 1;
}

abbrev pub staging : Staging.Args
staging = record {
  embedding_dim = 1;
  rows_per_block = 2;
  dtype = some fp16;
  dtype_size = 4;
  input = Staging.synthetic arguments;
}

abbrev drawn : List (List ℕ)
drawn = (1 ∷ 2 ∷ 3 ∷ 0 ∷ []) ∷ (1 ∷ 2 ∷ 1 ∷ 2 ∷ []) ∷ (1 ∷ 2 ∷ 3 ∷ 0 ∷ []) ∷ []

opened :
    Staging.open_batches numpy counting no_rows (Staging.synthetic arguments) 2 ≡ ok (iter drawn)
unfolding Staging.open_batches synthetic_batches generate_ids rows_from fresh_ids draw
opened = refl

opened_table :
    Embedding.open_input numpy counting no_rows (Embedding.synthetic arguments) 2
    ≡ ok (iter drawn, 4)
unfolding Embedding.open_input synthetic_batches generate_ids rows_from fresh_ids draw
opened_table = refl

drawn_below : (i : ℕ) → contains i (flatten drawn) ≡ true → i < 4
unfolding contains flatten
drawn_below i m = ground (arith, m)

run_whole_example :
    (counts : Summary) × (summary (observe_all numpy 2 drawn no_stats) ≡ ok counts)
    × (Staging.run numpy counting no_rows table true staging
        ≡ ok (result_of true (block_bytes_of staging) 3 (sum (unique_counts numpy 2 drawn)) counts))
unfolding row_bytes_of dtype_size_of
run_whole_example =
    run_whole numpy counting no_rows table true staging 4 (iter drawn) drawn opened
      (iter-Yields drawn) refl (omega arith) refl drawn_below

-- Three rows in a block, so that the last block has one row.
abbrev uneven : Staging.Args
uneven = record staging { rows_per_block = 3 }

run_part_example : Staging.run numpy counting no_rows table true uneven ≡ raise runtime_error
unfolding row_bytes_of dtype_size_of Staging.open_batches contains flatten
run_part_example =
    run_part numpy counting no_rows table true uneven 4 (iter drawn) drawn 3 opened
      (iter-Yields drawn) refl (omega arith) (omega arith) (λ e. grind (arith, e)) (omega arith)
      refl

abbrev memtier : Embedding.Args
memtier = record {
  embedding_file = "table.bin";
  embedding_dim = 1;
  rows_per_block = 2;
  dtype_size = 2;
  dram_cache_bytes = 64;
  hbm_cache_bytes = 64;
  enable_gds = false;
  enable_prefetch = false;
  mode = sum_mode;
  input = Embedding.synthetic arguments;
}

-- The second lookup of this library fails, and the run raises.
flaky_raises :
    (Embedding.run numpy counting no_rows flaky memtier (fresh flaky 0)).0 ≡ raise runtime_error
unfolding Embedding.run synthetic_batches generate_ids kept_bits
flaky_raises = refl

run-IsReleased_example :
    IsReleased (Embedding.run numpy counting no_rows flaky memtier (fresh flaky 0)).1
run-IsReleased_example = run-IsReleased numpy counting no_rows flaky memtier 0

-- The handle that this library gives.
IsSeven : ℕ → ℕ → Type 0
IsSeven calls h = h ≡ 7

refused-none :
    (h : ℕ) (blocks : List ℕ)
    → ((x : ℕ) → contains x blocks ≡ true → x < 2)
    → refused_blocks (some h) blocks ≡ 0
unfolding contains
refused-none h [] below = refl
refused-none h (x ∷ blocks) below =
    let here = below x (ground arith) in
    let rest = refused-none h blocks (λ y m. below y (ground (arith, m))) in
    ground (arith, here, rest)

steady-IsWorking :
    IsWorking steady IsSeven 0 "table.bin"
      (kept_bits (config_of numpy counting no_rows memtier 4))
      2
unfolding IsSeven kept_bits config_of
steady-IsWorking = record {
  opens = (7, refl, refl);
  looks_up = λ now h blocks held below. (refused-none h blocks below, held);
  reports = λ now h held. (refl, (report now, refl), held);
}

run_working_example :
    (out : EmbeddingResult) × ((Embedding.run numpy counting no_rows steady memtier
        (fresh steady 0)).0
      ≡ ok out)
    × (summary (observe_all numpy 2 drawn no_stats) ≡ ok out.counts)
    × (out.num_batches ≡ length drawn)
    × (out.num_embeddings ≡ 4)
run_working_example =
    run_working numpy counting no_rows steady memtier 0 (iter drawn) 4 drawn IsSeven 2
      steady-IsWorking (λ e. grind (arith, e)) opened_table (iter-Yields drawn)
      (λ i m. ground (arith, drawn_below i m))
