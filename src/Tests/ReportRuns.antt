-- ===== src/Tests/ReportRuns.antt =====
-- A run of the report of a trace.
use mem_tier_gds.Base.{
  ℕ, ◌+◌, List, [], ◌∷◌, map, flatten, length, sum, set_of, All, some, none, ◌>>=◌, ◌≡◌, Result, ok,
  raise, value_error,
}
use mem_tier_gds.Tests.NumpyReference.{numpy}
use mem_tier_gds.Trace.{
  EmbeddingTrace, Source, matrix, vector, npy, npz, init, iter_batches, batch_from_array,
  get_batch_block_ids,
}
use mem_tier_gds.Trace.Synthetic.{sidecar, iter_batches_synthetic}
use mem_tier_gds.Workload.{unique_counts, reuse_rates, mean}
use mem_tier_gds.Analyze.Lru.{Sims, simulate, hit_rate, capacity, dram_gb}
use mem_tier_gds.Analyze.Report.{Stats, analyze_trace_file}
use mem_tier_gds.Analyze.Report.Noted.{blocks_of}
use mem_tier_gds.Analyze.Report.Unread.{analyze_blocks_only}
use mem_tier_gds.Analyze.Report.Whole.{AreShares, analyze_lem}

no_rows : List ℕ → Result (List ℕ)
no_rows line = raise value_error

abbrev rows : List (List ℕ)
rows = (1 ∷ 9 ∷ []) ∷ (2 ∷ 4 ∷ []) ∷ (9 ∷ 9 ∷ []) ∷ []

abbrev saved : Source
saved = npy (matrix 2 rows) (some (sidecar 1 2 4))

read : (t : EmbeddingTrace) × (init saved (some 4) ≡ ok t) × (iter_batches no_rows t ≡ ok rows)
read = iter_batches_synthetic no_rows 1 2 4 rows (some 4)

analyze_lem_example :
    (stats : Stats ℕ) × (analyze_trace_file 0 sum numpy no_rows saved 4 10 1024 ≡ ok stats)
    × (stats.total_lookups ≡ length (flatten rows))
    × (stats.unique_ids ≡ length (set_of (flatten rows)))
    × (stats.unique_blocks ≡ length (set_of (flatten (blocks_of numpy 4 rows))))
    × (stats.avg_unique_blocks_per_batch ≡ mean (unique_counts numpy 4 rows))
    × (stats.block_reuse_rate ≡ reuse_rates numpy 4 [] rows)
    × (distances : List ℕ) × (stats.reuse_distance_approx.avg_batches ≡ mean distances)
    × (length distances + stats.unique_blocks ≡ sum (unique_counts numpy 4 rows))
    × (sims : Sims) × (simulate 1024 (blocks_of numpy 4 rows) ≡ ok sims)
    × (map (λ e. e.0) stats.cache_simulation ≡ dram_gb)
    × All (λ e. hit_rate sims (capacity 1024 e.0) ≡ ok e.1) stats.cache_simulation
    × AreShares stats.id_frequency
    × AreShares stats.block_frequency
analyze_lem_example = analyze_lem 0 sum numpy no_rows saved 4 10 1024 read.0 rows read.1 read.2

-- The blocks 1, 2 and 3, without ids.
analyze_blocks_only_example :
    (stats : Stats ℕ) × (analyze_trace_file 0 sum numpy no_rows
        (npz none none (some (vector (1 ∷ 2 ∷ 3 ∷ []))))
        4
        10
        1024
      ≡ ok stats)
    × (stats.total_lookups ≡ 0)
    × (stats.unique_blocks ≡ 0)
    × (t : EmbeddingTrace) × (init (npz none none (some (vector (1 ∷ 2 ∷ 3 ∷ [])))) (some 4) ≡ ok t)
    × ((i : ℕ)
        → get_batch_block_ids numpy no_rows t i
          ≡ (batch_from_array t (vector (1 ∷ 2 ∷ 3 ∷ [])) i >>= λ b. ok (numpy.unique b)))
analyze_blocks_only_example =
    analyze_blocks_only 0 sum numpy no_rows none (vector (1 ∷ 2 ∷ 3 ∷ [])) 4 10 1024
