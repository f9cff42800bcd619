-- ===== src/Tests/GeneratedRun.antt =====
-- A staging run on an embedding file that the script has written.
use mem_tier_gds.Base.{ℕ, true, List, ◌≡◌, refl, arith, sum, ok}
use mem_tier_gds.Base.Integer.{pos}
use mem_tier_gds.Tests.NumpyReference.{numpy}
use mem_tier_gds.Tests.BenchReference
use mem_tier_gds.Tests.BenchReference.{half}
use mem_tier_gds.Tests.BenchRuns.{no_rows, arguments, staging}
use mem_tier_gds.Tests.EmbeddingFileRuns.{counting, counting-IsStream}
use mem_tier_gds.Workload.{uniform, generate_ids, unique_counts}
use mem_tier_gds.EmbeddingFile.{fp16, Metadata, generate_embedding_file}
use mem_tier_gds.Bench.{no_stats, Summary, summary}
use mem_tier_gds.Bench.Counted.{observe_all}
use mem_tier_gds.Bench.Staging.{dtype_size_of, run}
use mem_tier_gds.Bench.Staging.Outcome.{block_bytes_of, result_of}
use mem_tier_gds.Bench.Staging.Generated.{run_generated}

run_generated_example :
    (file : List ℕ) × (metadata : Metadata) × (trace : List (List ℕ)) × (counts : Summary)
    × (generate_embedding_file counting (pos 4) (pos 1) fp16 1234 (pos 1) ≡ ok (file, metadata))
    × (generate_ids BenchReference.counting uniform 4 2 2 3 half 1 ≡ ok trace)
    × (summary (observe_all numpy 2 trace no_stats) ≡ ok counts)
    × (run numpy BenchReference.counting no_rows file true staging
        ≡ ok (result_of true (block_bytes_of staging) 3 (sum (unique_counts numpy 2 trace)) counts))
unfolding dtype_size_of
run_generated_example =
    run_generated counting counting-IsStream numpy BenchReference.counting no_rows fp16 1234 1 true
      staging arguments refl refl tt refl (omega arith) (omega arith) (omega arith) (omega arith)
      refl
