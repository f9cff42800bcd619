-- ===== src/Tests/TorchRuns.antt =====
-- The Torch baseline on a GPU that takes every call, and the program that generates traces.
use mem_tier_gds.Base.{
  ℕ, ◌+◌, ◌*◌, ◌^◌, true, false, List, [], ◌∷◌, none, some, ◌≡◌, refl, arith, Result, ok, raise,
  value_error,
}
use mem_tier_gds.Base.Text.{ends_with, Text, codes}
use mem_tier_gds.Trace.{EmbeddingTrace, Source, matrix, init, iter_block_batches}
use mem_tier_gds.Workload.{uniform}
use mem_tier_gds.Workload.Main.{Args as WorkloadArgs, synthetic, Saved, main, found_at}
use mem_tier_gds.Workload.Main.Read.{main_lost}
use mem_tier_gds.Bench.Torch.{Gpu, Args, TorchResult, sum_mode, run, open_trace}
use mem_tier_gds.Bench.Torch.Outcome.{IsWorking, run_rows}
use mem_tier_gds.Tests.NumpyReference.{numpy}
use mem_tier_gds.Tests.BenchReference.{counting, half}

no_rows : List ℕ → Result (List ℕ)
no_rows line = raise value_error

abbrev written_to : Text → WorkloadArgs
written_to output = record {
  trace_source = synthetic;
  trace_file = none;
  output = output;
  dist = uniform;
  overlap_ratio = half;
  batch_size = 2;
  bag_size = 2;
  num_batches = 3;
  num_embeddings = 8;
  rows_per_block = 4;
  seed = 5;
}

unnamed : ends_with (codes "trace") (codes ".npy") ≡ false
unfolding ends_with
unnamed = refl

main_lost_example :
    (saved : Saved) × (file : Source) × (t : EmbeddingTrace) × (main numpy counting
        (written_to (codes "trace"))
      ≡ ok saved)
    × (found_at saved (codes "trace.npy") ≡ some file)
    × (init file none ≡ ok t)
    × (iter_block_batches numpy no_rows t ≡ raise value_error)
main_lost_example =
    main_lost numpy counting no_rows (written_to (codes "trace")) refl unnamed tt refl (omega arith)
      (omega arith)

-- The state is the number of the lookups.
abbrev gpu : Gpu ℕ
gpu = record {
  is_available = true;
  embedding_bag = λ rows columns mode half w. (ok tt, w);
  as_tensor = λ ids w. (ok tt, w);
  synchronize = λ w. (ok tt, w);
  perf_counter = λ w. (w * 10, w);
  forward = λ rows ids offsets w. (ok tt, w + 1);
}

gpu-IsWorking : IsWorking gpu
gpu-IsWorking = record {
  available = refl;
  constructs = λ rows columns mode half w. refl;
  copies = λ ids w. refl;
  synchronizes = λ w. refl;
  looks_up = λ rows ids offsets below are w. refl;
}

-- Ids that are no rows of the table.
abbrev file_rows : List (List ℕ)
file_rows = (1 ∷ 9 ∷ 4 ∷ 100 ∷ []) ∷ (7 ∷ 8 ∷ 0 ∷ 2 ∷ []) ∷ []

abbrev from_file : Args
from_file = record {
  trace = some (ok (matrix 4 file_rows));
  num_embeddings = 8;
  embedding_dim = 16;
  dtype_size = 2;
  batch_size = 2;
  bag_size = 2;
  num_batches = 0;
  dist = uniform;
  overlap_ratio = half;
  seed = 5;
  mode = sum_mode;
}

run_rows_example :
    (r : TorchResult) × ((run gpu counting from_file 0).0 ≡ ok r)
    × (r.num_batches ≡ 2)
    × (r.throughput_lookups_per_sec.0 ≡ 8 * 10 ^ 12)
unfolding open_trace
run_rows_example =
    run_rows gpu gpu-IsWorking counting from_file file_rows refl (refl, (refl, tt)) (omega arith)
      (omega arith) 0
