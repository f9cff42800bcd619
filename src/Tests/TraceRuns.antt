-- ===== src/Tests/TraceRuns.antt =====
-- Runs of the trace reader.
use mem_tier_gds.Base.{
  ℕ, ◌*◌, ◌≤◌, ◌<◌, List, [], ◌∷◌, map, flatten, none, some, ◌≡◌, refl, arith, length, take, All,
  Result, ok, raise, value_error, ceil_div,
}
use mem_tier_gds.Tests.NumpyReference.{numpy}
use mem_tier_gds.Trace.{
  EmbeddingTrace, no_metadata, matrix, num_batches, is_bagged, iter_batches, get_batch_block_ids,
  index_jsonl, read_line_at,
}
use mem_tier_gds.Trace.Coverage.{IsBagged, iter_batches_bagged}
use mem_tier_gds.Trace.Mismatch.{IsMismatched, iter_batches_mismatched}
use mem_tier_gds.Trace.Blocks.{blocks_of, stored-eq_computed}
use mem_tier_gds.Trace.Lines.{
  is_translated, starts_newline, without_returns, all_lines, with_text, index_jsonl_lem,
}

-- No row of these traces is read from a `.jsonl` file.
abbrev no_rows : List ℕ → Result (List ℕ)
no_rows line = raise value_error

abbrev samples : List (List ℕ)
samples = (1 ∷ 20 ∷ []) ∷ (2 ∷ 21 ∷ []) ∷ (3 ∷ 22 ∷ []) ∷ []

abbrev bagged : EmbeddingTrace
bagged = record {
  file = [];
  rows_per_block = some 4;
  metadata = record no_metadata {
    batch_size = some 2;
    bag_size = some 2;
    trace_layout = some "samples_by_fields";
  };
  jsonl_offsets = none;
  ids = some (matrix 2 samples);
  block_ids = some (matrix 2 (blocks_of 4 samples));
}

bagged-IsBagged : IsBagged bagged 2 2 samples
bagged-IsBagged = record {
  in_memory = refl;
  array = refl;
  batch = refl;
  bag = refl;
  positive = omega arith;
  wide = omega arith;
  rectangular = (refl, (refl, (refl, tt)));
}

iter_batches_bagged_example :
    (batches : List (List ℕ)) × (iter_batches no_rows bagged ≡ ok batches)
    × (flatten batches ≡ flatten samples)
    × (length batches ≡ ceil_div (length samples) 2)
    × All (λ batch. length batch ≤ 2 * 2) batches
iter_batches_bagged_example = iter_batches_bagged no_rows bagged-IsBagged

-- The bag size of the command line is larger than the number of fields.
abbrev mismatched : EmbeddingTrace
mismatched = record bagged {
  metadata = record no_metadata {
    batch_size = some 2;
    bag_size = some 5;
    trace_layout = some "samples_by_fields";
  };
}

mismatched-IsMismatched : IsMismatched mismatched 2 2 samples
unfolding is_bagged
mismatched-IsMismatched = record {
  in_memory = refl;
  array = refl;
  layout = refl;
  batch = refl;
  positive = omega arith;
  bag = refl;
}

iter_batches_mismatched_example :
    iter_batches no_rows mismatched ≡ ok (take (ceil_div (length samples) 2) samples)
iter_batches_mismatched_example = iter_batches_mismatched no_rows mismatched-IsMismatched

one_batch : 1 < num_batches bagged
unfolding num_batches
one_batch = omega arith

stored-eq_computed_example :
    get_batch_block_ids numpy no_rows bagged 1
    ≡ get_batch_block_ids numpy no_rows
        (record bagged { block_ids = none; rows_per_block = some 4 })
        1
stored-eq_computed_example =
    stored-eq_computed numpy no_rows 4 1 bagged-IsBagged (omega arith) one_batch refl

-- `a` before a carriage return and a newline, a blank line, `bc`
abbrev file : List ℕ
file = 97 ∷ 13 ∷ 10 ∷ 32 ∷ 10 ∷ 98 ∷ 99 ∷ []

index_jsonl_lem_example :
    (flatten (all_lines (length file) file) ≡ file)
    × (map (read_line_at file) (index_jsonl file)
        ≡ map without_returns (with_text (all_lines (length file) file)))
unfolding is_translated starts_newline
index_jsonl_lem_example = index_jsonl_lem file refl

offsets : index_jsonl file ≡ 0 ∷ 5 ∷ []
unfolding index_jsonl
offsets = refl
