-- ===== src/Tests/PreprocessRuns.antt =====
-- A run of the Criteo preprocessing.
use mem_tier_gds.Base.{
  ℕ, ◌<◌, List, [], ◌∷◌, Option, none, some, flatten, length, All, ◌≡◌, refl, arith, inr, true,
  false, Result, ok, raise, value_error, ceil_div, ◌*◌, sum, replicate,
}
use mem_tier_gds.Base.Integer.{ℤ, pos}
use mem_tier_gds.Base.Text.{Text, codes, split_on, strip, parse_int, rstrip_if, split_words}
use mem_tier_gds.Criteo.Sizes.{parse_hash_sizes}
use mem_tier_gds.Criteo.Ids.{per_field_offset}
use mem_tier_gds.Criteo.Line.{
  iter_criteo_rows, rows_of_file, parse_criteo_line, parts_of, row_of_parts, has_tab, pad,
  default_num_dense,
}
use mem_tier_gds.Trace.Savez.{is_npz}
use mem_tier_gds.Trace.{Source, EmbeddingTrace, init, iter_batches}
use mem_tier_gds.Preprocess.{
  Arrays, Args, Written, uint32, dtype_from_name, input_paths, preprocess, preprocess_stats,
  source_of,
}
use mem_tier_gds.Preprocess.Rows.{limit}
use mem_tier_gds.Preprocess.Readable.{preprocess_read}
use mem_tier_gds.Tests.CriteoRuns.{checksum}
use mem_tier_gds.Tests.NumpyReference.{numpy}
use mem_tier_gds.Analyze.Report.{Stats}

no_rows : List ℕ → Result (List ℕ)
no_rows line = raise value_error

-- Arrays that take every value.
plain : Arrays
plain = record {
  matrix_of = λ bits rows. ok rows;
  int8_of = λ labels. ok labels;
  uint64_of = λ xs. ok xs;
  matrix_of_fitting = λ bits width rows wide small. refl;
  int8_of_fitting = λ labels fit. refl;
  uint64_of_fitting = λ xs small. refl;
}

abbrev lines : List Text
lines = codes "1 2 3" ∷ codes "  " ∷ codes "a" ∷ codes "0" ∷ []

abbrev args : Args
args = record {
  output = codes "out/t.npz";
  input = some lines;
  input_glob = none;
  max_samples = some 2;
  num_fields = 3;
  batch_size = 2;
  bag_size = 2;
  hash_size = codes "10, 20,5,";
  global_id_mode = per_field_offset;
  rows_per_block = 4;
  drop_empty = false;
  save_ids = true;
  save_blocks = false;
  dtype = uint32;
  seed = 7;
}

abbrev sizes : List ℕ
sizes = 10 ∷ 20 ∷ 5 ∷ []

parsed : parse_hash_sizes (codes "10, 20,5,") 3 ≡ ok sizes
unfolding parse_hash_sizes split_on strip parse_int
parsed = refl

abbrev rows : List (Option ℤ × List Text)
rows = (some (pos 1), replicate 3 []) ∷ (none, replicate 3 []) ∷ (some (pos 0), replicate 3 []) ∷ []

found : iter_criteo_rows (lines ∷ []) 3 ≡ ok rows
unfolding iter_criteo_rows rows_of_file parse_criteo_line parts_of row_of_parts has_tab pad
    default_num_dense strip split_words split_on parse_int rstrip_if
found = refl

-- No file is there.
abbrev nothing : Result Source
nothing = raise value_error

preprocess_read_example :
    (w : Written) × (preprocess plain args checksum ≡ ok w)
    × (ids : List (List ℕ)) × (w.ids ≡ some ids)
    × (length ids ≡ limit (some 2) 1 3)
    × All (All (λ i. i < 35)) ids
    × (t : EmbeddingTrace) × (init (source_of w) none ≡ ok t)
    × (t.metadata.total_num_embeddings ≡ some 35)
    × (batches : List (List ℕ)) × (iter_batches no_rows t ≡ ok batches)
    × (flatten batches ≡ flatten ids)
    × (length batches ≡ ceil_div (length ids) 2)
    × (stats : Stats ℕ) × (preprocess_stats 0 sum numpy no_rows plain args checksum nothing 10 1024
        ≡ ok stats)
    × (stats.total_lookups ≡ length ids * 2)
unfolding input_paths dtype_from_name is_npz
preprocess_read_example =
    preprocess_read 0 sum numpy 10 1024 checksum plain args no_rows sizes 32 (lines ∷ []) rows none
      nothing refl refl parsed refl found (omega arith)
      (omega arith, (omega arith, (omega arith, tt))) tt (inr (omega arith)) (omega arith)
      (omega arith) (omega arith) (omega arith) (omega arith) refl
