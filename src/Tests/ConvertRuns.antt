-- ===== src/Tests/ConvertRuns.antt =====
-- A run of the DLRM conversion.
use mem_tier_gds.Base.{
  ℕ, ◌-◌, ◌≤◌, ◌<◌, List, [], ◌∷◌, Option, none, some, map, flatten, length, All, contains, ◌≡◌,
  refl, arith, true, Result, ok, raise, ◌>>=◌, value_error, type_error, ceil_div, ◌*◌, sum,
}
use mem_tier_gds.Base.Text.{Text, codes}
use mem_tier_gds.Trace.Savez.{is_npz}
use mem_tier_gds.Trace.{Source, EmbeddingTrace, init, iter_batches}
use mem_tier_gds.Convert.Sparse.{
  Sparse, vector, table, Arrays, Row, npy_format, auto, npy_suffix, detect_format, load_array,
  load_sparse, reshaped,
}
use mem_tier_gds.Convert.{
  Args, Mapped, Converted, per_field_offset, shared_hash, hash_sizes_of, apply_id_mapping, convert,
  source_of,
}
use mem_tier_gds.Convert.Mapping.{range_of}
use mem_tier_gds.Convert.Readable.{convert_read}
use mem_tier_gds.Convert.SmallTable.{small_table}
use mem_tier_gds.Convert.{convert_stats}
use mem_tier_gds.Tests.NumpyReference.{numpy}
use mem_tier_gds.Analyze.Report.{Stats}

no_rows : List ℕ → Result (List ℕ)
no_rows line = raise value_error

-- The rows, if none is missing.
found_rows : List (Option (List ℕ)) → Result (List (List ℕ))
found_rows [] = ok []
found_rows (none ∷ rows) = raise type_error
found_rows (some row ∷ rows) = do rest ← found_rows rows; ok (row ∷ rest)

as_table : List (List ℕ) → Sparse
as_table [] = vector []
as_table (row ∷ rows) = table (length row) (row ∷ rows)

found_rows-some : (rows : List (List ℕ)) → found_rows (map some rows) ≡ ok rows
unfolding found_rows
found_rows-some [] = refl
found_rows-some (row ∷ rows) = rw (found_rows-some rows) refl

plain : Arrays
unfolding found_rows as_table
plain = record {
  asarray = λ rows. (do found ← found_rows rows; ok (as_table found));
  asarray_table = λ width row rows wide. rw (found_rows-some rows, wide.0) refl;
}

abbrev raw : List (List ℕ)
raw = (5 ∷ 900 ∷ []) ∷ (6 ∷ 14 ∷ []) ∷ (7 ∷ 3 ∷ []) ∷ []

no_objects : Text → Result Row
no_objects line = raise value_error

abbrev args : Args
args = record {
  output = codes "out/t.npz";
  input = record {
    suffix = npy_suffix;
    npy = ok (table 2 raw);
    npz = raise value_error;
    lines = [];
    loads = no_objects;
  };
  input_format = auto;
  rows_per_block = 4;
  num_embeddings = some 100;
  batch_size = 2;
  field_offset_mode = shared_hash;
  hash_size = none;
  max_samples = some 7;
}

-- No file is there.
abbrev nothing : Result Source
nothing = raise value_error

convert_read_example :
    (w : Converted) × (convert plain args ≡ ok w)
    × (length w.ids ≡ 3)
    × All (All (λ i. i < range_of shared_hash (some 100) (50 ∷ 50 ∷ []) raw)) w.ids
    × (t : EmbeddingTrace) × (init (source_of w) none ≡ ok t)
    × (batches : List (List ℕ)) × (iter_batches no_rows t ≡ ok batches)
    × (flatten batches ≡ flatten w.ids)
    × (length batches ≡ ceil_div 3 2)
    × (stats : Stats ℕ) × (convert_stats 0 sum numpy no_rows plain args nothing 10 1024 ≡ ok stats)
    × (stats.total_lookups ≡ 3 * 2)
unfolding detect_format load_sparse load_array reshaped hash_sizes_of range_of is_npz
convert_read_example =
    convert_read 0 sum numpy 10 1024 plain args no_rows npy_format 2 raw (50 ∷ 50 ∷ []) none nothing
      refl refl refl (refl, (refl, (refl, tt))) refl tt (omega arith) (omega arith) (omega arith)
      (omega arith)

-- The same run with an output of another name.
abbrev unnamed : Args
unnamed = record args { output = codes "out/t" }

-- A table of one row for two fields.
abbrev narrow : Args
narrow = record args { num_embeddings = some 1; field_offset_mode = per_field_offset }

small_table_example :
    (m : Mapped) × (apply_id_mapping narrow 2 raw ≡ ok m)
    × (m.total ≤ 2 - 1)
    × All (λ row. contains (2 - 1) row ≡ true) m.ids
    × (length m.ids ≡ length raw)
small_table_example =
    small_table narrow 1 2 raw refl refl refl (omega arith) (omega arith) (omega arith)
      (refl, (refl, (refl, tt)))
