-- ===== src/Preprocess.antt =====
-- `preprocess` of memtier_embedding_bench/scripts/preprocess_criteo_trace.py: Criteo rows become a
-- trace in an `.npz` file. An input file is the list of its lines; the names of files
-- and the progress messages are not modelled.
pub mod Rows
pub mod Readable
use mem_tier_gds.Base.{
  ℕ, zero, suc, ◌+◌, ◌-◌, ◌*◌, ◌^◌, ◌<◌, ◌≤◌, Bool, true, false, not, ◌&&◌, List, [], ◌∷◌, ◌++◌,
  map, Option, none, some, ◌≡◌, ◌==◌, ltb, leb, if◌then◌else◌, length, take, replicate, sum, All,
  IsRectangular, Result, ok, raise, ◌>>=◌, ◌>>◌, refuse, value_error, runtime_error, zero_division,
}
use mem_tier_gds.Base.Integer.{ℤ, pos, negsuc}
use mem_tier_gds.Base.Text.{Text}
use mem_tier_gds.Criteo.Hash.{Blake2b}
use mem_tier_gds.Criteo.Sizes.{parse_hash_sizes, field_offsets_from_hash_sizes}
use mem_tier_gds.Criteo.Ids.{Mode, categorical_to_ids}
use mem_tier_gds.Criteo.Line.{iter_criteo_rows}
use mem_tier_gds.Trace.{Metadata, Source, Array, npz, matrix, truthy, value_of}
use mem_tier_gds.Trace.Savez.{found_after}
use mem_tier_gds.Trace.Blocks.{blocks_of}
use mem_tier_gds.Base.Numpy.{Numpy}
use mem_tier_gds.Analyze.Report.{Stats, analyze_trace_file}

-- A signed number of 8 bits.
abbrev pub IsInt8 : ℤ → Type 0
IsInt8 (pos n) = n < 128
IsInt8 (negsuc n) = n < 128

-- `np.asarray` of lists of numbers by the bits of an element: what NumPy does with values that do not
-- fit, or rows of several lengths, is its own.
pub record Arrays : Type 0 where
  pub matrix_of : ℕ → List (List ℕ) → Result (List (List ℕ))
  pub int8_of : List ℤ → Result (List ℤ)
  pub uint64_of : List ℕ → Result (List ℕ)
  pub matrix_of_fitting :
      (bits width : ℕ) (rows : List (List ℕ))
      → IsRectangular width rows
      → All (All (λ i. i < 2 ^ bits)) rows
      → matrix_of bits rows ≡ ok rows
  pub int8_of_fitting : (labels : List ℤ) → All IsInt8 labels → int8_of labels ≡ ok labels
  pub uint64_of_fitting : (xs : List ℕ) → All (λ x. x < 2 ^ 64) xs → uint64_of xs ≡ ok xs

pub data DtypeName : Type 0 where
  uint32 : DtypeName
  uint64 : DtypeName
  other_name : DtypeName

-- The bits of an element.
unfoldable pub dtype_from_name : DtypeName → Result ℕ
dtype_from_name uint32 = ok 32
dtype_from_name uint64 = ok 64
dtype_from_name other_name = raise value_error

-- A file at `--input` and the sorted files that match `--input-glob`.
unfoldable pub input_paths {ℓ} : {P : Type ℓ} → Option P → Option (List P) → Result (List P)
input_paths none none = raise value_error
input_paths none (some []) = raise value_error
input_paths none (some (path ∷ paths)) = ok (path ∷ paths)
input_paths (some single) none = ok (single ∷ [])
input_paths (some single) (some paths) = ok (single ∷ paths)

pub record Args : Type 0 where
  pub output : Text
  pub input : Option (List Text)
  pub input_glob : Option (List (List Text))
  pub max_samples : Option ℕ
  pub num_fields : ℕ
  pub batch_size : ℕ
  pub bag_size : ℕ
  pub hash_size : Text
  pub global_id_mode : Mode
  pub rows_per_block : ℕ
  pub drop_empty : Bool
  pub save_ids : Bool
  pub save_blocks : Bool
  pub dtype : DtypeName
  pub seed : ℕ

-- The members of the `.npz`.
pub record Written : Type 0 where
  pub metadata : Metadata
  pub ids : Option (List (List ℕ))
  pub block_ids : Option (List (List ℕ))
  pub offsets : List ℕ
  pub labels : List ℤ
  pub field_offsets : List ℕ
  pub hash_sizes : List ℕ

-- `np.arange(0, n * step + 1, step)`, from a start on with `n` steps left.
unfoldable pub arange : ℕ → ℕ → ℕ → List ℕ
arange start step zero = start ∷ []
arange start step (suc n) = start ∷ arange (start + step) step n

-- `-1 if label is None else int(label)`
abbrev pub label_of : Option ℤ → ℤ
label_of none = negsuc 0
label_of (some label) = label

module _ (hash : Blake2b) (hash_sizes field_offsets : List ℕ) (args : Args) where
  -- The ids of a row, with 0 for features that are dropped.
  unfoldable pub row_of : List Text → Result (List ℕ)
  row_of cats = do
    row_ids ←
        categorical_to_ids hash hash_sizes field_offsets args.global_id_mode args.drop_empty
          args.seed cats
    let padded =
        if args.drop_empty && ltb (length row_ids) args.bag_size
        then row_ids ++ replicate (args.bag_size - length row_ids) 0
        else row_ids
    ok (take args.bag_size padded)

  -- `args.max_samples and idx >= args.max_samples`
  unfoldable pub is_last : ℕ → Bool
  is_last idx = truthy args.max_samples && leb (value_of args.max_samples) idx

  -- The loop over the rows, from the row of number `idx` on.
  unfoldable pub samples_from : ℕ → List (Option ℤ × List Text) → Result (List (List ℕ × ℤ))
  unfolding row_of is_last
  samples_from idx [] = ok []
  samples_from idx ((label, cats) ∷ rows) =
      let later = samples_from (idx + 1) rows in
      do
        row ← row_of cats
        rest ← if is_last idx then ok [] else later
        ok ((row, label_of label) ∷ rest)

-- `ids.shape[1]`, of an array with a row.
abbrev pub width_of : List (List ℕ) → ℕ
width_of [] = 0
width_of (row ∷ rows) = length row

module _ (arrays : Arrays) (args : Args) where
  -- What is saved of the samples.
  unfoldable pub written_of : List ℕ → List ℕ → ℕ → List (List ℕ × ℤ) → Result Written
  unfolding arange
  written_of hash_sizes field_offsets bits samples = do
    ids ← arrays.matrix_of bits (map (λ s. s.0) samples)
    let width = width_of ids
    refuse (width == 0) zero_division
    labels ← arrays.int8_of (map (λ s. s.1) samples)
    saved_offsets ← arrays.uint64_of field_offsets
    saved_sizes ← arrays.uint64_of hash_sizes
    ok (record {
      metadata = record {
        batch_size = some args.batch_size;
        bag_size = some args.bag_size;
        num_fields = some width;
        rows_per_block = some args.rows_per_block;
        trace_layout = some "samples_by_fields";
        total_num_embeddings = some (sum hash_sizes);
      };
      ids = if args.save_ids then some ids else none;
      block_ids = if args.save_blocks then some (blocks_of args.rows_per_block ids) else none;
      offsets = arange 0 width (length ids);
      labels = labels;
      field_offsets = saved_offsets;
      hash_sizes = saved_sizes;
    })

  -- Up to the call of `np.savez`.
  unfoldable pub preprocess : Blake2b → Result Written
  unfolding input_paths dtype_from_name samples_from written_of
  preprocess hash = do
    paths ← input_paths args.input args.input_glob
    hash_sizes ← parse_hash_sizes args.hash_size args.num_fields
    let field_offsets = field_offsets_from_hash_sizes hash_sizes
    bits ← dtype_from_name args.dtype
    rows ← iter_criteo_rows paths args.num_fields
    samples ← samples_from hash hash_sizes field_offsets args 1 rows
    refuse (length samples == 0) runtime_error
    written_of hash_sizes field_offsets bits samples

-- An array of the file, if it is there.
abbrev pub member : ℕ → Option (List (List ℕ)) → Option Array
member width none = none
member width (some rows) = some (matrix width rows)

-- The file as the trace reader finds it.
unfoldable pub source_of : Written → Source
source_of w =
    let width = value_of w.metadata.num_fields in
    npz (some w.metadata) (member width w.ids) (member width w.block_ids)

-- The return value of the script's `preprocess`: the report of what stands at `args.output` after the
-- call of `np.savez`; `before` is what a path that does not end in ".npz" holds.
unfoldable pub preprocess_stats :
    {F : Type 0}
    → F
    → (List ℕ → F)
    → Numpy
    → (List ℕ → Result (List ℕ))
    → Arrays
    → Args
    → Blake2b
    → Result Source
    → ℕ
    → ℕ
    → Result (Stats F)
unfolding preprocess source_of found_after
preprocess_stats zero_slope fit np parse_row arrays args hash before topk block_bytes = do
  w ← preprocess arrays args hash
  found ← found_after args.output before (source_of w)
  analyze_trace_file zero_slope fit np parse_row found args.rows_per_block topk block_bytes
