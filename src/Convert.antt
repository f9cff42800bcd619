-- ===== src/Convert.antt =====
-- `apply_id_mapping` and `convert` of memtier_embedding_bench/scripts/convert_dlrm_trace.py: sparse ids
-- of DLRM files become a trace in an `.npz` file. Of the names of files the output's is
-- modelled. An id is a number of 64 bits.
pub mod Sparse
pub mod Mapping
pub mod Readable
pub mod SmallTable
use mem_tier_gds.Base.{
  ℕ, zero, suc, ◌+◌, ◌*◌, ◌/◌, ◌%◌, ◌^◌, ◌<◌, max, Bool, true, false, not, ◌&&◌, List, [], ◌∷◌,
  ◌++◌, map, flatten, Option, none, some, ◌≡◌, ◌==◌, ltb, leb, if◌then◌else◌, length, take,
  replicate, sum, Result, ok, raise, ◌>>=◌, ◌>>◌, refuse, value_error, overflow_error,
  zero_division,
}
use mem_tier_gds.Base.Text.{Text, is_empty}
use mem_tier_gds.Criteo.Sizes.{parse_hash_sizes, field_offsets_from_hash_sizes}
use mem_tier_gds.Trace.{Metadata, Source, npz, matrix, truthy, value_of, or_else}
use mem_tier_gds.Trace.Savez.{found_after}
use mem_tier_gds.Trace.Blocks.{blocks_of}
use mem_tier_gds.Preprocess.{arange}
use mem_tier_gds.Convert.Sparse.{Arrays, Input, Format, detect_format, load_sparse}
use mem_tier_gds.Base.Numpy.{Numpy}
use mem_tier_gds.Analyze.Report.{Stats, analyze_trace_file}

-- `field_offset_mode`
pub data Mode : Type 0 where
  per_field_offset : Mode
  shared_hash : Mode
  direct : Mode
  other_mode : Mode

pub record Args : Type 0 where
  pub output : Text
  pub input : Input
  pub input_format : Format
  pub rows_per_block : ℕ
  pub num_embeddings : Option ℕ
  pub batch_size : ℕ
  pub field_offset_mode : Mode
  pub hash_size : Option Text
  pub max_samples : Option ℕ

-- `np.uint64(x)` of a Python number.
abbrev pub as_uint64 : ℕ → Result ℕ
as_uint64 x = if ltb x (2 ^ 64) then ok x else raise overflow_error

abbrev pub all_uint64 : List ℕ → Result (List ℕ)
all_uint64 [] = ok []
all_uint64 (x ∷ xs) = do y ← as_uint64 x; ys ← all_uint64 xs; ok (y ∷ ys)

-- `ids.max()`, or 0 if there is no id.
unfoldable pub max_id : List ℕ → ℕ
max_id [] = 0
max_id (i ∷ ids) = max i (max_id ids)

-- `a // b`
abbrev pub divide : ℕ → ℕ → Result ℕ
divide a zero = raise zero_division
divide a (suc b) = ok (a / suc b)

-- `if args.hash_size`
abbrev pub given : Option Text → Option Text
given none = none
given (some value) = if is_empty value then none else some value

unfoldable pub hash_sizes_of : Args → ℕ → List (List ℕ) → Result (List ℕ)
unfolding max_id
hash_sizes_of args num_fields ids = elim (given args.hash_size) [
  | some value ↦ parse_hash_sizes value num_fields
  | none ↦
      if truthy args.num_embeddings
      then (do
        part ← divide (value_of args.num_embeddings) num_fields
        ok (replicate num_fields (max 1 part)))
      else ok (replicate num_fields (max_id (flatten ids) + 1))
]

-- The columns of a row, each into the range of its field: sums of 64 bits wrap around.
unfoldable pub map_row : List ℕ → List ℕ → List ℕ → List ℕ
map_row [] sizes row = []
map_row (offset ∷ offsets) [] row = []
map_row (offset ∷ offsets) (size ∷ sizes) [] = []
map_row (offset ∷ offsets) (size ∷ sizes) (i ∷ row) =
    (offset + i % size) % 2 ^ 64 ∷ map_row offsets sizes row

abbrev pub modulo_all : ℕ → List (List ℕ) → List (List ℕ)
modulo_all total = map (map (λ i. i % total))

pub record Mapped : Type 0 where
  pub ids : List (List ℕ)
  pub offsets : List ℕ
  pub hash_sizes : List ℕ
  pub total : ℕ

-- `mapped`, by the mode.
unfoldable pub mapped_ids : Args → List (List ℕ) → List ℕ → List ℕ → Result (List (List ℕ))
unfolding map_row max_id
mapped_ids args ids hash_sizes offsets = elim args.field_offset_mode [
  | per_field_offset ↦ (do
    starts ← all_uint64 offsets
    sizes ← all_uint64 hash_sizes
    ok (map (map_row starts sizes) ids))
  | shared_hash ↦ (do
    total ← as_uint64 (value_of (or_else args.num_embeddings (some (sum hash_sizes))))
    ok (modulo_all total ids))
  | direct ↦ (do
    total ← as_uint64 (
        max
          (value_of (
            or_else args.num_embeddings
              (some (max_id (flatten ids) + (if length (flatten ids) == 0 then 0 else 1)))))
          1)
    ok (modulo_all total ids))
  | other_mode ↦ raise value_error
]

unfoldable pub apply_id_mapping : Args → ℕ → List (List ℕ) → Result Mapped
unfolding hash_sizes_of mapped_ids
apply_id_mapping args num_fields ids = do
  hash_sizes ← hash_sizes_of args num_fields ids
  let offsets = field_offsets_from_hash_sizes hash_sizes
  mapped ← mapped_ids args ids hash_sizes offsets
  ok (record {
    ids = mapped;
    offsets = offsets;
    hash_sizes = hash_sizes;
    total = value_of (or_else args.num_embeddings (some (sum hash_sizes)));
  })

-- The members of the `.npz`.
pub record Converted : Type 0 where
  pub metadata : Metadata
  pub ids : List (List ℕ)
  pub block_ids : List (List ℕ)
  pub offsets : List ℕ
  pub field_offsets : List ℕ
  pub hash_sizes : List ℕ

-- Up to the call of `np.savez`.
unfoldable pub convert : Arrays → Args → Result Converted
unfolding detect_format load_sparse apply_id_mapping arange
convert arrays args = do
  fmt ← detect_format args.input.suffix args.input_format
  (bag_size, raw) ← load_sparse arrays args.input fmt args.max_samples
  mapped ← apply_id_mapping args bag_size raw
  refuse (bag_size == 0) zero_division
  field_offsets ← all_uint64 mapped.offsets
  hash_sizes ← all_uint64 mapped.hash_sizes
  ok (record {
    metadata = record {
      batch_size = some args.batch_size;
      bag_size = some bag_size;
      num_fields = some bag_size;
      rows_per_block = some args.rows_per_block;
      trace_layout = some "samples_by_fields";
      total_num_embeddings = some mapped.total;
    };
    ids = mapped.ids;
    block_ids = blocks_of args.rows_per_block mapped.ids;
    offsets = arange 0 bag_size (length mapped.ids);
    field_offsets = field_offsets;
    hash_sizes = hash_sizes;
  })

-- The file as the trace reader finds it.
unfoldable pub source_of : Converted → Source
source_of w =
    let width = value_of w.metadata.num_fields in
    npz (some w.metadata) (some (matrix width w.ids)) (some (matrix width w.block_ids))

-- The return value of the script's `convert`: the report of what stands at `args.output` after the
-- call of `np.savez`; `before` is what a path that does not end in ".npz" holds.
unfoldable pub convert_stats :
    {F : Type 0}
    → F
    → (List ℕ → F)
    → Numpy
    → (List ℕ → Result (List ℕ))
    → Arrays
    → Args
    → Result Source
    → ℕ
    → ℕ
    → Result (Stats F)
unfolding convert source_of found_after
convert_stats zero_slope fit np parse_row arrays args before topk block_bytes = do
  w ← convert arrays args
  found ← found_after args.output before (source_of w)
  analyze_trace_file zero_slope fit np parse_row found args.rows_per_block topk block_bytes
