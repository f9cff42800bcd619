-- ===== src/Workload/Main.antt =====
-- `main` of memtier_embedding_bench/python/embedding_workload.py: what it leaves on the disk.
pub mod Read
use mem_tier_gds.Base.{
  ℕ, ◌*◌, ◌-◌, ◌==◌, ◌&&◌, Bool, true, false, List, [], ◌∷◌, ◌++◌, drop, Option, none, some,
  if◌then◌else◌, length, Result, ok, raise, ◌>>=◌, system_exit,
}
use mem_tier_gds.Base.Text.{Text, codes, same_text, ends_with}
use mem_tier_gds.Base.Numpy.{Numpy}
use mem_tier_gds.Trace.{Source, npy, matrix, Metadata, no_metadata, init, num_batches}
use mem_tier_gds.Workload.{Dist, Ratio, IdSource, generate_ids, BlockReuse, estimate_block_reuse}

pub data TraceSource : Type 0 where
  synthetic : TraceSource
  criteo : TraceSource
  dlrm : TraceSource

-- The command line; of the trace file, what stands at its path.
pub record Args : Type 0 where
  pub trace_source : TraceSource
  pub trace_file : Option Source
  pub output : Text
  pub dist : Dist
  pub overlap_ratio : Ratio
  pub batch_size : ℕ
  pub bag_size : ℕ
  pub num_batches : ℕ
  pub num_embeddings : ℕ
  pub rows_per_block : ℕ
  pub seed : ℕ

-- The entries of a `.json` file: of a trace that is inspected, and of one that is generated, where
-- those of the command line come first.
pub data Meta : Type 0 where
  inspected : TraceSource → ℕ → Metadata → Meta
  generated : Args → BlockReuse → ℕ × ℕ → Meta

-- What was written: an array at its path, unless a trace was inspected, and a `.json` file at its.
pub record Saved : Type 0 where
  pub array : Option (Text × ℕ × List (List ℕ))
  pub meta_path : Text
  pub meta : Meta

-- `output.with_suffix(output.suffix + ".json")`, for an output that has a name.
abbrev pub json_path : Text → Text
json_path output = output ++ codes ".json"

-- The path at which `np.save` leaves the array.
unfoldable pub npy_path : Text → Text
unfolding ends_with
npy_path output = if ends_with output (codes ".npy") then output else output ++ codes ".npy"

unfoldable pub inspect : Args → Option Source → Result Saved
inspect args none = raise system_exit
inspect args (some trace_file) = do
  t ← init trace_file (some args.rows_per_block)
  ok (record {
    array = none;
    meta_path = json_path args.output;
    meta = inspected args.trace_source (num_batches t) t.metadata;
  })

-- What is written of a trace.
unfoldable pub save : Numpy → Args → List (List ℕ) → Saved
unfolding npy_path
save np args trace = record {
  array = some (npy_path args.output, args.batch_size * args.bag_size, trace);
  meta_path = json_path args.output;
  meta =
      generated args (estimate_block_reuse np trace args.rows_per_block)
        (length trace, args.batch_size * args.bag_size);
}

module _ {F S : Type 0} (np : Numpy) (source : IdSource F S) where
  unfoldable pub generate : Args → Result Saved
  unfolding save
  generate args = do
    trace ←
        generate_ids source args.dist args.num_embeddings args.batch_size args.bag_size
          args.num_batches args.overlap_ratio args.seed
    ok (save np args trace)

  -- `if args.trace_source != "synthetic"`
  unfoldable pub main_by : TraceSource → Args → Result Saved
  unfolding inspect generate
  main_by synthetic args = generate args
  main_by criteo args = inspect args args.trace_file
  main_by dlrm args = inspect args args.trace_file

  abbrev pub main : Args → Result Saved
  main args = main_by args.trace_source args

-- The entries of the `.json` file that the trace reader knows.
unfoldable pub metadata_of : Meta → Metadata
metadata_of (inspected trace_source num_batches metadata) = no_metadata
metadata_of (generated args summary trace_shape) = record no_metadata {
  batch_size = some args.batch_size;
  bag_size = some args.bag_size;
  rows_per_block = some args.rows_per_block;
}

-- The `.npy` file that a program finds at a path, with its sidecar.
unfoldable pub found_at : Saved → Text → Option Source
unfolding metadata_of same_text
found_at saved path = elim saved.array [
  | none ↦ none
  | some (array_path, width, rows) ↦
      let sidecar =
        if same_text (json_path path) saved.meta_path
        then some (metadata_of saved.meta)
        else none in
      if same_text path array_path then some (npy (matrix width rows) sidecar) else none
]
