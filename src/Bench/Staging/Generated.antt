-- ===== src/Bench/Staging/Generated.antt =====
-- The staging run on a file that `generate_embedding_file` of
-- memtier_embedding_bench/scripts/generate_embedding_file.py has written.
use native.Mathlib.Nat.{mul_assoc}
use mem_tier_gds.Base.{ℕ, ◌*◌, ◌%◌, ◌<◌, List, Bool, true, ◌≡◌, ap, ◌∙◌, length, sum, Result, ok}
use mem_tier_gds.Base.Integer.{pos}
use mem_tier_gds.Base.Numpy.{Numpy}
use mem_tier_gds.Workload.{IdSource, generate_ids, unique_counts}
use mem_tier_gds.Workload.Generated.{IsSupported}
use mem_tier_gds.EmbeddingFile.{
  Dtype, dtype_from_arg, Random, Metadata, chunk_bytes, generate_embedding_file,
}
use mem_tier_gds.EmbeddingFile.Stream.{IsStream, length-chunk_bytes, generate_embedding_file_stream}
use mem_tier_gds.Bench.{Synthetic, no_stats, Summary, summary}
use mem_tier_gds.Bench.Counted.{observe_all}
use mem_tier_gds.Bench.Staging.{Args, dtype_size_of, synthetic, run}
use mem_tier_gds.Bench.Staging.Outcome.{block_bytes_of, row_bytes_of, result_of}
use mem_tier_gds.Bench.Staging.Whole.{run_synthetic}

module _ {R T : Type 0} (random : Random R T) (stream : IsStream random) where
  -- The bytes of the file's rows, by the size of one.
  length-table :
      (n dim size seed : ℕ)
      → length
          (chunk_bytes random size (random.standard_normal (random.default_rng seed) (n * dim)).0)
        ≡ n * (dim * size)
  length-table n dim size seed =
      length-chunk_bytes random stream size
        (random.standard_normal (random.default_rng seed) (n * dim)).0
      ∙ ap (◌* size) (stream.length_drawn (random.default_rng seed) (n * dim))
      ∙ mul_assoc n dim size

  module _ {F S : Type 0} (np : Numpy) (source : IdSource F S)
      (parse_row : List ℕ → Result (List ℕ)) where
    -- For a generator of values whose draws follow one stream, a table of whole blocks, a supported
    -- distribution and an overlap ratio in its range: the script writes a file for the table's
    -- rows, dimension and dtype, and the staging run on that file and a synthetic trace of those
    -- rows returns, with the batches asked for, having read each batch's unique blocks once.
    pub run_generated :
        (dtype : Dtype) (file_seed chunk_mb : ℕ) (copy : Bool) (args : Args) (a : Synthetic)
        → args.input ≡ synthetic a
        → dtype_from_arg dtype ≡ ok (dtype_size_of args.dtype args.dtype_size)
        → IsSupported a.dist
        → a.overlap_ratio.in_range ≡ true
        → 0 < a.num_embeddings
        → 0 < args.embedding_dim
        → 0 < chunk_mb
        → 0 < args.rows_per_block
        → a.num_embeddings % args.rows_per_block ≡ 0
        → (file : List ℕ) × (metadata : Metadata) × (trace : List (List ℕ)) × (counts : Summary)
          × (generate_embedding_file random
                (pos a.num_embeddings)
                (pos args.embedding_dim)
                dtype
                file_seed
                (pos chunk_mb)
              ≡ ok (file, metadata))
          × (generate_ids source a.dist a.num_embeddings a.batch_size a.bag_size a.num_batches
                a.overlap_ratio a.seed
              ≡ ok trace)
          × (summary (observe_all np args.rows_per_block trace no_stats) ≡ ok counts)
          × (run np source parse_row file copy args
              ≡ ok (
                  result_of copy
                    (block_bytes_of args)
                    a.num_batches
                    (sum (unique_counts np args.rows_per_block trace))
                    counts))
    unfolding row_bytes_of
    run_generated dtype file_seed mb copy args a from sized supported ratio n0 d0 m0 p0 whole =
        let size = dtype_size_of args.dtype args.dtype_size in
        let dim = args.embedding_dim in
        let file =
          chunk_bytes random size
            (random.standard_normal (random.default_rng file_seed) (a.num_embeddings * dim)).0 in
        let (metadata, written, _) =
          generate_embedding_file_stream random stream a.num_embeddings dim mb file_seed size dtype
            n0 d0 m0 sized in
        let (trace, counts, made, summed, ran) =
          run_synthetic np source parse_row file copy args a from supported ratio n0 p0 whole
            (length-table a.num_embeddings dim size file_seed) in
        (file, metadata, trace, counts, written, made, summed, ran)
