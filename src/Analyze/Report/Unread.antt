-- ===== src/Analyze/Report/Unread.antt =====
-- The report of a trace that has block ids and no ids.
use mem_tier_gds.Base.{ℕ, List, [], none, some, Option, flatten, ◌≡◌, Result, ok, ◌>>=◌, set_of}
use mem_tier_gds.Base.Numpy.{Numpy}
use mem_tier_gds.Trace.{
  Array, Metadata, npz, batch_from_array, get_batch_block_ids, EmbeddingTrace, init,
}
use mem_tier_gds.Trace.Unread.{iter_blocks_only}
use mem_tier_gds.Analyze.Report.{Stats, analyze_trace_file}
use mem_tier_gds.Analyze.Report.Whole.{analyze_lem}

module _ {F : Type 0} (zero_slope : F) (fit : List ℕ → F) (np : Numpy)
    (parse_row : List ℕ → Result (List ℕ)) where
  -- A trace whose file has stored block ids but no ids is reported as an empty one, without lookups
  -- and without blocks, although the block ids of each batch can be asked for and are those that are
  -- stored.
  pub analyze_blocks_only :
      (meta : Option Metadata) (blocks : Array) (rows_per_block topk block_bytes : ℕ)
      → (stats : Stats F) × (analyze_trace_file zero_slope fit np parse_row
            (npz meta none (some blocks))
            rows_per_block
            topk
            block_bytes
          ≡ ok stats)
        × (stats.total_lookups ≡ 0)
        × (stats.unique_blocks ≡ 0)
        × (t : EmbeddingTrace) × (init (npz meta none (some blocks)) (some rows_per_block) ≡ ok t)
        × ((i : ℕ)
            → get_batch_block_ids np parse_row t i
              ≡ (batch_from_array t blocks i >>= λ b. ok (np.unique b)))
  unfolding flatten set_of
  analyze_blocks_only meta blocks per topk bytes =
      let (t, opened, batches, none_of, stored) =
        iter_blocks_only np parse_row meta blocks (some per) in
      let a =
        analyze_lem zero_slope fit np parse_row (npz meta none (some blocks)) per topk bytes t []
          opened batches in
      (a.0, a.1, a.2, a.4, t, opened, stored)
