-- ===== src/Trace/Unread.antt =====
-- A trace that has block ids and no ids, as `np.savez` leaves one where ids are not saved.
use mem_tier_gds.Base.{ℕ, List, [], none, some, Option, ◌≡◌, refl, Result, ok, ◌>>=◌}
use mem_tier_gds.Base.Numpy.{Numpy}
use mem_tier_gds.Trace.{
  Array, Metadata, EmbeddingTrace, npz, init, num_batches, batch_from_array, get_batch_block_ids,
  collect, iter_batches, iter_block_batches,
}

module _ (np : Numpy) (parse_row : List ℕ → Result (List ℕ)) where
  -- A trace whose file has stored block ids but no ids has no batches: both iterators yield nothing,
  -- although the block ids of each batch can be asked for and are those that are stored.
  pub iter_blocks_only :
      (meta : Option Metadata) (blocks : Array) (rows_per_block : Option ℕ)
      → (t : EmbeddingTrace) × (init (npz meta none (some blocks)) rows_per_block ≡ ok t)
        × (iter_batches parse_row t ≡ ok [])
        × (iter_block_batches np parse_row t ≡ ok [])
        × ((i : ℕ)
            → get_batch_block_ids np parse_row t i
              ≡ (batch_from_array t blocks i >>= λ b. ok (np.unique b)))
  unfolding init num_batches iter_batches iter_block_batches collect get_batch_block_ids
  iter_blocks_only meta blocks rows_per_block = (_, refl, refl, refl, λ i. refl)
