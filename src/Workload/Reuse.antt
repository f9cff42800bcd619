-- ===== src/Workload/Reuse.antt =====
-- What `estimate_block_reuse` reports of traces whose batches overlap.
use mem_tier_gds.Base.{
  ℕ, zero, suc, ◌-◌, ◌/◌, ◌≤◌, ◌<◌, true, false, List, [], ◌∷◌, map, ◌≡◌, refl, ap, sym, ◌∙◌, arith,
  length, take, All, IsRectangular, contains, contains_head, contains-set_of, set_of, inter,
  length-inter-le,
}
use mem_tier_gds.Base.Numpy.{Numpy}
use mem_tier_gds.Base.Text.{is_empty}
use mem_tier_gds.Workload.{ids_to_blocks, reuse_rates, estimate_block_reuse}
use mem_tier_gds.Workload.Generated.{Overlaps}

length-inter_pos :
    (x : ℕ) (a b : List ℕ) → contains x a ≡ true → contains x b ≡ true → 0 < length (inter a b)
unfolding contains inter
length-inter_pos x [] b ha hb = grind (arith, ha)
length-inter_pos x (y ∷ a) b ha hb = ground (arith, ha, hb, length-inter_pos x a b)

is_empty_of_contains : (x : ℕ) (a : List ℕ) → contains x a ≡ true → is_empty a ≡ false
unfolding contains
is_empty_of_contains x [] h = grind (arith, h)
is_empty_of_contains x (y ∷ a) h = refl

-- A share that is more than nothing and at most the whole.
abbrev pub IsShare : ℕ × ℕ → Type 0
IsShare rate = (0 < rate.0) × (rate.0 ≤ rate.1)

module _ (np : Numpy) (rows_per_block : ℕ) where
  blocks_of_batch : List ℕ → List ℕ
  blocks_of_batch batch = set_of (ids_to_blocks np rows_per_block batch)

  contains-blocks_of :
      (x : ℕ) (ids : List ℕ) → contains (x / rows_per_block) (blocks_of_batch (x ∷ ids)) ≡ true
  unfolding blocks_of_batch ids_to_blocks
  contains-blocks_of x ids =
      contains-set_of (x / rows_per_block) (np.unique (map (λ i. i / rows_per_block) (x ∷ ids)))
      ∙ np.contains-unique (x / rows_per_block) (map (λ i. i / rows_per_block) (x ∷ ids))
      ∙ contains_head (x / rows_per_block) (map (λ i. i / rows_per_block) ids)

  heads : (k x y : ℕ) (a b : List ℕ) → take (suc k) (y ∷ b) ≡ take (suc k) (x ∷ a) → y ≡ x
  heads k x y a b e = grind (arith, e)

  rates_after :
      (k total : ℕ) (previous : List ℕ) (batches : List (List ℕ))
      → 0 < k
      → 0 < total
      → length previous ≡ total
      → IsRectangular total batches
      → Overlaps k (previous ∷ batches)
      → (length (reuse_rates np rows_per_block (blocks_of_batch previous) batches) ≡ length batches)
        × All IsShare (reuse_rates np rows_per_block (blocks_of_batch previous) batches)
  unfolding reuse_rates blocks_of_batch
  rates_after k total previous [] k0 t0 len wide over = (refl, tt)
  rates_after zero total previous (b ∷ batches) k0 t0 len wide over = absurd (omega arith)
  rates_after (suc k) total [] (b ∷ batches) k0 t0 len wide over = absurd (omega arith)
  rates_after (suc k) total (x ∷ previous) ([] ∷ batches) k0 t0 len wide over = absurd (omega arith)
  rates_after (suc k) total (x ∷ previous) ((y ∷ b) ∷ batches) k0 t0 len wide over =
      let same : y ≡ x = heads k x y previous b over.0 in
      let before : contains (x / rows_per_block) (blocks_of_batch (x ∷ previous)) ≡ true =
        contains-blocks_of x previous in
      let here : contains (x / rows_per_block) (blocks_of_batch (y ∷ b)) ≡ true =
        rw (sym same) (contains-blocks_of y b) in
      let held : is_empty (blocks_of_batch (x ∷ previous)) ≡ false =
        is_empty_of_contains (x / rows_per_block) (blocks_of_batch (x ∷ previous)) before in
      let common : 0 < length (inter (blocks_of_batch (y ∷ b)) (blocks_of_batch (x ∷ previous))) =
        length-inter_pos (x / rows_per_block) (blocks_of_batch (y ∷ b))
          (blocks_of_batch (x ∷ previous)) here before in
      let part : length (inter (blocks_of_batch (y ∷ b)) (blocks_of_batch (x ∷ previous)))
          ≤ length (blocks_of_batch (y ∷ b)) =
        length-inter-le (blocks_of_batch (y ∷ b)) (blocks_of_batch (x ∷ previous)) in
      let (count, shares) = rates_after (suc k) total (y ∷ b) batches k0 t0 wide.0 wide.1 over.1 in
      rw held (ap suc count, ((common, omega (arith, part)), shares))

  -- In a trace of batches of one width, not 0, each of which begins with ids of the batch before it,
  -- every batch after the first has a reuse rate, and it is more than 0 and at most 1.
  pub reuse_of_overlap :
      (k total : ℕ) (trace : List (List ℕ))
      → 0 < k
      → 0 < total
      → IsRectangular total trace
      → Overlaps k trace
      → (length (estimate_block_reuse np trace rows_per_block).avg_inter_batch_block_reuse
          ≡ length trace - 1)
        × All IsShare (estimate_block_reuse np trace rows_per_block).avg_inter_batch_block_reuse
  unfolding estimate_block_reuse reuse_rates blocks_of_batch
  reuse_of_overlap k total [] k0 t0 wide over = (refl, tt)
  reuse_of_overlap k total (b ∷ batches) k0 t0 wide over =
      let (count, shares) = rates_after k total b batches k0 t0 wide.0 wide.1 over in
      (omega (arith, count), shares)
