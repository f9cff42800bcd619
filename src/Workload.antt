-- ===== src/Workload.antt =====
-- memtier_embedding_bench/python/embedding_workload.py: synthetic traces of ids, and how far
-- consecutive batches share blocks.
pub mod Generated
pub mod Reuse
pub mod Main
use mem_tier_gds.Base.{
  ℕ, zero, suc, ◌+◌, ◌-◌, ◌*◌, ◌/◌, ◌≤◌, ◌<◌, min, max, Bool, true, false, not, ◌&&◌, List, [], ◌∷◌,
  ◌++◌, map, ◌≡◌, ltb, if◌then◌else◌, length, take, sum, All, set_of, inter, Result, ok, raise,
  ◌>>=◌, ◌>>◌, refuse, value_error,
}
use mem_tier_gds.Base.Numpy.{Numpy}
use mem_tier_gds.Base.Text.{is_empty}

pub data Dist : Type 0 where
  uniform : Dist
  zipf : Dist
  other_dist : Dist

-- `overlap_ratio`, a floating-point number: the test `0.0 <= overlap_ratio < 1.0`, and
-- `int(n * overlap_ratio)`, which for a ratio in that range is at most `n`.
pub record Ratio : Type 0 where
  pub in_range : Bool
  pub part_of : ℕ → ℕ
  pub part_of-le : (n : ℕ) → in_range ≡ true → part_of n ≤ n

-- NumPy's generator by its states, and the floating-point formula of the bounded Zipf ranks at one
-- exponent: `floor` of a power or an exponential, as a number.
pub record IdSource (F S : Type 0) : Type 0 where
  pub default_rng : ℕ → S
  pub integers : S → ℕ → ℕ → List ℕ × S
  pub random : S → ℕ → List F × S
  pub zipf_rank : ℕ → F → ℕ
  pub length-integers : (s : S) (high count : ℕ) → length (integers s high count).0 ≡ count
  pub integers_below :
      (s : S) (high count : ℕ) → 0 < high → All (λ i. i < high) (integers s high count).0
  pub length-random : (s : S) (count : ℕ) → length (random s count).0 ≡ count

module _ {F S : Type 0} (source : IdSource F S) (dist : Dist) (num_embeddings : ℕ) where
  -- The new ids of a batch; `num_embeddings` is positive.
  unfoldable pub fresh_ids : S → ℕ → Result (List ℕ × S)
  fresh_ids rng fresh_count = elim dist [
    | uniform ↦ ok (source.integers rng num_embeddings fresh_count)
    | zipf ↦
        (let (u, rng') = source.random rng fresh_count in
          let ranks = map (source.zipf_rank num_embeddings) u in
          ok (map (λ rank. min rank (num_embeddings - 1)) ranks, rng'))
    | other_dist ↦ raise value_error
  ]

  -- `for b in range(num_batches)`, from `b` on, with the row before it and the rows left.
  unfoldable pub rows_from : ℕ → ℕ → ℕ → List ℕ → ℕ → S → Result (List (List ℕ))
  unfolding fresh_ids
  rows_from total overlap b previous zero rng = ok []
  rows_from total overlap b previous (suc left) rng = do
    (fresh, rng') ← fresh_ids rng (total - (if ltb 0 b then overlap else 0))
    let row = if ltb 0 b && ltb 0 overlap then take overlap previous ++ fresh else fresh
    rows ← rows_from total overlap (b + 1) row left rng'
    ok (row ∷ rows)

  unfoldable pub generate_ids : ℕ → ℕ → ℕ → Ratio → ℕ → Result (List (List ℕ))
  unfolding rows_from
  generate_ids batch_size bag_size num_batches overlap_ratio seed = do
    refuse (not overlap_ratio.in_range) value_error
    let total_per_batch = batch_size * bag_size
    let overlap = overlap_ratio.part_of total_per_batch
    rows_from total_per_batch overlap 0 [] num_batches (source.default_rng seed)

module _ (np : Numpy) (rows_per_block : ℕ) where
  unfoldable pub ids_to_blocks : List ℕ → List ℕ
  ids_to_blocks ids = np.unique (map (λ i. i / rows_per_block) ids)

  -- `unique_counts`
  unfoldable pub unique_counts : List (List ℕ) → List ℕ
  unfolding ids_to_blocks
  unique_counts [] = []
  unique_counts (batch ∷ batches) = length (set_of (ids_to_blocks batch)) ∷ unique_counts batches

  -- `reuse_rates`, each as the two numbers that are divided, from a set of previous blocks on.
  unfoldable pub reuse_rates : List ℕ → List (List ℕ) → List (ℕ × ℕ)
  unfolding ids_to_blocks
  reuse_rates previous [] = []
  reuse_rates previous (batch ∷ batches) =
      let blocks = set_of (ids_to_blocks batch) in
      let rest = reuse_rates blocks batches in
      if is_empty previous
      then rest
      else (length (inter blocks previous), max (length blocks) 1) ∷ rest

-- The mean of counts as a sum and how many they are; 0 for none.
abbrev pub mean : List ℕ → ℕ × ℕ
mean [] = (0, 1)
mean (x ∷ xs) = (sum (x ∷ xs), length (x ∷ xs))

-- The rates stand for their mean.
pub record BlockReuse : Type 0 where
  pub avg_unique_blocks_per_batch : ℕ × ℕ
  pub avg_inter_batch_block_reuse : List (ℕ × ℕ)
  pub num_batches : ℕ

pub estimate_block_reuse : Numpy → List (List ℕ) → ℕ → BlockReuse
unfolding unique_counts reuse_rates
estimate_block_reuse np trace rows_per_block = record {
  avg_unique_blocks_per_batch = mean (unique_counts np rows_per_block trace);
  avg_inter_batch_block_reuse = reuse_rates np rows_per_block [] trace;
  num_batches = length trace;
}
