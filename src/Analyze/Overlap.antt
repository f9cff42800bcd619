-- ===== src/Analyze/Overlap.antt =====
-- `batch_multi_gpu_overlap` of memtier_embedding_bench/scripts/analyze_trace.py.
use mem_tier_gds.Base.{
  ℕ, ◌+◌, ◌-◌, ◌<◌, max, List, [], ◌∷◌, map, flatten, ◌≡◌, refl, arith, length, length-append, sum,
  contains, contains-append, set_of, Distinct, set_of-Distinct-eq, Distinct-of_append,
  contains-set_of, length-set_of_same, length-set_of-le,
}
use mem_tier_gds.Base.Numpy.{Numpy}

-- `set(int(x) for x in chunk)` for each chunk
pub rank_sets : List (List ℕ) → List (List ℕ)
rank_sets chunks = map set_of chunks

-- The ratio is the pair of the two numbers that are divided. `total - len(union)` is not negative,
-- since a union has at most the elements of its parts.
pub batch_multi_gpu_overlap : Numpy → List ℕ → ℕ → (ℕ × ℕ) × ℕ
unfolding rank_sets
batch_multi_gpu_overlap np blocks ranks =
    let sets = rank_sets (np.array_split blocks ranks) in
    let union = set_of (flatten sets) in
    let total_rank_blocks = sum (map length sets) in
    let duplicate = total_rank_blocks - length union in
    ((duplicate, max total_rank_blocks 1), duplicate)

sum-map-length : (ls : List (List ℕ)) → sum (map length ls) ≡ length (flatten ls)
unfolding flatten
sum-map-length [] = refl
sum-map-length (l ∷ ls) = omega (arith, sum-map-length ls, length-append l (flatten ls))

-- Parts of a list with distinct elements: their sets are the parts themselves.
rank_sets-Distinct :
    (chunks : List (List ℕ)) → Distinct (flatten chunks) → rank_sets chunks ≡ chunks
unfolding rank_sets flatten
rank_sets-Distinct [] d = refl
rank_sets-Distinct (c ∷ chunks) d =
    let both = Distinct-of_append c (flatten chunks) d in
    rw (set_of-Distinct-eq c both.0, rank_sets-Distinct chunks both.1)

contains-flatten-rank_sets :
    (x : ℕ) (chunks : List (List ℕ))
    → contains x (flatten (rank_sets chunks)) ≡ contains x (flatten chunks)
unfolding rank_sets flatten
contains-flatten-rank_sets x [] = refl
contains-flatten-rank_sets x (c ∷ chunks) =
    rw (contains-append, contains-append, contains-set_of, contains-flatten-rank_sets x chunks)

module _ (np : Numpy) where
  -- Every block that several ranks hold is counted once for each rank after the first: the
  -- duplicates and the distinct blocks together are the sizes of the ranks' sets, and the ratio has
  -- the duplicates over those sizes.
  pub overlap_lem :
      (blocks : List ℕ) (ranks : ℕ)
      → 0 < ranks
      → ((batch_multi_gpu_overlap np blocks ranks).1 + length (set_of blocks)
          ≡ sum (map length (rank_sets (np.array_split blocks ranks))))
        × ((batch_multi_gpu_overlap np blocks ranks).0 ≡ (
          (batch_multi_gpu_overlap np blocks ranks).1,
          max (sum (map length (rank_sets (np.array_split blocks ranks)))) 1,
        ))
  unfolding batch_multi_gpu_overlap
  overlap_lem blocks ranks pos =
      let chunks = np.array_split blocks ranks in
      let sets = rank_sets chunks in
      let same : length (set_of (flatten sets)) ≡ length (set_of blocks) =
        length-set_of_same (flatten sets) blocks
          (λ x. rw (contains-flatten-rank_sets) (rw (np.flatten-array_split blocks ranks pos))) in
      (omega (arith, same, sum-map-length sets, length-set_of-le (flatten sets)), refl)

  -- The ranks' shares of distinct blocks never overlap: the ratio and the duplicates are 0,
  -- whatever the number of ranks.
  pub overlap_Distinct :
      (blocks : List ℕ) (ranks : ℕ)
      → 0 < ranks
      → Distinct blocks
      → batch_multi_gpu_overlap np blocks ranks ≡ ((0, max (length blocks) 1), 0)
  unfolding batch_multi_gpu_overlap
  overlap_Distinct blocks ranks pos d =
      let chunks = np.array_split blocks ranks in
      let whole : flatten chunks ≡ blocks = np.flatten-array_split blocks ranks pos in
      let parts : rank_sets chunks ≡ chunks = rank_sets-Distinct chunks (rw whole d) in
      let size : sum (map length chunks) ≡ length blocks = rw (sum-map-length, whole) in
      let none_left : length blocks - length blocks ≡ 0 = omega arith in
      rw (batch_multi_gpu_overlap, parts, size, whole, set_of-Distinct-eq blocks d, none_left)
