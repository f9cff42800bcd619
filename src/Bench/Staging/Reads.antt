-- ===== src/Bench/Staging/Reads.antt =====
-- When the staging run succeeds, and what it has read then.
use native.Mathlib.Nat.{add-mul}
use mathlib.Core.Path.{fun_ext}
use mem_tier_gds.Base.{
  drop_of_length-le, ℕ, zero, suc, ◌+◌, ◌*◌, ◌/◌, Bool, true, ◌&&◌, ◌||◌, List, [], ◌∷◌, ◌++◌, map,
  some, ◌≡◌, refl, ap, sym, ◌∙◌, arith, inl, inr, Bool-cases, ==_iff, ◌==◌, leb, if◌then◌else◌,
  length, length-append, length-take, length-drop, get_elem?, take, drop, sum, set_of,
  set_of-Distinct-eq, Result, ok, raise, ◌>>=◌, runtime_error,
}
use mem_tier_gds.Base.Numpy.{Numpy, unique-Distinct}
use mem_tier_gds.Workload.{ids_to_blocks, unique_counts}
use mem_tier_gds.Trace.Mismatch.{drop_at}
use mem_tier_gds.Bench.{Batches, Stats, observe}
use mem_tier_gds.Bench.Counted.{observe_all}
use mem_tier_gds.Bench.Staging.{Traffic, read_blocks, run_batches}

-- The batches that a loop gets, if none raises.
pub record Yields (b : Batches) (l : List (List ℕ)) : Type 0 where
  pub count : b.num_batches ≡ length l
  pub found : (i : ℕ) (x : List ℕ) → get_elem? l i ≡ some x → b.batch i ≡ ok x

module _ (np : Numpy) (rows_per_block : ℕ) where
  -- The blocks that are read, one after the other.
  unfoldable pub reads_of : List (List ℕ) → List ℕ
  reads_of [] = []
  reads_of (batch ∷ batches) = ids_to_blocks np rows_per_block batch ++ reads_of batches

  pub length-reads_of :
      (l : List (List ℕ)) → length (reads_of l) ≡ sum (unique_counts np rows_per_block l)
  unfolding reads_of unique_counts ids_to_blocks
  length-reads_of [] = refl
  length-reads_of (b ∷ l) =
      let blocks = ids_to_blocks np rows_per_block b in
      let distinct : set_of blocks ≡ blocks =
        set_of-Distinct-eq blocks (unique-Distinct np (map (λ i. i / rows_per_block) b)) in
      omega (arith, ap length distinct, length-append blocks (reads_of l), length-reads_of l)

module _ (file : List ℕ) (block_bytes : ℕ) (copy : Bool) where
  -- Whether the file has the whole block.
  unfoldable pub has_block : ℕ → Bool
  has_block block = block_bytes == 0 || leb ((block + 1) * block_bytes) (length file)

  unfoldable pub has_blocks : List ℕ → Bool
  has_blocks [] = true
  has_blocks (block ∷ blocks) = let rest = has_blocks blocks in has_block block && rest

  has_blocks-append : (a b : List ℕ) → has_blocks (a ++ b) ≡ (has_blocks a && has_blocks b)
  unfolding has_blocks
  has_blocks-append [] b = refl
  has_blocks-append (x ∷ a) b = ground (arith, has_blocks-append a b)

  -- The counts after so many blocks.
  unfoldable pub after : Traffic → ℕ → Traffic
  after t n = record {
    bytes_read = t.bytes_read + n * block_bytes;
    dram_to_gpu = if copy then t.dram_to_gpu + n * block_bytes else t.dram_to_gpu;
    posix_reads = t.posix_reads + n;
  }

  read_whole :
      (block : ℕ)
      → (length (take block_bytes (drop (block * block_bytes) file)) == block_bytes)
        ≡ has_block block
  unfolding has_block
  read_whole block =
      let next : (block + 1) * block_bytes ≡ block * block_bytes + block_bytes = omega arith in
      ground (
        arith,
        next,
        length-take block_bytes (drop (block * block_bytes) file),
        length-drop (block * block_bytes) file,
      )

  after_one :
      (t : Traffic) (n k : ℕ)
      → k ≡ block_bytes
      → after
          (record {
            bytes_read = t.bytes_read + k;
            posix_reads = t.posix_reads + 1;
            dram_to_gpu = if copy then t.dram_to_gpu + block_bytes else t.dram_to_gpu;
          })
          n
        ≡ after t (suc n)
  unfolding after
  after_one t n k e =
      let step : suc n * block_bytes ≡ block_bytes + n * block_bytes = omega arith in
      ground (arith, e, step)

  after_none : (t : Traffic) → after t 0 ≡ t
  unfolding after
  after_none t = let none : 0 * block_bytes ≡ 0 = omega arith in ground (arith, none)

  read_blocks_lem :
      (blocks : List ℕ) (t : Traffic)
      → read_blocks file block_bytes copy blocks t
        ≡ (if has_blocks blocks then ok (after t (length blocks)) else raise runtime_error)
  unfolding read_blocks has_blocks
  read_blocks_lem [] t = ap ok (sym (after_none t))
  read_blocks_lem (block ∷ blocks) t =
      let bytes = take block_bytes (drop (block * block_bytes) file) in
      let next : Traffic = record {
        bytes_read = t.bytes_read + length bytes;
        posix_reads = t.posix_reads + 1;
        dram_to_gpu = if copy then t.dram_to_gpu + block_bytes else t.dram_to_gpu;
      } in
      elim (Bool-cases (has_block block)) [
        | inl held ↦
            let whole : (length bytes == block_bytes) ≡ true = read_whole block ∙ held in
            rw (whole, held)
              (read_blocks_lem blocks next
                ∙ ap (λ u. if has_blocks blocks then ok u else raise runtime_error)
                    (after_one t (length blocks) (length bytes)
                      ((==_iff (length bytes) block_bytes).0 whole)))
        | inr short ↦ rw (read_whole block, short) refl
      ]

  after-after : (t : Traffic) (m n : ℕ) → after (after t m) n ≡ after t (m + n)
  unfolding after
  after-after t m n =
      let both : (m + n) * block_bytes ≡ m * block_bytes + n * block_bytes =
        add-mul m n block_bytes in
      ground (arith, both)

  module _ (np : Numpy) (rows_per_block : ℕ) where
    -- The loop over batches that are given.
    pub run_list : List (List ℕ) → Stats → Traffic → Result (Stats × Traffic)
    run_list [] s t = ok (s, t)
    run_list (batch ∷ batches) s t = do
      t' ← read_blocks file block_bytes copy (ids_to_blocks np rows_per_block batch) t
      run_list batches (observe np rows_per_block batch s) t'

    pub run_batches-list :
        (b : Batches) (l : List (List ℕ))
        → Yields b l
        → (i left : ℕ) (s : Stats) (t : Traffic) → i + left ≡ length l
        → run_batches file block_bytes copy np rows_per_block b i left s t ≡ run_list (drop i l) s t
    unfolding run_batches run_list
    run_batches-list b l yields i zero s t e =
        let past : drop i l ≡ [] = drop_of_length-le i l (omega (arith, e)) in rw (past) refl
    run_batches-list b l yields i (suc left) s t e =
        let (batch, here, rest) = drop_at l i (omega (arith, e)) in
        rw (yields.found i batch here, rest)
          (ap
            (λ next.
              read_blocks file block_bytes copy (ids_to_blocks np rows_per_block batch) t >>= next)
            (fun_ext (λ t'.
              run_batches-list b l yields (i + 1) left (observe np rows_per_block batch s) t'
                (omega (arith, e)))))

    pub run_list_lem :
        (l : List (List ℕ)) (s : Stats) (t : Traffic)
        → run_list l s t ≡ (
            if has_blocks (reads_of np rows_per_block l)
            then ok
                (observe_all np rows_per_block l s, after t (length (reads_of np rows_per_block l)))
            else raise runtime_error)
    unfolding run_list reads_of observe_all has_blocks
    run_list_lem [] s t = ap (λ u. ok (s, u)) (sym (after_none t))
    run_list_lem (batch ∷ l) s t =
        let blocks = ids_to_blocks np rows_per_block batch in
        let later = reads_of np rows_per_block l in
        elim (Bool-cases (has_blocks blocks)) [
          | inl held ↦
              let s' = observe np rows_per_block batch s in
              let total : after (after t (length blocks)) (length later)
                  ≡ after t (length (blocks ++ later)) =
                after-after t (length blocks) (length later)
                ∙ ap (after t) (sym (length-append blocks later)) in
              rw (read_blocks_lem blocks t, has_blocks-append blocks later, held)
                (run_list_lem l s' (after t (length blocks))
                  ∙ ap
                      (λ u.
                        if has_blocks later
                        then ok (observe_all np rows_per_block l s', u)
                        else raise runtime_error)
                      total)
          | inr short ↦ rw (read_blocks_lem blocks t, has_blocks-append blocks later, short) refl
        ]
