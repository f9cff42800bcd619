-- ===== src/Bench/Staging/Outcome.antt =====
-- The outcome of the staging run, by the table and the ids.
use native.Mathlib.Nat.{zero-add, mul_assoc, mul-le-mul_right}
use mem_tier_gds.Base.{
  ℕ, ◌+◌, ◌-◌, ◌*◌, ◌/◌, ◌%◌, ◌≤◌, ◌<◌, Bool, true, false, List, [], ◌∷◌, map, flatten, ◌≡◌, ◌≢◌,
  refl, sym, ◌∙◌, arith, inl, inr, Bool-cases, ◌==◌, if◌then◌else◌, length, sum, contains,
  contains_head, contains_tail, contains-append, ==_iff, Result, ok, raise, runtime_error,
}
use mem_tier_gds.Base.Numpy.{Numpy}
use mem_tier_gds.Workload.{IdSource, ids_to_blocks, unique_counts}
use mem_tier_gds.Bench.{Batches, no_stats, Summary, summary}
use mem_tier_gds.Bench.Counted.{observe_all, summary_total}
use mem_tier_gds.Bench.Staging.{no_traffic, dtype_size_of, StagingResult, Args, open_batches, run}
use mem_tier_gds.Bench.Staging.Reads.{
  Yields, reads_of, length-reads_of, has_block, has_blocks, after, run_batches-list, run_list_lem,
}

-- The size of a block in bytes.
unfoldable pub block_bytes_of : Args → ℕ
block_bytes_of args =
    args.rows_per_block * args.embedding_dim * dtype_size_of args.dtype args.dtype_size

-- The result of a run that reads `n` blocks.
unfoldable pub result_of : Bool → ℕ → ℕ → ℕ → Summary → StagingResult
result_of copy block_bytes num_batches n counts = record {
  num_batches = num_batches;
  ssd_read_bytes = n * block_bytes;
  dram_to_gpu_bytes = if copy then n * block_bytes else 0;
  posix_reads = n;
  counts = counts;
}

module _ (file : List ℕ) (block_bytes : ℕ) (copy : Bool) where
  has_block_of-le :
      (x : ℕ) → (x + 1) * block_bytes ≤ length file → has_block file block_bytes copy x ≡ true
  unfolding has_block
  has_block_of-le x h = ground (arith, h)

  not-has_block_of-lt :
      (x : ℕ)
      → 0 < block_bytes
      → length file < (x + 1) * block_bytes
      → has_block file block_bytes copy x ≡ false
  unfolding has_block
  not-has_block_of-lt x b0 h = ground (arith, b0, h)

  has_blocks_of :
      (blocks : List ℕ)
      → ((x : ℕ) → contains x blocks ≡ true → has_block file block_bytes copy x ≡ true)
      → has_blocks file block_bytes copy blocks ≡ true
  unfolding has_blocks
  has_blocks_of [] h = refl
  has_blocks_of (x ∷ blocks) h =
      rw (h x (contains_head x blocks))
        (has_blocks_of blocks (λ y m. h y (contains_tail y x blocks m)))

  not-has_blocks_of :
      (x : ℕ) (blocks : List ℕ)
      → contains x blocks ≡ true
      → has_block file block_bytes copy x ≡ false
      → has_blocks file block_bytes copy blocks ≡ false
  unfolding has_blocks contains
  not-has_blocks_of x [] m h = grind (arith, m)
  not-has_blocks_of x (y ∷ blocks) m h = ground (arith, m, h, not-has_blocks_of x blocks)

module _ (np : Numpy) (rows_per_block : ℕ) where
  contains-map_block :
      (x : ℕ) (ids : List ℕ)
      → contains x (map (λ i. i / rows_per_block) ids) ≡ true
      → (i : ℕ) × (contains i ids ≡ true) × (i / rows_per_block ≡ x)
  unfolding contains
  contains-map_block x [] m = absurd (grind (arith, m))
  contains-map_block x (i ∷ ids) m = elim (Bool-cases (i / rows_per_block == x)) [
    | inl here ↦ (i, contains_head i ids, (==_iff (i / rows_per_block) x).0 here)
    | inr there ↦
        let (j, held, e) = contains-map_block x ids (ground (arith, m, there)) in
        (j, contains_tail j i ids held, e)
  ]

  contains-block_of :
      (i : ℕ) (ids : List ℕ)
      → contains i ids ≡ true
      → contains (i / rows_per_block) (map (λ j. j / rows_per_block) ids) ≡ true
  unfolding contains
  contains-block_of i [] m = grind (arith, m)
  contains-block_of i (j ∷ ids) m = ground (arith, m, contains-block_of i ids)

  -- Each block that is read has an id of the trace, and the other way round.
  pub block_read :
      (x : ℕ) (l : List (List ℕ))
      → contains x (reads_of np rows_per_block l) ≡ true
      → (i : ℕ) × (contains i (flatten l) ≡ true) × (i / rows_per_block ≡ x)
  unfolding reads_of flatten ids_to_blocks contains
  block_read x [] m = absurd (grind (arith, m))
  block_read x (ids ∷ l) m =
      let quotients = map (λ i. i / rows_per_block) ids in
      elim (Bool-cases (contains x (np.unique quotients))) [
        | inl here ↦
            let (i, held, e) =
              contains-map_block x ids (sym (np.contains-unique x quotients) ∙ here) in
            (i, ground (arith, contains-append i ids (flatten l), held), e)
        | inr there ↦
            let (i, held, e) = block_read x l (
              ground (
                arith,
                m,
                there,
                contains-append x (np.unique quotients) (reads_of np rows_per_block l),
              )) in
            (i, ground (arith, contains-append i ids (flatten l), held), e)
      ]

  id_read :
      (i : ℕ) (l : List (List ℕ))
      → contains i (flatten l) ≡ true
      → contains (i / rows_per_block) (reads_of np rows_per_block l) ≡ true
  unfolding reads_of flatten ids_to_blocks contains
  id_read i [] m = grind (arith, m)
  id_read i (ids ∷ l) m =
      let quotients = map (λ j. j / rows_per_block) ids in
      let x = i / rows_per_block in
      let split = contains-append i ids (flatten l) in
      elim (Bool-cases (contains i ids)) [
        | inl here ↦ ground (
          arith,
          contains-append x (np.unique quotients) (reads_of np rows_per_block l),
          np.contains-unique x quotients,
          contains-block_of i ids here,
        )
        | inr there ↦ ground (
          arith,
          contains-append x (np.unique quotients) (reads_of np rows_per_block l),
          split,
          there,
          m,
          id_read i l,
        )
      ]

module _ {F S : Type 0} (np : Numpy) (source : IdSource F S) (parse_row : List ℕ → Result (List ℕ))
    (file : List ℕ) (copy : Bool) (args : Args) (b : Batches) (l : List (List ℕ)) where
  run_all :
      open_batches np source parse_row args.input args.rows_per_block ≡ ok b
      → Yields b l
      → (counts : Summary) × (summary (observe_all np args.rows_per_block l no_stats) ≡ ok counts)
        × (run np source parse_row file copy args ≡ (
            if has_blocks file (block_bytes_of args) copy (reads_of np args.rows_per_block l)
            then ok (
                result_of copy
                  (block_bytes_of args)
                  (length l)
                  (length (reads_of np args.rows_per_block l))
                  counts)
            else raise runtime_error))
  unfolding run block_bytes_of result_of after
  run_all opened yields =
      let (counts, summed) = summary_total (observe_all np args.rows_per_block l no_stats) in
      let looped =
        run_batches-list file (block_bytes_of args) copy np args.rows_per_block b l yields 0
          (length l) no_stats no_traffic (omega arith)
        ∙ run_list_lem file (block_bytes_of args) copy np args.rows_per_block l no_stats
            no_traffic in
      (
        counts,
        summed,
        elim (Bool-cases
            (has_blocks file (block_bytes_of args) copy (reads_of np args.rows_per_block l))) [
              | inl held ↦
                  let n = length (reads_of np args.rows_per_block l) in
                  rw
                    (
                      opened,
                      yields.count,
                      looped,
                      held,
                      summed,
                      zero-add n,
                      zero-add (n * block_bytes_of args),
                    )
                    refl
              | inr short ↦ rw (opened, yields.count, looped, short) refl
            ],
      )

block_inside :
    (i rows per row : ℕ)
    → 0 < per
    → rows % per ≡ 0
    → i < rows
    → (i / per + 1) * (per * row) ≤ rows * row
block_inside i rows per row p0 whole lt =
    let blocks : (i / per + 1) * per ≤ rows = grind arith in
    rw (← mul_assoc) (mul-le-mul_right row blocks)

block_outside :
    (i rows per row : ℕ)
    → 0 < per
    → 0 < row
    → rows - rows % per ≤ i
    → rows % per ≢ 0
    → rows * row < (i / per + 1) * (per * row)
block_outside i rows per row p0 r0 last part =
    let blocks : rows + 1 ≤ (i / per + 1) * per = grind arith in
    let scaled : (rows + 1) * row ≤ (i / per + 1) * per * row = mul-le-mul_right row blocks in
    rw (← mul_assoc) (omega (arith, scaled))

-- The bytes of a row of the table.
unfoldable pub row_bytes_of : Args → ℕ
row_bytes_of args = args.embedding_dim * dtype_size_of args.dtype args.dtype_size

module _ {F S : Type 0} (np : Numpy) (source : IdSource F S) (parse_row : List ℕ → Result (List ℕ))
    (file : List ℕ) (copy : Bool) (args : Args) (rows : ℕ) (b : Batches) (l : List (List ℕ)) where
  -- For batches that are all found and a file that is a table of `rows` rows, where the
  -- rows are whole blocks and each id is a row of the table, the run succeeds: it reads each batch's unique
  -- blocks once, the bytes are those of these blocks, they are copied to the GPU if copies are on,
  -- and the counts are those of the batches.
  pub run_whole :
      open_batches np source parse_row args.input args.rows_per_block ≡ ok b
      → Yields b l
      → length file ≡ rows * row_bytes_of args
      → 0 < args.rows_per_block
      → rows % args.rows_per_block ≡ 0
      → ((i : ℕ) → contains i (flatten l) ≡ true → i < rows)
      → (counts : Summary) × (summary (observe_all np args.rows_per_block l no_stats) ≡ ok counts)
        × (run np source parse_row file copy args
            ≡ ok (
                result_of copy
                  (block_bytes_of args)
                  (length l)
                  (sum (unique_counts np args.rows_per_block l))
                  counts))
  unfolding row_bytes_of block_bytes_of
  run_whole opened yields size p0 whole below =
      let (counts, summed, ran) = run_all np source parse_row file copy args b l opened yields in
      let same =
        mul_assoc args.rows_per_block args.embedding_dim
          (dtype_size_of args.dtype args.dtype_size) in
      let held : has_blocks file (block_bytes_of args) copy (reads_of np args.rows_per_block l)
          ≡ true =
        has_blocks_of file (block_bytes_of args) copy (reads_of np args.rows_per_block l) (λ x m.
          let (i, member, e) = block_read np args.rows_per_block x l m in
          has_block_of-le file (block_bytes_of args) copy x (
            rw (size, same, ← e)
              (block_inside i rows args.rows_per_block
                (args.embedding_dim * dtype_size_of args.dtype args.dtype_size) p0 whole
                (below i member)))) in
      (counts, summed, rw (← length-reads_of np args.rows_per_block l) (rw held at ran))

  -- If the rows are not whole blocks, an id in the last rows, those of the block that is cut off,
  -- makes the run raise: the block is read short.
  pub run_part :
      (i : ℕ)
      → open_batches np source parse_row args.input args.rows_per_block ≡ ok b
      → Yields b l
      → length file ≡ rows * row_bytes_of args
      → 0 < args.rows_per_block
      → 0 < row_bytes_of args
      → rows % args.rows_per_block ≢ 0
      → rows - rows % args.rows_per_block ≤ i
      → contains i (flatten l) ≡ true
      → run np source parse_row file copy args ≡ raise runtime_error
  unfolding row_bytes_of block_bytes_of
  run_part i opened yields size p0 r0 part last member =
      let (counts, summed, ran) = run_all np source parse_row file copy args b l opened yields in
      let same =
        mul_assoc args.rows_per_block args.embedding_dim
          (dtype_size_of args.dtype args.dtype_size) in
      let short : has_blocks file (block_bytes_of args) copy (reads_of np args.rows_per_block l)
          ≡ false =
        not-has_blocks_of file (block_bytes_of args) copy (i / args.rows_per_block)
          (reads_of np args.rows_per_block l) (id_read np args.rows_per_block i l member)
          (not-has_block_of-lt file (block_bytes_of args) copy (i / args.rows_per_block)
            (rw same (grind (arith, p0, r0)))
            (rw (size, same)
              (block_outside i rows args.rows_per_block
                (args.embedding_dim * dtype_size_of args.dtype args.dtype_size) p0 r0 last
                part))) in
      rw short at ran
