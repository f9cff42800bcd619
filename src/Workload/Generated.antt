-- ===== src/Workload/Generated.antt =====
-- The traces that `generate_ids` makes.
use mem_tier_gds.Base.{
  ℕ, zero, suc, ◌+◌, ◌-◌, ◌*◌, ◌≤◌, ◌<◌, min, true, ◌&&◌, List, [], ◌∷◌, ◌++◌, map, ◌≡◌, refl, ap,
  ◌∙◌, arith, ltb, if◌then◌else◌, length, length-append, length-take, length-map, take, All,
  All-append, All-take, IsRectangular, ok,
}
use mem_tier_gds.Workload.{
  Dist, uniform, zipf, other_dist, Ratio, IdSource, fresh_ids, rows_from, generate_ids,
}

-- Each row begins with the first `k` ids of the row before it.
abbrev pub Overlaps : ℕ → List (List ℕ) → Type 0
Overlaps k [] = Unit
Overlaps k (row ∷ []) = Unit
Overlaps k (row ∷ next ∷ rows) = (take k next ≡ take k row) × Overlaps k (next ∷ rows)

-- One of the two distributions.
abbrev pub IsSupported : Dist → Type 0
IsSupported uniform = Unit
IsSupported zipf = Unit
IsSupported other_dist = ⊥

abbrev pub AllBelow : ℕ → List ℕ → Type 0
AllBelow n = All (λ i. i < n)

min_below : (n : ℕ) (ranks : List ℕ) → 0 < n → AllBelow n (map (λ rank. min rank (n - 1)) ranks)
min_below n [] h = tt
min_below n (r ∷ ranks) h = (omega arith, min_below n ranks h)

-- The start of a row that is put together from the row before and new ids.
take-take_append : (k : ℕ) (l fresh : List ℕ) → k ≤ length l → take k (take k l ++ fresh) ≡ take k l
take-take_append zero l fresh le = refl
take-take_append (suc k) [] fresh le = absurd (omega arith)
take-take_append (suc k) (x ∷ l) fresh le = ap (◌∷◌ x) (take-take_append k l fresh (omega arith))

overlap_count : (b overlap : ℕ) → 0 < b → (if ltb 0 b then overlap else 0) ≡ overlap
overlap_count b overlap h = ground arith

overlap_row :
    (b overlap : ℕ) (previous fresh : List ℕ)
    → 0 < b
    → (if ltb 0 b && ltb 0 overlap then take overlap previous ++ fresh else fresh)
      ≡ take overlap previous ++ fresh
overlap_row b zero previous fresh h = ground arith
overlap_row b (suc k) previous fresh h = ground arith

module _ {F S : Type 0} (source : IdSource F S) where
  -- What is drawn.
  fresh_lem :
      (dist : Dist) (n : ℕ) (rng : S) (count : ℕ)
      → IsSupported dist
      → 0 < n
      → (ids : List ℕ) × (rng' : S) × (fresh_ids source dist n rng count ≡ ok (ids, rng'))
        × (length ids ≡ count)
        × AllBelow n ids
  unfolding fresh_ids
  fresh_lem uniform n rng count h pos = (
    (source.integers rng n count).0,
    (source.integers rng n count).1,
    refl,
    source.length-integers rng n count,
    source.integers_below rng n count pos,
  )
  fresh_lem zipf n rng count h pos =
      let ranks = map (source.zipf_rank n) (source.random rng count).0 in
      (
        map (λ rank. min rank (n - 1)) ranks,
        (source.random rng count).1,
        refl,
        length-map (λ rank. min rank (n - 1)) ranks
            ∙ length-map (source.zipf_rank n) (source.random rng count).0
            ∙ source.length-random rng count,
        min_below n ranks pos,
      )
  fresh_lem other_dist n rng count h pos = absurd h

  -- What the rows of a trace are.
  pub record IsTrace (total overlap num_batches n : ℕ) (rows : List (List ℕ)) : Type 0 where
    pub batches : length rows ≡ num_batches
    pub widths : IsRectangular total rows
    pub below : All (AllBelow n) rows
    pub overlaps : Overlaps overlap rows

  -- The rows after the first, which begin as the row before.
  later_rows :
      (dist : Dist) (n total overlap b : ℕ) (previous : List ℕ) (left : ℕ) (rng : S)
      → IsSupported dist
      → 0 < n
      → 0 < b
      → overlap ≤ total
      → length previous ≡ total
      → AllBelow n previous
      → (rows : List (List ℕ)) × (rows_from source dist n total overlap b previous left rng
          ≡ ok rows)
        × (length rows ≡ left)
        × IsRectangular total rows
        × All (AllBelow n) rows
        × Overlaps overlap (previous ∷ rows)
  unfolding rows_from
  later_rows dist n total overlap b previous zero rng h pos b0 le len below =
      ([], refl, refl, tt, tt, tt)
  later_rows dist n total overlap b previous (suc left) rng h pos b0 le len below =
      let (fresh, rng', drawn, count, under) = fresh_lem dist n rng (total - overlap) h pos in
      let row = take overlap previous ++ fresh in
      let cut : length (take overlap previous) ≡ overlap =
        omega (arith, le, len, length-take overlap previous) in
      let wide : length row ≡ total =
        omega (arith, le, count, cut, length-append (take overlap previous) fresh) in
      let small : AllBelow n row =
        All-append _ (take overlap previous) fresh (All-take _ overlap previous below) under in
      let (rows, rest, more, widths, belows, overlaps) =
        later_rows dist n total overlap (b + 1) row left rng' h pos (omega arith) le wide small in
      (
        row ∷ rows,
        rw (overlap_count b overlap b0, drawn, overlap_row b overlap previous fresh b0, rest) refl,
        ap suc more,
        (wide, widths),
        (small, belows),
        (take-take_append overlap previous fresh (omega (arith, le, len)), overlaps),
      )

  -- With an overlap ratio in its range, a table that is not empty and one of the two distributions,
  -- a trace is made: it has the batches asked for, each of `batch_size * bag_size` ids, all ids are
  -- rows of the table, and each batch after the first begins with the overlapping ids of the batch
  -- before it.
  pub generate_ids_lem :
      (dist : Dist) (num_embeddings batch_size bag_size num_batches seed : ℕ)
      (overlap_ratio : Ratio)
      → IsSupported dist
      → 0 < num_embeddings
      → overlap_ratio.in_range ≡ true
      → (trace : List (List ℕ)) × (generate_ids source dist num_embeddings batch_size bag_size
            num_batches overlap_ratio seed
          ≡ ok trace)
        × IsTrace
            (batch_size * bag_size)
            (overlap_ratio.part_of (batch_size * bag_size))
            num_batches
            num_embeddings
            trace
  unfolding generate_ids rows_from
  generate_ids_lem dist n batch_size bag_size zero seed ratio h pos ok_ratio = (
    [],
    ground (arith, ok_ratio),
    record { batches = refl; widths = tt; below = tt; overlaps = tt },
  )
  generate_ids_lem dist n batch_size bag_size (suc left) seed ratio h pos ok_ratio =
      let total = batch_size * bag_size in
      let overlap = ratio.part_of total in
      let (row, rng, drawn, count, under) =
        fresh_lem dist n (source.default_rng seed) (total - 0) h pos in
      let wide : length row ≡ total = omega (arith, count) in
      let (rows, rest, more, widths, belows, overlaps) =
        later_rows dist n total overlap 1 row left rng h pos (omega arith)
          (ratio.part_of-le total ok_ratio) wide under in
      (
        row ∷ rows,
        rw (ok_ratio, drawn, rest) refl,
        record {
          batches = ap suc more;
          widths = (wide, widths);
          below = (under, belows);
          overlaps = overlaps;
        },
      )
