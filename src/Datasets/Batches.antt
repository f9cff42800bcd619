-- ===== src/Datasets/Batches.antt =====
-- The batches of both datasets, and the file that they cut up.
use mem_tier_gds.Base.{
  ℕ, zero, suc, ◌+◌, ◌-◌, ◌*◌, ◌≤◌, ◌<◌, min, ◌++◌, flatten, Option, none, some, ◌≡◌, refl, sym,
  ◌∙◌, inl, inr, ap, arith, length, take, drop, ok, ceil_div, gather, ceil_div-covers,
  lt_of_lt-ceil_div,
}
use mem_tier_gds.Base.Integer.{ℤ, pos, negsuc}
use mem_tier_gds.Datasets.{Table, table, Files, Extension}
use mem_tier_gds.Datasets.Memtier.{MemTierFileDataset}
use mem_tier_gds.Datasets.Memtier
use mem_tier_gds.Datasets.Baseline.{BaselineNumpyDataset}
use mem_tier_gds.Datasets.Baseline
use mem_tier_gds.Datasets.Rows.{
  take-drop-take, rows_at, length-rows_at, scaled_le, rows_at-zero, rows_at-next, next_start,
  next_rest, whole_rows, check_past, lt_or_le,
}

module _ {F : Type 0} (files : Files F) (d : MemTierFileDataset) where
  -- The rows of a batch.
  unfoldable pub size_of : ℕ → ℕ
  size_of i = min d.batch_rows (d.rows - i * d.batch_rows)

  unfoldable pub batch : ℕ → Table F
  unfolding size_of
  batch i =
      table (size_of i) d.cols
        (rows_at d.cols (files.contents d.path) (i * d.batch_rows) (size_of i))

  fits : (i : ℕ) → 0 < d.batch_rows → i < Memtier.len d → i * d.batch_rows + size_of i ≤ d.rows
  unfolding Memtier.len size_of
  fits i p lt = let start = lt_of_lt-ceil_div d.rows d.batch_rows i p lt in omega arith

  pub size_positive : (i : ℕ) → 0 < d.batch_rows → i < Memtier.len d → 0 < size_of i
  unfolding Memtier.len size_of
  size_positive i p lt =
      let start = lt_of_lt-ceil_div d.rows d.batch_rows i p lt in omega (arith, start, p)

  unfoldable pub baseline_with : Option (Table F) → BaselineNumpyDataset F
  baseline_with m = record {
    path = d.path;
    rows = d.rows;
    cols = d.cols;
    batch_rows = d.batch_rows;
    memmap = m;
  }

  unfoldable pub whole_file : Table F
  whole_file = table d.rows d.cols (take (d.rows * d.cols) (files.contents d.path))

  pub mapped_batch :
      d.rows * d.cols ≤ length (files.contents d.path)
      → 0 < d.batch_rows
      → (i : ℕ) → i < Memtier.len d
      → Baseline.getitem files (baseline_with (some whole_file)) (pos i) ≡ ok (batch i)
  unfolding Baseline.getitem Baseline.len Baseline.rows_from batch size_of baseline_with whole_file
      Memtier.len
  mapped_batch big p i lt =
      let there =
        scaled_le (i * d.batch_rows) (size_of i) d.rows d.cols (d.rows * d.cols) (fits i p lt)
          (omega arith) in
      let cut =
        files.slice_rows_lem d.rows d.cols (i * d.batch_rows) (size_of i)
          (take (d.rows * d.cols) (files.contents d.path)) (fits i p lt) in
      let same =
        take-drop-take (size_of i * d.cols) (i * d.batch_rows * d.cols) (d.rows * d.cols)
          (files.contents d.path) there in
      ground (arith, lt, cut, same, files.from_numpy_lem (batch i))

  pub read_batch :
      d.rows * d.cols ≤ length (files.contents d.path)
      → 0 < d.batch_rows
      → (i : ℕ) → i < Memtier.len d
      → Baseline.getitem files (baseline_with none) (pos i) ≡ ok (batch i)
  unfolding Baseline.getitem Baseline.len Baseline.rows_from batch size_of baseline_with Memtier.len
  read_batch big p i lt =
      let there =
        scaled_le (i * d.batch_rows) (size_of i) d.rows d.cols (length (files.contents d.path))
          (fits i p lt) big in
      let got = files.fromfile_lem d.path (size_of i * d.cols) (i * d.batch_rows * d.cols) in
      let shaped =
        files.reshape_lem (batch i).values (size_of i) d.cols
          (length-rows_at d.cols (files.contents d.path) (i * d.batch_rows) (size_of i) there) in
      ground (arith, lt, got, shaped, files.from_numpy_lem (batch i))

  -- From a batch on, the batches are the rest of the rows.
  batches_from :
      0 < d.batch_rows
      → (i m : ℕ) → i + m ≡ Memtier.len d
      → flatten (gather (λ j. (batch j).values) i m)
        ≡ rows_at d.cols (files.contents d.path) (i * d.batch_rows) (d.rows - i * d.batch_rows)
  unfolding batch size_of Memtier.len flatten
  batches_from p i zero e =
      let last : i ≡ ceil_div d.rows d.batch_rows = omega (arith, e) in
      let over : d.rows ≤ i * d.batch_rows = rw last (ceil_div-covers d.rows d.batch_rows p) in
      let none_left : d.rows - i * d.batch_rows ≡ 0 = omega (arith, over) in
      rw none_left (sym (rows_at-zero d.cols (files.contents d.path) (i * d.batch_rows)))
  batches_from p i (suc m) e =
      ap (rows_at d.cols (files.contents d.path) (i * d.batch_rows) (size_of i) ++◌)
        (batches_from p (i + 1) m (omega arith))
      ∙ rows_at-next d.cols (files.contents d.path) (i * d.batch_rows) ((i + 1) * d.batch_rows)
          (size_of i) (d.rows - (i + 1) * d.batch_rows) (d.rows - i * d.batch_rows)
          (next_rest i d.batch_rows d.rows) (next_start i d.batch_rows d.rows)

module _ {F : Type 0} (files : Files F) (ext : Extension F) (d : MemTierFileDataset) where
  -- What the extension is for: with the dataset's path, device and policy it returns the rows at an
  -- offset, one at least and at most a batch, if they have columns and the file has so many values.
  unfoldable pub ReadsRows : Type 0
  ReadsRows =
      (height first : ℕ)
      → 0 < height
      → height ≤ d.batch_rows
      → 0 < d.cols
      → first + height * d.cols ≤ length (files.contents d.path)
      → ext d.path height d.cols (first * 4) d.device d.policy
        ≡ ok (table height d.cols (take (height * d.cols) (drop first (files.contents d.path))))

  pub getitem_batch :
      ReadsRows
      → d.rows * d.cols ≤ length (files.contents d.path)
      → 0 < d.cols
      → 0 < d.batch_rows
      → (i : ℕ) → i < Memtier.len d
      → Memtier.getitem (ok ext) d (pos i) ≡ ok (batch files d i)
  unfolding Memtier.getitem ReadsRows batch size_of
  getitem_batch reads big c0 p i lt =
      let there =
        scaled_le (i * d.batch_rows) (size_of files d i) d.rows d.cols
          (length (files.contents d.path)) (fits files d i p lt) big in
      let read =
        reads (size_of files d i) (i * d.batch_rows * d.cols) (size_positive files d i p lt)
          (omega arith) c0 there in
      ground (arith, lt, read)

  -- An index past the last batch.
  past_end :
      (b : BaselineNumpyDataset F)
      → Baseline.len files b ≡ Memtier.len d
      → (i : ℕ) → Memtier.len d ≤ i
      → Memtier.getitem (ok ext) d (pos i) ≡ Baseline.getitem files b (pos i)
  unfolding Memtier.getitem Baseline.getitem
  past_end b len i le =
      rw
        (
          check_past i (Memtier.len d) le,
          check_past i (Baseline.len files b) (omega (arith, len, le)),
        )
        refl

  pub get_same :
      (b : BaselineNumpyDataset F)
      → Baseline.len files b ≡ Memtier.len d
      → ((i : ℕ)
          → i < Memtier.len d
          → Memtier.getitem (ok ext) d (pos i) ≡ Baseline.getitem files b (pos i))
      → (idx : ℤ) → Memtier.getitem (ok ext) d idx ≡ Baseline.getitem files b idx
  unfolding Memtier.getitem Baseline.getitem
  get_same b len h (negsuc n) = refl
  get_same b len h (pos i) = elim (lt_or_le i (Memtier.len d)) [
    | inl lt ↦ h i lt
    | inr le ↦ past_end b len i le
  ]

  -- If the file has all the values, the extension reads the rows of the file, and a row has a column
  -- and a batch a row at least, then every batch is found, none is longer than the batch size, and one after the other
  -- the batches are the rows of the file.
  pub getitem_lem :
      ReadsRows
      → d.rows * d.cols ≤ length (files.contents d.path)
      → 0 < d.cols
      → 0 < d.batch_rows
      → (g : ℕ → Table F) × ((i : ℕ)
          → i < Memtier.len d
          → (Memtier.getitem (ok ext) d (pos i) ≡ ok (g i)) × ((g i).height ≤ d.batch_rows))
        × (flatten (gather (λ i. (g i).values) 0 (Memtier.len d))
            ≡ take (d.rows * d.cols) (files.contents d.path))
  unfolding batch size_of
  getitem_lem reads big c0 p = (
    batch files d,
    (λ i lt. (getitem_batch reads big c0 p i lt, omega arith)),
    batches_from files d p 0 (Memtier.len d) (omega arith)
        ∙ whole_rows d.cols (files.contents d.path) d.batch_rows d.rows,
  )
