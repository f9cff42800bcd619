-- ===== src/Tests/DatasetRuns.antt =====
-- The datasets over a file of numbers.
use mem_tier_gds.Base.{
  ℕ, ◌+◌, ◌-◌, ◌*◌, ◌/◌, ◌≤◌, ◌<◌, true, List, [], ◌∷◌, flatten, ◌≡◌, refl, arith, take, drop, ok,
  raise, runtime_error, ◌==◌, ◌||◌, if◌then◌else◌, gather,
}
use mem_tier_gds.Base.Integer.{ℤ, pos}
use mem_tier_gds.Datasets.{Table, table, Files, Extension}
use mem_tier_gds.Datasets.Memtier.{MemTierFileDataset}
use mem_tier_gds.Datasets.Memtier
use mem_tier_gds.Datasets.Baseline.{BaselineNumpyDataset}
use mem_tier_gds.Datasets.Baseline
use mem_tier_gds.Datasets.Batches.{ReadsRows, getitem_lem}
use mem_tier_gds.Datasets.Same.{getitem_same}

-- Five rows of two values, at every path.
abbrev numbers : List ℕ
numbers = 1 ∷ 2 ∷ 3 ∷ 4 ∷ 5 ∷ 6 ∷ 7 ∷ 8 ∷ 9 ∷ 10 ∷ []

cut_size : (start size : ℕ) → start + size - start ≡ size
cut_size start size = omega arith

value_offset : (first : ℕ) → first * 4 / 4 ≡ first
value_offset first = omega arith

numbers_on_disk : Files ℕ
numbers_on_disk = record {
  contents = λ path. numbers;
  memmap = λ path height width. ok (table height width (take (height * width) numbers));
  memmap_lem = λ path height width h. refl;
  slice_rows = λ t start end.
      table (end - start) t.width
        (take ((end - start) * t.width) (drop (start * t.width) t.values));
  slice_rows_lem = λ height width start size values h. rw (cut_size start size) refl;
  fromfile = λ path count offset. take count (drop (offset / 4) numbers);
  fromfile_lem = λ path count first. rw (value_offset first) refl;
  reshape = λ values height width. ok (table height width values);
  reshape_lem = λ values height width h. refl;
  from_numpy = λ t. t;
  from_numpy_lem = λ t. refl;
}

-- As the extension of the repository, it refuses a table without rows or columns.
reader : Extension ℕ
reader path height width offset device policy =
    if height == 0 || width == 0
    then raise runtime_error
    else ok (table height width (take (height * width) (drop (offset / 4) numbers)))

abbrev dataset : MemTierFileDataset
dataset = record {
  path = "table.bin";
  rows = 5;
  cols = 2;
  batch_rows = 2;
  device = pos 0;
  policy = "gpu";
}

reader-ReadsRows : ReadsRows numbers_on_disk reader dataset
unfolding ReadsRows reader numbers_on_disk
reader-ReadsRows height first h0 most c0 h = rw (value_offset first) (ground (arith, h0))

getitem_lem_example :
    (g : ℕ → Table ℕ) × ((i : ℕ)
      → i < Memtier.len dataset
      → (Memtier.getitem (ok reader) dataset (pos i) ≡ ok (g i)) × ((g i).height ≤ 2))
    × (flatten (gather (λ i. (g i).values) 0 (Memtier.len dataset)) ≡ numbers)
unfolding numbers_on_disk
getitem_lem_example =
    getitem_lem numbers_on_disk reader dataset reader-ReadsRows (omega arith) (omega arith)
      (omega arith)

getitem_same_example :
    (b : BaselineNumpyDataset ℕ) × (Baseline.init numbers_on_disk "table.bin"
        (pos 5)
        (pos 2)
        (pos 2)
        true
      ≡ ok b)
    × ((idx : ℤ) → Memtier.getitem (ok reader) dataset idx ≡ Baseline.getitem numbers_on_disk b idx)
unfolding Memtier.init Memtier.is_policy numbers_on_disk
getitem_same_example =
    getitem_same numbers_on_disk reader "table.bin" (pos 5) (pos 2) (pos 2) (pos 0) "gpu" dataset
      true refl (omega arith) reader-ReadsRows
