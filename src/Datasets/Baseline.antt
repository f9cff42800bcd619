-- ===== src/Datasets/Baseline.antt =====
-- `BaselineNumpyDataset` of memtier_pytorch/memtier/dataset.py.
use Prim.Native.String.{String}
use mem_tier_gds.Base.{
  ℕ, ◌+◌, ◌-◌, ◌*◌, min, Bool, Option, none, some, if◌then◌else◌, Result, ok, ◌>>=◌, ceil_div,
}
use mem_tier_gds.Base.Integer.{ℤ, positive}
use mem_tier_gds.Datasets.{Table, Files, check_index}

pub record BaselineNumpyDataset (F : Type 0) : Type 0 where
  pub path : String
  pub rows : ℕ
  pub cols : ℕ
  pub batch_rows : ℕ
  pub memmap : Option (Table F)

module _ {F : Type 0} (files : Files F) where
  open_memmap : Bool → String → ℕ → ℕ → Result (Option (Table F))
  open_memmap use_memmap path rows cols =
      if use_memmap then (do m ← files.memmap path rows cols; ok (some m)) else ok none

  unfoldable pub init : String → ℤ → ℤ → ℤ → Bool → Result (BaselineNumpyDataset F)
  unfolding open_memmap
  init path rows cols batch_rows use_memmap = do
    r ← positive rows
    c ← positive cols
    b ← positive batch_rows
    m ← open_memmap use_memmap path r c
    ok (record { path = path; rows = r; cols = c; batch_rows = b; memmap = m })

  -- As `len` of the other dataset.
  unfoldable pub len : BaselineNumpyDataset F → ℕ
  len d = ceil_div d.rows d.batch_rows

  -- The array of some rows.
  unfoldable pub rows_from : BaselineNumpyDataset F → ℕ → ℕ → Result (Table F)
  rows_from d start_row actual_rows = elim d.memmap [
    | some m ↦ ok (files.slice_rows m start_row (start_row + actual_rows))
    | none ↦
        files.reshape (files.fromfile d.path (actual_rows * d.cols) (start_row * d.cols * 4))
          actual_rows d.cols
  ]

  unfoldable pub getitem : BaselineNumpyDataset F → ℤ → Result (Table F)
  unfolding len rows_from
  getitem d idx = do
    i ← check_index idx (len d)
    let start_row = i * d.batch_rows
    let actual_rows = min d.batch_rows (d.rows - start_row)
    array ← rows_from d start_row actual_rows
    ok (files.from_numpy array)
