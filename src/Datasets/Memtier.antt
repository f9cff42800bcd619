-- ===== src/Datasets/Memtier.antt =====
-- `MemTierFileDataset` of memtier_pytorch/memtier/dataset.py.
use Prim.Native.String.{String}
use text.Mathlib.Text.{◌==◌ as str_eq}
use mem_tier_gds.Base.{
  ℕ, ◌-◌, ◌*◌, min, Bool, not, ◌||◌, Result, ok, ◌>>=◌, ◌>>◌, refuse, value_error, ceil_div,
}
use mem_tier_gds.Base.Integer.{ℤ, positive}
use mem_tier_gds.Datasets.{Table, Extension, check_index}

pub record MemTierFileDataset : Type 0 where
  pub path : String
  pub rows : ℕ
  pub cols : ℕ
  pub batch_rows : ℕ
  pub device : ℤ
  pub policy : String

-- `policy in {"none", "cpu", "gpu", "accessed_by"}`
unfoldable pub is_policy : String → Bool
is_policy p = str_eq p "none" || (str_eq p "cpu" || (str_eq p "gpu" || str_eq p "accessed_by"))

unfoldable pub init : String → ℤ → ℤ → ℤ → ℤ → String → Result MemTierFileDataset
unfolding is_policy
init path rows cols batch_rows device policy = do
  r ← positive rows
  c ← positive cols
  b ← positive batch_rows
  refuse (not (is_policy policy)) value_error
  ok (record { path = path; rows = r; cols = c; batch_rows = b; device = device; policy = policy })

-- `math.ceil(self.rows / self.batch_rows)`; the division of floats is exact enough below 2^53 rows.
unfoldable pub len : MemTierFileDataset → ℕ
len d = ceil_div d.rows d.batch_rows

-- The call of `uvm_tensor_from_file` for the batch with an index that is in range.
abbrev pub read_batch :
    {R : Type 0} → (String → ℕ → ℕ → ℕ → ℤ → String → R) → MemTierFileDataset → ℕ → R
read_batch call d i =
    let start_row = i * d.batch_rows in
    let actual_rows = min d.batch_rows (d.rows - start_row) in
    let offset = start_row * d.cols * 4 in call d.path actual_rows d.cols offset d.device d.policy

-- `extension` is the result of `require_extension()`.
unfoldable pub getitem :
    {F : Type 0} → Result (Extension F) → MemTierFileDataset → ℤ → Result (Table F)
unfolding len
getitem extension d idx = do i ← check_index idx (len d); ext ← extension; read_batch ext d i
