-- ===== src/Datasets.antt =====
-- memtier_pytorch/memtier/dataset.py: a file of rows of float32 values, read in batches of rows.
pub mod Memtier
pub mod Baseline
pub mod Rows
pub mod Batches
pub mod Same
use Prim.Native.String.{String}
use text.Mathlib.Text.{◌==◌ as str_eq}
use mem_tier_gds.Base.{
  ℕ, zero, suc, ◌+◌, ◌-◌, ◌*◌, ◌≤◌, min, Bool, true, false, not, ◌||◌, List, Option, none, some,
  ◌≡◌, leb, if◌then◌else◌, length, take, drop, Result, ok, raise, ◌>>=◌, ◌>>◌, refuse, value_error,
  index_error, ceil_div,
}
use mem_tier_gds.Base.Integer.{ℤ, pos, negsuc, positive}

-- An array or a tensor of two axes, and its values in order.
pub record Table (F : Type 0) : Type 0 where
  pub height : ℕ
  pub width : ℕ
  pub values : List F

abbrev pub table : {F : Type 0} → ℕ → ℕ → List F → Table F
table height width values = record { height = height; width = width; values = values }

-- NumPy's reads of files, at files that hold values of four bytes, with what is documented of them:
-- `np.memmap(path, mode="r", shape=(height, width))`, its slice `[start:end]` on the first axis,
-- `np.fromfile(path, count=, offset=)`, `reshape`, and `torch.from_numpy`, which shares the values.
pub record Files (F : Type 0) : Type 0 where
  pub contents : String → List F
  pub memmap : String → ℕ → ℕ → Result (Table F)
  pub memmap_lem :
      (path : String) (height width : ℕ)
      → height * width ≤ length (contents path)
      → memmap path height width ≡ ok (table height width (take (height * width) (contents path)))
  pub slice_rows : Table F → ℕ → ℕ → Table F
  pub slice_rows_lem :
      (height width start size : ℕ) (values : List F)
      → start + size ≤ height
      → slice_rows (table height width values) start (start + size)
        ≡ table size width (take (size * width) (drop (start * width) values))
  pub fromfile : String → ℕ → ℕ → List F
  pub fromfile_lem :
      (path : String) (count first : ℕ)
      → fromfile path count (first * 4) ≡ take count (drop first (contents path))
  pub reshape : List F → ℕ → ℕ → Result (Table F)
  pub reshape_lem :
      (values : List F) (height width : ℕ)
      → length values ≡ height * width
      → reshape values height width ≡ ok (table height width values)
  pub from_numpy : Table F → Table F
  pub from_numpy_lem : (t : Table F) → from_numpy t ≡ t

-- `uvm_tensor_from_file`: path, rows, columns, offset in bytes, device, policy.
abbrev pub Extension : Type 0 → Type 0
Extension F = String → ℕ → ℕ → ℕ → ℤ → String → Result (Table F)

-- `if idx < 0 or idx >= len(self): raise IndexError(idx)`
abbrev pub check_index : ℤ → ℕ → Result ℕ
check_index (negsuc n) len = raise index_error
check_index (pos i) len = if leb len i then raise index_error else ok i
