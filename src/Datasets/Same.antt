-- ===== src/Datasets/Same.antt =====
-- Both datasets give the same batches.
use Prim.Native.String.{String}
use mem_tier_gds.Base.{
  zero, suc, ◌*◌, ◌≤◌, ◌<◌, Bool, true, false, Option, none, some, ◌≡◌, refl, sym, ◌∙◌, arith,
  length, Error, ok, ◌>>◌, refuse,
}
use mathlib.Core.Path.{subst}
use mem_tier_gds.Base.Integer.{ℤ, pos, negsuc, positive_at}
use mem_tier_gds.Datasets.{Table, Files, Extension}
use mem_tier_gds.Datasets.Memtier.{MemTierFileDataset}
use mem_tier_gds.Datasets.Memtier
use mem_tier_gds.Datasets.Baseline.{BaselineNumpyDataset}
use mem_tier_gds.Datasets.Baseline
use mem_tier_gds.Datasets.Batches.{
  ReadsRows, baseline_with, whole_file, mapped_batch, read_batch, getitem_batch, get_same,
}

passed : {R : Type 0} → (bad : Bool) (e : Error) (x y : R) → (refuse bad e >> ok x) ≡ ok y → x ≡ y
passed true e x y h = grind (arith, h)
passed false e x y h = grind (arith, h)

-- The numbers of a dataset that was made.
IsMade : String → ℤ → ℤ → ℤ → MemTierFileDataset → Type 0
IsMade path rows cols batch_rows d =
    ((d.path ≡ path) × (rows ≡ pos d.rows) × (cols ≡ pos d.cols) × (batch_rows ≡ pos d.batch_rows))
    × ((0 < d.rows) × (0 < d.cols) × (0 < d.batch_rows))

init-IsMade :
    (path : String) (rows cols batch_rows device : ℤ) (policy : String) (d : MemTierFileDataset)
    → Memtier.init path rows cols batch_rows device policy ≡ ok d
    → IsMade path rows cols batch_rows d
unfolding Memtier.init IsMade
init-IsMade path (negsuc r) cols b device policy d e = grind (arith, e)
init-IsMade path (pos zero) cols b device policy d e = grind (arith, e)
init-IsMade path (pos (suc r)) (negsuc c) b device policy d e = grind (arith, e)
init-IsMade path (pos (suc r)) (pos zero) b device policy d e = grind (arith, e)
init-IsMade path (pos (suc r)) (pos (suc c)) (negsuc b) device policy d e = grind (arith, e)
init-IsMade path (pos (suc r)) (pos (suc c)) (pos zero) device policy d e = grind (arith, e)
init-IsMade path (pos (suc r)) (pos (suc c)) (pos (suc b)) device policy d e =
    let made : MemTierFileDataset = record {
      path = path;
      rows = suc r;
      cols = suc c;
      batch_rows = suc b;
      device = device;
      policy = policy;
    } in
    let same : made ≡ d = passed _ _ made d e in
    subst (IsMade path (pos (suc r)) (pos (suc c)) (pos (suc b))) same
      ((refl, refl, refl, refl), (omega arith, omega arith, omega arith))

module _ {F : Type 0} (files : Files F) (d : MemTierFileDataset) where
  unfoldable pub opened : Bool → Option (Table F)
  opened true = some (whole_file files d)
  opened false = none

  pub init-opened :
      (use_memmap : Bool)
      → 0 < d.rows
      → 0 < d.cols
      → 0 < d.batch_rows
      → d.rows * d.cols ≤ length (files.contents d.path)
      → Baseline.init files d.path (pos d.rows) (pos d.cols) (pos d.batch_rows) use_memmap
        ≡ ok (baseline_with files d (opened use_memmap))
  unfolding Baseline.init opened baseline_with whole_file
  init-opened true r c b big = ground (
    arith,
    positive_at d.rows r,
    positive_at d.cols c,
    positive_at d.batch_rows b,
    files.memmap_lem d.path d.rows d.cols big,
  )
  init-opened false r c b big =
      ground (arith, positive_at d.rows r, positive_at d.cols c, positive_at d.batch_rows b)

module _ {F : Type 0} (files : Files F) (ext : Extension F) (d : MemTierFileDataset) where
  batches_opened :
      (use_memmap : Bool)
      → ReadsRows files ext d
      → 0 < d.cols
      → 0 < d.batch_rows
      → d.rows * d.cols ≤ length (files.contents d.path)
      → (idx : ℤ)
      → Memtier.getitem (ok ext) d idx
        ≡ Baseline.getitem files (baseline_with files d (opened files d use_memmap)) idx
  unfolding opened baseline_with Memtier.len Baseline.len
  batches_opened true reads c b big =
      get_same files ext d (baseline_with files d (opened files d true)) refl (λ i lt.
        getitem_batch files ext d reads big c b i lt ∙ sym (mapped_batch files d big b i lt))
  batches_opened false reads c b big =
      get_same files ext d (baseline_with files d (opened files d false)) refl
        (λ i lt. getitem_batch files ext d reads big c b i lt ∙ sym (read_batch files d big b i lt))

module _ {F : Type 0} (files : Files F) (ext : Extension F) (path : String)
    (rows cols batch_rows device : ℤ) (policy : String) (d : MemTierFileDataset) where
  -- If a `MemTierFileDataset` was made, the file has all the values, and the extension reads the
  -- rows of the file, then the `BaselineNumpyDataset` of the same numbers is made too, with and
  -- without the memory map, and at every index, also a negative one or one past the end, both
  -- datasets return the same batch or raise the same exception.
  pub getitem_same :
      (use_memmap : Bool)
      → Memtier.init path rows cols batch_rows device policy ≡ ok d
      → d.rows * d.cols ≤ length (files.contents d.path)
      → ReadsRows files ext d
      → (b : BaselineNumpyDataset F) × (Baseline.init files path rows cols batch_rows use_memmap
          ≡ ok b)
        × ((idx : ℤ) → Memtier.getitem (ok ext) d idx ≡ Baseline.getitem files b idx)
  unfolding IsMade
  getitem_same use_memmap made big reads =
      let ((p, r, c, b), (r0, c0, b0)) =
        init-IsMade path rows cols batch_rows device policy d made in
      (
        baseline_with files d (opened files d use_memmap),
        rw (← p, r, c, b) (init-opened files d use_memmap r0 c0 b0 big),
        batches_opened files ext d use_memmap reads c0 b0 big,
      )
