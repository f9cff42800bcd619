-- ===== src/Prototype/Example/Whole.antt =====
-- The example from its start to what it prints.
use mem_tier_gds.Base.{
  ℕ, ◌*◌, ◌<◌, ◌≤◌, List, [], ◌∷◌, Option, some, ◌≡◌, ◌∙◌, arith, ◌⊎◌, inl, inr, ok, length,
  ceil_div,
}
use native.Mathlib.Nat.{mul-pos}
use mem_tier_gds.Base.Action.{after-ok}
use mem_tier_gds.Base.Text.{Text}
use mem_tier_gds.Base.Integer.{pos}
use mem_tier_gds.Datasets.{Files}
use mem_tier_gds.Prototype.{Machine, BenchmarkResult, run_all}
use mem_tier_gds.Prototype.Loops.{IsWorking}
use mem_tier_gds.Prototype.Paths.{IsRun, run_all_lem}
use mem_tier_gds.Prototype.Format.{format_results}
use mem_tier_gds.Prototype.Example.{Stored, Writer, Args, ensure_binary_file, print_stats, main}
use mem_tier_gds.Prototype.Example.Written.{IsWriter, table_values, ensure_binary_file_lem}

module _ {F W : Type 0} (writer : Writer F) (disk : Stored F → Files F) (m : Stored F → Machine F W)
    (fixed : ℕ × ℕ → Text) (args : Args) (batch_rows workers : ℕ) where
  -- The file of the expected size has all values.
  has_all :
      (before : Option (Stored F)) (file : Stored F)
      → ((old : Stored F) → before ≡ some old → old.st_size ≡ length old.values * 4)
      → file.st_size ≡ args.rows * args.dim * 4
      → (before ≡ some file)
        ⊎ (length file.values ≡ args.rows * args.dim)
          × (file.values ≡ table_values writer args.rows args.dim)
      → args.rows * args.dim ≤ length file.values
  has_all before file sized size (inl same) = omega (arith, sized file same, size)
  has_all before file sized size (inr (count, all)) = omega (arith, count)

  -- Whatever file was there, also none, if it has four bytes for each of its values: on a machine
  -- that works with batches of the arguments' rows and columns and reads the file that is there, and
  -- where the numbers of rows, columns and rows of a batch are not 0, the example returns. It goes on
  -- with the old file, if that has the expected size, and else with a new one, in which the values of
  -- all chunks stand one after the other, and its three results are of all batches and of exactly the
  -- bytes of the table.
  pub main_lem :
      IsWriter writer
      → ((file : Stored F) → (disk file).contents args.path ≡ file.values)
      → ((file : Stored F)
          → IsWorking (disk file) (m file) args.path args.dim batch_rows args.device)
      → (before : Option (Stored F))
      → ((old : Stored F) → before ≡ some old → old.st_size ≡ length old.values * 4)
      → 0 < args.rows
      → 0 < args.dim
      → 0 < batch_rows
      → args.batch_rows ≡ pos batch_rows
      → args.num_workers ≡ pos workers
      → (w : W)
      → let n = ceil_div args.rows batch_rows in
        let bytes = args.rows * args.dim * 4 in
        (file : Stored F) × (a b c : BenchmarkResult) × (printed : List Text) × ((main writer disk m
            fixed args before w).0
          ≡ ok (file, a ∷ b ∷ c ∷ [], printed))
        × (file.st_size ≡ bytes)
        × ((before ≡ some file)
            ⊎ (length file.values ≡ args.rows * args.dim)
              × (file.values ≡ table_values writer args.rows args.dim))
        × IsRun "baseline" n bytes a
        × IsRun "uvm_none" n bytes b
        × IsRun "uvm_prefetch" n bytes c
  unfolding main
  main_lem writes reads works before sized r0 c0 b0 eb ew w =
      let (file, found, size, which) =
        ensure_binary_file_lem writer writes args.rows args.dim (mul-pos r0 c0) before in
      let big : args.rows * args.dim ≤ length ((disk file).contents args.path) =
        rw (reads file) (has_all before file sized size which) in
      let (a, b, c, returned, pa, pb, pc) =
        run_all_lem (disk file) (m file) args.device args.path args.dim batch_rows (works file)
          args.rows workers r0 c0 b0 big w in
      let results = a ∷ b ∷ c ∷ [] in
      let ran : (run_all (disk file) (m file) args.path (pos args.rows) (pos args.dim)
            args.batch_rows args.device args.num_workers w).0
          ≡ ok results =
        cc in
      (
        file,
        a,
        b,
        c,
        format_results fixed results ∷ print_stats results,
        after-ok (ensure_binary_file writer args.rows args.dim before, w) file _ found
            ∙ after-ok _ results _ ran,
        size,
        which,
        pa,
        pb,
        pc,
      )
