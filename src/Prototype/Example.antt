-- ===== src/Prototype/Example.antt =====
-- memtier_pytorch/examples/run_memtier_dataloader.py: the file is made if it is not there in its size,
-- and the benchmark runs over it. The numbers of rows and columns are not negative.
pub mod Written
pub mod Whole
use Prim.Native.String.{String, ◌++◌ as ◌<>◌}
use mem_tier_gds.Base.{
  ℕ, zero, suc, ◌+◌, ◌-◌, ◌*◌, ◌/◌, min, max, Bool, true, false, List, [], ◌∷◌, ◌++◌, map, flatten,
  Option, none, some, ◌==◌, ◌≡◌, if◌then◌else◌, length, take, drop, Result, ok, raise, ceil_div,
  gather,
}
use mem_tier_gds.Base.Integer.{ℤ, pos}
use mem_tier_gds.Datasets.{Files}
use mem_tier_gds.Base.Action.{Action, after, ◌>>=◌, lift}
use mem_tier_gds.Base.Text.{Text, codes, decimal, is_empty}
use mem_tier_gds.Prototype.Format.{format_results}
use mem_tier_gds.Prototype.{Machine, BenchmarkResult, run_all}

-- A file by its size in bytes and the float32 values that its bytes are.
pub record Stored (F : Type 0) : Type 0 where
  pub st_size : ℕ
  pub values : List F

-- `np.memmap(path, mode="w+", shape=(rows, dim))`, a new file of zeros,
-- `np.arange(start, end, dtype=np.float32)`, and the quotient of a float32 and a number. The values
-- of an `arange` are NumPy's: beyond 2^24 they are not all those of the numbers that are counted.
pub record Writer (F : Type 0) : Type 0 where
  pub create : ℕ → ℕ → Result (Stored F)
  pub arange : ℕ → ℕ → List F
  pub quotient : F → ℕ → F

module _ {F : Type 0} (writer : Writer F) (rows dim : ℕ) where
  -- `mmap[start:end] = values`
  unfoldable pub store_rows : ℕ → List F → List F → List F
  store_rows start new old = take (start * dim) old ++ new ++ drop (start * dim + length new) old

  -- `np.arange(start * dim, end * dim).reshape(end - start, dim) / max(dim, 1)`; the shape has as
  -- many places as there are values.
  unfoldable pub values_of : ℕ → ℕ → List F
  values_of start end =
      map (λ x. writer.quotient x (max dim 1)) (writer.arange (start * dim) (end * dim))

  -- `for start in range(0, rows, chunk_rows)`, with so many turns left.
  unfoldable pub write_chunks : ℕ → ℕ → ℕ → List F → List F
  unfolding store_rows values_of
  write_chunks chunk_rows start zero mmap = mmap
  write_chunks chunk_rows start (suc left) mmap =
      let end = min rows (start + chunk_rows) in
      write_chunks chunk_rows (start + chunk_rows) left
        (store_rows start (values_of start end) mmap)

  abbrev pub expected_bytes : ℕ
  expected_bytes = rows * dim * 4

  -- What is written to a new file.
  filled : Result (Stored F) → Result (Stored F)
  unfolding write_chunks
  filled (raise e) = raise e
  filled (ok mmap) =
      let chunk_rows = max 1 (min rows 65536) in
      ok (record mmap { values = write_chunks chunk_rows 0 (ceil_div rows chunk_rows) mmap.values })

  -- The statements after the test of the file.
  unfoldable pub write_file : Result (Stored F)
  unfolding filled
  write_file = filled (writer.create rows dim)

  -- The file at the path before and after.
  unfoldable pub ensure_binary_file : Option (Stored F) → Result (Stored F)
  unfolding write_file
  ensure_binary_file none = write_file
  ensure_binary_file (some file) = if file.st_size == expected_bytes then ok file else write_file

-- What is printed for the counters of the paths that have some.
unfoldable pub print_stats : List BenchmarkResult → List Text
print_stats [] = []
print_stats (result ∷ results) =
    let rest = print_stats results in
    if is_empty result.extension_stats
    then rest
    else (10 ∷ codes result.name ++ codes " extension stats:")
        ∷ map (λ (key, value). codes "  " ++ codes key ++ codes ": " ++ decimal value)
            result.extension_stats
      ++ rest

-- The command line; `rows` and `dim` are not negative.
pub record Args : Type 0 where
  pub path : String
  pub rows : ℕ
  pub dim : ℕ
  pub batch_rows : ℤ
  pub device : ℤ
  pub num_workers : ℤ

-- `disk` and `m` are NumPy's reads and the process where the path names the given file. The file comes
-- back with the results and the lines that are printed.
module _ {F W : Type 0} (writer : Writer F) (disk : Stored F → Files F) (m : Stored F → Machine F W)
    (fixed : ℕ × ℕ → Text) where
  unfoldable pub main :
      Args → Option (Stored F) → Action W (Stored F × List BenchmarkResult × List Text)
  unfolding ensure_binary_file print_stats
  main args before = do
    file ← lift (ensure_binary_file writer args.rows args.dim before)
    results ←
        run_all (disk file) (m file) args.path (pos args.rows) (pos args.dim) args.batch_rows
          args.device args.num_workers
    lift (ok (file, results, format_results fixed results ∷ print_stats results))
