-- ===== src/Prototype/Format.antt =====
-- `format_results` of memtier_pytorch/memtier/benchmark.py.
pub mod Read
use Prim.Native.String.{String}
use mem_tier_gds.Base.{ℕ, ◌*◌, ◌^◌, List, [], ◌∷◌, ◌++◌, map}
use mem_tier_gds.Base.Text.{Text, codes, decimal, join}
use mem_tier_gds.Prototype.{BenchmarkResult}

abbrev pub header : Text
header =
    codes
      "| path | batches | total GiB | batch ms | eff GB/s | file ms | prefetch ms | gpu touch ms |"

abbrev pub ruler : Text
ruler = codes "|---|---:|---:|---:|---:|---:|---:|---:|"

-- What follows the first bar of a line: each cell between spaces, and a bar.
unfoldable pub after_bar : List Text → Text
after_bar [] = []
after_bar (cell ∷ cells) = b' ' ∷ cell ++ b' ' ∷ b'|' ∷ after_bar cells

-- The quotients of a line; the first is in GiB.
abbrev pub quotients_of : BenchmarkResult → List (ℕ × ℕ)
quotients_of item =
    (item.total_bytes, 1024 ^ 3)
    ∷ item.end_to_end_batch_ms
    ∷ item.effective_gb_s
    ∷ item.file_read_ms
    ∷ item.prefetch_ms
    ∷ item.gpu_touch_ms
    ∷ []

-- `fixed` prints the quotient of two numbers: `"{:.3f}".format(a / b)`.
module _ (fixed : ℕ × ℕ → Text) where
  unfoldable pub cells_of : BenchmarkResult → List Text
  cells_of item = codes item.name ∷ decimal item.num_batches ∷ map fixed (quotients_of item)

  unfoldable pub line_of : BenchmarkResult → Text
  unfolding cells_of after_bar
  line_of item = b'|' ∷ after_bar (cells_of item)

  unfoldable pub format_results : List BenchmarkResult → Text
  unfolding line_of
  format_results rows = join 10 ((header ++ 10 ∷ ruler) ∷ map line_of rows)
