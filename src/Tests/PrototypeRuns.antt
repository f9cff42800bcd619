-- ===== src/Tests/PrototypeRuns.antt =====
-- The benchmark of the prototype on a process whose state counts the calls.
use mem_tier_gds.Base.{
  ℕ, ◌+◌, ◌-◌, ◌*◌, ◌/◌, true, List, [], ◌∷◌, map, some, ◌≡◌, refl, arith, ◌⊎◌, length, take, drop,
  replicate, length-replicate, Result, ok, raise, not, ◌||◌, ◌==◌, if◌then◌else◌, length-gather,
  runtime_error, value_error, gather, All, All-replicate,
}
use mem_tier_gds.Base.Integer.{ℤ, pos, negsuc}
use mem_tier_gds.Base.Text.{Text, codes, split_on}
use mem_tier_gds.Datasets.{table, Files}
use mem_tier_gds.Datasets.Memtier.{MemTierFileDataset}
use mem_tier_gds.Datasets.Memtier
use mem_tier_gds.Datasets.Baseline
use mem_tier_gds.Datasets.Batches.{ReadsRows}
use mem_tier_gds.Prototype.{Machine, BenchmarkResult, result_of, run_all}
use mem_tier_gds.Prototype.Loops.{IsWorking}
use mem_tier_gds.Prototype.Paths.{IsRun, run_all_lem}
use mem_tier_gds.Prototype.Format.{header, ruler, line_of, format_results}
use mem_tier_gds.Prototype.Format.Read.{
  IsCell, avoids, avoids→Avoids, row_of, columns_of, format_results_read,
}
use mem_tier_gds.Prototype.Example.{Stored, Writer, Args, ensure_binary_file, main}
use mem_tier_gds.Prototype.Example.Written.{IsWriter, table_values, ensure_binary_file_lem}
use mem_tier_gds.Prototype.Example.Whole.{main_lem}

cut_size : (start size : ℕ) → start + size - start ≡ size
cut_size start size = omega arith

value_offset : (first : ℕ) → first * 4 / 4 ≡ first
value_offset first = omega arith

-- The same values at every path.
unfoldable disk_of : List ℕ → Files ℕ
disk_of values = record {
  contents = λ path. values;
  memmap = λ path height width. ok (table height width (take (height * width) values));
  memmap_lem = λ path height width h. refl;
  slice_rows = λ t start end.
      table (end - start) t.width
        (take ((end - start) * t.width) (drop (start * t.width) t.values));
  slice_rows_lem = λ height width start size values h. rw (cut_size start size) refl;
  fromfile = λ path count offset. take count (drop (offset / 4) values);
  fromfile_lem = λ path count first. rw (value_offset first) refl;
  reshape = λ values height width. ok (table height width values);
  reshape_lem = λ values height width h. refl;
  from_numpy = λ t. t;
  from_numpy_lem = λ t. refl;
}

range_of : ℕ → ℤ → Result (List ℕ)
range_of n (pos workers) = ok (gather (λ i. i) 0 n)
range_of n (negsuc workers) = raise value_error

-- One device, and an extension that reads some values and refuses what has no place and an unknown
-- policy, as that of the repository does; the state is how often the clock was read and
-- how often a batch was touched since the counters were reset.
unfoldable process : List ℕ → Machine ℕ (ℕ × ℕ)
unfolding range_of
process values = record {
  is_available = λ w. true;
  device_count = λ w. 1;
  synchronize = λ device w. (ok tt, w);
  perf_counter = λ w. (w.0, (w.0 + 7, w.1));
  to_device = λ device t w. (ok tt, w);
  data_loader = λ n workers pin. range_of n workers;
  data_loader_lem = λ n workers pin. refl;
  collate = λ pin t. t;
  collate_lem = λ pin t. refl;
  is_built = true;
  reset_stats = λ w. (w.0, 0);
  uvm_tensor_from_file = λ path height width offset device policy w. (
    if height == 0 || (width == 0 || not (Memtier.is_policy policy))
        then raise value_error
        else ok (table height width (take (height * width) (drop (offset / 4) values))),
    w,
  );
  touch_gpu =
      λ t w. (if t.height == 0 || t.width == 0 then raise runtime_error else ok tt, (w.0, w.1 + 1));
  get_stats = λ w. ("total_gpu_touch_us", w.1) ∷ [];
  collect = λ w. w;
}

disk_contents : (file : Stored ℕ) → (disk_of file.values).contents "t.bin" ≡ file.values
unfolding disk_of
disk_contents file = refl

process-IsWorking :
    (values : List ℕ) → IsWorking (disk_of values) (process values) "t.bin" 2 2 (pos 0)
unfolding disk_of process ReadsRows
process-IsWorking values = record {
  available = λ w. refl;
  in_range = λ w. refl;
  built = refl;
  synchronizes = λ w. refl;
  copies = λ t w batch. refl;
  touches = λ t w batch. ground (arith, batch.some_row, batch.some_column);
  reads = λ rows policy w known height first h0 most c0 h.
      rw (value_offset first) (ground (arith, known, h0));
}

-- Five rows of two values.
abbrev numbers : List ℕ
numbers = 1 ∷ 2 ∷ 3 ∷ 4 ∷ 5 ∷ 6 ∷ 7 ∷ 8 ∷ 9 ∷ 10 ∷ []

run_all_lem_example :
    (a b c : BenchmarkResult) × ((run_all
        (disk_of numbers)
        (process numbers)
        "t.bin"
        (pos 5)
        (pos 2)
        (pos 2)
        (pos 0)
        (pos 4)
        (0, 0)).0
      ≡ ok (a ∷ b ∷ c ∷ []))
    × IsRun "baseline" 3 40 a
    × IsRun "uvm_none" 3 40 b
    × IsRun "uvm_prefetch" 3 40 c
unfolding disk_of
run_all_lem_example =
    run_all_lem (disk_of numbers) (process numbers) (pos 0) "t.bin" 2 2 (process-IsWorking numbers)
      5 4 (omega arith) (omega arith) (omega arith) (omega arith) (0, 0)

-- The counters are those of a path alone.
touches_of :
    (run_all
      (disk_of numbers)
      (process numbers)
      "t.bin"
      (pos 5)
      (pos 2)
      (pos 2)
      (pos 0)
      (pos 0)
      (0, 9)).0
    ≡ ok (
        result_of "baseline" 3 40 7 []
        ∷ result_of "uvm_none" 3 40 7 (("total_gpu_touch_us", 3) ∷ [])
        ∷ result_of "uvm_prefetch" 3 40 7 (("total_gpu_touch_us", 3) ∷ [])
        ∷ [])
unfolding run_all disk_of process Baseline.init Baseline.len Baseline.getitem Memtier.init
    Memtier.len
touches_of = refl

-- A whole part that is printed as so many strokes.
whole_part : ℕ × ℕ → Text
whole_part q = replicate (q.0 / q.1) b'i'

whole_part-IsCell : (q : ℕ × ℕ) → IsCell (whole_part q)
unfolding whole_part
whole_part-IsCell q = (All-replicate _ (q.0 / q.1) b'i' refl, All-replicate _ (q.0 / q.1) b'i' refl)

abbrev two_results : List BenchmarkResult
two_results = result_of "baseline" 3 40 7 [] ∷ result_of "uvm_none" 3 40 7 [] ∷ []

format_results_read_example :
    (split_on 10 (format_results whole_part two_results)
      ≡ header ∷ ruler ∷ map (line_of whole_part) two_results)
    × All
        (λ item.
          (split_on b'|' header ≡ row_of (map (λ c. codes c.0) (columns_of whole_part item)))
          × (split_on b'|' (line_of whole_part item)
              ≡ row_of (map (λ c. c.1) (columns_of whole_part item))))
        two_results
unfolding result_of avoids
format_results_read_example = format_results_read whole_part whole_part-IsCell two_results (
  (avoids→Avoids 10 (codes "baseline") refl, avoids→Avoids b'|' (codes "baseline") refl),
  ((avoids→Avoids 10 (codes "uvm_none") refl, avoids→Avoids b'|' (codes "uvm_none") refl), tt),
)

-- A new file is of zeros, and a quotient is its whole part.
unfoldable pen : Writer ℕ
pen = record {
  create = λ rows dim. ok (record { st_size = rows * dim * 4; values = replicate (rows * dim) 0 });
  arange = λ start end. gather (λ k. k) start (end - start);
  quotient = λ k by. k / by;
}

pen-IsWriter : IsWriter pen
unfolding pen
pen-IsWriter = record {
  creates = λ rows dim positive. (
    record { st_size = rows * dim * 4; values = replicate (rows * dim) 0 },
    refl,
    refl,
    length-replicate (rows * dim) 0,
  );
  length-arange = λ start end. length-gather (λ k. k) start (end - start);
}

-- A file of one value, where the example wants six.
abbrev short_file : Stored ℕ
short_file = record { st_size = 4; values = 8 ∷ [] }

ensure_binary_file_lem_example :
    (file : Stored ℕ) × (ensure_binary_file pen 3 2 (some short_file) ≡ ok file)
    × (file.st_size ≡ 24)
    × ((some short_file ≡ some file)
        ⊎ (length file.values ≡ 6) × (file.values ≡ table_values pen 3 2))
ensure_binary_file_lem_example =
    ensure_binary_file_lem pen pen-IsWriter 3 2 (omega arith) (some short_file)

-- The values that are written.
written :
    ensure_binary_file pen 3 2 (some short_file)
    ≡ ok (record { st_size = 24; values = 0 ∷ 0 ∷ 1 ∷ 1 ∷ 2 ∷ 2 ∷ [] })
unfolding ensure_binary_file pen
written = refl

abbrev command : Args
command = record {
  path = "t.bin";
  rows = 3;
  dim = 2;
  batch_rows = pos 2;
  device = pos 0;
  num_workers = pos 0;
}

-- Reads of the file that is there.
abbrev disk : Stored ℕ → Files ℕ
disk file = disk_of file.values

abbrev process_with : Stored ℕ → Machine ℕ (ℕ × ℕ)
process_with file = process file.values

short_file_size :
    (old : Stored ℕ) → some short_file ≡ some old → old.st_size ≡ length old.values * 4
short_file_size old e = grind (arith, e)

main_lem_example :
    (file : Stored ℕ) × (a b c : BenchmarkResult) × (printed : List Text) × ((main pen disk
        process_with whole_part command
        (some short_file)
        (0, 0)).0
      ≡ ok (file, a ∷ b ∷ c ∷ [], printed))
    × (file.st_size ≡ 24)
    × ((some short_file ≡ some file)
        ⊎ (length file.values ≡ 6) × (file.values ≡ table_values pen 3 2))
    × IsRun "baseline" 2 24 a
    × IsRun "uvm_none" 2 24 b
    × IsRun "uvm_prefetch" 2 24 c
main_lem_example =
    main_lem pen disk process_with whole_part command 2 0 pen-IsWriter disk_contents
      (λ file. process-IsWorking file.values) (some short_file) short_file_size (omega arith)
      (omega arith) (omega arith) refl refl (0, 0)
