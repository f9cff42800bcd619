-- ===== src/Preprocess/Readable.antt =====
-- The written trace, as the trace reader reads it.
use mem_tier_gds.Base.{
  ℕ, zero, suc, ◌+◌, ◌^◌, ◌≤◌, ◌<◌, true, false, List, [], ◌∷◌, map, flatten, Option, none, some,
  ◌≡◌, refl, ◌∙◌, arith, ◌==◌, if◌then◌else◌, length, length-map, sum, All, All-mono, All-take,
  IsRectangular, ceil_div, length-flatten, ◌*◌, ap, Result, ok,
}
use mem_tier_gds.Base.Integer.{ℤ}
use mem_tier_gds.Base.Text.{Text}
use mem_tier_gds.Criteo.Hash.{Blake2b}
use mem_tier_gds.Criteo.Sizes.{
  offsets_from, parse_hash_sizes, parse_hash_sizes-AreSizes, field_offsets_from_hash_sizes,
}
use mem_tier_gds.Criteo.Line.{iter_criteo_rows}
use mem_tier_gds.Criteo.Line.Rows.{AreRows, iter_criteo_rows_lem}
use mem_tier_gds.Trace.Savez.{is_npz, found_after}
use mem_tier_gds.Trace.{
  Source, EmbeddingTrace, matrix, init, batch_size, iter_batches, with_default,
}
use mem_tier_gds.Trace.Blocks.{blocks_of}
use mem_tier_gds.Trace.Coverage.{IsBagged, iter_batches_bagged}
use mem_tier_gds.Preprocess.{
  Arrays, Args, Written, IsInt8, DtypeName, uint32, uint64, other_name, dtype_from_name,
  input_paths, label_of, width_of, arange, written_of, preprocess, preprocess_stats, source_of,
}
use mem_tier_gds.Preprocess.Rows.{IsSupported, FillsBag, limit, Below, samples_from_lem}
use mem_tier_gds.Base.Numpy.{Numpy}
use mem_tier_gds.Analyze.Report.{Stats}
use mem_tier_gds.Analyze.Report.Whole.{analyze_lem}

bits_le : (d : DtypeName) (bits : ℕ) → dtype_from_name d ≡ ok bits → 2 ^ bits ≤ 2 ^ 64
unfolding dtype_from_name
bits_le uint32 bits e = let same : 32 ≡ bits = grind (arith, e) in rw (← same) (omega arith)
bits_le uint64 bits e = let same : 64 ≡ bits = grind (arith, e) in rw (← same) (omega arith)
bits_le other_name bits e = grind (arith, e)

offsets_below :
    (base : ℕ) (sizes : List ℕ) → All (λ x. x ≤ base + sum sizes) (offsets_from base sizes)
unfolding offsets_from
offsets_below base [] = tt
offsets_below base (size ∷ sizes) = (
  omega arith,
  All-mono _ _ (λ x le. omega (arith, le)) (offsets_from (base + size) sizes)
      (offsets_below (base + size) sizes),
)

sizes_below : (sizes : List ℕ) → All (λ x. x ≤ sum sizes) sizes
sizes_below [] = tt
sizes_below (size ∷ sizes) =
    (omega arith, All-mono _ _ (λ x le. omega (arith, le)) sizes (sizes_below sizes))

width_of_lem :
    (width : ℕ) (ids : List (List ℕ))
    → 0 < length ids
    → IsRectangular width ids
    → width_of ids ≡ width
width_of_lem width [] h wide = absurd (omega arith)
width_of_lem width (row ∷ ids) h wide = wide.0

limit_positive : (m : Option ℕ) (n : ℕ) → 0 < n → 0 < limit m 1 n
unfolding limit
limit_positive none n h = h
limit_positive (some zero) n h = h
limit_positive (some (suc m)) n h = omega arith

first-Below : (m : Option ℕ) → Below m 1
unfolding Below
first-Below none = tt
first-Below (some zero) = tt
first-Below (some (suc m)) = omega arith

module _ (arrays : Arrays) (args : Args) (sizes : List ℕ) (bits : ℕ) where
  -- What is saved, of ids and labels.
  saved : List (List ℕ) → List ℤ → Written
  saved ids labels = record {
    metadata = record {
      batch_size = some args.batch_size;
      bag_size = some args.bag_size;
      num_fields = some args.bag_size;
      rows_per_block = some args.rows_per_block;
      trace_layout = some "samples_by_fields";
      total_num_embeddings = some (sum sizes);
    };
    ids = if args.save_ids then some ids else none;
    block_ids = if args.save_blocks then some (blocks_of args.rows_per_block ids) else none;
    offsets = arange 0 args.bag_size (length ids);
    labels = labels;
    field_offsets = field_offsets_from_hash_sizes sizes;
    hash_sizes = sizes;
  }

  written_of_lem :
      (samples : List (List ℕ × ℤ))
      → 0 < length samples
      → 0 < args.bag_size
      → IsRectangular args.bag_size (map (λ s. s.0) samples)
      → All (All (λ i. i < 2 ^ bits)) (map (λ s. s.0) samples)
      → All IsInt8 (map (λ s. s.1) samples)
      → sum sizes < 2 ^ 64
      → written_of arrays args sizes (field_offsets_from_hash_sizes sizes) bits samples
        ≡ ok (saved (map (λ s. s.0) samples) (map (λ s. s.1) samples))
  unfolding written_of saved field_offsets_from_hash_sizes
  written_of_lem samples some_sample bag0 wide small fits total =
      let ids = map (λ s. s.0) samples in
      let width : width_of ids ≡ args.bag_size =
        width_of_lem args.bag_size ids (rw (length-map) some_sample) wide in
      let nonzero : (args.bag_size == 0) ≡ false = ground (arith, bag0) in
      let offsets = offsets_from 0 sizes in
      rw
        (
          arrays.matrix_of_fitting bits args.bag_size ids wide small,
          width,
          nonzero,
          arrays.int8_of_fitting (map (λ s. s.1) samples) fits,
          arrays.uint64_of_fitting offsets
              (All-mono _ _ (λ x le. omega (arith, le, total)) offsets (offsets_below 0 sizes)),
          arrays.uint64_of_fitting sizes
              (All-mono _ _ (λ x le. omega (arith, le, total)) sizes (sizes_below sizes)),
        )
        refl

module _ {F : Type 0} (zero_slope : F) (fit : List ℕ → F) (np : Numpy) (topk block_bytes : ℕ)
    (hash : Blake2b) (arrays : Arrays) (args : Args) (parse_row : List ℕ → Result (List ℕ))
    (sizes : List ℕ) (bits : ℕ) (paths : List (List Text))
    (rows : List (Option ℤ × List Text)) where
  saved_ids :
      (ids : List (List ℕ)) (labels : List ℤ)
      → args.save_ids ≡ true
      → (saved arrays args sizes bits ids labels).ids ≡ some ids
  unfolding saved
  saved_ids ids labels e = rw e refl

  read_of :
      (ids : List (List ℕ)) (labels : List ℤ) (per : Option ℕ)
      → args.save_ids ≡ true
      → (t : EmbeddingTrace) × (init (source_of (saved arrays args sizes bits ids labels)) per
          ≡ ok t)
        × (t.metadata.total_num_embeddings ≡ some (sum sizes))
        × (t.jsonl_offsets ≡ none)
        × (t.ids ≡ some (matrix args.bag_size ids))
        × (batch_size t ≡ some args.batch_size)
        × (t.metadata.bag_size ≡ some args.bag_size)
        × (t.metadata.num_fields ≡ some args.bag_size)
  unfolding init source_of with_default saved
  read_of ids labels per e = (_, refl, refl, refl, rw e refl, refl, refl, refl)

  -- The saved trace is read back.
  read_back :
      (ids : List (List ℕ)) (labels : List ℤ) (per : Option ℕ)
      → args.save_ids ≡ true
      → IsRectangular args.bag_size ids
      → 0 < args.bag_size
      → 0 < args.batch_size
      → (t : EmbeddingTrace) × (init (source_of (saved arrays args sizes bits ids labels)) per
          ≡ ok t)
        × (t.metadata.total_num_embeddings ≡ some (sum sizes))
        × (batches : List (List ℕ)) × (iter_batches parse_row t ≡ ok batches)
        × (flatten batches ≡ flatten ids)
        × (length batches ≡ ceil_div (length ids) args.batch_size)
  read_back ids labels per save wide bag0 batch0 =
      let (t, opened, table, in_memory, array, batch, bag, fields) = read_of ids labels per save in
      let bagged : IsBagged t args.batch_size args.bag_size ids = record {
        in_memory = in_memory;
        array = array;
        batch = batch;
        bag = ground (arith, bag, fields, bag0);
        positive = batch0;
        wide = bag0;
        rectangular = wide;
      } in
      let (batches, got, same, count, most) = iter_batches_bagged parse_row bagged in
      (t, opened, table, batches, got, same, count)

  rows-AreRows :
      iter_criteo_rows paths args.num_fields ≡ ok rows
      → All (λ row. length row.1 ≡ args.num_fields) rows
  unfolding AreRows
  rows-AreRows found =
      let (rows', found', (count, wide)) = iter_criteo_rows_lem args.num_fields paths in
      let same : rows' ≡ rows = grind (arith, found, found') in rw same at wide

  -- Rows that are read are written as a trace, and the trace reader reads it back: where the sizes
  -- parse, with a sum that the dtype holds, the id mode is one of the two, the seed has 64 bits, the
  -- labels have 8, there is a row, each row fills a bag, ids are saved, and the output has the suffix
  -- .npz. The trace then has a sample for each row up to the limit, all ids are below the sum of the
  -- sizes, which the metadata has too, and the batches that are read are the samples in order, none
  -- lost. The report that the script returns is made, and its lookups are those of all samples.
  pub preprocess_read :
      (per : Option ℕ) (before : Result Source)
      → is_npz args.output ≡ true
      → input_paths args.input args.input_glob ≡ ok paths
      → parse_hash_sizes args.hash_size args.num_fields ≡ ok sizes
      → dtype_from_name args.dtype ≡ ok bits
      → iter_criteo_rows paths args.num_fields ≡ ok rows
      → 0 < length rows
      → All IsInt8 (map (λ r. label_of r.0) rows)
      → IsSupported args.global_id_mode
      → FillsBag args
      → args.seed < 2 ^ 64
      → sum sizes < 2 ^ bits
      → 0 < args.num_fields
      → 0 < args.bag_size
      → 0 < args.batch_size
      → args.save_ids ≡ true
      → (w : Written) × (preprocess arrays args hash ≡ ok w)
        × (ids : List (List ℕ)) × (w.ids ≡ some ids)
        × (length ids ≡ limit args.max_samples 1 (length rows))
        × All (All (λ i. i < sum sizes)) ids
        × (t : EmbeddingTrace) × (init (source_of w) per ≡ ok t)
        × (t.metadata.total_num_embeddings ≡ some (sum sizes))
        × (batches : List (List ℕ)) × (iter_batches parse_row t ≡ ok batches)
        × (flatten batches ≡ flatten ids)
        × (length batches ≡ ceil_div (length ids) args.batch_size)
        × (stats : Stats F) × (preprocess_stats zero_slope fit np parse_row arrays args hash before
              topk block_bytes
            ≡ ok stats)
        × (stats.total_lookups ≡ length ids * args.bag_size)
  unfolding preprocess preprocess_stats found_after
  preprocess_read per before named located parsed typed found some_row labels_fit supported fills
        seed total n0 bag0 batch0 save =
      let are_sizes = parse_hash_sizes-AreSizes args.hash_size args.num_fields sizes parsed in
      let (samples, sampled, are) =
        samples_from_lem hash sizes args supported seed n0 are_sizes 1 rows fills (omega arith)
          (first-Below args.max_samples) (rows-AreRows found) in
      let ids = map (λ s. s.0) samples in
      let labels = map (λ s. s.1) samples in
      let some_sample : 0 < length samples =
        omega (arith, are.count, limit_positive args.max_samples (length rows) some_row) in
      let nonempty : (length samples == 0) ≡ false = ground (arith, some_sample) in
      let labelled : All IsInt8 labels =
        rw are.labels (All-take _ (length samples) (map (λ r. label_of r.0) rows) labels_fit) in
      let small : All (All (λ i. i < 2 ^ bits)) ids =
        All-mono _ _ (λ row below. All-mono _ _ (λ i lt. omega (arith, lt, total)) row below) ids
          are.below in
      let wrote =
        written_of_lem arrays args sizes bits samples some_sample bag0 are.widths small labelled
          (omega (arith, total, bits_le args.dtype bits typed)) in
      let w = saved arrays args sizes bits ids labels in
      let made : preprocess arrays args hash ≡ ok w =
        rw (located, parsed, typed, found, sampled, nonempty, wrote) refl in
      let (t, opened, table, batches, got, same, count) =
        read_back ids labels per save are.widths bag0 batch0 in
      let (t', opened', table', batches', got', same', count') =
        read_back ids labels (some args.rows_per_block) save are.widths bag0 batch0 in
      let analyzed =
        analyze_lem zero_slope fit np parse_row (source_of w) args.rows_per_block topk block_bytes
          t' batches' opened' got' in
      (
        w,
        made,
        ids,
        saved_ids ids labels save,
        length-map (λ s. s.0) samples ∙ are.count,
        are.below,
        t,
        opened,
        table,
        batches,
        got,
        same,
        count,
        analyzed.0,
        rw (made, named) analyzed.1,
        analyzed.2 ∙ ap length same' ∙ length-flatten args.bag_size ids are.widths,
      )
