-- ===== src/Convert/Readable.antt =====
-- The converted trace, as the trace reader reads it.
use mem_tier_gds.Base.{
  ℕ, ◌^◌, ◌<◌, false, List, flatten, Option, none, some, ◌≡◌, refl, ap, ◌∙◌, arith, ◌==◌, length,
  sum, All, IsRectangular, ceil_div, length-flatten, ◌*◌, true, Result, ok,
}
use mem_tier_gds.Criteo.Sizes.{field_offsets_from_hash_sizes}
use mem_tier_gds.Trace.Savez.{is_npz, found_after}
use mem_tier_gds.Trace.{
  Source, EmbeddingTrace, matrix, init, batch_size, value_of, or_else, iter_batches, with_default,
}
use mem_tier_gds.Trace.Blocks.{blocks_of}
use mem_tier_gds.Trace.Coverage.{IsBagged, iter_batches_bagged}
use mem_tier_gds.Preprocess.{arange}
use mem_tier_gds.Convert.Sparse.{Arrays, Format, detect_format, load_sparse}
use mem_tier_gds.Convert.{Args, Converted, hash_sizes_of, convert, convert_stats, source_of}
use mem_tier_gds.Convert.Mapping.{
  IsSupported, range_of, AreMapped, apply_id_mapping_lem, sizes_uint64, offsets_uint64,
}
use mem_tier_gds.Base.Numpy.{Numpy}
use mem_tier_gds.Analyze.Report.{Stats}
use mem_tier_gds.Analyze.Report.Whole.{analyze_lem}

module _ {F : Type 0} (zero_slope : F) (fit : List ℕ → F) (np : Numpy) (topk block_bytes : ℕ)
    (arrays : Arrays) (args : Args) (parse_row : List ℕ → Result (List ℕ)) (fmt : Format)
    (width : ℕ) (raw : List (List ℕ)) (sizes : List ℕ) where
  total_of : ℕ
  total_of = value_of (or_else args.num_embeddings (some (sum sizes)))

  saved : List (List ℕ) → Converted
  saved ids = record {
    metadata = record {
      batch_size = some args.batch_size;
      bag_size = some width;
      num_fields = some width;
      rows_per_block = some args.rows_per_block;
      trace_layout = some "samples_by_fields";
      total_num_embeddings = some total_of;
    };
    ids = ids;
    block_ids = blocks_of args.rows_per_block ids;
    offsets = arange 0 width (length ids);
    field_offsets = field_offsets_from_hash_sizes sizes;
    hash_sizes = sizes;
  }

  read_of :
      (ids : List (List ℕ)) (per : Option ℕ)
      → (t : EmbeddingTrace) × (init (source_of (saved ids)) per ≡ ok t)
        × (t.metadata.total_num_embeddings ≡ some total_of)
        × (t.jsonl_offsets ≡ none)
        × (t.ids ≡ some (matrix width ids))
        × (batch_size t ≡ some args.batch_size)
        × (t.metadata.bag_size ≡ some width)
        × (t.metadata.num_fields ≡ some width)
  unfolding init source_of with_default saved
  read_of ids per = (_, refl, refl, refl, refl, refl, refl, refl)

  -- The saved trace is read back.
  read_back :
      (ids : List (List ℕ)) (per : Option ℕ)
      → IsRectangular width ids
      → 0 < width
      → 0 < args.batch_size
      → (t : EmbeddingTrace) × (init (source_of (saved ids)) per ≡ ok t)
        × (batches : List (List ℕ)) × (iter_batches parse_row t ≡ ok batches)
        × (flatten batches ≡ flatten ids)
        × (length batches ≡ ceil_div (length ids) args.batch_size)
  read_back ids per widths w0 batch0 =
      let (t, opened, table, in_memory, array, batch, bag, fields) = read_of ids per in
      let bagged : IsBagged t args.batch_size width ids = record {
        in_memory = in_memory;
        array = array;
        batch = batch;
        bag = ground (arith, bag, fields, w0);
        positive = batch0;
        wide = w0;
        rectangular = widths;
      } in
      let (batches, got, same, many, most) = iter_batches_bagged parse_row bagged in
      (t, opened, batches, got, same, many)

  -- What is written of an array that is loaded, and how it is read back.
  convert_saved :
      detect_format args.input.suffix args.input_format ≡ ok fmt
      → load_sparse arrays args.input fmt args.max_samples ≡ ok (width, raw)
      → IsRectangular width raw
      → hash_sizes_of args width raw ≡ ok sizes
      → IsSupported args.field_offset_mode
      → sum sizes < 2 ^ 64
      → range_of args.field_offset_mode args.num_embeddings sizes raw < 2 ^ 64
      → 0 < width
      → 0 < args.batch_size
      → (w : Converted) × (convert arrays args ≡ ok w)
        × (length w.ids ≡ length raw)
        × All (All (λ i. i < range_of args.field_offset_mode args.num_embeddings sizes raw)) w.ids
        × IsRectangular width w.ids
        × ((per : Option ℕ)
            → (t : EmbeddingTrace) × (init (source_of w) per ≡ ok t)
              × (batches : List (List ℕ)) × (iter_batches parse_row t ≡ ok batches)
              × (flatten batches ≡ flatten w.ids)
              × (length batches ≡ ceil_div (length raw) args.batch_size))
  unfolding convert AreMapped saved total_of
  convert_saved detected loaded wide sized supported small fits w0 batch0 =
      let (ids, mapped, (count, widths, below)) =
        apply_id_mapping_lem args width raw sizes supported w0 sized wide small fits in
      let nonzero : (width == 0) ≡ false = ground (arith, w0) in
      let made : convert arrays args ≡ ok (saved ids) =
        rw
          (
            detected,
            loaded,
            mapped,
            nonzero,
            offsets_uint64 sizes small,
            sizes_uint64 sizes (sum sizes) (omega arith) small,
          )
          refl in
      (
        saved ids,
        made,
        count,
        below,
        widths,
        (λ per.
            let (t, opened, batches, got, same, many) = read_back ids per widths w0 batch0 in
            (t, opened, batches, got, same, many ∙ ap (λ n. ceil_div n args.batch_size) count)),
      )

  -- An array that is loaded, whose rows are all of one width that is not 0, is written as a trace, and
  -- the trace reader reads it back: in each of the three modes, where the sizes are found with a sum,
  -- and a range of the mode, of 64 bits, the batch size is not 0 and the output has the suffix .npz.
  -- The trace has a row for each row of the array, the ids are in the mode's range, and the batches
  -- that are read are the rows in order, none lost. The report that the script returns is made, and
  -- its lookups are those of all rows.
  pub convert_read :
      (per : Option ℕ) (before : Result Source)
      → is_npz args.output ≡ true
      → detect_format args.input.suffix args.input_format ≡ ok fmt
      → load_sparse arrays args.input fmt args.max_samples ≡ ok (width, raw)
      → IsRectangular width raw
      → hash_sizes_of args width raw ≡ ok sizes
      → IsSupported args.field_offset_mode
      → sum sizes < 2 ^ 64
      → range_of args.field_offset_mode args.num_embeddings sizes raw < 2 ^ 64
      → 0 < width
      → 0 < args.batch_size
      → (w : Converted) × (convert arrays args ≡ ok w)
        × (length w.ids ≡ length raw)
        × All (All (λ i. i < range_of args.field_offset_mode args.num_embeddings sizes raw)) w.ids
        × (t : EmbeddingTrace) × (init (source_of w) per ≡ ok t)
        × (batches : List (List ℕ)) × (iter_batches parse_row t ≡ ok batches)
        × (flatten batches ≡ flatten w.ids)
        × (length batches ≡ ceil_div (length raw) args.batch_size)
        × (stats : Stats F) × (convert_stats zero_slope fit np parse_row arrays args before topk
              block_bytes
            ≡ ok stats)
        × (stats.total_lookups ≡ length raw * width)
  unfolding convert_stats found_after
  convert_read per before named detected loaded wide sized supported small fits w0 batch0 =
      let (w, made, count, below, widths, read) =
        convert_saved detected loaded wide sized supported small fits w0 batch0 in
      let (t, opened, batches, got, same, many) = read per in
      let (t', opened', batches', got', same', many') = read (some args.rows_per_block) in
      let analyzed =
        analyze_lem zero_slope fit np parse_row (source_of w) args.rows_per_block topk block_bytes
          t' batches' opened' got' in
      (
        w,
        made,
        count,
        below,
        t,
        opened,
        batches,
        got,
        same,
        many,
        analyzed.0,
        rw (made, named) analyzed.1,
        analyzed.2
            ∙ ap length same'
            ∙ length-flatten width w.ids widths
            ∙ ap (λ n. n * width) count,
      )
