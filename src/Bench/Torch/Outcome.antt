-- ===== src/Bench/Torch/Outcome.antt =====
-- The run of the Torch baseline on a GPU that works.
use mem_tier_gds.Base.{
  ℕ, suc, ◌-◌, ◌^◌, Bool, ◌*◌, ◌%◌, ◌<◌, ◌==◌, true, List, [], ◌∷◌, map, some, ◌≡◌, refl, ap, ◌∙◌,
  arith, length, length-map, IsRectangular, ok,
}
use mem_tier_gds.Base.Action.{Ends, after-ok}
use mem_tier_gds.Trace.{matrix}
use mem_tier_gds.Workload.{IdSource}
use mem_tier_gds.Workload.Generated.{AllBelow}
use mem_tier_gds.Analyze.Percentile.{fifty, ninety_five, percentile_total}
use mem_tier_gds.Bench.Torch.{
  Gpu, Args, TorchResult, Mode, ids_of, look_up, look_up_all, result_of, entries_with, open_trace,
  run,
}
use mem_tier_gds.Bench.Torch.Bags.{AreOffsets, torch_arange-AreOffsets}

-- A GPU is there, no call but a lookup fails, and a lookup of ids that are rows of the table, with
-- offsets for all of them, does not.
pub record IsWorking {W : Type 0} (gpu : Gpu W) : Type 0 where
  pub available : gpu.is_available ≡ true
  pub constructs :
      (rows columns : ℕ) (mode : Mode) (half : Bool)
      → (w : W) → (gpu.embedding_bag rows columns mode half w).0 ≡ ok tt
  pub copies : (ids : List ℕ) (w : W) → (gpu.as_tensor ids w).0 ≡ ok tt
  pub synchronizes : (w : W) → (gpu.synchronize w).0 ≡ ok tt
  pub looks_up :
      (rows : ℕ) (ids offsets : List ℕ)
      → AllBelow rows ids
      → AreOffsets (length ids) offsets
      → (w : W) → (gpu.forward rows ids offsets w).0 ≡ ok tt

module _ (rows : ℕ) where
  ids_of-AllBelow : 0 < rows → (batch : List ℕ) → AllBelow rows (ids_of rows batch)
  unfolding ids_of
  ids_of-AllBelow pos [] = tt
  ids_of-AllBelow pos (i ∷ batch) = (omega arith, ids_of-AllBelow pos batch)

  length-ids_of : (batch : List ℕ) → length (ids_of rows batch) ≡ length batch
  unfolding ids_of
  length-ids_of batch = length-map (λ i. i % rows) batch

module _ {W : Type 0} (gpu : Gpu W) (works : IsWorking gpu) (rows : ℕ) (pos : 0 < rows) where
  look_up-Ends :
      (offsets batch : List ℕ)
      → AreOffsets (length batch) offsets
      → Ends (look_up gpu rows offsets (some batch)) (λ latency. Unit {0})
  unfolding Ends look_up
  look_up-Ends offsets batch h w =
      let ids = ids_of rows batch in
      let fit : AreOffsets (length ids) offsets = rw (length-ids_of rows batch) h in
      let w1 = (gpu.as_tensor ids w).1 in
      let w2 = (gpu.synchronize w1).1 in
      let (start, w3) = gpu.perf_counter w2 in
      let w4 = (gpu.forward rows ids offsets w3).1 in
      let w5 = (gpu.synchronize w4).1 in
      (
        (gpu.perf_counter w5).0 - start,
        after-ok (gpu.as_tensor ids w) tt _ (works.copies ids w)
            ∙ after-ok (gpu.synchronize w1) tt _ (works.synchronizes w1)
            ∙ after-ok (gpu.forward rows ids offsets w3) tt _
                (works.looks_up rows ids offsets (ids_of-AllBelow rows pos batch) fit w3)
            ∙ after-ok (gpu.synchronize w4) tt _ (works.synchronizes w4),
        tt,
      )

  look_up_all-Ends :
      (width : ℕ) (offsets : List ℕ) (batches : List (List ℕ))
      → AreOffsets width offsets
      → IsRectangular width batches
      → Ends
          (look_up_all gpu rows offsets (map some batches))
          (λ latencies. length latencies ≡ length batches)
  unfolding Ends look_up_all
  look_up_all-Ends width offsets [] h r w = ([], refl, refl)
  look_up_all-Ends width offsets (batch ∷ batches) h r w =
      let fit : AreOffsets (length batch) offsets = rw r.0 h in
      let (t, found, u) = look_up-Ends offsets batch fit w in
      let w1 = (look_up gpu rows offsets (some batch) w).1 in
      let (ts, rest, count) = look_up_all-Ends width offsets batches h r.1 w1 in
      (
        t ∷ ts,
        after-ok (look_up gpu rows offsets (some batch) w) t _ found
            ∙ after-ok (look_up_all gpu rows offsets (map some batches) w1) ts _ rest,
        ap suc count,
      )

  result_of-Ends :
      (num_batches size : ℕ) (latencies : List ℕ)
      → Ends
          (result_of gpu num_batches size latencies)
          (λ r. (r.num_batches ≡ num_batches) × (r.throughput_lookups_per_sec.0 ≡ size * 10 ^ 12))
  unfolding Ends result_of
  result_of-Ends num_batches size latencies w =
      let (p50, e50) = percentile_total latencies fifty in
      let (p95, e95) = percentile_total latencies ninety_five in
      (entries_with num_batches size latencies p50 p95, rw (e50, e95) refl, (refl, refl))

module _ {W F S : Type 0} (gpu : Gpu W) (works : IsWorking gpu) (source : IdSource F S)
    (args : Args) (rows : List (List ℕ)) where
  -- On a GPU that takes a lookup if its ids are rows of the table and its offsets begin at 0, do not
  -- fall and end where the ids end, and all other calls: on a trace, generated or loaded, whose rows
  -- each have the ids of a batch, the run returns, also where the ids of the file are no rows of the
  -- table, and the result counts all batches and all ids.
  pub run_rows :
      open_trace gpu source args args.trace ≡ ok (matrix (args.batch_size * args.bag_size) rows)
      → IsRectangular (args.batch_size * args.bag_size) rows
      → 0 < args.num_embeddings
      → 0 < args.bag_size
      → (w : W)
      → (r : TorchResult) × ((run gpu source args w).0 ≡ ok r)
        × (r.num_batches ≡ length rows)
        × (r.throughput_lookups_per_sec.0
            ≡ length rows * (args.batch_size * args.bag_size) * 10 ^ 12)
  unfolding run Ends
  run_rows opened wide n0 g0 w =
      let n = args.num_embeddings in
      let (offsets, arranged, are) = torch_arange-AreOffsets args.batch_size args.bag_size g0 in
      let bag = gpu.embedding_bag n args.embedding_dim args.mode (args.dtype_size == 2) in
      let w1 = (bag w).1 in
      let (ts, looked, count) =
        look_up_all-Ends gpu works n n0 (args.batch_size * args.bag_size) offsets rows are wide
          w1 in
      let w2 = (look_up_all gpu n offsets (map some rows) w1).1 in
      let (r, summed, (same, size)) =
        result_of-Ends gpu works n n0 (length (map some rows))
          (length rows * (args.batch_size * args.bag_size)) ts w2 in
      (
        r,
        rw (works.available, opened)
            (after-ok (bag w) tt _
                (works.constructs n args.embedding_dim args.mode (args.dtype_size == 2) w)
              ∙ rw arranged
                  (after-ok (look_up_all gpu n offsets (map some rows) w1) ts _ looked ∙ summed)),
        same ∙ length-map some rows,
        size,
      )
