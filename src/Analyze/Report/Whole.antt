-- ===== src/Analyze/Report/Whole.antt =====
-- The report of a trace.
use mem_tier_gds.Base.{
  ℕ, ◌+◌, max, ◌≤◌, List, [], ◌∷◌, map, flatten, some, ◌≡◌, refl, ap, sym, ◌∙◌, arith, inl, inr,
  length, sum, All, set_of, set_of-Distinct-eq, length-set_of_same, keys, Result, ok, Result-cases,
}
use mem_tier_gds.Base.Numpy.{Numpy}
use mem_tier_gds.Trace.{Source, EmbeddingTrace, init, iter_batches}
use mem_tier_gds.Workload.{ids_to_blocks, unique_counts, reuse_rates, mean}
use mem_tier_gds.Analyze.Lru.{
  Sims, dram_gb, capacity, capacities, new_sims, new_hits, update_lru_sims, sim_batches, simulate,
  hit_rate,
}
use mem_tier_gds.Analyze.Lru.Counts.{hits_of}
use mem_tier_gds.Analyze.Lru.Run.{Holds, simulate_lem}
use mem_tier_gds.Analyze.Percentile.{fifty, ninety_five, percentile_total}
use mem_tier_gds.Analyze.Coverage.{Share, Counter, Report, coverage}
use mem_tier_gds.Analyze.Coverage.Bounds.{share_bounds, share_mono}
use mem_tier_gds.Analyze.Coverage.Tally.{update_lem, length-keys}
use mem_tier_gds.Analyze.Report.{
  Notes, no_notes, note, note_batches, rates, Stats, stats_of, analyze_trace_file,
}
use mem_tier_gds.Analyze.Report.Noted.{blocks_of, note_all, note_all-HasNoted}

module _ (np : Numpy) (rows_per_block : ℕ) where
  -- The loop is the simulations and the notes side by side.
  note_batches_lem :
      (i : ℕ) (batches : List (List ℕ)) (n : Notes) (s r : Sims)
      → sim_batches s.total (blocks_of np rows_per_block batches) s.sims s.hits ≡ ok r
      → note_batches np rows_per_block i batches n s
        ≡ ok (note_all np rows_per_block i batches n, r)
  unfolding sim_batches note_batches note_all
  note_batches_lem i [] n s r e = let same : s ≡ r = grind (arith, e) in ap (λ r. ok (n, r)) same
  note_batches_lem i (ids ∷ batches) n s r e =
      elim (Result-cases (update_lru_sims (ids_to_blocks np rows_per_block ids) s.sims s.hits)) [
        | inl (one, found) ↦ rw found (
            note_batches_lem (i + 1) batches (note np rows_per_block i ids n)
              (record { total = s.total + one.total; sims = one.sims; hits = one.hits }) r
              (rw found at e))
        | inr (failure, found) ↦ absurd (grind (arith, rw found at e))
      ]

-- The rates are those of the sizes, in order.
rates_lem :
    (s : Sims) (block_bytes : ℕ) (trace gbs : List ℕ)
    → All (Holds trace s) (map (capacity block_bytes) gbs)
    → (l : List (ℕ × (ℕ × ℕ))) × (rates s block_bytes gbs ≡ ok l)
      × (map (λ e. e.0) l ≡ gbs)
      × All (λ e. hit_rate s (capacity block_bytes e.0) ≡ ok e.1) l
unfolding hit_rate
rates_lem s block_bytes trace [] h = ([], refl, refl, tt)
rates_lem s block_bytes trace (gb ∷ gbs) h =
    let (l, found, names, each) = rates_lem s block_bytes trace gbs h.1 in
    let rate : ℕ × ℕ = (hits_of (capacity block_bytes gb) [] trace, max s.total 1) in
    let one : hit_rate s (capacity block_bytes gb) ≡ ok rate = rw (hit_rate, h.0.1) refl in
    ((gb, rate) ∷ l, rw (one, found) refl, ap (◌∷◌ gb) names, (one, each))

-- Each share covers at least as much as the one before.
abbrev pub Rises : List Share → Type 0
Rises [] = Unit
Rises (s ∷ []) = Unit
Rises (s ∷ next ∷ shares) = (s.covered ≤ next.covered) × Rises (next ∷ shares)

-- No share of a coverage is more than the whole, and a larger part covers at least as much.
abbrev pub AreShares : Report → Type 0
AreShares r = All (λ s. s.covered ≤ s.total) r.shares × Rises r.shares

coverage-AreShares : (counter : Counter) (topk : ℕ) → AreShares (coverage counter topk)
unfolding coverage
coverage-AreShares counter topk = (
  ((share_bounds counter 1).0, ((share_bounds counter 5).0, ((share_bounds counter 10).0, tt))),
  (share_mono counter 1 5 (omega arith), (share_mono counter 5 10 (omega arith), tt)),
)

module _ {F : Type 0} (zero_slope : F) (fit : List ℕ → F) (np : Numpy)
    (parse_row : List ℕ → Result (List ℕ)) (trace_file : Source)
    (rows_per_block topk block_bytes : ℕ) (t : EmbeddingTrace) (batches : List (List ℕ)) where
  -- For a trace that can be read, the report is made, and it is of the batches as a whole: the lookups
  -- are all ids, the ids and blocks are counted once each, the mean of unique blocks and the reuse
  -- rates are those of `estimate_block_reuse`, there is a reuse distance for every block of a batch
  -- but the first time that the block is used, the reported rates are, size by size, those of the
  -- simulation on the batches' blocks, no coverage is more than the whole, and a larger part covers
  -- at least as much.
  pub analyze_lem :
      init trace_file (some rows_per_block) ≡ ok t
      → iter_batches parse_row t ≡ ok batches
      → (stats : Stats F) × (analyze_trace_file zero_slope fit np parse_row trace_file
            rows_per_block topk block_bytes
          ≡ ok stats)
        × (stats.total_lookups ≡ length (flatten batches))
        × (stats.unique_ids ≡ length (set_of (flatten batches)))
        × (stats.unique_blocks ≡ length (set_of (flatten (blocks_of np rows_per_block batches))))
        × (stats.avg_unique_blocks_per_batch ≡ mean (unique_counts np rows_per_block batches))
        × (stats.block_reuse_rate ≡ reuse_rates np rows_per_block [] batches)
        × (distances : List ℕ) × (stats.reuse_distance_approx.avg_batches ≡ mean distances)
        × (length distances + stats.unique_blocks ≡ sum (unique_counts np rows_per_block batches))
        × (sims : Sims) × (simulate block_bytes (blocks_of np rows_per_block batches) ≡ ok sims)
        × (map (λ e. e.0) stats.cache_simulation ≡ dram_gb)
        × All (λ e. hit_rate sims (capacity block_bytes e.0) ≡ ok e.1) stats.cache_simulation
        × AreShares stats.id_frequency
        × AreShares stats.block_frequency
  unfolding analyze_trace_file stats_of simulate capacities
  analyze_lem opened read =
      let blocks = blocks_of np rows_per_block batches in
      let n = note_all np rows_per_block 0 batches no_notes in
      let noted = note_all-HasNoted np rows_per_block 0 batches no_notes in
      let (sims, simulated, counted, holds) = simulate_lem block_bytes blocks in
      let caps = capacities block_bytes in
      let looped =
        note_batches_lem np rows_per_block 0 batches no_notes
          (record { total = 0; sims = new_sims caps; hits = new_hits caps }) sims simulated in
      let (p50, found50) = percentile_total n.unique_blocks_per_batch fifty in
      let (p95, found95) = percentile_total n.unique_blocks_per_batch ninety_five in
      let (d50, foundd50) = percentile_total n.reuse_distances fifty in
      let (d95, foundd95) = percentile_total n.reuse_distances ninety_five in
      let (l, rated, names, each) = rates_lem sims block_bytes (flatten blocks) dram_gb holds in
      let ids_once : length n.id_counter ≡ length (set_of (flatten batches)) =
        ap length noted.ids ∙ (update_lem (flatten batches)).2 in
      let blocks_once : length n.block_counter ≡ length (set_of (flatten blocks)) =
        ap length noted.blocks ∙ (update_lem (flatten blocks)).2 in
      let (once, same) = noted.keys_once tt in
      let seen : length n.last_seen ≡ length (set_of (flatten blocks)) =
        sym (length-keys n.last_seen)
        ∙ ap length (sym (set_of-Distinct-eq (keys n.last_seen) once))
        ∙ length-set_of_same (keys n.last_seen) (flatten blocks) same in
      (
        stats_of zero_slope fit t topk n p50 p95 d50 d95 l,
        rw (opened, read, looped, found50, found95, foundd50, foundd95, rated) refl,
        omega (arith, noted.lookups),
        ids_once,
        blocks_once,
        ap mean noted.blocks_per_batch,
        noted.ratios,
        n.reuse_distances,
        refl,
        omega (arith, noted.distances, seen, blocks_once),
        sims,
        simulated,
        names,
        each,
        coverage-AreShares n.id_counter topk,
        coverage-AreShares n.block_counter topk,
      )
