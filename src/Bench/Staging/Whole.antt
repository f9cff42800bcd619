-- ===== src/Bench/Staging/Whole.antt =====
-- The staging run on a synthetic trace.
use mem_tier_gds.Base.{
  ℕ, ◌*◌, ◌%◌, ◌<◌, List, [], ◌∷◌, Bool, true, Bool-cases, inl, inr, flatten, ◌≡◌, refl, ap, ◌∙◌,
  arith, length, sum, All, contains, contains-append, Result, ok, at_index, at_index-some,
}
use mem_tier_gds.Base.Numpy.{Numpy}
use mem_tier_gds.Workload.{IdSource, generate_ids, unique_counts}
use mem_tier_gds.Workload.Generated.{AllBelow, IsSupported, generate_ids_lem}
use mem_tier_gds.Bench.{Synthetic, no_stats, Summary, summary, synthetic_batches, Batches}
use mem_tier_gds.Bench.Counted.{observe_all}
use mem_tier_gds.Bench.Staging.{Args, synthetic, open_batches, run}
use mem_tier_gds.Bench.Staging.Reads.{Yields}
use mem_tier_gds.Bench.Staging.Outcome.{block_bytes_of, row_bytes_of, result_of, run_whole}

-- The iterator over a list.
abbrev pub iter : List (List ℕ) → Batches
iter trace = record { num_batches = length trace; batch = at_index trace }

pub iter-Yields : (trace : List (List ℕ)) → Yields (iter trace) trace
iter-Yields trace = record { count = refl; found = at_index-some trace }

below_of : (n i : ℕ) (ids : List ℕ) → AllBelow n ids → contains i ids ≡ true → i < n
unfolding contains
below_of n i [] h m = absurd (grind (arith, m))
below_of n i (x ∷ ids) h m = ground (arith, h, m, below_of n i ids)

below_flatten :
    (n i : ℕ) (l : List (List ℕ)) → All (AllBelow n) l → contains i (flatten l) ≡ true → i < n
unfolding flatten contains
below_flatten n i [] h m = absurd (grind (arith, m))
below_flatten n i (ids ∷ l) h m = elim (Bool-cases (contains i ids)) [
  | inl here ↦ below_of n i ids h.0 here
  | inr there ↦
      below_flatten n i l h.1 (ground (arith, m, there, contains-append i ids (flatten l)))
]

module _ {F S : Type 0} (np : Numpy) (source : IdSource F S)
    (parse_row : List ℕ → Result (List ℕ)) where
  -- On a synthetic trace of a supported distribution with an overlap ratio in its range, and a file
  -- that is a table of the trace's rows, whole blocks of them, the run always succeeds: it has the batches
  -- asked for, and reads each batch's unique blocks once.
  pub run_synthetic :
      (file : List ℕ) (copy : Bool) (args : Args) (a : Synthetic)
      → args.input ≡ synthetic a
      → IsSupported a.dist
      → a.overlap_ratio.in_range ≡ true
      → 0 < a.num_embeddings
      → 0 < args.rows_per_block
      → a.num_embeddings % args.rows_per_block ≡ 0
      → length file ≡ a.num_embeddings * row_bytes_of args
      → (trace : List (List ℕ)) × (counts : Summary) × (generate_ids source a.dist a.num_embeddings
            a.batch_size a.bag_size a.num_batches a.overlap_ratio a.seed
          ≡ ok trace)
        × (summary (observe_all np args.rows_per_block trace no_stats) ≡ ok counts)
        × (run np source parse_row file copy args
            ≡ ok (
                result_of copy
                  (block_bytes_of args)
                  a.num_batches
                  (sum (unique_counts np args.rows_per_block trace))
                  counts))
  unfolding open_batches synthetic_batches
  run_synthetic file copy args a from supported ratio n0 p0 whole size =
      let (trace, made, is_trace) =
        generate_ids_lem source a.dist a.num_embeddings a.batch_size a.bag_size a.num_batches a.seed
          a.overlap_ratio supported n0 ratio in
      let opened : open_batches np source parse_row args.input args.rows_per_block
          ≡ ok (iter trace) =
        rw (from, made) refl in
      let (counts, summed, ran) =
        run_whole np source parse_row file copy args a.num_embeddings (iter trace) trace opened
          (iter-Yields trace) size p0 whole
          (λ i m. below_flatten a.num_embeddings i trace is_trace.below m) in
      (
        trace,
        counts,
        made,
        summed,
        ran
            ∙ ap
                (λ n. ok (
                  result_of copy (block_bytes_of args) n
                    (sum (unique_counts np args.rows_per_block trace)) counts))
                is_trace.batches,
      )
