-- ===== src/Bench/Counted.antt =====
-- What is counted of the batches, against the batches as a whole.
use mem_tier_gds.Base.{
  ℕ, ◌+◌, max, Bool, true, false, List, [], ◌∷◌, ◌++◌, map, flatten, append_assoc, append-nil, ◌≡◌,
  refl, ap, sym, ◌∙◌, arith, if◌then◌else◌, length, length-append, contains, contains-append,
  contains-set_of, set_of, length-set_of_same, set_of-Distinct, set_of-Distinct-eq, Distinct, inter,
  ok,
}
use mem_tier_gds.Base.Numpy.{Numpy}
use mem_tier_gds.Base.Text.{is_empty}
use mem_tier_gds.Workload.{ids_to_blocks, unique_counts, reuse_rates, mean}
use mem_tier_gds.Analyze.Percentile.{ninety_five, percentile_total}
use mem_tier_gds.Bench.{Stats, no_stats, union, observe, Summary, summary}

contains-union :
    (x : ℕ) (s t rest : List ℕ) → contains x (union s t ++ rest) ≡ contains x (s ++ (t ++ rest))
unfolding union
contains-union x s t rest = ground (
  arith,
  contains-append x (set_of (s ++ t)) rest,
  contains-set_of x (s ++ t),
  contains-append x s t,
  contains-append x s (t ++ rest),
  contains-append x t rest,
)

contains-set_of_middle :
    (x : ℕ) (s t rest : List ℕ)
    → contains x (s ++ (set_of t ++ rest)) ≡ contains x (s ++ (t ++ rest))
contains-set_of_middle x s t rest = ground (
  arith,
  contains-append x s (set_of t ++ rest),
  contains-append x (set_of t) rest,
  contains-set_of x t,
  contains-append x s (t ++ rest),
  contains-append x t rest,
)

append_unless {ℓ} :
    {A : Type ℓ} (skip : Bool) (rs more : List A) (r : A)
    → (if skip then rs else rs ++ r ∷ []) ++ more ≡ rs ++ (if skip then more else r ∷ more)
append_unless true rs more r = refl
append_unless false rs more r = append_assoc rs (r ∷ []) more

module _ (np : Numpy) (rows_per_block : ℕ) where
  -- The counts after all batches.
  unfoldable pub observe_all : List (List ℕ) → Stats → Stats
  observe_all [] s = s
  observe_all (batch ∷ batches) s = observe_all batches (observe np rows_per_block batch s)

  -- All batches' blocks.
  unfoldable pub all_blocks : List (List ℕ) → List ℕ
  all_blocks [] = []
  all_blocks (batch ∷ batches) =
      set_of (ids_to_blocks np rows_per_block batch) ++ all_blocks batches

  -- How the counts at the end follow from those at the start.
  record HasCounted (batches : List (List ℕ)) (s r : Stats) : Type 0 where
    ids_per_batch :
        r.unique_ids_per_batch ≡ s.unique_ids_per_batch ++ map (λ b. length (set_of b)) batches
    blocks_per_batch :
        r.unique_blocks_per_batch
        ≡ s.unique_blocks_per_batch ++ unique_counts np rows_per_block batches
    ratios :
        r.block_reuse_ratios
        ≡ s.block_reuse_ratios ++ reuse_rates np rows_per_block s.previous_blocks batches
    lookups : r.total_lookups ≡ s.total_lookups + length (flatten batches)
    ids : (x : ℕ) → contains x r.all_unique_ids ≡ contains x (s.all_unique_ids ++ flatten batches)
    blocks :
        (x : ℕ)
        → contains x r.all_unique_blocks ≡ contains x (s.all_unique_blocks ++ all_blocks batches)

  observe_all-HasCounted :
      (batches : List (List ℕ)) (s : Stats) → HasCounted batches s (observe_all batches s)
  unfolding observe_all all_blocks unique_counts reuse_rates observe flatten
  observe_all-HasCounted [] s = record {
    ids_per_batch = sym (append-nil s.unique_ids_per_batch);
    blocks_per_batch = sym (append-nil s.unique_blocks_per_batch);
    ratios = sym (append-nil s.block_reuse_ratios);
    lookups = omega arith;
    ids = λ x. rw append-nil refl;
    blocks = λ x. rw append-nil refl;
  }
  observe_all-HasCounted (b ∷ batches) s =
      let s' = observe np rows_per_block b s in
      let ih = observe_all-HasCounted batches s' in
      record {
        ids_per_batch =
            ih.ids_per_batch
            ∙ append_assoc s.unique_ids_per_batch (length (set_of b) ∷ [])
                (map (λ b. length (set_of b)) batches);
        blocks_per_batch =
            ih.blocks_per_batch
            ∙ append_assoc s.unique_blocks_per_batch
                (length (set_of (ids_to_blocks np rows_per_block b)) ∷ [])
                (unique_counts np rows_per_block batches);
        ratios =
            ih.ratios
            ∙ append_unless (is_empty s.previous_blocks) s.block_reuse_ratios
                (reuse_rates np rows_per_block (set_of (ids_to_blocks np rows_per_block b)) batches)
                (
                  length (inter (set_of (ids_to_blocks np rows_per_block b)) s.previous_blocks),
                  max (length (set_of (ids_to_blocks np rows_per_block b))) 1,
                );
        lookups = omega (arith, ih.lookups, length-append b (flatten batches));
        ids = λ x.
            ih.ids x
            ∙ contains-union x s.all_unique_ids (set_of b) (flatten batches)
            ∙ contains-set_of_middle x s.all_unique_ids b (flatten batches);
        blocks = λ x.
            ih.blocks x
            ∙ contains-union x s.all_unique_blocks (set_of (ids_to_blocks np rows_per_block b))
                (all_blocks batches);
      }

  observe_all-Distinct :
      (batches : List (List ℕ)) (s : Stats)
      → Distinct s.all_unique_ids × Distinct s.all_unique_blocks
      → Distinct (observe_all batches s).all_unique_ids
        × Distinct (observe_all batches s).all_unique_blocks
  unfolding observe_all observe union
  observe_all-Distinct [] s d = d
  observe_all-Distinct (b ∷ batches) s d =
      observe_all-Distinct batches (observe np rows_per_block b s) (
        set_of-Distinct (s.all_unique_ids ++ set_of b),
        set_of-Distinct (s.all_unique_blocks ++ set_of (ids_to_blocks np rows_per_block b)),
      )

  same_size :
      (l whole : List ℕ)
      → Distinct l
      → ((x : ℕ) → contains x l ≡ contains x whole)
      → length l ≡ length (set_of whole)
  same_size l whole d h = ap length (sym (set_of-Distinct-eq l d)) ∙ length-set_of_same l whole h

  -- What the loop has counted after all batches is what the batches have as a whole: the ids and the
  -- blocks that it knows are those of the batches, each once, the lookups are all ids, and the counts
  -- and the reuse ratios per batch are those that `estimate_block_reuse` takes the means of.
  pub observe_all_lem :
      (batches : List (List ℕ))
      → let r = observe_all batches no_stats in
        (length r.all_unique_ids ≡ length (set_of (flatten batches)))
        × (length r.all_unique_blocks ≡ length (set_of (all_blocks batches)))
        × (r.total_lookups ≡ length (flatten batches))
        × (r.unique_blocks_per_batch ≡ unique_counts np rows_per_block batches)
        × (r.block_reuse_ratios ≡ reuse_rates np rows_per_block [] batches)
  observe_all_lem batches =
      let h = observe_all-HasCounted batches no_stats in
      let d = observe_all-Distinct batches no_stats (tt, tt) in
      let r = observe_all batches no_stats in
      (
        same_size r.all_unique_ids (flatten batches) d.0 h.ids,
        same_size r.all_unique_blocks (all_blocks batches) d.1 h.blocks,
        omega (arith, h.lookups),
        h.blocks_per_batch,
        h.ratios,
      )

-- The percentile of counts is always found.
pub summary_total : (s : Stats) → (c : Summary) × (summary s ≡ ok c)
unfolding summary
summary_total s =
    let (p95, found) = percentile_total s.unique_blocks_per_batch ninety_five in
    (
      record {
        num_unique_ids = length s.all_unique_ids;
        num_unique_blocks = length s.all_unique_blocks;
        avg_unique_ids_per_batch = mean s.unique_ids_per_batch;
        avg_unique_blocks_per_batch = mean s.unique_blocks_per_batch;
        p95_unique_blocks_per_batch = p95;
        block_reuse_ratio = s.block_reuse_ratios;
        lookups = s.total_lookups;
      },
      rw found refl,
    )
