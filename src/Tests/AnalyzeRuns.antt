-- ===== src/Tests/AnalyzeRuns.antt =====
-- Runs of the statistics.
use mem_tier_gds.Base.{
  ℕ, ◌+◌, ◌≤◌, max, List, [], ◌∷◌, flatten, ◌≡◌, refl, arith, length, All, contains, set_of, ok,
}
use mem_tier_gds.Tests.NumpyReference.{numpy}
use mem_tier_gds.Analyze.Lru.{Sims, simulate, capacity, capacities, hit_rate}
use mem_tier_gds.Analyze.Lru.Run.{Holds, simulate_lem}
use mem_tier_gds.Analyze.Lru.Bounds.{hit_rate_mono, hit_rate_large}
use mem_tier_gds.Analyze.Overlap.{batch_multi_gpu_overlap, overlap_Distinct}
use mem_tier_gds.Analyze.Coverage.{Counter}

-- Half a gibibyte for a block, so that the capacities are 2, 8, 16, 32 and 64 blocks.
abbrev half_gib : ℕ
half_gib = 536870912

abbrev stream : List (List ℕ)
stream = (1 ∷ 2 ∷ 3 ∷ []) ∷ (2 ∷ 3 ∷ []) ∷ (1 ∷ []) ∷ []

simulate_lem_example :
    (r : Sims) × (simulate half_gib stream ≡ ok r)
    × (r.total ≡ length (flatten stream))
    × All (Holds (flatten stream) r) (capacities half_gib)
simulate_lem_example = simulate_lem half_gib stream

hit_rate_mono_example :
    (r : Sims) × (m : ℕ) × (n : ℕ) × (total : ℕ) × (simulate half_gib stream ≡ ok r)
    × (hit_rate r (capacity half_gib 1) ≡ ok (m, total))
    × (hit_rate r (capacity half_gib 4) ≡ ok (n, total))
    × (m ≤ n)
unfolding contains
hit_rate_mono_example = hit_rate_mono half_gib 1 4 stream refl refl (omega arith)

abbrev latencies : List ℕ
latencies = 30 ∷ 10 ∷ 20 ∷ []

abbrev looked_up : List ℕ
looked_up = 3 ∷ 4 ∷ 3 ∷ []

abbrev shared : List ℕ
shared = 5 ∷ 6 ∷ 5 ∷ []

abbrev unshared : List ℕ
unshared = 5 ∷ 6 ∷ 9 ∷ []

fits : length (set_of (flatten stream)) ≤ capacity half_gib 4
unfolding set_of contains flatten capacity
fits = omega arith

hit_rate_large_example :
    (r : Sims) × (m : ℕ) × (simulate half_gib stream ≡ ok r)
    × (hit_rate r (capacity half_gib 4) ≡ ok (m, max (length (flatten stream)) 1))
    × (m + length (set_of (flatten stream)) ≡ length (flatten stream))
unfolding contains
hit_rate_large_example = hit_rate_large half_gib 4 stream refl fits

overlap_Distinct_example :
    batch_multi_gpu_overlap numpy unshared 4 ≡ ((0, max (length unshared) 1), 0)
unfolding contains
overlap_Distinct_example =
    overlap_Distinct numpy unshared 4 (omega arith) (refl, (refl, (refl, tt)))

abbrev tally : Counter
tally = (7, 5) ∷ (8, 1) ∷ (9, 2) ∷ []
