-- ===== src/Analyze/Lru/Bounds.antt =====
-- How the hit rates of one trace compare with one another and with its distinct blocks.
use mem_tier_gds.Base.{
  ℕ, suc, ◌+◌, ◌≤◌, max, true, List, [], ◌∷◌, flatten, ◌≡◌, refl, arith, inl, inr, Bool-cases,
  length, take, take_of_length-le, ok, contains, contains_head, contains_tail, map,
  contains-remove_ne, length-remove, remove_absent, set_of, set_of-Distinct, contains-set_of,
  length-le_of_subset, if◌then◌else◌, ◌==◌, ==_iff,
}
use mathlib.Core.List.{reverse, reverse_aux}
use mem_tier_gds.Analyze.Lru.{Sims, simulate, capacity, capacities, hit_rate, dram_gb}
use mem_tier_gds.Analyze.Lru.Window.{
  stack, stack-Distinct, contains-reverse, contains-take_mono, contains_of_contains-take,
}
use mem_tier_gds.Analyze.Lru.Counts.{hits_of}
use mem_tier_gds.Analyze.Lru.Run.{Holds, simulate_at}

hits_of_mono : (c c' : ℕ) (past xs : List ℕ) → c ≤ c' → hits_of c past xs ≤ hits_of c' past xs
hits_of_mono c c' past [] le = omega arith
hits_of_mono c c' past (x ∷ xs) le =
    ground (arith, contains-take_mono c c' x (stack past) le, hits_of_mono c c' (x ∷ past) xs le)

contains-stack : (y : ℕ) (past : List ℕ) → contains y (stack past) ≡ contains y past
unfolding contains
contains-stack y [] = refl
contains-stack y (x ∷ past) =
    ground (arith, contains-stack y past, contains-remove_ne y x (stack past))

-- A block enters the stack once, and every hit is on a block that is there.
length-stack_hit :
    (x : ℕ) (past : List ℕ)
    → length (stack (x ∷ past))
      ≡ (if contains x (stack past) then length (stack past) else suc (length (stack past)))
length-stack_hit x past = ground (arith, length-remove x (stack past), remove_absent x (stack past))

hits_of-le :
    (c : ℕ) (past xs : List ℕ)
    → hits_of c past xs + length (stack (reverse_aux xs past)) ≤ length xs + length (stack past)
hits_of-le c past [] = omega arith
hits_of-le c past (x ∷ xs) = ground (
  arith,
  hits_of-le c (x ∷ past) xs,
  length-stack_hit x past,
  contains_of_contains-take c x (stack past),
)

length-stack-le : (past xs : List ℕ) → length (stack past) ≤ length (stack (reverse_aux xs past))
length-stack-le past [] = omega arith
length-stack-le past (x ∷ xs) =
    ground (arith, length-stack_hit x past, length-stack-le (x ∷ past) xs)

hits_of_large :
    (c : ℕ) (past xs : List ℕ)
    → length (stack (reverse_aux xs past)) ≤ c
    → hits_of c past xs + length (stack (reverse_aux xs past)) ≡ length xs + length (stack past)
hits_of_large c past [] large = omega arith
hits_of_large c past (x ∷ xs) large =
    let all : take c (stack past) ≡ stack past =
      take_of_length-le c (stack past) (omega (arith, length-stack-le past (x ∷ xs))) in
    rw all (ground (arith, hits_of_large c (x ∷ past) xs large, length-stack_hit x past))

length-stack : (trace : List ℕ) → length (stack (reverse trace)) ≡ length (set_of trace)
length-stack trace = omega (
  arith,
  length-le_of_subset (stack (reverse trace)) (set_of trace) (stack-Distinct (reverse trace))
      (λ y h. rw contains-set_of (rw (contains-stack, contains-reverse) at h)),
  length-le_of_subset (set_of trace) (stack (reverse trace)) (set_of-Distinct trace)
      (λ y h. rw (contains-stack, contains-reverse) (rw contains-set_of at h)),
)

capacity_mono :
    (block_bytes gb gb' : ℕ) → gb ≤ gb' → capacity block_bytes gb ≤ capacity block_bytes gb'
unfolding capacity
capacity_mono block_bytes gb gb' le = grind arith

contains-map :
    (f : ℕ → ℕ) (x : ℕ) (xs : List ℕ) → contains x xs ≡ true → contains (f x) (map f xs) ≡ true
unfolding contains
contains-map f x [] h = cc
contains-map f x (y ∷ xs) h = elim (Bool-cases (y == x)) [
  | inl same ↦ rw ((==_iff y x).0 same) (contains_head (f x) (map f xs))
  | inr other ↦ contains_tail (f x) (f y) (map f xs) (contains-map f x xs (ground arith))
]

hit_rate_lem :
    (block_bytes gb : ℕ) (batches : List (List ℕ)) (r : Sims)
    → r.total ≡ length (flatten batches)
    → ((c : ℕ) → contains c (capacities block_bytes) ≡ true → Holds (flatten batches) r c)
    → contains gb dram_gb ≡ true
    → hit_rate r (capacity block_bytes gb)
      ≡ ok
          (hits_of (capacity block_bytes gb) [] (flatten batches), max (length (flatten batches)) 1)
unfolding hit_rate capacities
hit_rate_lem block_bytes gb batches r total holds member =
    let found =
      (holds (capacity block_bytes gb) (contains-map (capacity block_bytes) gb dram_gb member)).1 in
    rw (hit_rate, found, total)

-- A larger DRAM cache never has the lower hit rate: for two of the sizes that are reported, the
-- simulation returns and both rates are read, over one denominator, in the order of the sizes.
pub hit_rate_mono :
    (block_bytes gb gb' : ℕ) (batches : List (List ℕ))
    → contains gb dram_gb ≡ true
    → contains gb' dram_gb ≡ true
    → gb ≤ gb'
    → (r : Sims) × (m : ℕ) × (n : ℕ) × (total : ℕ) × (simulate block_bytes batches ≡ ok r)
      × (hit_rate r (capacity block_bytes gb) ≡ ok (m, total))
      × (hit_rate r (capacity block_bytes gb') ≡ ok (n, total))
      × (m ≤ n)
hit_rate_mono block_bytes gb gb' batches member member' le =
    let trace = flatten batches in
    let (r, run, total, holds) = simulate_at block_bytes batches in
    (
      r,
      hits_of (capacity block_bytes gb) [] trace,
      hits_of (capacity block_bytes gb') [] trace,
      max (length trace) 1,
      run,
      hit_rate_lem block_bytes gb batches r total holds member,
      hit_rate_lem block_bytes gb' batches r total holds member',
      hits_of_mono _ _ [] trace (capacity_mono block_bytes gb gb' le),
    )

module _ (block_bytes gb : ℕ) (batches : List (List ℕ)) (member : contains gb dram_gb ≡ true) where
  -- Every distinct block of the trace misses at least once: at each reported size the simulation
  -- returns, and the hits and the distinct blocks together are at most the blocks of the trace.
  pub hit_rate_cold_misses :
      (r : Sims) × (m : ℕ) × (simulate block_bytes batches ≡ ok r)
      × (hit_rate r (capacity block_bytes gb) ≡ ok (m, max (length (flatten batches)) 1))
      × (m + length (set_of (flatten batches)) ≤ length (flatten batches))
  hit_rate_cold_misses =
      let trace = flatten batches in
      let (r, run, total, holds) = simulate_at block_bytes batches in
      (
        r,
        hits_of (capacity block_bytes gb) [] trace,
        run,
        hit_rate_lem block_bytes gb batches r total holds member,
        omega (arith, hits_of-le (capacity block_bytes gb) [] trace, length-stack trace),
      )

  -- If the capacity is enough for all distinct blocks of the trace, then nothing else misses: the
  -- hits and the distinct blocks together are exactly the blocks of the trace.
  pub hit_rate_large :
      length (set_of (flatten batches)) ≤ capacity block_bytes gb
      → (r : Sims) × (m : ℕ) × (simulate block_bytes batches ≡ ok r)
        × (hit_rate r (capacity block_bytes gb) ≡ ok (m, max (length (flatten batches)) 1))
        × (m + length (set_of (flatten batches)) ≡ length (flatten batches))
  hit_rate_large large =
      let trace = flatten batches in
      let cap = capacity block_bytes gb in
      let (r, run, total, holds) = simulate_at block_bytes batches in
      let fits : length (stack (reverse trace)) ≤ cap = omega (arith, length-stack trace) in
      (
        r,
        hits_of cap [] trace,
        run,
        hit_rate_lem block_bytes gb batches r total holds member,
        omega (arith, hits_of_large cap [] trace fits, length-stack trace),
      )
