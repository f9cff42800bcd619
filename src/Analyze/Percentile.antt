-- ===== src/Analyze/Percentile.antt =====
-- `percentile` of memtier_embedding_bench/scripts/analyze_trace.py on lists of counts, at the two
-- percentages of which the program takes it.
use native.Mathlib.Nat.{mul-le-mul_right}
use mem_tier_gds.Base.{
  ℕ, ◌+◌, ◌-◌, ◌*◌, ◌/◌, ◌%◌, ◌≤◌, ◌<◌, min, max, List, [], ◌∷◌, ◌≡◌, refl, none, some, arith, ltb,
  ◌==◌, if◌then◌else◌, length, get_elem?, Result, ok, raise, index_error, sorted, sorted-IsSorted,
  length-sorted, get_elem?-total, get_elem?_mono,
}

-- The percentages of all calls. At both, the product of floats that the source rounds is rounded as
-- the exact one: at 50 it is exact, and at 95 it is the exact one where that ends in a half, and
-- else the exact one is a twentieth at least from a half.
pub data Percent : Type 0 where
  fifty : Percent
  ninety_five : Percent

abbrev pub of_hundred : Percent → ℕ
of_hundred fifty = 50
of_hundred ninety_five = 95

-- `round(a / 100)`: to the nearest integer, a tie to the even one.
round_hundredths : ℕ → ℕ
round_hundredths a =
    let q = a / 100 in
    let r = a % 100 in
    if ltb r 50 then q else if ltb 50 r then q + 1 else if q % 2 == 0 then q else q + 1

-- `min(len(ordered) - 1, max(0, int(round((pct / 100.0) * (len(ordered) - 1)))))`
pub rank : ℕ → Percent → ℕ
unfolding round_hundredths
rank n pct = min (n - 1) (max 0 (round_hundredths (of_hundred pct * (n - 1))))

pub percentile : List ℕ → Percent → Result ℕ
percentile [] pct = ok 0
percentile (v ∷ values) pct =
    let ordered = sorted (v ∷ values) in
    elim (get_elem? ordered (rank (length ordered) pct)) [
      | none ↦ raise index_error
      | some x ↦ ok x
    ]

round_hundredths_mono : (a b : ℕ) → a ≤ b → round_hundredths a ≤ round_hundredths b
unfolding round_hundredths
round_hundredths_mono a b le = ground arith

rank_mono : (n : ℕ) (p q : Percent) → of_hundred p ≤ of_hundred q → rank n p ≤ rank n q
unfolding rank
rank_mono n p q le =
    let scaled : of_hundred p * (n - 1) ≤ of_hundred q * (n - 1) = mul-le-mul_right (n - 1) le in
    omega (arith, round_hundredths_mono (of_hundred p * (n - 1)) (of_hundred q * (n - 1)) scaled)

rank-lt : (n : ℕ) (pct : Percent) → 0 < n → rank n pct < n
unfolding rank
rank-lt n pct pos = omega arith

percentile_found :
    (v : ℕ) (vs : List ℕ) (pct : Percent) (x : ℕ)
    → get_elem? (sorted (v ∷ vs)) (rank (length (v ∷ vs)) pct) ≡ some x
    → percentile (v ∷ vs) pct ≡ ok x
unfolding percentile
percentile_found v vs pct x found =
    let same : length (sorted (v ∷ vs)) ≡ length (v ∷ vs) = length-sorted (v ∷ vs) in
    rw (percentile, same, found)

-- The element that `percentile` reads.
percentile_at :
    (v : ℕ) (vs : List ℕ) (pct : Percent)
    → (x : ℕ) × (get_elem? (sorted (v ∷ vs)) (rank (length (v ∷ vs)) pct) ≡ some x)
      × (percentile (v ∷ vs) pct ≡ ok x)
percentile_at v vs pct =
    let l = sorted (v ∷ vs) in
    let same : length l ≡ length (v ∷ vs) = length-sorted (v ∷ vs) in
    let (x, found) =
      get_elem?-total l (rank (length (v ∷ vs)) pct)
        (omega (arith, same, rank-lt (length (v ∷ vs)) pct (omega arith))) in
    (x, found, percentile_found v vs pct x found)

pub percentile_total : (values : List ℕ) (pct : Percent) → (x : ℕ) × (percentile values pct ≡ ok x)
unfolding percentile
percentile_total [] pct = (0, refl)
percentile_total (v ∷ vs) pct = let (x, found, run) = percentile_at v vs pct in (x, run)

-- A percentile at a higher percentage is not lower: p50 is at most p95, also for no values.
pub percentile_mono :
    (values : List ℕ) (p q : Percent)
    → of_hundred p ≤ of_hundred q
    → (x : ℕ) × (y : ℕ) × (percentile values p ≡ ok x) × (percentile values q ≡ ok y) × (x ≤ y)
percentile_mono [] p q le =
    (0, 0, unfold percentile in refl, unfold percentile in refl, omega arith)
percentile_mono (v ∷ vs) p q le =
    let values = v ∷ vs in
    let (x, found, run) = percentile_at v vs p in
    let (y, found', run') = percentile_at v vs q in
    (
      x,
      y,
      run,
      run',
      get_elem?_mono (sorted values) _ _ x y (sorted-IsSorted values) found found'
          (rank_mono (length values) p q le),
    )
