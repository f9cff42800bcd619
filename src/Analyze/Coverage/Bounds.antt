-- ===== src/Analyze/Coverage/Bounds.antt =====
-- The shares that `coverage` reports.
use mem_tier_gds.Base.{
  ℕ, zero, suc, ◌+◌, ◌-◌, ◌*◌, ◌≤◌, max, List, [], ◌∷◌, ◌≡◌, refl, arith, length, take, sum, All,
}
use mem_tier_gds.Analyze.Coverage.{
  Counter, values, place_by_count, most_common, top_count, top_sum, share,
}

-- The counts fall.
abbrev Falls : List ℕ → Type 0
Falls [] = Unit
Falls (x ∷ xs) = All (λ y. y ≤ x) xs × Falls xs

place_by_count-sum :
    (e : ℕ × ℕ) (c : Counter)
    → (sum (values (place_by_count e c)) ≡ e.1 + sum (values c))
      × (length (place_by_count e c) ≡ suc (length c))
unfolding place_by_count
place_by_count-sum e [] = (refl, refl)
place_by_count-sum e (f ∷ fs) = ground (arith, place_by_count-sum e fs)

most_common-sum :
    (c : Counter)
    → (sum (values (most_common c)) ≡ sum (values c)) × (length (most_common c) ≡ length c)
unfolding most_common
most_common-sum [] = (refl, refl)
most_common-sum (e ∷ es) = ground (arith, place_by_count-sum e (most_common es), most_common-sum es)

All-ge-place :
    (b : ℕ) (e : ℕ × ℕ) (c : Counter)
    → e.1 ≤ b
    → All (λ y. y ≤ b) (values c)
    → All (λ y. y ≤ b) (values (place_by_count e c))
unfolding place_by_count
All-ge-place b e [] le h = (le, tt)
All-ge-place b e (f ∷ fs) le h = ground (arith, All-ge-place b e fs le h.1)

All-ge_trans : (a b : ℕ) (xs : List ℕ) → a ≤ b → All (λ y. y ≤ a) xs → All (λ y. y ≤ b) xs
All-ge_trans a b [] le h = tt
All-ge_trans a b (x ∷ xs) le h = (omega arith, All-ge_trans a b xs le h.1)

place_by_count-Falls :
    (e : ℕ × ℕ) (c : Counter) → Falls (values c) → Falls (values (place_by_count e c))
unfolding place_by_count
place_by_count-Falls e [] h = (tt, tt)
place_by_count-Falls e (f ∷ fs) h =
    ground (
      arith,
      place_by_count-Falls e fs h.1,
      All-ge-place f.1 e fs,
      All-ge_trans f.1 e.1 (values fs),
    )

most_common-Falls : (c : Counter) → Falls (values (most_common c))
unfolding most_common
most_common-Falls [] = tt
most_common-Falls (e ∷ es) = place_by_count-Falls e (most_common es) (most_common-Falls es)

length-values : (c : Counter) → length (values c) ≡ length c
length-values [] = refl
length-values (e ∷ c) = omega (arith, length-values c)

sum-take-le : (n : ℕ) (xs : List ℕ) → sum (take n xs) ≤ sum xs
sum-take-le zero xs = omega arith
sum-take-le (suc n) [] = omega arith
sum-take-le (suc n) (x ∷ xs) = omega (arith, sum-take-le n xs)

sum-take_mono : (m n : ℕ) (xs : List ℕ) → m ≤ n → sum (take m xs) ≤ sum (take n xs)
sum-take_mono zero n xs le = omega arith
sum-take_mono (suc m) zero xs le = absurd (omega arith)
sum-take_mono (suc m) (suc n) [] le = omega arith
sum-take_mono (suc m) (suc n) (x ∷ xs) le = omega (arith, sum-take_mono m n xs (omega arith))

-- A list of numbers up to a bound.
sum-le_of_All : (b : ℕ) (xs : List ℕ) → All (λ y. y ≤ b) xs → sum xs ≤ length xs * b
sum-le_of_All b [] h = omega arith
sum-le_of_All b (x ∷ xs) h = grind (arith, sum-le_of_All b xs h.1)

sum-le-take :
    (b n k : ℕ) (xs : List ℕ)
    → All (λ y. y ≤ b) xs
    → n + k ≡ length xs
    → sum xs ≤ sum (take n xs) + k * b
sum-le-take b zero k xs h e =
    let same : k ≡ length xs = omega arith in rw same (omega (arith, sum-le_of_All b xs h))
sum-le-take b (suc n) k [] h e = absurd (omega arith)
sum-le-take b (suc n) k (x ∷ xs) h e = omega (arith, sum-le-take b n k xs h.1 (omega arith))

-- The first `n` of falling numbers hold at least their part of the sum.
sum-take-Falls :
    (n k : ℕ) (xs : List ℕ) → Falls xs → n + k ≡ length xs → n * sum xs ≤ sum (take n xs) * (n + k)
sum-take-Falls zero k xs f e = omega arith
sum-take-Falls (suc n) k [] f e = absurd (omega arith)
sum-take-Falls (suc n) k (x ∷ xs) f e =
    omega (arith, sum-take-Falls n k xs f.1 (omega arith), sum-le-take x n k xs f.0 (omega arith))

top_sum-take : (most : Counter) (n : ℕ) → top_sum most n ≡ sum (take n (values most))
unfolding top_sum
top_sum-take most zero = refl
top_sum-take most (suc n) = ground arith

top_count-le : (n p : ℕ) → p ≤ 100 → top_count n p ≤ n
unfolding top_count
top_count-le n p le = let scaled : n * p ≤ n * 100 = grind arith in ground arith

top_count_mono : (n p q : ℕ) → p ≤ q → top_count n p ≤ top_count n q
unfolding top_count
top_count_mono n p q le = let scaled : n * p ≤ n * q = grind arith in ground arith

-- A reported share is at most the whole: what the top elements cover is at most the sum of all
-- counts, which is the denominator, or 1 for no counts.
pub share_bounds :
    (counter : Counter) (percent : ℕ)
    → ((share counter percent).covered ≤ (share counter percent).total)
      × ((share counter percent).total ≡ max (sum (values counter)) 1)
unfolding share top_sum
share_bounds counter percent =
    let n = top_count (length counter) percent in
    (ground (arith, sum-take-le n (values (most_common counter)), most_common-sum counter), refl)

-- A larger fraction of the elements covers at least as much.
pub share_mono :
    (counter : Counter) (p q : ℕ) → p ≤ q → (share counter p).covered ≤ (share counter q).covered
unfolding share top_sum
share_mono counter p q le =
    let m = top_count (length counter) p in
    let n = top_count (length counter) q in
    let more : m ≤ n = top_count_mono (length counter) p q le in
    ground (arith, sum-take_mono m n (values (most_common counter)) more)

-- The share takes the elements that are counted most: `n` of them cover at least the part `n` out
-- of all elements of the sum of all counts, up to the whole at 100 percent.
pub share_heavy :
    (counter : Counter) (percent : ℕ)
    → percent ≤ 100
    → top_count (length counter) percent * sum (values counter)
      ≤ (share counter percent).covered * length counter
unfolding share
share_heavy counter percent le =
    let n = top_count (length counter) percent in
    let l = values (most_common counter) in
    let total : sum l ≡ sum (values counter) = (most_common-sum counter).0 in
    let size : length l ≡ length counter =
      omega (arith, length-values (most_common counter), most_common-sum counter) in
    let bound : n ≤ length counter = top_count-le (length counter) percent le in
    let whole : n + (length counter - n) ≡ length counter = omega arith in
    let heavy : n * sum l ≤ sum (take n l) * (n + (length counter - n)) =
      sum-take-Falls n (length counter - n) l (most_common-Falls counter) (omega arith) in
    rw (top_sum-take, ← total) (rw whole at heavy)
