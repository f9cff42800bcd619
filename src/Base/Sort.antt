-- ===== src/Base/Sort.antt =====
-- `sorted` on numbers, and what stands at a position of an ascending list.
use Prim.Native.Nat.{ℕ, zero, suc, ◌+◌, ◌≤◌, ◌<◌}
use mathlib.Core.Bool.{true}
use mathlib.Core.List.{List, [], ◌∷◌}
use mathlib.Core.Option.{some}
use mathlib.Core.Path.{◌≡◌, refl}
use native.Mathlib.Omega.{arith}
use mem_tier_gds.Base.Tests.{leb, ltb, ◌==◌, if◌then◌else◌}
use mem_tier_gds.Base.Lists.{length, get_elem?, All}
use mem_tier_gds.Base.Sets.{contains}

unfoldable pub place : ℕ → List ℕ → List ℕ
place x [] = x ∷ []
place x (y ∷ ys) = let rest = place x ys in if leb x y then x ∷ y ∷ ys else y ∷ rest

unfoldable pub sorted : List ℕ → List ℕ
unfolding place
sorted [] = []
sorted (x ∷ xs) = place x (sorted xs)

abbrev pub IsSorted : List ℕ → Type 0
IsSorted [] = Unit
IsSorted (x ∷ xs) = All (λ y. x ≤ y) xs × IsSorted xs

-- How many elements of a list pass a bound.
abbrev pub count_le : ℕ → List ℕ → ℕ
count_le b [] = 0
count_le b (x ∷ xs) = (if leb x b then 1 else 0) + count_le b xs

abbrev pub count_lt : ℕ → List ℕ → ℕ
count_lt b [] = 0
count_lt b (x ∷ xs) = (if ltb x b then 1 else 0) + count_lt b xs

All-le-place : (b x : ℕ) (xs : List ℕ) → b ≤ x → All (λ y. b ≤ y) xs → All (λ y. b ≤ y) (place x xs)
unfolding place
All-le-place b x [] le h = (le, tt)
All-le-place b x (y ∷ ys) le h = ground (arith, All-le-place b x ys le h.1)

All-le_trans : (a b : ℕ) (xs : List ℕ) → a ≤ b → All (λ y. b ≤ y) xs → All (λ y. a ≤ y) xs
All-le_trans a b [] le h = tt
All-le_trans a b (x ∷ xs) le h = (omega arith, All-le_trans a b xs le h.1)

place-IsSorted : (x : ℕ) (xs : List ℕ) → IsSorted xs → IsSorted (place x xs)
unfolding place
place-IsSorted x [] h = (tt, tt)
place-IsSorted x (y ∷ ys) h =
    ground (arith, place-IsSorted x ys h.1, All-le-place y x ys, All-le_trans x y ys)

pub sorted-IsSorted : (xs : List ℕ) → IsSorted (sorted xs)
unfolding sorted
sorted-IsSorted [] = tt
sorted-IsSorted (x ∷ xs) = place-IsSorted x (sorted xs) (sorted-IsSorted xs)

length-place : (x : ℕ) (xs : List ℕ) → length (place x xs) ≡ suc (length xs)
unfolding place
length-place x [] = refl
length-place x (y ∷ ys) = ground (arith, length-place x ys)

pub length-sorted : (xs : List ℕ) → length (sorted xs) ≡ length xs
unfolding sorted
length-sorted [] = refl
length-sorted (x ∷ xs) = omega (arith, length-place x (sorted xs), length-sorted xs)

contains-place :
    (y x : ℕ) (xs : List ℕ) → contains y (place x xs) ≡ (if x == y then true else contains y xs)
unfolding place contains
contains-place y x [] = refl
contains-place y x (z ∷ xs) = ground (arith, contains-place y x xs)

pub contains-sorted : (y : ℕ) (xs : List ℕ) → contains y (sorted xs) ≡ contains y xs
unfolding sorted contains
contains-sorted y [] = refl
contains-sorted y (x ∷ xs) = ground (arith, contains-place y x (sorted xs), contains-sorted y xs)

counts-place :
    (b x : ℕ) (xs : List ℕ)
    → (count_le b (place x xs) ≡ count_le b (x ∷ xs))
      × (count_lt b (place x xs) ≡ count_lt b (x ∷ xs))
unfolding place
counts-place b x [] = (refl, refl)
counts-place b x (y ∷ ys) = ground (arith, counts-place b x ys)

-- Sorting keeps how many elements pass a bound.
pub counts-sorted :
    (b : ℕ) (xs : List ℕ)
    → (count_le b (sorted xs) ≡ count_le b xs) × (count_lt b (sorted xs) ≡ count_lt b xs)
unfolding sorted
counts-sorted b [] = (refl, refl)
counts-sorted b (x ∷ xs) = ground (arith, counts-place b x (sorted xs), counts-sorted b xs)

pub get_elem?-total : (xs : List ℕ) (i : ℕ) → i < length xs → (x : ℕ) × (get_elem? xs i ≡ some x)
get_elem?-total [] i h = absurd (omega arith)
get_elem?-total (x ∷ xs) zero h = (x, refl)
get_elem?-total (x ∷ xs) (suc i) h = get_elem?-total xs i (omega arith)

pub contains-get_elem? : (xs : List ℕ) (i x : ℕ) → get_elem? xs i ≡ some x → contains x xs ≡ true
unfolding contains
contains-get_elem? [] i x h = cc
contains-get_elem? (y ∷ xs) zero x h = ground arith
contains-get_elem? (y ∷ xs) (suc i) x h = ground (arith, contains-get_elem? xs i x h)

All-le-get_elem? :
    (b : ℕ) (xs : List ℕ) (i x : ℕ) → All (λ y. b ≤ y) xs → get_elem? xs i ≡ some x → b ≤ x
All-le-get_elem? b [] i x a h = cc
All-le-get_elem? b (y ∷ xs) zero x a h = ground arith
All-le-get_elem? b (y ∷ xs) (suc i) x a h = All-le-get_elem? b xs i x a.1 h

pub get_elem?_mono :
    (xs : List ℕ) (i j x y : ℕ)
    → IsSorted xs
    → get_elem? xs i ≡ some x
    → get_elem? xs j ≡ some y
    → i ≤ j
    → x ≤ y
get_elem?_mono [] i j x y s p q le = cc
get_elem?_mono (z ∷ xs) zero zero x y s p q le = ground arith
get_elem?_mono (z ∷ xs) zero (suc j) x y s p q le = ground (arith, All-le-get_elem? z xs j y s.0 q)
get_elem?_mono (z ∷ xs) (suc i) zero x y s p q le = absurd (omega arith)
get_elem?_mono (z ∷ xs) (suc i) (suc j) x y s p q le =
    get_elem?_mono xs i j x y s.1 p q (omega arith)

count_lt-zero : (b : ℕ) (xs : List ℕ) → All (λ y. b ≤ y) xs → count_lt b xs ≡ 0
count_lt-zero b [] h = refl
count_lt-zero b (x ∷ xs) h = ground (arith, count_lt-zero b xs h.1)

-- The element at a position of an ascending list: more elements than the position are at most it,
-- and at most so many are below it.
pub get_elem?_order :
    (xs : List ℕ) (i x : ℕ)
    → IsSorted xs
    → get_elem? xs i ≡ some x
    → (i < count_le x xs) × (count_lt x xs ≤ i)
get_elem?_order [] i x s h = cc
get_elem?_order (y ∷ xs) zero x s h = ground (arith, count_lt-zero y xs s.0)
get_elem?_order (y ∷ xs) (suc i) x s h =
    ground (arith, get_elem?_order xs i x s.1 h, All-le-get_elem? y xs i x s.0 h)
