-- ===== src/Tests/NumpyReference.antt =====
-- A NumPy that meets what the model relies on, for the runs.
use mem_tier_gds.Base.{
  ℕ, zero, suc, ◌<◌, true, List, [], ◌∷◌, append-nil, flatten, ◌≡◌, refl, ap, arith, ltb, ◌==◌,
  if◌then◌else◌, length, take, drop, take-append-drop, contains, ceil_div,
}
use mem_tier_gds.Base.Numpy.{Numpy, Ascends}

place : ℕ → List ℕ → List ℕ
place x [] = x ∷ []
place x (y ∷ ys) =
    let rest = place x ys in if x == y then y ∷ ys else if ltb x y then x ∷ y ∷ ys else y ∷ rest

unfoldable pub unique : List ℕ → List ℕ
unfolding place
unique [] = []
unique (x ∷ xs) = place x (unique xs)

place-Ascends : (x : ℕ) (l : List ℕ) → Ascends l → Ascends (place x l)
unfolding place
place-Ascends x [] h = tt
place-Ascends x (y ∷ []) h = ground arith
place-Ascends x (y ∷ z ∷ l) h = ground (arith, place-Ascends x (z ∷ l) h.1)

pub unique-Ascends : (xs : List ℕ) → Ascends (unique xs)
unfolding unique
unique-Ascends [] = tt
unique-Ascends (x ∷ xs) = place-Ascends x (unique xs) (unique-Ascends xs)

contains-place :
    (y x : ℕ) (l : List ℕ) → contains y (place x l) ≡ (if x == y then true else contains y l)
unfolding place contains
contains-place y x [] = refl
contains-place y x (z ∷ l) = ground (arith, contains-place y x l)

pub contains-unique : (x : ℕ) (xs : List ℕ) → contains x (unique xs) ≡ contains x xs
unfolding unique contains
contains-unique x [] = refl
contains-unique x (y ∷ xs) = ground (arith, contains-place x y (unique xs), contains-unique x xs)

-- The first parts are the longer ones.
unfoldable pub array_split : List ℕ → ℕ → List (List ℕ)
array_split xs zero = []
array_split xs (suc zero) = xs ∷ []
array_split xs (suc (suc k)) =
    let c = ceil_div (length xs) (suc (suc k)) in take c xs ∷ array_split (drop c xs) (suc k)

pub flatten-array_split : (xs : List ℕ) (k : ℕ) → 0 < k → flatten (array_split xs k) ≡ xs
unfolding array_split flatten
flatten-array_split xs zero h = absurd (omega arith)
flatten-array_split xs (suc zero) h = append-nil xs
flatten-array_split xs (suc (suc k)) h =
    let c = ceil_div (length xs) (suc (suc k)) in
    rw (flatten-array_split (drop c xs) (suc k) (omega arith)) (take-append-drop c xs)

pub length-array_split : (xs : List ℕ) (k : ℕ) → 0 < k → length (array_split xs k) ≡ k
unfolding array_split
length-array_split xs zero h = absurd (omega arith)
length-array_split xs (suc zero) h = refl
length-array_split xs (suc (suc k)) h =
    ap suc (length-array_split (drop (ceil_div (length xs) (suc (suc k))) xs) (suc k) (omega arith))

abbrev pub numpy : Numpy
numpy = record {
  unique = unique;
  unique-Ascends = unique-Ascends;
  contains-unique = contains-unique;
  array_split = array_split;
  flatten-array_split = flatten-array_split;
  length-array_split = length-array_split;
}
