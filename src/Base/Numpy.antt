-- ===== src/Base/Numpy.antt =====
-- The calls of NumPy that the scripts make on arrays of ids, with what its documentation says of
-- them. NumPy is not part of the repository, so these are parameters.
use Prim.Native.Nat.{ℕ, ◌<◌}
use mathlib.Core.Bool.{false}
use mathlib.Core.List.{List, [], ◌∷◌, flatten}
use mathlib.Core.Path.{◌≡◌, refl}
use native.Mathlib.Omega.{arith}
use mem_tier_gds.Base.Lists.{length}
use mem_tier_gds.Base.Sets.{contains, Distinct}

-- Strictly ascending.
abbrev pub Ascends : List ℕ → Type 0
Ascends [] = Unit
Ascends (x ∷ []) = Unit
Ascends (x ∷ y ∷ xs) = (x < y) × Ascends (y ∷ xs)

pub record Numpy : Type 0 where
  -- `np.unique(a)`: the sorted unique elements.
  pub unique : List ℕ → List ℕ
  pub unique-Ascends : (xs : List ℕ) → Ascends (unique xs)
  pub contains-unique : (x : ℕ) (xs : List ℕ) → contains x (unique xs) ≡ contains x xs
  -- `np.array_split(a, sections)`: consecutive parts, as many as asked for.
  pub array_split : List ℕ → ℕ → List (List ℕ)
  pub flatten-array_split :
      (xs : List ℕ) (sections : ℕ) → 0 < sections → flatten (array_split xs sections) ≡ xs
  pub length-array_split :
      (xs : List ℕ) (sections : ℕ) → 0 < sections → length (array_split xs sections) ≡ sections

not-contains_below :
    (x y : ℕ) (xs : List ℕ) → x < y → Ascends (y ∷ xs) → contains x (y ∷ xs) ≡ false
unfolding contains
not-contains_below x y [] lt h = ground arith
not-contains_below x y (z ∷ xs) lt h = ground (arith, not-contains_below x z xs (omega arith) h.1)

pub Ascends-Distinct : (xs : List ℕ) → Ascends xs → Distinct xs
unfolding contains
Ascends-Distinct [] h = tt
Ascends-Distinct (x ∷ []) h = (refl, tt)
Ascends-Distinct (x ∷ y ∷ xs) h = (not-contains_below x y xs h.0 h.1, Ascends-Distinct (y ∷ xs) h.1)

pub unique-Distinct : (np : Numpy) (xs : List ℕ) → Distinct (np.unique xs)
unique-Distinct np xs = Ascends-Distinct (np.unique xs) (np.unique-Ascends xs)
