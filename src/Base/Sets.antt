-- ===== src/Base/Sets.antt =====
-- Python's `set` of ints and `dict` with int keys. A set is a list of its elements, each once; the
-- sources observe only membership and size. A dict is an association list in insertion order.
use Prim.Native.Nat.{ℕ, ◌+◌, ◌≤◌}
use mathlib.Core.Bool.{Bool, true, false, ◌&&◌}
use mathlib.Core.List.{List, [], ◌∷◌, ◌++◌}
use mathlib.Core.Logic.{◌≢◌}
use mathlib.Core.Option.{Option, none, some}
use mathlib.Core.Path.{◌≡◌, refl}
use native.Mathlib.Omega.{arith}
use mem_tier_gds.Base.Tests.{◌==◌, if◌then◌else◌}
use mem_tier_gds.Base.Lists.{length}

unfoldable pub contains : ℕ → List ℕ → Bool
contains x [] = false
contains x (y ∷ ys) = if y == x then true else contains x ys

-- No element stands twice.
abbrev pub Distinct : List ℕ → Type 0
Distinct [] = Unit
Distinct (x ∷ xs) = (contains x xs ≡ false) × Distinct xs

-- `set(xs)`
unfoldable pub set_of : List ℕ → List ℕ
set_of [] = []
set_of (x ∷ xs) = let rest = set_of xs in if contains x xs then rest else x ∷ rest

-- `a & b`
unfoldable pub inter : List ℕ → List ℕ → List ℕ
inter [] b = []
inter (x ∷ a) b = let rest = inter a b in if contains x b then x ∷ rest else rest

-- The list without its first `x`.
unfoldable pub remove : ℕ → List ℕ → List ℕ
remove x [] = []
remove x (y ∷ ys) = let rest = remove x ys in if y == x then ys else y ∷ rest

pub contains_head : (x : ℕ) (xs : List ℕ) → contains x (x ∷ xs) ≡ true
unfolding contains
contains_head x xs = ground arith

pub contains_tail : (x y : ℕ) (xs : List ℕ) → contains x xs ≡ true → contains x (y ∷ xs) ≡ true
unfolding contains
contains_tail x y xs h = ground arith

pub contains-append :
    (x : ℕ) (a b : List ℕ) → contains x (a ++ b) ≡ (if contains x a then true else contains x b)
unfolding contains
contains-append x [] b = refl
contains-append x (y ∷ a) b = ground (arith, contains-append x a b)

pub Distinct-of_append : (a b : List ℕ) → Distinct (a ++ b) → Distinct a × Distinct b
unfolding contains
Distinct-of_append [] b d = (tt, d)
Distinct-of_append (x ∷ a) b d = ground (arith, Distinct-of_append a b d.1, contains-append x a b)

pub contains-set_of : (x : ℕ) (xs : List ℕ) → contains x (set_of xs) ≡ contains x xs
unfolding contains set_of
contains-set_of x [] = refl
contains-set_of x (y ∷ xs) = ground (arith, contains-set_of x xs)

pub set_of-Distinct : (xs : List ℕ) → Distinct (set_of xs)
unfolding set_of
set_of-Distinct [] = tt
set_of-Distinct (x ∷ xs) = ground (arith, contains-set_of x xs, set_of-Distinct xs)

pub set_of-Distinct-eq : (xs : List ℕ) → Distinct xs → set_of xs ≡ xs
unfolding set_of
set_of-Distinct-eq [] h = refl
set_of-Distinct-eq (x ∷ xs) h = ground (arith, set_of-Distinct-eq xs h.1)

pub length-set_of-le : (xs : List ℕ) → length (set_of xs) ≤ length xs
unfolding set_of
length-set_of-le [] = omega arith
length-set_of-le (x ∷ xs) = ground (arith, length-set_of-le xs)

pub length-inter-le : (a b : List ℕ) → length (inter a b) ≤ length a
unfolding inter
length-inter-le [] b = omega arith
length-inter-le (x ∷ a) b = ground (arith, length-inter-le a b)

pub contains-inter : (x : ℕ) (a b : List ℕ) → contains x (inter a b) ≡ contains x a && contains x b
unfolding contains inter
contains-inter x [] b = refl
contains-inter x (y ∷ a) b = ground (arith, contains-inter x a b)

pub contains-remove_ne : (x y : ℕ) (l : List ℕ) → x ≢ y → contains x (remove y l) ≡ contains x l
unfolding contains remove
contains-remove_ne x y [] h = refl
contains-remove_ne x y (z ∷ l) h = ground (arith, contains-remove_ne x y l h)

pub length-remove : (x : ℕ) (l : List ℕ) → contains x l ≡ true → length (remove x l) + 1 ≡ length l
unfolding contains remove
length-remove x [] h = cc
length-remove x (y ∷ l) h = ground (arith, length-remove x l)

pub remove_absent : (x : ℕ) (l : List ℕ) → contains x l ≡ false → remove x l ≡ l
unfolding contains remove
remove_absent x [] h = refl
remove_absent x (y ∷ l) h = ground (arith, remove_absent x l)

pub remove-Distinct : (x : ℕ) (l : List ℕ) → Distinct l → Distinct (remove x l)
unfolding contains remove
remove-Distinct x [] h = tt
remove-Distinct x (y ∷ l) h = ground (arith, remove-Distinct x l h.1, contains-remove_ne y x l)

pub contains-remove_self : (x : ℕ) (l : List ℕ) → Distinct l → contains x (remove x l) ≡ false
unfolding contains remove
contains-remove_self x [] h = refl
contains-remove_self x (y ∷ l) h = ground (arith, contains-remove_self x l h.1)

-- A list with distinct elements, all of which another list holds, is not longer.
pub length-le_of_subset :
    (xs ys : List ℕ)
    → Distinct xs
    → ((x : ℕ) → contains x xs ≡ true → contains x ys ≡ true)
    → length xs ≤ length ys
unfolding contains
length-le_of_subset [] ys d sub = omega arith
length-le_of_subset (x ∷ xs) ys d sub =
    let inside : contains x ys ≡ true = sub x (ground arith) in
    omega (arith, length-remove x ys inside, length-le_of_subset xs (remove x ys) d.1 below)
  where
    below : (y : ℕ) → contains y xs ≡ true → contains y (remove x ys) ≡ true
    below y h = ground (arith, sub y, contains-remove_ne y x ys, d.0)

-- Lists with the same elements have sets of one size.
pub length-set_of_same :
    (xs ys : List ℕ)
    → ((x : ℕ) → contains x xs ≡ contains x ys)
    → length (set_of xs) ≡ length (set_of ys)
length-set_of_same xs ys same = omega (
  arith,
  length-le_of_subset (set_of xs) (set_of ys) (set_of-Distinct xs)
      (λ x h. rw (contains-set_of, ← same) (rw contains-set_of at h)),
  length-le_of_subset (set_of ys) (set_of xs) (set_of-Distinct ys)
      (λ x h. rw (contains-set_of, same) (rw contains-set_of at h)),
)

module _ {ℓ} {V : Type ℓ} where
  abbrev pub keys : List (ℕ × V) → List ℕ
  keys [] = []
  keys ((k, v) ∷ d) = k ∷ keys d

  unfoldable pub lookup : ℕ → List (ℕ × V) → Option V
  lookup k [] = none
  lookup k ((j, v) ∷ d) = if j == k then some v else lookup k d

  -- `d[k] = v`: an old key keeps its place, a new one goes to the end.
  unfoldable pub insert : ℕ → V → List (ℕ × V) → List (ℕ × V)
  insert k v [] = (k, v) ∷ []
  insert k v ((j, w) ∷ d) = if j == k then (j, v) ∷ d else (j, w) ∷ insert k v d

  -- `{k: v for k in ks}`
  unfoldable pub from_keys : V → List ℕ → List (ℕ × V) → List (ℕ × V)
  from_keys v [] d = d
  from_keys v (k ∷ ks) d = from_keys v ks (insert k v d)

  pub lookup-insert :
      (k j : ℕ) (v : V) (d : List (ℕ × V))
      → lookup j (insert k v d) ≡ (if k == j then some v else lookup j d)
  unfolding lookup insert
  lookup-insert k j v [] = refl
  lookup-insert k j v ((i, w) ∷ d) = ground (arith, lookup-insert k j v d)

  pub contains-keys-insert :
      (k j : ℕ) (v : V) (d : List (ℕ × V))
      → contains j (keys (insert k v d)) ≡ (if k == j then true else contains j (keys d))
  unfolding contains insert
  contains-keys-insert k j v [] = refl
  contains-keys-insert k j v ((i, w) ∷ d) = ground (arith, contains-keys-insert k j v d)

  pub keys-insert-Distinct :
      (k : ℕ) (v : V) (d : List (ℕ × V)) → Distinct (keys d) → Distinct (keys (insert k v d))
  unfolding insert contains
  keys-insert-Distinct k v [] h = (refl, tt)
  keys-insert-Distinct k v ((j, w) ∷ d) h =
      ground (arith, keys-insert-Distinct k v d h.1, contains-keys-insert k j v d)
