-- ===== src/Analyze/Coverage/Tally.antt =====
-- What a counter holds after it has counted any list.
use mem_tier_gds.Base.{
  ℕ, suc, ◌+◌, true, List, [], ◌∷◌, ◌≡◌, refl, ap, arith, inl, inr, Option-cases, none, some, ◌==◌,
  if◌then◌else◌, length, sum, contains, Distinct, set_of, keys, lookup, insert, lookup-insert,
  keys-insert-Distinct, contains-keys-insert, length-le_of_subset, contains-set_of, set_of-Distinct,
}
use mem_tier_gds.Analyze.Coverage.{Counter, values, count_one, update}

-- How often an element stands in a list.
abbrev pub occurrences : ℕ → List ℕ → ℕ
occurrences x [] = 0
occurrences x (y ∷ ys) = (if y == x then 1 else 0) + occurrences x ys

abbrev pub count_of : ℕ → Counter → ℕ
count_of x counter = elim (lookup x counter) [ none ↦ 0 | some n ↦ n ]

sum-values-insert :
    (x n : ℕ) (c : Counter) → sum (values (insert x n c)) + count_of x c ≡ sum (values c) + n
unfolding insert lookup
sum-values-insert x n [] = omega arith
sum-values-insert x n ((y, m) ∷ c) = ground (arith, sum-values-insert x n c)

count_one_lem :
    (x y : ℕ) (c : Counter)
    → (count_of y (count_one x c) ≡ (if x == y then 1 else 0) + count_of y c)
      × (sum (values (count_one x c)) ≡ sum (values c) + 1)
      × (contains y (keys (count_one x c)) ≡ (if x == y then true else contains y (keys c)))
unfolding count_one
count_one_lem x y c = elim (Option-cases (lookup x c)) [
  | inl missing ↦
      rw (count_one, missing)
        (ground (
          arith,
          lookup-insert x y 1 c,
          sum-values-insert x 1 c,
          missing,
          contains-keys-insert x y 1 c,
        ))
  | inr (n, found) ↦
      rw (count_one, found)
        (ground (
          arith,
          lookup-insert x y (n + 1) c,
          sum-values-insert x (n + 1) c,
          found,
          contains-keys-insert x y (n + 1) c,
        ))
]

keys-count_one-Distinct :
    (x : ℕ) (c : Counter) → Distinct (keys c) → Distinct (keys (count_one x c))
unfolding count_one
keys-count_one-Distinct x c d = elim (Option-cases (lookup x c)) [
  | inl missing ↦ rw (count_one, missing) (keys-insert-Distinct x 1 c d)
  | inr (n, found) ↦ rw (count_one, found) (keys-insert-Distinct x (n + 1) c d)
]

update_from :
    (xs : List ℕ) (c : Counter) (y : ℕ)
    → (count_of y (update xs c) ≡ occurrences y xs + count_of y c)
      × (sum (values (update xs c)) ≡ sum (values c) + length xs)
      × (contains y (keys (update xs c)) ≡ (if contains y xs then true else contains y (keys c)))
unfolding update contains
update_from [] c y = (omega arith, omega arith, refl)
update_from (x ∷ xs) c y = ground (arith, update_from xs (count_one x c) y, count_one_lem x y c)

keys-update-Distinct :
    (xs : List ℕ) (c : Counter) → Distinct (keys c) → Distinct (keys (update xs c))
unfolding update
keys-update-Distinct [] c d = d
keys-update-Distinct (x ∷ xs) c d =
    keys-update-Distinct xs (count_one x c) (keys-count_one-Distinct x c d)

pub length-keys : (c : Counter) → length (keys c) ≡ length c
length-keys [] = refl
length-keys ((k, n) ∷ c) = ap suc (length-keys c)

contains-keys-update : (xs : List ℕ) (y : ℕ) → contains y (keys (update xs [])) ≡ contains y xs
unfolding contains
contains-keys-update xs y = ground (arith, update_from xs [] y)

length-update : (xs : List ℕ) → length (update xs []) ≡ length (set_of xs)
length-update xs =
    let ks = keys (update xs []) in
    let d : Distinct ks = keys-update-Distinct xs [] tt in
    omega (
      arith,
      length-keys (update xs []),
      length-le_of_subset ks (set_of xs) d
          (λ y h. rw contains-set_of (rw contains-keys-update at h)),
      length-le_of_subset (set_of xs) ks (set_of-Distinct xs)
          (λ y h. rw contains-keys-update (rw contains-set_of at h)),
    )

-- A counter that has counted a list from empty holds how often each element stands in it; its
-- counts sum to the length of the list, and it has an entry for each distinct element.
pub update_lem :
    (xs : List ℕ)
    → ((y : ℕ) → count_of y (update xs []) ≡ occurrences y xs)
      × (sum (values (update xs [])) ≡ length xs)
      × (length (update xs []) ≡ length (set_of xs))
unfolding lookup
update_lem xs = (
  λ y. omega (arith, (update_from xs [] y).0),
  omega (arith, (update_from xs [] 0).1),
  length-update xs,
)
