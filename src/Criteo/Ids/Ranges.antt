-- ===== src/Criteo/Ids/Ranges.antt =====
-- The range of the ids of `categorical_to_ids`, one part for each field.
use mem_tier_gds.Base.{
  ℕ, zero, suc, ◌+◌, ◌%◌, ◌^◌, ◌≤◌, ◌<◌, Bool, true, false, ◌&&◌, List, [], ◌∷◌, some, ◌≡◌, refl,
  ap, arith, ◌>>=◌, if◌then◌else◌, length, get_elem?, drop, sum, All, All-mono, Result, ok,
}
use native.Mathlib.Nat.{suc-add, zero-add}
use mem_tier_gds.Base.Numpy.{Ascends}
use mem_tier_gds.Base.Text.{Text, is_empty}
use mem_tier_gds.Criteo.Hash.{Blake2b, stable_hash64_bits}
use mem_tier_gds.Criteo.Sizes.{offsets_from, field_offsets_from_hash_sizes}
use mem_tier_gds.Criteo.Ids.{
  per_field_offset, shared_hash, key, modulo, id_of, ids_from, categorical_to_ids,
}

-- How many features are not dropped.
unfoldable pub kept : Bool → List Text → ℕ
kept drop_empty [] = 0
kept drop_empty (raw ∷ cats) =
    let rest = kept drop_empty cats in if is_empty raw && drop_empty then rest else suc rest

-- What `ids` are, if they lie from `low` on, below `high`, each above the one before.
unfoldable pub AreAscending : ℕ → ℕ → List ℕ → Type 0
AreAscending low high ids = Ascends ids × All (λ i. (low ≤ i) × (i < high)) ids

module _ {ℓ} {A : Type ℓ} where
  head_of_drop :
      (l : List A) (n : ℕ) (x : A) (rest : List A)
      → drop n l ≡ x ∷ rest
      → (get_elem? l n ≡ some x) × (drop (n + 1) l ≡ rest)
  head_of_drop [] zero x rest e = grind (arith, e)
  head_of_drop [] (suc n) x rest e = grind (arith, e)
  head_of_drop (y ∷ l) zero x rest e = grind (arith, e)
  head_of_drop (y ∷ l) (suc n) x rest e =
      let (a, b) = head_of_drop l n x rest e in (a, rw (suc-add) b)

mod_lt : (x s : ℕ) → 0 < s → (modulo x s ≡ ok (x % s)) × (x % s < s)
mod_lt x zero h = absurd (omega arith)
mod_lt x (suc s) h = (refl, omega arith)

AreAscending-cons :
    (low size high i : ℕ) (ids : List ℕ)
    → low ≤ i
    → i < low + size
    → low + size ≤ high
    → AreAscending (low + size) high ids
    → AreAscending low high (i ∷ ids)
unfolding AreAscending
AreAscending-cons low size high i [] h1 h2 h3 h = (tt, ((h1, omega arith), tt))
AreAscending-cons low size high i (j ∷ ids) h1 h2 h3 (asc, all) = (
  (omega (arith, all.0), asc),
  ((h1, omega (arith, all.0)), All-mono _ _ (λ k b. (omega (arith, b.0), b.1)) (j ∷ ids) all),
)

AreAscending-nil : (low high : ℕ) → AreAscending low high []
unfolding AreAscending
AreAscending-nil low high = (tt, tt)

AreAscending-widen :
    (low low' high : ℕ) (ids : List ℕ)
    → low ≤ low'
    → AreAscending low' high ids
    → AreAscending low high ids
unfolding AreAscending
AreAscending-widen low low' high ids le (asc, all) =
    (asc, All-mono _ _ (λ k b. (omega (arith, le, b.0), b.1)) ids all)

-- One turn of the loop, where the feature is dropped or not.
turn :
    (dropped : Bool) (low size high n i : ℕ) (ids : List ℕ) (first : Result ℕ)
    (others : Result (List ℕ))
    → first ≡ ok i
    → low ≤ i
    → i < low + size
    → low + size ≤ high
    → others ≡ ok ids
    → AreAscending (low + size) high ids
    → length ids ≡ n
    → (all : List ℕ) × ((if dropped then others else (do i ← first; ids ← others; ok (i ∷ ids)))
        ≡ ok all)
      × AreAscending low high all
      × (length all ≡ (if dropped then n else suc n))
turn true low size high n i ids first others found lo hi le rest range count =
    (ids, rest, AreAscending-widen low (low + size) high ids (omega arith) range, count)
turn false low size high n i ids first others found lo hi le rest range count = (
  i ∷ ids,
  ground (arith, found, rest),
  AreAscending-cons low size high i ids lo hi le range,
  ap suc count,
)

turn_shared :
    (dropped : Bool) (total n i : ℕ) (ids : List ℕ) (first : Result ℕ) (others : Result (List ℕ))
    → first ≡ ok i
    → i < total
    → others ≡ ok ids
    → All (λ i. i < total) ids
    → length ids ≡ n
    → (all : List ℕ) × ((if dropped then others else (do i ← first; ids ← others; ok (i ∷ ids)))
        ≡ ok all)
      × All (λ i. i < total) all
      × (length all ≡ (if dropped then n else suc n))
turn_shared true total n i ids first others found lt rest below count = (ids, rest, below, count)
turn_shared false total n i ids first others found lt rest below count =
    (i ∷ ids, ground (arith, found, rest), (lt, below), ap suc count)

module _ (hash : Blake2b) (sizes offsets : List ℕ) (drop_empty : Bool) (seed : ℕ)
    (fits : seed < 2 ^ 64) where
  id_of_field :
      (field size base : ℕ) (raw : Text)
      → 0 < size
      → get_elem? sizes field ≡ some size
      → get_elem? offsets field ≡ some base
      → (i : ℕ) × (id_of hash sizes offsets per_field_offset drop_empty seed field raw ≡ ok i)
        × (base ≤ i)
        × (i < base + size)
  unfolding id_of
  id_of_field field size base raw pos at_size at_base =
      let (code, hashed, bits) = stable_hash64_bits hash (key field raw) seed fits in
      let (found, lt) = mod_lt code size pos in
      (
        base + code % size,
        ground (arith, hashed, at_size, found, at_base),
        omega arith,
        omega (arith, lt),
      )

  -- The loop from a field on, with the sizes and offsets that are left.
  ids_from_field :
      (cats : List Text) (left : List ℕ) (field base : ℕ)
      → drop field sizes ≡ left
      → drop field offsets ≡ offsets_from base left
      → length cats ≤ length left
      → All (λ size. 0 < size) left
      → (ids : List ℕ) × (ids_from hash sizes offsets per_field_offset drop_empty seed field cats
          ≡ ok ids)
        × AreAscending base (base + sum left) ids
        × (length ids ≡ kept drop_empty cats)
  unfolding ids_from kept offsets_from
  ids_from_field [] left field base ds dos le pos =
      ([], refl, AreAscending-nil base (base + sum left), refl)
  ids_from_field (raw ∷ cats) [] field base ds dos le pos = absurd (omega arith)
  ids_from_field (raw ∷ cats) (size ∷ left) field base ds dos le pos =
      let (at_size, ds') = head_of_drop sizes field size left ds in
      let (at_base, dos') = head_of_drop offsets field base (offsets_from (base + size) left) dos in
      let (i, found, lo, hi) = id_of_field field size base raw pos.0 at_size at_base in
      let (ids, rest, range, count) =
        ids_from_field cats left (field + 1) (base + size) ds' dos' (omega arith) pos.1 in
      let same : base + size + sum left ≡ base + sum (size ∷ left) = omega arith in
      turn (is_empty raw && drop_empty) base size (base + sum (size ∷ left)) (kept drop_empty cats)
        i ids (id_of hash sizes offsets per_field_offset drop_empty seed field raw)
        (ids_from hash sizes offsets per_field_offset drop_empty seed (field + 1) cats) found lo hi
        (omega arith) rest (rw (← same) range) count

  -- The loop where all fields share one range.
  ids_from_shared :
      (cats : List Text) (field : ℕ)
      → 0 < sum sizes
      → (ids : List ℕ) × (ids_from hash sizes offsets shared_hash drop_empty seed field cats
          ≡ ok ids)
        × All (λ i. i < sum sizes) ids
        × (length ids ≡ kept drop_empty cats)
  unfolding ids_from id_of kept
  ids_from_shared [] field pos = ([], refl, tt, refl)
  ids_from_shared (raw ∷ cats) field pos =
      let (code, hashed, bits) = stable_hash64_bits hash (key field raw) seed fits in
      let (found, lt) = mod_lt code (sum sizes) pos in
      let (ids, rest, below, count) = ids_from_shared cats (field + 1) pos in
      turn_shared (is_empty raw && drop_empty) (sum sizes) (kept drop_empty cats) (code % sum sizes)
        ids (id_of hash sizes offsets shared_hash drop_empty seed field raw)
        (ids_from hash sizes offsets shared_hash drop_empty seed (field + 1) cats)
        (ground (arith, hashed, found)) lt rest below count

module _ (hash : Blake2b) (sizes : List ℕ) (drop_empty : Bool) (seed : ℕ) (cats : List Text) where
  -- With the offsets of the sizes, a positive size for each category and a seed of 64 bits, the ids
  -- under `per_field_offset` are found, one for each category that is not dropped; they ascend, so
  -- that no two of a row are equal, and are below the sum of the sizes.
  pub categorical_to_ids_ascend :
      seed < 2 ^ 64
      → length cats ≤ length sizes
      → All (λ size. 0 < size) sizes
      → (ids : List ℕ) × (categorical_to_ids hash sizes
            (field_offsets_from_hash_sizes sizes)
            per_field_offset
            drop_empty
            seed
            cats
          ≡ ok ids)
        × AreAscending 0 (sum sizes) ids
        × (length ids ≡ kept drop_empty cats)
  unfolding categorical_to_ids field_offsets_from_hash_sizes
  categorical_to_ids_ascend fits enough pos = rw zero-add at (
      ids_from_field hash sizes (offsets_from 0 sizes) drop_empty seed fits cats sizes 0 0 refl refl
        enough pos)

  -- With a seed of 64 bits and sizes that are not all 0, the ids under `shared_hash` are found, one
  -- for each category that is not dropped, and are below the sum of the sizes.
  pub categorical_to_ids_shared :
      (offsets : List ℕ)
      → seed < 2 ^ 64
      → 0 < sum sizes
      → (ids : List ℕ) × (categorical_to_ids hash sizes offsets shared_hash drop_empty seed cats
          ≡ ok ids)
        × All (λ i. i < sum sizes) ids
        × (length ids ≡ kept drop_empty cats)
  unfolding categorical_to_ids
  categorical_to_ids_shared offsets fits pos =
      ids_from_shared hash sizes offsets drop_empty seed fits cats 0 pos
