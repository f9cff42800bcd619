-- ===== src/Convert/SmallTable.antt =====
-- A table that is said to have fewer rows than there are fields.
use mem_tier_gds.Base.{
  ℕ, zero, suc, ◌+◌, ◌-◌, ◌/◌, ◌%◌, ◌^◌, ◌≤◌, ◌<◌, max, true, List, [], ◌∷◌, map, none, some, ◌≡◌,
  refl, arith, length, replicate, sum, All, IsRectangular, contains, contains_tail, length-map, ok,
}
use mem_tier_gds.Criteo.Sizes.{offsets_from, field_offsets_from_hash_sizes}
use mem_tier_gds.Trace.{truthy}
use mem_tier_gds.Convert.{
  per_field_offset, Args, given, hash_sizes_of, map_row, Mapped, mapped_ids, apply_id_mapping,
}
use mem_tier_gds.Convert.Mapping.{sizes_uint64, offsets_uint64}

abbrev ones : ℕ → List ℕ
ones k = replicate k 1

sum-ones : (k : ℕ) → sum (ones k) ≡ k
sum-ones zero = refl
sum-ones (suc k) = omega (arith, sum-ones k)

-- The last field's id is the number of the fields before it.
last_id :
    (k base : ℕ) (row : List ℕ)
    → length row ≡ suc k
    → base + suc k < 2 ^ 64
    → contains (base + k) (map_row (offsets_from base (ones (suc k))) (ones (suc k)) row) ≡ true
unfolding map_row offsets_from contains
last_id k base [] len h = absurd (omega (arith, len))
last_id zero base (i ∷ row) len h = grind (arith, h)
last_id (suc k) base (i ∷ row) len h =
    let ih = last_id k (base + 1) row (omega (arith, len)) (omega (arith, h)) in
    let same : base + suc k ≡ base + 1 + k = omega arith in
    contains_tail (base + suc k) ((base + i % 1) % 2 ^ 64)
      (map_row (offsets_from (base + 1) (ones (suc k))) (ones (suc k)) row) (rw same ih)

last_ids :
    (k : ℕ) (ids : List (List ℕ))
    → IsRectangular (suc k) ids
    → suc k < 2 ^ 64
    → All
        (λ row. contains k row ≡ true)
        (map (map_row (field_offsets_from_hash_sizes (ones (suc k))) (ones (suc k))) ids)
unfolding field_offsets_from_hash_sizes
last_ids k [] wide h = tt
last_ids k (row ∷ ids) wide h =
    let same : 0 + k ≡ k = omega arith in
    (rw same at (last_id k 0 row wide.0 (omega (arith, h))), last_ids k ids wide.1 h)

-- With `per_field_offset`, no hash sizes and a number of rows of the table that is not 0 but less than the
-- number of fields, every mapped row has the id of the last field, the number of the fields less 1, which
-- is not a row of the table.
pub small_table :
    (args : Args) (n fields : ℕ) (ids : List (List ℕ))
    → args.field_offset_mode ≡ per_field_offset
    → given args.hash_size ≡ none
    → args.num_embeddings ≡ some n
    → 0 < n
    → n < fields
    → fields < 2 ^ 64
    → IsRectangular fields ids
    → (m : Mapped) × (apply_id_mapping args fields ids ≡ ok m)
      × (m.total ≤ fields - 1)
      × All (λ row. contains (fields - 1) row ≡ true) m.ids
      × (length m.ids ≡ length ids)
unfolding apply_id_mapping hash_sizes_of mapped_ids
small_table args zero fields ids mode unsized table n0 lt fits wide = absurd (omega arith)
small_table args (suc n) zero ids mode unsized table n0 lt fits wide = absurd (omega arith)
small_table args (suc n) (suc k) ids mode unsized table n0 lt fits wide =
    let part : suc n / suc k ≡ 0 = grind (arith, lt) in
    let one : max 1 0 ≡ 1 = omega arith in
    let there : truthy (some (suc n)) ≡ true = ground arith in
    let total : sum (ones (suc k)) < 2 ^ 64 = omega (arith, sum-ones (suc k), fits) in
    let last : suc k - 1 ≡ k = omega arith in
    let sized : hash_sizes_of args (suc k) ids ≡ ok (ones (suc k)) =
      rw (hash_sizes_of, unsized, table, part, one, there) refl in
    let m : Mapped = record {
      ids = map (map_row (field_offsets_from_hash_sizes (ones (suc k))) (ones (suc k))) ids;
      offsets = field_offsets_from_hash_sizes (ones (suc k));
      hash_sizes = ones (suc k);
      total = suc n;
    } in
    (
      m,
      rw
          (
            sized,
            mapped_ids,
            mode,
            table,
            offsets_uint64 (ones (suc k)) total,
            sizes_uint64 (ones (suc k)) (sum (ones (suc k))) (omega arith) total,
          )
          refl,
      omega (arith, lt),
      rw last (last_ids k ids wide fits),
      length-map (map_row (field_offsets_from_hash_sizes (ones (suc k))) (ones (suc k))) ids,
    )
