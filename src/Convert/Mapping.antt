-- ===== src/Convert/Mapping.antt =====
-- The ranges of the mapped ids.
use mem_tier_gds.Base.{
  ℕ, zero, suc, ◌+◌, ◌/◌, ◌%◌, ◌^◌, ◌≤◌, ◌<◌, max, true, List, [], ◌∷◌, map, flatten, Option, none,
  some, ◌≡◌, refl, ap, sym, ◌∙◌, arith, inl, inr, ◌==◌, ltb, if◌then◌else◌, length, length-map,
  length-replicate, replicate, sum, All, All-mono, All-replicate, IsRectangular, Option-cases,
  Bool-cases, ok,
}
use mem_tier_gds.Criteo.Sizes.{
  AreSizes, offsets_from, parse_hash_sizes-AreSizes, field_offsets_from_hash_sizes,
}
use mem_tier_gds.Trace.{truthy, value_of, or_else}
use mem_tier_gds.Convert.{
  Mode, per_field_offset, shared_hash, direct, other_mode, Args, as_uint64, all_uint64, max_id,
  divide, given, hash_sizes_of, map_row, modulo_all, mapped_ids, apply_id_mapping,
}

abbrev pub IsSupported : Mode → Type 0
IsSupported per_field_offset = Unit
IsSupported shared_hash = Unit
IsSupported direct = Unit
IsSupported other_mode = ⊥

-- The end of the range that a mode maps ids into.
unfoldable pub range_of : Mode → Option ℕ → List ℕ → List (List ℕ) → ℕ
range_of per_field_offset n sizes ids = sum sizes
range_of shared_hash n sizes ids = value_of (or_else n (some (sum sizes)))
range_of direct n sizes ids =
    max
      (value_of
        (or_else n (some (max_id (flatten ids) + (if length (flatten ids) == 0 then 0 else 1)))))
      1
range_of other_mode n sizes ids = 0

all_uint64_lem : (xs : List ℕ) → All (λ x. x < 2 ^ 64) xs → all_uint64 xs ≡ ok xs
all_uint64_lem [] h = refl
all_uint64_lem (x ∷ xs) h =
    let fits : ltb x (2 ^ 64) ≡ true = ground (arith, h.0) in rw (fits, all_uint64_lem xs h.1) refl

pub sizes_uint64 :
    (sizes : List ℕ) (limit : ℕ) → sum sizes ≤ limit → limit < 2 ^ 64 → all_uint64 sizes ≡ ok sizes
sizes_uint64 [] limit le h = refl
sizes_uint64 (x ∷ xs) limit le h =
    let fits : ltb x (2 ^ 64) ≡ true = ground (arith, h, le) in
    rw (fits, sizes_uint64 xs limit (omega (arith, le)) h) refl

offsets_uint64_from :
    (base : ℕ) (sizes : List ℕ)
    → base + sum sizes < 2 ^ 64
    → all_uint64 (offsets_from base sizes) ≡ ok (offsets_from base sizes)
unfolding offsets_from
offsets_uint64_from base [] h = refl
offsets_uint64_from base (x ∷ xs) h =
    let fits : ltb base (2 ^ 64) ≡ true = ground (arith, h) in
    rw (fits, offsets_uint64_from (base + x) xs (omega (arith, h))) refl

pub offsets_uint64 :
    (sizes : List ℕ)
    → sum sizes < 2 ^ 64
    → all_uint64 (field_offsets_from_hash_sizes sizes) ≡ ok (field_offsets_from_hash_sizes sizes)
unfolding field_offsets_from_hash_sizes
offsets_uint64 sizes h = offsets_uint64_from 0 sizes (omega (arith, h))

part_lt :
    (base i size rest : ℕ)
    → 0 < size
    → base + (size + rest) < 2 ^ 64
    → (base + i % size) % 2 ^ 64 < base + (size + rest)
part_lt base i size rest s0 h = let part : i % size < size = omega arith in grind (arith, h)

-- Each column of a row stays in its range.
map_row_lem :
    (base : ℕ) (sizes row : List ℕ)
    → length row ≡ length sizes
    → All (λ s. 0 < s) sizes
    → base + sum sizes < 2 ^ 64
    → (length (map_row (offsets_from base sizes) sizes row) ≡ length sizes)
      × All (λ i. i < base + sum sizes) (map_row (offsets_from base sizes) sizes row)
unfolding map_row offsets_from
map_row_lem base [] row len s0 h = (refl, tt)
map_row_lem base (size ∷ sizes) [] len s0 h = absurd (omega (arith, len))
map_row_lem base (size ∷ sizes) (i ∷ row) len s0 h =
    let (count, below) =
      map_row_lem (base + size) sizes row (omega (arith, len)) s0.1 (omega (arith, h)) in
    (
      ap suc count,
      (
        part_lt base i size (sum sizes) s0.0 h,
        All-mono _ _ (λ j lt. omega (arith, lt))
            (map_row (offsets_from (base + size) sizes) sizes row) below,
      ),
    )

modulo_row :
    (total : ℕ) (row : List ℕ) → 0 < total → All (λ i. i < total) (map (λ i. i % total) row)
modulo_row total [] h = tt
modulo_row total (i ∷ row) h = (omega arith, modulo_row total row h)

modulo_all_lem :
    (width total : ℕ) (ids : List (List ℕ))
    → 0 < total
    → IsRectangular width ids
    → IsRectangular width (modulo_all total ids) × All (All (λ i. i < total)) (modulo_all total ids)
modulo_all_lem width total [] h wide = (tt, tt)
modulo_all_lem width total (row ∷ ids) h wide =
    let (widths, below) = modulo_all_lem width total ids h wide.1 in
    ((length-map (λ i. i % total) row ∙ wide.0, widths), (modulo_row total row h, below))

map_rows_lem :
    (width : ℕ) (sizes : List ℕ) (ids : List (List ℕ))
    → AreSizes width sizes
    → IsRectangular width ids
    → sum sizes < 2 ^ 64
    → IsRectangular width (map (map_row (field_offsets_from_hash_sizes sizes) sizes) ids)
      × All
          (All (λ i. i < sum sizes))
          (map (map_row (field_offsets_from_hash_sizes sizes) sizes) ids)
unfolding AreSizes field_offsets_from_hash_sizes
map_rows_lem width sizes [] are wide h = (tt, tt)
map_rows_lem width sizes (row ∷ ids) are wide h =
    let (widths, below) = map_rows_lem width sizes ids are wide.1 h in
    let (count, small) = map_row_lem 0 sizes row (wide.0 ∙ sym are.0) are.1 (omega (arith, h)) in
    (
      (count ∙ are.0, widths),
      (
        All-mono _ _ (λ j lt. omega (arith, lt)) (map_row (offsets_from 0 sizes) sizes row) small,
        below,
      ),
    )

replicate-AreSizes : (n size : ℕ) → 0 < size → AreSizes n (replicate n size)
unfolding AreSizes
replicate-AreSizes n size h = (length-replicate n size, All-replicate (λ s. 0 < s) n size h)

divide_positive : (n w : ℕ) → 0 < w → divide n w ≡ ok (n / w)
divide_positive n zero h = absurd (omega arith)
divide_positive n (suc w) h = refl

-- The sizes of the fields are one for each field and positive, wherever they come from.
pub hash_sizes_of-AreSizes :
    (args : Args) (width : ℕ) (ids : List (List ℕ)) (sizes : List ℕ)
    → 0 < width
    → hash_sizes_of args width ids ≡ ok sizes
    → AreSizes width sizes
unfolding hash_sizes_of
hash_sizes_of-AreSizes args width ids sizes w0 = elim (Option-cases (given args.hash_size)) [
  | inr (value, e) ↦ rw (hash_sizes_of, e) (parse_hash_sizes-AreSizes value width sizes)
  | inl e ↦
      rw (hash_sizes_of, e)
        (elim (Bool-cases (truthy args.num_embeddings)) [
          | inl some_table ↦
              rw (some_table, divide_positive (value_of args.num_embeddings) width w0)
                (λ found.
                  let same : replicate width (max 1 (value_of args.num_embeddings / width))
                      ≡ sizes =
                    grind (arith, found) in
                  rw (← same) (
                    replicate-AreSizes width (max 1 (value_of args.num_embeddings / width))
                      (omega arith)))
          | inr no_table ↦ rw no_table (λ found.
              let same : replicate width (max_id (flatten ids) + 1) ≡ sizes =
                grind (arith, found) in
              rw (← same) (replicate-AreSizes width (max_id (flatten ids) + 1) (omega arith)))
        ])
]

or_else_positive : (n : Option ℕ) (k : ℕ) → 0 < k → 0 < value_of (or_else n (some k))
or_else_positive none k h = h
or_else_positive (some zero) k h = h
or_else_positive (some (suc n)) k h = omega arith

sum_positive : (width : ℕ) (sizes : List ℕ) → 0 < width → AreSizes width sizes → 0 < sum sizes
unfolding AreSizes
sum_positive width [] w0 are = absurd (omega (arith, are.0))
sum_positive width (s ∷ sizes) w0 are = omega (arith, are.1.0)

as_uint64_lem : (x : ℕ) → x < 2 ^ 64 → as_uint64 x ≡ ok x
as_uint64_lem x h = let fits : ltb x (2 ^ 64) ≡ true = ground (arith, h) in rw fits refl

module _ (args : Args) (width : ℕ) (ids : List (List ℕ)) (sizes : List ℕ) where
  -- The ids of a mode are as many and as wide as before, and in the mode's range.
  unfoldable pub AreMapped : Mode → List (List ℕ) → Type 0
  AreMapped mode mapped =
      (length mapped ≡ length ids)
      × IsRectangular width mapped
      × All (All (λ i. i < range_of mode args.num_embeddings sizes ids)) mapped

  modulo_mapped :
      (mode : Mode) (total : ℕ)
      → 0 < total
      → range_of mode args.num_embeddings sizes ids ≡ total
      → IsRectangular width ids
      → AreMapped mode (modulo_all total ids)
  unfolding AreMapped
  modulo_mapped mode total h e wide =
      let (widths, below) = modulo_all_lem width total ids h wide in
      (length-map (map (λ i. i % total)) ids, widths, rw e below)

  mapped_ids_lem :
      (mode : Mode)
      → args.field_offset_mode ≡ mode
      → IsSupported mode
      → 0 < width
      → AreSizes width sizes
      → IsRectangular width ids
      → sum sizes < 2 ^ 64
      → range_of mode args.num_embeddings sizes ids < 2 ^ 64
      → (mapped : List (List ℕ)) × (mapped_ids args ids sizes (field_offsets_from_hash_sizes sizes)
          ≡ ok mapped)
        × AreMapped mode mapped
  unfolding range_of AreMapped mapped_ids
  mapped_ids_lem per_field_offset e h w0 are wide small fits =
      let (widths, below) = map_rows_lem width sizes ids are wide small in
      (
        map (map_row (field_offsets_from_hash_sizes sizes) sizes) ids,
        rw
            (
              mapped_ids,
              e,
              offsets_uint64 sizes small,
              sizes_uint64 sizes (sum sizes) (omega arith) small,
            )
            refl,
        (length-map (map_row (field_offsets_from_hash_sizes sizes) sizes) ids, widths, below),
      )
  mapped_ids_lem shared_hash e h w0 are wide small fits =
      let total = value_of (or_else args.num_embeddings (some (sum sizes))) in
      (
        modulo_all total ids,
        rw (mapped_ids, e, as_uint64_lem total fits) refl,
        modulo_mapped shared_hash total
            (or_else_positive args.num_embeddings (sum sizes) (sum_positive width sizes w0 are))
            refl wide,
      )
  mapped_ids_lem direct e h w0 are wide small fits =
      let total = range_of direct args.num_embeddings sizes ids in
      (
        modulo_all total ids,
        rw (mapped_ids, e, as_uint64_lem total fits) refl,
        modulo_mapped direct total (omega arith) refl wide,
      )
  mapped_ids_lem other_mode e h w0 are wide small fits = absurd h

  -- The mapping of arrays that are not empty in width succeeds, where the sizes are found.
  pub apply_id_mapping_lem :
      IsSupported args.field_offset_mode
      → 0 < width
      → hash_sizes_of args width ids ≡ ok sizes
      → IsRectangular width ids
      → sum sizes < 2 ^ 64
      → range_of args.field_offset_mode args.num_embeddings sizes ids < 2 ^ 64
      → (mapped : List (List ℕ)) × (apply_id_mapping args width ids
          ≡ ok (record {
            ids = mapped;
            offsets = field_offsets_from_hash_sizes sizes;
            hash_sizes = sizes;
            total = value_of (or_else args.num_embeddings (some (sum sizes)));
          }))
        × AreMapped args.field_offset_mode mapped
  unfolding apply_id_mapping
  apply_id_mapping_lem supported w0 sized wide small fits =
      let are = hash_sizes_of-AreSizes args width ids sizes w0 sized in
      let (mapped, found, are_mapped) =
        mapped_ids_lem args.field_offset_mode refl supported w0 are wide small fits in
      (mapped, rw (sized, found) refl, are_mapped)
