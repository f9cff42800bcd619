-- ===== src/Preprocess/Rows.antt =====
-- The samples of the loop: each is a row of the asked width.
use mem_tier_gds.Base.{
  ℕ, zero, suc, ◌+◌, ◌-◌, ◌^◌, ◌≤◌, ◌<◌, min, true, false, ◌&&◌, List, [], ◌∷◌, ◌++◌, map, Option,
  none, some, ◌≡◌, refl, ap, sym, ◌∙◌, arith, ◌⊎◌, inl, inr, ltb, if◌then◌else◌, length,
  length-append, length-take, length-replicate, take, replicate, sum, All, All-append, All-take,
  All-mono, All-replicate, Bool-cases, IsRectangular, ok,
}
use mem_tier_gds.Base.Integer.{ℤ}
use mem_tier_gds.Base.Text.{Text}
use mem_tier_gds.Criteo.Hash.{Blake2b}
use mem_tier_gds.Criteo.Sizes.{AreSizes, field_offsets_from_hash_sizes}
use mem_tier_gds.Criteo.Ids.{Mode, per_field_offset, shared_hash, other_mode, categorical_to_ids}
use mem_tier_gds.Criteo.Ids.Ranges.{
  kept, AreAscending, categorical_to_ids_ascend, categorical_to_ids_shared,
}
use mem_tier_gds.Preprocess.{Args, label_of, row_of, is_last, samples_from}

abbrev pub IsSupported : Mode → Type 0
IsSupported per_field_offset = Unit
IsSupported shared_hash = Unit
IsSupported other_mode = ⊥

-- With the features dropped or as many fields as the bag asks for, rows are as wide as the bag.
abbrev pub FillsBag : Args → Type 0
FillsBag args = (args.drop_empty ≡ true) ⊎ (args.bag_size ≤ args.num_fields)

length-kept : (cats : List Text) → kept false cats ≡ length cats
unfolding kept
length-kept [] = refl
length-kept (raw ∷ cats) = ground (arith, length-kept cats)

sum_positive :
    (n : ℕ) (sizes : List ℕ) → 0 < n → length sizes ≡ n → All (λ s. 0 < s) sizes → 0 < sum sizes
sum_positive n [] n0 e h = absurd (omega arith)
sum_positive n (s ∷ sizes) n0 e h = omega (arith, h.0)

-- How many of the rows are taken from the row of number `idx` on.
unfoldable pub limit : Option ℕ → ℕ → ℕ → ℕ
limit none idx rows = rows
limit (some zero) idx rows = rows
limit (some (suc m)) idx rows = min rows (suc m + 1 - idx)

-- The limit is not passed before the row of number `idx`.
unfoldable pub Below : Option ℕ → ℕ → Type 0
Below none idx = Unit
Below (some zero) idx = Unit
Below (some (suc m)) idx = idx ≤ suc m

module _ (sizes : List ℕ) (args : Args) where
  -- Every row that is read before the limit becomes a sample, in order.
  pub record AreSamples (idx : ℕ) (rows : List (Option ℤ × List Text)) (samples : List (List ℕ × ℤ))
      : Type 0 where
    pub count : length samples ≡ limit args.max_samples idx (length rows)
    pub labels : map (λ s. s.1) samples ≡ take (length samples) (map (λ r. label_of r.0) rows)
    pub widths : IsRectangular args.bag_size (map (λ s. s.0) samples)
    pub below : All (All (λ i. i < sum sizes)) (map (λ s. s.0) samples)

module _ (hash : Blake2b) (sizes : List ℕ) (args : Args)
    (supported : IsSupported args.global_id_mode) (fits : args.seed < 2 ^ 64)
    (n0 : 0 < args.num_fields) (are_sizes : AreSizes args.num_fields sizes) where
  offsets : List ℕ
  offsets = field_offsets_from_hash_sizes sizes

  ids_of_row :
      (mode : Mode) (cats : List Text)
      → IsSupported mode
      → length cats ≡ args.num_fields
      → (ids : List ℕ) × (categorical_to_ids hash sizes
            (field_offsets_from_hash_sizes sizes)
            mode
            args.drop_empty
            args.seed
            cats
          ≡ ok ids)
        × All (λ i. i < sum sizes) ids
        × (length ids ≡ kept args.drop_empty cats)
  unfolding AreSizes AreAscending
  ids_of_row per_field_offset cats h len =
      let (ids, found, (asc, range), count) =
        categorical_to_ids_ascend hash sizes args.drop_empty args.seed cats fits
          (omega (arith, are_sizes.0, len)) are_sizes.1 in
      (ids, found, All-mono _ _ (λ i b. b.1) ids range, count)
  ids_of_row shared_hash cats h len =
      categorical_to_ids_shared hash sizes args.drop_empty args.seed cats
        (field_offsets_from_hash_sizes sizes) fits
        (sum_positive args.num_fields sizes n0 are_sizes.0 are_sizes.1)
  ids_of_row other_mode cats h len = absurd h

  -- The row is cut or filled to the width of a bag.
  row_width :
      (cats : List Text) (ids : List ℕ)
      → FillsBag args
      → length cats ≡ args.num_fields
      → length ids ≡ kept args.drop_empty cats
      → length (
          take args.bag_size (
            if args.drop_empty && ltb (length ids) args.bag_size
            then ids ++ replicate (args.bag_size - length ids) 0
            else ids))
        ≡ args.bag_size
  row_width cats ids fills len count = elim (Bool-cases args.drop_empty) [
    | inl dropping ↦ elim (Bool-cases (ltb (length ids) args.bag_size)) [
      | inl short ↦
          rw (dropping, short)
            (ground (
              arith,
              short,
              length-take args.bag_size (ids ++ replicate (args.bag_size - length ids) 0),
              length-append ids (replicate (args.bag_size - length ids) 0),
              length-replicate {A = ℕ} (args.bag_size - length ids) 0,
            ))
      | inr long ↦ rw (dropping, long) (ground (arith, long, length-take args.bag_size ids))
    ]
    | inr keeping ↦ rw keeping (
        ground (arith, fills, keeping, len, count, length-kept cats, length-take args.bag_size ids))
  ]

  row_below :
      (ids : List ℕ)
      → All (λ i. i < sum sizes) ids
      → All
          (λ i. i < sum sizes)
          (take args.bag_size (
            if args.drop_empty && ltb (length ids) args.bag_size
            then ids ++ replicate (args.bag_size - length ids) 0
            else ids))
  unfolding AreSizes
  row_below ids below = elim (Bool-cases (args.drop_empty && ltb (length ids) args.bag_size)) [
    | inl fill ↦ rw fill (
        All-take _ args.bag_size (ids ++ replicate (args.bag_size - length ids) 0) (
          All-append _ ids (replicate (args.bag_size - length ids) 0) below (
            All-replicate (λ i. i < sum sizes) (args.bag_size - length ids) 0
              (sum_positive args.num_fields sizes n0 are_sizes.0 are_sizes.1))))
    | inr leave ↦ rw leave (All-take _ args.bag_size ids below)
  ]

  row_of_lem :
      (cats : List Text)
      → FillsBag args
      → length cats ≡ args.num_fields
      → (row : List ℕ) × (row_of hash sizes (field_offsets_from_hash_sizes sizes) args cats
          ≡ ok row)
        × (length row ≡ args.bag_size)
        × All (λ i. i < sum sizes) row
  unfolding row_of
  row_of_lem cats fills len =
      let (ids, found, below, count) = ids_of_row args.global_id_mode cats supported len in
      (_, rw found refl, row_width cats ids fills len count, row_below ids below)

  last_row :
      (idx n : ℕ)
      → Below args.max_samples idx
      → is_last hash sizes (field_offsets_from_hash_sizes sizes) args idx ≡ true
      → limit args.max_samples idx (suc n) ≡ 1
  unfolding Below limit is_last
  last_row idx n lo e = grind (arith, lo, e)

  next_row :
      (idx n : ℕ)
      → Below args.max_samples idx
      → is_last hash sizes (field_offsets_from_hash_sizes sizes) args idx ≡ false
      → Below args.max_samples (idx + 1)
        × (limit args.max_samples idx (suc n) ≡ suc (limit args.max_samples (idx + 1) n))
  unfolding Below limit is_last
  next_row idx n lo e = (grind (arith, lo, e), grind (arith, lo, e))

  pub samples_from_lem :
      (idx : ℕ) (rows : List (Option ℤ × List Text))
      → FillsBag args
      → 0 < idx
      → Below args.max_samples idx
      → All (λ row. length row.1 ≡ args.num_fields) rows
      → (samples : List (List ℕ × ℤ)) × (samples_from hash sizes
            (field_offsets_from_hash_sizes sizes)
            args
            idx
            rows
          ≡ ok samples)
        × AreSamples sizes args idx rows samples
  unfolding samples_from is_last limit Below
  samples_from_lem idx [] fills i0 lo wide =
      ([], refl, record { count = ground arith; labels = refl; widths = tt; below = tt })
  samples_from_lem idx ((label, cats) ∷ rows) fills i0 lo wide =
      let (row, found, width, small) = row_of_lem cats fills wide.0 in
      let sample : List ℕ × ℤ = (row, label_of label) in
      elim (Bool-cases (is_last hash sizes (field_offsets_from_hash_sizes sizes) args idx)) [
        | inl last ↦ (
          sample ∷ [],
          rw (found, last) refl,
          record {
            count = sym (last_row idx (length rows) lo last);
            labels = refl;
            widths = (width, tt);
            below = (small, tt);
          },
        )
        | inr more ↦
            (let (lo', step) = next_row idx (length rows) lo more in
              let (samples, rest, are) =
                samples_from_lem (idx + 1) rows fills (omega arith) lo' wide.1 in
              (
                sample ∷ samples,
                rw (found, more, rest) refl,
                record {
                  count = ap suc are.count ∙ sym step;
                  labels = ap (◌∷◌ (label_of label)) are.labels;
                  widths = (width, are.widths);
                  below = (small, are.below);
                },
              ))
      ]
