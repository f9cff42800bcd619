-- ===== src/Trace/Synthetic.antt =====
-- Traces as `generate_ids` saves them: a row of ids for each batch, with a sidecar that has the
-- batch size, the bag size and the rows of a block of the command line, and no layout.
use mem_tier_gds.Base.{
  ℕ, zero, suc, ◌*◌, ◌<◌, true, List, [], ◌∷◌, flatten, append-nil, Option, none, some, ◌≡◌, refl,
  ◌∙◌, map, arith, inl, inr, Bool-cases, length, take_of_length-le, get_elem?, Result, ok, raise,
  value_error, ◌∷◌, [], nth_slice, slice_lem,
}
use mem_tier_gds.Base.Numpy.{Numpy}
use mem_tier_gds.Workload.{ids_to_blocks}
use native.Mathlib.Nat.{mul-one, le_refl, zero-add}
use mem_tier_gds.Trace.{
  matrix, EmbeddingTrace, Metadata, no_metadata, npy, init, is_bagged, num_batches, get_batch_ids,
  get_batch_block_ids, choose_rows, collect, iter_batches, iter_block_batches,
}
use mem_tier_gds.Trace.Mismatch.{collect-elements, drop_at, map_id}

abbrev pub sidecar : ℕ → ℕ → ℕ → Metadata
sidecar size bag per = record no_metadata {
  batch_size = some size;
  bag_size = some bag;
  rows_per_block = some per;
}

lt-length_of :
    (rows : List (List ℕ)) (i : ℕ) (x : List ℕ) → get_elem? rows i ≡ some x → i < length rows
lt-length_of [] i x h = cc
lt-length_of (r ∷ rows) zero x h = omega arith
lt-length_of (r ∷ rows) (suc i) x h = omega (arith, lt-length_of rows i x h)

single_row :
    (rows : List (List ℕ)) (i : ℕ) (x : List ℕ)
    → get_elem? rows i ≡ some x
    → flatten (nth_slice 1 rows i) ≡ x
unfolding flatten
single_row rows i x found =
    let (y, found', cut) = drop_at rows i (lt-length_of rows i x found) in
    let same : y ≡ x = ground arith in rw (slice_lem, mul-one, cut, append-nil) same

pub record IsSynthetic (t : EmbeddingTrace) (size bag : ℕ) (rows : List (List ℕ)) : Type 0 where
  in_memory : t.jsonl_offsets ≡ none
  array : t.ids ≡ some (matrix (size * bag) rows)
  batch : t.metadata.batch_size ≡ some size
  given_bag : t.metadata.bag_size ≡ some bag
  fields : t.metadata.num_fields ≡ none
  layout : t.metadata.trace_layout ≡ none
  no_blocks : t.block_ids ≡ none

init-IsSynthetic :
    (size bag per : ℕ) (rows : List (List ℕ)) (rows_per_block : Option ℕ)
    → (t : EmbeddingTrace) × (init
          (npy (matrix (size * bag) rows) (some (sidecar size bag per)))
          rows_per_block
        ≡ ok t)
      × IsSynthetic t size bag rows
      × (t.rows_per_block ≡ choose_rows rows_per_block (sidecar size bag per))
unfolding init
init-IsSynthetic size bag per rows rows_per_block = (
  _,
  refl,
  record {
    in_memory = refl;
    array = refl;
    batch = refl;
    given_bag = refl;
    fields = refl;
    layout = refl;
    no_blocks = refl;
  },
  refl,
)

chosen : (size bag per : ℕ) → 0 < per → choose_rows none (sidecar size bag per) ≡ some per
unfolding choose_rows
chosen size bag zero pos = absurd (omega arith)
chosen size bag (suc per) pos = refl

-- The width of a row is the bag size only for batches of one sample.
one_of_scaled : (size bag : ℕ) → 0 < bag → size * bag ≡ bag → size ≡ 1
one_of_scaled zero bag pos e = absurd (omega arith)
one_of_scaled (suc zero) bag pos e = refl
one_of_scaled (suc (suc size)) bag pos e = absurd (grind arith)

module _ {t : EmbeddingTrace} {size bag : ℕ} {rows : List (List ℕ)}
    (s : IsSynthetic t size bag rows) where
  bagged_one : is_bagged t (size * bag) ≡ true → size ≡ 1
  unfolding is_bagged
  bagged_one h = ground (arith, s.batch, s.given_bag, s.fields, one_of_scaled size bag)

  num_batches_synthetic : num_batches t ≡ length rows
  unfolding num_batches
  num_batches_synthetic = elim (Bool-cases (is_bagged t (size * bag))) [
    | inl yes_bag ↦
        let one : size ≡ 1 = bagged_one yes_bag in
        ground (arith, s.in_memory, s.array, s.batch, s.layout, one)
    | inr no_bag ↦ ground (arith, s.in_memory, s.array, s.batch, s.layout, no_bag)
  ]

module _ (parse_row : List ℕ → Result (List ℕ)) where
  row_synthetic :
      {t : EmbeddingTrace} {size bag : ℕ} {rows : List (List ℕ)}
      → IsSynthetic t size bag rows
      → (i : ℕ) (x : List ℕ) → i < length rows
      → get_elem? rows i ≡ some x
      → get_batch_ids parse_row t i ≡ ok x
  unfolding get_batch_ids
  row_synthetic {t} {size} {bag} {rows} s i x lt found =
      let count : num_batches t ≡ length rows = num_batches_synthetic s in
      elim (Bool-cases (is_bagged t (size * bag))) [
        | inl yes_bag ↦
            let one : size ≡ 1 = bagged_one s yes_bag in
            let row : flatten (nth_slice 1 rows i) ≡ x = single_row rows i x found in
            let batch : t.metadata.batch_size ≡ some 1 = rw (s.batch, one) in
            ground (arith, s.in_memory, s.array, batch, s.layout, yes_bag, count, row)
        | inr no_bag ↦ ground (arith, s.in_memory, s.array, s.batch, s.layout, no_bag, count, found)
      ]

  block_row :
      {t : EmbeddingTrace} {size bag : ℕ} {rows : List (List ℕ)}
      → IsSynthetic t size bag rows
      → (np : Numpy) (per i : ℕ) (x : List ℕ) → t.rows_per_block ≡ some per
      → 0 < per
      → i < length rows
      → get_elem? rows i ≡ some x
      → get_batch_block_ids np parse_row t i ≡ ok (ids_to_blocks np per x)
  unfolding get_batch_block_ids ids_to_blocks
  block_row {t} s np per i x e pos lt found =
      let row : get_batch_ids parse_row t i ≡ ok x = row_synthetic s i x lt found in
      ground (arith, s.no_blocks, e, row)

  iter_synthetic :
      {t : EmbeddingTrace} {size bag : ℕ} {rows : List (List ℕ)}
      → IsSynthetic t size bag rows
      → iter_batches parse_row t ≡ ok rows
  unfolding iter_batches
  iter_synthetic {t} {size} {bag} {rows} s =
      let n = length rows in
      rw (
        num_batches_synthetic s,
        collect-elements (get_batch_ids parse_row t) (λ x. x) rows n 0 n
            (λ i x lt found. row_synthetic s i x lt found) (le_refl n) (zero-add n),
        map_id,
        take_of_length-le n rows (le_refl n),
      )

  -- A synthetic trace comes back as it was generated, whatever the batch size and the bag size: the
  -- batches that are read are the rows of the saved array.
  pub iter_batches_synthetic :
      (size bag per : ℕ) (rows : List (List ℕ)) (rows_per_block : Option ℕ)
      → (t : EmbeddingTrace) × (init
            (npy (matrix (size * bag) rows) (some (sidecar size bag per)))
            rows_per_block
          ≡ ok t)
        × (iter_batches parse_row t ≡ ok rows)
  iter_batches_synthetic size bag per rows rows_per_block =
      let (t, made, s, blocks) = init-IsSynthetic size bag per rows rows_per_block in
      (t, made, iter_synthetic s)

  -- The blocks that are read, by the rows of a block that the sidecar has.
  pub iter_block_batches_synthetic :
      (np : Numpy) (size bag per : ℕ) (rows : List (List ℕ))
      → 0 < per
      → (t : EmbeddingTrace) × (init
            (npy (matrix (size * bag) rows) (some (sidecar size bag per)))
            none
          ≡ ok t)
        × (iter_batches parse_row t ≡ ok rows)
        × (iter_block_batches np parse_row t ≡ ok (map (ids_to_blocks np per) rows))
  unfolding iter_block_batches
  iter_block_batches_synthetic np size bag per rows pos =
      let (t, made, s, blocks) = init-IsSynthetic size bag per rows none in
      let per_block = blocks ∙ chosen size bag per pos in
      let n = length rows in
      (
        t,
        made,
        iter_synthetic s,
        rw (
          num_batches_synthetic s,
          collect-elements (get_batch_block_ids np parse_row t) (ids_to_blocks np per) rows n 0 n
              (λ i x lt found. block_row s np per i x per_block pos lt found) (le_refl n)
              (zero-add n),
          take_of_length-le n rows (le_refl n),
        ),
      )

-- An array without a sidecar.
abbrev pub bare : ℕ → List (List ℕ) → EmbeddingTrace
bare width rows = record {
  file = [];
  rows_per_block = none;
  metadata = no_metadata;
  jsonl_offsets = none;
  ids = some (matrix width rows);
  block_ids = none;
}

-- Without the rows of a block, the first batch has no blocks.
pub no_blocks_unknown :
    (np : Numpy) (parse_row : List ℕ → Result (List ℕ)) (width : ℕ) (rows : List (List ℕ))
    → 0 < length rows
    → iter_block_batches np parse_row (bare width rows) ≡ raise value_error
unfolding iter_block_batches num_batches get_batch_block_ids collect
no_blocks_unknown np parse_row width [] h = absurd (omega arith)
no_blocks_unknown np parse_row width (row ∷ rows) h = refl
