-- ===== src/Trace/Mismatch.antt =====
-- Arrays that are read one index of the first axis at a time.
use mem_tier_gds.Base.{
  ℕ, zero, suc, ◌+◌, ◌≤◌, ◌<◌, true, false, List, [], ◌∷◌, map, none, some, ◌≡◌, refl, ap, arith,
  length, take, drop, get_elem?, Result, ok, ceil_div,
}
use native.Mathlib.Nat.{suc-add}
use mem_tier_gds.Trace.{
  matrix, EmbeddingTrace, batch_size, is_bagged, num_batches, is_samples_by_fields, get_batch_ids,
  collect, iter_batches,
}

pub drop_at {ℓ} :
    {A : Type ℓ} (l : List A) (i : ℕ)
    → i < length l
    → (x : A) × (get_elem? l i ≡ some x) × (drop i l ≡ x ∷ drop (i + 1) l)
drop_at [] i h = absurd (omega arith)
drop_at (x ∷ l) zero h = (x, refl, refl)
drop_at (x ∷ l) (suc i) h =
    let (y, found, cut) = drop_at l i (omega arith) in (y, found, rw (suc-add) cut)

module _ {ℓ} {A : Type ℓ} (f : ℕ → Result (List ℕ)) (g : A → List ℕ) (l : List A) where
  -- Batches that are the elements of a list, each passed through `g`.
  pub collect-elements :
      (n i m : ℕ)
      → ((j : ℕ) (x : A) → j < n → get_elem? l j ≡ some x → f j ≡ ok (g x))
      → n ≤ length l
      → i + m ≡ n
      → collect f i m ≡ ok (map g (take m (drop i l)))
  unfolding collect
  collect-elements n i zero h le e = refl
  collect-elements n i (suc m) h le e =
      let (x, found, cut) = drop_at l i (omega arith) in
      rw (h i x (omega arith) found, collect-elements n (i + 1) m h le (omega arith), cut)

ceil_div-le : (n size : ℕ) → 0 < size → ceil_div n size ≤ n
ceil_div-le n size pos = grind arith

pub map_id {ℓ} : {A : Type ℓ} (l : List A) → map (λ x. x) l ≡ l
map_id [] = refl
map_id (x ∷ l) = ap (◌∷◌ x) (map_id l)

-- A trace in memory of samples by fields, with a batch size, whose bag size is missing or is not
-- the width of the array.
pub record IsMismatched (t : EmbeddingTrace) (size width : ℕ) (rows : List (List ℕ)) : Type 0 where
  pub in_memory : t.jsonl_offsets ≡ none
  pub array : t.ids ≡ some (matrix width rows)
  pub layout : is_samples_by_fields t ≡ true
  pub batch : batch_size t ≡ some size
  pub positive : 0 < size
  pub bag : is_bagged t width ≡ false

module _ (parse_row : List ℕ → Result (List ℕ)) where
  row_mismatched :
      {t : EmbeddingTrace} {size width : ℕ} {rows : List (List ℕ)}
      → IsMismatched t size width rows
      → (num_batches t ≡ ceil_div (length rows) size)
        × ((j : ℕ) (x : List ℕ)
            → j < ceil_div (length rows) size
            → get_elem? rows j ≡ some x
            → get_batch_ids parse_row t j ≡ ok x)
  unfolding num_batches get_batch_ids
  row_mismatched m = (
    ground (arith, m.in_memory, m.array, m.layout, m.batch),
    λ j x lt found. ground (arith, m.in_memory, m.array, m.layout, m.batch, m.bag, lt, found),
  )

  -- Reading such a trace loses samples: the number of batches is counted in batches of the batch
  -- size, and each batch is one sample, so only the first samples are read, as many as there are
  -- batches.
  pub iter_batches_mismatched :
      {t : EmbeddingTrace} {size width : ℕ} {rows : List (List ℕ)}
      → IsMismatched t size width rows
      → iter_batches parse_row t ≡ ok (take (ceil_div (length rows) size) rows)
  unfolding iter_batches
  iter_batches_mismatched {t} {size} {width} {rows} m =
      let n = ceil_div (length rows) size in
      let (count, row) = row_mismatched m in
      rw (
        count,
        collect-elements (get_batch_ids parse_row t) (λ x. x) rows n 0 n row
            (ceil_div-le (length rows) size m.positive) (omega arith),
        map_id,
      )
