-- ===== src/Trace/Coverage.antt =====
-- The batches of a trace hold every id of its array once and in order.
use mem_tier_gds.Base.{
  ℕ, zero, suc, ◌+◌, ◌*◌, ◌≤◌, ◌<◌, List, flatten, none, some, ◌≡◌, refl, arith, leb, length, All,
  Result, ok, ceil_div, gather, length-gather, All-gather, IsRectangular,
  length-flatten-nth_slice-le, flatten_all_slices, ap, ◌∙◌, nth_slice, flatten-gather-flatten, inl,
  inr, Bool-cases,
}
use mem_tier_gds.Trace.{
  matrix, EmbeddingTrace, batch_size, bag_size, num_batches, get_batch_ids, collect, iter_batches,
}

-- Batches that all return are collected.
pub collect-gather :
    (f : ℕ → Result (List ℕ)) (g : ℕ → List ℕ) (n i m : ℕ)
    → ((j : ℕ) → j < n → f j ≡ ok (g j))
    → i + m ≡ n
    → collect f i m ≡ ok (gather g i m)
unfolding collect
collect-gather f g n i zero h e = refl
collect-gather f g n i (suc m) h e =
    rw (h i (omega arith), collect-gather f g n (i + 1) m h (omega arith))

-- A trace in memory of samples by fields, whose metadata has a batch size and, as the bag size, the
-- width of the array. The preprocessing and the conversion scripts write such traces.
pub record IsBagged (t : EmbeddingTrace) (size width : ℕ) (rows : List (List ℕ)) : Type 0 where
  pub in_memory : t.jsonl_offsets ≡ none
  pub array : t.ids ≡ some (matrix width rows)
  pub batch : batch_size t ≡ some size
  pub bag : bag_size t ≡ some width
  pub positive : 0 < size
  pub wide : 0 < width
  pub rectangular : IsRectangular width rows

pub num_batches_bagged :
    {t : EmbeddingTrace} {size width : ℕ} {rows : List (List ℕ)}
    → IsBagged t size width rows
    → num_batches t ≡ ceil_div (length rows) size
unfolding num_batches
num_batches_bagged b = ground (arith, b.in_memory, b.array, b.batch, b.bag)

module _ (parse_row : List ℕ → Result (List ℕ)) where
  pub batch_bagged :
      {t : EmbeddingTrace} {size width : ℕ} {rows : List (List ℕ)}
      → IsBagged t size width rows
      → (i : ℕ) → i < num_batches t
      → get_batch_ids parse_row t i ≡ ok (flatten (nth_slice size rows i))
  unfolding get_batch_ids
  batch_bagged {t} b i lt = elim (Bool-cases (leb (num_batches t) i)) [
    | inl out ↦ absurd (ground arith)
    | inr inside ↦ rw (get_batch_ids, inside) (ground (arith, b.in_memory, b.array, b.batch, b.bag))
  ]

  -- Reading such a trace raises nothing, and its batches together are all samples in order: no id is
  -- lost or read twice. There are as many batches as the samples fill, and none holds more ids than
  -- the batch size times the width.
  pub iter_batches_bagged :
      {t : EmbeddingTrace} {size width : ℕ} {rows : List (List ℕ)}
      → IsBagged t size width rows
      → (batches : List (List ℕ)) × (iter_batches parse_row t ≡ ok batches)
        × (flatten batches ≡ flatten rows)
        × (length batches ≡ ceil_div (length rows) size)
        × All (λ batch. length batch ≤ size * width) batches
  unfolding iter_batches
  iter_batches_bagged {t} {size} {width} {rows} b =
      let n = ceil_div (length rows) size in
      let count : num_batches t ≡ n = num_batches_bagged b in
      let g = λ (j : ℕ). flatten (nth_slice size rows j) in
      (
        gather g 0 n,
        rw count (
            collect-gather (get_batch_ids parse_row t) g n 0 n
              (λ j lt. batch_bagged b j (omega (arith, count))) (omega arith)),
        flatten-gather-flatten (nth_slice size rows) 0 n
            ∙ ap flatten (flatten_all_slices size rows b.positive),
        length-gather g 0 n,
        All-gather (λ batch. length batch ≤ size * width) g
            (λ j. length-flatten-nth_slice-le size width rows j b.rectangular) 0 n,
      )
