-- ===== src/Trace/Blocks.antt =====
-- The block ids of a batch: those that the trace stores, and those computed from its ids.
use mem_tier_gds.Base.{
  ℕ, zero, suc, ◌/◌, ◌<◌, true, false, List, [], ◌∷◌, map, flatten, none, some, ◌≡◌, refl, ap,
  arith, ◌==◌, length-map, take, drop, Result, ok, nth_slice,
}
use mathlib.Core.List.{map-append}
use mem_tier_gds.Base.Numpy.{Numpy}
use mem_tier_gds.Trace.{
  matrix, EmbeddingTrace, is_bagged, num_batches, batch_from_array, get_batch_block_ids,
}
use mem_tier_gds.Trace.Coverage.{IsBagged, num_batches_bagged, batch_bagged}

module _ {ℓ κ} {A : Type ℓ} {B : Type κ} (f : A → B) where
  map-take : (n : ℕ) (l : List A) → take n (map f l) ≡ map f (take n l)
  map-take zero l = refl
  map-take (suc n) [] = refl
  map-take (suc n) (x ∷ l) = ap (◌∷◌ (f x)) (map-take n l)

  map-drop : (n : ℕ) (l : List A) → drop n (map f l) ≡ map f (drop n l)
  map-drop zero l = refl
  map-drop (suc n) [] = refl
  map-drop (suc n) (x ∷ l) = map-drop n l

  flatten-map : (ls : List (List A)) → flatten (map (map f) ls) ≡ map f (flatten ls)
  unfolding flatten
  flatten-map [] = refl
  flatten-map (l ∷ ls) = rw (flatten-map ls, map-append)

-- `block_ids` as the scripts store them: `ids // rows_per_block`, element by element.
abbrev pub blocks_of : ℕ → List (List ℕ) → List (List ℕ)
blocks_of rows_per_block = map (map (λ x. x / rows_per_block))

module _ {t : EmbeddingTrace} {size width : ℕ} {rows : List (List ℕ)}
    (b : IsBagged t size width rows) (per i : ℕ) where
  stored_batch :
      batch_from_array t (matrix width (blocks_of per rows)) i
      ≡ ok (map (λ x. x / per) (flatten (nth_slice size rows i)))
  unfolding batch_from_array
  stored_batch =
      let bagged : is_bagged t width ≡ true = unfold is_bagged in ground (arith, b.batch, b.bag) in
      rw (bagged, b.batch, length-map, map-drop, map-take, flatten-map)

  with_computed : EmbeddingTrace
  with_computed = record t { block_ids = none; rows_per_block = some per }

  computed-IsBagged : IsBagged with_computed size width rows
  unfolding with_computed
  computed-IsBagged = record {
    in_memory = b.in_memory;
    array = b.array;
    batch = b.batch;
    bag = b.bag;
    positive = b.positive;
    wide = b.wide;
    rectangular = b.rectangular;
  }

-- The stored block ids of a batch and the ones computed from its ids are the same, for a trace
-- whose stored array is the quotients of its ids.
pub stored-eq_computed :
    (np : Numpy) (parse_row : List ℕ → Result (List ℕ)) {t : EmbeddingTrace} {size width : ℕ}
    {rows : List (List ℕ)} (rows_per_block i : ℕ)
    → IsBagged t size width rows
    → 0 < rows_per_block
    → i < num_batches t
    → t.block_ids ≡ some (matrix width (blocks_of rows_per_block rows))
    → get_batch_block_ids np parse_row t i
      ≡ get_batch_block_ids np parse_row
          (record t { block_ids = none; rows_per_block = some rows_per_block })
          i
unfolding get_batch_block_ids with_computed
stored-eq_computed np parse_row {t} {size} {width} {rows} per i b pos lt stored =
    let b' = computed-IsBagged b per i in
    let lt' : i < num_batches (with_computed b per i) =
      omega (arith, num_batches_bagged b, num_batches_bagged b') in
    let nonzero : (per == 0) ≡ false = ground arith in
    rw (get_batch_block_ids, stored, stored_batch b per i)
      (rw (batch_bagged parse_row b' i lt', nonzero))
