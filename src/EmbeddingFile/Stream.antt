-- ===== src/EmbeddingFile/Stream.antt =====
-- The file of `generate_embedding_file` as one stream of values.
use native.Mathlib.Nat.{zero-mul, add-mul}
use mem_tier_gds.Base.{
  ℕ, zero, suc, ◌+◌, ◌-◌, ◌*◌, ◌≤◌, ◌<◌, min, List, [], ◌∷◌, ◌++◌, flatten, length, length-append,
  ◌≡◌, refl, sym, ◌∙◌, ap, arith, append_assoc, ok, ceil_div, ceil_div-covers,
}
use mem_tier_gds.Base.Integer.{pos, positive_at}
use mem_tier_gds.EmbeddingFile.{
  Dtype, dtype_from_arg, Random, Metadata, rows_per_chunk_of, chunk_bytes, write_chunks,
  generate_embedding_file,
}

-- A generator whose calls draw from one stream, and values of one size in bytes.
pub record IsStream {F S : Type 0} (random : Random F S) : Type 0 where
  pub length_drawn : (s : S) (n : ℕ) → length (random.standard_normal s n).0 ≡ n
  pub drawn_twice :
      (s : S) (a b : ℕ)
      → (random.standard_normal s (a + b)).0
        ≡ (random.standard_normal s a).0
          ++ (random.standard_normal (random.standard_normal s a).1 b).0
  pub length-tobytes : (itemsize : ℕ) (x : F) → length (random.tobytes itemsize x) ≡ itemsize

empty_of_length : {F : Type 0} → (xs : List F) → length xs ≡ 0 → xs ≡ []
empty_of_length [] e = refl
empty_of_length (x ∷ xs) e = absurd (omega (arith, e))

rows_split :
    (n per start dim : ℕ)
    → min per (n - start) * dim + (n - (start + per)) * dim ≡ (n - start) * dim
rows_split n per start dim =
    let sum : min per (n - start) + (n - (start + per)) ≡ n - start = omega arith in
    rw (← add-mul (min per (n - start)) (n - (start + per)) dim, sum) refl

module _ {F S : Type 0} (random : Random F S) (h : IsStream random) where
  chunk_bytes-append :
      (size : ℕ) (xs ys : List F)
      → chunk_bytes random size (xs ++ ys)
        ≡ chunk_bytes random size xs ++ chunk_bytes random size ys
  unfolding chunk_bytes flatten
  chunk_bytes-append size [] ys = refl
  chunk_bytes-append size (x ∷ xs) ys = rw (chunk_bytes-append size xs ys) (
      sym (
        append_assoc (random.tobytes size x) (chunk_bytes random size xs)
          (chunk_bytes random size ys)))

  pub length-chunk_bytes :
      (size : ℕ) (xs : List F) → length (chunk_bytes random size xs) ≡ length xs * size
  unfolding chunk_bytes flatten
  length-chunk_bytes size [] = omega arith
  length-chunk_bytes size (x ∷ xs) = omega (
    arith,
    length-append (random.tobytes size x) (chunk_bytes random size xs),
    h.length-tobytes size x,
    length-chunk_bytes size xs,
  )

  -- The rest of the file, from a start on.
  write_chunks_lem :
      (n dim size per start left : ℕ) (s : S)
      → n - start ≤ left * per
      → write_chunks random n dim size per start left s
        ≡ chunk_bytes random size (random.standard_normal s ((n - start) * dim)).0
  unfolding write_chunks flatten
  write_chunks_lem n dim size per start zero s le =
      let over : n - start ≡ 0 = omega (arith, le) in
      let drawn = empty_of_length (random.standard_normal s 0).0 (h.length_drawn s 0) in
      rw (over, zero-mul dim, drawn, chunk_bytes) refl
  write_chunks_lem n dim size per start (suc left) s le =
      let rows = min per (n - start) in
      let ih =
        write_chunks_lem n dim size per (start + per) left (random.standard_normal s (rows * dim)).1
          (omega (arith, le)) in
      let split : rows * dim + (n - (start + per)) * dim ≡ (n - start) * dim =
        rows_split n per start dim in
      let joined =
        chunk_bytes-append size (random.standard_normal s (rows * dim)).0
          (random.standard_normal (random.standard_normal s (rows * dim)).1
            ((n - (start + per)) * dim)).0 in
      rw (ih, ← joined, ← h.drawn_twice s (rows * dim) ((n - (start + per)) * dim), split) refl

  -- With a generator whose draws follow one stream, the bytes of the file are those of the first
  -- values of the stream, one for each place of the table: they do not depend on the size of a
  -- chunk, nothing is left out, and the size that the metadata gives is that of all rows.
  pub generate_embedding_file_stream :
      (num_embeddings embedding_dim chunk_mb seed itemsize : ℕ) (dtype : Dtype)
      → 0 < num_embeddings
      → 0 < embedding_dim
      → 0 < chunk_mb
      → dtype_from_arg dtype ≡ ok itemsize
      → (metadata : Metadata) × (generate_embedding_file random
            (pos num_embeddings)
            (pos embedding_dim)
            dtype
            seed
            (pos chunk_mb)
          ≡ ok (
            chunk_bytes random itemsize
                (random.standard_normal
                  (random.default_rng seed)
                  (num_embeddings * embedding_dim)).0,
            metadata,
          ))
        × (metadata.file_size_bytes ≡ num_embeddings * embedding_dim * itemsize)
  unfolding generate_embedding_file rows_per_chunk_of
  generate_embedding_file_stream n dim mb seed size dtype n0 d0 m0 e =
      let per = rows_per_chunk_of mb (dim * size) in
      let values = (random.standard_normal (random.default_rng seed) (n * dim)).0 in
      let covered : n ≤ ceil_div n per * per = ceil_div-covers n per (omega arith) in
      let start : n - 0 ≡ n = omega arith in
      let whole : write_chunks random n dim size per 0 (ceil_div n per) (random.default_rng seed)
          ≡ chunk_bytes random size values =
        write_chunks_lem n dim size per 0 (ceil_div n per) (random.default_rng seed)
          (omega (arith, covered))
        ∙ ap
            (λ k.
              chunk_bytes random size
                (random.standard_normal (random.default_rng seed) (k * dim)).0)
            start in
      (
        record {
          num_embeddings = n;
          embedding_dim = dim;
          dtype = dtype;
          dtype_size = size;
          file_size_bytes = length (chunk_bytes random size values);
          seed = seed;
        },
        ground (arith, positive_at n n0, positive_at dim d0, positive_at mb m0, e, whole),
        length-chunk_bytes size values
            ∙ ap (◌* size) (h.length_drawn (random.default_rng seed) (n * dim)),
      )
