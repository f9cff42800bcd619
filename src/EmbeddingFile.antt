-- ===== src/EmbeddingFile.antt =====
-- `generate_embedding_file` of memtier_embedding_bench/scripts/generate_embedding_file.py: the bytes
-- that are written, and the metadata.
pub mod Stream
use mem_tier_gds.Base.{
  ℕ, zero, suc, ◌+◌, ◌-◌, ◌*◌, ◌/◌, min, max, List, [], ◌++◌, map, flatten, length, Result, ok,
  raise, ◌>>=◌, value_error, ceil_div,
}
use mem_tier_gds.Base.Integer.{ℤ, positive}

pub data Dtype : Type 0 where
  fp16 : Dtype
  fp32 : Dtype
  other_dtype : Dtype

-- A generator of random numbers by its states, and the bytes of a number as stored: a call of
-- `standard_normal` returns so many values and leaves the next state.
pub record Random (F S : Type 0) : Type 0 where
  pub default_rng : ℕ → S
  pub standard_normal : S → ℕ → List F × S
  pub tobytes : ℕ → F → List ℕ

pub record Metadata : Type 0 where
  pub num_embeddings : ℕ
  pub embedding_dim : ℕ
  pub dtype : Dtype
  pub dtype_size : ℕ
  pub file_size_bytes : ℕ
  pub seed : ℕ

-- The item size of the dtype.
abbrev pub dtype_from_arg : Dtype → Result ℕ
dtype_from_arg fp16 = ok 2
dtype_from_arg fp32 = ok 4
dtype_from_arg other_dtype = raise value_error

pub rows_per_chunk_of : ℕ → ℕ → ℕ
rows_per_chunk_of chunk_mb row_bytes = max 1 (chunk_mb * 1024 * 1024 / row_bytes)

module _ {F S : Type 0} (random : Random F S) where
  -- `chunk.astype(np_dtype).tobytes()`
  pub chunk_bytes : ℕ → List F → List ℕ
  chunk_bytes itemsize chunk = flatten (map (random.tobytes itemsize) chunk)

  -- `for start in range(0, num_embeddings, rows_per_chunk)`, with so many turns left.
  pub write_chunks : ℕ → ℕ → ℕ → ℕ → ℕ → ℕ → S → List ℕ
  unfolding chunk_bytes
  write_chunks num_embeddings embedding_dim itemsize rows_per_chunk start zero rng = []
  write_chunks num_embeddings embedding_dim itemsize rows_per_chunk start (suc left) rng =
      let rows = min rows_per_chunk (num_embeddings - start) in
      let (chunk, rng') = random.standard_normal rng (rows * embedding_dim) in
      chunk_bytes itemsize chunk
      ++ write_chunks num_embeddings embedding_dim itemsize rows_per_chunk (start + rows_per_chunk)
          left rng'

  -- The file and the metadata.
  pub generate_embedding_file : ℤ → ℤ → Dtype → ℕ → ℤ → Result (List ℕ × Metadata)
  unfolding write_chunks rows_per_chunk_of
  generate_embedding_file num_embeddings embedding_dim dtype seed chunk_mb = do
    n ← positive num_embeddings
    dim ← positive embedding_dim
    mb ← positive chunk_mb
    itemsize ← dtype_from_arg dtype
    let rows_per_chunk = rows_per_chunk_of mb (dim * itemsize)
    let file =
        write_chunks n dim itemsize rows_per_chunk 0 (ceil_div n rows_per_chunk)
          (random.default_rng seed)
    ok (
      file,
      record {
        num_embeddings = n;
        embedding_dim = dim;
        dtype = dtype;
        dtype_size = itemsize;
        file_size_bytes = length file;
        seed = seed;
      },
    )
