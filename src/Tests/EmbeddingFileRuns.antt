-- ===== src/Tests/EmbeddingFileRuns.antt =====
-- An embedding file from a generator that counts.
use mem_tier_gds.Base.{
  ℕ, zero, suc, ◌+◌, ◌%◌, List, [], ◌∷◌, ◌++◌, length, length-replicate, replicate, ◌≡◌, refl, ap,
  arith, ok,
}
use native.Mathlib.Nat.{zero-add, add-zero, suc-add}
use mem_tier_gds.Base.Integer.{pos}
use mem_tier_gds.EmbeddingFile.{fp16, Random, Metadata, chunk_bytes, generate_embedding_file}
use mem_tier_gds.EmbeddingFile.Stream.{IsStream, generate_embedding_file_stream}

abbrev pub count_from : ℕ → ℕ → List ℕ
count_from s zero = []
count_from s (suc n) = s ∷ count_from (s + 1) n

length-count_from : (s n : ℕ) → length (count_from s n) ≡ n
length-count_from s zero = refl
length-count_from s (suc n) = ap suc (length-count_from (s + 1) n)

count_from-add : (s a b : ℕ) → count_from s (a + b) ≡ count_from s a ++ count_from (s + a) b
count_from-add s zero b = rw (zero-add, add-zero) refl
count_from-add s (suc a) b =
    let next : s + 1 + a ≡ s + suc a = omega arith in
    rw (suc-add, ← next) (ap (◌∷◌ s) (count_from-add (s + 1) a b))

abbrev pub counting : Random ℕ ℕ
counting = record {
  default_rng = λ seed. seed;
  standard_normal = λ s n. (count_from s n, s + n);
  tobytes = λ itemsize x. replicate itemsize (x % 256);
}

pub counting-IsStream : IsStream counting
counting-IsStream = record {
  length_drawn = length-count_from;
  drawn_twice = count_from-add;
  length-tobytes = λ itemsize x. length-replicate itemsize (x % 256);
}

generate_embedding_file_stream_example :
    (metadata : Metadata) × (generate_embedding_file counting (pos 10) (pos 4) fp16 1234 (pos 1)
      ≡ ok (
        chunk_bytes counting 2 (counting.standard_normal (counting.default_rng 1234) 40).0,
        metadata,
      ))
    × (metadata.file_size_bytes ≡ 80)
generate_embedding_file_stream_example =
    generate_embedding_file_stream counting counting-IsStream 10 4 1 1234 2 fp16 (omega arith)
      (omega arith) (omega arith) refl
