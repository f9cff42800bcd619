-- ===== src/Tests/BenchReference.antt =====
-- A generator of numbers and a library of embeddings, for the runs.
use mem_tier_gds.Base.{
  ℕ, zero, suc, ◌+◌, ◌*◌, ◌/◌, ◌%◌, ◌≤◌, ◌<◌, Bool, true, false, ◌||◌, ◌==◌, leb, if◌then◌else◌,
  Option, List, [], ◌∷◌, map, none, some, ◌≡◌, refl, ap, arith, length, All, ok,
}
use mem_tier_gds.Workload.{IdSource, Ratio}
use mem_tier_gds.Bench.Embedding.{Metrics, Library}

-- The numbers from `s` on, below `high`.
unfoldable pub draw : ℕ → ℕ → ℕ → List ℕ
draw s high zero = []
draw s high (suc n) = s % high ∷ draw (s + 1) high n

pub length-draw : (s high n : ℕ) → length (draw s high n) ≡ n
unfolding draw
length-draw s high zero = refl
length-draw s high (suc n) = ap suc (length-draw (s + 1) high n)

pub draw_below : (s high n : ℕ) → 0 < high → All (λ i. i < high) (draw s high n)
unfolding draw
draw_below s high zero h = tt
draw_below s high (suc n) h = (grind (arith, h), draw_below (s + 1) high n h)

abbrev pub counting : IdSource ℕ ℕ
counting = record {
  default_rng = λ seed. seed;
  integers = λ s high count. (draw s high count, s + count);
  random = λ s count. (draw s 100 count, s + count);
  zipf_rank = λ n u. n * u / 100;
  length-integers = length-draw;
  integers_below = draw_below;
  length-random = λ s count. length-draw s 100 count;
}

pub half_le : (n : ℕ) → true ≡ true → n / 2 ≤ n
half_le n h = omega arith

abbrev pub half : Ratio
half = record { in_range = true; part_of = λ n. n / 2; part_of-le = half_le }

abbrev pub report : ℕ → Metrics
report calls = record {
  posix_reads = some calls;
  hbm_hits = none;
  dram_hits = some 0;
  gds_reads = some 0;
  bytes_read_from_ssd = some (calls * 16);
  bytes_copied_dram_to_gpu = some (calls * 16);
}

abbrev pub is_null : Option ℕ → Bool
is_null none = true
is_null (some h) = false

-- The return code of a lookup in a file of two blocks.
abbrev pub refused_blocks : Option ℕ → List ℕ → ℕ
refused_blocks h [] = if is_null h then 1 else 0
refused_blocks h (x ∷ blocks) = let rest = refused_blocks h blocks in if leb 2 x then 1 else rest

-- The library's state is the number of its lookups. As that of the repository, it opens no table
-- without columns, rows in a block or bytes in a number, and refuses NULL and blocks that the file,
-- of two blocks, does not have.
abbrev pub steady : Library ℕ
steady = record {
  init_embedding = λ calls file c. (
    if c.embedding_dim == 0 || (c.rows_per_block == 0 || c.dtype_size == 0) then none else some 7,
    calls,
  );
  lookup_blocks = λ calls h blocks.
      (refused_blocks h blocks, map (λ b. some (b * 16)) blocks, map (λ b. 0) blocks, calls + 1);
  get_metrics = λ calls h. (if is_null h then 1 else 0, ok (report calls), calls);
  destroy = λ calls h. calls;
}

-- Its second lookup fails.
abbrev pub flaky : Library ℕ
flaky = record steady {
  lookup_blocks =
      λ calls h blocks. (calls, map (λ b. some (b * 16)) blocks, map (λ b. 0) blocks, calls + 1);
}
