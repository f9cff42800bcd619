-- ===== src/Bench/Embedding.antt =====
-- `MemTierEmbeddingBag` and `run` of memtier_embedding_bench/python/memtier_embedding.py, over a
-- library that is a parameter. An action has the state of the library, of the object's handle and
-- of a record of the calls; the state comes back also after a raise. Timings are not modelled.
pub mod Lifecycle
pub mod Outcome
use Prim.Native.String.{String}
use mem_tier_gds.Base.{
  ℕ, zero, suc, ◌+◌, ◌*◌, ◌%◌, ◌^◌, max, Bool, true, false, not, List, [], ◌∷◌, map, Option, none,
  some, ◌==◌, if◌then◌else◌, length, Result, ok, raise, value_error, runtime_error,
}
use mem_tier_gds.Base.Numpy.{Numpy}
use mem_tier_gds.Workload.{IdSource, ids_to_blocks}
use mem_tier_gds.Trace.{Source, Metadata, EmbeddingTrace, init, or_else, value_of}
use mem_tier_gds.Bench.{
  Batches, Synthetic, trace_batches, synthetic_batches, Stats, no_stats, observe, Summary, summary,
}

-- `MemTierEmbeddingConfig`: ctypes keeps the low bits of a number that does not fit its field.
pub record Config : Type 0 where
  pub num_embeddings : ℕ
  pub embedding_dim : ℕ
  pub rows_per_block : ℕ
  pub dtype_size : ℕ
  pub dram_cache_bytes : ℕ
  pub hbm_cache_bytes : ℕ
  pub enable_gds : Bool
  pub enable_prefetch : Bool

-- The entries of the library's report that are read.
pub record Metrics : Type 0 where
  pub posix_reads : Option ℕ
  pub hbm_hits : Option ℕ
  pub dram_hits : Option ℕ
  pub gds_reads : Option ℕ
  pub bytes_read_from_ssd : Option ℕ
  pub bytes_copied_dram_to_gpu : Option ℕ

-- The functions of libmemtier_embedding.so by the library's state. A handle or a pointer is `none`
-- for NULL; a return code is 0 for success; the text of the report is as `json.loads` reads it.
pub record Library (L : Type 0) : Type 0 where
  pub init_embedding : L → String → Config → Option ℕ × L
  pub lookup_blocks : L → Option ℕ → List ℕ → ℕ × List (Option ℕ) × List ℕ × L
  pub get_metrics : L → Option ℕ → ℕ × Result Metrics × L
  pub destroy : L → Option ℕ → L

-- The calls that concern a handle.
pub data Event : Type 0 where
  created : ℕ → Event
  used : Option ℕ → Event
  destroyed : ℕ → Event

-- The events are listed with the last one first.
pub record State (L : Type 0) : Type 0 where
  pub lib : L
  pub handle : Option ℕ
  pub events : List Event

abbrev pub Action : Type 0 → Type 0 → Type 0
Action L R = State L → Result R × State L

infixl 5 ◌>>=◌
abbrev pub ◌>>=◌ : {L R Q : Type 0} → Action L R → (R → Action L Q) → Action L Q
◌>>=◌ m next st = let (r, st') = m st in elim r [ ok a ↦ next a st' | raise e ↦ (raise e, st') ]

abbrev pub lift : {L R : Type 0} → Result R → Action L R
lift r st = (r, st)

pub data Mode : Type 0 where
  sum_mode : Mode
  mean_mode : Mode
  other_mode : Mode

pub record Forward : Type 0 where
  pub num_blocks : ℕ
  pub paths : List ℕ
  pub device_ptrs : List ℕ

-- The bits that the fields of the structure keep.
unfoldable pub kept_bits : Config → Config
kept_bits c = record c {
  num_embeddings = c.num_embeddings % 2 ^ 64;
  embedding_dim = c.embedding_dim % 2 ^ 32;
  rows_per_block = c.rows_per_block % 2 ^ 32;
  dtype_size = c.dtype_size % 2 ^ 32;
  dram_cache_bytes = c.dram_cache_bytes % 2 ^ 64;
  hbm_cache_bytes = c.hbm_cache_bytes % 2 ^ 64;
}

-- What `forward` returns of so many blocks.
abbrev pub looked_up : {L : Type 0} → ℕ → List ℕ × List ℕ → Action L Forward
looked_up n found = lift (ok (record { num_blocks = n; paths = found.1; device_ptrs = found.0 }))

module _ {L : Type 0} (library : Library L) where
  -- `__init__`
  unfoldable pub init_bag : String → Config → Action L (Unit {0})
  init_bag embedding_file c st =
      let (h, lib') = library.init_embedding st.lib embedding_file (kept_bits c) in
      elim h [
        | none ↦ (raise runtime_error, record st { lib = lib'; handle = none })
        | some address ↦ (
          ok tt,
          record { lib = lib'; handle = some address; events = created address ∷ st.events },
        )
      ]

  unfoldable pub lookup_blocks : List ℕ → Action L (List ℕ × List ℕ)
  lookup_blocks blocks st =
      let (rc, ptrs, paths, lib') = library.lookup_blocks st.lib st.handle blocks in
      let st' = record st { lib = lib'; events = used st.handle ∷ st.events } in
      if rc == 0 then (ok (map value_of ptrs, paths), st') else (raise runtime_error, st')

  unfoldable pub check_mode : Mode → Action L (Unit {0})
  check_mode sum_mode = lift (ok tt)
  check_mode mean_mode = lift (ok tt)
  check_mode other_mode = lift (raise value_error)

  unfoldable pub forward : Numpy → ℕ → List ℕ → Mode → Action L Forward
  unfolding lookup_blocks check_mode
  forward np rows_per_block ids mode = check_mode mode >>= λ _.
      let block_ids = ids_to_blocks np rows_per_block ids in
      lookup_blocks block_ids >>= looked_up (length block_ids)

  unfoldable pub metrics : Action L Metrics
  metrics st =
      let (rc, report, lib') = library.get_metrics st.lib st.handle in
      let st' = record st { lib = lib'; events = used st.handle ∷ st.events } in
      if rc == 0 then (report, st') else (raise runtime_error, st')

  -- `close`, which is `__exit__` and `__del__` too.
  unfoldable pub close : State L → State L
  close st = elim st.handle [
    | none ↦ st
    | some address ↦ record {
      lib = library.destroy st.lib (some address);
      handle = none;
      events = destroyed address ∷ st.events;
    }
  ]

  -- `with MemTierEmbeddingBag(…) as mt`, and the object's end.
  unfoldable pub with_bag : {R : Type 0} → String → Config → Action L R → Action L R
  unfolding init_bag close
  with_bag embedding_file config body st =
      let (r, opened) = init_bag embedding_file config st in
      elim r [
        | raise e ↦ (raise e, close opened)
        | ok _ ↦ (let (result, st') = body opened in (result, close (close st')))
      ]

  -- `for batch in batches`, from a batch on, with the batches left.
  unfoldable pub run_batches : Numpy → ℕ → Mode → Batches → ℕ → ℕ → Stats → Action L Stats
  unfolding forward
  run_batches np rows_per_block mode b i zero s = lift (ok s)
  run_batches np rows_per_block mode b i (suc left) s = lift (b.batch i) >>= λ batch.
      forward np rows_per_block batch mode >>= λ out.
      run_batches np rows_per_block mode b (i + 1) left (observe np rows_per_block batch s)

-- `--trace-file` with `--num-embeddings`, or the arguments of a synthetic trace.
pub data Input : Type 0 where
  trace_file : Source → Option ℕ → Input
  synthetic : Synthetic → Input

pub record Args : Type 0 where
  pub embedding_file : String
  pub embedding_dim : ℕ
  pub rows_per_block : ℕ
  pub dtype_size : ℕ
  pub dram_cache_bytes : ℕ
  pub hbm_cache_bytes : ℕ
  pub enable_gds : Bool
  pub enable_prefetch : Bool
  pub mode : Mode
  pub input : Input

-- The entries of the result that are not copies of the arguments or timings. A rate is the two
-- numbers that are divided; the reduction is 1 less the two.
pub record EmbeddingResult : Type 0 where
  pub num_embeddings : ℕ
  pub num_batches : ℕ
  pub hbm_hit_rate : ℕ × ℕ
  pub dram_hit_rate : ℕ × ℕ
  pub dram_cache_hit_rate : ℕ × ℕ
  pub ssd_read_bytes : ℕ
  pub dram_to_gpu_bytes : ℕ
  pub posix_reads : ℕ
  pub gds_reads : ℕ
  pub ssd_traffic_reduction : ℕ × ℕ
  pub counts : Summary

-- `if args.num_embeddings is None: args.num_embeddings = int(… or 0)`
unfoldable pub rows_of_table : Option ℕ → Metadata → ℕ
rows_of_table none m = value_of (or_else m.total_num_embeddings none)
rows_of_table (some n) m = n

module _ {F S : Type 0} (np : Numpy) (source : IdSource F S)
    (parse_row : List ℕ → Result (List ℕ)) where
  -- The batches and the number of rows of the table, of which none is refused.
  unfoldable pub open_input : Input → ℕ → Result (Batches × ℕ)
  unfolding rows_of_table
  open_input (trace_file path num_embeddings) rows_per_block =
      elim (init path (some rows_per_block)) [
        | raise e ↦ raise e
        | ok t ↦
            (let n = rows_of_table num_embeddings t.metadata in
              if n == 0 then raise value_error else ok (trace_batches parse_row t, n))
      ]
  open_input (synthetic a) rows_per_block = elim (synthetic_batches source a) [
    | raise e ↦ raise e
    | ok b ↦ if a.num_embeddings == 0 then raise value_error else ok (b, a.num_embeddings)
  ]

  unfoldable pub config_of : Args → ℕ → Config
  config_of args num_embeddings = record {
    num_embeddings = num_embeddings;
    embedding_dim = args.embedding_dim;
    rows_per_block = args.rows_per_block;
    dtype_size = args.dtype_size;
    dram_cache_bytes = args.dram_cache_bytes;
    hbm_cache_bytes = args.hbm_cache_bytes;
    enable_gds = args.enable_gds;
    enable_prefetch = args.enable_prefetch;
  }

  unfoldable pub entries_of : Args → Batches → ℕ → Stats → Metrics → Summary → EmbeddingResult
  entries_of args b num_embeddings s m counts =
      let posix = value_of m.posix_reads in
      let hbm = value_of m.hbm_hits in
      let dram = value_of m.dram_hits in
      let denom = max (hbm + dram + posix + value_of m.gds_reads) 1 in
      let ssd = value_of m.bytes_read_from_ssd in
      record {
        num_embeddings = num_embeddings;
        num_batches = b.num_batches;
        hbm_hit_rate = (hbm, denom);
        dram_hit_rate = (dram, denom);
        dram_cache_hit_rate = (dram, max (dram + posix) 1);
        ssd_read_bytes = ssd;
        dram_to_gpu_bytes = value_of m.bytes_copied_dram_to_gpu;
        posix_reads = posix;
        gds_reads = value_of m.gds_reads;
        ssd_traffic_reduction = (
          ssd,
          max
              (length s.all_unique_blocks
                * args.rows_per_block
                * args.embedding_dim
                * args.dtype_size)
              1,
        );
        counts = counts;
      }

  unfoldable pub result_of : Args → Batches → ℕ → Stats → Metrics → Result EmbeddingResult
  unfolding entries_of
  result_of args b num_embeddings s m = elim (summary s) [
    | raise e ↦ raise e
    | ok counts ↦ ok (entries_of args b num_embeddings s m counts)
  ]

  module _ {L : Type 0} (library : Library L) where
    -- The body of the `with` statement.
    unfoldable pub run_body : Args → Batches → Action L (Stats × Metrics)
    unfolding run_batches metrics
    run_body args b =
        run_batches library np args.rows_per_block args.mode b 0 b.num_batches no_stats >>= λ s.
        metrics library >>= λ m. lift (ok (s, m))

    unfoldable pub run : Args → Action L EmbeddingResult
    unfolding open_input config_of result_of with_bag run_body
    run args = lift (open_input args.input args.rows_per_block) >>= λ opened.
        with_bag library args.embedding_file (config_of args opened.1) (run_body args opened.0)
        >>= λ out. lift (result_of args opened.0 opened.1 out.0 out.1)
