-- ===== src/Bench/Torch.antt =====
-- `run` of memtier_embedding_bench/python/baseline_torch_embedding.py: the table in a
-- `torch.nn.EmbeddingBag`. What PyTorch does is a parameter with a state.
pub mod Bags
pub mod Outcome
use mem_tier_gds.Base.{
  ℕ, zero, suc, ◌+◌, ◌-◌, ◌*◌, ◌/◌, ◌%◌, ◌^◌, max, Bool, true, false, not, List, [], ◌∷◌, ◌++◌, map,
  flatten, Option, none, some, ◌==◌, if◌then◌else◌, length, sum, Result, ok, raise, refuse,
  value_error, runtime_error, ceil_div, gather,
}
use mem_tier_gds.Base.Action.{Action, after, ◌>>=◌, ◌>>◌, lift}
use mem_tier_gds.Trace.{Array, vector, matrix, cube}
use mem_tier_gds.Workload.{Dist, Ratio, IdSource, generate_ids, mean}
use mem_tier_gds.Analyze.Percentile.{fifty, ninety_five, percentile}

pub data Mode : Type 0 where
  sum_mode : Mode
  mean_mode : Mode

-- `torch.cuda` and a monotonic clock in picoseconds; the construction of the bag by the rows, the
-- columns, the mode and whether the numbers are halves; a tensor of ids on the device; and the call of the bag
-- with ids and offsets, of which the last is where the ids end.
pub record Gpu (W : Type 0) : Type 0 where
  pub is_available : Bool
  pub embedding_bag : ℕ → ℕ → Mode → Bool → Action W (Unit {0})
  pub as_tensor : List ℕ → Action W (Unit {0})
  pub synchronize : Action W (Unit {0})
  pub perf_counter : W → ℕ × W
  pub forward : ℕ → List ℕ → List ℕ → Action W (Unit {0})

-- The command line; of the trace file, the array that `np.load` reads.
pub record Args : Type 0 where
  pub trace : Option (Result Array)
  pub num_embeddings : ℕ
  pub embedding_dim : ℕ
  pub dtype_size : ℕ
  pub batch_size : ℕ
  pub bag_size : ℕ
  pub num_batches : ℕ
  pub dist : Dist
  pub overlap_ratio : Ratio
  pub seed : ℕ
  pub mode : Mode

-- The entries of the result that are not copies of the arguments or constants; a quotient is the two
-- numbers that are divided, and the times are in picoseconds.
pub record TorchResult : Type 0 where
  pub num_batches : ℕ
  pub avg_latency : ℕ × ℕ
  pub p50_latency : ℕ
  pub p95_latency : ℕ
  pub throughput_lookups_per_sec : ℕ × ℕ

-- `for batch in trace`: a batch that is no list of ids is one that the bag does not take with offsets.
abbrev pub batches_of : Array → List (Option (List ℕ))
batches_of (vector ids) = map (λ i. none) ids
batches_of (matrix width rows) = map some rows
batches_of (cube planes) = map (λ plane. none) planes

-- `trace.size`
abbrev pub size_of : Array → ℕ
size_of (vector ids) = length ids
size_of (matrix width rows) = length rows * width
size_of (cube planes) = length (flatten (flatten planes))

-- The array of a trace that was generated.
abbrev pub array_of : ℕ → ℕ → Result (List (List ℕ)) → Result Array
array_of batch_size bag_size (raise e) = raise e
array_of batch_size bag_size (ok rows) = ok (matrix (batch_size * bag_size) rows)

-- `torch.arange(0, end, step)`
unfoldable pub torch_arange : ℕ → ℕ → Result (List ℕ)
torch_arange end zero = raise runtime_error
torch_arange end (suc step) =
    ok (map (λ i. i * suc step) (gather (λ i. i) 0 (ceil_div end (suc step))))

-- `batch % np.uint64(num_embeddings)`
unfoldable pub ids_of : ℕ → List ℕ → List ℕ
ids_of num_embeddings batch = map (λ i. i % num_embeddings) batch

abbrev pub entries_with : ℕ → ℕ → List ℕ → ℕ → ℕ → TorchResult
entries_with num_batches size latencies p50 p95 = record {
  num_batches = num_batches;
  avg_latency = mean latencies;
  p50_latency = p50;
  p95_latency = p95;
  throughput_lookups_per_sec = (size * 10 ^ 12, max (sum latencies) 1);
}

module _ {W : Type 0} (gpu : Gpu W) where
  abbrev clock : Action W ℕ
  clock w = let (now, w') = gpu.perf_counter w in (ok now, w')

  -- The body of the loop: the time that the lookup takes.
  unfoldable pub look_up : ℕ → List ℕ → Option (List ℕ) → Action W ℕ
  unfolding ids_of
  look_up num_embeddings offsets none = lift (raise value_error)
  look_up num_embeddings offsets (some batch) = do
    let ids = ids_of num_embeddings batch
    gpu.as_tensor ids
    gpu.synchronize
    start ← clock
    gpu.forward num_embeddings ids offsets
    gpu.synchronize
    end ← clock
    lift (ok (end - start))

  unfoldable pub look_up_all : ℕ → List ℕ → List (Option (List ℕ)) → Action W (List ℕ)
  unfolding look_up
  look_up_all num_embeddings offsets [] = lift (ok [])
  look_up_all num_embeddings offsets (batch ∷ batches) = do
    latency ← look_up num_embeddings offsets batch
    latencies ← look_up_all num_embeddings offsets batches
    lift (ok (latency ∷ latencies))

  -- The result of so many batches of so many ids.
  unfoldable pub result_of : ℕ → ℕ → List ℕ → Action W TorchResult
  result_of num_batches size latencies = do
    p50 ← lift (percentile latencies fifty)
    p95 ← lift (percentile latencies ninety_five)
    lift (ok (entries_with num_batches size latencies p50 p95))

  module _ {F S : Type 0} (source : IdSource F S) where
    -- `np.load(args.trace) if args.trace else generate_ids(…)`
    unfoldable pub open_trace : Args → Option (Result Array) → Result Array
    open_trace args (some array) = array
    open_trace args none = array_of args.batch_size args.bag_size (
        generate_ids source args.dist args.num_embeddings args.batch_size args.bag_size
          args.num_batches args.overlap_ratio args.seed)

    unfoldable pub run : Args → Action W TorchResult
    unfolding open_trace torch_arange look_up_all result_of
    run args = do
      lift (refuse (not gpu.is_available) runtime_error)
      trace ← lift (open_trace args args.trace)
      gpu.embedding_bag args.num_embeddings args.embedding_dim args.mode (args.dtype_size == 2)
      offsets ← lift (torch_arange (args.batch_size * args.bag_size + 1) args.bag_size)
      latencies ← look_up_all args.num_embeddings offsets (batches_of trace)
      result_of (length (batches_of trace)) (size_of trace) latencies
