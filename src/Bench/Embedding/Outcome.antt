-- ===== src/Bench/Embedding/Outcome.antt =====
-- A run over a library that works, and what it counts.
use Prim.Native.String.{String}
use mem_tier_gds.Base.{
  ℕ, zero, suc, ◌+◌, ◌/◌, ◌<◌, true, ◌++◌, flatten, contains, contains-append, List, [], some, ◌≡◌,
  ◌≢◌, refl, ap, sym, ◌∙◌, arith, length, drop, drop_of_length-le, map, Result, ok,
}
use mem_tier_gds.Base.Numpy.{Numpy}
use mem_tier_gds.Workload.{IdSource, ids_to_blocks}
use mem_tier_gds.Trace.{value_of}
use mem_tier_gds.Trace.Mismatch.{drop_at}
use mem_tier_gds.Bench.{Batches, Stats, no_stats, observe, summary}
use mem_tier_gds.Bench.Counted.{observe_all, summary_total}
use mem_tier_gds.Bench.Staging.Reads.{Yields, reads_of}
use mem_tier_gds.Bench.Staging.Outcome.{block_read}
use mem_tier_gds.Bench.Embedding.{
  Config, Metrics, Library, State, Action, lift, ◌>>=◌, Mode, kept_bits, lookup_blocks, check_mode,
  sum_mode, mean_mode, other_mode, Forward, forward, looked_up, metrics, with_bag, run_batches,
  run_body, Args, open_input, config_of, entries_of, result_of, EmbeddingResult, run,
}
use mem_tier_gds.Bench.Embedding.Lifecycle.{fresh, opened_at, with_bag_opened}

-- In one state the library opens one file with one configuration, and as long as that handle is
-- open, its lookups of blocks below a bound and its reports succeed.
pub record IsWorking {L : Type 0} (library : Library L) (IsOpen : L → ℕ → Type 0) (lib : L)
    (file : String) (c : Config) (bound : ℕ) : Type 0 where
  pub opens :
      (h : ℕ) × ((library.init_embedding lib file c).0 ≡ some h)
      × IsOpen (library.init_embedding lib file c).1 h
  pub looks_up :
      (now : L) (h : ℕ) (blocks : List ℕ)
      → IsOpen now h
      → ((x : ℕ) → contains x blocks ≡ true → x < bound)
      → ((library.lookup_blocks now (some h) blocks).0 ≡ 0)
        × IsOpen (library.lookup_blocks now (some h) blocks).3 h
  pub reports :
      (now : L) (h : ℕ)
      → IsOpen now h
      → ((library.get_metrics now (some h)).0 ≡ 0)
        × ((m : Metrics) × ((library.get_metrics now (some h)).1 ≡ ok m))
        × IsOpen (library.get_metrics now (some h)).2 h

module _ {L : Type 0} (IsOpen : L → ℕ → Type 0) where
  -- The object has an open handle.
  Holds : ℕ → State L → Type 0
  Holds h st = (st.handle ≡ some h) × IsOpen st.lib h

  -- On an open handle the action returns a value of the kind `P`, and the handle stays open.
  Works : {R : Type 0} → ℕ → Action L R → (R → Type 0) → Type 0
  Works {R} h action P =
      (st : State L) → Holds h st → (a : R) × ((action st).0 ≡ ok a) × P a × Holds h (action st).1

  bind_ok :
      {R Q : Type 0} (m : Action L R) (next : R → Action L Q) (st : State L) (a : R)
      → (m st).0 ≡ ok a
      → (m >>= next) st ≡ next a (m st).1
  bind_ok m next st a e = ap (λ r. ◌>>=◌ (λ _. (r, (m st).1)) next st) e

  bind-Works :
      {R Q : Type 0} (h : ℕ) (m : Action L R) (next : R → Action L Q) (P : R → Type 0)
      (P' : Q → Type 0)
      → Works h m P
      → ((a : R) → P a → Works h (next a) P')
      → Works h (m >>= next) P'
  unfolding Works Holds
  bind-Works h m next P P' works later st o =
      let (a, e, p, held) = works st o in rw (bind_ok m next st a e) (later a p (m st).1 held)

module _ {L : Type 0} (library : Library L) (IsOpen : L → ℕ → Type 0) (lib : L) (file : String)
    (c : Config) (bound : ℕ) (working : IsWorking library IsOpen lib file c bound) (h : ℕ) where
  AllBelow : List ℕ → Type 0
  AllBelow blocks = (x : ℕ) → contains x blocks ≡ true → x < bound

  lookup-Works :
      (blocks : List ℕ)
      → AllBelow blocks
      → Works IsOpen h (lookup_blocks library blocks) (λ _. Unit)
  unfolding Works Holds lookup_blocks AllBelow
  lookup-Works blocks served st (held, there) =
      let answer = library.lookup_blocks st.lib (some h) blocks in
      let (succeeds, kept) = working.looks_up st.lib h blocks there served in
      rw (held, succeeds) ((map value_of answer.1, answer.2), refl, tt, (refl, kept))

  metrics-Works : Works IsOpen h (metrics library) (λ _. Unit)
  unfolding Works Holds metrics
  metrics-Works st (held, there) =
      let (succeeds, (m, e), kept) = working.reports st.lib h there in
      rw (held, succeeds) (m, e, tt, (refl, kept))

  forward-Works :
      (np : Numpy) (rows_per_block : ℕ) (ids : List ℕ) (mode : Mode)
      → mode ≢ other_mode
      → AllBelow (ids_to_blocks np rows_per_block ids)
      → Works IsOpen h (forward library np rows_per_block ids mode) (λ _. Unit)
  unfolding Works forward check_mode
  forward-Works np per ids other_mode ne served st o = absurd (ne refl)
  forward-Works np per ids sum_mode ne served st o =
      let blocks = ids_to_blocks np per ids in
      bind-Works IsOpen h (lookup_blocks library blocks) (looked_up (length blocks)) (λ _. Unit)
        (λ _. Unit) (lookup-Works blocks served)
        (λ found _ st' o'. (
          record { num_blocks = length blocks; paths = found.1; device_ptrs = found.0 },
          refl,
          tt,
          o',
        ))
        st o
  forward-Works np per ids mean_mode ne served st o =
      let blocks = ids_to_blocks np per ids in
      bind-Works IsOpen h (lookup_blocks library blocks) (looked_up (length blocks)) (λ _. Unit)
        (λ _. Unit) (lookup-Works blocks served)
        (λ found _ st' o'. (
          record { num_blocks = length blocks; paths = found.1; device_ptrs = found.0 },
          refl,
          tt,
          o',
        ))
        st o

  run_batches-Works :
      (np : Numpy) (rows_per_block : ℕ) (mode : Mode)
      → mode ≢ other_mode
      → (b : Batches) (l : List (List ℕ)) → Yields b l
      → (i left : ℕ) (s : Stats) → i + left ≡ length l
      → AllBelow (reads_of np rows_per_block (drop i l))
      → Works IsOpen h
          (run_batches library np rows_per_block mode b i left s)
          (λ r. r ≡ observe_all np rows_per_block (drop i l) s)
  unfolding Works run_batches observe_all AllBelow reads_of
  run_batches-Works np per mode ne b l yields i zero s e served st o =
      let past : drop i l ≡ [] = drop_of_length-le i l (omega (arith, e)) in
      (s, refl, rw past refl, o)
  run_batches-Works np per mode ne b l yields i (suc left) s e served st o =
      let (batch, here, rest) = drop_at l i (omega (arith, e)) in
      let blocks = ids_to_blocks np per batch in
      let later_blocks = reads_of np per (drop (i + 1) l) in
      let split = λ (x : ℕ). contains-append x blocks later_blocks in
      let all : AllBelow (blocks ++ later_blocks) = rw rest at served in
      let later : Forward → Action L Stats =
        λ out. run_batches library np per mode b (i + 1) left (observe np per batch s) in
      rw (yields.found i batch here, rest)
        (bind-Works IsOpen h (forward library np per batch mode) later (λ _. Unit)
          (λ r. r ≡ observe_all np per (drop (i + 1) l) (observe np per batch s))
          (forward-Works np per batch mode ne (λ x m. all x (ground (arith, m, split x))))
          (λ out _.
            run_batches-Works np per mode ne b l yields (i + 1) left (observe np per batch s)
              (omega (arith, e)) (λ x m. all x (ground (arith, m, split x))))
          st o)

  run_body-Works :
      {F S : Type 0} (np : Numpy) (source : IdSource F S) (parse_row : List ℕ → Result (List ℕ))
      (args : Args) (b : Batches) (l : List (List ℕ))
      → args.mode ≢ other_mode
      → Yields b l
      → AllBelow (reads_of np args.rows_per_block l)
      → Works IsOpen h
          (run_body np source parse_row library args b)
          (λ out. out.0 ≡ observe_all np args.rows_per_block l no_stats)
  unfolding Works run_body
  run_body-Works np source parse_row args b l ne yields served =
      let whole = observe_all np args.rows_per_block l no_stats in
      let pair : Stats → Metrics → Action L (Stats × Metrics) = λ s m. lift (ok (s, m)) in
      let read : Stats → Action L (Stats × Metrics) = λ s. metrics library >>= pair s in
      bind-Works IsOpen h
        (run_batches library np args.rows_per_block args.mode b 0 b.num_batches no_stats) read
        (λ s. s ≡ whole) (λ out. out.0 ≡ whole)
        (run_batches-Works np args.rows_per_block args.mode ne b l yields 0 b.num_batches no_stats
          (omega (arith, yields.count)) served)
        (λ s e.
          bind-Works IsOpen h (metrics library) (pair s) (λ _. Unit) (λ out. out.0 ≡ whole)
            metrics-Works (λ m _ st o. ((s, m), refl, e, o)))

-- The result of the counts after all batches.
result_of_lem :
    {F S : Type 0} (np : Numpy) (source : IdSource F S) (parse_row : List ℕ → Result (List ℕ))
    (args : Args) (b : Batches) (rows : ℕ) (l : List (List ℕ)) (out : Stats × Metrics)
    → b.num_batches ≡ length l
    → out.0 ≡ observe_all np args.rows_per_block l no_stats
    → (result : EmbeddingResult) × (result_of np source parse_row args b rows out.0 out.1
        ≡ ok result)
      × (summary (observe_all np args.rows_per_block l no_stats) ≡ ok result.counts)
      × (result.num_batches ≡ length l)
      × (result.num_embeddings ≡ rows)
unfolding result_of entries_of
result_of_lem np source parse_row args b rows l out count counted =
    let (counts, summed) = summary_total out.0 in
    (
      entries_of np source parse_row args b rows out.0 out.1 counts,
      rw (result_of, summed) refl,
      ap summary (sym counted) ∙ summed,
      count,
      refl,
    )

module _ {F S L : Type 0} (np : Numpy) (source : IdSource F S)
    (parse_row : List ℕ → Result (List ℕ)) (library : Library L) (args : Args) (lib : L)
    (b : Batches) (rows : ℕ) (l : List (List ℕ)) where
  -- If the library works for the embedding file with the run's configuration and for blocks below a
  -- bound, the pooling mode is one of the two, the input can be opened, its batches are all found
  -- and each id is in a block below the bound, the run returns a result: its counts are those of the
  -- batches, and it has the number of batches and of rows of the table.
  pub run_working :
      (IsOpen : L → ℕ → Type 0) (bound : ℕ)
      → IsWorking library IsOpen lib args.embedding_file
          (kept_bits (config_of np source parse_row args rows))
          bound
      → args.mode ≢ other_mode
      → open_input np source parse_row args.input args.rows_per_block ≡ ok (b, rows)
      → Yields b l
      → ((i : ℕ) → contains i (flatten l) ≡ true → i / args.rows_per_block < bound)
      → (out : EmbeddingResult) × ((run np source parse_row library args (fresh library lib)).0
          ≡ ok out)
        × (summary (observe_all np args.rows_per_block l no_stats) ≡ ok out.counts)
        × (out.num_batches ≡ length l)
        × (out.num_embeddings ≡ rows)
  unfolding run Works Holds AllBelow result_of
  run_working IsOpen bound working ne opened yields served =
      let c = config_of np source parse_row args rows in
      let body = run_body np source parse_row library args b in
      let (h, made, there) = working.opens in
      let blocks_below : (x : ℕ)
          → contains x (reads_of np args.rows_per_block l) ≡ true
          → x < bound =
        λ x m.
          let (i, held, e) = block_read np args.rows_per_block x l m in rw (← e) (served i held) in
      let (out, e, counted, held) =
        run_body-Works library IsOpen lib args.embedding_file (kept_bits c) bound working h np
          source parse_row args b l ne yields blocks_below
          (opened_at library args.embedding_file c body lib h) (refl, there) in
      let next : Stats × Metrics → Action L EmbeddingResult =
        λ o. lift (result_of np source parse_row args b rows o.0 o.1) in
      let bagged =
        ap (λ p. p.0) (with_bag_opened library args.embedding_file c body lib h made) ∙ e in
      let chain =
        bind_ok IsOpen (with_bag library args.embedding_file c body) next (fresh library lib) out
          bagged in
      let (result, total, same, size, table) =
        result_of_lem np source parse_row args b rows l out yields.count counted in
      rw opened (result, ap (λ p. p.0) chain ∙ total, same, size, table)
