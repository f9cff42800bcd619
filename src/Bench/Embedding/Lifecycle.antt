-- ===== src/Bench/Embedding/Lifecycle.antt =====
-- The life of the library's handle in a run.
use Prim.Native.String.{String}
use mem_tier_gds.Base.{
  ℕ, zero, suc, ◌+◌, List, [], ◌∷◌, ◌++◌, Option, none, some, ◌==◌, ◌≡◌, ◌⊎◌, inl, inr, refl, ap,
  ◌∙◌, length, Bool-cases, Option-cases, Result-cases, All, Result, ok, raise, runtime_error,
}
use mem_tier_gds.Base.Numpy.{Numpy}
use mem_tier_gds.Workload.{IdSource, ids_to_blocks}
use mem_tier_gds.Bench.{Batches, Stats, no_stats, observe}
use mem_tier_gds.Bench.Embedding.{
  Config, Metrics, Library, Event, created, used, destroyed, State, Action, lift, ◌>>=◌, Mode,
  kept_bits, init_bag, lookup_blocks, check_mode, sum_mode, mean_mode, other_mode, Forward, forward,
  looked_up, metrics, close, with_bag, run_batches, run_body, Args, open_input, config_of,
  result_of, run,
}

-- Uses of one open handle.
abbrev pub AllUsed : ℕ → List Event → Type 0
AllUsed h = All (λ e. e ≡ used (some h))

module _ {L : Type 0} where
  -- The handle is open: it was created, and since then only used.
  pub record IsOpen (h : ℕ) (st : State L) : Type 0 where
    pub held : st.handle ≡ some h
    pub uses : List Event
    pub only_used : AllUsed h uses
    pub history : st.events ≡ uses ++ created h ∷ []

  -- A handle that was created is destroyed, and it was only used in between.
  pub record IsClosed (h : ℕ) (st : State L) : Type 0 where
    pub uses : List Event
    pub only_used : AllUsed h uses
    pub dropped : st.handle ≡ none
    pub history : st.events ≡ destroyed h ∷ (uses ++ created h ∷ [])

  -- What an action does to an open handle.
  Keeps : {R : Type 0} → ℕ → Action L R → Type 0
  Keeps h action = (st : State L) → IsOpen h st → IsOpen h (action st).1

  bound :
      {R Q : Type 0} (h : ℕ) (r : Result R) (st : State L) (next : R → Action L Q)
      → IsOpen h st
      → ((a : R) → Keeps h (next a))
      → IsOpen h (◌>>=◌ (λ st'. (r, st')) next st).1
  unfolding Keeps
  bound h (ok a) st next o kn = kn a st o
  bound h (raise e) st next o kn = o

  bind-Keeps :
      {R Q : Type 0} (h : ℕ) (m : Action L R) (next : R → Action L Q)
      → Keeps h m
      → ((r : R) → Keeps h (next r))
      → Keeps h (m >>= next)
  unfolding Keeps
  bind-Keeps h m next km kn st o = bound h (m st).0 (m st).1 next (km st o) kn

  -- One more use of the handle.
  use-IsOpen :
      (h : ℕ) (st : State L) (lib' : L)
      → IsOpen h st
      → IsOpen h (record st { lib = lib'; events = used st.handle ∷ st.events })
  use-IsOpen h st lib' o = record {
    held = o.held;
    uses = used st.handle ∷ o.uses;
    only_used = (ap used o.held, o.only_used);
    history = ap (◌∷◌ (used st.handle)) o.history;
  }

module _ {L : Type 0} (library : Library L) (h : ℕ) where
  lookup_blocks-Keeps : (blocks : List ℕ) → Keeps h (lookup_blocks library blocks)
  unfolding Keeps lookup_blocks
  lookup_blocks-Keeps blocks st o =
      let answer = library.lookup_blocks st.lib st.handle blocks in
      elim (Bool-cases (answer.0 == 0)) [
        | inl done ↦ rw done (use-IsOpen h st answer.3 o)
        | inr failed ↦ rw failed (use-IsOpen h st answer.3 o)
      ]

  metrics-Keeps : Keeps h (metrics library)
  unfolding Keeps metrics
  metrics-Keeps st o =
      let answer = library.get_metrics st.lib st.handle in
      elim (Bool-cases (answer.0 == 0)) [
        | inl done ↦ rw done (use-IsOpen h st answer.2 o)
        | inr failed ↦ rw failed (use-IsOpen h st answer.2 o)
      ]

  lookup-Keeps :
      (blocks : List ℕ) → Keeps h (lookup_blocks library blocks >>= looked_up (length blocks))
  unfolding Keeps
  lookup-Keeps blocks =
      bind-Keeps h (lookup_blocks library blocks) (looked_up (length blocks))
        (lookup_blocks-Keeps blocks) (λ found st o. o)

  forward-Keeps :
      (np : Numpy) (rows_per_block : ℕ) (ids : List ℕ) (mode : Mode)
      → Keeps h (forward library np rows_per_block ids mode)
  unfolding Keeps forward check_mode
  forward-Keeps np per ids other_mode st o = o
  forward-Keeps np per ids sum_mode st o = lookup-Keeps (ids_to_blocks np per ids) st o
  forward-Keeps np per ids mean_mode st o = lookup-Keeps (ids_to_blocks np per ids) st o

  run_batches-Keeps :
      (np : Numpy) (rows_per_block : ℕ) (mode : Mode) (b : Batches) (i left : ℕ) (s : Stats)
      → Keeps h (run_batches library np rows_per_block mode b i left s)
  unfolding Keeps run_batches
  run_batches-Keeps np per mode b i zero s st o = o
  run_batches-Keeps np per mode b i (suc left) s st o =
      let later : List ℕ → Forward → Action L Stats =
        λ batch out. run_batches library np per mode b (i + 1) left (observe np per batch s) in
      bound h (b.batch i) st (λ batch. forward library np per batch mode >>= later batch) o
        (λ batch.
          bind-Keeps h (forward library np per batch mode) (later batch)
            (forward-Keeps np per batch mode)
            (λ out. run_batches-Keeps np per mode b (i + 1) left (observe np per batch s)))

  run_body-Keeps :
      {F S : Type 0} (np : Numpy) (source : IdSource F S) (parse_row : List ℕ → Result (List ℕ))
      (args : Args) (b : Batches)
      → Keeps h (run_body np source parse_row library args b)
  unfolding Keeps run_body
  run_body-Keeps np source parse_row args b =
      let pair : Stats → Metrics → Action L (Stats × Metrics) = λ s m. lift (ok (s, m)) in
      let read : Stats → Action L (Stats × Metrics) = λ s. metrics library >>= pair s in
      bind-Keeps h (run_batches library np args.rows_per_block args.mode b 0 b.num_batches no_stats)
        read (run_batches-Keeps np args.rows_per_block args.mode b 0 b.num_batches no_stats)
        (λ s. bind-Keeps h (metrics library) (pair s) metrics-Keeps (λ m st o. o))

  close_open :
      (st : State L)
      → st.handle ≡ some h
      → close library (close library st) ≡ record {
        lib = library.destroy st.lib (some h);
        handle = none;
        events = destroyed h ∷ st.events;
      }
  unfolding close
  close_open st e = rw e refl

  close-IsClosed : (st : State L) → IsOpen h st → IsClosed h (close library (close library st))
  close-IsClosed st o = rw (close_open st o.held) (record {
    uses = o.uses;
    only_used = o.only_used;
    dropped = refl;
    history = ap (◌∷◌ (destroyed h)) o.history;
  })

-- No handle is left behind: none was created, or one was, and it is destroyed.
unfoldable pub IsReleased : {L : Type 0} → State L → Type 0
IsReleased st = ((st.handle ≡ none) × (st.events ≡ [])) ⊎ ((h : ℕ) × IsClosed h st)

module _ {L : Type 0} (library : Library L) where
  -- A fresh process.
  abbrev pub fresh : L → State L
  fresh lib = record { lib = lib; handle = none; events = [] }

  module _ {R : Type 0} (file : String) (c : Config) (body : Action L R) (lib : L) where
    abbrev pub answer : Option ℕ × L
    answer = library.init_embedding lib file (kept_bits c)

    -- The state in which the body starts.
    abbrev pub opened_at : ℕ → State L
    opened_at h = record { lib = answer.1; handle = some h; events = created h ∷ [] }

    init_failed :
        answer.0 ≡ none
        → init_bag library file c (fresh lib)
          ≡ (raise runtime_error, record { lib = answer.1; handle = none; events = [] })
    unfolding init_bag
    init_failed e = rw (init_bag, e) refl

    init_opened :
        (h : ℕ) → answer.0 ≡ some h → init_bag library file c (fresh lib) ≡ (ok tt, opened_at h)
    unfolding init_bag
    init_opened h e = rw (init_bag, e) refl

    -- What `with_bag` does with the outcome of the constructor.
    entered : Result (Unit {0}) × State L → Result R × State L
    entered (raise e, opened) = (raise e, close library opened)
    entered (ok _, opened) = ((body opened).0, close library (close library (body opened).1))

    elim-entered :
        (p : Result (Unit {0}) × State L)
        → (elim p.0 as (λ _. Result R × State L) [
          | raise e ↦ (raise e, close library p.1)
          | ok _ ↦ ((body p.1).0, close library (close library (body p.1).1))
        ])
          ≡ entered p
    unfolding entered
    elim-entered (raise e, st) = refl
    elim-entered (ok u, st) = refl

    with_bag-entered :
        with_bag library file c body (fresh lib) ≡ entered (init_bag library file c (fresh lib))
    unfolding with_bag
    with_bag-entered = elim-entered (init_bag library file c (fresh lib))

    with_bag_failed :
        answer.0 ≡ none
        → with_bag library file c body (fresh lib)
          ≡ (raise runtime_error, record { lib = answer.1; handle = none; events = [] })
    unfolding entered close
    with_bag_failed e = with_bag-entered ∙ ap entered (init_failed e)

    pub with_bag_opened :
        (h : ℕ)
        → answer.0 ≡ some h
        → with_bag library file c body (fresh lib)
          ≡ ((body (opened_at h)).0, close library (close library (body (opened_at h)).1))
    unfolding entered
    with_bag_opened h e = with_bag-entered ∙ ap entered (init_opened h e)

    with_bag-IsReleased :
        ((h : ℕ) → Keeps h body) → IsReleased (with_bag library file c body (fresh lib)).1
    unfolding IsReleased Keeps
    with_bag-IsReleased keeps = elim (Option-cases answer.0) [
      | inl failed ↦ rw (with_bag_failed failed) (inl (refl, refl))
      | inr (h, opened) ↦ rw (with_bag_opened h opened) (
          inr (
            h,
            close-IsClosed library h (body (opened_at h)).1 (
                keeps h (opened_at h)
                  (record { held = refl; uses = []; only_used = tt; history = refl })),
          ))
    ]

-- A computation after an action leaves the state as it is.
then_lift-IsReleased :
    {L R Q : Type 0} (out : Result R × State L) (next : R → Result Q)
    → IsReleased out.1
    → IsReleased
        (elim out.0 as (λ _. Result Q × State L) [
          | ok r ↦ (next r, out.1)
          | raise e ↦ (raise e, out.1)
        ]).1
then_lift-IsReleased (ok r, st) next released = released
then_lift-IsReleased (raise e, st) next released = released

module _ {F S L : Type 0} (np : Numpy) (source : IdSource F S)
    (parse_row : List ℕ → Result (List ℕ)) (library : Library L) (args : Args) (lib : L) where
  -- Whatever the library answers, and whether the run returns or raises: the run leaves no handle.
  -- Either no handle was created, or one was; then it is destroyed, once and as the last call, and
  -- between the two calls that handle alone is used.
  pub run-IsReleased : IsReleased (run np source parse_row library args (fresh library lib)).1
  unfolding run IsReleased
  run-IsReleased =
      elim (Result-cases (open_input np source parse_row args.input args.rows_per_block)) [
        | inl (opened, e) ↦ rw e (
            let c = config_of np source parse_row args opened.1 in
            let body = run_body np source parse_row library args opened.0 in
            then_lift-IsReleased (with_bag library args.embedding_file c body (fresh library lib))
              (λ out. result_of np source parse_row args opened.0 opened.1 out.0 out.1)
              (with_bag-IsReleased library args.embedding_file c body lib
                (λ h. run_body-Keeps library h np source parse_row args opened.0)))
        | inr (failure, e) ↦ rw e (inl (refl, refl))
      ]
