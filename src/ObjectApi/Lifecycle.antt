-- ===== src/ObjectApi/Lifecycle.antt =====
-- The life of the contexts of the runtime, over any calls of its functions.
use mem_tier_gds.Base.{
  ℕ, ◌%◌, ◌^◌, Bool, true, false, List, [], ◌∷◌, Option, none, some, if◌then◌else◌, ◌≡◌, inl, inr,
  refl, ◌∙◌, arith, Bool-cases, Result, ok, raise, at_index,
}
use mem_tier_gds.Base.Integer.{ℤ}
use mem_tier_gds.Base.Text.{Text}
use mem_tier_gds.ObjectApi.Runtime.{
  Target, target_cpu, target_gpu, Library, Event, opened, used, finalized, State, Action, after,
  is_ok, load_lib, init_ctx, ensure_ctx, get_runtime, finalize_ctx, close_runtime,
}
use mem_tier_gds.ObjectApi.Tensor.{
  TensorArg, Loaded, tensor, LoadArgs, NumpyRead, as_loaded, dtype_size, nbytes_of, empty_of,
  read_ctx, read_bytes, read_into_tensor, load_torch, load_cpu, device_of, load_tensor,
}
use mem_tier_gds.ObjectApi.Index.{Sample, MemTierDataset, args_of, transformed, getitem}

-- How events, the last one first, lead to a context: one is opened only when none is there, only the
-- context that is there is used or ended, and after its end none is there.
unfoldable pub LeadsTo : List Event → Option ℕ → Type 0
LeadsTo [] none = Unit
LeadsTo [] (some h) = ⊥
LeadsTo (opened h ∷ es) none = ⊥
LeadsTo (opened h ∷ es) (some k) = (h ≡ k) × LeadsTo es none
LeadsTo (used h ∷ es) none = ⊥
LeadsTo (used h ∷ es) (some k) = (h ≡ k) × LeadsTo es (some k)
LeadsTo (finalized h ∷ es) none = LeadsTo es (some h)
LeadsTo (finalized h ∷ es) (some k) = ⊥

module _ {C : Type 0} where
  -- The events are those of the context that is there.
  unfoldable pub IsSound : State C → Type 0
  IsSound st = LeadsTo st.events st.ctx

  Keeps : {R : Type 0} → Action C R → Type 0
  Keeps action = (st : State C) → IsSound st → IsSound (action st).1

  after-Keeps :
      {R Q : Type 0} (out : Result R × State C) (next : R → Action C Q)
      → IsSound out.1
      → ((a : R) → out.0 ≡ ok a → IsSound (next a out.1).1)
      → IsSound (after out next).1
  unfolding after
  after-Keeps (ok a, st) next sound kept = kept a refl
  after-Keeps (raise e, st) next sound kept = sound

module _ {C : Type 0} (library : Library C) where
  load_lib-Keeps : Keeps (load_lib library)
  unfolding Keeps load_lib IsSound
  load_lib-Keeps st sound = elim (Bool-cases st.loaded) [
    | inl there ↦ rw there sound
    | inr missing ↦ rw missing (elim (Bool-cases (library.loads st.c)) [
      | inl found ↦ rw found sound
      | inr failed ↦ rw failed sound
    ])
  ]

  -- If a context comes back, it is the one that is there.
  Gives : Result ℕ × State C → Type 0
  Gives out = IsSound out.1 × ((h : ℕ) → out.0 ≡ ok h → out.1.ctx ≡ some h)

  init_ctx-Gives : (st : State C) → st.ctx ≡ none → IsSound st → Gives (init_ctx library st)
  unfolding init_ctx IsSound Gives LeadsTo
  init_ctx-Gives st e sound =
      let answer = library.memtier_init st.c in
      elim (Bool-cases (is_ok answer.0)) [
        | inl done ↦ rw done ((refl, rw e at sound), λ h same. grind (arith, same))
        | inr failed ↦ rw failed (sound, λ h same. absurd (grind (arith, same)))
      ]

  ensure_ctx-Gives :
      (ctx : Option ℕ) (st : State C)
      → st.ctx ≡ ctx
      → IsSound st
      → Gives (ensure_ctx library ctx st)
  unfolding ensure_ctx Gives
  ensure_ctx-Gives none st e sound = init_ctx-Gives st e sound
  ensure_ctx-Gives (some h) st e sound = (sound, λ k same. e ∙ grind (arith, same))

  after_load-Gives :
      (out : Result (Unit {0}) × State C)
      → IsSound out.1
      → Gives (after out (λ _ st'. ensure_ctx library st'.ctx st'))
  unfolding after Gives
  after_load-Gives (ok u, st) sound = ensure_ctx-Gives st.ctx st refl sound
  after_load-Gives (raise e, st) sound = (sound, λ h same. absurd (grind (arith, same)))

  get_runtime-Gives : (st : State C) → IsSound st → Gives (get_runtime library st)
  unfolding get_runtime Keeps
  get_runtime-Gives st sound = after_load-Gives (load_lib library st) (load_lib-Keeps st sound)

  read_ctx-IsSound :
      (path : Text) (offset nbytes : ℕ) (target : Target) (h : ℕ) (st : State C)
      → st.ctx ≡ some h
      → IsSound st
      → IsSound (read_ctx library path offset nbytes target h st).1
  unfolding read_ctx IsSound LeadsTo
  read_ctx-IsSound path offset nbytes target h st e sound =
      let answer = library.memtier_read st.c h path (offset % 2 ^ 64) (nbytes % 2 ^ 64) target in
      elim (Bool-cases (is_ok answer.0)) [
        | inl done ↦ rw (done, e) (refl, rw e at sound)
        | inr failed ↦ rw (failed, e) (refl, rw e at sound)
      ]

  read_bytes-Keeps :
      (path : Text) (offset nbytes : ℕ) (target : Target)
      → Keeps (read_bytes library path offset nbytes target)
  unfolding Keeps read_bytes Gives
  read_bytes-Keeps path offset nbytes target st sound =
      let (kept, given) = get_runtime-Gives st sound in
      after-Keeps (get_runtime library st) (read_ctx library path offset nbytes target) kept (λ h e.
        read_ctx-IsSound path offset nbytes target h (get_runtime library st).1 (given h e) kept)

  read_into_tensor-Keeps :
      (has_torch : Bool) (path : Text) (offset : ℕ) (t : TensorArg)
      → Keeps (read_into_tensor library has_torch path offset t)
  unfolding Keeps read_into_tensor
  read_into_tensor-Keeps false path offset t st sound = sound
  read_into_tensor-Keeps true path offset t st sound = elim (Bool-cases t.is_tensor) [
    | inr other ↦ rw other sound
    | inl is ↦ rw is (elim (Bool-cases t.is_contiguous) [
      | inr scattered ↦ rw scattered sound
      | inl whole ↦ rw whole (
          read_bytes-Keeps path offset t.nbytes (if t.is_cuda then target_gpu else target_cpu) st
            sound)
    ])
  ]

  load_torch-Keeps :
      (a : LoadArgs) (on_cuda : Bool) (size nbytes : ℕ)
      → Keeps (load_torch library a on_cuda size nbytes)
  unfolding Keeps load_torch
  load_torch-Keeps a on_cuda size nbytes st sound =
      let (dtype, shape, total) = empty_of a.shape a.dtype size nbytes in
      let t : TensorArg = record {
        is_tensor = true;
        is_contiguous = true;
        is_cuda = on_cuda;
        nbytes = total;
      } in
      let done : List ℕ → Action C Loaded = λ bytes st'. (ok (tensor dtype shape bytes), st') in
      let kept = read_into_tensor-Keeps true a.path a.offset t st sound in
      after-Keeps (read_into_tensor library true a.path a.offset t st) done kept (λ bytes e. kept)

  load_cpu-Keeps :
      (numpy : NumpyRead) (a : LoadArgs) (on_cuda : Bool) (nbytes : ℕ)
      → Keeps (load_cpu library numpy a on_cuda nbytes)
  unfolding Keeps load_cpu
  load_cpu-Keeps numpy a true nbytes st sound = sound
  load_cpu-Keeps numpy a false nbytes st sound =
      let done : List ℕ → Action C Loaded = λ bytes st'. (as_loaded numpy a bytes, st') in
      let kept = read_bytes-Keeps a.path a.offset nbytes target_cpu st sound in
      after-Keeps (read_bytes library a.path a.offset nbytes target_cpu st) done kept
        (λ bytes e. kept)

  load_any-Keeps :
      (has_torch : Bool) (numpy : NumpyRead) (a : LoadArgs) (size nbytes : ℕ)
      → Keeps (λ st.
        if has_torch
        then load_torch library a (device_of has_torch a.on_cuda) size nbytes st
        else load_cpu library numpy a (device_of has_torch a.on_cuda) nbytes st)
  unfolding Keeps
  load_any-Keeps true numpy a size nbytes st sound =
      load_torch-Keeps a (device_of true a.on_cuda) size nbytes st sound
  load_any-Keeps false numpy a size nbytes st sound =
      load_cpu-Keeps numpy a (device_of false a.on_cuda) nbytes st sound

  load_tensor-Keeps :
      (has_torch : Bool) (numpy : NumpyRead) (a : LoadArgs)
      → Keeps (load_tensor library has_torch numpy a)
  unfolding Keeps load_tensor
  load_tensor-Keeps has_torch numpy a st sound =
      let load : ℕ → ℕ → Action C Loaded = λ size nbytes st'.
        if has_torch
        then load_torch library a (device_of has_torch a.on_cuda) size nbytes st'
        else load_cpu library numpy a (device_of has_torch a.on_cuda) nbytes st' in
      let sized : ℕ → Action C Loaded =
        λ size st1. after (nbytes_of a.nbytes a.shape size, st1) (load size) in
      after-Keeps (dtype_size a.dtype, st) sized sound
        (λ size e.
          after-Keeps (nbytes_of a.nbytes a.shape size, st) (load size) sound
            (λ nbytes e'. load_any-Keeps has_torch numpy a size nbytes st sound))

  getitem-Keeps :
      (has_torch : Bool) (numpy : NumpyRead) (d : MemTierDataset) (idx : ℕ)
      → Keeps (getitem library has_torch numpy d idx)
  unfolding Keeps getitem
  getitem-Keeps has_torch numpy d idx st sound =
      let done : Sample → Action C (Loaded × Option ℤ) = λ s st1.
        after (load_tensor library has_torch numpy (args_of d s) st1)
          (λ sample st2. (transformed library has_torch numpy d s.label sample, st2)) in
      after-Keeps (at_index d.samples idx, st) done sound
        (λ s e.
          let loaded = load_tensor-Keeps has_torch numpy (args_of d s) st sound in
          after-Keeps (load_tensor library has_torch numpy (args_of d s) st)
            (λ sample st2. (transformed library has_torch numpy d s.label sample, st2)) loaded
            (λ sample e'. loaded))

  finalize_ctx-IsSound :
      (ctx : Option ℕ) (st : State C)
      → st.ctx ≡ ctx
      → IsSound st
      → IsSound (finalize_ctx library ctx st) × ((finalize_ctx library ctx st).ctx ≡ none)
  unfolding finalize_ctx IsSound LeadsTo
  finalize_ctx-IsSound none st e sound = (sound, e)
  finalize_ctx-IsSound (some h) st e sound = (rw e at sound, refl)

-- The calls that a program makes; one that raises leaves the state to the next.
pub data Call : Type 0 where
  load : Bool → NumpyRead → LoadArgs → Call
  read_into : Bool → Text → ℕ → TensorArg → Call
  item : Bool → NumpyRead → MemTierDataset → ℕ → Call
  close : Call

module _ {C : Type 0} (library : Library C) where
  unfoldable pub run_call : Call → State C → State C
  run_call (load has_torch numpy a) st = (load_tensor library has_torch numpy a st).1
  run_call (read_into has_torch path offset t) st =
      (read_into_tensor library has_torch path offset t st).1
  run_call (item has_torch numpy d idx) st = (getitem library has_torch numpy d idx st).1
  run_call close st = close_runtime library st

  unfoldable pub run_calls : List Call → State C → State C
  unfolding run_call
  run_calls [] st = st
  run_calls (call ∷ calls) st = run_calls calls (run_call call st)

  run_call-IsSound : (call : Call) (st : State C) → IsSound st → IsSound (run_call call st)
  unfolding run_call close_runtime Keeps
  run_call-IsSound (load has_torch numpy a) st sound =
      load_tensor-Keeps library has_torch numpy a st sound
  run_call-IsSound (read_into has_torch path offset t) st sound =
      read_into_tensor-Keeps library has_torch path offset t st sound
  run_call-IsSound (item has_torch numpy d idx) st sound =
      getitem-Keeps library has_torch numpy d idx st sound
  run_call-IsSound close st sound = (finalize_ctx-IsSound library st.ctx st refl sound).0

  run_calls-IsSound : (calls : List Call) (st : State C) → IsSound st → IsSound (run_calls calls st)
  unfolding run_calls
  run_calls-IsSound [] st sound = sound
  run_calls-IsSound (call ∷ calls) st sound =
      run_calls-IsSound calls (run_call call st) (run_call-IsSound call st sound)

  -- The state of a fresh process.
  abbrev pub fresh : C → State C
  fresh c = record { c = c; loaded = false; ctx = none; events = [] }

  -- Whatever the library answers, and whichever calls a process makes, also after calls that raised:
  -- a context is opened only when none is there, only the one that is there is read with or ended,
  -- none is ended twice; and once the runtime is closed none is there.
  pub runtime_lem :
      (calls : List Call) (c : C)
      → LeadsTo (run_calls calls (fresh c)).events (run_calls calls (fresh c)).ctx
        × ((close_runtime library (run_calls calls (fresh c))).ctx ≡ none)
  unfolding LeadsTo IsSound close_runtime
  runtime_lem calls c =
      let st = run_calls calls (fresh c) in
      let sound = run_calls-IsSound calls (fresh c) tt in
      (sound, (finalize_ctx-IsSound library st.ctx st refl sound).1)
