-- ===== src/ObjectApi/Runtime.antt =====
-- The global runtime of python/memtier/_ctypes.py. The C library is a parameter with a state; the two
-- globals `_lib` and `_ctx` are fields of the state, which also comes back after a raise.
use mem_tier_gds.Base.{
  ℕ, ◌+◌, ◌/◌, ◌%◌, Bool, true, false, List, [], ◌∷◌, map, Option, none, some, ◌==◌, leb, ◌&&◌,
  if◌then◌else◌, Result, ok, raise, value_error, runtime_error,
}
use mem_tier_gds.Base.Text.{Text, codes, same_text}

-- The return codes that are told apart.
pub data Code : Type 0 where
  memtier_ok : Code
  err_unsupported : Code
  other_code : Code

pub data Target : Type 0 where
  target_cpu : Target
  target_gpu : Target

-- The functions of libmemtier.so by the library's state: whether the file can be loaded, a new context,
-- the end of a context, and the bytes that a read puts at the given address.
pub record Library (C : Type 0) : Type 0 where
  pub loads : C → Bool
  pub memtier_init : C → Code × ℕ × C
  pub memtier_finalize : C → ℕ → C
  pub memtier_read : C → ℕ → Text → ℕ → ℕ → Target → Code × List ℕ × C

-- The calls that concern a context.
pub data Event : Type 0 where
  opened : ℕ → Event
  used : ℕ → Event
  finalized : ℕ → Event

-- `_lib` is not `None` if `loaded`. The events are listed with the last one first.
pub record State (C : Type 0) : Type 0 where
  pub c : C
  pub loaded : Bool
  pub ctx : Option ℕ
  pub events : List Event

abbrev pub Action : Type 0 → Type 0 → Type 0
Action C R = State C → Result R × State C

-- What follows a call, by its outcome.
unfoldable pub after : {C R Q : Type 0} → Result R × State C → (R → Action C Q) → Result Q × State C
after (ok a, st) next = next a st
after (raise e, st) next = (raise e, st)

abbrev pub is_ok : Code → Bool
is_ok memtier_ok = true
is_ok err_unsupported = false
is_ok other_code = false

module _ {C : Type 0} (library : Library C) where
  -- `if _lib is None: _lib = _Lib()`
  unfoldable pub load_lib : Action C (Unit {0})
  load_lib st =
      if st.loaded
      then (ok tt, st)
      else if library.loads st.c
      then (ok tt, record st { loaded = true })
      else (raise runtime_error, st)

  unfoldable pub init_ctx : Action C ℕ
  init_ctx st =
      let (rc, out, c') = library.memtier_init st.c in
      if is_ok rc
      then (ok out, record st { c = c'; ctx = some out; events = opened out ∷ st.events })
      else (raise runtime_error, record st { c = c' })

  -- `if _ctx is None`, by the context that there is.
  unfoldable pub ensure_ctx : Option ℕ → Action C ℕ
  unfolding init_ctx
  ensure_ctx none st = init_ctx st
  ensure_ctx (some h) st = (ok h, st)

  unfoldable pub get_runtime : Action C ℕ
  unfolding load_lib ensure_ctx after
  get_runtime st = after (load_lib st) (λ _ st'. ensure_ctx st'.ctx st')

  -- `if _ctx is not None`, by the context that there is.
  unfoldable pub finalize_ctx : Option ℕ → State C → State C
  finalize_ctx none st = st
  finalize_ctx (some h) st = record st {
    c = library.memtier_finalize st.c h;
    ctx = none;
    events = finalized h ∷ st.events;
  }

  unfoldable pub close_runtime : State C → State C
  unfolding finalize_ctx
  close_runtime st = finalize_ctx st.ctx st

-- The names of `HINTS`, in the order of their bits.
abbrev pub hint_names : List Text
hint_names = map codes (
    "reuse" ∷ "small_io" ∷ "random" ∷ "streaming" ∷ "checkpoint" ∷ "sequential"
    ∷ "latency_sensitive" ∷ [])

-- `h.lower()`, of ASCII text.
unfoldable pub lower : Text → Text
lower [] = []
lower (c ∷ s) = (if leb 65 c && leb c 90 then c + 32 else c) ∷ lower s

-- `HINTS[k]`, from a bit on.
unfoldable pub hint_bit : Text → ℕ → List Text → Result ℕ
unfolding same_text
hint_bit k bit [] = raise value_error
hint_bit k bit (name ∷ names) =
    let rest = hint_bit k (bit + bit) names in if same_text k name then ok bit else rest

-- `m | bit`, for a power of two.
abbrev pub set_bit : ℕ → ℕ → ℕ
set_bit m bit = if (m / bit) % 2 == 1 then m else m + bit

-- The loop, with the mask so far.
unfoldable pub mask_from : ℕ → List Text → Result ℕ
unfolding hint_bit lower
mask_from m [] = ok m
mask_from m (h ∷ hints) = elim (hint_bit (lower h) 1 hint_names) [
  | raise e ↦ raise e
  | ok bit ↦ mask_from (set_bit m bit) hints
]

unfoldable pub hints_to_mask : List Text → Result ℕ
unfolding mask_from
hints_to_mask hints = mask_from 0 hints
