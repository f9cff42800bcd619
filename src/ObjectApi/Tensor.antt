-- ===== src/ObjectApi/Tensor.antt =====
-- `read_into_tensor` and `load_tensor` of python/memtier/tensor.py. A tensor is what the functions ask of
-- it and the bytes that it gets; whether PyTorch and NumPy are there is
-- given, and NumPy's reading of a buffer is a parameter. Sizes and offsets are not
-- negative.
use mem_tier_gds.Base.{
  ℕ, ◌*◌, ◌%◌, ◌^◌, Bool, true, not, List, [], ◌∷◌, Option, none, some, if◌then◌else◌, Result, ok,
  raise, value_error, runtime_error, type_error,
}
use mem_tier_gds.Base.Text.{Text}
use mem_tier_gds.ObjectApi.Runtime.{
  Target, target_cpu, target_gpu, Library, used, Action, after, is_ok, get_runtime,
}

pub data Dtype : Type 0 where
  uint8 : Dtype
  int32 : Dtype
  float16 : Dtype
  float32 : Dtype
  other_dtype : Dtype

-- `_DTYPE_SIZE`
unfoldable pub dtype_size : Dtype → Result ℕ
dtype_size uint8 = ok 1
dtype_size int32 = ok 4
dtype_size float16 = ok 2
dtype_size float32 = ok 4
dtype_size other_dtype = raise value_error

-- `_numel`
unfoldable pub numel : List ℕ → ℕ
numel [] = 1
numel (d ∷ shape) = d * numel shape

-- What is asked of the argument `tensor`.
pub record TensorArg : Type 0 where
  pub is_tensor : Bool
  pub is_contiguous : Bool
  pub is_cuda : Bool
  pub nbytes : ℕ

-- What is returned: a tensor, an array, or bytes, with the elements as bytes.
pub data Loaded : Type 0 where
  tensor : Dtype → List ℕ → List ℕ → Loaded
  array : Dtype → List ℕ → List ℕ → Loaded
  raw : List ℕ → Loaded

pub record LoadArgs : Type 0 where
  pub path : Text
  pub offset : ℕ
  pub nbytes : Option ℕ
  pub shape : Option (List ℕ)
  pub dtype : Dtype
  -- Whether `device` is a CUDA device; `none` for `device=None`.
  pub on_cuda : Option Bool

-- `nbytes`, where it is not given.
unfoldable pub nbytes_of : Option ℕ → Option (List ℕ) → ℕ → Result ℕ
unfolding numel
nbytes_of (some n) shape size = ok n
nbytes_of none none size = raise value_error
nbytes_of none (some shape) size = ok (numel shape * size)

-- `torch.empty(out_shape, dtype=t_dtype)`: its element type, shape and bytes.
unfoldable pub empty_of : Option (List ℕ) → Dtype → ℕ → ℕ → Dtype × List ℕ × ℕ
unfolding numel
empty_of none dtype size nbytes = (uint8, nbytes ∷ [], nbytes)
empty_of (some shape) dtype size nbytes = (dtype, shape, numel shape * size)

-- `np.frombuffer`, and `reshape` where a shape is given, if NumPy is there.
abbrev pub NumpyRead : Type 0
NumpyRead = Option (Option (List ℕ) → Dtype → List ℕ → Result Loaded)

abbrev pub as_loaded : NumpyRead → LoadArgs → List ℕ → Result Loaded
as_loaded none a bytes = ok (raw bytes)
as_loaded (some as_array) a bytes = as_array a.shape a.dtype bytes

-- `device`, where it is not given.
abbrev pub device_of : Bool → Option Bool → Bool
device_of has_torch none = has_torch
device_of has_torch (some on_cuda) = on_cuda

module _ {C : Type 0} (library : Library C) where
  -- `memtier_read` on a context, and the test of its return code.
  unfoldable pub read_ctx : Text → ℕ → ℕ → Target → ℕ → Action C (List ℕ)
  read_ctx path offset nbytes target ctx st =
      let (rc, bytes, c') =
        library.memtier_read st.c ctx path (offset % 2 ^ 64) (nbytes % 2 ^ 64) target in
      let st' = record st { c = c'; events = used ctx ∷ st.events } in
      if is_ok rc then (ok bytes, st') else (raise runtime_error, st')

  -- A read of bytes with the runtime.
  unfoldable pub read_bytes : Text → ℕ → ℕ → Target → Action C (List ℕ)
  unfolding read_ctx
  read_bytes path offset nbytes target st =
      after (get_runtime library st) (read_ctx path offset nbytes target)

  unfoldable pub read_into_tensor : Bool → Text → ℕ → TensorArg → Action C (List ℕ)
  unfolding read_bytes
  read_into_tensor has_torch path offset t st =
      if not has_torch
      then (raise type_error, st)
      else if not t.is_tensor
      then (raise type_error, st)
      else if not t.is_contiguous
      then (raise value_error, st)
      else read_bytes path offset t.nbytes (if t.is_cuda then target_gpu else target_cpu) st

  -- The part that needs PyTorch.
  unfoldable pub load_torch : LoadArgs → Bool → ℕ → ℕ → Action C Loaded
  unfolding read_into_tensor empty_of
  load_torch a on_cuda size nbytes st =
      let (dtype, shape, total) = empty_of a.shape a.dtype size nbytes in
      after
        (read_into_tensor true a.path a.offset
          (record { is_tensor = true; is_contiguous = true; is_cuda = on_cuda; nbytes = total }) st)
        (λ bytes st'. (ok (tensor dtype shape bytes), st'))

  -- The part without PyTorch.
  unfoldable pub load_cpu : NumpyRead → LoadArgs → Bool → ℕ → Action C Loaded
  unfolding read_bytes
  load_cpu numpy a on_cuda nbytes st =
      if on_cuda
      then (raise runtime_error, st)
      else after (read_bytes a.path a.offset nbytes target_cpu st)
          (λ bytes st'. (as_loaded numpy a bytes, st'))

  unfoldable pub load_tensor : Bool → NumpyRead → LoadArgs → Action C Loaded
  unfolding dtype_size nbytes_of load_torch load_cpu
  load_tensor has_torch numpy a st =
      after (dtype_size a.dtype, st)
        (λ size st1.
          after (nbytes_of a.nbytes a.shape size, st1)
            (λ nbytes st2.
              if has_torch
              then load_torch a (device_of has_torch a.on_cuda) size nbytes st2
              else load_cpu numpy a (device_of has_torch a.on_cuda) nbytes st2))
