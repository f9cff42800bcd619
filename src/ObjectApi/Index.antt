-- ===== src/ObjectApi/Index.antt =====
-- `MemTierDataset` of python/memtier/dataset.py, over an index file that is given by its lines. The hints
-- are stored and passed on, but `load_tensor` does not read them: they are not modelled. An index of
-- a sample is not negative.
pub mod Printed
use mem_tier_gds.Base.{
  ℕ, zero, suc, ◌+◌, Bool, List, [], ◌∷◌, Option, none, some, if◌then◌else◌, Result, ok, raise,
  ◌>>=◌, line_error, at_index,
}
use mem_tier_gds.Base.Integer.{ℤ, pos, negsuc}
use mem_tier_gds.Base.Text.{Text, is_empty, strip, split_words}
use mem_tier_gds.Criteo.Sizes.{int}
use mem_tier_gds.ObjectApi.Runtime.{Library, Action, after}
use mem_tier_gds.ObjectApi.Tensor.{Dtype, Loaded, LoadArgs, NumpyRead, load_tensor}

pub record Sample : Type 0 where
  pub sid : ℤ
  pub path : Text
  pub off : ℕ
  pub size : ℕ
  pub label : ℤ

-- `off < 0 or size <= 0` is refused with the number of the line.
unfoldable pub check_range : ℕ → ℤ → ℤ → Result (ℕ × ℕ)
check_range lineno (negsuc n) size = raise (line_error lineno)
check_range lineno (pos off) (negsuc n) = raise (line_error lineno)
check_range lineno (pos off) (pos zero) = raise (line_error lineno)
check_range lineno (pos off) (pos (suc n)) = ok (off, suc n)

-- The numbers of a line, of which `path` is known.
unfoldable pub sample_of : ℕ → Text → Text → Text → Text → Text → Result Sample
unfolding check_range
sample_of lineno sid path off size label = do
  off' ← int off
  size' ← int size
  (o, s) ← check_range lineno off' size'
  sid' ← int sid
  label' ← int label
  ok (record { sid = sid'; path = path; off = o; size = s; label = label' })

-- The parts of a line: five, or four with the path of the data file.
unfoldable pub parse_parts : Option Text → ℕ → List Text → Result Sample
unfolding sample_of
parse_parts data_file lineno (sid ∷ path ∷ off ∷ size ∷ label ∷ []) =
    sample_of lineno sid path off size label
parse_parts none lineno (sid ∷ off ∷ size ∷ label ∷ []) = raise (line_error lineno)
parse_parts (some path) lineno (sid ∷ off ∷ size ∷ label ∷ []) =
    if is_empty path then raise (line_error lineno) else sample_of lineno sid path off size label
parse_parts data_file lineno parts = raise (line_error lineno)

-- `_parse_index`, from the line of number `lineno` on.
unfoldable pub parse_index : Option Text → ℕ → List Text → Result (List Sample)
unfolding parse_parts
parse_index data_file lineno [] = ok []
parse_index data_file lineno (line ∷ lines) =
    let rest = parse_index data_file (lineno + 1) lines in
    if is_empty (strip line) then rest else (do
      sample ← parse_parts data_file lineno (split_words (strip line))
      samples ← rest
      ok (sample ∷ samples))

-- The fields that are read; `transform` is a function on what is loaded, if one is given.
pub record MemTierDataset : Type 0 where
  pub on_cuda : Option Bool
  pub dtype : Dtype
  pub shape : Option (List ℕ)
  pub transform : Option (Loaded → Result Loaded)
  pub return_label : Bool
  pub samples : List Sample

-- The arguments of `load_tensor` for a sample.
unfoldable pub args_of : MemTierDataset → Sample → LoadArgs
args_of d s = record {
  path = s.path;
  offset = s.off;
  nbytes = elim d.shape as (λ _. Option ℕ) [ none ↦ some s.size | some dims ↦ none ];
  shape = d.shape;
  dtype = d.dtype;
  on_cuda = d.on_cuda;
}

-- `__len__` counts the samples; `__getitem__` loads one.
module _ {C : Type 0} (library : Library C) (has_torch : Bool) (numpy : NumpyRead) where
  -- The transformed sample, with its label if labels are returned.
  unfoldable pub transformed : MemTierDataset → ℤ → Loaded → Result (Loaded × Option ℤ)
  transformed d label sample = do
    sample' ← elim d.transform as (λ _. Result Loaded) [ none ↦ ok sample | some f ↦ f sample ]
    ok (sample', if d.return_label then some label else none)

  unfoldable pub getitem : MemTierDataset → ℕ → Action C (Loaded × Option ℤ)
  unfolding transformed args_of
  getitem d idx st =
      after (at_index d.samples idx, st)
        (λ s st1.
          after (load_tensor library has_torch numpy (args_of d s) st1)
            (λ sample st2. (transformed d s.label sample, st2)))
