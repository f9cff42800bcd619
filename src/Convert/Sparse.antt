-- ===== src/Convert/Sparse.antt =====
-- `detect_format` and `load_sparse` of memtier_embedding_bench/scripts/convert_dlrm_trace.py, over what
-- stands in the file. An id is a number of 64 bits.
use Prim.Native.String.{String}
use text.Mathlib.Text.{◌==◌ as str_eq}
use mem_tier_gds.Base.{
  ℕ, zero, suc, ◌+◌, ◌&&◌, List, [], ◌∷◌, map, flatten, Option, none, some, ◌≡◌, leb, if◌then◌else◌,
  take, IsRectangular, Result, ok, raise, ◌>>=◌, value_error,
}
use mem_tier_gds.Base.Text.{Text, is_empty, strip}
use mem_tier_gds.Trace.{truthy, value_of}

pub data Format : Type 0 where
  npy_format : Format
  npz_format : Format
  jsonl_format : Format
  auto : Format
  other_format : Format

-- The suffixes that are looked for, in lower case.
pub data Suffix : Type 0 where
  npy_suffix : Suffix
  npz_suffix : Suffix
  jsonl_suffix : Suffix
  no_known_suffix : Suffix

unfoldable pub detect_format : Suffix → Format → Result Format
detect_format npy_suffix auto = ok npy_format
detect_format npz_suffix auto = ok npz_format
detect_format jsonl_suffix auto = ok jsonl_format
detect_format no_known_suffix auto = raise value_error
detect_format suffix npy_format = ok npy_format
detect_format suffix npz_format = ok npz_format
detect_format suffix jsonl_format = ok jsonl_format
detect_format suffix other_format = ok other_format

-- An array of ids by its number of axes, with the size of the last of two or three axes.
pub data Sparse : Type 0 where
  vector : List ℕ → Sparse
  table : ℕ → List (List ℕ) → Sparse
  cube : ℕ → List (List (List ℕ)) → Sparse
  other_axes : Sparse

-- The entries of a line's object that are looked for.
pub record Row : Type 0 where
  pub sparse_ids : Option (List ℕ)
  pub ids : Option (List ℕ)
  pub sparse : Option (List ℕ)

-- What the file is read as in each format, and `json.loads` of a line.
pub record Input : Type 0 where
  pub suffix : Suffix
  pub npy : Result Sparse
  pub npz : Result (List (String × Sparse))
  pub lines : List Text
  pub loads : Text → Result Row

-- `np.asarray` of rows of which some may be missing.
pub record Arrays : Type 0 where
  pub asarray : List (Option (List ℕ)) → Result Sparse
  pub asarray_table :
      (width : ℕ) (row : List ℕ) (rows : List (List ℕ))
      → IsRectangular width (row ∷ rows)
      → asarray (map some (row ∷ rows)) ≡ ok (table width (row ∷ rows))

abbrev key_candidates : List String
key_candidates = "sparse_ids" ∷ "sparse" ∷ "X_cat" ∷ "cat" ∷ "lS_i" ∷ "indices" ∷ []

-- `data[k]`, if there is one
unfoldable member_of : List (String × Sparse) → String → Option Sparse
member_of [] k = none
member_of ((name, array) ∷ data') k =
    let rest = member_of data' k in if str_eq name k then some array else rest

-- `next((k for k in KEY_CANDIDATES if k in data), None)` and its member.
unfoldable first_member : List (String × Sparse) → List String → Result Sparse
unfolding member_of
first_member data' [] = raise value_error
first_member data' (k ∷ keys) = elim (member_of data' k) [
  | none ↦ first_member data' keys
  | some array ↦ ok array
]

-- `x or y`, where an empty list and `None` are false.
abbrev or_list : Option (List ℕ) → Option (List ℕ) → Option (List ℕ)
or_list none y = y
or_list (some []) y = y
or_list (some (i ∷ ids)) y = some (i ∷ ids)

-- The loop over the lines, with the rows that are found already.
unfoldable pub jsonl_rows :
    (Text → Result Row) → Option ℕ → ℕ → List Text → Result (List (Option (List ℕ)))
jsonl_rows loads max_samples count [] = ok []
jsonl_rows loads max_samples count (line ∷ lines) =
    let skipped = jsonl_rows loads max_samples count lines in
    let later = jsonl_rows loads max_samples (count + 1) lines in
    if is_empty (strip line) then skipped else (do
      row ← loads line
      rest ← if truthy max_samples && leb (value_of max_samples) (count + 1) then ok [] else later
      ok (or_list row.sparse_ids (or_list row.ids row.sparse) ∷ rest))

-- The array of two axes, with its width.
unfoldable pub reshaped : Sparse → Result (ℕ × List (List ℕ))
reshaped (vector ids) = ok (1, map (λ i. i ∷ []) ids)
reshaped (table width rows) = ok (width, rows)
reshaped (cube width planes) = ok (width, flatten planes)
reshaped other_axes = raise value_error

-- `arr[:max_samples]`
abbrev pub limited {ℓ} : {A : Type ℓ} → Option ℕ → List A → List A
limited none rows = rows
limited (some zero) rows = rows
limited (some (suc n)) rows = take (suc n) rows

unfoldable pub load_array : Arrays → Input → Format → Option ℕ → Result Sparse
unfolding first_member jsonl_rows
load_array arrays input npy_format max_samples = input.npy
load_array arrays input npz_format max_samples = do
  data' ← input.npz
  first_member data' key_candidates
load_array arrays input jsonl_format max_samples = do
  rows ← jsonl_rows input.loads max_samples 0 input.lines
  arrays.asarray rows
load_array arrays input auto max_samples = raise value_error
load_array arrays input other_format max_samples = raise value_error

unfoldable pub load_sparse : Arrays → Input → Format → Option ℕ → Result (ℕ × List (List ℕ))
unfolding load_array reshaped
load_sparse arrays input format max_samples = do
  arr ← load_array arrays input format max_samples
  (width, rows) ← reshaped arr
  ok (width, limited max_samples rows)
