-- ===== src/Trace.antt =====
-- `EmbeddingTrace` of memtier_embedding_bench/python/trace_reader.py, over arrays and a file whose
-- contents are given. A batch index is a number: the callers take it from `range(num_batches)`.
pub mod Blocks
pub mod Coverage
pub mod Lines
pub mod Mismatch
pub mod Savez
pub mod Synthetic
pub mod Unread
use Prim.Native.String.{String}
use text.Mathlib.Text.{◌==◌ as str_eq}
use mem_tier_gds.Base.{
  ℕ, zero, suc, ◌+◌, ◌-◌, ◌*◌, ◌/◌, ◌<◌, min, Bool, true, false, not, ◌&&◌, ◌||◌, List, [], ◌∷◌,
  ◌++◌, map, flatten, Option, none, some, ltb, leb, ◌==◌, if◌then◌else◌, length, get_elem?, take,
  drop, Result, ok, raise, ◌>>=◌, ◌>>◌, refuse, value_error, index_error, ceil_div, slice, at_index,
}
use mem_tier_gds.Base.Numpy.{Numpy}

-- A NumPy array of ids by its number of axes. The width is `shape[1]`, which an array of no rows
-- has too.
pub data Array : Type 0 where
  vector : List ℕ → Array
  matrix : ℕ → List (List ℕ) → Array
  cube : List (List (List ℕ)) → Array

-- The entries of the metadata that are read; `none` for a missing key.
pub record Metadata : Type 0 where
  pub batch_size : Option ℕ
  pub bag_size : Option ℕ
  pub num_fields : Option ℕ
  pub rows_per_block : Option ℕ
  pub trace_layout : Option String
  pub total_num_embeddings : Option ℕ

abbrev pub no_metadata : Metadata
no_metadata = record {
  batch_size = none;
  bag_size = none;
  num_fields = none;
  rows_per_block = none;
  trace_layout = none;
  total_num_embeddings = none;
}

-- What stands at the path, by its suffix: the members of an `.npz`, the array and the sidecar of a
-- `.npy`, the bytes of a `.jsonl`.
pub data Source : Type 0 where
  npz : Option Metadata → Option Array → Option Array → Source
  npy : Array → Option Metadata → Source
  jsonl : List ℕ → Source
  other_suffix : Source

pub record EmbeddingTrace : Type 0 where
  pub file : List ℕ
  pub rows_per_block : Option ℕ
  pub metadata : Metadata
  pub jsonl_offsets : Option (List ℕ)
  pub ids : Option Array
  pub block_ids : Option Array

-- `x or y`, where 0 and `None` are false.
abbrev pub or_else : Option ℕ → Option ℕ → Option ℕ
or_else none y = y
or_else (some zero) y = y
or_else (some (suc n)) y = some (suc n)

-- Whether a number is there and not 0.
abbrev pub truthy : Option ℕ → Bool
truthy none = false
truthy (some n) = not (n == 0)

abbrev pub value_of : Option ℕ → ℕ
value_of none = 0
value_of (some n) = n

-- The bytes that `bytes.strip` removes.
pub is_space : ℕ → Bool
is_space c = if c == 32 then true else leb 9 c && leb c 13

-- `bool(line.strip())`
pub has_text : List ℕ → Bool
unfolding is_space
has_text [] = false
has_text (c ∷ cs) = if is_space c then has_text cs else true

-- The lines of a binary file, each with its newline: the first line, and the rest.
pub split_line : List ℕ → List ℕ × List ℕ
split_line [] = ([], [])
split_line (c ∷ cs) =
    let (line, rest) = split_line cs in if c == 10 then (c ∷ [], cs) else (c ∷ line, rest)

-- `_index_jsonl`, on so many lines as there is fuel for; every line takes a byte at least.
pub index_lines : ℕ → ℕ → List ℕ → List ℕ
index_lines zero offset file = []
index_lines (suc fuel) offset [] = []
index_lines (suc fuel) offset (c ∷ cs) =
    let line = (split_line (c ∷ cs)).0 in
    let rest = index_lines fuel (offset + length line) (split_line (c ∷ cs)).1 in
    if has_text line then offset ∷ rest else rest

unfoldable pub index_jsonl : List ℕ → List ℕ
unfolding index_lines split_line has_text
index_jsonl file = index_lines (length file) 0 file

unfoldable pub with_default : Option Metadata → Metadata
with_default none = no_metadata
with_default (some m) = m

-- `if self.rows_per_block is None: … int(self.metadata.get("rows_per_block", 0) or 0) or None`
unfoldable pub choose_rows : Option ℕ → Metadata → Option ℕ
choose_rows (some n) m = some n
choose_rows none m = or_else m.rows_per_block none

unfoldable pub init : Source → Option ℕ → Result EmbeddingTrace
unfolding with_default choose_rows index_jsonl
init (npz meta ids block_ids) rows = ok (record {
  file = [];
  rows_per_block = choose_rows rows (with_default meta);
  metadata = with_default meta;
  jsonl_offsets = none;
  ids = ids;
  block_ids = block_ids;
})
init (npy array meta) rows = ok (record {
  file = [];
  rows_per_block = choose_rows rows (with_default meta);
  metadata = with_default meta;
  jsonl_offsets = none;
  ids = some array;
  block_ids = none;
})
init (jsonl file) rows = ok (record {
  file = file;
  rows_per_block = choose_rows rows no_metadata;
  metadata = no_metadata;
  jsonl_offsets = some (index_jsonl file);
  ids = none;
  block_ids = none;
})
init other_suffix rows = raise value_error

abbrev pub batch_size : EmbeddingTrace → Option ℕ
batch_size t = t.metadata.batch_size

abbrev pub bag_size : EmbeddingTrace → Option ℕ
bag_size t = or_else t.metadata.bag_size t.metadata.num_fields

-- `self.metadata.get("trace_layout") == "samples_by_fields"`
abbrev pub is_samples_by_fields : EmbeddingTrace → Bool
is_samples_by_fields t = elim t.metadata.trace_layout [
  | none ↦ false
  | some layout ↦ str_eq layout "samples_by_fields"
]

-- `self.bag_size and array.shape[1] == self.bag_size and self.batch_size`
unfoldable pub is_bagged : EmbeddingTrace → ℕ → Bool
is_bagged t width = truthy (bag_size t) && (width == value_of (bag_size t) && truthy (batch_size t))

pub batches_of : EmbeddingTrace → Array → ℕ
unfolding is_bagged
batches_of t (vector ids) = 1
batches_of t (matrix width rows) =
    if is_samples_by_fields t && truthy (batch_size t)
    then ceil_div (length rows) (value_of (batch_size t))
    else if is_bagged t width
    then ceil_div (length rows) (value_of (batch_size t))
    else length rows
batches_of t (cube planes) =
    if is_samples_by_fields t && truthy (batch_size t)
    then ceil_div (length planes) (value_of (batch_size t))
    else length planes

unfoldable pub num_batches : EmbeddingTrace → ℕ
unfolding batches_of
num_batches t = elim t.jsonl_offsets [
  | some offsets ↦ length offsets
  | none ↦ elim t.ids [ none ↦ 0 | some array ↦ batches_of t array ]
]

pub batch_from_array : EmbeddingTrace → Array → ℕ → Result (List ℕ)
unfolding is_bagged
batch_from_array t (vector ids) i = if i == 0 then ok ids else raise index_error
batch_from_array t (matrix width rows) i =
    if is_bagged t width
    then (let start = i * value_of (batch_size t) in
        let end = min (length rows) (start + value_of (batch_size t)) in
        ok (flatten (slice start end rows)))
    else at_index rows i
batch_from_array t (cube planes) i = do plane ← at_index planes i; ok (flatten plane)

-- The first line of a text file: a newline, a carriage return or both end it, and it is returned with
-- a newline.
pub text_line : List ℕ → List ℕ
text_line [] = []
text_line (c ∷ cs) = let rest = text_line cs in if c == 10 || c == 13 then 10 ∷ [] else c ∷ rest

-- `f.readline()` after `f.seek(offset)`, of a file that is opened as text, by the bytes of the line.
pub read_line_at : List ℕ → ℕ → List ℕ
unfolding text_line
read_line_at file offset = text_line (drop offset file)

-- `parse_row` is `json.loads` of a line with the choice of its ids.
pub get_batch_ids : (List ℕ → Result (List ℕ)) → EmbeddingTrace → ℕ → Result (List ℕ)
unfolding batch_from_array read_line_at
get_batch_ids parse_row t i =
    if leb (num_batches t) i then raise index_error else elim t.jsonl_offsets [
      | some offsets ↦ do offset ← at_index offsets i; parse_row (read_line_at t.file offset)
      | none ↦ elim t.ids [ none ↦ raise value_error | some array ↦ batch_from_array t array i ]
    ]

pub get_batch_block_ids : Numpy → (List ℕ → Result (List ℕ)) → EmbeddingTrace → ℕ → Result (List ℕ)
unfolding get_batch_ids
get_batch_block_ids np parse_row t i = elim t.block_ids [
  | some blocks ↦ do b ← batch_from_array t blocks i; ok (np.unique b)
  | none ↦ if not (truthy t.rows_per_block) then raise value_error else (do
    ids ← get_batch_ids parse_row t i
    ok (np.unique (map (λ x. x / value_of t.rows_per_block) ids)))
]

-- `for idx in range(…): yield f(idx)`, from `idx` on: the batches, up to the first that raises.
pub collect : (ℕ → Result (List ℕ)) → ℕ → ℕ → Result (List (List ℕ))
collect f i zero = ok []
collect f i (suc left) = do batch ← f i; rest ← collect f (i + 1) left; ok (batch ∷ rest)

pub iter_batches : (List ℕ → Result (List ℕ)) → EmbeddingTrace → Result (List (List ℕ))
unfolding collect
iter_batches parse_row t = collect (get_batch_ids parse_row t) 0 (num_batches t)

pub iter_block_batches :
    Numpy → (List ℕ → Result (List ℕ)) → EmbeddingTrace → Result (List (List ℕ))
unfolding collect
iter_block_batches np parse_row t = collect (get_batch_block_ids np parse_row t) 0 (num_batches t)
