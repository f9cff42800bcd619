-- ===== src/Criteo/Line.antt =====
-- `parse_criteo_line` and `iter_criteo_rows` of memtier_embedding_bench/python/criteo_trace_dataset.py.
pub mod Joined
pub mod Rows
use mem_tier_gds.Base.{
  ℕ, zero, suc, ◌+◌, ◌-◌, ◌≤◌, ◌<◌, Bool, true, false, not, ◌||◌, List, [], ◌∷◌, ◌++◌, Option, none,
  some, ◌==◌, ltb, if◌then◌else◌, length, take, drop, replicate, Result, ok, raise, ◌>>=◌,
  value_error,
}
use mem_tier_gds.Base.Integer.{ℤ}
use mem_tier_gds.Base.Text.{Text, is_empty, rstrip_if, strip, split_on, split_words, parse_int}

unfoldable pub default_num_dense : ℕ
default_num_dense = 13

-- `"\t" in line`
unfoldable pub has_tab : Text → Bool
has_tab [] = false
has_tab (c ∷ s) = (c == 9) || has_tab s

-- `line.split("\t") if "\t" in line else line.split()`, of the line without its newlines
unfoldable pub parts_of : Text → List Text
unfolding has_tab rstrip_if
parts_of raw =
    let line = rstrip_if (λ c. c == 10) raw in
    if has_tab line then split_on 9 line else split_words line

-- `cats.extend([""] * (num_fields - len(cats)))`, if they are fewer
unfoldable pub pad : ℕ → List Text → List Text
pad num_fields cats =
    if ltb (length cats) num_fields then cats ++ replicate (num_fields - length cats) [] else cats

-- The label and the categories of given parts.
unfoldable pub row_of_parts : List Text → ℕ → Result (Option ℤ × List Text)
unfolding pad default_num_dense
row_of_parts [] num_fields = raise value_error
row_of_parts (label ∷ dense) num_fields =
    let cat_start = 1 + default_num_dense in
    let cats = pad num_fields (take num_fields (drop cat_start (label ∷ dense))) in
    ok (parse_int label, take num_fields cats)

unfoldable pub parse_criteo_line : Text → ℕ → Result (Option ℤ × List Text)
unfolding parts_of row_of_parts
parse_criteo_line line num_fields = row_of_parts (parts_of line) num_fields

-- The rows of the lines of one file.
unfoldable pub rows_of_file : List Text → ℕ → Result (List (Option ℤ × List Text))
unfolding parse_criteo_line strip
rows_of_file [] num_fields = ok []
rows_of_file (line ∷ lines) num_fields =
    let rest = rows_of_file lines num_fields in
    if is_empty (strip line)
    then rest
    else (do row ← parse_criteo_line line num_fields; rows ← rest; ok (row ∷ rows))

-- Of several files, each given by its lines.
unfoldable pub iter_criteo_rows : List (List Text) → ℕ → Result (List (Option ℤ × List Text))
unfolding rows_of_file
iter_criteo_rows [] num_fields = ok []
iter_criteo_rows (file ∷ files) num_fields = do
  rows ← rows_of_file file num_fields
  rest ← iter_criteo_rows files num_fields
  ok (rows ++ rest)
