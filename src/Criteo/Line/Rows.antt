-- ===== src/Criteo/Line/Rows.antt =====
-- What the rows of `parse_criteo_line` hold.
use mem_tier_gds.Base.{
  ℕ, suc, ◌+◌, ◌-◌, ◌≤◌, Bool, true, false, not, ◌||◌, List, [], ◌∷◌, ◌++◌, Option, ◌≡◌, refl, ◌∙◌,
  ap, arith, ◌==◌, if◌then◌else◌, length, take, drop, replicate, length-take, length-append,
  length-replicate, All, All-append, map, sum, Result, ok, ◌>>=◌,
}
use mem_tier_gds.Base.Integer.{ℤ}
use mem_tier_gds.Base.Text.{
  Text, is_empty, strip, is_blank, lstrip, rstrip_if, split_on, split_words, split_blanks,
  drop_empty_parts, push_first, parse_int,
}
use mem_tier_gds.Criteo.Line.{
  parts_of, pad, row_of_parts, parse_criteo_line, rows_of_file, iter_criteo_rows, default_num_dense,
}

-- Whether a line has more than white space.
unfoldable pub has_word : Text → Bool
has_word [] = false
has_word (c ∷ s) = not (is_blank c) || has_word s

rstrip_blanks : (s : Text) → is_empty (rstrip_if is_blank s) ≡ not (has_word s)
unfolding rstrip_if has_word
rstrip_blanks [] = refl
rstrip_blanks (c ∷ s) = ground (arith, rstrip_blanks s)

has_word-lstrip : (s : Text) → has_word (lstrip s) ≡ has_word s
unfolding lstrip has_word
has_word-lstrip [] = refl
has_word-lstrip (c ∷ s) = ground (arith, has_word-lstrip s)

is_empty-strip : (s : Text) → is_empty (strip s) ≡ not (has_word s)
unfolding strip
is_empty-strip s = rstrip_blanks (lstrip s) ∙ ap not (has_word-lstrip s)

newline_blank : (c : ℕ) → (c == 10) ≡ true → is_blank c ≡ true
newline_blank c h = ground (arith, h)

has_word_of-is_empty : (s : Text) → is_empty s ≡ true → has_word s ≡ false
unfolding has_word
has_word_of-is_empty [] h = refl
has_word_of-is_empty (c ∷ s) h = grind (arith, h)

has_word-rstrip : (s : Text) → has_word (rstrip_if (λ c. c == 10) s) ≡ has_word s
unfolding rstrip_if has_word
has_word-rstrip [] = refl
has_word-rstrip (c ∷ s) =
    ground
      (arith, has_word-rstrip s, newline_blank c, has_word_of-is_empty (rstrip_if (λ c. c == 10) s))

is_empty-drop_push :
    (c : ℕ) (ps : List Text) → is_empty (drop_empty_parts (push_first c ps)) ≡ false
is_empty-drop_push c [] = refl
is_empty-drop_push c (p ∷ ps) = refl

blank_or_push :
    (blank words : Bool) (c : ℕ) (ps : List Text)
    → is_empty (drop_empty_parts ps) ≡ not words
    → is_empty (drop_empty_parts (if blank then [] ∷ ps else push_first c ps))
      ≡ not (not blank || words)
blank_or_push true words c ps h = h
blank_or_push false words c ps h = is_empty-drop_push c ps

is_empty-split_words : (s : Text) → is_empty (split_words s) ≡ not (has_word s)
unfolding split_words split_blanks has_word
is_empty-split_words [] = refl
is_empty-split_words (c ∷ s) =
    blank_or_push (is_blank c) (has_word s) c (split_blanks s) (is_empty-split_words s)

is_empty-push : (c : ℕ) (ps : List Text) → is_empty (push_first c ps) ≡ false
is_empty-push c [] = refl
is_empty-push c (p ∷ ps) = refl

cut_or_push :
    (cut : Bool) (c : ℕ) (ps : List Text)
    → is_empty (if cut then [] ∷ ps else push_first c ps) ≡ false
cut_or_push true c ps = refl
cut_or_push false c ps = is_empty-push c ps

is_empty-split_on : (sep : ℕ) (s : Text) → is_empty (split_on sep s) ≡ false
unfolding split_on
is_empty-split_on sep [] = refl
is_empty-split_on sep (c ∷ s) = cut_or_push (c == sep) c (split_on sep s)

is_empty-parts_of : (line : Text) → has_word line ≡ true → is_empty (parts_of line) ≡ false
unfolding parts_of
is_empty-parts_of line h =
    let raw = rstrip_if (λ c. c == 10) line in
    ground (arith, h, is_empty-split_on 9 raw, is_empty-split_words raw, has_word-rstrip line)

length-pad : (n : ℕ) (cats : List Text) → n ≤ length (pad n cats)
unfolding pad
length-pad n cats =
    let joined = length-append cats (replicate (n - length cats) []) in
    let padding = length-replicate {A = Text} (n - length cats) [] in
    ground (arith, joined, padding)

row_of_parts_lem :
    (ps : List Text) (n : ℕ)
    → is_empty ps ≡ false
    → (row : Option ℤ × List Text) × (row_of_parts ps n ≡ ok row) × (length row.1 ≡ n)
unfolding row_of_parts
row_of_parts_lem [] n h = grind (arith, h)
row_of_parts_lem (label ∷ dense) n h =
    let cats = pad n (take n (drop (1 + default_num_dense) (label ∷ dense))) in
    (
      (parse_int label, take n cats),
      refl,
      omega (
        arith,
        length-take n cats,
        length-pad n (take n (drop (1 + default_num_dense) (label ∷ dense))),
      ),
    )

-- How many lines have more than white space.
unfoldable pub count_rows : List Text → ℕ
count_rows [] = 0
count_rows (line ∷ lines) = let rest = count_rows lines in if has_word line then suc rest else rest

module _ (n : ℕ) where
  -- One row for each such line, of `n` categories.
  unfoldable pub AreRows : ℕ → List (Option ℤ × List Text) → Type 0
  AreRows m rows = (length rows ≡ m) × All (λ row. length row.1 ≡ n) rows

  turn :
      (words : Bool) (blank : Bool) (m : ℕ) (first : Result (Option ℤ × List Text))
      (others : Result (List (Option ℤ × List Text)))
      → blank ≡ not words
      → (words ≡ true → (row : Option ℤ × List Text) × (first ≡ ok row) × (length row.1 ≡ n))
      → (rows : List (Option ℤ × List Text)) × (others ≡ ok rows) × AreRows m rows
      → (rows : List (Option ℤ × List Text)) × ((if blank
            then others
            else (do row ← first; rows ← others; ok (row ∷ rows)))
          ≡ ok rows)
        × AreRows (if words then suc m else m) rows
  unfolding AreRows
  turn true blank m first others b h (rows, rest, (count, all)) =
      let (row, found, width) = h refl in
      (row ∷ rows, ground (arith, b, found, rest), (omega (arith, count), (width, all)))
  turn false blank m first others b h (rows, rest, (count, all)) = (rows, rw b rest, (count, all))

  rows_of_file_lem :
      (lines : List Text)
      → (rows : List (Option ℤ × List Text)) × (rows_of_file lines n ≡ ok rows)
        × AreRows (count_rows lines) rows
  unfolding rows_of_file AreRows count_rows parse_criteo_line
  rows_of_file_lem [] = ([], refl, (refl, tt))
  rows_of_file_lem (line ∷ lines) =
      turn (has_word line) (is_empty (strip line)) (count_rows lines) (parse_criteo_line line n)
        (rows_of_file lines n) (is_empty-strip line)
        (λ h. row_of_parts_lem (parts_of line) n (is_empty-parts_of line h))
        (rows_of_file_lem lines)

  -- Reading the rows of files never raises: each line that is more than white space gives one row,
  -- no other line gives one, and each row has as many categories as fields are asked for.
  pub iter_criteo_rows_lem :
      (files : List (List Text))
      → (rows : List (Option ℤ × List Text)) × (iter_criteo_rows files n ≡ ok rows)
        × AreRows (sum (map count_rows files)) rows
  unfolding iter_criteo_rows AreRows
  iter_criteo_rows_lem [] = ([], refl, (refl, tt))
  iter_criteo_rows_lem (file ∷ files) =
      let (rows, found, part) = rows_of_file_lem file in
      let (others, rest, whole) = iter_criteo_rows_lem files in
      (
        rows ++ others,
        ground (arith, found, rest),
        (
          omega (arith, length-append rows others, part.0, whole.0),
          All-append _ rows others part.1 whole.1,
        ),
      )
