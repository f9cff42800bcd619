-- ===== src/Trace/Lines.antt =====
-- `_index_jsonl`: the offsets of a `.jsonl` file, and what is read at them.
use mem_tier_gds.Base.{
  Bool, true, false, ◌&&◌, ℕ, zero, suc, ◌+◌, ◌≤◌, List, [], ◌∷◌, ◌++◌, ◌≡◌, refl, ap, sym, ◌∙◌,
  arith, ◌==◌, inl, inr, Bool-cases, if◌then◌else◌, length, drop, drop-drop, drop_append,
  length-append, map, flatten,
}
use mathlib.Core.Path.{ap₂}
use mem_tier_gds.Trace.{has_text, split_line, text_line, index_lines, index_jsonl, read_line_at}

-- The lines of a file; so much fuel as the file has bytes is enough.
abbrev pub all_lines : ℕ → List ℕ → List (List ℕ)
all_lines zero file = []
all_lines (suc fuel) [] = []
all_lines (suc fuel) (c ∷ cs) = (split_line (c ∷ cs)).0 ∷ all_lines fuel (split_line (c ∷ cs)).1

abbrev pub with_text : List (List ℕ) → List (List ℕ)
with_text [] = []
with_text (line ∷ lines) = let rest = with_text lines in if has_text line then line ∷ rest else rest

-- A line and what follows it are the file.
split_line-append : (cs : List ℕ) → (split_line cs).0 ++ (split_line cs).1 ≡ cs
unfolding split_line
split_line-append [] = refl
split_line-append (c ∷ cs) = elim (Bool-cases (c == 10)) [
  | inl newline ↦ rw newline
  | inr other ↦ rw other (ap (◌∷◌ c) (split_line-append cs))
]

split_line-drop : (cs : List ℕ) → drop (length (split_line cs).0) cs ≡ (split_line cs).1
split_line-drop cs =
    let line = (split_line cs).0 in
    sym (ap (drop (length line)) (split_line-append cs)) ∙ drop_append line (split_line cs).1

split_line-shorter : (c : ℕ) (cs : List ℕ) → length (split_line (c ∷ cs)).1 ≤ length cs
unfolding split_line
split_line-shorter c cs = ground (
  arith,
  length-append (split_line cs).0 (split_line cs).1,
  ap (length {A = ℕ}) (split_line-append cs),
)

flatten-all_lines :
    (fuel : ℕ) (file : List ℕ) → length file ≤ fuel → flatten (all_lines fuel file) ≡ file
unfolding flatten
flatten-all_lines zero [] h = refl
flatten-all_lines zero (c ∷ cs) h = absurd (omega arith)
flatten-all_lines (suc fuel) [] h = refl
flatten-all_lines (suc fuel) (c ∷ cs) h =
    rw (flatten-all_lines fuel (split_line (c ∷ cs)).1 (omega (arith, split_line-shorter c cs)))
      (split_line-append (c ∷ cs))

-- Whether each carriage return is followed by a newline.
unfoldable pub starts_newline : List ℕ → Bool
starts_newline [] = false
starts_newline (c ∷ cs) = c == 10

unfoldable pub is_translated : List ℕ → Bool
unfolding starts_newline
is_translated [] = true
is_translated (c ∷ cs) =
    let rest = is_translated cs in if c == 13 then starts_newline cs && rest else rest

abbrev pub without_returns : List ℕ → List ℕ
without_returns [] = []
without_returns (c ∷ cs) = let rest = without_returns cs in if c == 13 then rest else c ∷ rest

text_line_lem :
    (cs : List ℕ) → is_translated cs ≡ true → text_line cs ≡ without_returns (split_line cs).0
unfolding is_translated starts_newline text_line split_line
text_line_lem [] h = refl
text_line_lem (c ∷ []) h = ground (arith, h)
text_line_lem (c ∷ d ∷ cs) h = ground (arith, h, text_line_lem (d ∷ cs))

rest-is_translated :
    (cs : List ℕ) → is_translated cs ≡ true → is_translated (split_line cs).1 ≡ true
unfolding is_translated split_line
rest-is_translated [] h = refl
rest-is_translated (c ∷ cs) h = ground (arith, h, rest-is_translated cs)

-- Every indexed offset is where a line with text begins.
index_lines-read :
    (file : List ℕ) (fuel offset : ℕ) (rest : List ℕ)
    → drop offset file ≡ rest
    → is_translated rest ≡ true
    → map (read_line_at file) (index_lines fuel offset rest)
      ≡ map without_returns (with_text (all_lines fuel rest))
unfolding index_lines read_line_at
index_lines-read file zero offset rest h t = refl
index_lines-read file (suc fuel) offset [] h t = refl
index_lines-read file (suc fuel) offset (c ∷ cs) h t =
    let line = (split_line (c ∷ cs)).0 in
    let next : drop (offset + length line) file ≡ (split_line (c ∷ cs)).1 =
      sym (drop-drop (length line) offset file)
      ∙ ap (drop (length line)) h
      ∙ split_line-drop (c ∷ cs) in
    let ih =
      index_lines-read file fuel (offset + length line) (split_line (c ∷ cs)).1 next
        (rest-is_translated (c ∷ cs) t) in
    elim (Bool-cases (has_text line)) [
      | inl text ↦ rw text (ap₂ ◌∷◌ (ap text_line h ∙ text_line_lem (c ∷ cs) t) ih)
      | inr blank ↦ rw blank ih
    ]

-- The index of a `.jsonl` file, in which a carriage return stands before a newline only, has an offset
-- for each of its lines that is not blank, in order, and what is read at an offset is that line,
-- without its carriage return. The lines of which this speaks are the whole file.
pub index_jsonl_lem :
    (file : List ℕ)
    → is_translated file ≡ true
    → (flatten (all_lines (length file) file) ≡ file)
      × (map (read_line_at file) (index_jsonl file)
          ≡ map without_returns (with_text (all_lines (length file) file)))
unfolding index_jsonl
index_jsonl_lem file t = (
  flatten-all_lines (length file) file (omega arith),
  index_lines-read file (length file) 0 file refl t,
)
