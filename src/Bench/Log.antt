-- ===== src/Bench/Log.antt =====
-- The file of results: each program of memtier_embedding_bench appends a line to it, among them `main`
-- of python/baseline_uvm.py, which has no more to do, and scripts/plot_results.py reads it.
pub mod Appended
use mem_tier_gds.Base.{
  ℕ, zero, List, [], ◌∷◌, ◌++◌, map, Option, none, some, ◌==◌, if◌then◌else◌, Result, ok, raise,
  ◌>>=◌,
}
use mem_tier_gds.Base.Text.{Text, codes, is_empty, strip, push_first}

-- A dict as `json.dumps` writes it on a line and `json.loads` reads it; its entries as an f-string
-- prints them, and the number of `avg_latency_ms` as two numbers that are divided, `none` for a
-- missing key.
pub record Json (J : Type 0) : Type 0 where
  pub dumps : J → Text
  pub loads : Text → Result J
  pub entry : J → Text → Option Text
  pub avg_latency_ms : J → Option (ℕ × ℕ)
  -- `{"system": "uvm_baseline", "status": "todo", "note": …}`
  pub uvm_row : Text → J

-- A character before the lines that follow.
unfoldable pub add_char : ℕ → List Text → List Text
add_char c lines = if c == 10 then (c ∷ []) ∷ lines else push_first c lines

-- `for line in f`
unfoldable pub lines_of : Text → List Text
unfolding add_char
lines_of [] = []
lines_of (c ∷ s) = add_char c (lines_of s)

-- The value of a key, or a default.
abbrev pub get : Option Text → Text → Text
get none default = default
get (some text) default = text

abbrev pub latency : Option (ℕ × ℕ) → ℕ × ℕ
latency none = (0, 1)
latency (some t) = t

module _ {J : Type 0} (json : Json J) where
  -- `f.write(json.dumps(result) + "\n")` to a file that is opened with "a".
  unfoldable pub append_result : Text → J → Text
  append_result file result = file ++ (json.dumps result ++ 10 ∷ [])

  -- The output after a run: the statements after the computation are not reached by an exception.
  unfoldable pub record_run : {R : Type 0} → (R → J) → Text → Result R → Result R × Text
  unfolding append_result
  record_run row_of file (raise e) = (raise e, file)
  record_run row_of file (ok r) = (ok r, append_result file (row_of r))

  -- The output after programs that ran one after the other, by the dicts that they made or the
  -- exceptions that they raised.
  unfoldable pub record_runs : List (Result J) → Text → Text
  unfolding record_run
  record_runs [] file = file
  record_runs (outcome ∷ outcomes) file =
      record_runs outcomes (record_run (λ row. row) file outcome).1

  unfoldable pub uvm_main : Text → Text → Text
  unfolding append_result
  uvm_main note file = append_result file (json.uvm_row note)

  unfoldable pub load_lines : List Text → Result (List J)
  unfolding strip
  load_lines [] = ok []
  load_lines (line ∷ lines) =
      let rest = load_lines lines in
      if is_empty (strip line)
      then rest
      else (do row ← json.loads (strip line); rows ← rest; ok (row ∷ rows))

  unfoldable pub load_jsonl : Text → Result (List J)
  unfolding load_lines lines_of
  load_jsonl file = load_lines (lines_of file)

  unfoldable pub bar_label : J → Text
  bar_label r =
      get (json.entry r (codes "system")) (codes "None")
      ++ b':' ∷ get (json.entry r (codes "dist")) []
      ++ b'/' ∷ get (json.entry r (codes "zipf_alpha")) []

  -- The bars of the plot.
  unfoldable pub bars : Text → Result (List (Text × (ℕ × ℕ)))
  unfolding load_jsonl bar_label
  bars file = do
    rows ← load_jsonl file
    ok (map (λ r. (bar_label r, latency (json.avg_latency_ms r))) rows)
