-- ===== src/Tests/LogRuns.antt =====
-- The file of results, for dicts that are numbers of strokes.
use mem_tier_gds.Base.{
  ℕ, ◌-◌, [], ◌∷◌, ◌++◌, none, some, ◌≡◌, refl, ap, arith, length, length-append, replicate,
  length-replicate, All-append, All-replicate, ok, raise, runtime_error,
}
use mem_tier_gds.Base.Text.{Text, codes}
use mem_tier_gds.Bench.Log.{Json, load_jsonl, record_runs, bars}
use mem_tier_gds.Bench.Log.Appended.{IsJson, returned, load_jsonl-record_runs}

abbrev strokes : ℕ → Text
strokes n = replicate n b'i'

abbrev tally : Json ℕ
tally = record {
  dumps = λ n. b'{' ∷ strokes n ++ b'}' ∷ [];
  loads = λ text. ok (length text - 2);
  entry = λ n key. some (strokes n);
  avg_latency_ms = λ n. none;
  uvm_row = λ note. length note;
}

dumped : (n : ℕ) → length (b'{' ∷ strokes n ++ b'}' ∷ []) - 2 ≡ n
dumped n = omega (arith, length-append (strokes n) (b'}' ∷ []), length-replicate {A = ℕ} n b'i')

tally-IsJson : IsJson tally
tally-IsJson = record {
  inner = strokes;
  braces = λ n. refl;
  one_line =
      λ n. (refl, All-append _ (strokes n) (b'}' ∷ []) (All-replicate _ n b'i' refl) (refl, tt));
  read_back = λ n. ap ok (dumped n);
}

load_jsonl-record_runs_example :
    load_jsonl tally (record_runs tally (ok 3 ∷ raise runtime_error ∷ ok 1 ∷ []) [])
    ≡ ok (3 ∷ 1 ∷ [])
unfolding load_jsonl returned
load_jsonl-record_runs_example =
    load_jsonl-record_runs tally tally-IsJson (ok 3 ∷ raise runtime_error ∷ ok 1 ∷ []) [] [] tt refl

-- A row without a latency has a bar of no height.
plotted : bars tally (codes "{i}") ≡ ok ((codes "i:i/i", (0, 1)) ∷ [])
unfolding bars
plotted = refl
