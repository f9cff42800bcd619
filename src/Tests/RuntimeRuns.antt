-- ===== src/Tests/RuntimeRuns.antt =====
-- Runs of the runtime of python/memtier.
use mem_tier_gds.Base.{
  ℕ, ◌+◌, true, false, List, [], ◌∷◌, none, some, replicate, leb, if◌then◌else◌, ◌≡◌, refl, ok,
  raise, line_error,
}
use mem_tier_gds.Base.Text.{codes}
use mem_tier_gds.ObjectApi.Runtime.{
  memtier_ok, other_code, Library, opened, used, finalized, Code, after, get_runtime, close_runtime,
}
use mem_tier_gds.ObjectApi.Tensor.{LoadArgs, uint8, load_tensor}
use mem_tier_gds.Base.Integer.{pos, negsuc}
use mem_tier_gds.Base.Text.{strip, split_words, parse_int}
use mem_tier_gds.ObjectApi.Index.{
  MemTierDataset, getitem, args_of, transformed, parse_index, check_range,
}
use mem_tier_gds.ObjectApi.Lifecycle.{
  LeadsTo, Call, load, item, close, run_calls, fresh, runtime_lem,
}

-- The library's state is the number of its calls, which names the contexts too; every read of
-- more than two bytes fails.
code_of : ℕ → Code
code_of n = if leb n 2 then memtier_ok else other_code

abbrev calls_counted : Library ℕ
calls_counted = record {
  loads = λ n. true;
  memtier_init = λ n. (memtier_ok, n, n + 1);
  memtier_finalize = λ n h. n + 1;
  memtier_read = λ n h path offset nbytes target. (code_of nbytes, replicate nbytes 7, n + 1);
}

abbrev small : LoadArgs
small = record {
  path = codes "data.bin";
  offset = 4;
  nbytes = some 2;
  shape = none;
  dtype = uint8;
  on_cuda = some false;
}

abbrev large : LoadArgs
large = record small { nbytes = some 3 }

abbrev dataset : MemTierDataset
dataset = record {
  on_cuda = some false;
  dtype = uint8;
  shape = none;
  transform = none;
  return_label = true;
  samples =
      record { sid = pos 1; path = codes "data.bin"; off = 2; size = 2; label = negsuc 0 } ∷ [];
}

-- The second read raises, the runtime is closed twice, and opened again.
abbrev calls : List Call
calls = load false none small ∷ load true none large ∷ close ∷ close ∷ item true none dataset 0 ∷ []

runtime_lem_example :
    LeadsTo
      (run_calls calls_counted calls (fresh calls_counted 0)).events
      (run_calls calls_counted calls (fresh calls_counted 0)).ctx
    × ((close_runtime calls_counted (run_calls calls_counted calls (fresh calls_counted 0))).ctx
        ≡ none)
runtime_lem_example = runtime_lem calls_counted calls 0

calls_leave :
    (run_calls calls_counted calls (fresh calls_counted 0)).events
    ≡ used 4 ∷ opened 4 ∷ finalized 0 ∷ used 0 ∷ used 0 ∷ opened 0 ∷ []
unfolding run_calls code_of load_tensor after get_runtime close_runtime getitem args_of transformed
calls_leave = refl

-- A line of five parts, a blank one, and one of four parts with the data file.
indexed :
    parse_index (some (codes "d")) 1 (codes "1 data.bin 2 2 -1" ∷ [] ∷ codes "4 0 9 3" ∷ [])
    ≡ ok (
        record { sid = pos 1; path = codes "data.bin"; off = 2; size = 2; label = negsuc 0 }
        ∷ record { sid = pos 4; path = codes "d"; off = 0; size = 9; label = pos 3 }
        ∷ [])
unfolding parse_index strip split_words parse_int check_range
indexed = refl

-- A size of 0 is refused with the number of its line.
refused :
    parse_index none 1 (codes "1 data.bin 2 2 5" ∷ codes "1 x 0 0 5" ∷ []) ≡ raise (line_error 2)
unfolding parse_index strip split_words parse_int check_range
refused = refl
