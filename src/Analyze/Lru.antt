-- ===== src/Analyze/Lru.antt =====
-- `update_lru_sims` of memtier_embedding_bench/scripts/analyze_trace.py: LRU caches of several
-- capacities, simulated side by side on one stream of blocks.
pub mod Bounds
pub mod Counts
pub mod Run
pub mod Window
use mem_tier_gds.Base.{
  ℕ, suc, ◌+◌, ◌*◌, ◌/◌, ◌^◌, max, map, Bool, true, false, List, [], ◌∷◌, ◌++◌, Option, none, some,
  ltb, ◌==◌, if◌then◌else◌, length, Result, ok, raise, key_error, ◌>>=◌, contains, remove, insert,
  lookup, from_keys,
}

-- An `OrderedDict` whose values are all `None`: its keys, oldest first.
abbrev pub Cache : Type 0
Cache = List ℕ

-- `cache.move_to_end(block)`, at a block that the cache holds.
pub move_to_end : ℕ → Cache → Cache
move_to_end block cache = remove block cache ++ block ∷ []

-- `cache.popitem(last=False)`, at a cache that is not empty.
pub pop_first : Cache → Cache
pop_first [] = []
pop_first (_ ∷ cache) = cache

-- `if len(cache) > cap: cache.popitem(last=False)`
pub shrink : ℕ → Cache → Cache
unfolding pop_first
shrink cap cache = if ltb cap (length cache) then pop_first cache else cache

-- What the body of the inner loop makes of one cache.
unfoldable pub touch : ℕ → ℕ → Cache → Cache
unfolding move_to_end shrink
touch cap block cache =
    if contains block cache then move_to_end block cache else shrink cap (cache ++ block ∷ [])

-- `hits[cap] += 1`
pub increment : ℕ → List (ℕ × ℕ) → Result (List (ℕ × ℕ))
increment cap hits = elim (lookup cap hits) [
  | none ↦ raise key_error
  | some n ↦ ok (insert cap (n + 1) hits)
]

pub count_hit : ℕ → ℕ → Cache → List (ℕ × ℕ) → Result (List (ℕ × ℕ))
unfolding increment
count_hit cap block cache hits = if contains block cache then increment cap hits else ok hits

-- `for cap, cache in sims.items()`
pub access : ℕ → List (ℕ × Cache) → List (ℕ × ℕ) → Result (List (ℕ × Cache) × List (ℕ × ℕ))
access block [] hits = ok ([], hits)
access block ((cap, cache) ∷ sims) hits = do
  hits' ← count_hit cap block cache hits
  (sims', hits'') ← access block sims hits'
  ok ((cap, touch cap block cache) ∷ sims', hits'')

pub record Sims : Type 0 where
  pub total : ℕ
  pub sims : List (ℕ × Cache)
  pub hits : List (ℕ × ℕ)

-- `for raw in blocks`: the count returned, and both dicts, which the call mutates.
pub update_from : ℕ → List ℕ → List (ℕ × Cache) → List (ℕ × ℕ) → Result Sims
update_from total [] sims hits = ok (record { total = total; sims = sims; hits = hits })
update_from total (block ∷ blocks) sims hits = do
  (sims', hits') ← access block sims hits
  update_from (total + 1) blocks sims' hits'

pub update_lru_sims : List ℕ → List (ℕ × Cache) → List (ℕ × ℕ) → Result Sims
unfolding update_from
update_lru_sims blocks sims hits = update_from 0 blocks sims hits

-- `sims` and `sim_hits` of `analyze_trace_file`, at their start.
pub new_sims : List ℕ → List (ℕ × Cache)
new_sims capacities = from_keys [] capacities []

pub new_hits : List ℕ → List (ℕ × ℕ)
new_hits capacities = from_keys 0 capacities []

-- The share of `analyze_trace_file` in the simulation: `sim_total += update_lru_sims(…)` for the
-- blocks of each batch.
unfoldable pub sim_batches : ℕ → List (List ℕ) → List (ℕ × Cache) → List (ℕ × ℕ) → Result Sims
sim_batches total [] sims hits = ok (record { total = total; sims = sims; hits = hits })
sim_batches total (blocks ∷ batches) sims hits = do
  r ← update_lru_sims blocks sims hits
  sim_batches (total + r.total) batches r.sims r.hits

-- `dram_gb`
abbrev pub dram_gb : List ℕ
dram_gb = 1 ∷ 4 ∷ 8 ∷ 16 ∷ 32 ∷ []

-- `max(1, int(gb * (1024**3) // max(block_bytes, 1)))`
unfoldable pub capacity : ℕ → ℕ → ℕ
capacity block_bytes gb = max 1 (gb * 1024 ^ 3 / max block_bytes 1)

unfoldable pub capacities : ℕ → List ℕ
capacities block_bytes = map (capacity block_bytes) dram_gb

-- All batches of a trace, from empty caches.
unfoldable pub simulate : ℕ → List (List ℕ) → Result Sims
unfolding capacities sim_batches
simulate block_bytes batches =
    let caps = capacities block_bytes in sim_batches 0 batches (new_sims caps) (new_hits caps)

-- `sim_hits[cap] / max(sim_total, 1)`, as the two numbers that are divided.
unfoldable pub hit_rate : Sims → ℕ → Result (ℕ × ℕ)
hit_rate s cap = elim (lookup cap s.hits) [
  | none ↦ raise key_error
  | some n ↦ ok (n, max s.total 1)
]
