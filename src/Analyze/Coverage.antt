-- ===== src/Analyze/Coverage.antt =====
-- `coverage` of memtier_embedding_bench/scripts/analyze_trace.py, and the `Counter` that it reads.
pub mod Bounds
pub mod Tally
use mem_tier_gds.Base.{
  ℕ, suc, ◌+◌, ◌*◌, ◌/◌, max, Bool, true, false, List, [], ◌∷◌, map, Option, none, some, leb, ◌==◌,
  if◌then◌else◌, length, take, sum, lookup, insert,
}

-- A `collections.Counter` over ints: an entry for each element, in the order of first occurrence.
abbrev pub Counter : Type 0
Counter = List (ℕ × ℕ)

abbrev pub values : Counter → List ℕ
values = map (λ e. e.1)

-- `counter[x] += 1`, where a missing key counts 0.
unfoldable pub count_one : ℕ → Counter → Counter
count_one x counter = elim (lookup x counter) [
  | none ↦ insert x 1 counter
  | some n ↦ insert x (n + 1) counter
]

-- `counter.update(xs)`
unfoldable pub update : List ℕ → Counter → Counter
unfolding count_one
update [] counter = counter
update (x ∷ xs) counter = update xs (count_one x counter)

-- `most_common()`: sorted by count, the largest first, equal counts in their old order.
pub place_by_count : ℕ × ℕ → Counter → Counter
place_by_count e [] = e ∷ []
place_by_count e (f ∷ fs) =
    let rest = place_by_count e fs in if leb f.1 e.1 then e ∷ f ∷ fs else f ∷ rest

pub most_common : Counter → Counter
unfolding place_by_count
most_common [] = []
most_common (e ∷ es) = place_by_count e (most_common es)

-- `max(1, int(n_unique * frac)) if n_unique else 0`, for a fraction of so many hundredths.
pub top_count : ℕ → ℕ → ℕ
top_count n_unique percent = if n_unique == 0 then 0 else max 1 (n_unique * percent / 100)

-- `sum(v for _, v in most[:n]) if n else 0`
pub top_sum : Counter → ℕ → ℕ
top_sum most n = if n == 0 then 0 else sum (take n (values most))

pub record Share : Type 0 where
  pub percent : ℕ
  pub covered : ℕ
  -- The share is `covered / total`.
  pub total : ℕ

-- The body of the loop over the fractions.
pub share : Counter → ℕ → Share
unfolding top_count top_sum
share counter percent = record {
  percent = percent;
  covered = top_sum (most_common counter) (top_count (length counter) percent);
  total = max (sum (values counter)) 1;
}

pub record Report : Type 0 where
  pub topk : List (ℕ × ℕ)
  pub shares : List Share

abbrev pub default_percents : List ℕ
default_percents = 1 ∷ 5 ∷ 10 ∷ []

unfoldable pub coverage : Counter → ℕ → Report
unfolding share most_common
coverage counter topk = record {
  topk = take topk (most_common counter);
  shares = map (share counter) default_percents;
}
