-- ===== src/Analyze/Lru/Run.antt =====
-- The whole simulation: every batch of a trace, from empty caches.
use mem_tier_gds.Base.{
  take-nil, ℕ, ◌+◌, true, List, [], ◌∷◌, ◌++◌, flatten, some, ◌≡◌, refl, sym, ap, ◌∙◌, arith,
  length, length-append, take, All, ok, contains, contains_head, contains_tail, Distinct, keys,
  lookup, insert, lookup-insert, from_keys, keys-insert-Distinct, contains-keys-insert,
  if◌then◌else◌,
}
use mathlib.Core.Path.{◌≡⟨◌⟩◌, ◌∎}
use native.Mathlib.Nat.{zero-add}
use mathlib.Core.List.{reverse, reverse_aux, reverse_aux-append}
use mem_tier_gds.Analyze.Lru.{
  Cache, Sims, simulate, capacities, update_from, update_lru_sims, sim_batches, new_sims, new_hits,
}
use mem_tier_gds.Analyze.Lru.Window.{stack}
use mem_tier_gds.Analyze.Lru.Counts.{
  hits_of, count_at, lookup_of_contains, All-lookup, or_zero, IsWindow, access-IsWindow,
}

-- What a run leaves behind, after the blocks `past`: the caches are windows, and the hits of each
-- capacity have grown by those of `xs`.
pub record Ran (past xs : List ℕ) (start total : ℕ) (sims : List (ℕ × Cache)) (hits : List (ℕ × ℕ))
    (r : Sims) : Type 0 where
  pub counted : r.total ≡ start + total
  pub windows : All (IsWindow (reverse_aux xs past)) r.sims
  pub same_caps : keys r.sims ≡ keys sims
  pub same_hits : keys r.hits ≡ keys hits
  pub counts :
      (c : ℕ)
      → count_at c r.hits
        ≡ count_at c hits + (if contains c (keys sims) then hits_of c past xs else 0)

abbrev pub Covers : List (ℕ × Cache) → List (ℕ × ℕ) → Type 0
Covers sims hits = (c : ℕ) → contains c (keys sims) ≡ true → contains c (keys hits) ≡ true

pub update_from-Ran :
    (start : ℕ) (past xs : List ℕ) (sims : List (ℕ × Cache)) (hits : List (ℕ × ℕ))
    → All (IsWindow past) sims
    → Distinct (keys sims)
    → Covers sims hits
    → (r : Sims) × (update_from start xs sims hits ≡ ok r)
      × Ran past xs start (length xs) sims hits r
unfolding update_from
update_from-Ran start past [] sims hits w d held = (
  record { total = start; sims = sims; hits = hits },
  refl,
  record {
    counted = omega arith;
    windows = w;
    same_caps = refl;
    same_hits = refl;
    counts = λ c. ground arith;
  },
)
update_from-Ran start past (x ∷ xs) sims hits w d held =
    let (s, h, run, windows, same_caps, same_hits, counts) =
      access-IsWindow x past sims hits w d held in
    let (r, run', ran) =
      update_from-Ran (start + 1) (x ∷ past) xs s h windows (rw same_caps d)
        (λ c m. rw same_hits (held c (rw same_caps at m))) in
    (
      r,
      rw run run',
      record {
        counted = omega (arith, ran.counted);
        windows = ran.windows;
        same_caps = ran.same_caps ∙ same_caps;
        same_hits = ran.same_hits ∙ same_hits;
        counts = λ c. ground (arith, counts c, ran.counts c, same_caps);
      },
    )

hits_of-append :
    (c : ℕ) (past xs ys : List ℕ)
    → hits_of c past (xs ++ ys) ≡ hits_of c past xs + hits_of c (reverse_aux xs past) ys
hits_of-append c past [] ys = omega arith
hits_of-append c past (x ∷ xs) ys = omega (arith, hits_of-append c (x ∷ past) xs ys)

sim_batches-Ran :
    (start : ℕ) (past : List ℕ) (batches : List (List ℕ)) (sims : List (ℕ × Cache))
    (hits : List (ℕ × ℕ))
    → All (IsWindow past) sims
    → Distinct (keys sims)
    → Covers sims hits
    → (r : Sims) × (sim_batches start batches sims hits ≡ ok r)
      × Ran past (flatten batches) start (length (flatten batches)) sims hits r
unfolding sim_batches update_lru_sims flatten
sim_batches-Ran start past [] sims hits w d held = (
  record { total = start; sims = sims; hits = hits },
  refl,
  record {
    counted = omega arith;
    windows = w;
    same_caps = refl;
    same_hits = refl;
    counts = λ c. ground arith;
  },
)
sim_batches-Ran start past (xs ∷ batches) sims hits w d held =
    let (r, run, ran) = update_from-Ran 0 past xs sims hits w d held in
    let (r', run', ran') =
      sim_batches-Ran (start + r.total) (reverse_aux xs past) batches r.sims r.hits ran.windows
        (rw ran.same_caps d) (λ c m. rw ran.same_hits (held c (rw ran.same_caps at m))) in
    (
      r',
      rw run run',
      record {
        counted = omega (arith, ran.counted, ran'.counted, length-append xs (flatten batches));
        windows = rw reverse_aux-append ran'.windows;
        same_caps = ran'.same_caps ∙ ran.same_caps;
        same_hits = ran'.same_hits ∙ ran.same_hits;
        counts = λ c. ground (
          arith,
          ran.counts c,
          ran'.counts c,
          ran.same_caps,
          hits_of-append c past xs (flatten batches),
        );
      },
    )

module _ {ℓ} {V : Type ℓ} (v : V) where
  contains-keys-from_keys :
      (c : ℕ) (ks : List ℕ) (d : List (ℕ × V))
      → contains c (keys (from_keys v ks d)) ≡ (if contains c ks then true else contains c (keys d))
  unfolding contains from_keys
  contains-keys-from_keys c [] d = refl
  contains-keys-from_keys c (k ∷ ks) d =
      ground (arith, contains-keys-from_keys c ks (insert k v d), contains-keys-insert k c v d)

  keys-from_keys-Distinct :
      (ks : List ℕ) (d : List (ℕ × V)) → Distinct (keys d) → Distinct (keys (from_keys v ks d))
  unfolding from_keys
  keys-from_keys-Distinct [] d h = h
  keys-from_keys-Distinct (k ∷ ks) d h =
      keys-from_keys-Distinct ks (insert k v d) (keys-insert-Distinct k v d h)

count_at-new_hits :
    (c : ℕ) (ks : List ℕ) (d : List (ℕ × ℕ)) → count_at c d ≡ 0 → count_at c (from_keys 0 ks d) ≡ 0
unfolding from_keys
count_at-new_hits c [] d h = h
count_at-new_hits c (k ∷ ks) d h =
    count_at-new_hits c ks (insert k 0 d) (ground (arith, lookup-insert k c 0 d))

insert-IsWindow :
    (k : ℕ) (d : List (ℕ × Cache)) → All (IsWindow []) d → All (IsWindow []) (insert k [] d)
unfolding insert
insert-IsWindow k [] h = (rw take-nil, tt)
insert-IsWindow k ((j, v) ∷ d) h = ground (arith, insert-IsWindow k d h.1, take-nil {A = ℕ} j)

new_sims-IsWindow :
    (ks : List ℕ) (d : List (ℕ × Cache))
    → All (IsWindow []) d
    → All (IsWindow []) (from_keys [] ks d)
unfolding from_keys
new_sims-IsWindow [] d h = h
new_sims-IsWindow (k ∷ ks) d h = new_sims-IsWindow ks (insert k [] d) (insert-IsWindow k d h)

-- What a finished run reads at a capacity.
abbrev pub Holds : List ℕ → Sims → ℕ → Type 0
Holds trace r c =
    (lookup c r.sims ≡ some (reverse (take c (stack (reverse trace)))))
    × (lookup c r.hits ≡ some (hits_of c [] trace))

Covers-new : (caps : List ℕ) → Covers (from_keys [] caps []) (from_keys 0 caps [])
Covers-new caps c m =
    rw contains-keys-from_keys (rw (contains-keys-from_keys {V = Cache} [] c caps []) at m)

new_hits_zero : (c : ℕ) (caps : List ℕ) → count_at c (from_keys 0 caps []) ≡ 0
unfolding lookup
new_hits_zero c caps = count_at-new_hits c caps [] refl

Ran-Holds :
    (caps trace : List ℕ) (r : Sims) (c : ℕ)
    → Ran [] trace 0 (length trace) (from_keys [] caps []) (from_keys 0 caps []) r
    → contains c caps ≡ true
    → Holds trace r c
Ran-Holds caps trace r c ran m =
    let in_sims : contains c (keys r.sims) ≡ true =
      rw (ran.same_caps, contains-keys-from_keys, m) in
    let in_hits : contains c (keys r.hits) ≡ true =
      rw (ran.same_hits, contains-keys-from_keys, m) in
    let (cache, found) = lookup_of_contains c r.sims in_sims in
    let (n, counted) = lookup_of_contains c r.hits in_hits in
    let window : cache ≡ reverse (take c (stack (reverse trace))) =
      All-lookup (IsWindow (reverse trace)) c r.sims cache ran.windows found in
    let same : contains c (keys (from_keys {V = Cache} [] caps [])) ≡ true =
      rw (contains-keys-from_keys, m) in
    (
      rw (found, window),
      rw counted (
          ap some (
            n
            ≡⟨ ap or_zero (sym counted) ⟩ count_at c r.hits
            ≡⟨ ran.counts c ⟩
              count_at c (from_keys 0 caps [])
              + (if contains c (keys (from_keys {V = Cache} [] caps []))
                  then hits_of c [] trace
                  else 0)
            ≡⟨ (rw (new_hits_zero, same, zero-add)) ⟩ hits_of c [] trace ∎)),
    )

pub simulate_at :
    (block_bytes : ℕ) (batches : List (List ℕ))
    → (r : Sims) × (simulate block_bytes batches ≡ ok r)
      × (r.total ≡ length (flatten batches))
      × ((c : ℕ) → contains c (capacities block_bytes) ≡ true → Holds (flatten batches) r c)
unfolding simulate new_sims new_hits
simulate_at block_bytes batches =
    let caps = capacities block_bytes in
    let (r, run, ran) =
      sim_batches-Ran 0 [] batches (from_keys [] caps []) (from_keys 0 caps [])
        (new_sims-IsWindow caps [] tt) (keys-from_keys-Distinct [] caps [] tt) (Covers-new caps) in
    (r, run, omega (arith, ran.counted), λ c m. Ran-Holds caps (flatten batches) r c ran m)

All-of_contains : (P : ℕ → Type 0) (xs : List ℕ) → ((x : ℕ) → contains x xs ≡ true → P x) → All P xs
All-of_contains P [] f = tt
All-of_contains P (x ∷ xs) f =
    (f x (contains_head x xs), All-of_contains P xs (λ y m. f y (contains_tail y x xs m)))

-- The simulation raises nothing. It counts every block of the trace, and at each of its capacities
-- the cache holds that many of the blocks used last, each once, the most recent at the end, and the
-- hits are the accesses to a block that was among that many distinct blocks used last.
pub simulate_lem :
    (block_bytes : ℕ) (batches : List (List ℕ))
    → (r : Sims) × (simulate block_bytes batches ≡ ok r)
      × (r.total ≡ length (flatten batches))
      × All (Holds (flatten batches) r) (capacities block_bytes)
simulate_lem block_bytes batches =
    let (r, run, total, holds) = simulate_at block_bytes batches in
    (r, run, total, All-of_contains _ (capacities block_bytes) holds)
