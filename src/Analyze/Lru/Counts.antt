-- ===== src/Analyze/Lru/Counts.antt =====
-- What the two dicts of the simulation hold after any stream of blocks.
use mem_tier_gds.Base.{
  ℕ, ◌+◌, Bool, true, List, [], ◌∷◌, Option, none, some, ◌≡◌, refl, ap, ◌∙◌, arith, inl, inr,
  Bool-cases, take, All, ok, contains, contains_head, contains_tail, Distinct, keys, lookup, insert,
  lookup-insert, if◌then◌else◌, ◌==◌, ==_iff,
}
use mathlib.Core.Path.{subst₂}
use mathlib.Core.List.{reverse}
use mem_tier_gds.Analyze.Lru.{Cache, touch, increment, count_hit, access}
use mem_tier_gds.Analyze.Lru.Window.{stack, stack-Distinct, touch-window, contains-reverse}

-- A block hits a cache of the capacity if it is among so many blocks used last.
abbrev pub is_hit : ℕ → List ℕ → ℕ → Bool
is_hit cap past x = contains x (take cap (stack past))

-- The hits of a stream of blocks, after those of `past`.
abbrev pub hits_of : ℕ → List ℕ → List ℕ → ℕ
hits_of cap past [] = 0
hits_of cap past (x ∷ xs) = (if is_hit cap past x then 1 else 0) + hits_of cap (x ∷ past) xs

abbrev pub or_zero : Option ℕ → ℕ
or_zero none = 0
or_zero (some n) = n

-- `hits[cap]`, and 0 where the key is missing.
abbrev pub count_at : ℕ → List (ℕ × ℕ) → ℕ
count_at c hits = or_zero (lookup c hits)

abbrev pub IsWindow : List ℕ → ℕ × Cache → Type 0
IsWindow past e = e.1 ≡ reverse (take e.0 (stack past))

module _ {ℓ} {V : Type ℓ} where
  pub lookup_of_contains :
      (k : ℕ) (d : List (ℕ × V)) → contains k (keys d) ≡ true → (v : V) × (lookup k d ≡ some v)
  unfolding contains lookup
  lookup_of_contains k [] h = cc
  lookup_of_contains k ((j, v) ∷ d) h = elim (Bool-cases (j == k)) [
    | inl e ↦ (v, rw e)
    | inr e ↦ let (w, found) = lookup_of_contains k d (ground arith) in (w, rw e found)
  ]

  pub All-lookup {κ} :
      (P : ℕ × V → Type κ) (k : ℕ) (d : List (ℕ × V)) (v : V)
      → All P d
      → lookup k d ≡ some v
      → P (k, v)
  unfolding lookup
  All-lookup P k [] v h e = cc
  All-lookup P k ((j, w) ∷ d) v h e = elim (Bool-cases (j == k)) [
    | inl same ↦
        let first : j ≡ k = (==_iff j k).0 same in
        let second : w ≡ v = ground arith in subst₂ (λ (a : ℕ) (b : V). P (a, b)) first second h.0
    | inr other ↦ All-lookup P k d v h.1 (ground arith)
  ]

  keys-insert_old :
      (k : ℕ) (v : V) (d : List (ℕ × V)) → contains k (keys d) ≡ true → keys (insert k v d) ≡ keys d
  unfolding contains insert
  keys-insert_old k v [] h = cc
  keys-insert_old k v ((j, w) ∷ d) h = ground (arith, keys-insert_old k v d)

count_hit_lem :
    (cap x : ℕ) (cache : Cache) (hits : List (ℕ × ℕ))
    → contains cap (keys hits) ≡ true
    → (h : List (ℕ × ℕ)) × (count_hit cap x cache hits ≡ ok h)
      × (keys h ≡ keys hits)
      × ((c : ℕ)
          → count_at c h
            ≡ count_at c hits + (if cap == c then (if contains x cache then 1 else 0) else 0))
unfolding count_hit
count_hit_lem cap x cache hits held = elim (Bool-cases (contains x cache)) [
  | inl hit ↦
      let (n, e) = lookup_of_contains cap hits held in
      (
        insert cap (n + 1) hits,
        rw (hit, increment, e),
        keys-insert_old cap (n + 1) hits held,
        λ c. rw hit (ground (arith, lookup-insert cap c (n + 1) hits, e)),
      )
  | inr miss ↦ (hits, rw miss, refl, λ c. rw miss (ground arith))
]

pub access-IsWindow :
    (x : ℕ) (past : List ℕ) (sims : List (ℕ × Cache)) (hits : List (ℕ × ℕ))
    → All (IsWindow past) sims
    → Distinct (keys sims)
    → ((c : ℕ) → contains c (keys sims) ≡ true → contains c (keys hits) ≡ true)
    → (s : List (ℕ × Cache)) × (h : List (ℕ × ℕ)) × (access x sims hits ≡ ok (s, h))
      × All (IsWindow (x ∷ past)) s
      × (keys s ≡ keys sims)
      × (keys h ≡ keys hits)
      × ((c : ℕ)
          → count_at c h
            ≡ count_at c hits
              + (if contains c (keys sims) then (if is_hit c past x then 1 else 0) else 0))
unfolding access contains
access-IsWindow x past [] hits w d held = ([], hits, refl, tt, refl, refl, λ c. ground arith)
access-IsWindow x past ((cap, cache) ∷ sims) hits w d held =
    let (h, counted, same, counts) =
      count_hit_lem cap x cache hits (held cap (contains_head cap (keys sims))) in
    let (s, h', run, windows, same_caps, same', counts') =
      access-IsWindow x past sims h w.1 d.1
        (λ c m. rw same (held c (contains_tail c cap (keys sims) m))) in
    let hit : contains x cache ≡ is_hit cap past x =
      rw w.0 (contains-reverse x (take cap (stack past))) in
    (
      (cap, touch cap x cache) ∷ s,
      h',
      rw (counted, run),
      (rw w.0 (touch-window cap x (stack past) (stack-Distinct past)), windows),
      ap (◌∷◌ cap) same_caps,
      same' ∙ same,
      λ c. ground (arith, counts c, counts' c),
    )
