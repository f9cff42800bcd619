-- ===== src/Analyze/Report/Noted.antt =====
-- What the loop has kept at the end, against the batches as a whole.
use mem_tier_gds.Base.{
  ℕ, ◌+◌, ◌-◌, max, Bool, true, false, ◌/◌, List, [], ◌∷◌, ◌++◌, map, flatten, append_assoc,
  append-nil, none, some, ◌≡◌, refl, ap, sym, ◌∙◌, arith, inl, inr, if◌then◌else◌, length,
  length-append, sum, contains, contains-append, contains-set_of, set_of, set_of-Distinct-eq,
  Distinct, inter, lookup, insert, keys, contains-keys-insert, keys-insert-Distinct, Option-cases,
}
use mem_tier_gds.Base.Numpy.{Numpy, unique-Distinct}
use mem_tier_gds.Base.Text.{is_empty}
use mem_tier_gds.Workload.{ids_to_blocks, unique_counts, reuse_rates}
use mem_tier_gds.Analyze.Coverage.{Counter, update, count_one}
use mem_tier_gds.Analyze.Report.{Notes, note_distance, see_blocks, note}

update-append : (xs ys : List ℕ) (c : Counter) → update (xs ++ ys) c ≡ update ys (update xs c)
unfolding update
update-append [] ys c = refl
update-append (x ∷ xs) ys c = update-append xs ys (count_one x c)

module _ {V : Type 0} where
  length-insert :
      (k : ℕ) (v : V) (d : List (ℕ × V))
      → length (insert k v d) ≡ (if contains k (keys d) then length d else length d + 1)
  unfolding insert contains
  length-insert k v [] = refl
  length-insert k v ((j, w) ∷ d) = ground (arith, length-insert k v d)

  contains_missing : (k : ℕ) (d : List (ℕ × V)) → lookup k d ≡ none → contains k (keys d) ≡ false
  unfolding lookup contains
  contains_missing k [] e = refl
  contains_missing k ((j, w) ∷ d) e = ground (arith, e, contains_missing k d)

  contains_found :
      (k : ℕ) (v : V) (d : List (ℕ × V)) → lookup k d ≡ some v → contains k (keys d) ≡ true
  unfolding lookup contains
  contains_found k v [] e = grind (arith, e)
  contains_found k v ((j, w) ∷ d) e = ground (arith, e, contains_found k v d)

-- A block gives a distance or a new entry.
note_size :
    (i block : ℕ) (distances : List ℕ) (d : List (ℕ × ℕ))
    → length (note_distance i (lookup block d) distances) + length (insert block i d)
      ≡ length distances + length d + 1
unfolding note_distance
note_size i block distances d = elim (Option-cases (lookup block d)) [
  | inl fresh ↦
      rw fresh (omega (arith, rw (contains_missing block d fresh) at (length-insert block i d)))
  | inr (last, old) ↦ rw old (
      omega (
        arith,
        length-append distances ((i - last) ∷ []),
        rw (contains_found block last d old) at (length-insert block i d),
      ))
]

see_blocks_size :
    (i : ℕ) (blocks distances : List ℕ) (d : List (ℕ × ℕ))
    → length (see_blocks i blocks (distances, d)).0 + length (see_blocks i blocks (distances, d)).1
      ≡ length distances + length d + length blocks
unfolding see_blocks
see_blocks_size i [] distances d = omega arith
see_blocks_size i (block ∷ blocks) distances d = omega (
  arith,
  see_blocks_size i blocks (note_distance i (lookup block d) distances) (insert block i d),
  note_size i block distances d,
)

see_blocks-keys :
    (i : ℕ) (blocks distances : List ℕ) (d : List (ℕ × ℕ))
    → Distinct (keys d)
    → Distinct (keys (see_blocks i blocks (distances, d)).1)
      × ((x : ℕ)
          → contains x (keys (see_blocks i blocks (distances, d)).1)
            ≡ contains x (keys d ++ blocks))
unfolding see_blocks contains
see_blocks-keys i [] distances d h = (h, λ x. rw append-nil refl)
see_blocks-keys i (block ∷ blocks) distances d h =
    let (later, same) =
      see_blocks-keys i blocks (note_distance i (lookup block d) distances) (insert block i d)
        (keys-insert-Distinct block i d h) in
    (
      later,
      λ x.
          same x
          ∙ ground (
            arith,
            contains-append x (keys (insert block i d)) blocks,
            contains-keys-insert block x i d,
            contains-append x (keys d) (block ∷ blocks),
          ),
    )

append_unless {ℓ} :
    {A : Type ℓ} (skip : Bool) (rs more : List A) (r : A)
    → (if skip then rs else rs ++ r ∷ []) ++ more ≡ rs ++ (if skip then more else r ∷ more)
append_unless true rs more r = refl
append_unless false rs more r = append_assoc rs (r ∷ []) more

module _ (np : Numpy) (rows_per_block : ℕ) where
  -- The blocks of each batch.
  abbrev pub blocks_of : List (List ℕ) → List (List ℕ)
  blocks_of = map (ids_to_blocks np rows_per_block)

  -- The notes after all batches.
  unfoldable pub note_all : ℕ → List (List ℕ) → Notes → Notes
  note_all i [] n = n
  note_all i (ids ∷ batches) n = note_all (i + 1) batches (note np rows_per_block i ids n)

  length-blocks :
      (ids : List ℕ)
      → length (set_of (ids_to_blocks np rows_per_block ids))
        ≡ length (ids_to_blocks np rows_per_block ids)
  unfolding ids_to_blocks
  length-blocks ids = ap length (
      set_of-Distinct-eq (ids_to_blocks np rows_per_block ids)
        (unique-Distinct np (map (λ i. i / rows_per_block) ids)))

  -- How the notes at the end follow from those at the start.
  pub record HasNoted (batches : List (List ℕ)) (n r : Notes) : Type 0 where
    pub ids : r.id_counter ≡ update (flatten batches) n.id_counter
    pub blocks : r.block_counter ≡ update (flatten (blocks_of batches)) n.block_counter
    pub blocks_per_batch :
        r.unique_blocks_per_batch
        ≡ n.unique_blocks_per_batch ++ unique_counts np rows_per_block batches
    pub ratios :
        r.reuse_ratios ≡ n.reuse_ratios ++ reuse_rates np rows_per_block n.previous_blocks batches
    pub lookups : r.total_lookups ≡ n.total_lookups + length (flatten batches)
    pub distances :
        length r.reuse_distances + length r.last_seen
        ≡ length n.reuse_distances
          + length n.last_seen
          + sum (unique_counts np rows_per_block batches)
    pub keys_once :
        Distinct (keys n.last_seen)
        → Distinct (keys r.last_seen)
          × ((x : ℕ)
              → contains x (keys r.last_seen)
                ≡ contains x (keys n.last_seen ++ flatten (blocks_of batches)))

  contains_seen :
      (x : ℕ) (ks blocks rest : List ℕ) (seen : List ℕ)
      → contains x seen ≡ contains x (ks ++ set_of blocks)
      → contains x (seen ++ rest) ≡ contains x (ks ++ (blocks ++ rest))
  contains_seen x ks blocks rest seen e = ground (
    arith,
    e,
    contains-append x seen rest,
    contains-append x ks (set_of blocks),
    contains-set_of x blocks,
    contains-append x ks (blocks ++ rest),
    contains-append x blocks rest,
  )

  pub note_all-HasNoted :
      (i : ℕ) (batches : List (List ℕ)) (n : Notes) → HasNoted batches n (note_all i batches n)
  unfolding note_all note unique_counts reuse_rates flatten update
  note_all-HasNoted i [] n = record {
    ids = refl;
    blocks = refl;
    blocks_per_batch = sym (append-nil n.unique_blocks_per_batch);
    ratios = sym (append-nil n.reuse_ratios);
    lookups = omega arith;
    distances = omega arith;
    keys_once = λ d. (d, λ x. rw append-nil refl);
  }
  note_all-HasNoted i (b ∷ batches) n =
      let n' = note np rows_per_block i b n in
      let ih = note_all-HasNoted (i + 1) batches n' in
      let here = ids_to_blocks np rows_per_block b in
      record {
        ids = ih.ids ∙ sym (update-append b (flatten batches) n.id_counter);
        blocks = ih.blocks ∙ sym (update-append here (flatten (blocks_of batches)) n.block_counter);
        blocks_per_batch =
            ih.blocks_per_batch
            ∙ append_assoc n.unique_blocks_per_batch (length (set_of here) ∷ [])
                (unique_counts np rows_per_block batches);
        ratios =
            ih.ratios
            ∙ append_unless (is_empty n.previous_blocks) n.reuse_ratios
                (reuse_rates np rows_per_block (set_of here) batches)
                (length (inter (set_of here) n.previous_blocks), max (length (set_of here)) 1);
        lookups = omega (arith, ih.lookups, length-append b (flatten batches));
        distances =
            omega
              (arith, ih.distances, see_blocks_size i (set_of here) n.reuse_distances n.last_seen);
        keys_once = λ d.
            let (once, same) = see_blocks-keys i (set_of here) n.reuse_distances n.last_seen d in
            let (all_once, all_same) = ih.keys_once once in
            (
              all_once,
              λ x.
                  all_same x
                  ∙ contains_seen x (keys n.last_seen) here (flatten (blocks_of batches))
                      (keys n'.last_seen) (same x),
            );
      }
