-- ===== src/Tests/CriteoRuns.antt =====
-- Rows, sizes and ids of categorical features on concrete text.
use mem_tier_gds.Base.{
  ℕ, ◌+◌, ◌%◌, ◌<◌, true, List, [], ◌∷◌, ◌++◌, map, Option, ◌≡◌, refl, arith, length, All-append,
  All-replicate, sum, replicate, ok,
}
use mem_tier_gds.Base.Integer.{ℤ}
use mem_tier_gds.Base.Text.{Text, codes, join, parse_int}
use mem_tier_gds.Criteo.Hash.{Blake2b}
use mem_tier_gds.Criteo.Sizes.{field_offsets_from_hash_sizes}
use mem_tier_gds.Criteo.Ids.{per_field_offset, categorical_to_ids}
use mem_tier_gds.Criteo.Ids.Ranges.{kept, AreAscending, categorical_to_ids_ascend}
use mem_tier_gds.Criteo.Line.{parse_criteo_line, iter_criteo_rows}
use mem_tier_gds.Criteo.Line.Rows.{count_rows, AreRows, iter_criteo_rows_lem}
use mem_tier_gds.Criteo.Line.Joined.{IsColumn, parse_criteo_line-join}

-- A function in the place of the hash, with what is asked of it.
pub checksum : Blake2b
checksum = record {
  digest = λ bytes person. replicate 8 ((sum bytes + sum person) % 256);
  length-digest = λ bytes person. refl;
  digest-IsBytes =
      λ bytes person. All-replicate (λ b. b < 256) 8 ((sum bytes + sum person) % 256) (omega arith);
}

abbrev sizes : List ℕ
sizes = 10 ∷ 20 ∷ 5 ∷ []

abbrev size_text : Text
size_text = codes "10, 20,5,"

abbrev cats : List Text
cats = codes "68fd1e64" ∷ [] ∷ codes "fb936136" ∷ []

abbrev lines : List Text
lines = codes "1 2 3" ∷ codes "  " ∷ codes "a" ∷ []

abbrev dense : List Text
dense = replicate 13 (codes "7")

abbrev row_cats : List Text
row_cats = codes "a" ∷ [] ∷ codes "b" ∷ []

abbrev label : Text
label = codes "1"

categorical_to_ids_ascend_example :
    (ids : List ℕ) × (categorical_to_ids checksum sizes
        (field_offsets_from_hash_sizes sizes)
        per_field_offset
        true
        7
        cats
      ≡ ok ids)
    × AreAscending 0 35 ids
    × (length ids ≡ kept true cats)
categorical_to_ids_ascend_example =
    categorical_to_ids_ascend checksum sizes true 7 cats (omega arith) (omega arith)
      (omega arith, (omega arith, (omega arith, tt)))

iter_criteo_rows_lem_example :
    (rows : List (Option ℤ × List Text)) × (iter_criteo_rows (lines ∷ []) 26 ≡ ok rows)
    × AreRows 26 (sum (map count_rows (lines ∷ []))) rows
iter_criteo_rows_lem_example = iter_criteo_rows_lem 26 (lines ∷ [])

parse_criteo_line-join_example :
    parse_criteo_line (join 9 (label ∷ (dense ++ row_cats)) ++ 10 ∷ []) 3
    ≡ ok (parse_int label, row_cats)
unfolding IsColumn
parse_criteo_line-join_example = parse_criteo_line-join 3 label dense row_cats refl refl (
  ((refl, refl), tt),
  All-append IsColumn dense row_cats (All-replicate IsColumn 13 (codes "7") ((refl, refl), tt))
      (((refl, refl), tt), (tt, (((refl, refl), tt), tt))),
)
