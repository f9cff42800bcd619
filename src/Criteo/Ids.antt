-- ===== src/Criteo/Ids.antt =====
-- `categorical_to_ids` of memtier_embedding_bench/python/criteo_trace_dataset.py.
pub mod Ranges
use mem_tier_gds.Base.{
  ℕ, zero, suc, ◌+◌, ◌%◌, Bool, true, false, ◌&&◌, List, [], ◌∷◌, ◌++◌, if◌then◌else◌, sum, Result,
  ok, raise, ◌>>=◌, value_error, zero_division, at_index,
}
use mem_tier_gds.Base.Text.{Text, codes, decimal, is_empty}
use mem_tier_gds.Criteo.Hash.{Blake2b, stable_hash64}

-- `global_id_mode`
pub data Mode : Type 0 where
  per_field_offset : Mode
  shared_hash : Mode
  other_mode : Mode

-- `raw if raw != "" else f"__EMPTY_FIELD_{field}__"`
pub value_of_field : ℕ → Text → Text
value_of_field field raw =
    if is_empty raw then codes "__EMPTY_FIELD_" ++ decimal field ++ codes "__" else raw

-- `f"{field}:{value}"`
pub key : ℕ → Text → Text
unfolding value_of_field
key field raw = decimal field ++ b':' ∷ value_of_field field raw

-- `x % y`
abbrev pub modulo : ℕ → ℕ → Result ℕ
modulo x zero = raise zero_division
modulo x (suc y) = ok (x % suc y)

module _ (hash : Blake2b) (hash_sizes field_offsets : List ℕ) (mode : Mode) (drop_empty : Bool)
    (seed : ℕ) where
  -- The id of one feature that is not dropped.
  pub id_of : ℕ → Text → Result ℕ
  unfolding key
  id_of field raw = elim mode [
    | per_field_offset ↦ (do
      code ← stable_hash64 hash (key field raw) seed
      size ← at_index hash_sizes field
      local ← modulo code size
      offset ← at_index field_offsets field
      ok (offset + local))
    | shared_hash ↦ (do
      code ← stable_hash64 hash (key field raw) seed
      modulo code (sum hash_sizes))
    | other_mode ↦ raise value_error
  ]

  -- The loop, from a field on.
  pub ids_from : ℕ → List Text → Result (List ℕ)
  unfolding id_of
  ids_from field [] = ok []
  ids_from field (raw ∷ cats) =
      let rest = ids_from (field + 1) cats in
      if is_empty raw && drop_empty
      then rest
      else (do i ← id_of field raw; ids ← rest; ok (i ∷ ids))

  pub categorical_to_ids : List Text → Result (List ℕ)
  unfolding ids_from
  categorical_to_ids cats = ids_from 0 cats
