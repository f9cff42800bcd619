-- ===== src/Workload/Main/Read.antt =====
-- A generated trace, from the command line to the trace reader.
use mem_tier_gds.Base.Text.{ends_with, Text, codes, same_text}
use mem_tier_gds.Base.{
  ℕ, ◌<◌, ◌*◌, true, List, [], ◌∷◌, ◌++◌, length, some, none, ◌≡◌, ◌≢◌, refl, Bool-cases, false,
  inl, inr, length-append, Result, ok, raise, value_error, arith,
}
use mem_tier_gds.Base.Numpy.{Numpy}
use mem_tier_gds.Trace.{EmbeddingTrace, Source, npy, matrix, init, iter_block_batches}
use mem_tier_gds.Trace.Synthetic.{bare, no_blocks_unknown}
use mem_tier_gds.Workload.{IdSource}
use mem_tier_gds.Workload.Generated.{IsSupported, generate_ids_lem}
use mem_tier_gds.Workload.Main.{
  Args, synthetic, Saved, main, main_by, save, generate, npy_path, found_at,
}

same_text_refl : (s : Text) → same_text s s ≡ true
unfolding same_text
same_text_refl [] = refl
same_text_refl (c ∷ s) = ground (arith, same_text_refl s)

length_of-same_text : (s t : Text) → same_text s t ≡ true → length s ≡ length t
unfolding same_text
length_of-same_text [] [] h = refl
length_of-same_text [] (d ∷ t) h = cc
length_of-same_text (c ∷ s) [] h = cc
length_of-same_text (c ∷ s) (d ∷ t) h = ground (arith, h, length_of-same_text s t)

module _ (np : Numpy) (args : Args) (trace : List (List ℕ)) where
  abbrev width : ℕ
  width = args.batch_size * args.bag_size

  other_length : (s t : Text) → length s ≢ length t → same_text s t ≡ false
  other_length s t ne = elim (Bool-cases (same_text s t)) [
    | inl same ↦ absurd (ne (length_of-same_text s t same))
    | inr other ↦ other
  ]

  -- Another output is found at the name that `np.save` gives it, without its sidecar.
  found_unnamed :
      ends_with args.output (codes ".npy") ≡ false
      → found_at (save np args trace) (args.output ++ codes ".npy")
        ≡ some (npy (matrix width trace) none)
  unfolding found_at save npy_path
  found_unnamed other =
      let longer : length (args.output ++ codes ".npy" ++ codes ".json")
          ≢ length (args.output ++ codes ".json") =
        λ e. omega (
          arith,
          e,
          length-append (args.output ++ codes ".npy") (codes ".json"),
          length-append args.output (codes ".npy"),
          length-append args.output (codes ".json"),
        ) in
      rw (other, same_text_refl (args.output ++ codes ".npy"), other_length _ _ longer) refl

module _ {F S : Type 0} (np : Numpy) (source : IdSource F S)
    (parse_row : List ℕ → Result (List ℕ)) where
  -- If the output is not named `.npy` and the trace has a batch, the array is saved under a longer
  -- name, beside which no sidecar is found: read without the rows of a block, it has no blocks, and
  -- the reader raises a `ValueError`.
  pub main_lost :
      (args : Args)
      → args.trace_source ≡ synthetic
      → ends_with args.output (codes ".npy") ≡ false
      → IsSupported args.dist
      → args.overlap_ratio.in_range ≡ true
      → 0 < args.num_embeddings
      → 0 < args.num_batches
      → (saved : Saved) × (file : Source) × (t : EmbeddingTrace) × (main np source args ≡ ok saved)
        × (found_at saved (args.output ++ codes ".npy") ≡ some file)
        × (init file none ≡ ok t)
        × (iter_block_batches np parse_row t ≡ raise value_error)
  unfolding main_by generate init
  main_lost args from other supported ratio n0 m0 =
      let (trace, made, is_trace) =
        generate_ids_lem source args.dist args.num_embeddings args.batch_size args.bag_size
          args.num_batches args.seed args.overlap_ratio supported n0 ratio in
      (
        save np args trace,
        npy (matrix (width np args trace) trace) none,
        bare (width np args trace) trace,
        rw (from, made) refl,
        found_unnamed np args trace other,
        refl,
        no_blocks_unknown np parse_row (width np args trace) trace
            (omega (arith, is_trace.batches)),
      )
