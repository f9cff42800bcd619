-- ===== src/Tests/ObjectApiRuns.antt =====
-- Chunks of a file of six bytes, and an index of two samples.
use mem_tier_gds.Base.{
  ℕ, List, [], ◌∷◌, map, flatten, ◌≡◌, refl, if◌then◌else◌, length, ok, raise, runtime_error, none,
  All, arith,
}
use mem_tier_gds.Base.Integer.{pos, negsuc}
use mem_tier_gds.Base.Text.{codes, decimal}
use mem_tier_gds.Base.Text.Numbers.{print_int}
use mem_tier_gds.ObjectApi.Index.{Sample, parse_index}
use mem_tier_gds.ObjectApi.Index.Printed.{IsIndexed, index_line, parse_index-index_line}
use mem_tier_gds.ObjectApi.Chunks.{starts_with, load_chunks}
use mem_tier_gds.ObjectApi.Chunks.Reads.{
  all_inside, chunks_at, running, load_chunks_lem, load_chunks_whole,
}

abbrev bytes : List ℕ
bytes = 5 ∷ 6 ∷ 7 ∷ 8 ∷ 9 ∷ 10 ∷ []

abbrev offsets : List ℕ
offsets = 4 ∷ 1 ∷ []

abbrev lengths : List ℕ
lengths = 2 ∷ 4 ∷ []

load_chunks_lem_example : load_chunks bytes offsets lengths (codes "cpu") ≡ (
    if all_inside 6 offsets lengths
    then ok (chunks_at bytes offsets lengths)
    else raise runtime_error)
unfolding starts_with
load_chunks_lem_example = load_chunks_lem bytes offsets lengths (codes "cpu") refl refl

load_chunks_whole_example :
    (parts : List (List ℕ)) × (load_chunks bytes (running 0 lengths) lengths (codes "cpu")
      ≡ ok parts)
    × (flatten parts ≡ bytes)
    × (map length parts ≡ lengths)
unfolding starts_with
load_chunks_whole_example = load_chunks_whole bytes lengths (codes "cpu") refl refl

abbrev samples : List Sample
samples =
    record { sid = pos 0; path = codes "a.bin"; off = 0; size = 16; label = negsuc 0 }
    ∷ record { sid = pos 12; path = codes "b"; off = 4096; size = 8; label = pos 7 }
    ∷ []

samples-IsIndexed : All IsIndexed samples
samples-IsIndexed = (
  ((refl, (refl, (refl, (refl, (refl, (refl, tt)))))), omega arith),
  (((refl, (refl, tt)), omega arith), tt),
)

parse_index-index_line_example : parse_index none 1 (map index_line samples) ≡ ok samples
parse_index-index_line_example = parse_index-index_line none 1 samples samples-IsIndexed

printed : map index_line samples ≡ codes "0 a.bin 0 16 -1\n" ∷ codes "12 b 4096 8 7\n" ∷ []
unfolding index_line print_int decimal
printed = refl
