-- ===== src/ObjectApi/Index/Printed.antt =====
-- An index file that was printed from its samples.
use mem_tier_gds.Base.{
  ℕ, zero, suc, ◌+◌, ◌<◌, List, [], ◌∷◌, ◌++◌, map, Option, ◌≡◌, refl, arith, All, ok,
}
use mem_tier_gds.Base.Integer.{ℤ, pos}
use mem_tier_gds.Base.Text.{Text, join}
use mem_tier_gds.Base.Text.Words.{IsWord, strip_words, split_words-join, join_full}
use mem_tier_gds.Base.Text.Numbers.{print_int, print_int-IsWord, parse_int-print_int}
use mem_tier_gds.Criteo.Sizes.{int}
use mem_tier_gds.ObjectApi.Index.{Sample, check_range, sample_of, parse_parts, parse_index}

-- A path without white space, and a size that is not 0.
abbrev pub IsIndexed : Sample → Type 0
IsIndexed s = IsWord s.path × (0 < s.size)

-- The words of a sample with its path: `<id> <path> <offset> <size> <label>`.
abbrev words_of : Sample → List Text
words_of s = s.path ∷ print_int (pos s.off) ∷ print_int (pos s.size) ∷ print_int s.label ∷ []

unfoldable pub index_line : Sample → Text
index_line s = join b' ' (print_int s.sid ∷ words_of s) ++ 10 ∷ []

words_of-IsWord : (s : Sample) → IsWord s.path → All IsWord (print_int s.sid ∷ words_of s)
words_of-IsWord s path = (
  print_int-IsWord s.sid,
  (
    path,
    (print_int-IsWord (pos s.off), (print_int-IsWord (pos s.size), (print_int-IsWord s.label, tt))),
  ),
)

int-print_int : (x : ℤ) → int (print_int x) ≡ ok x
int-print_int x = rw (int, parse_int-print_int x) refl

check_range_at :
    (lineno off size : ℕ) → 0 < size → check_range lineno (pos off) (pos size) ≡ ok (off, size)
unfolding check_range
check_range_at lineno off zero h = absurd (omega arith)
check_range_at lineno off (suc size) h = refl

sample_back :
    (data_file : Option Text) (lineno : ℕ) (s : Sample)
    → 0 < s.size
    → parse_parts data_file lineno (print_int s.sid ∷ words_of s) ≡ ok s
unfolding parse_parts sample_of
sample_back data_file lineno s h =
    rw
      (
        int-print_int (pos s.off),
        int-print_int (pos s.size),
        check_range_at lineno s.off s.size h,
        int-print_int s.sid,
        int-print_int s.label,
      )
      refl

-- An index file whose lines are printed samples, each with a path without white space and a size that
-- is not 0, is parsed back to the samples, whatever the data file.
pub parse_index-index_line :
    (data_file : Option Text) (lineno : ℕ) (samples : List Sample)
    → All IsIndexed samples
    → parse_index data_file lineno (map index_line samples) ≡ ok samples
unfolding parse_index index_line
parse_index-index_line data_file lineno [] h = refl
parse_index-index_line data_file lineno (s ∷ samples) h =
    let words = words_of-IsWord s h.0.0 in
    let sid = print_int s.sid in
    rw
      (
        strip_words sid (words_of s) words,
        join_full sid (words_of s) words.0,
        split_words-join sid (words_of s) words,
        sample_back data_file lineno s h.0.1,
        parse_index-index_line data_file (lineno + 1) samples h.1,
      )
      refl
