-- ===== src/ObjectApi/Chunks.antt =====
-- `load_chunks` of python/memtier/chunks.py, at a file of given bytes; offsets and lengths are not
-- negative.
pub mod Reads
use mem_tier_gds.Base.{
  ℕ, Bool, true, false, not, ◌&&◌, List, [], ◌∷◌, ◌==◌, if◌then◌else◌, length, take, drop, Result,
  ok, raise, ◌>>=◌, ◌>>◌, refuse, value_error, runtime_error,
}
use mem_tier_gds.Base.Text.{Text, codes}

-- `s.startswith(prefix)`
unfoldable pub starts_with : Text → Text → Bool
starts_with s [] = true
starts_with [] (p ∷ prefix) = false
starts_with (c ∷ s) (p ∷ prefix) = let rest = starts_with s prefix in (c == p) && rest

-- `for off, ln in zip(offsets, lengths)`
pub read_chunks : List ℕ → List ℕ → List ℕ → Result (List (List ℕ))
read_chunks file [] lengths = ok []
read_chunks file (off ∷ offsets) [] = ok []
read_chunks file (off ∷ offsets) (ln ∷ lengths) = do
  let b = take ln (drop off file)
  refuse (not (length b == ln)) runtime_error
  outs ← read_chunks file offsets lengths
  ok (b ∷ outs)

pub load_chunks : List ℕ → List ℕ → List ℕ → Text → Result (List (List ℕ))
unfolding starts_with read_chunks
load_chunks file offsets lengths device = do
  refuse (starts_with device (codes "cuda")) runtime_error
  refuse (not (length offsets == length lengths)) value_error
  read_chunks file offsets lengths
