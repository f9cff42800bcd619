-- ===== src/ObjectApi/Chunks/Reads.antt =====
-- What `load_chunks` returns and when it raises.
use mem_tier_gds.Base.{
  ℕ, suc, ◌+◌, ◌≤◌, Bool, true, false, ◌&&◌, ◌||◌, List, [], ◌∷◌, map, flatten, ◌≡◌, refl, sym, ap,
  arith, ◌==◌, leb, if◌then◌else◌, length, take, drop, drop-drop, take-append-drop, length-take,
  length-drop, drop_of_length-le, sum, ok, raise, runtime_error,
}
use mem_tier_gds.Base.Text.{Text, codes}
use mem_tier_gds.ObjectApi.Chunks.{starts_with, read_chunks, load_chunks}

-- Whether every chunk ends inside a file of so many bytes; an empty chunk may stand anywhere.
unfoldable pub all_inside : ℕ → List ℕ → List ℕ → Bool
all_inside n [] lengths = true
all_inside n (off ∷ offsets) [] = true
all_inside n (off ∷ offsets) (ln ∷ lengths) =
    let rest = all_inside n offsets lengths in (ln == 0 || leb (off + ln) n) && rest

-- The chunks by their definition.
unfoldable pub chunks_at : List ℕ → List ℕ → List ℕ → List (List ℕ)
chunks_at file [] lengths = []
chunks_at file (off ∷ offsets) [] = []
chunks_at file (off ∷ offsets) (ln ∷ lengths) =
    take ln (drop off file) ∷ chunks_at file offsets lengths

-- Offsets of chunks that follow each other.
unfoldable pub running : ℕ → List ℕ → List ℕ
running off [] = []
running off (ln ∷ lengths) = off ∷ running (off + ln) lengths

length-chunk :
    (file : List ℕ) (off ln : ℕ)
    → (length (take ln (drop off file)) == ln) ≡ (ln == 0 || leb (off + ln) (length file))
length-chunk file off ln = ground (arith, length-take ln (drop off file), length-drop off file)

read_chunks_lem :
    (file offsets lengths : List ℕ)
    → read_chunks file offsets lengths ≡ (
        if all_inside (length file) offsets lengths
        then ok (chunks_at file offsets lengths)
        else raise runtime_error)
unfolding read_chunks all_inside chunks_at
read_chunks_lem file [] lengths = refl
read_chunks_lem file (off ∷ offsets) [] = refl
read_chunks_lem file (off ∷ offsets) (ln ∷ lengths) =
    ground (arith, length-chunk file off ln, read_chunks_lem file offsets lengths)

module _ (file offsets lengths : List ℕ) (device : Text) where
  -- For a device that is not a CUDA one and as many offsets as lengths, the chunks are all returned,
  -- each the bytes at its offset, if each ends inside the file; if one does not, it raises.
  pub load_chunks_lem :
      starts_with device (codes "cuda") ≡ false
      → length offsets ≡ length lengths
      → load_chunks file offsets lengths device ≡ (
          if all_inside (length file) offsets lengths
          then ok (chunks_at file offsets lengths)
          else raise runtime_error)
  unfolding load_chunks
  load_chunks_lem cpu same = ground (arith, cpu, same, read_chunks_lem file offsets lengths)

running-inside :
    (n off : ℕ) (lengths : List ℕ)
    → off + sum lengths ≤ n
    → all_inside n (running off lengths) lengths ≡ true
unfolding all_inside running
running-inside n off [] h = refl
running-inside n off (ln ∷ lengths) h =
    ground (arith, h, running-inside n (off + ln) lengths (omega (arith, h)))

flatten-running :
    (file : List ℕ) (off : ℕ) (lengths : List ℕ)
    → off + sum lengths ≡ length file
    → flatten (chunks_at file (running off lengths) lengths) ≡ drop off file
unfolding chunks_at running flatten
flatten-running file off [] e = sym (drop_of_length-le off file (omega (arith, e)))
flatten-running file off (ln ∷ lengths) e =
    rw (flatten-running file (off + ln) lengths (omega (arith, e)), ← drop-drop ln off file)
      (take-append-drop ln (drop off file))

map-length-running :
    (file : List ℕ) (off : ℕ) (lengths : List ℕ)
    → off + sum lengths ≤ length file
    → map length (chunks_at file (running off lengths) lengths) ≡ lengths
unfolding chunks_at running
map-length-running file off [] e = refl
map-length-running file off (ln ∷ lengths) e =
    let chunk : length (take ln (drop off file)) ≡ ln =
      omega (arith, e, length-take ln (drop off file), length-drop off file) in
    rw (chunk, map-length-running file (off + ln) lengths (omega (arith, e))) refl

length-running : (off : ℕ) (lengths : List ℕ) → length (running off lengths) ≡ length lengths
unfolding running
length-running off [] = refl
length-running off (ln ∷ lengths) = ap suc (length-running (off + ln) lengths)

-- A file cut into chunks that follow each other, for a device that is not a CUDA one, is loaded as
-- chunks of the lengths asked for, which together are the file.
pub load_chunks_whole :
    (file lengths : List ℕ) (device : Text)
    → starts_with device (codes "cuda") ≡ false
    → sum lengths ≡ length file
    → (parts : List (List ℕ)) × (load_chunks file (running 0 lengths) lengths device ≡ ok parts)
      × (flatten parts ≡ file)
      × (map length parts ≡ lengths)
load_chunks_whole file lengths device cpu e =
    let inside = running-inside (length file) 0 lengths (omega (arith, e)) in
    let loaded =
      load_chunks_lem file (running 0 lengths) lengths device cpu (length-running 0 lengths) in
    (
      chunks_at file (running 0 lengths) lengths,
      rw inside at loaded,
      flatten-running file 0 lengths (omega (arith, e)),
      map-length-running file 0 lengths (omega (arith, e)),
    )
