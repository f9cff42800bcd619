-- ===== src/Criteo/Hash.antt =====
-- `stable_hash64` of memtier_embedding_bench/python/criteo_trace_dataset.py.
use mem_tier_gds.Base.{
  ℕ, zero, suc, ◌+◌, ◌*◌, ◌/◌, ◌%◌, ◌^◌, ◌<◌, List, [], ◌∷◌, ◌≡◌, arith, ltb, if◌then◌else◌, length,
  All, Result, ok, raise, overflow_error,
}
use native.Mathlib.Nat.{pow-suc}
use mathlib.Core.Path.{subst}
use mem_tier_gds.Base.Text.{Text, encode_utf8}

-- BLAKE2b with a digest of eight bytes, under a personalisation: a function of the bytes and the
-- personalisation, of which the digest's size and the range of its bytes are used.
pub record Blake2b : Type 0 where
  pub digest : List ℕ → List ℕ → List ℕ
  pub length-digest : (bytes person : List ℕ) → length (digest bytes person) ≡ 8
  pub digest-IsBytes : (bytes person : List ℕ) → All (λ b. b < 256) (digest bytes person)

-- The little-endian bytes of a number, so many.
to_bytes : ℕ → ℕ → List ℕ
to_bytes zero n = []
to_bytes (suc k) n = (n % 256) ∷ to_bytes k (n / 256)

from_bytes : List ℕ → ℕ
from_bytes [] = 0
from_bytes (b ∷ bs) = b + 256 * from_bytes bs

unfoldable pub stable_hash64 : Blake2b → Text → ℕ → Result ℕ
unfolding to_bytes from_bytes
stable_hash64 hash value seed =
    if ltb seed (2 ^ 64)
    then ok (from_bytes (hash.digest (encode_utf8 value) (to_bytes 8 seed)))
    else raise overflow_error

from_bytes-lt : (bs : List ℕ) → All (λ b. b < 256) bs → from_bytes bs < 256 ^ length bs
unfolding from_bytes
from_bytes-lt [] h = omega arith
from_bytes-lt (b ∷ bs) h =
    let rest : from_bytes bs < 256 ^ length bs = from_bytes-lt bs h.1 in
    let digit : b < 256 = h.0 in
    let power : 256 ^ suc (length bs) ≡ 256 ^ length bs * 256 = pow-suc 256 (length bs) in
    omega arith

-- With a seed of 64 bits a hash is returned, and it is a number of 64 bits.
pub stable_hash64_bits :
    (hash : Blake2b) (value : Text) (seed : ℕ)
    → seed < 2 ^ 64
    → (x : ℕ) × (stable_hash64 hash value seed ≡ ok x) × (x < 2 ^ 64)
unfolding stable_hash64
stable_hash64_bits hash value seed fits =
    let bytes = hash.digest (encode_utf8 value) (to_bytes 8 seed) in
    let low : from_bytes bytes < 256 ^ length bytes =
      from_bytes-lt bytes (hash.digest-IsBytes (encode_utf8 value) (to_bytes 8 seed)) in
    let eight : length bytes ≡ 8 = hash.length-digest (encode_utf8 value) (to_bytes 8 seed) in
    let small : from_bytes bytes < 256 ^ 8 = subst (λ k. from_bytes bytes < 256 ^ k) eight low in
    (from_bytes bytes, ground (arith, fits), small)
