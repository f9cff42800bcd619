-- ===== src/Criteo/Sizes.antt =====
-- `parse_hash_sizes` and `field_offsets_from_hash_sizes` of
-- memtier_embedding_bench/python/criteo_trace_dataset.py.
use mem_tier_gds.Base.{
  ℕ, zero, suc, ◌+◌, ◌<◌, not, List, [], ◌∷◌, map, none, some, ◌≡◌, refl, ap, arith, ◌==◌, length,
  get_elem?, take, replicate, sum, All, length-replicate, All-replicate, Result, ok, raise, ◌>>=◌,
  ◌>>◌, refuse, Error, value_error, ◌∙◌,
}
use mem_tier_gds.Base.Integer.{ℤ, pos, negsuc, positive}
use mem_tier_gds.Base.Text.{Text, strip, split_on, drop_empty_parts, parse_int}

-- `[x.strip() for x in value.split(",") if x.strip()]`
unfoldable pub pieces : Text → List Text
pieces value = drop_empty_parts (map strip (split_on b',' value))

-- `int(x)`
abbrev pub int : Text → Result ℤ
int x = elim (parse_int x) [ none ↦ raise value_error | some n ↦ ok n ]

-- `[int(x) for x in pieces]`
abbrev pub ints : List Text → Result (List ℤ)
ints [] = ok []
ints (x ∷ xs) = do n ← int x; ns ← ints xs; ok (n ∷ ns)

-- `any(x <= 0 for x in sizes)`, and the sizes.
abbrev pub all_positive : List ℤ → Result (List ℕ)
all_positive [] = ok []
all_positive (x ∷ xs) = do n ← positive x; ns ← all_positive xs; ok (n ∷ ns)

-- The sizes of given pieces.
unfoldable pub sizes_of : List Text → ℕ → Result (List ℕ)
sizes_of (piece ∷ []) num_fields = do
  x ← int piece
  size ← positive x
  ok (replicate num_fields size)
sizes_of [] num_fields = do refuse (not (0 == num_fields)) value_error; ok []
sizes_of (p ∷ q ∷ ps) num_fields = do
  refuse (not (length (p ∷ q ∷ ps) == num_fields)) value_error
  sizes ← ints (p ∷ q ∷ ps)
  all_positive sizes

unfoldable pub parse_hash_sizes : Text → ℕ → Result (List ℕ)
unfolding pieces sizes_of
parse_hash_sizes value num_fields = sizes_of (pieces value) num_fields

-- The offsets from a total on.
unfoldable pub offsets_from : ℕ → List ℕ → List ℕ
offsets_from total [] = []
offsets_from total (size ∷ sizes) = total ∷ offsets_from (total + size) sizes

unfoldable pub field_offsets_from_hash_sizes : List ℕ → List ℕ
unfolding offsets_from
field_offsets_from_hash_sizes hash_sizes = offsets_from 0 hash_sizes

-- What makes a list the sizes of so many fields.
unfoldable pub AreSizes : ℕ → List ℕ → Type 0
AreSizes num_fields sizes = (length sizes ≡ num_fields) × All (λ size. 0 < size) sizes

module _ {ℓ κ} {R : Type ℓ} {S : Type κ} where
  ok_of_bind :
      (r : Result R) (next : R → Result S) (s : S)
      → (r >>= next) ≡ ok s
      → (x : R) × (r ≡ ok x) × (next x ≡ ok s)
  ok_of_bind (raise e) next s h = grind (arith, h)
  ok_of_bind (ok x) next s h = (x, refl, h)

-- A test that refuses nothing was passed.
same_of_refuse : (a b : ℕ) (e : Error) (u : Unit {0}) → refuse (not (a == b)) e ≡ ok u → a ≡ b
same_of_refuse a b e u h = ground (arith, h)

length-ints : (xs : List Text) (ns : List ℤ) → ints xs ≡ ok ns → length ns ≡ length xs
length-ints [] ns e = grind (arith, e)
length-ints (x ∷ xs) ns e =
    let (n, first, more) = ok_of_bind (int x) (λ n. do ns ← ints xs; ok (n ∷ ns)) ns e in
    let (rest, found, last) = ok_of_bind (ints xs) (λ ns. ok (n ∷ ns)) ns more in
    let ih = length-ints xs rest found in grind (arith, last, ih)

positive_lem : (x : ℤ) (n : ℕ) → positive x ≡ ok n → 0 < n
positive_lem (negsuc k) n e = grind (arith, e)
positive_lem (pos zero) n e = grind (arith, e)
positive_lem (pos (suc k)) n e = grind (arith, e)

all_positive_lem : (xs : List ℤ) (ns : List ℕ) → all_positive xs ≡ ok ns → AreSizes (length xs) ns
unfolding AreSizes
all_positive_lem [] ns e = let same : [] ≡ ns = grind (arith, e) in rw (← same) (refl, tt)
all_positive_lem (x ∷ xs) ns e =
    let (n, first, more) =
      ok_of_bind (positive x) (λ n. do ns ← all_positive xs; ok (n ∷ ns)) ns e in
    let (rest, found, last) = ok_of_bind (all_positive xs) (λ ns. ok (n ∷ ns)) ns more in
    let (len, all) = all_positive_lem xs rest found in
    let same : n ∷ rest ≡ ns = grind (arith, last) in
    rw (← same) (omega (arith, len), (positive_lem x n first, all))

offset_at :
    (sizes : List ℕ) (total field : ℕ)
    → field < length sizes
    → get_elem? (offsets_from total sizes) field ≡ some (total + sum (take field sizes))
unfolding offsets_from
offset_at [] total field lt = absurd (omega arith)
offset_at (size ∷ sizes) total zero lt = ground arith
offset_at (size ∷ sizes) total (suc field) lt =
    ground (arith, offset_at sizes (total + size) field (omega arith))

-- The sizes of pieces that parse are one for each field, and positive.
sizes_of_lem :
    (ps : List Text) (num_fields : ℕ) (sizes : List ℕ)
    → sizes_of ps num_fields ≡ ok sizes
    → AreSizes num_fields sizes
unfolding sizes_of AreSizes
sizes_of_lem [] num_fields sizes e =
    let (u, first, last) =
      ok_of_bind (refuse (not (0 == num_fields)) value_error) (λ _. ok []) sizes e in
    let same : [] ≡ sizes = grind (arith, last) in
    rw (← same) (same_of_refuse 0 num_fields value_error u first, tt)
sizes_of_lem (piece ∷ []) num_fields sizes e =
    let (x, first, more) =
      ok_of_bind (int piece) (λ x. do size ← positive x; ok (replicate num_fields size)) sizes e in
    let (size, found, last) =
      ok_of_bind (positive x) (λ size. ok (replicate num_fields size)) sizes more in
    let same : replicate num_fields size ≡ sizes = grind (arith, last) in
    rw (← same) (
      length-replicate num_fields size,
      All-replicate _ num_fields size (positive_lem x size found),
    )
sizes_of_lem (p ∷ q ∷ ps) num_fields sizes e =
    let (u, first, more) =
      ok_of_bind (refuse (not (length (p ∷ q ∷ ps) == num_fields)) value_error)
        (λ _. do ns ← ints (p ∷ q ∷ ps); all_positive ns) sizes e in
    let (ns, found, last) = ok_of_bind (ints (p ∷ q ∷ ps)) all_positive sizes more in
    let (len, all) = all_positive_lem ns sizes last in
    let count : length (p ∷ q ∷ ps) ≡ num_fields =
      same_of_refuse (length (p ∷ q ∷ ps)) num_fields value_error u first in
    (len ∙ length-ints (p ∷ q ∷ ps) ns found ∙ count, all)

-- Whatever the string, if `parse_hash_sizes` returns, the sizes are one for each field and positive.
pub parse_hash_sizes-AreSizes :
    (value : Text) (num_fields : ℕ) (sizes : List ℕ)
    → parse_hash_sizes value num_fields ≡ ok sizes
    → AreSizes num_fields sizes
unfolding parse_hash_sizes
parse_hash_sizes-AreSizes value = sizes_of_lem (pieces value)

-- The offset of each field is the sum of the sizes of the fields before it.
pub field_offsets_at :
    (hash_sizes : List ℕ) (field : ℕ)
    → field < length hash_sizes
    → get_elem? (field_offsets_from_hash_sizes hash_sizes) field
      ≡ some (sum (take field hash_sizes))
unfolding field_offsets_from_hash_sizes
field_offsets_at hash_sizes field lt =
    let total : 0 + sum (take field hash_sizes) ≡ sum (take field hash_sizes) = omega arith in
    offset_at hash_sizes 0 field lt ∙ ap some total
