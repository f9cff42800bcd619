-- ===== src/Datasets/Rows.antt =====
-- Parts of a file of rows of one width, as values.
use native.Mathlib.Nat.{zero-add, zero-mul, suc-add, add-mul, mul-le-mul_right}
use mem_tier_gds.Base.{
  ℕ, zero, suc, ◌+◌, ◌-◌, ◌*◌, ◌≤◌, ◌<◌, min, List, [], ◌∷◌, ◌++◌, ◌≡◌, refl, ◌⊎◌, inl, inr, ap,
  arith, length, take, drop, drop-drop, take-nil, length-take, length-drop, raise, index_error,
}
use mem_tier_gds.Base.Integer.{pos}
use mem_tier_gds.Datasets.{check_index}

module _ {ℓ} {A : Type ℓ} where
  pub take-drop-take :
      (a s n : ℕ) (l : List A) → s + a ≤ n → take a (drop s (take n l)) ≡ take a (drop s l)
  take-drop-take zero s n l le = refl
  take-drop-take (suc a) s zero l le = absurd (omega arith)
  take-drop-take (suc a) zero (suc n) [] le = refl
  take-drop-take (suc a) (suc s) (suc n) [] le = refl
  take-drop-take (suc a) zero (suc n) (x ∷ l) le =
      ap (◌∷◌ x) (take-drop-take a zero n l (omega arith))
  take-drop-take (suc a) (suc s) (suc n) (x ∷ l) le = take-drop-take (suc a) s n l (omega arith)

  take-append-take : (a b : ℕ) (l : List A) → take a l ++ take b (drop a l) ≡ take (a + b) l
  take-append-take zero b l = rw zero-add refl
  take-append-take (suc a) b [] = rw suc-add (take-nil b)
  take-append-take (suc a) b (x ∷ l) = rw suc-add (ap (◌∷◌ x) (take-append-take a b l))

  -- The rows from a start on, so many, of a file of rows of one width.
  abbrev pub rows_at : ℕ → List A → ℕ → ℕ → List A
  rows_at cols l start size = take (size * cols) (drop (start * cols) l)

  rows_at-append :
      (cols : ℕ) (l : List A) (start a b : ℕ)
      → rows_at cols l start a ++ rows_at cols l (start + a) b ≡ rows_at cols l start (a + b)
  rows_at-append cols l start a b =
      rw (add-mul start a cols, add-mul a b cols, ← drop-drop (a * cols) (start * cols) l)
        (take-append-take (a * cols) (b * cols) (drop (start * cols) l))

  pub length-rows_at :
      (cols : ℕ) (l : List A) (start size : ℕ)
      → start * cols + size * cols ≤ length l
      → length (rows_at cols l start size) ≡ size * cols
  length-rows_at cols l start size le =
      omega (arith, length-take (size * cols) (drop (start * cols) l), length-drop (start * cols) l)

  pub rows_at-zero : (cols : ℕ) (l : List A) (start : ℕ) → rows_at cols l start 0 ≡ []
  rows_at-zero cols l start = rw (zero-mul cols) refl

  pub rows_at-next :
      (cols : ℕ) (l : List A) (start next size rest total : ℕ)
      → size + rest ≡ total
      → (next ≡ start + size) ⊎ (rest ≡ 0)
      → rows_at cols l start size ++ rows_at cols l next rest ≡ rows_at cols l start total
  rows_at-next cols l start next size rest total e (inl follows) =
      rw (follows, ← e) (rows_at-append cols l start size rest)
  rows_at-next cols l start next size rest total e (inr last) =
      let whole : size + 0 ≡ total = omega (arith, e, last) in
      rw (last, rows_at-zero cols l next, ← rows_at-zero cols l (start + size), ← whole)
        (rows_at-append cols l start size 0)

-- A batch is whole, or none follows it.
pub next_start : (i b r : ℕ) → ((i + 1) * b ≡ i * b + min b (r - i * b)) ⊎ (r - (i + 1) * b ≡ 0)
next_start i b r = let step : (i + 1) * b ≡ i * b + b = omega arith in ground (arith, step)

pub next_rest : (i b r : ℕ) → min b (r - i * b) + (r - (i + 1) * b) ≡ r - i * b
next_rest i b r = let step : (i + 1) * b ≡ i * b + b = omega arith in omega (arith, step)

pub scaled_le : (a b r c n : ℕ) → a + b ≤ r → r * c ≤ n → a * c + b * c ≤ n
scaled_le a b r c n h1 h2 =
    let wide : (a + b) * c ≤ r * c = mul-le-mul_right c h1 in omega (arith, wide, h2, add-mul a b c)

pub whole_rows :
    {F : Type 0}
    → (cols : ℕ) (l : List F) (b r : ℕ) → rows_at cols l (0 * b) (r - 0 * b) ≡ take (r * cols) l
whole_rows cols l b r =
    let all : r - 0 * b ≡ r = omega arith in
    let start : 0 * b * cols ≡ 0 = rw (zero-mul b, zero-mul cols) refl in rw (all, start) refl

pub check_past : (i n : ℕ) → n ≤ i → check_index (pos i) n ≡ raise index_error
check_past i n le = ground (arith, le)

pub lt_or_le : (i n : ℕ) → (i < n) ⊎ (n ≤ i)
lt_or_le i n = ground arith
