-- ===== src/Base/Chunks.antt =====
-- Cutting a list into consecutive slices of one length, the last one shorter.
use Prim.Native.Nat.{ℕ, zero, suc, ◌+◌, ◌-◌, ◌*◌, ◌/◌, ◌≤◌, ◌<◌, min}
use mathlib.Core.List.{List, [], ◌∷◌, ◌++◌, flatten}
use mathlib.Core.Logic.{◌⊎◌, inl, inr}
use mathlib.Core.Path.{◌≡◌, refl, ap, sym, ◌∙◌}
use native.Mathlib.Omega.{arith}
use mem_tier_gds.Base.Lists.{
  All, All-take, All-drop, length-append, drop_of_length-le, flatten-append, length, take, drop,
  take-append-drop, drop-drop, length-drop, length-take, take_of_length-le,
}

-- `(n + size - 1) // size`
abbrev pub ceil_div : ℕ → ℕ → ℕ
ceil_div n size = (n + size - 1) / size

pub ceil_div-covers : (n size : ℕ) → 0 < size → n ≤ ceil_div n size * size
ceil_div-covers n size pos = grind arith

pub lt_of_lt-ceil_div : (n size i : ℕ) → 0 < size → i < ceil_div n size → i * size < n
lt_of_lt-ceil_div n size i pos lt = grind arith

module _ {ℓ} {A : Type ℓ} where
  -- `l[start : min(len(l), start + size)]`
  abbrev pub slice : ℕ → ℕ → List A → List A
  slice start end l = take (end - start) (drop start l)

  take_past_end :
      (m k : ℕ) (l : List A) → (m ≡ k) ⊎ ((length l ≤ m) × (length l ≤ k)) → take m l ≡ take k l
  take_past_end m k l (inl e) = rw e
  take_past_end m k l (inr (hm, hk)) = rw (take_of_length-le m l hm, take_of_length-le k l hk)

  pub slice_lem :
      (start size : ℕ) (l : List A)
      → slice start (min (length l) (start + size)) l ≡ take size (drop start l)
  slice_lem start size l =
      let len : length (drop start l) ≡ length l - start = length-drop start l in
      take_past_end (min (length l) (start + size) - start) size (drop start l) (omega arith)

  pub slice-append-drop :
      (start size : ℕ) (l : List A)
      → slice start (min (length l) (start + size)) l ++ drop (start + size) l ≡ drop start l
  slice-append-drop start size l =
      rw (slice_lem, ← drop-drop) (take-append-drop size (drop start l))

module _ {ℓ} {B : Type ℓ} where
  -- `[g(i), g(i + 1), …]`, so many.
  abbrev pub gather : (ℕ → B) → ℕ → ℕ → List B
  gather g i zero = []
  gather g i (suc m) = g i ∷ gather g (i + 1) m

  pub length-gather : (g : ℕ → B) (i m : ℕ) → length (gather g i m) ≡ m
  length-gather g i zero = refl
  length-gather g i (suc m) = ap suc (length-gather g (i + 1) m)

module _ {ℓ} {A : Type ℓ} (size : ℕ) (l : List A) where
  -- The slice number `j`.
  abbrev pub nth_slice : ℕ → List A
  nth_slice j = slice (j * size) (min (length l) (j * size + size)) l

  -- The slices from number `i` to the last are the list from there on: none is left out, and none
  -- overlaps the next.
  pub flatten-gather-slices :
      (i m : ℕ)
      → 0 < size
      → i + m ≡ ceil_div (length l) size
      → flatten (gather nth_slice i m) ≡ drop (i * size) l
  unfolding flatten
  flatten-gather-slices i zero pos e =
      let last : i ≡ ceil_div (length l) size = omega arith in
      let past : length l ≤ i * size = rw last (ceil_div-covers (length l) size pos) in
      rw (drop_of_length-le (i * size) l past)
  flatten-gather-slices i (suc m) pos e =
      let next : (i + 1) * size ≡ i * size + size = omega arith in
      let ih : flatten (gather nth_slice (i + 1) m) ≡ drop (i * size + size) l =
        rw (← next) (flatten-gather-slices (i + 1) m pos (omega arith)) in
      rw ih (slice-append-drop (i * size) size l)

  pub flatten_all_slices : 0 < size → flatten (gather nth_slice 0 (ceil_div (length l) size)) ≡ l
  flatten_all_slices pos =
      let start : 0 * size ≡ 0 = omega arith in
      flatten-gather-slices 0 (ceil_div (length l) size) pos (omega arith)
      ∙ ap (λ k. drop k l) start

  pub length-nth_slice-le : (j : ℕ) → length (nth_slice j) ≤ size
  length-nth_slice-le j = rw slice_lem (omega (arith, length-take size (drop (j * size) l)))

module _ {ℓ} {A : Type ℓ} where
  pub flatten-gather-flatten :
      (g : ℕ → List (List A)) (i m : ℕ)
      → flatten (gather (λ j. flatten (g j)) i m) ≡ flatten (flatten (gather g i m))
  unfolding flatten
  flatten-gather-flatten g i zero = refl
  flatten-gather-flatten g i (suc m) =
      rw (flatten-gather-flatten g (i + 1) m)
        (sym (flatten-append (g i) (flatten (gather g (i + 1) m))))

module _ {ℓ κ} {B : Type ℓ} (P : B → Type κ) (g : ℕ → B) (h : (j : ℕ) → P (g j)) where
  pub All-gather : (i m : ℕ) → All P (gather g i m)
  All-gather i zero = tt
  All-gather i (suc m) = (h i, All-gather (i + 1) m)

-- Rows of one width.
abbrev pub IsRectangular {ℓ} : {A : Type ℓ} → ℕ → List (List A) → Type 0
IsRectangular width = All (λ row. length row ≡ width)

pub length-flatten {ℓ} :
    {A : Type ℓ} (width : ℕ) (rows : List (List A))
    → IsRectangular width rows
    → length (flatten rows) ≡ length rows * width
unfolding flatten
length-flatten width [] h = omega arith
length-flatten width (r ∷ rows) h =
    omega (arith, length-append r (flatten rows), length-flatten width rows h.1, h.0)

pub length-flatten-nth_slice-le {ℓ} :
    {A : Type ℓ} (size width : ℕ) (rows : List (List A)) (j : ℕ)
    → IsRectangular width rows
    → length (flatten (nth_slice size rows j)) ≤ size * width
length-flatten-nth_slice-le size width rows j h =
    let part : IsRectangular width (nth_slice size rows j) =
      All-take _ _ (drop (j * size) rows) (All-drop _ (j * size) rows h) in
    let whole : length (flatten (nth_slice size rows j)) ≡ length (nth_slice size rows j) * width =
      length-flatten width (nth_slice size rows j) part in
    let short : length (nth_slice size rows j) ≤ size = length-nth_slice-le size rows j in
    grind arith
