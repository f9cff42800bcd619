-- ===== src/Bench/Torch/Bags.antt =====
-- The offsets of bags.
use mem_tier_gds.Base.{
  ℕ, zero, suc, ◌+◌, ◌*◌, ◌≤◌, ◌<◌, List, [], ◌∷◌, map, ◌≡◌, refl, ap, arith, ok, ceil_div, gather,
}
use mem_tier_gds.Bench.Torch.{torch_arange}

-- From one offset on the offsets do not fall, and the last is `n`.
abbrev pub Rises : ℕ → ℕ → List ℕ → Type 0
Rises from n [] = from ≡ n
Rises from n (o ∷ offsets) = (from ≤ o) × Rises o n offsets

-- What `EmbeddingBag` asks of the offsets of `n` ids, with the last offset included: the first is 0,
-- none is less than the one before it, and the last is where the ids end.
unfoldable pub AreOffsets : ℕ → List ℕ → Type 0
AreOffsets n [] = ⊥
AreOffsets n (o ∷ offsets) = (o ≡ 0) × Rises 0 n offsets

multiples-Rises :
    (bag i k n : ℕ)
    → i + k ≡ n
    → Rises (i * bag) (n * bag) (map (λ j. j * bag) (gather (λ j. j) (i + 1) k))
multiples-Rises bag i zero n e = let same : i ≡ n = omega (arith, e) in ap (◌* bag) same
multiples-Rises bag i (suc k) n e =
    (omega arith, multiples-Rises bag (i + 1) k n (omega (arith, e)))

pub torch_arange-AreOffsets :
    (size bag : ℕ)
    → 0 < bag
    → (offsets : List ℕ) × (torch_arange (size * bag + 1) bag ≡ ok offsets)
      × AreOffsets (size * bag) offsets
unfolding torch_arange AreOffsets
torch_arange-AreOffsets size zero pos = absurd (omega arith)
torch_arange-AreOffsets size (suc bag) pos =
    let count : ceil_div (size * suc bag + 1) (suc bag) ≡ suc size = grind arith in
    let start : 0 * suc bag ≡ 0 = omega arith in
    let rises : Rises 0 (size * suc bag) (map (λ j. j * suc bag) (gather (λ j. j) 1 size)) =
      rw start at (multiples-Rises (suc bag) 0 size size (omega arith)) in
    (_, refl, rw count (start, rises))
