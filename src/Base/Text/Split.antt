-- ===== src/Base/Text/Split.antt =====
-- `split` of texts that were joined.
use mem_tier_gds.Base.Lists.{All}
use mem_tier_gds.Base.Tests.{◌==◌}
use mem_tier_gds.Base.Text.{Text, split_on, join, decimal}
use mem_tier_gds.Base.Text.Numbers.{decimal-All}
use Prim.Native.Nat.{ℕ, ◌+◌, ◌%◌, ◌<◌}
use mathlib.Core.Bool.{false}
use mathlib.Core.List.{List, [], ◌∷◌, ◌++◌}
use mathlib.Core.Logic.{◌⊎◌}
use mathlib.Core.Path.{◌≡◌, refl}
use native.Mathlib.Omega.{arith}

-- The character does not stand in the text.
abbrev pub Avoids : ℕ → Text → Type 0
Avoids sep = All (λ c. (c == sep) ≡ false)

pub split_plain :
    (sep : ℕ) (p rest : Text) (q : Text) (qs : List Text)
    → Avoids sep p
    → split_on sep rest ≡ q ∷ qs
    → split_on sep (p ++ sep ∷ rest) ≡ p ∷ q ∷ qs
unfolding split_on
split_plain sep [] rest q qs h e = ground (arith, e)
split_plain sep (c ∷ p) rest q qs h e = ground (arith, h.0, split_plain sep p rest q qs h.1 e)

pub split_last : (sep : ℕ) (p : Text) → Avoids sep p → split_on sep p ≡ p ∷ []
unfolding split_on
split_last sep [] h = refl
split_last sep (c ∷ p) h = ground (arith, h.0, split_last sep p h.1)

pub split-join :
    (sep : ℕ) (p : Text) (ps : List Text)
    → All (Avoids sep) (p ∷ ps)
    → split_on sep (join sep (p ∷ ps)) ≡ p ∷ ps
split-join sep p [] h = split_last sep p h.0
split-join sep p (q ∷ ps) h =
    split_plain sep p (join sep (q ∷ ps)) q ps h.0 (split-join sep q ps h.1)

module _ (sep : ℕ) (other : (sep < b'0') ⊎ (b'9' < sep)) where
  no_digit : (n : ℕ) → ((b'0' + n % 10) == sep) ≡ false
  no_digit n = let small : n % 10 < 10 = omega arith in ground (arith, other, small)

  -- A number is printed in digits.
  pub decimal-Avoids : (n : ℕ) → Avoids sep (decimal n)
  decimal-Avoids n = decimal-All (λ c. (c == sep) ≡ false) no_digit n
