-- ===== src/Base/Integer.antt =====
-- Python ints that may be negative: the results of `int(…)`.
use Prim.Native.Nat.{ℕ, zero, suc, ◌<◌}
use mathlib.Core.Path.{◌≡◌, refl}
use native.Mathlib.Omega.{arith}
use mem_tier_gds.Base.Exceptions.{Result, ok, raise, value_error}

-- `negsuc n` is -(n + 1).
pub data ℤ : Type 0 where
  pos : ℕ → ℤ
  negsuc : ℕ → ℤ

-- `-n`
abbrev pub negate : ℕ → ℤ
negate zero = pos 0
negate (suc n) = negsuc n

-- A number, unless it is refused by `n <= 0`.
abbrev pub positive : ℤ → Result ℕ
positive (negsuc n) = raise value_error
positive (pos zero) = raise value_error
positive (pos (suc n)) = ok (suc n)

pub positive_at : (n : ℕ) → 0 < n → positive (pos n) ≡ ok n
positive_at zero h = absurd (omega arith)
positive_at (suc n) h = refl
