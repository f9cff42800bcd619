-- ===== src/Base/Exceptions.antt =====
-- Python exceptions as values. A call returns or raises one of the exception classes that the
-- sources raise; the messages are not modelled, save for the number that some of them carry.
use Prim.Native.Nat.{ℕ}
use mathlib.Core.List.{List}
use mathlib.Core.Option.{none, some}
use mem_tier_gds.Base.Lists.{get_elem?}
use mathlib.Core.Bool.{Bool, true, false}
use mathlib.Core.Logic.{◌⊎◌, inl, inr}
use mathlib.Core.Path.{◌≡◌, refl}

pub data Error : Type 0 where
  value_error : Error
  index_error : Error
  key_error : Error
  runtime_error : Error
  overflow_error : Error
  type_error : Error
  zero_division : Error
  system_exit : Error
  -- a `ValueError` whose message names a line
  line_error : ℕ → Error

pub data Result {ℓ} (R : Type ℓ) : Type ℓ where
  raise : Error → Result R
  ok : R → Result R

infixl 5 ◌>>=◌ ◌>>◌
-- What follows a statement that may raise.
abbrev pub ◌>>=◌ {ℓ κ} : {R : Type ℓ} {S : Type κ} → Result R → (R → Result S) → Result S
raise e >>= next = raise e
ok r >>= next = next r

abbrev pub ◌>>◌ {κ} : {S : Type κ} → Result (Unit {0}) → Result S → Result S
first >> next = first >>= λ _. next

-- `if bad: raise e`
abbrev pub refuse : Bool → Error → Result (Unit {0})
refuse true e = raise e
refuse false e = ok tt

-- `l[i]`, for an index that is not negative.
abbrev pub at_index {ℓ} : {A : Type ℓ} → List A → ℕ → Result A
at_index l i = elim (get_elem? l i) [ none ↦ raise index_error | some a ↦ ok a ]

pub Result-cases {ℓ} :
    {R : Type ℓ} (r : Result R) → ((a : R) × (r ≡ ok a)) ⊎ ((e : Error) × (r ≡ raise e))
Result-cases (ok a) = inl (a, refl)
Result-cases (raise e) = inr (e, refl)

pub at_index-some {ℓ} :
    {A : Type ℓ} (l : List A) (i : ℕ) (a : A) → get_elem? l i ≡ some a → at_index l i ≡ ok a
at_index-some l i a e = rw (at_index, e) refl
