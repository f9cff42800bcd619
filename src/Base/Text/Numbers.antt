-- ===== src/Base/Text/Numbers.antt =====
-- `int(str(n))`.
use mem_tier_gds.Base.Lists.{All}
use mem_tier_gds.Base.Tests.{◌==◌, ltb, leb, Bool-cases, ltb→lt}
use mem_tier_gds.Base.Integer.{ℤ, pos, negsuc}
use mem_tier_gds.Base.Text.{
  Text, is_blank, is_empty, digits, decimal, read_digits, read_signed, parse_int,
}
use mem_tier_gds.Base.Text.Words.{IsWord, strip_word}
use Prim.Native.Nat.{ℕ, zero, suc, ◌+◌, ◌-◌, ◌*◌, ◌/◌, ◌%◌, ◌<◌}
use mathlib.Core.Bool.{Bool, true, false, ◌&&◌}
use mathlib.Core.List.{[], ◌∷◌}
use mathlib.Core.Logic.{inl, inr}
use mathlib.Core.Option.{some}
use mathlib.Core.Path.{◌≡◌, refl, ap, ◌∙◌}
use native.Mathlib.Omega.{arith}

-- What holds of the ten digits holds of the characters of a number.
module _ {κ} (P : ℕ → Type κ) (h : (n : ℕ) → P (b'0' + n % 10)) where
  digits-All : (fuel n : ℕ) (out : Text) → All P out → All P (digits fuel n out)
  unfolding digits
  digits-All zero n out hs = hs
  digits-All (suc fuel) n out hs =
      let rest = digits-All fuel (n / 10) ((b'0' + n % 10) ∷ out) (h n, hs) in
      elim (Bool-cases (ltb n 10)) [ inl small ↦ rw small (h n, hs) | inr large ↦ rw large rest ]

  pub decimal-All : (n : ℕ) → All P (decimal n)
  unfolding decimal
  decimal-All n = digits-All (suc n) n [] tt

is_digit : (n : ℕ) → (leb b'0' (b'0' + n % 10) && leb (b'0' + n % 10) b'9') ≡ true
is_digit n = let small : n % 10 < 10 = omega arith in ground (arith, small)

no_separator : (n : ℕ) (after : Bool) → ((b'0' + n % 10) == b'_' && after) ≡ false
no_separator n after = let small : n % 10 < 10 = omega arith in ground (arith, small)

read_digit :
    (n acc : ℕ) (out : Text) (after : Bool)
    → read_digits ((b'0' + n % 10) ∷ out) after acc ≡ read_digits out true (acc * 10 + n % 10)
unfolding read_digits
read_digit n acc out after =
    let value : b'0' + n % 10 - b'0' ≡ n % 10 = omega arith in
    rw (no_separator n after, is_digit n, value) refl

read-digits :
    (fuel n : ℕ) (out : Text) (after : Bool)
    → n < fuel
    → read_digits (digits fuel n out) after 0 ≡ read_digits out true n
unfolding digits
read-digits zero n out after lt = absurd (omega arith)
read-digits (suc fuel) n out after lt =
    let rest =
      λ (more : n / 10 < fuel). read-digits fuel (n / 10) ((b'0' + n % 10) ∷ out) after more in
    elim (Bool-cases (ltb n 10)) [
      | inl small ↦
          let below = ltb→lt n 10 small in
          let value : 0 * 10 + n % 10 ≡ n = omega (arith, below) in
          rw small (read_digit n 0 out after ∙ ap (read_digits out true) value)
      | inr large ↦
          let value : n / 10 * 10 + n % 10 ≡ n = omega arith in
          let shorter : n / 10 < fuel = ground (arith, large, lt) in
          rw large (rest shorter ∙ read_digit n (n / 10) out true ∙ ap (read_digits out true) value)
    ]

read-decimal : (n : ℕ) (after : Bool) → read_digits (decimal n) after 0 ≡ some n
unfolding decimal read_digits
read-decimal n after = read-digits (suc n) n [] after (omega arith)

-- `str(x)`
unfoldable pub print_int : ℤ → Text
print_int (pos n) = decimal n
print_int (negsuc n) = b'-' ∷ decimal (suc n)

digit_not_blank : (n : ℕ) → is_blank (b'0' + n % 10) ≡ false
digit_not_blank n = let small : n % 10 < 10 = omega arith in ground (arith, small)

-- A number starts with a digit.
IsUnsigned : Text → Type 0
IsUnsigned [] = ⊥
IsUnsigned (c ∷ s) = ((c == b'-') ≡ false) × ((c == b'+') ≡ false)

unsigned : (n : ℕ) (out : Text) → IsUnsigned ((b'0' + n % 10) ∷ out)
unfolding IsUnsigned
unsigned n out =
    let small : n % 10 < 10 = omega arith in (ground (arith, small), ground (arith, small))

unsigned_full : (s : Text) → IsUnsigned s → is_empty s ≡ false
unfolding IsUnsigned
unsigned_full [] h = absurd h
unsigned_full (c ∷ s) h = refl

digits-IsUnsigned : (fuel n : ℕ) (out : Text) → IsUnsigned out → IsUnsigned (digits fuel n out)
unfolding digits
digits-IsUnsigned zero n out h = h
digits-IsUnsigned (suc fuel) n out h =
    let rest = digits-IsUnsigned fuel (n / 10) ((b'0' + n % 10) ∷ out) (unsigned n out) in
    elim (Bool-cases (ltb n 10)) [
      | inl small ↦ rw small (unsigned n out)
      | inr large ↦ rw large rest
    ]

decimal-IsUnsigned : (n : ℕ) → IsUnsigned (decimal n)
unfolding decimal digits
decimal-IsUnsigned n = elim (Bool-cases (ltb n 10)) [
  | inl small ↦ rw small (unsigned n [])
  | inr large ↦ rw large (digits-IsUnsigned n (n / 10) ((b'0' + n % 10) ∷ []) (unsigned n []))
]

signed :
    (s : Text) (n : ℕ)
    → IsUnsigned s
    → read_digits s false 0 ≡ some n
    → read_signed s ≡ some (pos n)
unfolding IsUnsigned read_signed
signed [] n h r = absurd h
signed (c ∷ s) n (minus, plus) r = rw (minus, plus, r) refl

-- A number is printed as a word.
pub print_int-IsWord : (x : ℤ) → IsWord (print_int x)
unfolding print_int
print_int-IsWord (pos n) =
    (unsigned_full (decimal n) (decimal-IsUnsigned n), decimal-All _ digit_not_blank n)
print_int-IsWord (negsuc n) = (refl, (refl, decimal-All _ digit_not_blank (suc n)))

-- A number that is printed is read back.
pub parse_int-print_int : (x : ℤ) → parse_int (print_int x) ≡ some x
unfolding parse_int print_int read_signed
parse_int-print_int (pos n) =
    rw (strip_word (decimal n) (decimal-All _ digit_not_blank n))
      (signed (decimal n) n (decimal-IsUnsigned n) (read-decimal n false))
parse_int-print_int (negsuc n) =
    rw
      (
        strip_word (b'-' ∷ decimal (suc n)) (print_int-IsWord (negsuc n)).1,
        read-decimal (suc n) false,
      )
      refl
