-- ===== src/Base/Action.antt =====
-- Statements that change a state and may raise: the state also comes back after a raise.
use mem_tier_gds.Base.Exceptions.{Result, ok, raise}
use mathlib.Core.Path.{◌≡◌, ◌∙◌}
use native.Mathlib.Omega.{arith}

abbrev pub Action : Type 0 → Type 0 → Type 0
Action W R = W → Result R × W

infixl 5 ◌>>=◌ ◌>>◌
-- What follows the outcome of a statement.
abbrev pub after : {W R Q : Type 0} → Result R × W → (R → Action W Q) → Result Q × W
after (ok a, w) next = next a w
after (raise e, w) next = (raise e, w)

abbrev pub ◌>>=◌ : {W R Q : Type 0} → Action W R → (R → Action W Q) → Action W Q
◌>>=◌ m next w = after (m w) next

abbrev pub ◌>>◌ : {W R Q : Type 0} → Action W R → Action W Q → Action W Q
first >> next = first >>= λ _. next

abbrev pub lift : {W R : Type 0} → Result R → Action W R
lift r w = (r, w)

-- A statement that cannot raise.
abbrev pub change : {W : Type 0} → (W → W) → Action W (Unit {0})
change f w = (ok tt, f w)

abbrev pub read : {W R : Type 0} → (W → R) → Action W R
read f w = (ok (f w), w)

-- In every state the statement returns, and what it returns has the property.
unfoldable pub Ends : {W R : Type 0} → Action W R → (R → Type 0) → Type 0
Ends {W} {R} act P = (w : W) → (a : R) × ((act w).0 ≡ ok a) × P a

pub after-ok :
    {W R Q : Type 0} (out : Result R × W) (a : R) (next : R → Action W Q)
    → out.0 ≡ ok a
    → (after out next).0 ≡ (next a out.1).0
after-ok (ok b, w) a next e = grind (arith, e)
after-ok (raise b, w) a next e = cc

pub bind-Ends :
    {W R Q : Type 0} (P : R → Type 0) (S : Q → Type 0) (act : Action W R) (next : R → Action W Q)
    → Ends act P
    → ((a : R) → P a → Ends (next a) S)
    → Ends (act >>= next) S
unfolding Ends
bind-Ends P S act next first rest w =
    let (a, returned, p) = first w in
    let (b, later, q) = rest a p (act w).1 in (b, after-ok (act w) a next returned ∙ later, q)

pub lift-Ends :
    (W : Type 0) {R : Type 0} (P : R → Type 0) (r : Result R) (a : R)
    → r ≡ ok a
    → P a
    → Ends {W = W} (lift r) P
unfolding Ends
lift-Ends W P r a e p w = (a, e, p)
