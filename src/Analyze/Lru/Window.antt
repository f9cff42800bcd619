-- ===== src/Analyze/Lru/Window.antt =====
-- An LRU cache is a window on the blocks used so far, the most recent first.
use mem_tier_gds.Base.{
  ℕ, zero, suc, ◌≤◌, ◌<◌, true, false, List, [], ◌∷◌, ◌++◌, append-nil, ◌≡◌, refl, sym, ap, arith,
  length, take, inl, inr, Bool-cases, contains, remove, Distinct, ltb, ltb→lt, if◌then◌else◌,
  remove_absent, remove-Distinct, contains-remove_self, length-append, length-take, contains-append,
  take_of_length-le,
}
use mathlib.Core.List.{reverse, reverse-cons, reverse-append}
use mem_tier_gds.Analyze.Lru.{touch, pop_first, shrink, move_to_end}

-- Every block used so far, once, the most recently used first.
abbrev pub stack : List ℕ → List ℕ
stack [] = []
stack (x ∷ past) = x ∷ remove x (stack past)

pub stack-Distinct : (past : List ℕ) → Distinct (stack past)
stack-Distinct [] = tt
stack-Distinct (x ∷ past) = (
  contains-remove_self x (stack past) (stack-Distinct past),
  remove-Distinct x (stack past) (stack-Distinct past),
)

pub contains-reverse : (x : ℕ) (l : List ℕ) → contains x (reverse l) ≡ contains x l
unfolding contains
contains-reverse x [] = refl
contains-reverse x (y ∷ l) =
    rw (reverse-cons, contains-append) (ground (arith, contains-reverse x l))

remove-append :
    (x : ℕ) (a b : List ℕ)
    → remove x (a ++ b) ≡ (if contains x a then remove x a ++ b else a ++ remove x b)
unfolding contains remove
remove-append x [] b = refl
remove-append x (y ∷ a) b = ground (arith, remove-append x a b)

remove-singleton_self : (x : ℕ) → remove x (x ∷ []) ≡ []
unfolding remove
remove-singleton_self x = ground arith

remove-reverse : (x : ℕ) (l : List ℕ) → Distinct l → remove x (reverse l) ≡ reverse (remove x l)
unfolding contains remove
remove-reverse x [] d = refl
remove-reverse x (y ∷ l) d =
    rw (reverse-cons, remove-append, contains-reverse)
      (ground (
        arith,
        remove-reverse x l d.1,
        append-nil (reverse l),
        reverse-cons y (remove x l),
        remove_absent x l,
        reverse-cons y l,
      ))

-- Cutting and removing, where the element stands inside the cut.
take-remove_inside :
    (n x : ℕ) (l : List ℕ)
    → contains x (take (suc n) l) ≡ true
    → remove x (take (suc n) l) ≡ take n (remove x l)
unfolding contains remove
take-remove_inside n x [] h = cc
take-remove_inside zero x (y ∷ l) h = ground arith
take-remove_inside (suc n) x (y ∷ l) h = ground (arith, take-remove_inside n x l)

-- ... and where it does not.
take-remove_outside :
    (n x : ℕ) (l : List ℕ) → contains x (take n l) ≡ false → take n (remove x l) ≡ take n l
unfolding contains remove
take-remove_outside zero x l h = refl
take-remove_outside (suc n) x [] h = refl
take-remove_outside (suc n) x (y ∷ l) h = ground (arith, take-remove_outside n x l)

take-suc : (n : ℕ) (l : List ℕ) → n < length l → (z : ℕ) × (take (suc n) l ≡ take n l ++ z ∷ [])
take-suc n [] h = absurd (omega arith)
take-suc zero (y ∷ l) h = (y, refl)
take-suc (suc n) (y ∷ l) h = let (z, e) = take-suc n l (omega arith) in (z, ap (◌∷◌ y) e)

pop_first-reverse :
    (n : ℕ) (l : List ℕ) → n < length l → pop_first (reverse (take (suc n) l)) ≡ reverse (take n l)
unfolding pop_first
pop_first-reverse n l h = let (z, e) = take-suc n l h in rw (e, reverse-append) refl

length-reverse : (l : List ℕ) → length (reverse l) ≡ length l
length-reverse [] = refl
length-reverse (x ∷ l) = rw (reverse-cons, length-append) (omega (arith, length-reverse l))

shrink-window :
    (cap : ℕ) (l : List ℕ) → shrink cap (reverse (take (suc cap) l)) ≡ reverse (take cap l)
unfolding shrink
shrink-window cap l = elim (Bool-cases (ltb cap (length (reverse (take (suc cap) l))))) [
  | inl full ↦ rw full (
      pop_first-reverse cap l (
        omega (arith, ltb→lt _ _ full, length-reverse (take (suc cap) l), length-take (suc cap) l)))
  | inr room ↦
      let short : length l ≤ cap =
        ground (arith, length-reverse (take (suc cap) l), length-take (suc cap) l) in
      rw (room, take_of_length-le (suc cap) l (omega arith), take_of_length-le cap l short)
]

-- A window on more blocks holds at least as many.
pub contains-take_mono :
    (m n x : ℕ) (l : List ℕ) → m ≤ n → contains x (take m l) ≡ true → contains x (take n l) ≡ true
unfolding contains
contains-take_mono zero n x l le h = cc
contains-take_mono (suc m) zero x l le h = absurd (omega arith)
contains-take_mono (suc m) (suc n) x [] le h = h
contains-take_mono (suc m) (suc n) x (y ∷ l) le h =
    ground (arith, contains-take_mono m n x l (omega arith))

pub contains_of_contains-take :
    (n x : ℕ) (l : List ℕ) → contains x (take n l) ≡ true → contains x l ≡ true
unfolding contains
contains_of_contains-take zero x l h = cc
contains_of_contains-take (suc n) x [] h = h
contains_of_contains-take (suc n) x (y ∷ l) h = ground (arith, contains_of_contains-take n x l)

take-Distinct : (n : ℕ) (l : List ℕ) → Distinct l → Distinct (take n l)
unfolding contains
take-Distinct zero l d = tt
take-Distinct (suc n) [] d = tt
take-Distinct (suc n) (x ∷ l) d =
    ground (arith, contains_of_contains-take n x l, take-Distinct n l d.1)

touch_inside :
    (n x : ℕ) (l : List ℕ)
    → Distinct l
    → contains x (take (suc n) l) ≡ true
    → move_to_end x (reverse (take (suc n) l)) ≡ reverse (take (suc n) (x ∷ remove x l))
unfolding move_to_end
touch_inside n x l d inside =
    rw
      (
        remove-reverse x (take (suc n) l) (take-Distinct (suc n) l d),
        take-remove_inside n x l inside,
      )
      (sym (reverse-cons x (take n (remove x l))))

touch_outside :
    (n x : ℕ) (l : List ℕ)
    → contains x (take n l) ≡ false
    → shrink (suc n) (reverse (take (suc n) l) ++ x ∷ []) ≡ reverse (take (suc n) (x ∷ remove x l))
touch_outside n x l outside =
    rw (← reverse-cons, take-remove_outside n x l outside) (shrink-window (suc n) (x ∷ l))

-- One access moves the window on, whether it hits or misses.
pub touch-window :
    (cap x : ℕ) (l : List ℕ)
    → Distinct l
    → touch cap x (reverse (take cap l)) ≡ reverse (take cap (x ∷ remove x l))
unfolding touch contains
touch-window zero x l d = refl
touch-window (suc n) x l d = elim (Bool-cases (contains x (take (suc n) l))) [
  | inl inside ↦ rw (contains-reverse, inside) (touch_inside n x l d inside)
  | inr outside ↦
      rw (contains-reverse, outside)
        (touch_outside n x l (ground (arith, contains-take_mono n (suc n) x l (omega arith))))
]
