-- ===== src/Base/Text/Words.antt =====
-- `strip` and `split` of words.
use mem_tier_gds.Base.Lists.{All}
use mem_tier_gds.Base.Text.{
  Text, is_blank, is_empty, lstrip, rstrip_if, strip, split_blanks, split_words, drop_empty_parts,
  join,
}
use mathlib.Core.Bool.{Bool, true, false, ◌&&◌}
use mathlib.Core.List.{List, [], ◌∷◌, ◌++◌, append_assoc, append-nil}
use mathlib.Core.Path.{◌≡◌, refl, ap, sym, ◌∙◌}
use native.Mathlib.Omega.{arith}

-- A word: at least a character, and no white space.
abbrev pub IsBlankFree : Text → Type 0
IsBlankFree = All (λ c. is_blank c ≡ false)

abbrev pub IsWord : Text → Type 0
IsWord p = (is_empty p ≡ false) × IsBlankFree p

and_false : (b : Bool) → (b && false) ≡ false
and_false true = refl
and_false false = refl

rstrip_word : (p : Text) → IsBlankFree p → rstrip_if is_blank p ≡ p
unfolding rstrip_if
rstrip_word [] h = refl
rstrip_word (c ∷ p) h = rw (rstrip_word p h.1, h.0, and_false (is_empty p)) refl

rstrip_newline : (p : Text) → IsBlankFree p → rstrip_if is_blank (p ++ 10 ∷ []) ≡ p
unfolding rstrip_if
rstrip_newline [] h = refl
rstrip_newline (c ∷ p) h = rw (rstrip_newline p h.1, h.0, and_false (is_empty p)) refl

full-append : (s p : Text) → is_empty p ≡ false → is_empty (s ++ p) ≡ false
full-append [] p h = h
full-append (c ∷ s) p h = refl

-- A newline after a word, whatever stands before the word.
rstrip_end : (s p : Text) → IsWord p → rstrip_if is_blank (s ++ (p ++ 10 ∷ [])) ≡ s ++ p
unfolding rstrip_if
rstrip_end [] p h = rstrip_newline p h.1
rstrip_end (c ∷ s) p h = rw (rstrip_end s p h, full-append s p h.0) refl

lstrip_word : (p rest : Text) → IsWord p → lstrip (p ++ rest) ≡ p ++ rest
unfolding lstrip
lstrip_word [] rest h = absurd (grind (arith, h.0))
lstrip_word (c ∷ p) rest h = rw h.1.0 refl

full_before : (p rest : Text) → is_empty p ≡ false → is_empty (p ++ rest) ≡ false
full_before [] rest h = absurd (grind (arith, h))
full_before (c ∷ p) rest h = refl

-- The last word of a line, and what stands before it.
last-IsWord :
    (p : Text) (ps : List Text)
    → All IsWord (p ∷ ps)
    → (s q : Text) × IsWord q × (join b' ' (p ∷ ps) ≡ s ++ q)
last-IsWord p [] h = ([], p, h.0, refl)
last-IsWord p (q ∷ ps) h =
    let (s, r, word, e) = last-IsWord q ps h.1 in
    (p ++ b' ' ∷ s, r, word, ap (λ t. p ++ b' ' ∷ t) e ∙ sym (append_assoc p (b' ' ∷ s) r))

first_word : (p : Text) (ps : List Text) → (rest : Text) × (join b' ' (p ∷ ps) ≡ p ++ rest)
first_word p [] = ([], sym (append-nil p))
first_word p (q ∷ ps) = (b' ' ∷ join b' ' (q ∷ ps), refl)

-- A line of words.
pub strip_words :
    (p : Text) (ps : List Text)
    → All IsWord (p ∷ ps)
    → strip (join b' ' (p ∷ ps) ++ 10 ∷ []) ≡ join b' ' (p ∷ ps)
unfolding strip
strip_words p ps h =
    let (s, q, word, e) = last-IsWord p ps h in
    let (rest, begins) = first_word p ps in
    let whole : lstrip (join b' ' (p ∷ ps) ++ 10 ∷ []) ≡ join b' ' (p ∷ ps) ++ 10 ∷ [] =
      rw (begins, append_assoc p rest (10 ∷ [])) (lstrip_word p (rest ++ 10 ∷ []) h.0) in
    ap (rstrip_if is_blank) whole
    ∙ ap (λ t. rstrip_if is_blank (t ++ 10 ∷ [])) e
    ∙ ap (rstrip_if is_blank) (append_assoc s q (10 ∷ []))
    ∙ rstrip_end s q word
    ∙ sym e

split_blanks_word :
    (p rest : Text) → IsBlankFree p → split_blanks (p ++ b' ' ∷ rest) ≡ p ∷ split_blanks rest
unfolding split_blanks
split_blanks_word [] rest h = refl
split_blanks_word (c ∷ p) rest h = rw (h.0, split_blanks_word p rest h.1) refl

split_blanks_last : (p : Text) → IsBlankFree p → split_blanks p ≡ p ∷ []
unfolding split_blanks
split_blanks_last [] h = refl
split_blanks_last (c ∷ p) h = rw (h.0, split_blanks_last p h.1) refl

split_blanks-join :
    (p : Text) (ps : List Text) → All IsWord (p ∷ ps) → split_blanks (join b' ' (p ∷ ps)) ≡ p ∷ ps
split_blanks-join p [] h = split_blanks_last p h.0.1
split_blanks-join p (q ∷ ps) h =
    split_blanks_word p (join b' ' (q ∷ ps)) h.0.1 ∙ ap (◌∷◌ p) (split_blanks-join q ps h.1)

no_empty_parts : (ps : List Text) → All IsWord ps → drop_empty_parts ps ≡ ps
no_empty_parts [] h = refl
no_empty_parts (p ∷ ps) h = rw h.0.0 (ap (◌∷◌ p) (no_empty_parts ps h.1))

pub split_words-join :
    (p : Text) (ps : List Text) → All IsWord (p ∷ ps) → split_words (join b' ' (p ∷ ps)) ≡ p ∷ ps
unfolding split_words
split_words-join p ps h = ap drop_empty_parts (split_blanks-join p ps h) ∙ no_empty_parts (p ∷ ps) h

pub join_full : (p : Text) (ps : List Text) → IsWord p → is_empty (join b' ' (p ∷ ps)) ≡ false
join_full p ps h =
    let (rest, begins) = first_word p ps in ap is_empty begins ∙ full_before p rest h.0

pub strip_word : (p : Text) → IsBlankFree p → strip p ≡ p
unfolding strip lstrip
strip_word [] h = refl
strip_word (c ∷ p) h = rw h.0 (rstrip_word (c ∷ p) h)
