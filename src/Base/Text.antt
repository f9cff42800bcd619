-- ===== src/Base/Text.antt =====
-- Python strings as lists of code points, and the string methods that the sources call.
pub mod Split
pub mod Words
pub mod Numbers
use Prim.Native.Char.{code}
use Prim.Native.Nat.{ℕ, zero, suc, ◌+◌, ◌-◌, ◌*◌, ◌/◌, ◌%◌}
use Prim.Native.String.{String}
use mathlib.Core.Bool.{Bool, true, false, ◌&&◌, ◌||◌}
use mathlib.Core.List.{List, [], ◌∷◌, ◌++◌, map, flatten}
use mathlib.Core.Option.{Option, none, some}
use mem_tier_gds.Base.Lists.{length, drop}
use mem_tier_gds.Base.Tests.{◌==◌, ltb, leb, if◌then◌else◌}
use mem_tier_gds.Base.Integer.{ℤ, pos, negate}

abbrev pub Text : Type 0
Text = List ℕ

abbrev pub codes : String → Text
codes String.[] = []
codes (String.◌∷◌ c s) = code c ∷ codes s

-- What `strip` and `split` take for white space, up to U+00FF.
abbrev pub is_blank : ℕ → Bool
is_blank c = (leb 9 c && leb c 13) || ((leb 28 c && leb c 32) || (c == 133 || c == 160))

abbrev pub is_empty {ℓ} : {A : Type ℓ} → List A → Bool
is_empty [] = true
is_empty (x ∷ xs) = false

-- Equality of texts.
unfoldable pub same_text : Text → Text → Bool
same_text [] [] = true
same_text [] (d ∷ t) = false
same_text (c ∷ s) [] = false
same_text (c ∷ s) (d ∷ t) = let rest = same_text s t in (c == d) && rest

-- `s.endswith(suffix)`
unfoldable pub ends_with : Text → Text → Bool
unfolding same_text
ends_with s suffix = same_text (drop (length s - length suffix) s) suffix

-- `s.lstrip()`
unfoldable pub lstrip : Text → Text
lstrip [] = []
lstrip (c ∷ s) = let rest = lstrip s in if is_blank c then rest else c ∷ s

-- `s.rstrip(…)` by a test.
unfoldable pub rstrip_if : (ℕ → Bool) → Text → Text
rstrip_if drops [] = []
rstrip_if drops (c ∷ s) =
    let rest = rstrip_if drops s in if is_empty rest && drops c then [] else c ∷ rest

unfoldable pub strip : Text → Text
unfolding lstrip rstrip_if
strip s = rstrip_if is_blank (lstrip s)

abbrev pub push_first : ℕ → List Text → List Text
push_first c [] = (c ∷ []) ∷ []
push_first c (p ∷ ps) = (c ∷ p) ∷ ps

-- `s.split(sep)`
unfoldable pub split_on : ℕ → Text → List Text
split_on sep [] = [] ∷ []
split_on sep (c ∷ s) =
    let rest = split_on sep s in if c == sep then [] ∷ rest else push_first c rest

abbrev pub drop_empty_parts : List Text → List Text
drop_empty_parts [] = []
drop_empty_parts (p ∷ ps) = if is_empty p then drop_empty_parts ps else p ∷ drop_empty_parts ps

-- White space as one separator.
unfoldable pub split_blanks : Text → List Text
split_blanks [] = [] ∷ []
split_blanks (c ∷ s) =
    let rest = split_blanks s in if is_blank c then [] ∷ rest else push_first c rest

-- `s.split()`
unfoldable pub split_words : Text → List Text
unfolding split_blanks
split_words s = drop_empty_parts (split_blanks s)

-- `sep.join(parts)`, for a separator of one character.
abbrev pub join : ℕ → List Text → Text
join sep [] = []
join sep (p ∷ []) = p
join sep (p ∷ q ∷ ps) = p ++ sep ∷ join sep (q ∷ ps)

unfoldable pub digits : ℕ → ℕ → Text → Text
digits zero n out = out
digits (suc fuel) n out =
    let rest = digits fuel (n / 10) ((b'0' + n % 10) ∷ out) in
    if ltb n 10 then (b'0' + n % 10) ∷ out else rest

-- `str(n)`: a number has at most as many digits as its value, and one.
unfoldable pub decimal : ℕ → Text
unfolding digits
decimal n = digits (suc n) n []

-- The digits of an `int` literal, with single underscores between them; the second argument says
-- whether a digit stands before.
unfoldable pub read_digits : Text → Bool → ℕ → Option ℕ
read_digits [] after n = if after then some n else none
read_digits (c ∷ s) after n =
    let separator = read_digits s false n in
    let digit = read_digits s true (n * 10 + (c - b'0')) in
    if c == b'_' && after then separator else if leb b'0' c && leb c b'9' then digit else none

unfoldable pub read_signed : Text → Option ℤ
unfolding read_digits
read_signed [] = none
read_signed (c ∷ s) =
    if c == b'-'
    then elim (read_digits s false 0) [ none ↦ none | some n ↦ some (negate n) ]
    else elim (if c == b'+' then read_digits s false 0 else read_digits (c ∷ s) false 0) [
      | none ↦ none
      | some n ↦ some (pos n)
    ]

-- `int(s)`, `none` for its `ValueError`; of the digits, the ASCII ones.
unfoldable pub parse_int : Text → Option ℤ
unfolding read_signed strip
parse_int s = read_signed (strip s)

encode_char : ℕ → List ℕ
encode_char c =
    if ltb c 128
    then c ∷ []
    else if ltb c 2048
    then (192 + c / 64) ∷ (128 + c % 64) ∷ []
    else if ltb c 65536
    then (224 + c / 4096) ∷ (128 + c / 64 % 64) ∷ (128 + c % 64) ∷ []
    else (240 + c / 262144) ∷ (128 + c / 4096 % 64) ∷ (128 + c / 64 % 64) ∷ (128 + c % 64) ∷ []

-- `s.encode("utf-8", errors="surrogatepass")`
unfoldable pub encode_utf8 : Text → List ℕ
unfolding encode_char flatten
encode_utf8 s = flatten (map encode_char s)
