-- ===== src/Bench/Log/Appended.antt =====
-- What is loaded from a file to which results were appended.
use mem_tier_gds.Base.{
  ℕ, false, List, [], ◌∷◌, ◌++◌, append_assoc, append-nil, ◌==◌, ◌≡◌, refl, ap, sym, ◌∙◌, arith,
  Bool-cases, Result-cases, inl, inr, Result, ok, raise, ◌>>=◌,
}
use mathlib.Core.Path.{subst}
use mem_tier_gds.Base.Text.{Text, is_empty, strip, lstrip, rstrip_if, is_blank, push_first}
use mem_tier_gds.Base.Text.Split.{Avoids}
use mem_tier_gds.Bench.Log.{
  Json, add_char, lines_of, append_result, record_runs, load_lines, load_jsonl,
}

-- Every line ends.
abbrev pub EndsLine : Text → Type 0
EndsLine [] = Unit
EndsLine (c ∷ []) = c ≡ 10
EndsLine (c ∷ d ∷ s) = EndsLine (d ∷ s)

-- What `json.dumps` is known to return of a dict: text in braces without a newline, which is read
-- back.
pub record IsJson {J : Type 0} (json : Json J) : Type 0 where
  pub inner : J → Text
  pub braces : (r : J) → json.dumps r ≡ b'{' ∷ inner r ++ b'}' ∷ []
  pub one_line : (r : J) → Avoids 10 (json.dumps r)
  pub read_back : (r : J) → json.loads (json.dumps r) ≡ ok r

push_first_cons :
    (c : ℕ) (lines : List Text) → (p : Text) × (ps : List Text) × (push_first c lines ≡ p ∷ ps)
push_first_cons c [] = (c ∷ [], [], refl)
push_first_cons c (p ∷ ps) = (c ∷ p, ps, refl)

add_char_cons :
    (c : ℕ) (lines : List Text) → (p : Text) × (ps : List Text) × (add_char c lines ≡ p ∷ ps)
unfolding add_char
add_char_cons c lines = elim (Bool-cases (c == 10)) [
  | inl newline ↦ (c ∷ [], lines, rw newline refl)
  | inr other ↦ (let (p, ps, e) = push_first_cons c lines in (p, ps, rw other e))
]

-- A character before lines of which there is one.
add_char-append :
    (c : ℕ) (p : Text) (ps more : List Text)
    → add_char c ((p ∷ ps) ++ more) ≡ add_char c (p ∷ ps) ++ more
unfolding add_char
add_char-append c p ps more = elim (Bool-cases (c == 10)) [
  | inl newline ↦ rw newline refl
  | inr other ↦ rw other refl
]

started :
    (c : ℕ) (lines : List Text) (p : Text) (ps more : List Text)
    → lines ≡ p ∷ ps
    → add_char c (lines ++ more) ≡ add_char c lines ++ more
started c lines p ps more e = rw e (add_char-append c p ps more)

lines_of-append : (s t : Text) → EndsLine s → lines_of (s ++ t) ≡ lines_of s ++ lines_of t
unfolding lines_of add_char
lines_of-append [] t h = refl
lines_of-append (c ∷ []) t h = rw h refl
lines_of-append (c ∷ d ∷ s) t h =
    let (p, ps, e) = add_char_cons d (lines_of s) in
    ap (add_char c) (lines_of-append (d ∷ s) t h) ∙ started c (lines_of (d ∷ s)) p ps (lines_of t) e

lines_of_line : (s : Text) → Avoids 10 s → lines_of (s ++ 10 ∷ []) ≡ (s ++ 10 ∷ []) ∷ []
unfolding lines_of add_char
lines_of_line [] h = refl
lines_of_line (c ∷ s) h = ground (arith, h.0, lines_of_line s h.1)

EndsLine-append : (s : Text) → EndsLine (s ++ 10 ∷ [])
EndsLine-append [] = refl
EndsLine-append (c ∷ []) = refl
EndsLine-append (c ∷ d ∷ s) = EndsLine-append (d ∷ s)

not_empty : (s : Text) (c : ℕ) → is_empty (s ++ c ∷ []) ≡ false
not_empty [] c = refl
not_empty (d ∷ s) c = refl

-- White space after a text that ends in a brace.
rstrip_line : (s : Text) → rstrip_if is_blank (s ++ b'}' ∷ 10 ∷ []) ≡ s ++ b'}' ∷ []
unfolding rstrip_if
rstrip_line [] = refl
rstrip_line (c ∷ s) = rw (rstrip_line s, not_empty s b'}') refl

-- The rows of two loads, one after the other.
abbrev joined : {J : Type 0} → Result (List J) → Result (List J) → Result (List J)
joined (raise e) more = raise e
joined (ok old) (raise e) = raise e
joined (ok old) (ok new) = ok (old ++ new)

abbrev with_row : {J : Type 0} → J → Result (List J) → Result (List J)
with_row row (raise e) = raise e
with_row row (ok rows) = ok (row ∷ rows)

joined-with_row :
    {J : Type 0} (row : J) (a b : Result (List J))
    → with_row row (joined a b) ≡ joined (with_row row a) b
joined-with_row row (raise e) b = refl
joined-with_row row (ok old) (raise e) = refl
joined-with_row row (ok old) (ok new) = refl

bind-with_row :
    {J : Type 0} (row : J) (a : Result (List J)) → (a >>= λ rows. ok (row ∷ rows)) ≡ with_row row a
bind-with_row row (raise e) = refl
bind-with_row row (ok rows) = refl

load_lines-append :
    {J : Type 0} (json : Json J) (lines more : List Text)
    → load_lines json (lines ++ more) ≡ joined (load_lines json lines) (load_lines json more)
unfolding load_lines
load_lines-append json [] more = elim (Result-cases (load_lines json more)) [
  | inl (rows, e) ↦ rw e refl
  | inr (err, e) ↦ rw e refl
]
load_lines-append json (line ∷ lines) more =
    let ih = load_lines-append json lines more in
    elim (Bool-cases (is_empty (strip line))) [
      | inl skipped ↦ rw skipped ih
      | inr kept ↦ elim (Result-cases (json.loads (strip line))) [
        | inl (row, e) ↦
            rw (kept, e)
              (bind-with_row row (load_lines json (lines ++ more))
                ∙ ap (with_row row) ih
                ∙ joined-with_row row (load_lines json lines) (load_lines json more)
                ∙ ap (λ a. joined a (load_lines json more))
                    (sym (bind-with_row row (load_lines json lines))))
        | inr (err, e) ↦ rw (kept, e) refl
      ]
    ]

-- The rows of the runs that returned.
unfoldable pub returned : {J : Type 0} → List (Result J) → List J
returned [] = []
returned (raise e ∷ outcomes) = returned outcomes
returned (ok r ∷ outcomes) = r ∷ returned outcomes

module _ {J : Type 0} (json : Json J) (is_json : IsJson json) where
  strip_line : (r : J) → strip (json.dumps r ++ 10 ∷ []) ≡ json.dumps r
  unfolding strip lstrip
  strip_line r =
      let text = b'{' ∷ is_json.inner r in
      ap (λ t. strip (t ++ 10 ∷ [])) (is_json.braces r)
      ∙ ap strip (append_assoc text (b'}' ∷ []) (10 ∷ []))
      ∙ rstrip_line text
      ∙ sym (is_json.braces r)

  -- The line of a result.
  load_line : (r : J) → load_lines json ((json.dumps r ++ 10 ∷ []) ∷ []) ≡ ok (r ∷ [])
  unfolding load_lines
  load_line r =
      let some_text : is_empty (json.dumps r) ≡ false = rw (is_json.braces r) refl in
      rw (strip_line r, some_text, is_json.read_back r) refl

  append_result-EndsLine : (file : Text) (r : J) → EndsLine (append_result json file r)
  unfolding append_result
  append_result-EndsLine file r =
      subst EndsLine (append_assoc file (json.dumps r) (10 ∷ []))
        (EndsLine-append (file ++ json.dumps r))

  -- A result after whole lines.
  load_jsonl-append_result :
      (file : Text) (old : List J) (r : J)
      → EndsLine file
      → load_jsonl json file ≡ ok old
      → load_jsonl json (append_result json file r) ≡ ok (old ++ r ∷ [])
  unfolding load_jsonl append_result
  load_jsonl-append_result file old r ends h =
      let line = lines_of_line (json.dumps r) (is_json.one_line r) in
      rw (lines_of-append file (json.dumps r ++ 10 ∷ []) ends, line)
        (load_lines-append json (lines_of file) ((json.dumps r ++ 10 ∷ []) ∷ [])
          ∙ rw (h, load_line r) refl)

  -- Whatever programs ran one after the other, and whichever of them raised: the rows that are loaded
  -- from their output are the rows that could be loaded before, and then those of the runs that
  -- returned, in their order; if the output was not there or its last line was complete.
  pub load_jsonl-record_runs :
      (outcomes : List (Result J)) (file : Text) (old : List J)
      → EndsLine file
      → load_jsonl json file ≡ ok old
      → load_jsonl json (record_runs json outcomes file) ≡ ok (old ++ returned outcomes)
  unfolding record_runs returned
  load_jsonl-record_runs [] file old ends h = rw append-nil h
  load_jsonl-record_runs (raise e ∷ outcomes) file old ends h =
      load_jsonl-record_runs outcomes file old ends h
  load_jsonl-record_runs (ok r ∷ outcomes) file old ends h =
      load_jsonl-record_runs outcomes (append_result json file r) (old ++ r ∷ [])
        (append_result-EndsLine file r) (load_jsonl-append_result file old r ends h)
      ∙ ap ok (append_assoc old (r ∷ []) (returned outcomes))
