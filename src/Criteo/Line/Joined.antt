-- ===== src/Criteo/Line/Joined.antt =====
-- `parse_criteo_line` on a line that was joined from its columns.
use mem_tier_gds.Base.{
  ℕ, true, false, List, [], ◌∷◌, ◌++◌, ◌≡◌, refl, arith, ◌==◌, length, take, drop, drop_append,
  take_of_length-le, All, All-append, All-mono, ok,
}
use mathlib.Core.Path.{subst}
use mem_tier_gds.Base.Text.{Text, rstrip_if, join, parse_int}
use mem_tier_gds.Base.Text.Split.{Avoids, split-join}
use mem_tier_gds.Criteo.Line.{
  has_tab, parts_of, pad, row_of_parts, parse_criteo_line, default_num_dense,
}

-- A character that stands in a column.
IsPlain : ℕ → Type 0
IsPlain c = ((c == 9) ≡ false) × ((c == 10) ≡ false)

-- A column's text: neither a tab nor a newline.
unfoldable pub IsColumn : Text → Type 0
unfolding IsPlain
IsColumn = All IsPlain

no_tab : (p : Text) → IsColumn p → Avoids 9 p
unfolding IsColumn
no_tab [] h = tt
no_tab (c ∷ p) h = (h.0.0, no_tab p h.1)

-- The end of a line that has no newline but the one at its end.
rstrip_plain : (s : Text) → rstrip_if (λ c. c == 10) (s ++ 10 ∷ []) ≡ rstrip_if (λ c. c == 10) s
unfolding rstrip_if
rstrip_plain [] = refl
rstrip_plain (c ∷ s) = rw (rstrip_plain s)

rstrip_column : (s : Text) → All (λ c. (c == 10) ≡ false) s → rstrip_if (λ c. c == 10) s ≡ s
unfolding rstrip_if
rstrip_column [] h = refl
rstrip_column (c ∷ s) h = ground (arith, h.0, rstrip_column s h.1)

no_newline : (p : Text) → IsColumn p → All (λ c. (c == 10) ≡ false) p
unfolding IsColumn
no_newline [] h = tt
no_newline (c ∷ p) h = (h.0.1, no_newline p h.1)

no_newline-join :
    (p : Text) (ps : List Text)
    → All IsColumn (p ∷ ps)
    → All (λ c. (c == 10) ≡ false) (join 9 (p ∷ ps))
no_newline-join p [] h = no_newline p h.0
no_newline-join p (q ∷ ps) h =
    All-append _ p (9 ∷ join 9 (q ∷ ps)) (no_newline p h.0) (refl, no_newline-join q ps h.1)

has_tab_append : (p rest : Text) → has_tab (p ++ 9 ∷ rest) ≡ true
unfolding has_tab
has_tab_append [] rest = refl
has_tab_append (c ∷ p) rest = ground (arith, has_tab_append p rest)

parts_of-join :
    (p q : Text) (ps : List Text)
    → All IsColumn (p ∷ q ∷ ps)
    → parts_of (join 9 (p ∷ q ∷ ps) ++ 10 ∷ []) ≡ p ∷ q ∷ ps
unfolding parts_of
parts_of-join p q ps h =
    let line = join 9 (p ∷ q ∷ ps) in
    rw
      (
        rstrip_plain line,
        rstrip_column line (no_newline-join p (q ∷ ps) h),
        has_tab_append p (join 9 (q ∷ ps)),
      )
      (split-join 9 p (q ∷ ps) (All-mono _ _ no_tab (p ∷ q ∷ ps) h))

pad_full : (n : ℕ) (cats : List Text) → length cats ≡ n → pad n cats ≡ cats
unfolding pad
pad_full n cats e = ground (arith, e)

row_of_columns :
    (n : ℕ) (label : Text) (dense cats : List Text)
    → length dense ≡ 13
    → length cats ≡ n
    → row_of_parts (label ∷ (dense ++ cats)) n ≡ ok (parse_int label, cats)
unfolding row_of_parts default_num_dense
row_of_columns n label dense cats ed en =
    let cut : drop 13 (dense ++ cats) ≡ cats =
      subst (λ k. drop k (dense ++ cats) ≡ cats) ed (drop_append dense cats) in
    let whole : take n cats ≡ cats = take_of_length-le n cats (omega (arith, en)) in
    rw (cut, whole, pad_full n cats en, whole) refl

-- A line that joins a label, 13 dense columns and the categories with tabs, none of which holds a
-- tab or a newline, is parsed back: the categories are returned as they are, and the label as its
-- number or none.
pub parse_criteo_line-join :
    (n : ℕ) (label : Text) (dense cats : List Text)
    → length dense ≡ 13
    → length cats ≡ n
    → All IsColumn (label ∷ (dense ++ cats))
    → parse_criteo_line (join 9 (label ∷ (dense ++ cats)) ++ 10 ∷ []) n ≡ ok (parse_int label, cats)
unfolding parse_criteo_line
parse_criteo_line-join n label [] cats ed en h = absurd (omega arith)
parse_criteo_line-join n label (d ∷ dense) cats ed en h =
    rw (parts_of-join label d (dense ++ cats) h) (row_of_columns n label (d ∷ dense) cats ed en)
