-- ===== src/Prototype/Format/Read.antt =====
-- The table that `format_results` prints, read as lines and cells.
use Prim.Native.String.{String}
use mem_tier_gds.Base.{
  ℕ, ◌*◌, true, Bool, List, [], ◌∷◌, ◌++◌, map, append_assoc, ◌≡◌, refl, sym, ap, arith, not, ◌&&◌,
  ◌==◌, inl, inr, All, All-append, All-mono,
}
use mathlib.Core.Path.{subst}
use mem_tier_gds.Base.Text.{Text, codes, decimal, split_on, join}
use mem_tier_gds.Base.Text.Split.{Avoids, split_plain, split-join, decimal-Avoids}
use mem_tier_gds.Prototype.{BenchmarkResult}
use mem_tier_gds.Prototype.Format.{
  header, ruler, after_bar, quotients_of, cells_of, line_of, format_results,
}

-- A test for texts that are given.
unfoldable pub avoids : ℕ → Text → Bool
avoids sep [] = true
avoids sep (c ∷ s) = not (c == sep) && avoids sep s

pub avoids→Avoids : (sep : ℕ) (s : Text) → avoids sep s ≡ true → Avoids sep s
unfolding avoids
avoids→Avoids sep [] h = tt
avoids→Avoids sep (c ∷ s) h = (ground (arith, h), avoids→Avoids sep s (ground (arith, h)))

-- A cell in which neither a newline nor a bar stands.
abbrev pub IsCell : Text → Type 0
IsCell cell = Avoids 10 cell × Avoids b'|' cell

abbrev pub padded : Text → Text
padded cell = b' ' ∷ cell ++ b' ' ∷ []

padded-Avoids : (cell : Text) → Avoids b'|' cell → Avoids b'|' (padded cell)
padded-Avoids cell h = (refl, All-append _ cell (b' ' ∷ []) h (refl, tt))

after_bar-Avoids : (cells : List Text) → All IsCell cells → Avoids 10 (after_bar cells)
unfolding after_bar
after_bar-Avoids [] h = tt
after_bar-Avoids (cell ∷ cells) h = (
  refl,
  All-append _ cell (b' ' ∷ b'|' ∷ after_bar cells) h.0.0
      (refl, (refl, after_bar-Avoids cells h.1)),
)

split_cell :
    (cell rest q : Text) (qs : List Text)
    → Avoids b'|' cell
    → split_on b'|' rest ≡ q ∷ qs
    → split_on b'|' (b' ' ∷ cell ++ b' ' ∷ b'|' ∷ rest) ≡ padded cell ∷ q ∷ qs
split_cell cell rest q qs h e =
    subst (λ t. split_on b'|' t ≡ padded cell ∷ q ∷ qs)
      (append_assoc (b' ' ∷ cell) (b' ' ∷ []) (b'|' ∷ rest))
      (split_plain b'|' (padded cell) rest q qs (padded-Avoids cell h) e)

split-after_bar :
    (cells : List Text)
    → All IsCell cells
    → split_on b'|' (after_bar cells) ≡ map padded cells ++ [] ∷ []
unfolding after_bar split_on
split-after_bar [] h = refl
split-after_bar (cell ∷ []) h = split_cell cell [] [] [] h.0.1 refl
split-after_bar (cell ∷ next ∷ cells) h =
    split_cell cell (after_bar (next ∷ cells)) (padded next) (map padded cells ++ [] ∷ []) h.0.1
      (split-after_bar (next ∷ cells) h.1)

-- Two lines that are one element of the list.
join-lines : (p q : Text) (ps : List Text) → join 10 ((p ++ 10 ∷ q) ∷ ps) ≡ join 10 (p ∷ q ∷ ps)
join-lines p q [] = refl
join-lines p q (r ∷ ps) = append_assoc p (10 ∷ q) (10 ∷ join 10 (r ∷ ps))

-- What the bars of a line part.
abbrev pub row_of : List Text → List Text
row_of cells = [] ∷ (map padded cells ++ [] ∷ [])

-- The columns by their titles, and what a result has in each.
abbrev pub columns_of : (ℕ × ℕ → Text) → BenchmarkResult → List (String × Text)
columns_of fixed item =
    ("path", codes item.name)
    ∷ ("batches", decimal item.num_batches)
    ∷ ("total GiB", fixed (item.total_bytes, 1024 * 1024 * 1024))
    ∷ ("batch ms", fixed item.end_to_end_batch_ms)
    ∷ ("eff GB/s", fixed item.effective_gb_s)
    ∷ ("file ms", fixed item.file_read_ms)
    ∷ ("prefetch ms", fixed item.prefetch_ms)
    ∷ ("gpu touch ms", fixed item.gpu_touch_ms)
    ∷ []

abbrev titles : List Text
titles =
    codes "path"
    ∷ codes "batches"
    ∷ codes "total GiB"
    ∷ codes "batch ms"
    ∷ codes "eff GB/s"
    ∷ codes "file ms"
    ∷ codes "prefetch ms"
    ∷ codes "gpu touch ms"
    ∷ []

split_header : split_on b'|' header ≡ row_of titles
unfolding split_on
split_header = refl

module _ (fixed : ℕ × ℕ → Text) (prints : (q : ℕ × ℕ) → IsCell (fixed q)) where
  fixed-IsCell : (qs : List (ℕ × ℕ)) → All IsCell (map fixed qs)
  fixed-IsCell [] = tt
  fixed-IsCell (q ∷ qs) = (prints q, fixed-IsCell qs)

  cells_of-IsCell :
      (item : BenchmarkResult) → IsCell (codes item.name) → All IsCell (cells_of fixed item)
  unfolding cells_of
  cells_of-IsCell item h =
      let count = item.num_batches in
      let printed : IsCell (decimal count) = (
        decimal-Avoids 10 (inl (omega arith)) count,
        decimal-Avoids b'|' (inr (omega arith)) count,
      ) in
      (h, (printed, fixed-IsCell (quotients_of item)))

  lines_of-Avoids :
      (results : List BenchmarkResult)
      → All (λ item. IsCell (codes item.name)) results
      → All (Avoids 10) (map (line_of fixed) results)
  unfolding line_of
  lines_of-Avoids [] h = tt
  lines_of-Avoids (item ∷ results) h = (
    (refl, after_bar-Avoids (cells_of fixed item) (cells_of-IsCell item h.0)),
    lines_of-Avoids results h.1,
  )

  split-line_of :
      (item : BenchmarkResult)
      → IsCell (codes item.name)
      → split_on b'|' (line_of fixed item) ≡ [] ∷ (map padded (cells_of fixed item) ++ [] ∷ [])
  unfolding line_of split_on
  split-line_of item h =
      ap (◌∷◌ []) (split-after_bar (cells_of fixed item) (cells_of-IsCell item h))

  -- If neither the names nor the printed quotients hold a newline or a bar, the table is read back:
  -- its lines are the header, the ruler and one line for each result, in order. Between the bars of
  -- the header stand the titles of the eight columns, and between those of a result's line, under
  -- each title, the entry of the result that it names, each between two spaces.
  pub format_results_read :
      (results : List BenchmarkResult)
      → All (λ item. IsCell (codes item.name)) results
      → (split_on 10 (format_results fixed results) ≡ header ∷ ruler ∷ map (line_of fixed) results)
        × All
            (λ item.
              (split_on b'|' header ≡ row_of (map (λ c. codes c.0) (columns_of fixed item)))
              × (split_on b'|' (line_of fixed item)
                  ≡ row_of (map (λ c. c.1) (columns_of fixed item))))
            results
  unfolding format_results avoids cells_of
  format_results_read results h = (
    subst (λ t. split_on 10 t ≡ header ∷ ruler ∷ map (line_of fixed) results)
        (sym (join-lines header ruler (map (line_of fixed) results)))
        (split-join 10 header (ruler ∷ map (line_of fixed) results)
          (avoids→Avoids 10 header refl, (avoids→Avoids 10 ruler refl, lines_of-Avoids results h))),
    All-mono _ _ (λ item named. (split_header, split-line_of item named)) results h,
  )
