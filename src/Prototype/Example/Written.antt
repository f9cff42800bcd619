-- ===== src/Prototype/Example/Written.antt =====
-- The file that the example makes.
use native.Mathlib.Nat.{mul-le-mul_right, add-zero, zero-mul}
use mem_tier_gds.Base.{
  append_assoc, ℕ, zero, suc, ◌+◌, ◌-◌, ◌*◌, ◌≤◌, ◌<◌, min, max, List, [], ◌∷◌, ◌++◌, append-nil,
  Option, none, some, ◌==◌, ==_iff, ◌≡◌, refl, sym, ◌∙◌, ap, arith, ◌⊎◌, inl, inr, ok, length,
  length-append, length-map, length-drop, length-take, take, drop, take_append, take-append-drop,
  take_of_length-le, ceil_div, ceil_div-covers, Bool-cases,
}
use mem_tier_gds.Datasets.Rows.{lt_or_le}
use mem_tier_gds.Prototype.Example.{
  Stored, Writer, store_rows, values_of, write_chunks, write_file, ensure_binary_file,
}

-- A new file has the size that is asked for, and as many values; an `arange` has a value for each
-- number from its start to its end.
pub record IsWriter {F : Type 0} (writer : Writer F) : Type 0 where
  pub creates :
      (rows dim : ℕ)
      → 0 < rows * dim
      → (file : Stored F) × (writer.create rows dim ≡ ok file)
        × (file.st_size ≡ rows * dim * 4)
        × (length file.values ≡ rows * dim)
  pub length-arange : (start end : ℕ) → length (writer.arange start end) ≡ end - start

empty_of_length : {F : Type 0} → (xs : List F) → length xs ≡ 0 → xs ≡ []
empty_of_length [] e = refl
empty_of_length (x ∷ xs) e = absurd (omega (arith, e))

-- A part of a list that is overwritten: the list keeps its length, and the part follows what was
-- before it.
overwritten :
    {A : Type 0} (s : ℕ) (new old : List A)
    → s + length new ≤ length old
    → let whole = take s old ++ new ++ drop (s + length new) old in
      (length whole ≡ length old) × (take (s + length new) whole ≡ take s old ++ new)
overwritten s new old le =
    let kept = drop (s + length new) old in
    let first : length (take s old ++ new) ≡ s + length new =
      omega (arith, length-append (take s old) new, length-take s old) in
    let cut : take (s + length new) ((take s old ++ new) ++ kept) ≡ take s old ++ new =
      ap (λ k. take k ((take s old ++ new) ++ kept)) (sym first)
      ∙ take_append (take s old ++ new) kept in
    (
      omega
          (arith, length-append (take s old ++ new) kept, first, length-drop (s + length new) old),
      cut,
    )

module _ {F : Type 0} (writer : Writer F) (rows dim : ℕ) where
  -- The values of the chunks from a start on, one after the other.
  abbrev pub chunks_from : ℕ → ℕ → ℕ → List F
  chunks_from chunk start zero = []
  chunks_from chunk start (suc left) =
      values_of writer rows dim start (min rows (start + chunk))
      ++ chunks_from chunk (start + chunk) left

  -- The values of the whole table: those of all chunks of at most 65536 rows.
  unfoldable pub table_values : List F
  table_values = let chunk = max 1 (min rows 65536) in chunks_from chunk 0 (ceil_div rows chunk)

module _ {F : Type 0} (writer : Writer F) (works : IsWriter writer) (rows dim : ℕ) where
  length-values_of :
      (start end : ℕ) → length (values_of writer rows dim start end) ≡ end * dim - start * dim
  unfolding values_of
  length-values_of start end =
      length-map _ (writer.arange (start * dim) (end * dim))
      ∙ works.length-arange (start * dim) (end * dim)

  -- The rows before a start are written, and the chunks that are left complete the table.
  record IsWritten (chunk start left : ℕ) (whole mmap : List F) : Type 0 where
    size : length mmap ≡ rows * dim
    done : take (min rows start * dim) mmap ++ chunks_from writer rows dim chunk start left ≡ whole

  -- The places of a chunk.
  places : (start end : ℕ) → start ≤ end → start * dim + (end * dim - start * dim) ≡ end * dim
  places start end le =
      let below : start * dim ≤ end * dim = mul-le-mul_right dim le in omega (arith, below)

  store-IsWritten :
      (chunk start left : ℕ) (whole mmap : List F)
      → (start < rows) ⊎ (rows ≤ start)
      → IsWritten chunk start (suc left) whole mmap
      → IsWritten chunk (start + chunk) left whole (
          store_rows writer rows dim start
            (values_of writer rows dim start (min rows (start + chunk)))
            mmap)
  unfolding store_rows
  store-IsWritten chunk start left whole mmap (inl more) i =
      let end = min rows (start + chunk) in
      let new = values_of writer rows dim start end in
      let here : min rows start ≡ start = omega (arith, more) in
      let place : start * dim + length new ≡ end * dim =
        ap (start * dim +◌) (length-values_of start end) ∙ places start end (omega (arith, more)) in
      let below : end * dim ≤ rows * dim = mul-le-mul_right dim (omega arith) in
      let (size, done) = overwritten (start * dim) new mmap (omega (arith, place, below, i.size)) in
      let rest = chunks_from writer rows dim chunk (start + chunk) left in
      let before : take (start * dim) mmap ++ (new ++ rest) ≡ whole = rw here at i.done in
      record {
        size = size ∙ i.size;
        done =
            rw (← place) (ap (◌++ rest) done ∙ append_assoc (take (start * dim) mmap) new rest)
            ∙ before;
      }
  store-IsWritten chunk start left whole mmap (inr over) i =
      let end = min rows (start + chunk) in
      let new = values_of writer rows dim start end in
      let last : end ≡ rows = omega (arith, over) in
      let here : min rows start ≡ rows = omega (arith, over) in
      let below : rows * dim ≤ start * dim = mul-le-mul_right dim over in
      let count : length new ≡ 0 = length-values_of start end ∙ rw last (omega (arith, below)) in
      let nothing : new ≡ [] = empty_of_length new count in
      let kept : (take (start * dim) mmap ++ []) ++ drop (start * dim + 0) mmap ≡ mmap =
        rw (append-nil, add-zero) (take-append-drop (start * dim) mmap) in
      let rest = chunks_from writer rows dim chunk (start + chunk) left in
      let before : take (rows * dim) mmap ++ rest ≡ whole = rw (here, nothing) at i.done in
      rw nothing (record { size = rw kept i.size; done = rw (kept, last) before })

  -- When the loop ends, every row has been written, whatever the size of a chunk.
  write_chunks_lem :
      (chunk start left : ℕ) (whole mmap : List F)
      → rows - start ≤ left * chunk
      → IsWritten chunk start left whole mmap
      → length (write_chunks writer rows dim chunk start left mmap) ≡ rows * dim
        × (write_chunks writer rows dim chunk start left mmap ≡ whole)
  unfolding write_chunks
  write_chunks_lem chunk start zero whole mmap le i =
      let all : min rows start ≡ rows = omega (arith, le) in
      let done : take (rows * dim) mmap ≡ whole =
        sym (append-nil (take (rows * dim) mmap)) ∙ (rw all at i.done) in
      (i.size, sym (take_of_length-le (rows * dim) mmap (omega (arith, i.size))) ∙ done)
  write_chunks_lem chunk start (suc left) whole mmap le i =
      write_chunks_lem chunk (start + chunk) left whole
        (store_rows writer rows dim start
          (values_of writer rows dim start (min rows (start + chunk))) mmap)
        (omega (arith, le)) (store-IsWritten chunk start left whole mmap (lt_or_le start rows) i)

  write_file_lem :
      0 < rows * dim
      → (file : Stored F) × (write_file writer rows dim ≡ ok file)
        × (file.st_size ≡ rows * dim * 4)
        × (length file.values ≡ rows * dim)
        × (file.values ≡ table_values writer rows dim)
  unfolding write_file table_values
  write_file_lem some_values =
      let (file, created, size, count) = works.creates rows dim some_values in
      let chunk = max 1 (min rows 65536) in
      let left = ceil_div rows chunk in
      let covered = ceil_div-covers rows chunk (omega arith) in
      let begin : min rows 0 ≡ 0 = omega arith in
      let (kept, all) =
        write_chunks_lem chunk 0 left (chunks_from writer rows dim chunk 0 left) file.values
          (omega (arith, covered)) (record { size = count; done = rw (begin, zero-mul) refl }) in
      (_, rw created refl, size, kept, all)

  -- Whatever file was there, the example goes on with a file of the expected size: the old one, if it
  -- had that size, and else a new one, in which the values of the chunks stand one after the other.
  pub ensure_binary_file_lem :
      0 < rows * dim
      → (before : Option (Stored F))
      → (file : Stored F) × (ensure_binary_file writer rows dim before ≡ ok file)
        × (file.st_size ≡ rows * dim * 4)
        × ((before ≡ some file)
            ⊎ (length file.values ≡ rows * dim) × (file.values ≡ table_values writer rows dim))
  unfolding ensure_binary_file
  ensure_binary_file_lem some_values none =
      let (file, made, size, count, all) = write_file_lem some_values in
      (file, made, size, inr (count, all))
  ensure_binary_file_lem some_values (some old) =
      elim (Bool-cases (old.st_size == rows * dim * 4)) [
        | inl same ↦ (old, rw same refl, (==_iff old.st_size (rows * dim * 4)).0 same, inl refl)
        | inr other ↦
            (let (file, made, size, count, all) = write_file_lem some_values in
              (file, rw other made, size, inr (count, all)))
      ]
