-- ===== src/Prototype/Loops.antt =====
-- The loops of the benchmark on a machine that works.
use Prim.Native.String.{String}
use native.Mathlib.Nat.{add-mul}
use mem_tier_gds.Base.{
  ℕ, zero, suc, ◌+◌, ◌-◌, ◌*◌, ◌≤◌, ◌<◌, min, true, false, some, ◌≡◌, refl, ◌∙◌, ap, arith, length,
  ok, ceil_div-covers, gather,
}
use mem_tier_gds.Base.Action.{Action, Ends, after-ok}
use mem_tier_gds.Base.Integer.{ℤ, pos}
use mem_tier_gds.Datasets.{Table, Files, Extension, check_index}
use mem_tier_gds.Datasets.Memtier.{MemTierFileDataset}
use mem_tier_gds.Datasets.Memtier
use mem_tier_gds.Datasets.Baseline.{BaselineNumpyDataset}
use mem_tier_gds.Datasets.Rows.{next_rest}
use mem_tier_gds.Datasets.Batches.{
  ReadsRows, size_of, size_positive, batch, getitem_batch, mapped_batch, baseline_with, whole_file,
}
use mem_tier_gds.Prototype.{
  Machine, num_bytes, is_invalid, require_cuda, uvm_item, baseline_loop, uvm_loop, timed,
}

-- The extension's read in one state.
abbrev pub read_in : {F W : Type 0} → Machine F W → W → Extension F
read_in m w path height width offset device policy =
    (m.uvm_tensor_from_file path height width offset device policy w).0

-- A batch of a dataset: a row at least and at most so many, of so many columns, one at least.
pub record IsBatch {F : Type 0} (cols batch_rows : ℕ) (t : Table F) : Type 0 where
  pub some_row : 0 < t.height
  pub most : t.height ≤ batch_rows
  pub columns : t.width ≡ cols
  pub some_column : 0 < t.width

-- CUDA is there and has the device, the extension is built, and no call of them fails with a batch
-- that is not empty and not larger than asked for. A read with one of the known policies gives the
-- rows of the file, if it has them.
pub record IsWorking {F W : Type 0} (files : Files F) (m : Machine F W) (path : String)
    (cols batch_rows : ℕ) (device : ℤ) : Type 0 where
  pub available : (w : W) → m.is_available w ≡ true
  pub in_range : (w : W) → is_invalid device (m.device_count w) ≡ false
  pub built : m.is_built ≡ true
  pub synchronizes : (w : W) → (m.synchronize device w).0 ≡ ok tt
  pub copies :
      (t : Table F) (w : W) → IsBatch cols batch_rows t → (m.to_device device t w).0 ≡ ok tt
  pub touches : (t : Table F) (w : W) → IsBatch cols batch_rows t → (m.touch_gpu t w).0 ≡ ok tt
  pub reads :
      (rows : ℕ) (policy : String) (w : W)
      → Memtier.is_policy policy ≡ true
      → ReadsRows files (read_in m w) (record {
        path = path;
        rows = rows;
        cols = cols;
        batch_rows = batch_rows;
        device = device;
        policy = policy;
      })

-- The machine works for the batches of a dataset.
abbrev pub WorksFor : {F W : Type 0} → Files F → Machine F W → MemTierFileDataset → Type 0
WorksFor files m d = IsWorking files m d.path d.cols d.batch_rows d.device

check_in : (i n : ℕ) → i < n → check_index (pos i) n ≡ ok i
check_in i n lt = ground (arith, lt)

next_bytes :
    (i b r c t : ℕ)
    → t + min b (r - i * b) * c * 4 + (r - (i + 1) * b) * c * 4 ≡ t + (r - i * b) * c * 4
next_bytes i b r c t =
    let sum = ap (◌* c) (next_rest i b r) in
    omega (arith, sum, add-mul (min b (r - i * b)) (r - (i + 1) * b) c)

module _ {F : Type 0} (files : Files F) (d : MemTierFileDataset) where
  -- The bytes of the rows from the batch `i` on.
  abbrev pub bytes_from : ℕ → ℕ
  bytes_from i = (d.rows - i * d.batch_rows) * d.cols * 4

  abbrev pub mapped : BaselineNumpyDataset F
  mapped = baseline_with files d (some (whole_file files d))

  -- After the last batch no rows are left.
  no_more :
      0 < d.batch_rows
      → (i batches bytes : ℕ) → i ≡ Memtier.len d
      → ◌≡◌ {A = ℕ × ℕ} (batches, bytes) (batches + 0, bytes + bytes_from i)
  unfolding Memtier.len
  no_more b0 i batches bytes e =
      let past : d.rows ≤ i * d.batch_rows = rw e (ceil_div-covers d.rows d.batch_rows b0) in
      let over : d.rows - i * d.batch_rows ≡ 0 = omega (arith, past) in
      let none_left : bytes ≡ bytes + (d.rows - i * d.batch_rows) * d.cols * 4 =
        rw over (omega arith) in
      let count : batches ≡ batches + 0 = omega arith in rw (← count, ← none_left) refl

  -- A batch and the rows after it.
  one_more :
      (i n batches bytes : ℕ) (c : ℕ × ℕ)
      → c ≡ (batches + 1 + n, bytes + num_bytes (batch files d i) + bytes_from (i + 1))
      → c ≡ (batches + suc n, bytes + bytes_from i)
  unfolding batch size_of
  one_more i n batches bytes c e =
      let sum = next_bytes i d.batch_rows d.rows d.cols bytes in
      let count : batches + 1 + n ≡ batches + suc n = omega arith in e ∙ rw (count, sum) refl

module _ {F W : Type 0} (files : Files F) (m : Machine F W) (d : MemTierFileDataset)
    (works : WorksFor files m d) where
  pub require_cuda-Ends : Ends (require_cuda files m d.device) (λ u. Unit {0})
  unfolding require_cuda Ends
  require_cuda-Ends w = (tt, ground (arith, works.available w, works.in_range w), tt)

  pub timed-Ends :
      (loop : Action W (ℕ × ℕ)) (P : ℕ × ℕ → Type 0)
      → Ends loop P
      → Ends (timed files m d.device loop) (λ t. P t.0)
  unfolding Ends timed
  timed-Ends loop P ends w =
      let w1 = (m.synchronize d.device w).1 in
      let (begin, w2) = m.perf_counter w1 in
      let (c, returned, p) = ends w2 in
      let w3 = (loop w2).1 in
      let w4 = (m.synchronize d.device w3).1 in
      (
        (c, (m.perf_counter w4).0 - begin),
        after-ok (m.synchronize d.device w) tt _ (works.synchronizes w)
            ∙ after-ok (loop w2) c _ returned
            ∙ after-ok (m.synchronize d.device w3) tt _ (works.synchronizes w3),
        p,
      )

module _ {F W : Type 0} (files : Files F) (m : Machine F W) (d : MemTierFileDataset)
    (works : WorksFor files m d) (c0 : 0 < d.cols) (b0 : 0 < d.batch_rows)
    (big : d.rows * d.cols ≤ length (files.contents d.path)) where
  batch-IsBatch : (i : ℕ) → i < Memtier.len d → IsBatch d.cols d.batch_rows (batch files d i)
  unfolding batch size_of
  batch-IsBatch i lt = record {
    some_row = size_positive files d i b0 lt;
    most = omega arith;
    columns = refl;
    some_column = c0;
  }

  pub baseline_loop-Ends :
      (i n batches bytes : ℕ)
      → i + n ≡ Memtier.len d
      → Ends
          (baseline_loop files m (mapped files d) d.device (gather (λ j. j) i n) batches bytes)
          (λ c. c ≡ (batches + n, bytes + bytes_from files d i))
  unfolding Ends baseline_loop Memtier.len
  baseline_loop-Ends i zero batches bytes e w =
      (_, refl, no_more files d b0 i batches bytes (omega (arith, e)))
  baseline_loop-Ends i (suc n) batches bytes e w =
      let got = mapped_batch files d big b0 i (omega arith) in
      let same = m.collate_lem true (batch files d i) in
      let w1 = (m.to_device d.device (batch files d i) w).1 in
      let w2 = (m.synchronize d.device w1).1 in
      let (c, returned, is) =
        baseline_loop-Ends (i + 1) n (batches + 1) (bytes + num_bytes (batch files d i))
          (omega arith) w2 in
      (
        c,
        rw (baseline_loop, got, same)
            (after-ok (m.to_device d.device (batch files d i) w) tt _
                (works.copies (batch files d i) w (batch-IsBatch i (omega arith)))
              ∙ after-ok (m.synchronize d.device w1) tt _ (works.synchronizes w1)
              ∙ returned),
        one_more files d i n batches bytes c is,
      )

  -- An item, in every state, is the batch of the dataset.
  uvm_item_lem :
      Memtier.is_policy d.policy ≡ true
      → (w : W) (i : ℕ) → i < Memtier.len d
      → (uvm_item files m d (pos i) w).0 ≡ ok (batch files d i)
  unfolding uvm_item Memtier.getitem
  uvm_item_lem known w i lt =
      let there : check_index (pos i) (Memtier.len d) ≡ ok i = check_in i (Memtier.len d) lt in
      let got =
        getitem_batch files (read_in m w) d (works.reads d.rows d.policy w known) big c0 b0 i lt in
      rw (uvm_item, there, works.built) (ground (arith, there, got))

  pub uvm_loop-Ends :
      Memtier.is_policy d.policy ≡ true
      → (i n batches bytes : ℕ) → i + n ≡ Memtier.len d
      → Ends
          (uvm_loop files m d d.device (gather (λ j. j) i n) batches bytes)
          (λ c. c ≡ (batches + n, bytes + bytes_from files d i))
  unfolding Ends uvm_loop Memtier.len
  uvm_loop-Ends known i zero batches bytes e w =
      (_, refl, no_more files d b0 i batches bytes (omega (arith, e)))
  uvm_loop-Ends known i (suc n) batches bytes e w =
      let got = uvm_item_lem known w i (omega arith) in
      let same = m.collate_lem false (batch files d i) in
      let w1 = (uvm_item files m d (pos i) w).1 in
      let w2 = (m.touch_gpu (batch files d i) w1).1 in
      let w3 = (m.synchronize d.device w2).1 in
      let (c, returned, is) =
        uvm_loop-Ends known (i + 1) n (batches + 1) (bytes + num_bytes (batch files d i))
          (omega arith) w3 in
      (
        c,
        after-ok (uvm_item files m d (pos i) w) (batch files d i) _ got
            ∙ rw same (
                after-ok (m.touch_gpu (batch files d i) w1) tt _
                  (works.touches (batch files d i) w1 (batch-IsBatch i (omega arith)))
                ∙ after-ok (m.synchronize d.device w2) tt _ (works.synchronizes w2)
                ∙ returned),
        one_more files d i n batches bytes c is,
      )
