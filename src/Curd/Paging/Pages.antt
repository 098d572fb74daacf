-- ===== src/Curd/Paging/Pages.antt =====
-- mdb/curd.go: the pages of a table cover its rows.
use glibs.Base.{
  ℕ, zero, suc, ◌+◌, ◌*◌, ◌/◌, ◌%◌, ◌^◌, ◌≤◌, ◌<◌, ◌≡◌, ap, ◌∙◌, Option, none, some, arith, ltb,
  inl, inr, Bool-cases, true,
}
use native.Mathlib.Omega.{div_any}
use native.Mathlib.Nat.{mul_comm, mod-lt, lt_of_mul-lt-mul_left}
use glibs.Base.Int.{ℤ, pos, negsuc, ltb_ℤ, ◌-ℤ◌, ◌*ℤ◌, wrap64, wrap64_id}
use glibs.Curd.Paging.{clamped_size, pages_of, index_of}

clamped_size_bounds : (size : ℤ) → (1 ≤ clamped_size size) × (clamped_size size ≤ 100)
unfolding clamped_size
clamped_size_bounds (pos n) = ground arith
clamped_size_bounds (negsuc n) = ground arith

-- The row with which a page begins.
abbrev pub first_row : ℤ × Option ℤ → ℤ
first_row (index, none) = pos 0
first_row (index, some offset) = offset

pages_of-lt : (total i s : ℕ) → 1 ≤ s → i < total → i / s < pages_of total s
unfolding pages_of
pages_of-lt total i s h less =
    let q = div_any i s in
    let t = div_any total s in
    let r : total % s < s = mod-lt total (omega arith) in
    let full : ltb 0 total ≡ true = ground arith in
    elim (Bool-cases (ltb 0 (total % s))) [
      | inl rest ↦
          let more : s * (total / s + 1) ≡ s * (total / s) + s = omega arith in
          rw (full, rest) (lt_of_mul-lt-mul_left s (omega arith))
      | inr whole ↦
          let none_left : total % s ≡ 0 = ground arith in
          let here : i / s < total / s = lt_of_mul-lt-mul_left s (omega arith) in
          rw (full, whole) (omega arith)
    ]

pos_pred : (p : ℕ) → pos (suc p + 1) -ℤ pos 1 ≡ pos (suc p)
unfolding ◌-ℤ◌
pos_pred p = ground arith

pos_mul : (a b : ℕ) → pos a *ℤ pos b ≡ pos (b * a)
unfolding ◌*ℤ◌
pos_mul a b = let c = mul_comm a b in ground arith

first_row_lem : (p s : ℕ) → s * p < 2 ^ 63 → first_row (index_of (pos (p + 1)) s) ≡ pos (s * p)
unfolding index_of
first_row_lem zero s h = ap pos (omega arith)
first_row_lem (suc p) s h =
    let later : ltb_ℤ (pos 1) (pos (suc p + 1)) ≡ true = ground arith in
    rw later (
      ap wrap64 (ap (λ x. x *ℤ pos s) (pos_pred p) ∙ pos_mul (suc p) s)
      ∙ wrap64_id (pos (s * suc p)) (h, omega arith))

-- Each row of a table, whose count an `int` holds, is on a page from the first to the last: the page's
-- rows begin at or before it and end behind it. A page has from 1 to 100 rows, whatever size is asked
-- for.
pub page_of_row :
    (total i : ℕ) (size : ℤ)
    → i < total
    → total < 2 ^ 63
    → (p : ℕ) × (1 ≤ p)
      × (p ≤ pages_of total (clamped_size size))
      × ((start : ℕ) × (first_row (index_of (pos p) (clamped_size size)) ≡ pos start)
          × (start ≤ i)
          × (i < start + clamped_size size))
      × (1 ≤ clamped_size size)
      × (clamped_size size ≤ 100)
page_of_row total i size h bound =
    let s = clamped_size size in
    let (low, high) = clamped_size_bounds size in
    let q = div_any i s in
    let r : i % s < s = mod-lt i (omega arith) in
    let page = pages_of-lt total i s low h in
    (
      i / s + 1,
      omega arith,
      omega arith,
      (s * (i / s), first_row_lem (i / s) s (omega arith), omega arith, omega arith),
      low,
      high,
    )
