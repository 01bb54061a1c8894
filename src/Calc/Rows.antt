-- ===== src/Calc/Rows.antt =====
-- The loops of cheng (main.c): all rows and the carry after them.
use myos_io.Base.{
  ℕ, ◌+◌, ◌-◌, ◌*◌, ◌≤◌, ◌≡◌, refl, sym, Option, none, some, List, [], ◌∷◌, arith, length,
  replicate, length-append, length-replicate,
}
use myos_io.Calc.{base, Product, jinwei_zhengxiang, add_row_at, after_row, finish, rows_loop}
use myos_io.Calc.Digits.{
  value, shift, shift_zero, shift-shift, shift_cancel, value-append, value-replicate, AllDigits,
  AllDigits-append, AllDigits-of_bound,
}
use myos_io.Calc.Batch.{Ready, after_row-Ready}
use myos_io.Calc.Carry.{
  Returns, Returns-and_then, AtMost-mono, AtMost-replicate, start_max, row_max, batch_max, Carried,
  jinwei_zhengxiang-Carried, add_row_at-Added,
}

-- A list of `size` digits that stands for `total`.
pub record Stands (total size : ℕ) (r : List ℕ) : Type 0 where
  pub value-eq : value r ≡ total
  pub length-eq : length r ≡ size
  pub digits : AllDigits r

module _ (xs : List ℕ) (total rows : ℕ) (nonempty : 1 ≤ length xs) where
  finish-Stands :
      (before result : List ℕ) (o : Option (List ℕ))
      → total + 1 ≤ shift (length xs + rows) 1
      → AllDigits before
      → value before + shift (length before) (value result) ≡ total
      → length before + length result ≡ length xs + rows
      → Returns (Carried (length result - 1) result) o
      → Returns (Stands total (length xs + rows)) (finish before o)
  finish-Stands before result none fits digits value-eq size c = absurd c
  finish-Stands before result (some r) fits digits value-eq size c =
      let k = length before in
      let small : shift k (value r) + 1 ≤ shift k (shift (length r) 1) =
        rw (c.value-eq, sym (shift-shift k (length r) 1), c.length-eq, size)
          (omega (arith, value-eq)) in
      let high =
        AllDigits-of_bound (length result - 1) r (omega (arith, c.length-eq)) c.digits
          (shift_cancel k (value r) (shift (length r) 1) small) in
      record {
        value-eq = rw (value-append before r, c.value-eq) value-eq;
        length-eq = omega (arith, length-append before r, c.length-eq);
        digits = AllDigits-append before r digits high;
      }

  pub rows_loop-Stands :
      (cs : List ℕ) (p : Product)
      → total + 1 ≤ shift (length xs + rows) 1
      → AllDigits xs
      → Ready xs total rows cs p
      → Returns (Stands total (length xs + rows)) (rows_loop xs cs p)
  unfolding rows_loop Ready
  rows_loop-Stands [] p fits digits_xs h =
      let n : length xs + base - 1 - p.jishu ≡ length p.mark_result =
        omega (arith, h.0.length-eq, h.1) in
      let none_left : value xs * 0 ≡ 0 = omega arith in
      let empty : value p.mark_result + shift p.offset (value xs * 0) ≡ value p.mark_result =
        rw (none_left, shift_zero p.offset) (omega arith) in
      rw n (
        finish-Stands p.before p.mark_result
          (jinwei_zhengxiang p.mark_result (length p.mark_result)) fits h.0.digits
          (rw empty at h.0.value-eq) (omega (arith, h.0.length-eq, h.0.rows-eq))
          (jinwei_zhengxiang-Carried p.mark_result (length p.mark_result)
            (omega (arith, h.0.length-eq)) (omega arith)
            (AtMost-mono (start_max + p.offset * row_max) batch_max (p.offset + length xs)
              (length p.mark_result) p.mark_result (omega (arith, h.1))
              (omega (arith, h.0.length-eq)) h.0.at_most)))
  rows_loop-Stands (c ∷ cs) p fits digits_xs h =
      Returns-and_then (Ready xs total rows cs) (Stands total (length xs + rows))
        (after_row xs p (add_row_at p.offset xs c p.mark_result)) (rows_loop xs cs)
        (after_row-Ready xs total rows nonempty c cs p (add_row_at p.offset xs c p.mark_result) h (
          add_row_at-Added (start_max + p.offset * row_max) (omega (arith, h.1)) p.offset xs c
            (p.offset + length xs) p.mark_result digits_xs h.0.left.0 (omega (arith, h.0.length-eq))
            (omega arith) h.0.at_most))
        λ p' h'. rows_loop-Stands cs p' fits digits_xs h'

abbrev pub start : List ℕ → List ℕ → Product
start xs ys = record {
  before = [];
  mark_result = replicate (length xs + length ys) 0;
  offset = 0;
  jishu = base - 1;
}

-- The first array of cheng is 0, and all rows are left.
pub start-Ready :
    (xs ys : List ℕ) → AllDigits ys → Ready xs (value xs * value ys) (length ys) ys (start xs ys)
unfolding Ready shift
start-Ready xs ys left = (
  record {
    value-eq = omega (arith, value-replicate (length xs + length ys));
    length-eq = omega (arith, length-replicate {A = ℕ} (length xs + length ys) 0);
    rows-eq = omega arith;
    digits = tt;
    left = left;
    at_most = AtMost-replicate (start_max + 0 * row_max) (0 + length xs) (length xs + length ys);
  },
  refl,
)
