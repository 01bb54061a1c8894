-- ===== src/Calc/Batch.antt =====
-- One row of cheng (main.c), and the carry at the end of a batch of rows.
use myos_io.Base.{
  ℕ, suc, ◌+◌, ◌-◌, ◌*◌, ◌≤◌, ◌≡◌, refl, sym, ◌∙◌, inl, inr, Option, none, some, List, ◌∷◌, ◌++◌,
  arith, ◌==◌, Bool-cases, length, take, drop, length-append, length-take, length-drop,
  take-append-drop,
}
use myos_io.Calc.{base, Product, jinwei_zhengxiang, next_batch, after_row}
use myos_io.Calc.Digits.{
  value, shift, shift_add, shift_suc, shift-shift, value-append, AllDigits, AllDigits-append,
  AllDigits-take,
}
use myos_io.Calc.Carry.{
  Returns, Returns-both, AtMost, AtMost-mono, AtMost-drop, start_max, row_max, batch_max,
  jinwei_zhengxiang-AtMost, Carried, jinwei_zhengxiang-Carried, Added,
}

module _ (xs : List ℕ) (total rows : ℕ) where
  -- With the rows for the digits `cs` left, the array and these rows make up `total`; all batches
  -- but the last are carried.
  pub record Partial (cs : List ℕ) (p : Product) : Type 0 where
    pub value-eq :
        value p.before
          + shift (length p.before) (value p.mark_result + shift p.offset (value xs * value cs))
        ≡ total
    pub length-eq : length p.mark_result ≡ length xs + p.offset + length cs
    pub rows-eq : length p.before + p.offset + length cs ≡ rows
    pub digits : AllDigits p.before
    pub left : AllDigits cs
    pub at_most : AtMost (start_max + p.offset * row_max) (p.offset + length xs) p.mark_result

  -- At the start of a row, `jishu` says how many more rows the batch takes.
  unfoldable pub Ready : List ℕ → Product → Type 0
  Ready cs p = Partial cs p × (p.offset + p.jishu + 1 ≡ base)

-- One row.
row_value :
    (offset c v w : ℕ)
    → shift offset (c * v) + shift (offset + 1) (v * w) ≡ shift offset (v * (c + base * w))
row_value offset c v w =
    let e : v * (c + base * w) ≡ c * v + base * (v * w) = omega arith in
    rw (e, shift_suc offset (v * w)) (sym (shift_add offset (c * v) (base * (v * w))))

-- Where a list is cut in two.
value_split :
    (n : ℕ) (xs : List ℕ)
    → n ≤ length xs
    → value xs ≡ value (take n xs) + shift n (value (drop n xs))
value_split n xs h =
    let e : length (take n xs) ≡ n = omega (arith, length-take n xs) in
    let split = value-append (take n xs) (drop n xs) in rw (take-append-drop n xs, e) at split

-- The end of a batch: the digits that are done move to the front.
batch_value :
    (before carried : List ℕ) (n v : ℕ)
    → n ≤ length carried
    → value (before ++ take n carried)
        + shift (length (before ++ take n carried)) (value (drop n carried) + v)
      ≡ value before + shift (length before) (value carried + shift n v)
batch_value before carried n v h =
    let k = length before in
    let low = value (take n carried) in
    let high = value (drop n carried) in
    let e : length (take n carried) ≡ n = omega (arith, length-take n carried) in
    let whole : value carried + shift n v ≡ low + shift n (high + v) =
      omega (arith, value_split n carried h, shift_add n high v) in
    rw
      (
        value-append before (take n carried),
        length-append before (take n carried),
        e,
        whole,
        shift-shift k n (high + v),
        shift_add k low (shift n (high + v)),
      )
      (omega arith)

module _ (xs : List ℕ) (total rows : ℕ) (nonempty : 1 ≤ length xs) where
  next_batch-Ready :
      (cs result : List ℕ) (p : Product) (o : Option (List ℕ))
      → Partial xs total rows cs (record p { mark_result = result; offset = p.offset + 1 })
      → p.offset + 1 ≡ base
      → Returns
          (λ r. Carried (length xs + base - 1) result r × AtMost start_max (base + length xs) r)
          o
      → Returns (Ready xs total rows cs) (next_batch p o)
  unfolding Ready shift
  next_batch-Ready cs result p none h full c = absurd c
  next_batch-Ready cs result p (some carried) h full (c, small) =
      let n = p.offset + 1 in
      let whole : n + length xs ≡ base + length xs = omega arith in
      let rest = AtMost-drop start_max (length xs) n carried (rw whole small) in
      let moved =
        batch_value p.before carried n (value xs * value cs)
          (omega (arith, c.length-eq, h.length-eq)) in
      (
        record {
          value-eq = rw c.value-eq at moved ∙ h.value-eq;
          length-eq = omega (arith, length-drop n carried, c.length-eq, h.length-eq);
          rows-eq = omega (
            arith,
            length-append p.before (take n carried),
            length-take n carried,
            c.length-eq,
            h.length-eq,
            h.rows-eq,
          );
          digits =
              AllDigits-append p.before (take n carried) h.digits
                (AllDigits-take n (length xs + base - 1) carried (omega arith) c.digits);
          left = h.left;
          at_most =
              AtMost-mono start_max (start_max + 0 * row_max) (length xs) (0 + length xs)
                (drop n carried) (omega arith) (omega arith) rest;
        },
        refl,
      )

  jinwei_zhengxiang-both :
      (result : List ℕ)
      → length xs + base ≤ length result
      → AtMost batch_max (length xs + base - 1) result
      → Returns
          (λ r. Carried (length xs + base - 1) result r × AtMost start_max (base + length xs) r)
          (jinwei_zhengxiang result (length xs + base))
  jinwei_zhengxiang-both result h a =
      let k = length xs + base - 2 in
      let n : length xs + base ≡ suc (suc k) = omega arith in
      let m : base + length xs ≡ suc (suc k) = omega arith in
      let a' =
        AtMost-mono batch_max batch_max (length xs + base - 1) (suc k) result (omega arith)
          (omega arith) a in
      let small = jinwei_zhengxiang-AtMost result k (omega (arith, h)) a' in
      Returns-both (Carried (length xs + base - 1) result) (AtMost start_max (base + length xs))
        (jinwei_zhengxiang result (length xs + base))
        (jinwei_zhengxiang-Carried result (length xs + base) (omega arith) h (
          AtMost-mono batch_max batch_max (length xs + base - 1) (length xs + base) result
            (omega arith) (omega arith) a))
        (rw (n, m) small)

  row-Partial :
      (c : ℕ) (cs result : List ℕ) (p : Product)
      → Partial xs total rows (c ∷ cs) p
      → Added (shift p.offset (c * value xs)) p.mark_result result
      → AtMost (start_max + p.offset * row_max + row_max) (p.offset + length xs) result
      → Partial xs total rows cs (record p { mark_result = result; offset = p.offset + 1 })
  row-Partial c cs result p h added small =
      let v : value result + shift (p.offset + 1) (value xs * value cs)
          ≡ value p.mark_result + shift p.offset (value xs * value (c ∷ cs)) =
        omega (arith, added.value-eq, row_value p.offset c (value xs) (value cs)) in
      record {
        value-eq = rw v h.value-eq;
        length-eq = omega (arith, added.length-eq, h.length-eq);
        rows-eq = omega (arith, h.rows-eq);
        digits = h.digits;
        left = h.left.1;
        at_most =
            AtMost-mono (start_max + p.offset * row_max + row_max)
              (start_max + (p.offset + 1) * row_max) (p.offset + length xs)
              (p.offset + 1 + length xs) result (omega arith) (omega arith) small;
      }

  pub after_row-Ready :
      (c : ℕ) (cs : List ℕ) (p : Product) (o : Option (List ℕ))
      → Ready xs total rows (c ∷ cs) p
      → Returns
          (λ r.
            Added (shift p.offset (c * value xs)) p.mark_result r
            × AtMost (start_max + p.offset * row_max + row_max) (p.offset + length xs) r)
          o
      → Returns (Ready xs total rows cs) (after_row xs p o)
  unfolding Ready
  after_row-Ready c cs p none h added = absurd added
  after_row-Ready c cs p (some result) h added =
      let partial = row-Partial c cs result p h.0 added.0 added.1 in
      elim (Bool-cases (p.jishu == 0)) [
        | inl last ↦
            let full : p.offset + 1 ≡ base = ground (arith, h.1, last) in
            rw last (
              next_batch-Ready cs result p (jinwei_zhengxiang result (length xs + base)) partial
                full
                (jinwei_zhengxiang-both result (omega (arith, partial.length-eq, full)) (
                  AtMost-mono (start_max + p.offset * row_max + row_max) batch_max
                    (p.offset + length xs) (length xs + base - 1) result (omega (arith, full))
                    (omega (arith, full)) added.1)))
        | inr more ↦ rw more (
          record {
            value-eq = partial.value-eq;
            length-eq = partial.length-eq;
            rows-eq = partial.rows-eq;
            digits = partial.digits;
            left = partial.left;
            at_most = partial.at_most;
          },
          ground (arith, h.1, more),
        )
      ]
