-- ===== src/Calc/Multiply.antt =====
-- cheng of main.c multiplies.
use myos_io.Base.{
  ℕ, suc, ◌+◌, ◌-◌, ◌*◌, ◌/◌, ◌%◌, ◌^◌, ◌<◌, ◌≤◌, ◌≡◌, refl, sym, ◌∙◌, ◌⊎◌, inl, inr, true, false,
  not, Option, none, some, List, [], ◌∷◌, arith, ltb, leb, leb→le, ◌==◌, if◌then◌else◌, Bool-cases,
  length, get_or, drop_last,
}
use myos_io.Base.Int.{ℤ, pos, pos_part, neg_part, ◌+ℤ◌, ◌*ℤ◌, int_laws}
use myos_io.Calc.{
  base, wei, len_max, Num, rows_loop, trim, wrap64, product_of, Outcome, returned, exit_1, fault,
  cheng,
}
use myos_io.Calc.Digits.{
  value, shift, shift-shift, shift_mul, AllDigits, value_bound, mul_bound, mul_le, Trimmed,
  Trimmed-bound, Trimmed-of_bound, Trimmed-of_top, drop_last-value, AllDigits-drop_last,
}
use myos_io.Calc.Rows.{Stands, rows_loop-Stands, start, start-Ready}
use myos_io.Calc.Carry.{Returns}

pub trim-value :
    (total size : ℕ) (r : List ℕ)
    → Stands total size r
    → 1 ≤ size
    → (value (trim r) ≡ total) × AllDigits (trim r)
trim-value total size r h one = elim (Bool-cases (get_or r (length r - 1) 0 == 0)) [
  | inl top ↦
      let short = drop_last-value r (omega (arith, h.length-eq)) (ground (arith, top)) in
      rw top (short.0 ∙ h.value-eq, AllDigits-drop_last r h.digits)
  | inr top ↦ rw top (h.value-eq, h.digits)
]

-- After trim the highest digit is not 0, if the number fills all but one digit.
pub trim-Trimmed :
    (total size : ℕ) (r : List ℕ)
    → Stands total size r
    → 2 ≤ size
    → shift size 1 ≤ base * (base * total)
    → Trimmed (trim r)
unfolding shift
trim-Trimmed total size r h two large = elim (Bool-cases (get_or r (length r - 1) 0 == 0)) [
  | inl top ↦
      let short = drop_last-value r (omega (arith, h.length-eq)) (ground (arith, top)) in
      let digits = AllDigits-drop_last r h.digits in
      let size-eq : size ≡ suc (length (drop_last r)) = omega (arith, short.1, h.length-eq) in
      let bound : shift (suc (length (drop_last r))) 1 ≤ base * (base * total) =
        rw size-eq at large in
      rw top (Trimmed-of_bound (drop_last r) digits (omega (arith, bound, short.0, h.value-eq)))
  | inr top ↦ rw top (Trimmed-of_top r (ground (arith, top)))
]

-- A number stands for value * 10 ^ exponent.
unfoldable pub exponent : Num → ℤ
unfolding ◌+ℤ◌ ◌*ℤ◌
exponent n = pos wei *ℤ n.float_segment +ℤ pos n.float_offset

-- What a product is: the digits, and unless they are 0 the exponent and the sign.
abbrev pub Multiplied : Num → Num → Outcome → Type 0
Multiplied a b (returned r) =
    (value r.num ≡ value a.num * value b.num)
    × AllDigits r.num
    × ((value r.num ≡ 0)
        ⊎ ((exponent r ≡ exponent a +ℤ exponent b)
            × (r.is_negative ≡ (if a.is_negative then not b.is_negative else b.is_negative))))
Multiplied a b exit_1 = ⊥
Multiplied a b fault = ⊥

abbrev pub ReturnsTrimmed : Outcome → Type 0
ReturnsTrimmed (returned r) = Trimmed r.num
ReturnsTrimmed exit_1 = ⊥
ReturnsTrimmed fault = ⊥

wei_parts :
    (s : ℤ)
    → pos_part (pos wei *ℤ s) + wei * neg_part s ≡ neg_part (pos wei *ℤ s) + wei * pos_part s
unfolding ◌*ℤ◌
wei_parts s = ground arith

exponent_add :
    (s t : ℤ) (o p : ℕ)
    → pos wei *ℤ (if leb wei (o + p) then s +ℤ t +ℤ pos 1 else s +ℤ t)
        +ℤ pos (if leb wei (o + p) then o + p - wei else o + p)
      ≡ pos wei *ℤ s +ℤ pos o +ℤ (pos wei *ℤ t +ℤ pos p)
exponent_add s t o p = elim (Bool-cases (leb wei (o + p))) [
  | inl over ↦ rw over (
      omega
        (int_laws, wei_parts s, wei_parts t, wei_parts (s +ℤ t +ℤ pos 1), leb→le wei (o + p) over))
  | inr under ↦ rw under (omega (int_laws, wei_parts s, wei_parts t, wei_parts (s +ℤ t)))
]

-- A float_segment within its int64_t.
abbrev pub Fits64 : ℤ → Type 0
Fits64 a = (pos_part a < 2 ^ 63) × (neg_part a ≤ 2 ^ 63)

wrap64_lem : (a : ℤ) → Fits64 a → wrap64 a ≡ a
unfolding wrap64
wrap64_lem a h = ground (arith, h)

-- The exponents whose sum the fields of a number hold: offsets below a segment's places, and
-- segments that can be added and carried into.
pub record AddExponents (a b : Num) : Type 0 where
  pub offset_a : a.float_offset < wei
  pub offset_b : b.float_offset < wei
  pub segment : Fits64 (a.float_segment +ℤ b.float_segment)
  pub carried : Fits64 (a.float_segment +ℤ b.float_segment +ℤ pos 1)

exponent_sum :
    (a b : Num)
    → AddExponents a b
    → pos wei
          *ℤ (if leb wei ((a.float_offset + b.float_offset) % 256)
              then wrap64 (wrap64 (a.float_segment +ℤ b.float_segment) +ℤ pos 1)
              else wrap64 (a.float_segment +ℤ b.float_segment))
        +ℤ pos (
            if leb wei ((a.float_offset + b.float_offset) % 256)
            then (a.float_offset + b.float_offset) % 256 - wei
            else (a.float_offset + b.float_offset) % 256)
      ≡ pos wei *ℤ a.float_segment
        +ℤ pos a.float_offset
        +ℤ (pos wei *ℤ b.float_segment +ℤ pos b.float_offset)
exponent_sum a b h =
    let byte : (a.float_offset + b.float_offset) % 256 ≡ a.float_offset + b.float_offset =
      omega (arith, h.offset_a, h.offset_b) in
    rw
      (
        byte,
        wrap64_lem (a.float_segment +ℤ b.float_segment) h.segment,
        wrap64_lem (a.float_segment +ℤ b.float_segment +ℤ pos 1) h.carried,
      )
      (exponent_add a.float_segment b.float_segment a.float_offset b.float_offset)

product_of-Multiplied :
    (a b : Num) (size : ℕ) (o : Option (List ℕ))
    → Returns (Stands (value a.num * value b.num) size) o
    → 1 ≤ size
    → AddExponents a b
    → Multiplied a b (product_of a b o)
unfolding exponent
product_of-Multiplied a b size none h one k = h
product_of-Multiplied a b size (some r) h one k =
    let trimmed = trim-value (value a.num * value b.num) size r h one in
    (trimmed.0, trimmed.1, inr (exponent_sum a b k, refl))

product_of-Trimmed :
    (a b : Num) (size : ℕ) (o : Option (List ℕ))
    → Returns (Stands (value a.num * value b.num) size) o
    → 2 ≤ size
    → shift size 1 ≤ base * (base * (value a.num * value b.num))
    → ReturnsTrimmed (product_of a b o)
product_of-Trimmed a b size none h two large = h
product_of-Trimmed a b size (some r) h two large =
    trim-Trimmed (value a.num * value b.num) size r h two large

shift_both :
    (xs ys : List ℕ) → shift (length xs + length ys) 1 ≡ shift (length xs) 1 * shift (length ys) 1
shift_both xs ys =
    shift-shift (length xs) (length ys) 1 ∙ shift_mul (length xs) (shift (length ys) 1)

-- A product has at most as many digits as the factors together, and at most one less, if they
-- have no leading zeros.
product_bound :
    (xs ys : List ℕ)
    → AllDigits xs
    → AllDigits ys
    → value xs * value ys + 1 ≤ shift (length xs + length ys) 1
product_bound xs ys dx dy = rw (shift_both xs ys) (
    mul_bound (value xs) (value ys) (shift (length xs) 1) (shift (length ys) 1) (value_bound xs dx)
      (value_bound ys dy))

product_large :
    (xs ys : List ℕ)
    → 1 ≤ length xs
    → 1 ≤ length ys
    → Trimmed xs
    → Trimmed ys
    → shift (length xs + length ys) 1 ≤ base * (base * (value xs * value ys))
product_large xs ys h k tx ty =
    let below =
      mul_le (shift (length xs) 1) (shift (length ys) 1) (base * value xs) (base * value ys)
        (Trimmed-bound xs h tx) (Trimmed-bound ys k ty) in
    rw (shift_both xs ys) (omega (arith, below))

value_empty : (xs : List ℕ) → length xs ≡ 0 → value xs ≡ 0
value_empty [] h = refl
value_empty (x ∷ xs) h = absurd (omega arith)

-- How cheng ends: at once for a zero without digits, else with what the loops leave.
module _ (P : Outcome → Type 0) (a b result : Num) where
  cheng-cases :
      AllDigits a.num
      → AllDigits b.num
      → length a.num + length b.num ≤ len_max / 8
      → (value a.num * value b.num ≡ 0
          → P (returned (record result { num = []; is_negative = false })))
      → (1 ≤ length a.num
          → 1 ≤ length b.num
          → (o : Option (List ℕ))
          → Returns (Stands (value a.num * value b.num) (length a.num + length b.num)) o
          → P (product_of a b o))
      → P (cheng true a b result)
  unfolding cheng
  cheng-cases da db fits zero_case other = elim (Bool-cases (length a.num == 0)) [
    | inl none_a ↦
        let v : value a.num ≡ 0 = value_empty a.num (ground (arith, none_a)) in
        rw none_a (zero_case (rw v (omega arith)))
    | inr some_a ↦ elim (Bool-cases (length b.num == 0)) [
      | inl none_b ↦
          let v : value b.num ≡ 0 = value_empty b.num (ground (arith, none_b)) in
          rw (some_a, none_b) (zero_case (rw v (omega arith)))
      | inr some_b ↦
          let size = length a.num + length b.num in
          let h : 1 ≤ length a.num = ground (arith, some_a) in
          let k : 1 ≤ length b.num = ground (arith, some_b) in
          let len_fits : ltb len_max size ≡ false = ground (arith, fits) in
          let malloc_fits : ltb (len_max / 8) size ≡ false = ground (arith, fits) in
          let carry_fits : ltb len_max (length a.num + base) ≡ false = ground (arith, fits) in
          rw (some_a, some_b, len_fits, malloc_fits, carry_fits)
            (other h k (rows_loop a.num b.num (start a.num b.num)) (
              rows_loop-Stands a.num (value a.num * value b.num) (length b.num) h b.num
                (start a.num b.num) (product_bound a.num b.num da db) da
                (start-Ready a.num b.num db)))
    ]
  ]

-- For numbers in digits that are not too long, with offsets below 6 and a sum of the segments that
-- is an int64_t also with the carry, and with memory for the result, cheng stays inside its array,
-- no digit overflows its int64_t on the way, and it returns the product of the digits; unless that
-- is 0, the exponents add and the sign is the exclusive or of the signs.
pub cheng-Multiplied :
    (a b result : Num)
    → AllDigits a.num
    → AllDigits b.num
    → length a.num + length b.num ≤ len_max / 8
    → AddExponents a b
    → Multiplied a b (cheng true a b result)
cheng-Multiplied a b result da db fits exponents =
    cheng-cases (Multiplied a b) a b result da db fits (λ h. (sym h, tt, inl refl))
      λ h k o s.
        product_of-Multiplied a b (length a.num + length b.num) o s (omega (arith, h, k)) exponents

-- For numbers without leading zeros, not too long, and with memory for the result, the product that
-- cheng returns has no leading zeros.
pub cheng-Trimmed :
    (a b result : Num)
    → AllDigits a.num
    → AllDigits b.num
    → Trimmed a.num
    → Trimmed b.num
    → length a.num + length b.num ≤ len_max / 8
    → ReturnsTrimmed (cheng true a b result)
cheng-Trimmed a b result da db ta tb fits =
    cheng-cases ReturnsTrimmed a b result da db fits (λ _. tt)
      λ h k o s.
        product_of-Trimmed a b (length a.num + length b.num) o s (omega (arith, h, k))
          (product_large a.num b.num h k ta tb)
