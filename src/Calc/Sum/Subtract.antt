-- ===== src/Calc/Sum/Subtract.antt =====
-- jian of main.c subtracts.
use myos_io.Base.{
  ℕ, zero, suc, ◌+◌, ◌-◌, ◌*◌, ◌/◌, ◌≤◌, ◌<◌, ◌≡◌, refl, sym, true, false, Option, none, some, List,
  [], ◌∷◌, map, arith, length, ltb, if◌then◌else◌, replicate,
}
use myos_io.Base.Int.{pos, ◌≤ℤ◌, ltb_ℤ}
use myos_io.Calc.{base, len_max, num_width_max, Num, and_then, Outcome, returned, exit_1, fault}
use myos_io.Calc.Digits.{value, shift, AllDigits, Trimmed}
use myos_io.Calc.Carry.{Returns, Returns-mono, Returns-and_then}
use myos_io.Calc.Sum.{
  top, min_of, index_of, size_of, copy_at, sub_at, borrow_at, as_digits, strip, strip_onto,
  is_empty, difference_of, jian,
}
use myos_io.Calc.Sum.Places.{Places-of}
use myos_io.Calc.Sum.Arrays.{Copied, copy_at-Copied}
use myos_io.Calc.Sum.Add.{not_above}
use myos_io.Calc.Sum.Borrow.{
  Upper, Lower, Taken, sub_at-Taken, Settled, borrow_at-Settled, Left, as_digits-Left,
}

-- strip keeps the number and leaves no high zeros.
strip_onto_lem :
    (x : ℕ) (xs : List ℕ)
    → x < base
    → AllDigits xs
    → Trimmed xs
    → (value (strip_onto x xs) ≡ x + base * value xs)
      × AllDigits (strip_onto x xs)
      × Trimmed (strip_onto x xs)
strip_onto_lem zero [] h d t = (refl, tt, tt)
strip_onto_lem (suc x) [] h d t = (refl, (h, tt), omega arith)
strip_onto_lem zero (y ∷ xs) h d t = (refl, (h, d), t)
strip_onto_lem (suc x) (y ∷ xs) h d t = (refl, (h, d), t)

strip_lem :
    (xs : List ℕ)
    → AllDigits xs
    → (value (strip xs) ≡ value xs) × AllDigits (strip xs) × Trimmed (strip xs)
unfolding strip
strip_lem [] d = (refl, tt, tt)
strip_lem (x ∷ xs) d =
    let s = strip_lem xs d.1 in
    let t = strip_onto_lem x (strip xs) d.0 s.1 s.2 in (omega (arith, t.0, s.0), t.1, t.2)

-- The copy, the loop that subtracts, and the borrows.
difference_array :
    (x y n : ℕ) (xs ys : List ℕ)
    → AllDigits xs
    → AllDigits ys
    → x + length xs ≤ n
    → y + length ys + 1 ≤ n
    → shift y (value ys) ≤ shift x (value xs)
    → Returns
        (λ ds. (value ds + shift y (value ys) ≡ shift x (value xs)) × AllDigits ds)
        (and_then (copy_at x xs (replicate n 0)) λ copied.
          and_then
            (sub_at y ys (map pos copied))
            λ digits. and_then (borrow_at y (n - y) digits) as_digits)
difference_array x y n xs ys dx dy hx hy le =
    let Result : List ℕ → Type 0 =
      λ ds. (value ds + shift y (value ys) ≡ shift x (value xs)) × AllDigits ds in
    Returns-and_then (Copied x n xs) Result (copy_at x xs (replicate n 0)) _
      (copy_at-Copied x n xs dx hx)
      λ r c.
        Returns-and_then (λ q. Taken (shift y (value ys)) r q × Upper y q × Lower q) Result
          (sub_at y ys (map pos r)) _ (sub_at-Taken y ys r dy c.digits (omega (arith, c.length-eq)))
          λ q t.
            let n-eq : length q ≡ n = omega (arith, t.0.length-eq, c.length-eq) in
            Returns-and_then (Settled q) Result (borrow_at y (n - y) q) as_digits
              (rw (sym n-eq) (
                borrow_at-Settled y q (omega (arith, n-eq)) t.1 t.2
                  (omega (arith, t.0.value-eq, c.value-eq))))
              λ q' s.
                Returns-mono (Left q) Result (as_digits q') (as_digits-Left q q' s)
                  λ ds l. (omega (arith, l.value-eq, t.0.value-eq, c.value-eq), l.digits)

-- What a difference is: like a sum, with the second number taken off, without leading zeros; a
-- difference 0 has no sign.
abbrev pub Subtracts : Num → Num → Num → Outcome → Type 0
Subtracts a b result (returned r) =
    (value r.num + shift (index_of b.float_segment (min_of a b)) (value b.num)
      ≡ shift (index_of a.float_segment (min_of a b)) (value a.num))
    × AllDigits r.num
    × Trimmed r.num
    × (r.float_segment ≡ min_of a b)
    × (r.is_negative ≡ (if is_empty r.num then false else result.is_negative))
    × (r.float_offset ≡ result.float_offset)
Subtracts a b result exit_1 = ⊥
Subtracts a b result fault = ⊥

difference_of-Subtracts :
    (a b result : Num) (o : Option (List ℕ))
    → Returns
        (λ ds.
          (value ds + shift (index_of b.float_segment (min_of a b)) (value b.num)
            ≡ shift (index_of a.float_segment (min_of a b)) (value a.num))
          × AllDigits ds)
        o
    → Subtracts a b result (difference_of result (min_of a b) o)
difference_of-Subtracts a b result none s = s
difference_of-Subtracts a b result (some ds) s =
    let t = strip_lem ds s.1 in (omega (arith, t.0, s.0), t.1, t.2, refl, refl, refl)

-- When both numbers are in digits, the first is at least the second, the numbers do not reach above
-- place 2 ^ 63, the array is not too long and there is memory for it, jian stays inside its array, no
-- digit leaves its int64_t on the way, and it returns the difference, without leading zeros, at the lower float_segment; it has the sign and float_offset it
-- was given, but 0 is not negative.
pub jian-Subtracts :
    (a b result : Num)
    → AllDigits a.num
    → AllDigits b.num
    → shift (index_of b.float_segment (min_of a b)) (value b.num)
      ≤ shift (index_of a.float_segment (min_of a b)) (value a.num)
    → top a ≤ℤ pos num_width_max
    → top b ≤ℤ pos num_width_max
    → size_of a b ≤ len_max
    → length a.num ≤ len_max / 8
    → Subtracts a b result (jian true a b result)
unfolding jian
jian-Subtracts a b result da db le ha hb hs hl =
    let p = Places-of a b in
    let x = index_of a.float_segment (min_of a b) in
    let y = index_of b.float_segment (min_of a b) in
    let n = size_of a b in
    let top_a : ltb_ℤ (pos num_width_max) (top a) ≡ false = not_above (top a) ha in
    let top_b : ltb_ℤ (pos num_width_max) (top b) ≡ false = not_above (top b) hb in
    let size : ltb len_max n ≡ false = ground (arith, hs) in
    let len : ltb (len_max / 8) (length a.num) ≡ false = ground (arith, hl) in
    rw (top_a, top_b, size, len, p.borrow_length)
      (difference_of-Subtracts a b result _
        (difference_array x y n a.num b.num da db (omega (arith, p.room_a)) p.room_b le))
