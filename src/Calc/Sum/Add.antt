-- ===== src/Calc/Sum/Add.antt =====
-- jia of main.c adds.
use Prim.Native.Nat.{max}
use myos_io.Base.{
  ℕ, suc, ◌+◌, ◌-◌, ◌≤◌, ◌≡◌, refl, sym, inl, inr, true, false, Bool-cases, Option, none, some,
  List, arith, length, ltb, leb, replicate,
}
use myos_io.Base.Int.{ℤ, pos, ◌≤ℤ◌, ltb_ℤ}
use myos_io.Calc.{len_max, num_width_max, Num, and_then, Outcome, returned, exit_1, fault}
use myos_io.Calc.Digits.{value, shift, shift_step, AllDigits, AllDigits-of_bound, place_bound}
use myos_io.Calc.Carry.{Returns, Returns-mono, Returns-and_then, Carried, Added}
use myos_io.Calc.Rows.{Stands}
use myos_io.Calc.Multiply.{trim-value}
use myos_io.Calc.Sum.{top, min_of, index_of, size_of, copy_at, add_at, carry_at, sum_of, jia}
use myos_io.Calc.Sum.Places.{Places-of}
use myos_io.Calc.Sum.Arrays.{Copied, copy_at-Copied, Sums, add_at-Sums, carry_at-Carried}

-- One number copied, one added, and the carries.
sum_array :
    (x y k n : ℕ) (xs ys : List ℕ)
    → AllDigits xs
    → AllDigits ys
    → x + length xs + 1 ≤ n
    → y + length ys + 1 ≤ n
    → k ≡ max x y
    → Returns
        (Stands (shift x (value xs) + shift y (value ys)) n)
        (and_then (and_then (copy_at x xs (replicate n 0)) (add_at y ys)) (carry_at k (n - k)))
sum_array x y k n xs ys dx dy hx hy e =
    let total = shift x (value xs) + shift y (value ys) in
    let Before : List ℕ → Type 0 = λ r. (value r ≡ total) × (length r ≡ n) × Sums k r in
    Returns-and_then Before (Stands total n) (and_then (copy_at x xs (replicate n 0)) (add_at y ys))
      (carry_at k (n - k))
      (Returns-and_then (Copied x n xs) Before (copy_at x xs (replicate n 0)) (add_at y ys)
        (copy_at-Copied x n xs dx (omega arith))
        λ r c.
          Returns-mono (λ r'. Added (shift y (value ys)) r r' × Sums k r') Before (add_at y ys r)
            (add_at-Sums y x k ys r dy c.digits c.below (omega (arith, c.length-eq)) (omega arith))
            λ r' a. (
              omega (arith, a.0.value-eq, c.value-eq),
              omega (arith, a.0.length-eq, c.length-eq),
              a.1,
            ))
      λ r b.
        let fits : total + 1 ≤ shift (suc (n - 1)) 1 = omega (
          arith,
          shift_step (n - 1) 1,
          place_bound x (n - 1) xs dx (omega arith),
          place_bound y (n - 1) ys dy (omega arith),
        ) in
        let whole : suc (n - 1) ≡ n = omega arith in
        rw (sym b.1) (
          Returns-mono (Carried (length r - 1) r) (Stands total (length r))
            (carry_at k (length r - k) r) (carry_at-Carried k r b.2 (omega (arith, b.1)))
            λ r' c. record {
              value-eq = omega (arith, c.value-eq, b.0);
              length-eq = c.length-eq;
              digits =
                  AllDigits-of_bound (length r - 1) r' (omega (arith, c.length-eq)) c.digits
                    (rw (c.length-eq, b.1, c.value-eq, b.0) (rw whole at fits));
            })

-- What a sum is: the array's lowest place is the lower float_segment, and the two numbers stand at
-- their places above it.
abbrev pub Adds : Num → Num → Num → Outcome → Type 0
Adds a b result (returned r) =
    (value r.num
      ≡ shift (index_of a.float_segment (min_of a b)) (value a.num)
        + shift (index_of b.float_segment (min_of a b)) (value b.num))
    × AllDigits r.num
    × (r.float_segment ≡ min_of a b)
    × (r.is_negative ≡ result.is_negative)
    × (r.float_offset ≡ result.float_offset)
Adds a b result exit_1 = ⊥
Adds a b result fault = ⊥

sum_of-Adds :
    (a b result : Num) (n : ℕ) (o : Option (List ℕ))
    → 1 ≤ n
    → Returns
        (Stands
          (shift (index_of a.float_segment (min_of a b)) (value a.num)
            + shift (index_of b.float_segment (min_of a b)) (value b.num))
          n)
        o
    → Adds a b result (sum_of result (min_of a b) o)
sum_of-Adds a b result n none h s = s
sum_of-Adds a b result n (some r) h s = let t = trim-value _ n r s h in (t.0, t.1, refl, refl, refl)

pub not_above : (a : ℤ) → a ≤ℤ pos num_width_max → ltb_ℤ (pos num_width_max) a ≡ false
not_above a h = ground (arith, h)

-- When the numbers do not reach above place 2 ^ 63, the array has at most 2 ^ 64 digits and there is
-- memory for it, jia stays inside its array, no digit overflows, and it returns the sum: each
-- number counts at its place above the lower float_segment, which the sum has; sign and
-- float_offset are those it was given.
pub jia-Adds :
    (a b result : Num)
    → AllDigits a.num
    → AllDigits b.num
    → top a ≤ℤ pos num_width_max
    → top b ≤ℤ pos num_width_max
    → size_of a b ≤ len_max
    → Adds a b result (jia true a b result)
unfolding jia
jia-Adds a b result da db ha hb hs =
    let p = Places-of a b in
    let x = index_of a.float_segment (min_of a b) in
    let y = index_of b.float_segment (min_of a b) in
    let n = size_of a b in
    let top_a : ltb_ℤ (pos num_width_max) (top a) ≡ false = not_above (top a) ha in
    let top_b : ltb_ℤ (pos num_width_max) (top b) ≡ false = not_above (top b) hb in
    let size : ltb len_max n ≡ false = ground (arith, hs) in
    let swap : shift y (value b.num) + shift x (value a.num)
        ≡ shift x (value a.num) + shift y (value b.num) =
      omega arith in
    rw (top_a, top_b, size, p.carry_from, p.carry_length)
      (sum_of-Adds a b result n _ (omega (arith, p.room_a))
        (elim (Bool-cases (leb (length b.num) (length a.num))) [
          | inl longer ↦
              rw longer (sum_array x y (max x y) n a.num b.num da db p.room_a p.room_b refl)
          | inr shorter ↦ rw shorter (
              rw swap at
                (sum_array y x (max x y) n b.num a.num db da p.room_b p.room_a (omega arith)))
        ]))
