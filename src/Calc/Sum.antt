-- ===== src/Calc/Sum.antt =====
-- main.c: addition and subtraction, jia, jian and calc_baoliu.
pub mod Places
pub mod Arrays
pub mod Add
pub mod Borrow
pub mod Subtract
pub mod Signed
use myos_io.Base.{
  ℕ, zero, suc, ◌+◌, ◌-◌, ◌*◌, ◌/◌, Bool, true, false, not, ◌||◌, Option, none, some, List, [], ◌∷◌,
  map, ◌^◌, ◌&&◌, ltb, leb, ◌==◌, if◌then◌else◌, length, replicate,
}
use myos_io.Base.Int.{ℤ, pos, negsuc, pos_part, neg_part, ◌+ℤ◌, ◌-ℤ◌, ltb_ℤ}
use myos_io.Calc.{
  base, len_max, num_width_max, Num, prepend, checked, and_then, jinwei_zhengxiang, trim, Outcome,
  returned, exit_1, fault, cheng,
}
use myos_io.Calc.Compare.{Num_compare_jueduizhi}

-- float_segment + len, and the two ends of the array for a sum.
abbrev pub top : Num → ℤ
top a = a.float_segment +ℤ pos (length a.num)

abbrev pub max_of : Num → Num → ℤ
max_of a b = if ltb_ℤ (top b) (top a) then top a else top b

abbrev pub min_of : Num → Num → ℤ
min_of a b = if ltb_ℤ a.float_segment b.float_segment then a.float_segment else b.float_segment

-- The distance of two positions, as an index into the array.
abbrev pub index_of : ℤ → ℤ → ℕ
index_of high low = pos_part (high -ℤ low)

abbrev pub size_of : Num → Num → ℕ
size_of a b = index_of (max_of a b +ℤ pos 1) (min_of a b)

-- memcpy(result + offset, xs, …)
unfoldable pub copy_at : ℕ → List ℕ → List ℕ → Option (List ℕ)
copy_at zero [] result = some result
copy_at zero (x ∷ xs) [] = none
copy_at zero (x ∷ xs) (r ∷ result) = prepend x (copy_at zero xs result)
copy_at (suc offset) xs [] = none
copy_at (suc offset) xs (r ∷ result) = prepend r (copy_at offset xs result)

-- The loop of jia that adds the digits of `xs` from result[offset] on.
unfoldable pub add_at : ℕ → List ℕ → List ℕ → Option (List ℕ)
add_at zero [] result = some result
add_at zero (x ∷ xs) [] = none
add_at zero (x ∷ xs) (r ∷ result) = checked (r + x) (prepend (r + x) (add_at zero xs result))
add_at (suc offset) xs [] = none
add_at (suc offset) xs (r ∷ result) = prepend r (add_at offset xs result)

-- jinwei_zhengxiang(result + offset, n)
unfoldable pub carry_at : ℕ → ℕ → List ℕ → Option (List ℕ)
unfolding jinwei_zhengxiang
carry_at zero n result = jinwei_zhengxiang result n
carry_at (suc offset) n [] = none
carry_at (suc offset) n (r ∷ result) = prepend r (carry_at offset n result)

abbrev pub sum_of : Num → ℤ → Option (List ℕ) → Outcome
sum_of result min none = fault
sum_of result min (some digits) =
    returned (record result { num = trim digits; float_segment = min })

-- The longer number is copied, the shorter one added; then carries from the higher of the two
-- lowest digits on.
unfoldable pub jia : Bool → Num → Num → Num → Outcome
unfolding copy_at add_at carry_at
jia has_memory a b result =
    let max = max_of a b in
    let min = min_of a b in
    let at_a = index_of a.float_segment min in
    let at_b = index_of b.float_segment min in
    let zeros = replicate (size_of a b) 0 in
    let min_max = if ltb_ℤ min a.float_segment then a.float_segment else b.float_segment in
    if ltb_ℤ (pos num_width_max) (top a)
      || ltb_ℤ (pos num_width_max) (top b)
      || ltb len_max (size_of a b)
      || not has_memory
    then exit_1
    else sum_of result min (
        and_then
          (if leb (length b.num) (length a.num)
            then and_then (copy_at at_a a.num zeros) (add_at at_b b.num)
            else and_then (copy_at at_b b.num zeros) (add_at at_a a.num))
          (carry_at (index_of min_max min) (index_of (max +ℤ pos 1) min_max)))

-- In jian a digit can be below 0 on the way.
abbrev pub prepend_ℤ : ℤ → Option (List ℤ) → Option (List ℤ)
prepend_ℤ a none = none
prepend_ℤ a (some xs) = some (a ∷ xs)

-- A digit is an int64_t, and a result that it does not hold is a fault.
abbrev pub holds_64 : ℤ → Bool
holds_64 a = ltb (pos_part a) (2 ^ 63) && leb (neg_part a) (2 ^ 63)

abbrev pub checked_ℤ : ℤ → Option (List ℤ) → Option (List ℤ)
checked_ℤ a rest = if holds_64 a then rest else none

-- The rounds of jinwei_fanxiang: `a` is *a, before the digits behind it; -*a, temp * 10 ^ 6 and the
-- next digit are checked.
unfoldable pub borrow : ℕ → ℤ → List ℤ → Option (List ℤ)
borrow zero a xs = some (a ∷ xs)
borrow (suc n) a [] = none
borrow (suc n) (pos a) (b ∷ xs) = prepend_ℤ (pos a) (borrow n b xs)
borrow (suc n) (negsuc a) (b ∷ xs) =
    let temp = a / base + 1 in
    checked_ℤ (pos (a + 1)) (
      checked_ℤ (pos (temp * base)) (
        checked_ℤ (b -ℤ pos temp)
          (prepend_ℤ (negsuc a +ℤ pos (temp * base)) (borrow n (b -ℤ pos temp) xs))))

unfoldable pub jinwei_fanxiang : List ℤ → ℕ → Option (List ℤ)
unfolding borrow
jinwei_fanxiang [] n = if leb n 1 then some [] else none
jinwei_fanxiang (a ∷ xs) n = borrow (n - 1) a xs

-- jinwei_fanxiang(result + offset, n)
unfoldable pub borrow_at : ℕ → ℕ → List ℤ → Option (List ℤ)
unfolding jinwei_fanxiang
borrow_at zero n result = jinwei_fanxiang result n
borrow_at (suc offset) n [] = none
borrow_at (suc offset) n (r ∷ result) = prepend_ℤ r (borrow_at offset n result)

-- The loop of jian that takes the digits of `xs` off, from result[offset] on.
unfoldable pub sub_at : ℕ → List ℕ → List ℤ → Option (List ℤ)
sub_at zero [] result = some result
sub_at zero (x ∷ xs) [] = none
sub_at zero (x ∷ xs) (r ∷ result) =
    checked_ℤ (r -ℤ pos x) (prepend_ℤ (r -ℤ pos x) (sub_at zero xs result))
sub_at (suc offset) xs [] = none
sub_at (suc offset) xs (r ∷ result) = prepend_ℤ r (sub_at offset xs result)

-- The digits of a result; `none` if one of them is still below 0.
unfoldable pub as_digits : List ℤ → Option (List ℕ)
as_digits [] = some []
as_digits (negsuc x ∷ xs) = none
as_digits (pos x ∷ xs) = prepend x (as_digits xs)

-- The loop from result_max down: all high zeros go.
abbrev pub strip_onto : ℕ → List ℕ → List ℕ
strip_onto zero [] = []
strip_onto (suc x) [] = suc x ∷ []
strip_onto x (y ∷ xs) = x ∷ y ∷ xs

unfoldable pub strip : List ℕ → List ℕ
strip [] = []
strip (x ∷ xs) = strip_onto x (strip xs)

abbrev pub is_empty : List ℕ → Bool
is_empty [] = true
is_empty (x ∷ xs) = false

abbrev pub difference_of : Num → ℤ → Option (List ℕ) → Outcome
difference_of result min none = fault
difference_of result min (some digits) = returned (record result {
  num = strip digits;
  float_segment = min;
  is_negative = if is_empty (strip digits) then false else result.is_negative;
})

unfoldable pub jian : Bool → Num → Num → Num → Outcome
unfolding copy_at sub_at borrow_at as_digits strip
jian has_memory a b result =
    let max = max_of a b in
    let min = min_of a b in
    let at_a = index_of a.float_segment min in
    let at_b = index_of b.float_segment min in
    if ltb_ℤ (pos num_width_max) (top a)
      || ltb_ℤ (pos num_width_max) (top b)
      || ltb len_max (size_of a b)
      || not has_memory
      || ltb (len_max / 8) (length a.num)
    then exit_1
    else difference_of result min (
        and_then (copy_at at_a a.num (replicate (size_of a b) 0)) λ copied.
          and_then (sub_at at_b b.num (map pos copied)) λ digits.
            and_then (borrow_at at_b (index_of (max +ℤ pos 1) b.float_segment) digits) as_digits)

-- fuhao: 0, 1, 2 and 3
pub data Operation : Type 0 where
  plus : Operation
  minus : Operation
  times : Operation
  divide : Operation

abbrev pub xor : Bool → Bool → Bool
xor true b = not b
xor false b = b

abbrev pub is_minus : Operation → Bool
is_minus minus = true
is_minus _ = false

-- Opposite signs: the smaller number is taken off the larger.
abbrev pub by_order : Bool → Num → Num → Bool → Num → Option ℤ → Outcome
by_order has_memory a b sign_b result none = fault
by_order has_memory a b sign_b result (some (pos zero)) =
    returned (record result { num = []; is_negative = false })
by_order has_memory a b sign_b result (some (pos (suc _))) =
    jian has_memory a b (record result { is_negative = a.is_negative })
by_order has_memory a b sign_b result (some (negsuc _)) =
    jian has_memory b a (record result { is_negative = sign_b })

unfoldable pub add_or_subtract : Bool → Operation → Num → Num → Num → Outcome
unfolding jia jian Num_compare_jueduizhi
add_or_subtract has_memory op a b result =
    let sign_b = xor (is_minus op) b.is_negative in
    let result' = record result { float_offset = 0 } in
    if xor a.is_negative sign_b
    then by_order has_memory a b sign_b result' (Num_compare_jueduizhi a b)
    else jia has_memory a b (record result' { is_negative = a.is_negative })

-- `chu` is the division.
unfoldable pub calc_baoliu :
    (Num → Num → Num → Outcome) → Bool → Operation → Num → Num → Num → Outcome
unfolding add_or_subtract cheng
calc_baoliu chu has_memory divide a b result = chu a b result
calc_baoliu chu has_memory times a b result = cheng has_memory a b result
calc_baoliu chu has_memory op a b result = add_or_subtract has_memory op a b result
