-- ===== src/Calc.antt =====
-- main.c: the calculator's numbers, base 10^6, and multiplication.
pub mod Digits
pub mod Carry
pub mod Batch
pub mod Rows
pub mod Multiply
pub mod Compare
pub mod Input
pub mod Sum
use myos_io.Base.{
  ℕ, zero, suc, ◌+◌, ◌-◌, ◌*◌, ◌/◌, ◌%◌, Bool, true, false, not, ◌&&◌, ◌||◌, Option, none, some,
  List, [], ◌∷◌, ◌++◌, ltb, leb, ◌==◌, if◌then◌else◌, length, take, drop, replicate, drop_last,
  get_or, word, ◌^◌,
}
use myos_io.Base.Int.{ltb_ℤ, negsuc, ◌-ℤ◌, ℤ, pos, ◌+ℤ◌}

-- 1e6, and WEI
abbrev pub base : ℕ
base = 100_0000

abbrev pub wei : ℕ
wei = 6

-- LEN_MAX and MALLOC_MAX
abbrev pub len_max : ℕ
len_max = 0xffff_ffff_ffff_ffff

-- `num` holds num[0 .. len), the lowest digit first. (The digits of these operations are not
-- negative.)
pub record Num : Type 0 where
  pub num : List ℕ
  pub is_negative : Bool
  pub float_segment : ℤ
  pub float_offset : ℕ

-- NUM_WIDTH_MAX
abbrev pub num_width_max : ℕ
num_width_max = 0x7fff_ffff_ffff_ffff

-- A loop that leaves its array, or overflows a digit's int64_t, is `none`.
abbrev pub prepend : ℕ → Option (List ℕ) → Option (List ℕ)
prepend a none = none
prepend a (some xs) = some (a ∷ xs)

abbrev pub checked : ℕ → Option (List ℕ) → Option (List ℕ)
checked digit xs = if ltb num_width_max digit then none else xs

-- The rounds of jinwei_zhengxiang: `a` is *a, before the digits behind it.
unfoldable pub carry : ℕ → ℕ → List ℕ → Option (List ℕ)
carry zero a xs = some (a ∷ xs)
carry (suc n) a [] = none
carry (suc n) a (b ∷ xs) = checked (b + a / base) (prepend (a % base) (carry n (b + a / base) xs))

unfoldable pub jinwei_zhengxiang : List ℕ → ℕ → Option (List ℕ)
unfolding carry
jinwei_zhengxiang [] n = if leb n 1 then some [] else none
jinwei_zhengxiang (a ∷ xs) n = carry (n - 1) a xs

-- The inner loop of cheng: c times each digit of `xs` is added to the digits of `result`.
unfoldable pub add_row : List ℕ → ℕ → List ℕ → Option (List ℕ)
add_row [] c result = some result
add_row (a ∷ xs) c [] = none
add_row (a ∷ xs) c (r ∷ result) = checked (r + a * c) (prepend (r + a * c) (add_row xs c result))

-- The same, with temp_result `offset` digits behind the start of `result`.
unfoldable pub add_row_at : ℕ → List ℕ → ℕ → List ℕ → Option (List ℕ)
unfolding add_row
add_row_at zero xs c result = add_row xs c result
add_row_at (suc offset) xs c [] = none
add_row_at (suc offset) xs c (r ∷ result) = prepend r (add_row_at offset xs c result)

-- The state of cheng's outer loop: the digits before mark_result, those from it on, the distance
-- temp_result - mark_result, and jishu.
pub record Product : Type 0 where
  pub before : List ℕ
  pub mark_result : List ℕ
  pub offset : ℕ
  pub jishu : ℕ

-- The end of a batch of 1e6 rows: mark_result moves to temp_result.
abbrev pub next_batch : Product → Option (List ℕ) → Option Product
next_batch p none = none
next_batch p (some carried) = some (record {
  before = p.before ++ take (p.offset + 1) carried;
  mark_result = drop (p.offset + 1) carried;
  offset = 0;
  jishu = base - 1;
})

abbrev pub after_row : List ℕ → Product → Option (List ℕ) → Option Product
after_row xs p none = none
after_row xs p (some result) =
    if p.jishu == 0
    then next_batch p (jinwei_zhengxiang result (length xs + base))
    else some (record p { mark_result = result; offset = p.offset + 1; jishu = p.jishu - 1 })

abbrev pub finish : List ℕ → Option (List ℕ) → Option (List ℕ)
finish before none = none
finish before (some result) = some (before ++ result)

abbrev pub and_then {ℓ κ} : {A : Type ℓ} {B : Type κ} → Option A → (A → Option B) → Option B
and_then none f = none
and_then (some a) f = f a

-- The outer loop over the digits of the multiplier, and the carry after it.
unfoldable pub rows_loop : List ℕ → List ℕ → Product → Option (List ℕ)
unfolding add_row_at jinwei_zhengxiang
rows_loop xs [] p =
    finish p.before (jinwei_zhengxiang p.mark_result (length xs + base - 1 - p.jishu))
rows_loop xs (c ∷ cs) p =
    and_then (after_row xs p (add_row_at p.offset xs c p.mark_result)) (rows_loop xs cs)

-- The product returns, ends the program with exit(1), or leaves an array or overflows.
pub data Outcome : Type 0 where
  returned : Num → Outcome
  exit_1 : Outcome
  fault : Outcome

-- `len` at the end: the highest digit goes if it is 0.
abbrev pub trim : List ℕ → List ℕ
trim result = if get_or result (length result - 1) 0 == 0 then drop_last result else result

-- float_segment is an int64_t; a sum that it does not hold wraps around.
unfoldable pub wrap64 : ℤ → ℤ
wrap64 a =
    if ltb_ℤ a (pos (2 ^ 63))
    then (if ltb_ℤ a (negsuc (2 ^ 63 - 1)) then a +ℤ pos word else a)
    else a -ℤ pos word

-- float_offset is a uint8_t.
abbrev pub product_of : Num → Num → Option (List ℕ) → Outcome
product_of a b none = fault
product_of a b (some result) =
    let offset = (a.float_offset + b.float_offset) % 256 in
    let segment = wrap64 (a.float_segment +ℤ b.float_segment) in
    returned (record {
      num = trim result;
      is_negative = if a.is_negative then not b.is_negative else b.is_negative;
      float_segment = if leb wei offset then wrap64 (segment +ℤ pos 1) else segment;
      float_offset = if leb wei offset then offset - wei else offset;
    })

-- `has_memory`: calloc returns no null pointer.
unfoldable pub cheng : Bool → Num → Num → Num → Outcome
unfolding rows_loop
cheng has_memory a b result =
    let len_result = length a.num + length b.num in
    if length a.num == 0 || length b.num == 0
    then returned (record result { num = []; is_negative = false })
    else if ltb len_max len_result
        || ltb (len_max / 8) len_result
        || not has_memory
        || ltb len_max (length a.num + base)
    then exit_1
    else product_of a b (
        rows_loop a.num b.num (record {
          before = [];
          mark_result = replicate len_result 0;
          offset = 0;
          jishu = base - 1;
        }))
