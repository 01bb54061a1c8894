-- ===== src/Calc/Sum/Signed.antt =====
-- calc_baoliu of main.c: addition and subtraction of signed numbers.
use myos_io.Base.{ℕ, ◌/◌, ◌≤◌, ◌≡◌, ◌⊎◌, Bool, true, false, length, if◌then◌else◌}
use myos_io.Base.Int.{ℤ, pos, neg_part, ◌+ℤ◌, ◌-ℤ◌, ◌≤ℤ◌}
use myos_io.Calc.{len_max, num_width_max, Num, Outcome, returned, exit_1, fault}
use myos_io.Calc.Digits.{value, AllDigits, Trimmed}
use myos_io.Calc.Sum.{top, index_of, Operation, plus, minus, is_minus, xor}

-- The number that the digits and the sign stand for, in units of the lowest place.
abbrev pub signed_of : Bool → ℕ → ℤ
signed_of true v = pos 0 -ℤ pos v
signed_of false v = pos v

abbrev pub signed : Num → ℤ
signed a = signed_of a.is_negative (value a.num)

-- Two numbers whose sum calc_baoliu forms at one float_segment.
pub record Addends (a b : Num) : Type 0 where
  pub digits_a : AllDigits a.num
  pub digits_b : AllDigits b.num
  pub trimmed_a : Trimmed a.num
  pub trimmed_b : Trimmed b.num
  pub same : a.float_segment ≡ b.float_segment
  pub point_a : neg_part b.float_segment ≤ length a.num
  pub point_b : neg_part b.float_segment ≤ length b.num
  pub top_a : top a ≤ℤ pos num_width_max
  pub top_b : top b ≤ℤ pos num_width_max
  pub length_a : length a.num ≤ len_max / 8
  pub length_b : length b.num ≤ len_max / 8
  pub offset_a : a.float_offset ≡ 0
  pub offset_b : b.float_offset ≡ 0

-- The array starts at the common float_segment.
record One (s t m : ℤ) : Type 0 where
  index_s : index_of s m ≡ 0
  index_t : index_of t m ≡ 0
  min : m ≡ t

-- What a result must be: the signed number, in digits, at the common place unless it is 0, and
-- without an offset.
abbrev pub Evaluates : ℤ → ℤ → Outcome → Type 0
Evaluates total segment (returned r) =
    (signed r ≡ total)
    × AllDigits r.num
    × ((value r.num ≡ 0) ⊎ (r.float_segment ≡ segment))
    × (r.float_offset ≡ 0)
Evaluates total segment exit_1 = ⊥
Evaluates total segment fault = ⊥

-- Addition or subtraction, by the signs of the two numbers.
abbrev pub total_of : Operation → Num → Num → ℤ
total_of op a b = if is_minus op then signed a -ℤ signed b else signed a +ℤ signed b

-- The sign that the second number has in the sum.
abbrev sign_in : Operation → Num → Bool
sign_in op b = xor (is_minus op) b.is_negative

abbrev pub sum_or_difference : Bool → Operation
sum_or_difference true = minus
sum_or_difference false = plus
