-- ===== src/Tests/CalcTests.antt =====
-- Multiplication of the calculator: main.c.
use myos_io.Base.{
  ℕ, List, ◌↔◌, take, some, add64, drop_last, ◌≡◌, refl, false, true, [], ◌∷◌, arith,
}
use myos_io.Base.Int.{pos, negsuc, ◌+ℤ◌}
use myos_io.Calc.{wrap64, Num, returned, cheng}
use myos_io.Calc.Digits.{value}
use myos_io.Calc.Compare.{
  numcmp, Num_compare_jueduizhi, Compares, numcmp-Compares, Num_compare_jueduizhi-Compares,
}
use myos_io.Calc.Input.{check, points_loop}
use myos_io.Calc.Input.Numeral.{IsNumeral, check-IsNumeral}
use myos_io.Calc.Multiply.{Multiplied, cheng-Multiplied, ReturnsTrimmed, cheng-Trimmed}

-- 1234567.5 as 1 234567 500000, and -0.25
abbrev seconds : Num
seconds = record {
  num = 50_0000 ∷ 23_4567 ∷ 1 ∷ [];
  is_negative = false;
  float_segment = negsuc 0;
  float_offset = 0;
}

abbrev quarter : Num
quarter = record {
  num = 25_0000 ∷ [];
  is_negative = true;
  float_segment = negsuc 0;
  float_offset = 0;
}

product :
    cheng true seconds quarter quarter
    ≡ returned (record {
      num = 0 ∷ 87_5000 ∷ 30_8641 ∷ [];
      is_negative = true;
      float_segment = negsuc 1;
      float_offset = 0;
    })
unfolding cheng drop_last ◌+ℤ◌ wrap64
product = refl

cheng-Multiplied_example : Multiplied seconds quarter (cheng true seconds quarter quarter)
unfolding ◌+ℤ◌
cheng-Multiplied_example =
    cheng-Multiplied seconds quarter quarter (omega arith) (omega arith) (omega arith) (record {
      offset_a = omega arith;
      offset_b = omega arith;
      segment = omega arith;
      carried = omega arith;
    })

cheng-Trimmed_example : ReturnsTrimmed (cheng true seconds quarter quarter)
cheng-Trimmed_example =
    cheng-Trimmed seconds quarter quarter (omega arith) (omega arith) (omega arith) (omega arith)
      (omega arith)

numcmp-Compares_example :
    Compares
      (value (take 2 seconds.num))
      (value (take 2 (7 ∷ 23_4567 ∷ [])))
      (numcmp seconds.num (7 ∷ 23_4567 ∷ []) 2)
numcmp-Compares_example =
    numcmp-Compares seconds.num (7 ∷ 23_4567 ∷ []) 2 (omega arith) (omega arith) (omega arith)
      (omega arith)

Num_compare_jueduizhi-Compares_example :
    Compares (value seconds.num) (value quarter.num) (Num_compare_jueduizhi seconds quarter)
Num_compare_jueduizhi-Compares_example =
    Num_compare_jueduizhi-Compares seconds quarter (omega arith) (omega arith) (omega arith)
      (omega arith) refl (omega arith) (omega arith) (omega arith) (omega arith)

-- 1.5 and 2
abbrev one_and_half : Num
one_and_half = record {
  num = 50_0000 ∷ 1 ∷ [];
  is_negative = false;
  float_segment = negsuc 0;
  float_offset = 0;
}

abbrev two : Num
two = record { num = 2 ∷ []; is_negative = false; float_segment = pos 0; float_offset = 0 }

-- With the same highest place, the number with more digits behind the point counts as larger.
wrong_order : Num_compare_jueduizhi one_and_half two ≡ some (pos 1)
unfolding Num_compare_jueduizhi add64
wrong_order = refl

-- 10 ^ -18 and 1
abbrev tiny : Num
tiny = record { num = 1 ∷ []; is_negative = false; float_segment = negsuc 2; float_offset = 0 }

abbrev one : Num
one = record { num = 1 ∷ []; is_negative = false; float_segment = pos 0; float_offset = 0 }

-- A number that ends below the point counts as larger than all that reach it.
wrong_order_below : Num_compare_jueduizhi tiny one ≡ some (pos 1)
unfolding Num_compare_jueduizhi add64
wrong_order_below = refl

-- "3.14", "3..1" and "3."
abbrev decimal : List ℕ
decimal = 51 ∷ 46 ∷ 49 ∷ 52 ∷ []

check_runs :
    (check decimal ≡ true)
    × (check (51 ∷ 46 ∷ 46 ∷ 49 ∷ []) ≡ false)
    × (check (51 ∷ 46 ∷ []) ≡ false)
unfolding check points_loop
check_runs = (refl, refl, refl)

check-IsNumeral_example : (check decimal ≡ true) ↔ IsNumeral decimal
check-IsNumeral_example = check-IsNumeral decimal
