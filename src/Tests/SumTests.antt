-- ===== src/Tests/SumTests.antt =====
-- Addition and subtraction of the calculator: main.c.
use myos_io.Base.{◌≡◌, refl, false, true, [], ◌∷◌, arith, drop_last, add64}
use myos_io.Base.Int.{pos, negsuc, ◌+ℤ◌, ◌-ℤ◌}
use myos_io.Calc.{Num, returned, exit_1}
use myos_io.Calc.Digits.{shift}
use myos_io.Calc.Sum.{jia, jian, plus, calc_baoliu}
use myos_io.Calc.Sum.Add.{Adds, jia-Adds}
use myos_io.Calc.Sum.Subtract.{Subtracts, jian-Subtracts}

-- 1234567.5, 2 and -0.25
abbrev seconds : Num
seconds = record {
  num = 50_0000 ∷ 23_4567 ∷ 1 ∷ [];
  is_negative = false;
  float_segment = negsuc 0;
  float_offset = 0;
}

abbrev two : Num
two = record { num = 2 ∷ []; is_negative = false; float_segment = pos 0; float_offset = 0 }

abbrev quarter : Num
quarter = record {
  num = 25_0000 ∷ [];
  is_negative = true;
  float_segment = negsuc 0;
  float_offset = 0;
}

sum :
    jia true seconds two two
    ≡ returned (record {
      num = 50_0000 ∷ 23_4569 ∷ 1 ∷ [];
      is_negative = false;
      float_segment = negsuc 0;
      float_offset = 0;
    })
unfolding jia drop_last ◌+ℤ◌ ◌-ℤ◌
sum = refl

-- 2 - 0.25, by the signs
mixed :
    calc_baoliu
      (λ a b r. exit_1)
      true
      plus
      (record two { num = 0 ∷ 2 ∷ []; float_segment = negsuc 0 })
      quarter
      two
    ≡ returned (record {
      num = 75_0000 ∷ 1 ∷ [];
      is_negative = false;
      float_segment = negsuc 0;
      float_offset = 0;
    })
unfolding calc_baoliu drop_last add64 ◌+ℤ◌ ◌-ℤ◌
mixed = refl

jia-Adds_example : Adds seconds two two (jia true seconds two two)
unfolding ◌+ℤ◌ ◌-ℤ◌
jia-Adds_example =
    jia-Adds seconds two two (omega arith) (omega arith) (omega arith) (omega arith) (omega arith)

jian-Subtracts_example : Subtracts seconds two two (jian true seconds two two)
unfolding shift ◌+ℤ◌ ◌-ℤ◌
jian-Subtracts_example =
    jian-Subtracts seconds two two (omega arith) (omega arith) (omega arith) (omega arith)
      (omega arith) (omega arith) (omega arith)
