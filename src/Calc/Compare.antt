-- ===== src/Calc/Compare.antt =====
-- Comparison in main.c: numcmp and Num_compare_jueduizhi.
use myos_io.Base.{
  ℕ, zero, suc, ◌+◌, ◌-◌, ◌%◌, ◌<◌, ◌≤◌, ◌≡◌, refl, ap, ◌∙◌, inl, inr, Option, none, some, List, [],
  ◌∷◌, arith, ltb, leb, ◌==◌, if◌then◌else◌, Bool-cases, length, take, get_elem?, take-length, word,
  add64, true, false,
}
use myos_io.Base.Int.{pos_part, neg_part, ℤ, pos, negsuc, sub_ℕ}
use myos_io.Calc.{Num}
use myos_io.Calc.Digits.{
  shift_pos, value, shift, shift_add, shift_mono, shift-shift, AllDigits, value_bound, Trimmed,
  Trimmed-bound,
}

-- What numcmp does with the digits at one index: `below` is the rest of the loop.
abbrev pub difference : Option ℕ → Option ℕ → Option ℤ → Option ℤ
difference none y below = none
difference (some x) none below = none
difference (some x) (some y) below = if x == y then below else some (sub_ℕ x y)

-- The loop of numcmp from index i down; at index 0 it returns the difference in any case. A read
-- outside an array is `none`.
unfoldable pub compare_from : List ℕ → List ℕ → ℕ → Option ℤ
compare_from a b zero = difference (get_elem? a 0) (get_elem? b 0) (some (pos 0))
compare_from a b (suc i) =
    difference (get_elem? a (suc i)) (get_elem? b (suc i)) (compare_from a b i)

unfoldable pub numcmp : List ℕ → List ℕ → ℕ → Option ℤ
unfolding compare_from
numcmp a b zero = some (pos 0)
numcmp a b (suc n) = compare_from a b n

-- float_segment + len: the sum is a uint64_t.
abbrev pub as_word : ℤ → ℕ
as_word (pos s) = s % word
as_word (negsuc s) = word - 1 - s % word

unfoldable pub top_of : Num → ℕ
top_of a = add64 (as_word a.float_segment) (length a.num)

abbrev pub sign_of : Option ℤ → Option ℤ
sign_of none = none
sign_of (some (pos zero)) = some (pos 0)
sign_of (some (pos (suc d))) = some (pos 1)
sign_of (some (negsuc d)) = some (negsuc 0)

unfoldable pub Num_compare_jueduizhi : Num → Num → Option ℤ
unfolding top_of numcmp
Num_compare_jueduizhi a b =
    if ltb (top_of b) (top_of a)
    then some (pos 1)
    else if ltb (top_of a) (top_of b)
    then some (negsuc 0)
    else if ltb (length b.num) (length a.num)
    then some (pos 1)
    else if ltb (length a.num) (length b.num)
    then some (negsuc 0)
    else sign_of (numcmp a.num b.num (length a.num))

-- The result has the sign of the difference of two numbers.
abbrev pub Compares : ℕ → ℕ → Option ℤ → Type 0
Compares u v none = ⊥
Compares u v (some (pos zero)) = u ≡ v
Compares u v (some (pos (suc d))) = v < u
Compares u v (some (negsuc d)) = u < v

value-take-suc :
    (xs : List ℕ) (i x : ℕ)
    → get_elem? xs i ≡ some x
    → value (take (suc i) xs) ≡ value (take i xs) + shift i x
unfolding shift
value-take-suc [] i x h = ground (arith, h)
value-take-suc (y ∷ xs) zero x h = ground (arith, h)
value-take-suc (y ∷ xs) (suc i) x h = omega (arith, value-take-suc xs i x h)

get_elem?-lt : (xs : List ℕ) (i : ℕ) → i < length xs → (x : ℕ) × (get_elem? xs i ≡ some x)
get_elem?-lt [] i h = absurd (omega arith)
get_elem?-lt (x ∷ xs) zero h = (x, refl)
get_elem?-lt (x ∷ xs) (suc i) h = get_elem?-lt xs i (omega arith)

-- A higher digit decides.
shift_lt : (i u v x y : ℕ) → u + 1 ≤ shift i 1 → x < y → u + shift i x < v + shift i y
shift_lt i u v x y h k = omega (arith, shift_mono i (x + 1) y (omega arith), shift_add i x 1)

Compares-shift : (u v w : ℕ) (o : Option ℤ) → Compares u v o → Compares (u + w) (v + w) o
Compares-shift u v w none c = c
Compares-shift u v w (some (pos zero)) c = omega arith
Compares-shift u v w (some (pos (suc d))) c = omega arith
Compares-shift u v w (some (negsuc d)) c = omega arith

difference-Compares :
    (i u v x y : ℕ) (below : Option ℤ)
    → u + 1 ≤ shift i 1
    → v + 1 ≤ shift i 1
    → Compares u v below
    → Compares (u + shift i x) (v + shift i y) (difference (some x) (some y) below)
difference-Compares i u v x y below h k c = elim (Bool-cases (x == y)) [
  | inl same ↦
      let e : x ≡ y = ground (arith, same) in rw (same, e) (Compares-shift u v (shift i y) below c)
  | inr differ ↦ elim (Bool-cases (leb y x)) [
    | inl more ↦
        let e : x - y ≡ suc (x - y - 1) = ground (arith, differ, more) in
        rw (differ, more, e) (shift_lt i v u y x k (ground (arith, differ, more)))
    | inr less ↦ rw (differ, less) (shift_lt i u v x y h (ground (arith, less)))
  ]
]

take_bound :
    (xs : List ℕ) (i : ℕ) → AllDigits xs → i ≤ length xs → value (take i xs) + 1 ≤ shift i 1
unfolding shift
take_bound xs zero d h = omega arith
take_bound [] (suc i) d h = absurd (omega arith)
take_bound (x ∷ xs) (suc i) d h = omega (arith, d.0, take_bound xs i d.1 (omega arith))

module _ (a b : List ℕ) (digits_a : AllDigits a) (digits_b : AllDigits b) where
  one_digit :
      (i : ℕ) (below : Option ℤ)
      → i < length a
      → i < length b
      → Compares (value (take i a)) (value (take i b)) below
      → Compares
          (value (take (suc i) a))
          (value (take (suc i) b))
          (difference (get_elem? a i) (get_elem? b i) below)
  one_digit i below h k c =
      let (x, at_a) = get_elem?-lt a i h in
      let (y, at_b) = get_elem?-lt b i k in
      rw (value-take-suc a i x at_a, value-take-suc b i y at_b, at_a, at_b)
        (difference-Compares i (value (take i a)) (value (take i b)) x y below
          (take_bound a i digits_a (omega arith)) (take_bound b i digits_b (omega arith)) c)

  compare_from-Compares :
      (i : ℕ)
      → i < length a
      → i < length b
      → Compares (value (take (suc i) a)) (value (take (suc i) b)) (compare_from a b i)
  unfolding compare_from
  compare_from-Compares zero h k = one_digit 0 (some (pos 0)) h k refl
  compare_from-Compares (suc i) h k =
      one_digit (suc i) (compare_from a b i) h k
        (compare_from-Compares i (omega arith) (omega arith))

-- On the lowest n digits of two numbers that have as many, numcmp stays inside the arrays, and its
-- result has the sign of the difference of what these digits stand for.
pub numcmp-Compares :
    (a b : List ℕ) (n : ℕ)
    → AllDigits a
    → AllDigits b
    → n ≤ length a
    → n ≤ length b
    → Compares (value (take n a)) (value (take n b)) (numcmp a b n)
unfolding numcmp
numcmp-Compares a b zero d e h k = refl
numcmp-Compares a b (suc n) d e h k = compare_from-Compares a b d e n (omega arith) (omega arith)

Compares-sign_of : (u v : ℕ) (o : Option ℤ) → Compares u v o → Compares u v (sign_of o)
Compares-sign_of u v none c = c
Compares-sign_of u v (some (pos zero)) c = c
Compares-sign_of u v (some (pos (suc d))) c = c
Compares-sign_of u v (some (negsuc d)) c = c

-- A number with more digits is larger.
longer : (a b : List ℕ) → AllDigits b → Trimmed a → length b < length a → value b < value a
unfolding shift
longer a b d t h =
    let k = length a - suc (length b) in
    let e : length a ≡ suc (length b) + k = omega arith in
    let pow : shift (length a) 1 ≡ shift (suc (length b)) (shift k 1) =
      ap (λ n. shift n 1) e ∙ shift-shift (suc (length b)) k 1 in
    omega (
      arith,
      pow,
      Trimmed-bound a (omega arith) t,
      value_bound b d,
      shift_mono (suc (length b)) 1 (shift k 1) (shift_pos k),
    )

as_word_sum :
    (s : ℤ) (len : ℕ)
    → neg_part s ≤ len
    → pos_part s + len < word
    → add64 (as_word s) len ≡ pos_part s + len - neg_part s
unfolding add64
as_word_sum (pos s) len h k = omega arith
as_word_sum (negsuc s) len h k = omega arith

-- For two numbers without leading zeros, with the same float_segment, which both reach the point
-- (float_segment + len is not negative) and are below 2 ^ 64 digits: Num_compare_jueduizhi stays inside the arrays and returns a positive
-- number, 0 or a negative number as the first is larger, equal or smaller.
pub Num_compare_jueduizhi-Compares :
    (a b : Num)
    → AllDigits a.num
    → AllDigits b.num
    → Trimmed a.num
    → Trimmed b.num
    → a.float_segment ≡ b.float_segment
    → neg_part b.float_segment ≤ length a.num
    → neg_part b.float_segment ≤ length b.num
    → pos_part b.float_segment + length a.num < word
    → pos_part b.float_segment + length b.num < word
    → Compares (value a.num) (value b.num) (Num_compare_jueduizhi a b)
unfolding Num_compare_jueduizhi top_of
Num_compare_jueduizhi-Compares a b da db ta tb same qa qb fa fb =
    let la = length a.num in
    let lb = length b.num in
    let p = pos_part b.float_segment in
    let q = neg_part b.float_segment in
    let ea : top_of a ≡ p + la - q = rw same (as_word_sum b.float_segment la qa fa) in
    let eb : top_of b ≡ p + lb - q = as_word_sum b.float_segment lb qb fb in
    elim (Bool-cases (ltb lb la)) [
      | inl more ↦
          let t : ltb (p + lb - q) (p + la - q) ≡ true = ground (arith, more) in
          rw (ea, eb, t) (longer a.num b.num db ta (ground (arith, more)))
      | inr no_more ↦ elim (Bool-cases (ltb la lb)) [
        | inl less ↦
            let t : ltb (p + lb - q) (p + la - q) ≡ false = ground (arith, less) in
            let t' : ltb (p + la - q) (p + lb - q) ≡ true = ground (arith, less) in
            rw (ea, eb, t, t') (longer b.num a.num da tb (ground (arith, less)))
        | inr no_less ↦
            let len : la ≡ lb = ground (arith, no_more, no_less) in
            let t : ltb (p + lb - q) (p + la - q) ≡ false = ground (arith, no_more) in
            let t' : ltb (p + la - q) (p + lb - q) ≡ false = ground (arith, no_less) in
            let digits = numcmp-Compares a.num b.num la da db (omega arith) (omega arith) in
            let whole_a : take la a.num ≡ a.num = take-length a.num in
            let whole_b : take la b.num ≡ b.num = ap (λ n. take n b.num) len ∙ take-length b.num in
            rw (ea, eb, t, t', no_more, no_less)
              (Compares-sign_of (value a.num) (value b.num) (numcmp a.num b.num la)
                (rw (whole_a, whole_b) at digits))
      ]
    ]
