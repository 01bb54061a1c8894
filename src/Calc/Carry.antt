-- ===== src/Calc/Carry.antt =====
-- The carries of main.c (jinwei_zhengxiang) and the rows of cheng keep the number they work on.
use myos_io.Base.{
  ℕ, zero, suc, ◌+◌, ◌-◌, ◌*◌, ◌/◌, ◌%◌, ◌≤◌, ◌<◌, ◌≡◌, refl, Option, none, some, List, [], ◌∷◌,
  arith, length, take, ltb, false, drop, replicate,
}
use myos_io.Calc.{
  num_width_max, checked, base, prepend, carry, jinwei_zhengxiang, add_row, add_row_at, and_then,
}
use myos_io.Calc.Digits.{value, shift, mul_le, AllDigits}

-- The result is there, and has the property.
abbrev pub Returns : {A : Type 0} → (A → Type 0) → Option A → Type 0
Returns P none = ⊥
Returns P (some a) = P a

pub Returns-prepend :
    (P Q : List ℕ → Type 0) (a : ℕ) (o : Option (List ℕ))
    → Returns P o
    → ((r : List ℕ) → P r → Q (a ∷ r))
    → Returns Q (prepend a o)
Returns-prepend P Q a none h k = h
Returns-prepend P Q a (some r) h k = k r h

pub Returns-and_then :
    {A B : Type 0} (P : A → Type 0) (Q : B → Type 0) (o : Option A) (f : A → Option B)
    → Returns P o
    → ((a : A) → P a → Returns Q (f a))
    → Returns Q (and_then o f)
Returns-and_then P Q none f h k = absurd h
Returns-and_then P Q (some a) f h k = k a h

pub Returns-mono :
    {A : Type 0} (P Q : A → Type 0) (o : Option A)
    → Returns P o
    → ((a : A) → P a → Q a)
    → Returns Q o
Returns-mono P Q none h k = h
Returns-mono P Q (some a) h k = k a h

pub Returns-checked :
    (P : List ℕ → Type 0) (digit : ℕ) (o : Option (List ℕ))
    → digit ≤ num_width_max
    → Returns P o
    → Returns P (checked digit o)
Returns-checked P digit o h k =
    let small : ltb num_width_max digit ≡ false = ground arith in rw small k

-- The first k entries are at most m, the others 0.
abbrev pub AtMost : ℕ → ℕ → List ℕ → Type 0
AtMost m k [] = Unit
AtMost m zero (x ∷ xs) = (x ≡ 0) × AtMost m zero xs
AtMost m (suc k) (x ∷ xs) = (x ≤ m) × AtMost m k xs

pub AtMost-mono : (m m' k k' : ℕ) (xs : List ℕ) → m ≤ m' → k ≤ k' → AtMost m k xs → AtMost m' k' xs
AtMost-mono m m' k k' [] h e a = tt
AtMost-mono m m' zero zero (x ∷ xs) h e a = (a.0, AtMost-mono m m' zero zero xs h e a.1)
AtMost-mono m m' zero (suc k') (x ∷ xs) h e a =
    (omega (arith, a.0), AtMost-mono m m' zero k' xs h (omega arith) a.1)
AtMost-mono m m' (suc k) zero (x ∷ xs) h e a = absurd (omega arith)
AtMost-mono m m' (suc k) (suc k') (x ∷ xs) h e a =
    (omega (arith, a.0), AtMost-mono m m' k k' xs h (omega arith) a.1)

pub AtMost-drop : (m k n : ℕ) (xs : List ℕ) → AtMost m (n + k) xs → AtMost m k (drop n xs)
AtMost-drop m k zero xs a = let e : zero + k ≡ k = omega arith in rw e at a
AtMost-drop m k (suc n) [] a = tt
AtMost-drop m k (suc n) (x ∷ xs) a =
    let e : suc n + k ≡ suc (n + k) = omega arith in AtMost-drop m k n xs (rw e at a).1

pub AtMost-replicate : (m k n : ℕ) → AtMost m k (replicate n 0)
AtMost-replicate m k zero = tt
AtMost-replicate m zero (suc n) = (refl, AtMost-replicate m zero n)
AtMost-replicate m (suc k) (suc n) = (omega arith, AtMost-replicate m k n)

-- What an entry can be at the start of a batch of rows, what a row adds to it, and what an entry
-- is before a carry.
abbrev pub start_max : ℕ
start_max = 2 * base * base

abbrev pub row_max : ℕ
row_max = (base - 1) * (base - 1)

abbrev pub batch_max : ℕ
batch_max = start_max + base * row_max

-- `r` is `xs` after n rounds of carrying: the same number, with n digits below the base.
pub record Carried (n : ℕ) (xs r : List ℕ) : Type 0 where
  pub value-eq : value r ≡ value xs
  pub length-eq : length r ≡ length xs
  pub digits : AllDigits (take n r)

pub carry-Carried :
    (n a : ℕ) (xs : List ℕ)
    → n ≤ length xs
    → a ≤ batch_max + start_max
    → AtMost batch_max n xs
    → Returns (Carried n (a ∷ xs)) (carry n a xs)
unfolding carry
carry-Carried zero a xs h m k = record { value-eq = refl; length-eq = refl; digits = tt }
carry-Carried (suc n) a [] h m k = absurd (omega arith)
carry-Carried (suc n) a (b ∷ xs) h m k =
    let a' = b + a / base in
    Returns-checked (Carried (suc n) (a ∷ b ∷ xs)) a' (prepend (a % base) (carry n a' xs))
      (omega (arith, k.0))
      (Returns-prepend (Carried n (a' ∷ xs)) (Carried (suc n) (a ∷ b ∷ xs)) (a % base)
        (carry n a' xs) (carry-Carried n a' xs (omega arith) (omega (arith, k.0)) k.1)
        λ r c. record {
          value-eq = omega (arith, c.value-eq);
          length-eq = omega (arith, c.length-eq);
          digits = (omega arith, c.digits);
        })

pub jinwei_zhengxiang-Carried :
    (xs : List ℕ) (n : ℕ)
    → 1 ≤ n
    → n ≤ length xs
    → AtMost batch_max n xs
    → Returns (Carried (n - 1) xs) (jinwei_zhengxiang xs n)
unfolding jinwei_zhengxiang
jinwei_zhengxiang-Carried [] n h k m = absurd (omega arith)
jinwei_zhengxiang-Carried (a ∷ xs) zero h k m = absurd (omega arith)
jinwei_zhengxiang-Carried (a ∷ xs) (suc n) h k m =
    let e : suc n - 1 ≡ n = omega arith in
    rw e (carry-Carried n a xs (omega arith) (omega (arith, m.0)) m.1)

-- `r` is `xs` with `more` added, in as many digits.
pub record Added (more : ℕ) (xs r : List ℕ) : Type 0 where
  pub value-eq : value r ≡ value xs + more
  pub length-eq : length r ≡ length xs

module _ (m : ℕ) (small : m ≤ batch_max) where
  pub add_row-Added :
      (xs : List ℕ) (c k : ℕ) (result : List ℕ)
      → AllDigits xs
      → c < base
      → length xs ≤ length result
      → length xs ≤ k
      → AtMost m k result
      → Returns
          (λ r. Added (c * value xs) result r × AtMost (m + row_max) k r)
          (add_row xs c result)
  unfolding add_row
  add_row-Added [] c k result d e h l a = (
    record { value-eq = omega arith; length-eq = refl },
    AtMost-mono m (m + row_max) k k result (omega arith) (omega arith) a,
  )
  add_row-Added (x ∷ xs) c k [] d e h l a = absurd (omega arith)
  add_row-Added (x ∷ xs) c zero (r ∷ result) d e h l a = absurd (omega arith)
  add_row-Added (x ∷ xs) c (suc k) (r ∷ result) d e h l a =
      let digit = r + x * c in
      let most : x * c ≤ row_max =
        mul_le x c (base - 1) (base - 1) (omega (arith, d.0)) (omega arith) in
      let P : List ℕ → Type 0 = λ r'. Added (c * value xs) result r' × AtMost (m + row_max) k r' in
      let Q : List ℕ → Type 0 =
        λ r'. Added (c * value (x ∷ xs)) (r ∷ result) r' × AtMost (m + row_max) (suc k) r' in
      Returns-checked Q digit (prepend digit (add_row xs c result))
        (omega (arith, most, a.0, small))
        (Returns-prepend P Q digit (add_row xs c result)
          (add_row-Added xs c k result d.1 e (omega arith) (omega arith) a.1)
          λ r' p. (
            record {
              value-eq = omega (arith, p.0.value-eq);
              length-eq = omega (arith, p.0.length-eq);
            },
            (omega (arith, most, a.0), p.1),
          ))

  pub add_row_at-Added :
      (offset : ℕ) (xs : List ℕ) (c k : ℕ) (result : List ℕ)
      → AllDigits xs
      → c < base
      → offset + length xs ≤ length result
      → offset + length xs ≤ k
      → AtMost m k result
      → Returns
          (λ r. Added (shift offset (c * value xs)) result r × AtMost (m + row_max) k r)
          (add_row_at offset xs c result)
  unfolding add_row_at shift
  add_row_at-Added zero xs c k result d e h l a =
      add_row-Added xs c k result d e (omega arith) (omega arith) a
  add_row_at-Added (suc offset) xs c k [] d e h l a = absurd (omega arith)
  add_row_at-Added (suc offset) xs c zero (r ∷ result) d e h l a = absurd (omega arith)
  add_row_at-Added (suc offset) xs c (suc k) (r ∷ result) d e h l a =
      Returns-prepend
        (λ r'. Added (shift offset (c * value xs)) result r' × AtMost (m + row_max) k r')
        (λ r'.
          Added (shift (suc offset) (c * value xs)) (r ∷ result) r'
          × AtMost (m + row_max) (suc k) r')
        r (add_row_at offset xs c result)
        (add_row_at-Added offset xs c k result d e (omega arith) (omega arith) a.1)
        λ r' p. (
          record {
            value-eq = omega (arith, p.0.value-eq);
            length-eq = omega (arith, p.0.length-eq);
          },
          (omega (arith, a.0), p.1),
        )

AtMost-zero : (m m' : ℕ) (xs : List ℕ) → AtMost m 0 xs → AtMost m' 0 xs
AtMost-zero m m' [] a = tt
AtMost-zero m m' (x ∷ xs) a = (a.0, AtMost-zero m m' xs a.1)

-- A carry through all entries and into one more makes them small again.
pub carry-AtMost :
    (n a : ℕ) (xs : List ℕ)
    → suc n ≤ length xs
    → a ≤ batch_max + start_max
    → AtMost batch_max n xs
    → Returns (AtMost start_max (suc (suc n))) (carry (suc n) a xs)
unfolding carry
carry-AtMost n a [] h m k = absurd (omega arith)
carry-AtMost zero a (b ∷ xs) h m k =
    Returns-checked (AtMost start_max 2) (b + a / base) (some (a % base ∷ (b + a / base) ∷ xs))
      (omega (arith, k.0))
      (omega arith, (omega (arith, k.0), AtMost-zero batch_max start_max xs k.1))
carry-AtMost (suc n) a (b ∷ xs) h m k =
    let a' = b + a / base in
    Returns-checked (AtMost start_max (suc (suc (suc n)))) a'
      (prepend (a % base) (carry (suc n) a' xs)) (omega (arith, k.0))
      (Returns-prepend (AtMost start_max (suc (suc n))) (AtMost start_max (suc (suc (suc n))))
        (a % base) (carry (suc n) a' xs)
        (carry-AtMost n a' xs (omega arith) (omega (arith, k.0)) k.1) λ r c. (omega arith, c))

pub jinwei_zhengxiang-AtMost :
    (xs : List ℕ) (n : ℕ)
    → suc (suc n) ≤ length xs
    → AtMost batch_max (suc n) xs
    → Returns (AtMost start_max (suc (suc n))) (jinwei_zhengxiang xs (suc (suc n)))
unfolding jinwei_zhengxiang
jinwei_zhengxiang-AtMost [] n h a = absurd (omega arith)
jinwei_zhengxiang-AtMost (x ∷ xs) n h a =
    let e : suc (suc n) - 1 ≡ suc n = omega arith in
    rw e (carry-AtMost n x xs (omega arith) (omega (arith, a.0)) a.1)

pub Returns-both :
    {A : Type 0} (P Q : A → Type 0) (o : Option A)
    → Returns P o
    → Returns Q o
    → Returns (λ a. P a × Q a) o
Returns-both P Q none h k = h
Returns-both P Q (some a) h k = (h, k)
