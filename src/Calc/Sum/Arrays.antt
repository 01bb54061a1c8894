-- ===== src/Calc/Sum/Arrays.antt =====
-- jia of main.c: the array operations add.
use myos_io.Base.{
  ℕ, zero, suc, ◌+◌, ◌-◌, ◌*◌, ◌<◌, ◌≤◌, ◌≡◌, refl, List, [], ◌∷◌, arith, length, replicate,
}
use Prim.Native.Nat.{max}
use myos_io.Calc.{base, prepend}
use myos_io.Calc.Digits.{value, shift, AllDigits}
use myos_io.Calc.Carry.{
  Returns, Returns-prepend, Returns-checked, AtMost, batch_max, Carried, jinwei_zhengxiang-Carried,
  Added,
}
use myos_io.Calc.Sum.{copy_at, add_at, carry_at}

-- The first k entries are 0.
abbrev pub ZeroBelow : ℕ → List ℕ → Type 0
ZeroBelow zero xs = Unit
ZeroBelow (suc k) [] = Unit
ZeroBelow (suc k) (x ∷ xs) = (x ≡ 0) × ZeroBelow k xs

-- The first k entries are digits, the others sums of two.
abbrev pub Sums : ℕ → List ℕ → Type 0
Sums k [] = Unit
Sums zero (x ∷ xs) = (x < 2 * base) × Sums zero xs
Sums (suc k) (x ∷ xs) = (x < base) × Sums k xs

-- `r` is an array of n digits with the number `xs` from `offset` on.
pub record Copied (offset n : ℕ) (xs r : List ℕ) : Type 0 where
  pub value-eq : value r ≡ shift offset (value xs)
  pub length-eq : length r ≡ n
  pub digits : AllDigits r
  pub below : ZeroBelow offset r

zeros-Copied : (n : ℕ) → Copied 0 n [] (replicate n 0)
unfolding shift
zeros-Copied zero = record { value-eq = refl; length-eq = refl; digits = tt; below = tt }
zeros-Copied (suc n) =
    let c = zeros-Copied n in
    record {
      value-eq = omega (arith, c.value-eq);
      length-eq = omega (arith, c.length-eq);
      digits = (omega arith, c.digits);
      below = tt;
    }

pub copy_at-Copied :
    (offset n : ℕ) (xs : List ℕ)
    → AllDigits xs
    → offset + length xs ≤ n
    → Returns (Copied offset n xs) (copy_at offset xs (replicate n 0))
unfolding copy_at shift
copy_at-Copied zero n [] d h = zeros-Copied n
copy_at-Copied zero zero (x ∷ xs) d h = absurd (omega arith)
copy_at-Copied zero (suc n) (x ∷ xs) d h =
    Returns-prepend (Copied 0 n xs) (Copied 0 (suc n) (x ∷ xs)) x (copy_at 0 xs (replicate n 0))
      (copy_at-Copied zero n xs d.1 (omega arith))
      λ r c. record {
        value-eq = omega (arith, c.value-eq);
        length-eq = omega (arith, c.length-eq);
        digits = (d.0, c.digits);
        below = tt;
      }
copy_at-Copied (suc offset) zero xs d h = absurd (omega arith)
copy_at-Copied (suc offset) (suc n) xs d h =
    Returns-prepend (Copied offset n xs) (Copied (suc offset) (suc n) xs) 0
      (copy_at offset xs (replicate n 0)) (copy_at-Copied offset n xs d (omega arith))
      λ r c. record {
        value-eq = omega (arith, c.value-eq);
        length-eq = omega (arith, c.length-eq);
        digits = (omega arith, c.digits);
        below = (refl, c.below);
      }

Sums-digits : (k : ℕ) (r : List ℕ) → AllDigits r → Sums k r
Sums-digits k [] d = tt
Sums-digits zero (x ∷ xs) d = (omega (arith, d.0), Sums-digits zero xs d.1)
Sums-digits (suc k) (x ∷ xs) d = (d.0, Sums-digits k xs d.1)

Sums-cons :
    (k x : ℕ) (xs : List ℕ) → x < 2 * base → (1 ≤ k → x < base) → Sums (k - 1) xs → Sums k (x ∷ xs)
Sums-cons zero x xs h d s = let e : 0 - 1 ≡ 0 = omega arith in (h, rw e at s)
Sums-cons (suc k) x xs h d s = let e : suc k - 1 ≡ k = omega arith in (d (omega arith), rw e at s)

ZeroBelow-tail : (z x : ℕ) (xs : List ℕ) → ZeroBelow z (x ∷ xs) → ZeroBelow (z - 1) xs
ZeroBelow-tail zero x xs b = tt
ZeroBelow-tail (suc z) x xs b = let e : suc z - 1 ≡ z = omega arith in rw e b.1

ZeroBelow-head : (z x : ℕ) (xs : List ℕ) → ZeroBelow z (x ∷ xs) → 1 ≤ z → x ≡ 0
ZeroBelow-head zero x xs b h = absurd (omega arith)
ZeroBelow-head (suc z) x xs b h = b.0

-- Below the higher offset of the two there is one digit at most in each place.
pub add_at-Sums :
    (offset z k : ℕ) (xs result : List ℕ)
    → AllDigits xs
    → AllDigits result
    → ZeroBelow z result
    → offset + length xs ≤ length result
    → k ≤ max offset z
    → Returns (λ r. Added (shift offset (value xs)) result r × Sums k r) (add_at offset xs result)
unfolding add_at shift
add_at-Sums zero z k [] result d e b h c =
    (record { value-eq = omega arith; length-eq = refl }, Sums-digits k result e)
add_at-Sums zero z k (x ∷ xs) [] d e b h c = absurd (omega arith)
add_at-Sums zero z k (x ∷ xs) (r ∷ result) d e b h c =
    let more = shift zero (value xs) in
    let P : List ℕ → Type 0 = λ r'. Added more result r' × Sums (k - 1) r' in
    let Q : List ℕ → Type 0 = λ r'. Added (value (x ∷ xs)) (r ∷ result) r' × Sums k r' in
    let zero_there : 1 ≤ k → r ≡ 0 = λ (p : 1 ≤ k). ZeroBelow-head z r result b (omega arith) in
    Returns-checked Q (r + x) (prepend (r + x) (add_at 0 xs result)) (omega (arith, d.0, e.0)) (
      Returns-prepend P Q (r + x) (add_at 0 xs result)
        (add_at-Sums zero (z - 1) (k - 1) xs result d.1 e.1 (ZeroBelow-tail z r result b)
          (omega arith) (omega arith))
        λ r' p. (
          record {
            value-eq = omega (arith, p.0.value-eq);
            length-eq = omega (arith, p.0.length-eq);
          },
          Sums-cons k (r + x) r' (omega (arith, d.0, e.0)) (λ q. omega (arith, zero_there q, d.0))
              p.1,
        ))
add_at-Sums (suc offset) z k xs [] d e b h c = absurd (omega arith)
add_at-Sums (suc offset) z k xs (r ∷ result) d e b h c =
    let P : List ℕ → Type 0 = λ r'. Added (shift offset (value xs)) result r' × Sums (k - 1) r' in
    let Q : List ℕ → Type 0 =
      λ r'. Added (shift (suc offset) (value xs)) (r ∷ result) r' × Sums k r' in
    Returns-prepend P Q r (add_at offset xs result)
      (add_at-Sums offset (z - 1) (k - 1) xs result d e.1 (ZeroBelow-tail z r result b)
        (omega arith) (omega arith))
      λ r' p. (
        record { value-eq = omega (arith, p.0.value-eq); length-eq = omega (arith, p.0.length-eq) },
        Sums-cons k r r' (omega (arith, e.0)) (λ q. e.0) p.1,
      )

Sums-AtMost : (r : List ℕ) → Sums 0 r → AtMost batch_max (length r) r
Sums-AtMost [] s = tt
Sums-AtMost (x ∷ xs) s = (omega (arith, s.0), Sums-AtMost xs s.1)

-- From the first entry that can be a sum on, the carries leave digits, but for the highest one.
pub carry_at-Carried :
    (k : ℕ) (result : List ℕ)
    → Sums k result
    → k + 1 ≤ length result
    → Returns (Carried (length result - 1) result) (carry_at k (length result - k) result)
unfolding carry_at
carry_at-Carried zero result s h =
    let e : length result - 0 ≡ length result = omega arith in
    rw e (
      jinwei_zhengxiang-Carried result (length result) (omega arith) (omega arith)
        (Sums-AtMost result s))
carry_at-Carried (suc k) [] s h = absurd (omega arith)
carry_at-Carried (suc k) (r ∷ result) s h =
    let e : suc (length result) - suc k ≡ length result - k = omega arith in
    let n : suc (length result) - 1 ≡ suc (length result - 1) = omega arith in
    rw (e, n)
      (Returns-prepend (Carried (length result - 1) result)
        (Carried (suc (length result - 1)) (r ∷ result)) r (carry_at k (length result - k) result)
        (carry_at-Carried k result s.1 (omega arith))
        λ r' c. record {
          value-eq = omega (arith, c.value-eq);
          length-eq = omega (arith, c.length-eq);
          digits = (s.0, c.digits);
        })
