-- ===== src/Calc/Digits.antt =====
-- What a list of base 10^6 digits of main.c stands for.
use myos_io.Base.{
  ◌-◌, ◌≢◌, sym, ◌∙◌, take, drop_last, get_or, ℕ, zero, suc, ◌+◌, ◌*◌, ◌<◌, ◌≤◌, ◌≡◌, refl, List,
  [], ◌∷◌, ◌++◌, arith, length, replicate,
}
use myos_io.Calc.{base}

-- The number, lowest digit first.
abbrev pub value : List ℕ → ℕ
value [] = 0
value (a ∷ xs) = a + base * value xs

-- v times base ^ k
unfoldable pub shift : ℕ → ℕ → ℕ
shift zero v = v
shift (suc k) v = base * shift k v

pub shift_add : (k u v : ℕ) → shift k (u + v) ≡ shift k u + shift k v
unfolding shift
shift_add zero u v = refl
shift_add (suc k) u v = omega (arith, shift_add k u v)

pub shift_suc : (k v : ℕ) → shift (k + 1) v ≡ shift k (base * v)
unfolding shift
shift_suc zero v = refl
shift_suc (suc k) v =
    let e : suc k + 1 ≡ suc (k + 1) = omega arith in rw e (omega (arith, shift_suc k v))

pub shift-shift : (j k v : ℕ) → shift (j + k) v ≡ shift j (shift k v)
unfolding shift
shift-shift zero k v = let e : zero + k ≡ k = omega arith in rw e
shift-shift (suc j) k v =
    let e : suc j + k ≡ suc (j + k) = omega arith in rw e (omega (arith, shift-shift j k v))

pub shift_mono : (k u v : ℕ) → u ≤ v → shift k u ≤ shift k v
unfolding shift
shift_mono zero u v h = h
shift_mono (suc k) u v h = omega (arith, shift_mono k u v h)

pub value-append : (xs ys : List ℕ) → value (xs ++ ys) ≡ value xs + shift (length xs) (value ys)
unfolding shift
value-append [] ys = omega arith
value-append (a ∷ xs) ys = omega (arith, value-append xs ys)

pub value-replicate : (n : ℕ) → value (replicate n 0) ≡ 0
value-replicate zero = refl
value-replicate (suc n) = omega (arith, value-replicate n)

-- Each digit is below the base.
abbrev pub AllDigits : List ℕ → Type 0
AllDigits [] = Unit
AllDigits (a ∷ xs) = (a < base) × AllDigits xs

pub AllDigits-append : (xs ys : List ℕ) → AllDigits xs → AllDigits ys → AllDigits (xs ++ ys)
AllDigits-append [] ys h k = k
AllDigits-append (a ∷ xs) ys h k = (h.0, AllDigits-append xs ys h.1 k)

-- A number of n digits is below base ^ n.
pub value_bound : (xs : List ℕ) → AllDigits xs → value xs + 1 ≤ shift (length xs) 1
unfolding shift
value_bound [] h = omega arith
value_bound (a ∷ xs) h = omega (arith, h.0, value_bound xs h.1)

pub AllDigits-take : (m n : ℕ) (xs : List ℕ) → m ≤ n → AllDigits (take n xs) → AllDigits (take m xs)
AllDigits-take zero n xs h k = tt
AllDigits-take (suc m) n [] h k = tt
AllDigits-take (suc m) zero (x ∷ xs) h k = absurd (omega arith)
AllDigits-take (suc m) (suc n) (x ∷ xs) h k = (k.0, AllDigits-take m n xs (omega arith) k.1)

pub shift_cancel : (k u v : ℕ) → shift k u + 1 ≤ shift k v → u + 1 ≤ v
unfolding shift
shift_cancel zero u v h = h
shift_cancel (suc k) u v h = shift_cancel k u v (omega arith)

-- A number that fits in its digits has a highest digit below the base, if the others are.
pub AllDigits-of_bound :
    (n : ℕ) (xs : List ℕ)
    → length xs ≤ n + 1
    → AllDigits (take n xs)
    → value xs + 1 ≤ shift (length xs) 1
    → AllDigits xs
unfolding shift
AllDigits-of_bound n [] e h k = tt
AllDigits-of_bound n (a ∷ []) e h k = (omega arith, tt)
AllDigits-of_bound zero (a ∷ b ∷ xs) e h k = absurd (omega arith)
AllDigits-of_bound (suc n) (a ∷ b ∷ xs) e h k =
    (h.0, AllDigits-of_bound n (b ∷ xs) (omega arith) h.1 (omega arith))

-- The highest digit is not 0; zero has no digits.
abbrev pub Trimmed : List ℕ → Type 0
Trimmed [] = Unit
Trimmed (a ∷ []) = a ≢ 0
Trimmed (a ∷ b ∷ xs) = Trimmed (b ∷ xs)

-- A number with n digits, the highest not 0, is at least base ^ (n - 1).
pub Trimmed-bound :
    (xs : List ℕ) → 1 ≤ length xs → Trimmed xs → shift (length xs) 1 ≤ base * value xs
unfolding shift
Trimmed-bound [] h k = absurd (omega arith)
Trimmed-bound (a ∷ []) h k = omega arith
Trimmed-bound (a ∷ b ∷ xs) h k = omega (arith, Trimmed-bound (b ∷ xs) (omega arith) k)

pub Trimmed-of_bound :
    (xs : List ℕ) → AllDigits xs → shift (length xs) 1 ≤ base * value xs → Trimmed xs
unfolding shift
Trimmed-of_bound [] h k = tt
Trimmed-of_bound (a ∷ []) h k = omega arith
Trimmed-of_bound (a ∷ b ∷ xs) h k = Trimmed-of_bound (b ∷ xs) h.1 (omega (arith, h.0))

highest_cons :
    (a b : ℕ) (xs : List ℕ)
    → get_or (a ∷ b ∷ xs) (length (a ∷ b ∷ xs) - 1) 0 ≡ get_or (b ∷ xs) (length (b ∷ xs) - 1) 0
highest_cons a b xs =
    let e : suc (suc (length xs)) - 1 ≡ suc (suc (length xs) - 1) = omega arith in rw e refl

-- A highest digit 0 can go.
pub drop_last-value :
    (xs : List ℕ)
    → 1 ≤ length xs
    → get_or xs (length xs - 1) 0 ≡ 0
    → (value (drop_last xs) ≡ value xs) × (length (drop_last xs) + 1 ≡ length xs)
unfolding drop_last
drop_last-value [] h k = absurd (omega arith)
drop_last-value (a ∷ []) h k = (omega arith, refl)
drop_last-value (a ∷ b ∷ xs) h k =
    let rest = drop_last-value (b ∷ xs) (omega arith) (sym (highest_cons a b xs) ∙ k) in
    (omega (arith, rest.0), omega (arith, rest.1))

pub AllDigits-drop_last : (xs : List ℕ) → AllDigits xs → AllDigits (drop_last xs)
unfolding drop_last
AllDigits-drop_last [] h = tt
AllDigits-drop_last (a ∷ []) h = tt
AllDigits-drop_last (a ∷ b ∷ xs) h = (h.0, AllDigits-drop_last (b ∷ xs) h.1)

pub Trimmed-of_top : (xs : List ℕ) → get_or xs (length xs - 1) 0 ≢ 0 → Trimmed xs
Trimmed-of_top [] h = tt
Trimmed-of_top (a ∷ []) h = h
Trimmed-of_top (a ∷ b ∷ xs) h = Trimmed-of_top (b ∷ xs) (λ e. h (highest_cons a b xs ∙ e))

-- Sizes multiply.
pub mul_bound : (u v s t : ℕ) → u + 1 ≤ s → v + 1 ≤ t → u * v + 1 ≤ s * t
mul_bound u v s t h k =
    let d = s - (u + 1) in
    let e = t - (v + 1) in
    let s-eq : s ≡ u + 1 + d = omega arith in
    let t-eq : t ≡ v + 1 + e = omega arith in rw (s-eq, t-eq) (omega arith)

pub shift_mul : (k v : ℕ) → shift k v ≡ shift k 1 * v
unfolding shift
shift_mul zero v = omega arith
shift_mul (suc k) v = omega (arith, shift_mul k v)

pub shift_zero : (k : ℕ) → shift k 0 ≡ 0
unfolding shift
shift_zero zero = refl
shift_zero (suc k) = omega (arith, shift_zero k)

pub mul_le : (s t u v : ℕ) → s ≤ u → t ≤ v → s * t ≤ u * v
mul_le s t u v h k =
    let d = u - s in
    let e = v - t in
    let u-eq : u ≡ s + d = omega arith in
    let v-eq : v ≡ t + e = omega arith in rw (u-eq, v-eq) (omega arith)

pub shift_pos : (k : ℕ) → 1 ≤ shift k 1
unfolding shift
shift_pos zero = omega arith
shift_pos (suc k) = omega (arith, shift_pos k)

pub shift_exp : (k n : ℕ) → k ≤ n → shift k 1 ≤ shift n 1
unfolding shift
shift_exp zero n h = shift_pos n
shift_exp (suc k) zero h = absurd (omega arith)
shift_exp (suc k) (suc n) h = omega (arith, shift_exp k n (omega arith))

-- A number x places up fits below any place above it.
pub place_bound :
    (x n : ℕ) (xs : List ℕ) → AllDigits xs → x + length xs ≤ n → shift x (value xs) + 1 ≤ shift n 1
place_bound x n xs d h = omega (
  arith,
  shift_mono x (value xs + 1) (shift (length xs) 1) (value_bound xs d),
  shift_add x (value xs) 1,
  shift_pos x,
  shift-shift x (length xs) 1,
  shift_exp (x + length xs) n h,
)

pub shift_step : (k v : ℕ) → shift (suc k) v ≡ base * shift k v
unfolding shift
shift_step k v = refl
