-- ===== src/Calc/Sum/Borrow.antt =====
-- jian of main.c: the array operations subtract, and the borrows leave digits.
use myos_io.Base.{
  ℕ, zero, suc, ◌+◌, ◌-◌, ◌*◌, ◌/◌, ◌%◌, ◌<◌, ◌≤◌, ◌≡◌, refl, ap, some, List, [], ◌∷◌, map, arith,
  length, Option, none, true,
}
use myos_io.Base.Int.{ℤ, pos, negsuc, pos_part, neg_part, ◌+ℤ◌, ◌-ℤ◌}
use myos_io.Calc.{base}
use myos_io.Calc.Digits.{value, shift, AllDigits}
use myos_io.Calc.Carry.{Returns}
use myos_io.Calc.Sum.{prepend_ℤ, holds_64, checked_ℤ, borrow, borrow_at, sub_at, as_digits}

-- The number is pos_value - neg_value.
abbrev pub pos_value : List ℤ → ℕ
pos_value [] = 0
pos_value (x ∷ xs) = pos_part x + base * pos_value xs

abbrev pub neg_value : List ℤ → ℕ
neg_value [] = 0
neg_value (x ∷ xs) = neg_part x + base * neg_value xs

-- Each entry is below the base, and the first k are not below 0.
abbrev pub Upper : ℕ → List ℤ → Type 0
Upper k [] = Unit
Upper zero (x ∷ xs) = (pos_part x < base) × Upper zero xs
Upper (suc k) (x ∷ xs) = (pos_part x < base) × (neg_part x ≡ 0) × Upper k xs

-- The digits are above -base.
abbrev pub Lower : List ℤ → Type 0
Lower [] = Unit
Lower (x ∷ xs) = (neg_part x < base) × Lower xs

-- A digit of either sign that is at most the base is an int64_t.
pub checked_ℤ-small :
    (P : List ℤ → Type 0) (a : ℤ) (o : Option (List ℤ))
    → pos_part a ≤ base * base
    → neg_part a ≤ base * base
    → Returns P o
    → Returns P (checked_ℤ a o)
checked_ℤ-small P a o h k r = let t : holds_64 a ≡ true = ground (arith, h, k) in rw t r

-- `q` is the number `r` less `less`.
pub record Taken (less : ℕ) (r : List ℕ) (q : List ℤ) : Type 0 where
  pub value-eq : pos_value q + less ≡ value r + neg_value q
  pub length-eq : length q ≡ length r

pub Returns-prepend_ℤ :
    (P Q : List ℤ → Type 0) (a : ℤ) (o : Option (List ℤ))
    → Returns P o
    → ((r : List ℤ) → P r → Q (a ∷ r))
    → Returns Q (prepend_ℤ a o)
Returns-prepend_ℤ P Q a none h k = h
Returns-prepend_ℤ P Q a (some r) h k = k r h

same-Taken : (r : List ℕ) → Taken 0 r (map pos r)
same-Taken [] = record { value-eq = refl; length-eq = refl }
same-Taken (x ∷ r) =
    let t = same-Taken r in
    record { value-eq = omega (arith, t.value-eq); length-eq = omega (arith, t.length-eq) }

same-Lower : (r : List ℕ) → Lower (map pos r)
same-Lower [] = tt
same-Lower (x ∷ r) = (omega arith, same-Lower r)

same-Upper : (r : List ℕ) → AllDigits r → Upper 0 (map pos r)
same-Upper [] d = tt
same-Upper (x ∷ r) d = (d.0, same-Upper r d.1)

sub_digit :
    (r x : ℕ)
    → (pos_part (pos r -ℤ pos x) ≤ r)
      × (pos_part (pos r -ℤ pos x) + x ≡ r + neg_part (pos r -ℤ pos x))
unfolding ◌-ℤ◌
sub_digit r x = ground arith

pub sub_at-Taken :
    (offset : ℕ) (xs r : List ℕ)
    → AllDigits xs
    → AllDigits r
    → offset + length xs ≤ length r
    → Returns
        (λ q. Taken (shift offset (value xs)) r q × Upper offset q × Lower q)
        (sub_at offset xs (map pos r))
unfolding sub_at shift
sub_at-Taken zero [] r dx d h = (same-Taken r, same-Upper r d, same-Lower r)
sub_at-Taken zero (x ∷ xs) [] dx d h = absurd (omega arith)
sub_at-Taken zero (x ∷ xs) (y ∷ r) dx d h =
    let After : List ℤ → Type 0 = λ q. Taken (value (x ∷ xs)) (y ∷ r) q × Upper 0 q × Lower q in
    checked_ℤ-small After (pos y -ℤ pos x) (prepend_ℤ (pos y -ℤ pos x) (sub_at 0 xs (map pos r)))
      (omega (arith, sub_digit y x, d.0)) (omega (arith, sub_digit y x, dx.0))
      (Returns-prepend_ℤ (λ q. Taken (shift 0 (value xs)) r q × Upper 0 q × Lower q) After
        (pos y -ℤ pos x) (sub_at 0 xs (map pos r)) (sub_at-Taken zero xs r dx.1 d.1 (omega arith))
        λ q t. (
          record {
            value-eq = omega (arith, t.0.value-eq, sub_digit y x);
            length-eq = omega (arith, t.0.length-eq);
          },
          (omega (arith, sub_digit y x, d.0), t.1),
          (omega (arith, sub_digit y x, dx.0), t.2),
        ))
sub_at-Taken (suc offset) xs [] dx d h = absurd (omega arith)
sub_at-Taken (suc offset) xs (y ∷ r) dx d h =
    Returns-prepend_ℤ (λ q. Taken (shift offset (value xs)) r q × Upper offset q × Lower q)
      (λ q. Taken (shift (suc offset) (value xs)) (y ∷ r) q × Upper (suc offset) q × Lower q)
      (pos y) (sub_at offset xs (map pos r)) (sub_at-Taken offset xs r dx d.1 (omega arith))
      λ q t. (
        record { value-eq = omega (arith, t.0.value-eq); length-eq = omega (arith, t.0.length-eq) },
        (d.0, refl, t.1),
        (omega arith, t.2),
      )

-- `q` holds digits, for the same number as `xs`.
pub record Settled (xs q : List ℤ) : Type 0 where
  pub ds : List ℕ
  pub are : q ≡ map pos ds
  pub digits : AllDigits ds
  pub value-eq : value ds + neg_value xs ≡ pos_value xs
  pub length-eq : length ds ≡ length xs

borrow_digit : (a : ℕ) → negsuc a +ℤ pos ((a / base + 1) * base) ≡ pos (base - 1 - a % base)
unfolding ◌+ℤ◌
borrow_digit a = ground arith

take_from :
    (b : ℤ) (t : ℕ)
    → (pos_part (b -ℤ pos t) ≤ pos_part b)
      × (neg_part (b -ℤ pos t) ≤ neg_part b + t)
      × (pos_part (b -ℤ pos t) + neg_part b + t ≡ neg_part (b -ℤ pos t) + pos_part b)
unfolding ◌-ℤ◌
take_from b t = ground arith

-- A digit in front of a settled number.
Settled-cons :
    (d : ℕ) (xs ys q : List ℤ)
    → d < base
    → Settled xs q
    → d + base * pos_value xs + neg_value ys ≡ pos_value ys + base * neg_value xs
    → length ys ≡ suc (length xs)
    → Settled ys (pos d ∷ q)
Settled-cons d xs ys q small s v l = record {
  ds = d ∷ s.ds;
  are = ap (λ r. pos d ∷ r) s.are;
  digits = (small, s.digits);
  value-eq = omega (arith, s.value-eq);
  length-eq = omega (arith, s.length-eq);
}

borrow-Settled :
    (n : ℕ) (a : ℤ) (xs : List ℤ)
    → length xs ≡ n
    → Upper 0 (a ∷ xs)
    → (neg_part a ≤ base) × Lower xs
    → neg_value (a ∷ xs) ≤ pos_value (a ∷ xs)
    → Returns (Settled (a ∷ xs)) (borrow n a xs)
unfolding borrow
borrow-Settled zero (pos a) [] e u low h = record {
  ds = a ∷ [];
  are = refl;
  digits = (u.0, tt);
  value-eq = omega arith;
  length-eq = refl;
}
borrow-Settled zero (negsuc a) [] e u low h = absurd (omega arith)
borrow-Settled zero a (b ∷ xs) e u low h = absurd (omega arith)
borrow-Settled (suc n) a [] e u low h = absurd (omega arith)
borrow-Settled (suc n) (pos a) (b ∷ xs) e u low h =
    Returns-prepend_ℤ (Settled (b ∷ xs)) (Settled (pos a ∷ b ∷ xs)) (pos a) (borrow n b xs)
      (borrow-Settled n b xs (omega arith) u.1 (omega (arith, low), low.1.1) (omega (arith, u.0)))
      λ q s. Settled-cons a (b ∷ xs) (pos a ∷ b ∷ xs) q u.0 s (omega arith) refl
borrow-Settled (suc n) (negsuc a) (b ∷ xs) e u low h =
    let t = a / base + 1 in
    let b' = b -ℤ pos t in
    let one : t ≡ 1 = omega (arith, low) in
    let taken = take_from b t in
    let rest = prepend_ℤ (negsuc a +ℤ pos (t * base)) (borrow n b' xs) in
    checked_ℤ-small (Settled (negsuc a ∷ b ∷ xs)) (pos (a + 1))
      (checked_ℤ (pos (t * base)) (checked_ℤ b' rest)) (omega (arith, low)) (omega arith)
      (checked_ℤ-small (Settled (negsuc a ∷ b ∷ xs)) (pos (t * base)) (checked_ℤ b' rest)
        (omega (arith, one)) (omega arith)
        (checked_ℤ-small (Settled (negsuc a ∷ b ∷ xs)) b' rest (omega (arith, taken, u.1.0))
          (omega (arith, taken, one, low))
          (rw (borrow_digit a) (
            Returns-prepend_ℤ (Settled (b' ∷ xs)) (Settled (negsuc a ∷ b ∷ xs))
              (pos (base - 1 - a % base)) (borrow n b' xs)
              (borrow-Settled n b' xs (omega arith) (omega (arith, take_from b t, u.1.0), u.1.1)
                (omega (arith, taken, one, low), low.1.1) (omega (arith, take_from b t)))
              λ q s.
                Settled-cons (base - 1 - a % base) (b' ∷ xs) (negsuc a ∷ b ∷ xs) q (omega arith) s
                  (omega (arith, take_from b t)) refl))))

pub borrow_at-Settled :
    (k : ℕ) (r : List ℤ)
    → k + 1 ≤ length r
    → Upper k r
    → Lower r
    → neg_value r ≤ pos_value r
    → Returns (Settled r) (borrow_at k (length r - k) r)
unfolding borrow_at
borrow_at-Settled zero [] h u low v = absurd (omega arith)
borrow_at-Settled zero (a ∷ xs) h u low v =
    let e : suc (length xs) - 0 - 1 ≡ length xs = omega arith in
    rw e (borrow-Settled (length xs) a xs refl u (omega (arith, low), low.1) v)
borrow_at-Settled (suc k) [] h u low v = absurd (omega arith)
borrow_at-Settled (suc k) (pos a ∷ xs) h u low v =
    let e : suc (length xs) - suc k ≡ length xs - k = omega arith in
    rw e (
      Returns-prepend_ℤ (Settled xs) (Settled (pos a ∷ xs)) (pos a) (borrow_at k (length xs - k) xs)
        (borrow_at-Settled k xs (omega arith) u.2 low.1 (omega (arith, u.0)))
        λ q s. Settled-cons a xs (pos a ∷ xs) q u.0 s (omega arith) refl)
borrow_at-Settled (suc k) (negsuc a ∷ xs) h u low v = absurd (omega (arith, u.1))

as_digits-pos : (ds : List ℕ) → as_digits (map pos ds) ≡ some ds
unfolding as_digits
as_digits-pos [] = refl
as_digits-pos (x ∷ ds) = rw (as_digits-pos ds)

-- The digits of a number that is not below 0.
pub record Left (xs : List ℤ) (ds : List ℕ) : Type 0 where
  pub digits : AllDigits ds
  pub value-eq : value ds + neg_value xs ≡ pos_value xs

pub as_digits-Left : (xs q : List ℤ) → Settled xs q → Returns (Left xs) (as_digits q)
as_digits-Left xs q s =
    rw (s.are, as_digits-pos s.ds) (record { digits = s.digits; value-eq = s.value-eq })
