-- ===== src/Calc/Input/Numeral.antt =====
-- What the lines are that `check` accepts.
use mathlib.Core.List.{append_assoc}
use myos_io.Base.{
  ℕ, suc, ◌+◌, ◌-◌, ◌≡◌, ◌↔◌, refl, sym, ap, ◌∙◌, ◌⊎◌, inl, inr, Bool, true, false, Bool-cases, not,
  ◌&&◌, List, [], ◌∷◌, ◌++◌, length, length-append, get_or, leb, ltb, ◌==◌, if◌then◌else◌, arith,
}
use myos_io.Calc.Input.{is_digit, points_loop, check}

abbrev pub Digits : List ℕ → Type 0
Digits [] = Unit
Digits (c ∷ cs) = (is_digit c ≡ true) × Digits cs

abbrev pub NonEmpty : List ℕ → Type 0
NonEmpty [] = ⊥
NonEmpty (c ∷ cs) = Unit

-- Digits, or digits, a point and digits.
abbrev pub IsNumeral : List ℕ → Type 0
IsNumeral a =
    (NonEmpty a × Digits a)
    ⊎ ((int : List ℕ) × (frac : List ℕ) × (a ≡ int ++ 46 ∷ frac)
        × NonEmpty int
        × Digits int
        × NonEmpty frac
        × Digits frac)

-- The loop on the part of the line that is left, which ends one before its end.
abbrev inner : List ℕ → ℕ → Bool
inner [] points = true
inner (c ∷ []) points = true
inner (c ∷ d ∷ cs) points =
    let digit = inner (d ∷ cs) points in
    let point = inner (d ∷ cs) (points + 1) in
    if is_digit c
    then digit
    else if c == 46
    then if ltb 1 (points + 1) then false else point
    else false

get_or-append : (xs ys : List ℕ) (c : ℕ) → get_or (xs ++ c ∷ ys) (length xs) 0 ≡ c
get_or-append [] ys c = refl
get_or-append (x ∷ xs) ys c = get_or-append xs ys c

shifted :
    (xs : List ℕ) (c d : ℕ) (ys : List ℕ) (p : ℕ)
    → points_loop ((xs ++ c ∷ []) ++ d ∷ ys) (length (d ∷ ys) - 1) (length (xs ++ c ∷ [])) p
      ≡ inner (d ∷ ys) p
    → points_loop (xs ++ c ∷ d ∷ ys) (length ys) (length xs + 1) p ≡ inner (d ∷ ys) p
shifted xs c d ys p h =
    let count : suc (length ys) - 1 ≡ length ys = omega arith in
    rw (← append_assoc xs (c ∷ []) (d ∷ ys), ← length-append xs (c ∷ []), ← count) h

loop-inner :
    (xs ys : List ℕ) (points : ℕ)
    → points_loop (xs ++ ys) (length ys - 1) (length xs) points ≡ inner ys points
unfolding points_loop
loop-inner xs [] points = refl
loop-inner xs (c ∷ []) points = refl
loop-inner xs (c ∷ d ∷ ys) points =
    let count : suc (suc (length ys)) - 1 ≡ suc (length ys) = omega arith in
    let step : (p : ℕ)
        → points_loop (xs ++ c ∷ d ∷ ys) (length ys) (length xs + 1) p ≡ inner (d ∷ ys) p =
      λ p. shifted xs c d ys p (loop-inner (xs ++ c ∷ []) (d ∷ ys) p) in
    rw (count, get_or-append xs (d ∷ ys) c, step points, step (points + 1)) refl

-- The last character.
abbrev last_of : List ℕ → ℕ
last_of [] = 0
last_of (c ∷ []) = c
last_of (c ∷ d ∷ cs) = last_of (d ∷ cs)

last_of-get_or : (a : List ℕ) → get_or a (length a - 1) 0 ≡ last_of a
last_of-get_or [] = refl
last_of-get_or (c ∷ []) = refl
last_of-get_or (c ∷ d ∷ cs) =
    let e : suc (suc (length cs)) - 1 ≡ suc (suc (length cs) - 1) = omega arith in
    rw e (last_of-get_or (d ∷ cs))

guards : (p q r : Bool) → (if not p then false else if not q then false else r) ≡ (p && (q && r))
guards true true r = refl
guards true false r = refl
guards false q r = refl

both : (p q r : Bool) → (p && (q && r)) ≡ true → (p ≡ true) × (q ≡ true) × (r ≡ true)
both true true r h = (refl, refl, h)
both true false r h = cc
both false q r h = cc

check-inner :
    (c d : ℕ) (cs : List ℕ)
    → check (c ∷ d ∷ cs) ≡ (is_digit (last_of (d ∷ cs)) && (is_digit c && inner (d ∷ cs) 0))
unfolding check
check-inner c d cs =
    let e : suc (suc (length cs)) - 1 - 1 ≡ suc (length cs) - 1 = omega arith in
    let l : points_loop (c ∷ d ∷ cs) (suc (suc (length cs)) - 1 - 1) 1 0 ≡ inner (d ∷ cs) 0 =
      rw e (loop-inner (c ∷ []) (d ∷ cs) 0) in
    let long : leb (suc (suc (length cs))) 0 ≡ false = ground arith in
    rw (long, last_of-get_or (c ∷ d ∷ cs), l)
      (guards (is_digit (last_of (d ∷ cs))) (is_digit c) (inner (d ∷ cs) 0))

inner-Digits :
    (ys : List ℕ) → inner ys 1 ≡ true → is_digit (last_of ys) ≡ true → NonEmpty ys → Digits ys
inner-Digits [] h l n = tt
inner-Digits (c ∷ []) h l n = (l, tt)
inner-Digits (c ∷ d ∷ cs) h l n = elim (Bool-cases (is_digit c)) [
  | inl t ↦ (t, inner-Digits (d ∷ cs) (rw t at h) l tt)
  | inr t ↦ absurd (ground (arith, rw t at h))
]

-- After the first digit.
Rest : List ℕ → Type 0
Rest ys =
    Digits ys
    ⊎ ((int : List ℕ) × (frac : List ℕ) × (ys ≡ int ++ 46 ∷ frac)
        × Digits int
        × NonEmpty frac
        × Digits frac)

inner-Rest :
    (ys : List ℕ) → inner ys 0 ≡ true → is_digit (last_of ys) ≡ true → NonEmpty ys → Rest ys
unfolding Rest
inner-Rest [] h l n = inl tt
inner-Rest (c ∷ []) h l n = inl (l, tt)
inner-Rest (c ∷ d ∷ cs) h l n = elim (Bool-cases (is_digit c)) [
  | inl t ↦ elim (inner-Rest (d ∷ cs) (rw t at h) l tt) [
    | inl all ↦ inl (t, all)
    | inr (int, frac, e, a, n, b) ↦ inr (c ∷ int, frac, ap (λ xs. c ∷ xs) e, (t, a), n, b)
  ]
  | inr t ↦ elim (Bool-cases (c == 46)) [
    | inr u ↦ absurd (ground (arith, rw (t, u) at h))
    | inl u ↦
        let point : c ≡ 46 = ground (arith, u) in
        inr (
          [],
          d ∷ cs,
          ap (λ x. x ∷ d ∷ cs) point,
          tt,
          tt,
          inner-Digits (d ∷ cs) (rw (t, u) at h) l tt,
        )
  ]
]

Digits-inner : (ys : List ℕ) (p : ℕ) → Digits ys → (inner ys p ≡ true)
Digits-inner [] p h = refl
Digits-inner (c ∷ []) p h = refl
Digits-inner (c ∷ d ∷ cs) p (t, h) = rw t (Digits-inner (d ∷ cs) p h)

Digits-last : (ys : List ℕ) → Digits ys → NonEmpty ys → is_digit (last_of ys) ≡ true
Digits-last [] h n = elim n [ ]
Digits-last (c ∷ []) (t, h) n = t
Digits-last (c ∷ d ∷ cs) (t, h) n = Digits-last (d ∷ cs) h tt

point-inner :
    (int : List ℕ) (f : ℕ) (frac : List ℕ)
    → Digits int
    → Digits (f ∷ frac)
    → (inner (int ++ 46 ∷ f ∷ frac) 0 ≡ true) × (is_digit (last_of (int ++ 46 ∷ f ∷ frac)) ≡ true)
point-inner [] f frac h k = (Digits-inner (f ∷ frac) 1 k, Digits-last (f ∷ frac) k tt)
point-inner (c ∷ []) f frac (t, h) k =
    (rw t (point-inner [] f frac tt k).0, Digits-last (f ∷ frac) k tt)
point-inner (c ∷ d ∷ int) f frac (t, h) k =
    let (a, b) = point-inner (d ∷ int) f frac h k in (rw t a, b)

check-Digits : (a : List ℕ) → NonEmpty a → Digits a → check a ≡ true
unfolding check points_loop
check-Digits [] n h = elim n [ ]
check-Digits (c ∷ []) n (t, h) = rw t refl
check-Digits (c ∷ d ∷ cs) n (t, h) =
    check-inner c d cs ∙ rw (Digits-last (d ∷ cs) h tt, t) (Digits-inner (d ∷ cs) 0 h)

check-point :
    (int frac : List ℕ)
    → NonEmpty int
    → Digits int
    → NonEmpty frac
    → Digits frac
    → check (int ++ 46 ∷ frac) ≡ true
check-point [] frac n h m k = elim n [ ]
check-point (c ∷ int) [] n h m k = elim m [ ]
check-point (c ∷ []) (f ∷ frac) n (t, h) m k =
    let (i, l) = point-inner [] f frac tt k in check-inner c 46 (f ∷ frac) ∙ rw (l, t) i
check-point (c ∷ d ∷ int) (f ∷ frac) n (t, h) m k =
    let (i, l) = point-inner (d ∷ int) f frac h k in
    check-inner c d (int ++ 46 ∷ f ∷ frac) ∙ rw (l, t) i

numeral : (a : List ℕ) → check a ≡ true → IsNumeral a
unfolding check points_loop Rest
numeral [] h = cc
numeral (c ∷ []) h = inl (
  tt,
  ((both (is_digit c) (is_digit c) true (sym (guards (is_digit c) (is_digit c) true) ∙ h)).0, tt),
)
numeral (c ∷ d ∷ cs) h =
    let g : (is_digit (last_of (d ∷ cs)) && (is_digit c && inner (d ∷ cs) 0)) ≡ true =
      sym (check-inner c d cs) ∙ h in
    let (l, t, i) = both _ _ _ g in
    elim (inner-Rest (d ∷ cs) i l tt) [
      | inl all ↦ inl (tt, (t, all))
      | inr (int, frac, e, a, n, b) ↦ inr (c ∷ int, frac, ap (λ xs. c ∷ xs) e, tt, (t, a), n, b)
    ]

-- check accepts a line exactly if it is digits, or digits, a point and digits.
pub check-IsNumeral : (a : List ℕ) → (check a ≡ true) ↔ IsNumeral a
check-IsNumeral a = (
  numeral a,
  λ n. elim n [
    | inl (m, h) ↦ check-Digits a m h
    | inr (int, frac, e, m, h, k, l) ↦ ap check e ∙ check-point int frac m h k l
  ],
)
