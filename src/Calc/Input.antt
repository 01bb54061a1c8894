-- ===== src/Calc/Input.antt =====
-- `check` of main.c, which says whether a line is a number.
pub mod Numeral
use myos_io.Base.{
  ℕ, zero, suc, ◌+◌, ◌-◌, ◌<◌, ◌≤◌, ◌≡◌, ◌↔◌, refl, sym, ap, ◌∙◌, ◌⊎◌, inl, inr, Bool, true, false,
  Bool-cases, not, ◌&&◌, ◌||◌, List, [], ◌∷◌, ◌++◌, length, length-append, get_or, leb, ltb, ◌==◌,
  if◌then◌else◌, arith,
}

-- a[i] > '9' || a[i] < '0'
abbrev pub is_digit : ℕ → Bool
is_digit c = not (ltb 57 c || ltb c 48)

-- The loop from index i with n rounds to go.
unfoldable pub points_loop : List ℕ → ℕ → ℕ → ℕ → Bool
points_loop a zero i num_of_point = true
points_loop a (suc n) i num_of_point =
    let digit = points_loop a n (i + 1) num_of_point in
    let point = points_loop a n (i + 1) (num_of_point + 1) in
    if is_digit (get_or a i 0)
    then digit
    else if get_or a i 0 == 46
    then if ltb 1 (num_of_point + 1) then false else point
    else false

unfoldable pub check : List ℕ → Bool
unfolding points_loop
check a =
    if leb (length a) 0
    then false
    else if not (is_digit (get_or a (length a - 1) 0))
    then false
    else if not (is_digit (get_or a 0 0))
    then false
    else points_loop a (length a - 1 - 1) 1 0
