-- ===== src/Mm/CheckMap.antt =====
-- check_map of mm/mm.c says of a whole range what pt_is_map says of each page.
use myos_io.Base.{
  ℕ, zero, suc, ◌+◌, ◌*◌, ◌/◌, ◌<◌, ◌≡◌, ◌⊎◌, ◌↔◌, inl, inr, refl, sym, ap, ◌∙◌, Bool, true, false,
  not, arith, ◌==◌, if◌then◌else◌, add64, add64_exact, word,
}
use myos_io.Mm.State.{page_size, Mm, aborted, ok}
use myos_io.Mm.PageTable.{pt_is_map}
use myos_io.Mm.Pages.{
  MapState, no_mapped, all_mapped, part_mapped, agree, check_map_lock_routine, check_map,
  is_kernel_range,
}

-- Every page of the range has this answer.
abbrev pub AllAre : Mm → Bool → ℕ → ℕ → Type 0
AllAre s b v_addr num = (i : ℕ) → i < num → pt_is_map s (v_addr + i * page_size) ≡ b

-- What the answer says.
abbrev pub Describes : Mm → ℕ → ℕ → MapState → Type 0
Describes s v_addr num no_mapped = AllAre s false v_addr num
Describes s v_addr num all_mapped = AllAre s true v_addr num
Describes s v_addr num part_mapped =
    (i : ℕ) × (j : ℕ) × (i < num)
    × (j < num)
    × (pt_is_map s (v_addr + i * page_size) ≡ true)
    × (pt_is_map s (v_addr + j * page_size) ≡ false)

abbrev same : Bool → Bool → Bool → Bool
same x b rest = if x then (if b then rest else false) else (if b then false else rest)

same-true : (x b rest : Bool) → same x b rest ≡ true → (x ≡ b) × (rest ≡ true)
same-true true true rest h = (refl, h)
same-true true false rest h = cc
same-true false true rest h = cc
same-true false false rest h = (refl, h)

same-false : (x b rest : Bool) → same x b rest ≡ false → (x ≡ not b) ⊎ (rest ≡ false)
same-false true true rest h = inr h
same-false true false rest h = inl refl
same-false false true rest h = inl refl
same-false false false rest h = inr h

-- The address of the first page, and of the others.
first : (s : Mm) (v_addr : ℕ) → pt_is_map s (v_addr + 0 * page_size) ≡ pt_is_map s v_addr
first s v_addr = ap (pt_is_map s) (omega arith)

later :
    (s : Mm) (v_addr i : ℕ)
    → v_addr + page_size < word
    → pt_is_map s (add64 v_addr page_size + i * page_size)
      ≡ pt_is_map s (v_addr + suc i * page_size)
later s v_addr i small = ap (pt_is_map s) (omega (arith, add64_exact v_addr page_size small))

pub range-lt-word :
    (addr len : ℕ) → is_kernel_range addr len ≡ true → addr + len / page_size * page_size < word
unfolding is_kernel_range
range-lt-word addr len h = ground arith

agree-AllAre :
    (s : Mm) (b : Bool) (num v_addr : ℕ)
    → v_addr + num * page_size < word
    → agree b v_addr num s ≡ true
    → AllAre s b v_addr num
unfolding agree
agree-AllAre s b zero v_addr small h i lt = absurd (omega arith)
agree-AllAre s b (suc num) v_addr small h zero lt =
    first s v_addr ∙ (same-true (pt_is_map s v_addr) b _ h).0
agree-AllAre s b (suc num) v_addr small h (suc i) lt =
    sym (later s v_addr i (omega arith))
    ∙ agree-AllAre s b num (add64 v_addr page_size)
        (omega (arith, add64_exact v_addr page_size (omega arith)))
        (same-true (pt_is_map s v_addr) b _ h).1 i (omega arith)

disagree :
    (s : Mm) (b : Bool) (num v_addr : ℕ)
    → v_addr + num * page_size < word
    → agree b v_addr num s ≡ false
    → (i : ℕ) × (i < num) × (pt_is_map s (v_addr + i * page_size) ≡ not b)
unfolding agree
disagree s b zero v_addr small h = cc
disagree s b (suc num) v_addr small h = elim (same-false (pt_is_map s v_addr) b _ h) [
  | inl other ↦ (0, omega arith, first s v_addr ∙ other)
  | inr rest ↦
      let (i, lt, e) =
        disagree s b num (add64 v_addr page_size)
          (omega (arith, add64_exact v_addr page_size (omega arith))) rest in
      (suc i, omega arith, sym (later s v_addr i (omega arith)) ∙ e)
]

routine-Describes :
    (s : Mm) (num v_addr : ℕ)
    → 0 < num
    → v_addr + num * page_size < word
    → Describes s v_addr num (check_map_lock_routine v_addr num s)
unfolding check_map_lock_routine
routine-Describes s num v_addr some_page small =
    by_case (pt_is_map s v_addr) (agree (pt_is_map s v_addr) v_addr num s) refl refl
  where
    by_case :
        (b all : Bool)
        → pt_is_map s v_addr ≡ b
        → agree (pt_is_map s v_addr) v_addr num s ≡ all
        → Describes s v_addr num
            (if all then (if b then all_mapped else no_mapped) else part_mapped)
    by_case true true e h = agree-AllAre s true num v_addr small (rw e at h)
    by_case false true e h = agree-AllAre s false num v_addr small (rw e at h)
    by_case true false e h =
        let (i, lt, other) = disagree s true num v_addr small (rw e at h) in
        (0, i, some_page, lt, first s v_addr ∙ e, other)
    by_case false false e h =
        let (i, lt, other) = disagree s false num v_addr small (rw e at h) in
        (i, 0, lt, some_page, other, first s v_addr ∙ e)

-- check_map aborts unless address and length are multiples of the page size, lie in the kernel's
-- range and cover at least one page.
pub check_map-aborted :
    (addr len : ℕ) (s : Mm)
    → (check_map addr len s ≡ aborted)
      ↔ ((is_kernel_range addr len ≡ false) ⊎ (len / page_size ≡ 0))
unfolding check_map
check_map-aborted addr len s = (ground arith, ground arith)

-- For a range that it accepts, check_map leaves the state alone and returns all_mapped if every
-- page of the range is mapped, no_mapped if none is, and part_mapped if one is and another is not.
pub check_map-Describes :
    (addr len : ℕ) (s : Mm)
    → is_kernel_range addr len ≡ true
    → 0 < len / page_size
    → (m : MapState) × (check_map addr len s ≡ ok m s) × Describes s addr (len / page_size) m
unfolding check_map
check_map-Describes addr len s fits some_page =
    let covers : (len / page_size == 0) ≡ false = ground arith in
    (
      check_map_lock_routine addr (len / page_size) s,
      rw (fits, covers),
      routine-Describes s (len / page_size) addr some_page (range-lt-word addr len fits),
    )
