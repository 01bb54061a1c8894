-- ===== src/Bootloader/Detect/All.antt =====
-- When no entry is skipped, all are found.
use myos_io.Base.{
  ℕ, suc, ◌+◌, ◌%◌, ◌<◌, ◌≤◌, ◌≡◌, ◌≢◌, ◌⊎◌, inl, inr, ◌∙◌, ap, false, List, [], ◌∷◌, length, ◌==◌,
  if◌then◌else◌, update, arith,
}
use myos_io.Mm.Init.{E820Entry}
use myos_io.Bootloader.Detect.{Answer, Detected, found, go_on, detect_loop, di_entrys}

-- An answer whose entry is kept.
abbrev pub IsGood : Answer → Type 0
IsGood r =
    (r.carry ≡ false)
    × (r.eax ≡ 0x534d_4150)
    × (0 < r.entry.size)
    × ((r.cl ≡ 20) ⊎ ((r.cl ≡ 24) × (r.entry.extend % 2 ≡ 1)))

-- The answers to a map of which no entry is skipped: ebx is 0 with the last one.
abbrev pub AllGood : List Answer → Type 0
AllGood [] = ⊥
AllGood (r ∷ []) = IsGood r × (r.ebx ≡ 0)
AllGood (r ∷ s ∷ rs) = IsGood r × (r.ebx ≢ 0) × AllGood (s ∷ rs)

-- The entry as it is kept: one of 20 bytes has no extend, which is set to 1.
abbrev pub kept : Answer → E820Entry
kept r = if r.cl == 20 then record r.entry { extend = 1 } else r.entry

-- From num on the entries are those of the answers.
abbrev pub Holds : ℕ → List Answer → (ℕ → E820Entry) → Type 0
Holds num [] m = Unit
Holds num (r ∷ rs) m = (m num ≡ kept r) × Holds (num + 1) rs m

module _ (limit : ℕ) where
  round :
      (r : Answer) (rs : List Answer) (m : ℕ → E820Entry) (num : ℕ)
      → IsGood r
      → num < limit
      → num < di_entrys
      → (m' : ℕ → E820Entry) × (m' num ≡ kept r)
        × ((i : ℕ) → i < num → m' i ≡ m i)
        × (detect_loop limit (r ∷ rs) m num num
            ≡ go_on limit r (num + 1) m' (detect_loop limit rs m' (num + 1) (num + 1)))
  unfolding detect_loop
  round r rs m num (carry, eax, size, inl cl) lt in_di =
      let written = update m num r.entry in
      (
        update written num (record (written num) { extend = 1 }),
        ground (arith, cl),
        (λ i below. ground (arith, below)),
        ground (arith, carry, eax, size, cl, lt, in_di),
      )
  round r rs m num (carry, eax, size, inr (cl, ext)) lt in_di = (
    update m num r.entry,
    ground (arith, cl),
    (λ i below. ground (arith, below)),
    ground (arith, carry, eax, size, cl, ext, lt, in_di),
  )

  go_on_last :
      (r : Answer) (num : ℕ) (m : ℕ → E820Entry) (again : Detected)
      → r.ebx ≡ 0
      → 0 < num
      → go_on limit r num m again ≡ found num m
  go_on_last r num m again done h = ground (arith, done, h)

  go_on_next :
      (r : Answer) (num : ℕ) (m : ℕ → E820Entry) (again : Detected)
      → r.ebx ≢ 0
      → num < limit
      → go_on limit r num m again ≡ again
  go_on_next r num m again more h = ground (arith, more, h)

  -- When the firmware's answers are all kept and there is room for them, in the array and below the
  -- 2730 entries that es:di reaches, detect_memory_e820 finds them all, in order, behind the entries
  -- it has already.
  pub detect_loop-all :
      (rs : List Answer) (m : ℕ → E820Entry) (num : ℕ)
      → AllGood rs
      → num + length rs ≤ limit
      → num + length rs ≤ di_entrys
      → (m' : ℕ → E820Entry) × (detect_loop limit rs m num num ≡ found (num + length rs) m')
        × Holds num rs m'
        × ((i : ℕ) → i < num → m' i ≡ m i)
  detect_loop-all [] m num good room di = elim good [ ]
  detect_loop-all (r ∷ []) m num (good, done) room di =
      let (m', here, before, e) = round r [] m num good (omega (arith, room)) (omega (arith, di)) in
      (
        m',
        e
            ∙ go_on_last r (num + 1) m' (detect_loop limit [] m' (num + 1) (num + 1)) done
                (omega arith),
        (here, tt),
        before,
      )
  detect_loop-all (r ∷ s ∷ rs) m num (good, more, goods) room di =
      let (m1, here, before, e) =
        round r (s ∷ rs) m num good (omega (arith, room)) (omega (arith, di)) in
      let (m', f, holds, keeps) =
        detect_loop-all (s ∷ rs) m1 (num + 1) goods (omega (arith, room)) (omega (arith, di)) in
      let count : num + 1 + suc (length rs) ≡ num + suc (suc (length rs)) = omega arith in
      (
        m',
        e
            ∙ go_on_next r (num + 1) m1 (detect_loop limit (s ∷ rs) m1 (num + 1) (num + 1)) more
                (omega (arith, room))
            ∙ f
            ∙ ap (λ k. found k m') count,
        (keeps num (omega arith) ∙ here, holds),
        λ i lt. keeps i (omega (arith, lt)) ∙ before i lt,
      )
