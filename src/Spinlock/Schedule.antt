-- ===== src/Spinlock/Schedule.antt =====
-- The calls of the spin lock can always be brought to their end.
use native.Mathlib.Decide.{ℕ_discrete}
use myos_io.Base.{
  ℕ, zero, suc, ◌+◌, ◌<◌, ◌≤◌, ◌≡◌, ◌≢◌, refl, ap, inl, inr, ◌⊎◌, true, false, Bool-cases, Option,
  none, some, Option-cases, update, arith,
}
use myos_io.Spinlock.Defs.{
  Memory, Pc, outside, linking, waiting, entered, releasing, released, handing, granting, returned,
  unreachable, System, Move, swap_free, swap_held, link, spin, enter, is_last, not_last, cas_win,
  cas_lose, no_next, has_next, wait_next, got_next, grant, Step, pick, Steps, start, later, Reach,
  queued, spins,
}
use myos_io.Spinlock.Safety.{never_unreachable, no_deadlock}

-- How many steps a call has before it at most, rounds of the loops aside.
abbrev pub steps_left : Pc → ℕ
steps_left outside = 7
steps_left (linking _) = 6
steps_left (waiting _) = 5
steps_left entered = 4
steps_left releasing = 3
steps_left released = 1
steps_left handing = 2
steps_left (granting _) = 1
steps_left returned = 0
steps_left unreachable = 0

-- A step is a round of a loop, which changes nothing, or brings its call nearer to its end.
Move-steps_left :
    {m : Memory} {i : ℕ} {p p' : Pc} {m' : Memory}
    → Move m i p m' p'
    → ((spins m i p ≡ true) × (p' ≡ p) × (m' ≡ m))
      ⊎ ((spins m i p ≡ false) × (steps_left p' < steps_left p))
Move-steps_left (spin g) = inl (ground (arith, g), refl, refl)
Move-steps_left (wait_next g) = inl (ground (arith, g), refl, refl)
Move-steps_left (enter g) = inr (ground (arith, g), omega arith)
Move-steps_left (got_next g) = inr (ground (arith, g), omega arith)
Move-steps_left mv = inr (refl, omega arith)

holds : (o : Option ℕ) (i : ℕ) → (o ≡ some i) ⊎ (o ≢ some i)
holds none i = inr (λ e. cc)
holds (some j) i = elim (ℕ_discrete j i) [
  | yes e ↦ inl (ap some e)
  | no n ↦ inr (λ e. ground (arith, e, n))
]

-- A call that has not ended has a step.
some_step :
    (m : Memory) (i : ℕ) (p : Pc)
    → p ≢ returned
    → p ≢ unreachable
    → (m' : Memory) × (p' : Pc) × Move m i p m' p'
some_step m i outside a b = elim (Option-cases m.spin_mutex) [
  | inl free ↦ (_, _, swap_free free)
  | inr (j, held) ↦ (_, _, swap_held held)
]
some_step m i (linking p) a b = (_, _, link)
some_step m i (waiting p) a b = elim (Bool-cases (m.is_locked i)) [
  | inl on ↦ (_, _, enter on)
  | inr off ↦ (_, _, spin off)
]
some_step m i entered a b = elim (holds m.spin_mutex i) [
  | inl e ↦ (_, _, is_last e)
  | inr n ↦ (_, _, not_last n)
]
some_step m i releasing a b = elim (holds m.spin_mutex i) [
  | inl e ↦ (_, _, cas_win e)
  | inr n ↦ (_, _, cas_lose n)
]
some_step m i released a b = elim (Option-cases (m.next i)) [
  | inl e ↦ (_, _, no_next e)
  | inr (j, e) ↦ (_, _, has_next (λ n. cc))
]
some_step m i handing a b = elim (Option-cases (m.next i)) [
  | inl e ↦ (_, _, wait_next e)
  | inr (j, e) ↦ (_, _, got_next e)
]
some_step m i (granting j) a b = (_, _, grant)
some_step m i returned a b = absurd (a refl)
some_step m i unreachable a b = absurd (b refl)

-- The steps that the first n calls have before them.
total : ℕ → (ℕ → Pc) → ℕ
total zero pc = 0
total (suc n) pc = total n pc + steps_left (pc n)

total-update :
    (n : ℕ) (pc : ℕ → Pc) (i : ℕ) (p : Pc)
    → (i < n → total n (update pc i p) + steps_left (pc i) ≡ total n pc + steps_left p)
      × (n ≤ i → total n (update pc i p) ≡ total n pc)
unfolding total
total-update zero pc i p = (λ h. absurd (omega arith), λ h. refl)
total-update (suc n) pc i p =
    let (inside, past) = total-update n pc i p in
    (λ h. ground (arith, inside, past), λ h. ground (arith, past))

-- The first n calls have returned.
abbrev pub AllReturned : ℕ → (ℕ → Pc) → Type 0
AllReturned zero pc = Unit
AllReturned (suc n) pc = AllReturned n pc × (pc n ≡ returned)

-- A call that has not returned, or none.
returned? : (p : Pc) → (p ≡ returned) ⊎ (p ≢ returned)
returned? returned = inl refl
returned? outside = inr (λ e. cc)
returned? (linking _) = inr (λ e. cc)
returned? (waiting _) = inr (λ e. cc)
returned? entered = inr (λ e. cc)
returned? releasing = inr (λ e. cc)
returned? released = inr (λ e. cc)
returned? handing = inr (λ e. cc)
returned? (granting _) = inr (λ e. cc)
returned? unreachable = inr (λ e. cc)

unreturned : (n : ℕ) (pc : ℕ → Pc) → AllReturned n pc ⊎ ((i : ℕ) × (i < n) × (pc i ≢ returned))
unreturned zero pc = inl tt
unreturned (suc n) pc = elim (unreturned n pc) [
  | inr (i, lt, ne) ↦ inr (i, omega arith, ne)
  | inl all ↦ elim (returned? (pc n)) [ inl e ↦ inl (all, e) | inr ne ↦ inr (n, omega arith, ne) ]
]

-- A call among the first n that has a step other than a round of a loop.
movable :
    (n : ℕ) (s : System) (r : Reach s)
    → ((i : ℕ) → n ≤ i → s.pc i ≡ outside)
    → (i : ℕ) → i < n
    → s.pc i ≢ returned
    → (j : ℕ) × (j < n) × (s.pc j ≢ returned) × (spins s.mem j (s.pc j) ≡ false)
movable n s r rest i lt ne = elim (Bool-cases (queued (s.pc i))) [
  | inl waits ↦
      let (j, in_queue, moves) = no_deadlock r i waits in
      (j, ground (arith, in_queue, rest j), λ e. ground (arith, in_queue, e), moves)
  | inr alone ↦ (i, lt, ne, ground (arith, alone))
]

trans : {s t u : System} → Steps s t → Steps t u → Steps s u
trans a start = a
trans a (later b st) = later (trans a b) st

-- A step after which fewer are left.
record Nearer (n : ℕ) (s : System) : Type 0 where
  next : System
  step : Step s next
  fewer : total n next.pc < total n s.pc
  still : (i : ℕ) → n ≤ i → next.pc i ≡ outside

nearer :
    (n : ℕ) (s : System) (r : Reach s)
    → ((i : ℕ) → n ≤ i → s.pc i ≡ outside)
    → (i : ℕ) → i < n
    → s.pc i ≢ returned
    → Nearer n s
nearer n s r rest i lt ne =
    let (j, below, not_done, moves) = movable n s r rest i lt ne in
    let (m, p, mv) = some_step s.mem j (s.pc j) not_done (never_unreachable r j) in
    let less : steps_left p < steps_left (s.pc j) = elim (Move-steps_left mv) [
      | inl (stays, same, unchanged) ↦ absurd (ground (arith, stays, moves))
      | inr (goes, less) ↦ less
    ] in
    record {
      next = record { mem = m; pc = update s.pc j p };
      step = pick j mv;
      fewer = omega (arith, (total-update n s.pc j p).0 below, less);
      still = λ k past. ground (arith, below, past, rest k past);
    }

finish :
    (k n : ℕ) (s : System)
    → Reach s
    → ((i : ℕ) → n ≤ i → s.pc i ≡ outside)
    → total n s.pc ≤ k
    → (t : System) × Steps s t × AllReturned n t.pc
finish zero n s r rest bound = elim (unreturned n s.pc) [
  | inl all ↦ (s, start, all)
  | inr (i, lt, ne) ↦ absurd (omega (arith, (nearer n s r rest i lt ne).fewer, bound))
]
finish (suc k) n s r rest bound = elim (unreturned n s.pc) [
  | inl all ↦ (s, start, all)
  | inr (i, lt, ne) ↦
      let near = nearer n s r rest i lt ne in
      let (t, more, all) =
        finish k n near.next (later r near.step) near.still (omega (arith, near.fewer, bound)) in
      (t, trans (later start near.step) more, all)
]

-- No call is ever caught: from every reachable state of n calls, some further steps bring all of
-- them to their return.
pub can_finish :
    (n : ℕ) (s : System)
    → Reach s
    → ((i : ℕ) → n ≤ i → s.pc i ≡ outside)
    → (t : System) × Steps s t × AllReturned n t.pc
can_finish n s r rest = finish (total n s.pc) n s r rest (omega arith)
