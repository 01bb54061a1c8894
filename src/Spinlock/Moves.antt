-- ===== src/Spinlock/Moves.antt =====
-- Each step keeps the fields of the invariant.
use mathlib.Core.Path.{subst}
use myos_io.Base.{
  ℕ, ◌+◌, ◌-◌, ◌<◌, ◌≤◌, ◌≡◌, ◌≢◌, refl, none, some, true, false, update, arith, Option-cases, inl,
  inr,
}
use myos_io.Spinlock.Defs.{
  Memory, Pc, linking, releasing, granting, queued, Move, System, pick, init, Reach, start, later,
  swap_free, swap_held, link, spin, enter, is_last, not_last, cas_win, cas_lose, no_next, has_next,
  wait_next, got_next, grant,
}
use myos_io.Spinlock.Queue.{Queue, Local, Follows, Inv}

-- The exchange puts a call at the end; the compare-exchange and the store to is_locked take the
-- first one off.
abbrev pub moved : {m : Memory} {i : ℕ} {p p' : Pc} {m' : Memory} → Queue → Move m i p m' p' → Queue
moved {i} q (swap_free _) = record q {
  at = update q.at q.tail i;
  place = update q.place i q.tail;
  tail = q.tail + 1;
}
moved {i} q (swap_held _) = record q {
  at = update q.at q.tail i;
  place = update q.place i q.tail;
  tail = q.tail + 1;
}
moved q (cas_win _) = record q { head = q.head + 1 }
moved q grant = record q { head = q.head + 1 }
moved q _ = q

-- The premise of a step, for the clauses that do not name it.
abbrev Guard : {m : Memory} {i : ℕ} {p p' : Pc} {m' : Memory} → Move m i p m' p' → Type 0
Guard {m} (swap_free _) = m.spin_mutex ≡ none
Guard {m} (swap_held {p} _) = m.spin_mutex ≡ some p
Guard {m} {i} (spin _) = m.is_locked i ≡ false
Guard {m} {i} (enter _) = m.is_locked i ≡ true
Guard {m} {i} (is_last _) = m.spin_mutex ≡ some i
Guard {m} {i} (not_last _) = m.spin_mutex ≢ some i
Guard {m} {i} (cas_win _) = m.spin_mutex ≡ some i
Guard {m} {i} (cas_lose _) = m.spin_mutex ≢ some i
Guard {m} {i} (no_next _) = m.next i ≡ none
Guard {m} {i} (has_next _) = m.next i ≢ none
Guard {m} {i} (wait_next _) = m.next i ≡ none
Guard {m} {i} (got_next {j} _) = m.next i ≡ some j
Guard _ = Unit

guard : {m : Memory} {i : ℕ} {p p' : Pc} {m' : Memory} (mv : Move m i p m' p') → Guard mv
guard (swap_free g) = g
guard (swap_held g) = g
guard (spin g) = g
guard (enter g) = g
guard (is_last g) = g
guard (not_last g) = g
guard (cas_win g) = g
guard (cas_lose g) = g
guard (no_next g) = g
guard (has_next g) = g
guard (wait_next g) = g
guard (got_next g) = g
guard _ = tt

module _ {q : Queue} {m : Memory} {pc : ℕ → Pc} (inv : Inv q m pc) (i : ℕ) where
  open inv use {ordered, mutex_free, mutex_held, placed, filled, local, linked}

  -- What the mover knows before it moves.
  abbrev Mover : Pc → Type 0
  Mover p = (pc i ≡ p) × Local q m i p

  -- Where the lock is held, the last call of the queue is the one in the mutex.
  Move-ordered :
      {p p' : Pc} {m' : Memory} (mv : Move m i p m' p')
      → Mover p
      → (moved q mv).head ≤ (moved q mv).tail
  Move-ordered (swap_free g) f = omega arith
  Move-ordered mv f = ground (arith, placed i)

  Move-mutex_free :
      {p p' : Pc} {m' : Memory} (mv : Move m i p m' p')
      → Mover p
      → (moved q mv).head ≡ (moved q mv).tail
      → m'.spin_mutex ≡ none
  Move-mutex_free (swap_free g) f e = absurd (omega (arith, ordered))
  Move-mutex_free (grant {j}) f e = ground (arith, linked i j, placed i)
  Move-mutex_free mv f e =
      ground (arith, guard mv, mutex_free, mutex_held, placed i, filled (q.tail - 1))

  Move-mutex_held :
      {p p' : Pc} {m' : Memory} (mv : Move m i p m' p')
      → Mover p
      → (moved q mv).head < (moved q mv).tail
      → m'.spin_mutex ≡ some ((moved q mv).at ((moved q mv).tail - 1))
  Move-mutex_held (swap_free g) f e = ground arith
  Move-mutex_held mv f e =
      ground (arith, guard mv, mutex_free, mutex_held, placed i, filled (q.tail - 1))

  Move-placed :
      {p p' : Pc} {m' : Memory} (mv : Move m i p m' p')
      → Mover p
      → (j : ℕ) → queued (update pc i p' j) ≡ true
      → ((moved q mv).head ≤ (moved q mv).place j)
        × ((moved q mv).place j < (moved q mv).tail)
        × ((moved q mv).at ((moved q mv).place j) ≡ j)
  Move-placed (swap_free g) f j e = ground (arith, mutex_free, mutex_held, ordered, placed j)
  Move-placed mv f j e =
      ground (arith, guard mv, mutex_free, mutex_held, ordered, placed i, placed j)

  Move-filled :
      {p p' : Pc} {m' : Memory} (mv : Move m i p m' p')
      → Mover p
      → (k : ℕ) → (moved q mv).head ≤ k
      → k < (moved q mv).tail
      → (queued (update pc i p' ((moved q mv).at k)) ≡ true)
        × ((moved q mv).place ((moved q mv).at k) ≡ k)
  Move-filled (swap_free g) f k h e =
      ground (arith, mutex_free, mutex_held, ordered, placed i, filled k)
  Move-filled mv f k h e =
      ground (arith, guard mv, mutex_free, mutex_held, ordered, placed i, filled k)

  -- The members that other calls read are not written.
  link-Local :
      (p j : ℕ)
      → Mover (linking p)
      → i ≢ j
      → (x : Pc) → pc j ≡ x
      → Local q m j x
      → Local q (record m { next = update m.next p (some i) }) j x
  link-Local p j f ne (granting t) e l =
      ground (arith, placed i, placed j, filled (q.place i - 1), linked j t)
  link-Local p j f ne x e l =
      ground (arith, placed i, placed j, filled (q.place i - 1), filled (q.place j - 1))

  grant-Local :
      (t j : ℕ)
      → Mover (granting t)
      → i ≢ j
      → (x : Pc) → pc j ≡ x
      → Local q m j x
      → Local
          (record q { head = q.head + 1 })
          (record m { is_locked = update m.is_locked t true })
          j
          x
  grant-Local t j f ne x e l =
      ground (arith, placed i, placed j, linked i t, linked j t, filled (q.place j - 1))

  -- The call that the mutex holds is the only one in the queue, if it owns the lock, and no other
  -- has stored its member in next.
  alone : m.spin_mutex ≡ some i → Mover releasing → q.tail ≡ q.head + 1
  alone g f = ground (arith, mutex_held, placed i, filled (q.tail - 1))

  alone-next : m.spin_mutex ≡ some i → Mover releasing → m.next i ≡ none
  alone-next g f = elim (Option-cases (m.next i)) [
    | inl empty ↦ empty
    | inr (b, full) ↦ ground (arith, alone g f, placed i, linked i b)
  ]

  Move-Local :
      {p p' : Pc} {m' : Memory} (mv : Move m i p m' p')
      → Mover p
      → (j : ℕ) → Local (moved q mv) m' j (update pc i p' j)
  Move-Local (swap_free g) f j = ground (arith, mutex_free, mutex_held, ordered, placed j, local j)
  Move-Local (link {p}) f j =
      ground (arith, placed i, λ (n : i ≢ j). link-Local p j f n (pc j) refl (local j))
  Move-Local (grant {j = t}) f j = ground (
    arith,
    placed i,
    placed t,
    linked i t,
    λ (n : i ≢ j). grant-Local t j f n (pc j) refl (local j),
  )
  Move-Local (cas_win g) f j =
      ground (arith, alone g f, alone-next g f, placed i, placed j, local j)
  Move-Local mv f j =
      ground
        (arith, guard mv, mutex_free, mutex_held, ordered, placed i, placed j, local j, linked i)

  Move-linked :
      {p p' : Pc} {m' : Memory} (mv : Move m i p m' p')
      → Mover p
      → (a b : ℕ) → queued (update pc i p' a) ≡ true
      → m'.next a ≡ some b
      → Follows (moved q mv) m' (update pc i p') a b
  Move-linked (swap_free g) f a b e n =
      ground (arith, mutex_free, mutex_held, ordered, placed a, linked a b)
  Move-linked (link {p}) f a b e n =
      ground (arith, placed i, placed a, linked a b, filled (q.place i - 1))
  Move-linked mv f a b e n =
      ground (
        arith,
        guard mv,
        mutex_free,
        mutex_held,
        ordered,
        placed i,
        placed a,
        linked a b,
        linked i b,
      )

  pub Move-Inv :
      {p p' : Pc} {m' : Memory} (mv : Move m i p m' p')
      → pc i ≡ p
      → Inv (moved q mv) m' (update pc i p')
  Move-Inv {p} mv e =
      let f : Mover p = (e, subst (Local q m i) e (local i)) in
      record {
        ordered = Move-ordered mv f;
        mutex_free = Move-mutex_free mv f;
        mutex_held = Move-mutex_held mv f;
        placed = Move-placed mv f;
        filled = Move-filled mv f;
        local = Move-Local mv f;
        linked = Move-linked mv f;
      }

pub Inv-init :
    (n : ℕ) → Inv (record { at = λ k. k; place = λ k. k; head = n; tail = n }) init.mem init.pc
Inv-init n = record {
  ordered = omega arith;
  mutex_free = λ e. refl;
  mutex_held = λ e. absurd (omega arith);
  placed = λ i e. cc;
  filled = λ k h e. absurd (omega arith);
  local = λ i. (refl, refl);
  linked = λ i j e n. cc;
}

-- Every reachable state has its queue.
pub Reach-Inv : {s : System} → Reach s → (q : Queue) × Inv q s.mem s.pc
Reach-Inv start = (_, Inv-init 0)
Reach-Inv (later r (pick i mv)) = let (q, inv) = Reach-Inv r in (moved q mv, Move-Inv inv i mv refl)
