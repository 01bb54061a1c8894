-- ===== src/Spinlock/Safety.antt =====
-- What the spin lock promises in every reachable state.
use myos_io.Base.{
  ℕ, ◌+◌, ◌-◌, ◌<◌, ◌≡◌, ◌≢◌, sym, ◌∙◌, ◌⊎◌, inl, inr, true, false, Bool-cases, none, arith,
}
use myos_io.Spinlock.Defs.{
  Memory, Pc, linking, handing, granting, unreachable, System, Reach, owns, queued, is_live, spins,
}
use myos_io.Spinlock.Queue.{Queue, Inv}
use myos_io.Spinlock.Moves.{Reach-Inv}

module _ {q : Queue} {m : Memory} {pc : ℕ → Pc} (inv : Inv q m pc) where
  open inv use {placed, filled, local, linked}

  -- The owner is the first of the queue.
  owner_first : (i : ℕ) → owns (pc i) ≡ true → q.at q.head ≡ i
  owner_first i e = ground (arith, local i, placed i)

  not_unreachable : (i : ℕ) → pc i ≢ unreachable
  not_unreachable i e = ground (arith, local i)

  written_live : (i j : ℕ) → (pc i ≡ linking j) ⊎ (pc i ≡ granting j) → is_live (pc j) ≡ true
  written_live i j (inl e) = ground (arith, local i, placed i, filled (q.place i - 1))
  written_live i j (inr e) = ground (arith, local i, placed i, linked i j)

  -- The first call of the queue, or the one behind it, has a step that is no round of a loop.
  first_moves :
      (i : ℕ) → queued (pc i) ≡ true → (j : ℕ) × (queued (pc j) ≡ true) × (spins m j (pc j) ≡ false)
  first_moves i e =
      let h = q.at q.head in
      let first : (queued (pc h) ≡ true) × (q.place h ≡ q.head) =
        ground (arith, placed i, filled q.head) in
      elim (Bool-cases (spins m h (pc h))) [
        | inr moves ↦ (h, first.0, moves)
        | inl stuck ↦
            let hands : (pc h ≡ handing) × (m.next h ≡ none) × (q.head + 1 < q.tail) =
              ground (arith, stuck, first, local h) in
            let k = q.at (q.head + 1) in
            let second : (queued (pc k) ≡ true) × (q.place k ≡ q.head + 1) =
              ground (arith, hands, filled (q.head + 1)) in
            (k, second.0, ground (arith, hands, second, local k))
      ]

module _ {s : System} (r : Reach s) where
  -- In every reachable state, two calls that hold the lock are the same call.
  pub mutual_exclusion : (i j : ℕ) → owns (s.pc i) ≡ true → owns (s.pc j) ≡ true → i ≡ j
  mutual_exclusion i j in_i in_j =
      let (q, inv) = Reach-Inv r in sym (owner_first inv i in_i) ∙ owner_first inv j in_j

  -- In every reachable state, no call is at __builtin_unreachable.
  pub never_unreachable : (i : ℕ) → s.pc i ≢ unreachable
  never_unreachable i = let (q, inv) = Reach-Inv r in not_unreachable inv i

  -- In every reachable state, the member into which a call is about to store, to its next or its
  -- is_locked, belongs to a call that has not returned.
  pub stores_are_safe :
      (i j : ℕ) → (s.pc i ≡ linking j) ⊎ (s.pc i ≡ granting j) → is_live (s.pc j) ≡ true
  stores_are_safe i j e = let (q, inv) = Reach-Inv r in written_live inv i j e

  -- No deadlock: in every reachable state with a call in the queue, some call in the queue has a
  -- next step that is no round of a loop.
  pub no_deadlock :
      (i : ℕ)
      → queued (s.pc i) ≡ true
      → (j : ℕ) × (queued (s.pc j) ≡ true) × (spins s.mem j (s.pc j) ≡ false)
  no_deadlock i e = let (q, inv) = Reach-Inv r in first_moves inv i e
