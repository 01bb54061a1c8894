-- ===== src/Mutex/Close.antt =====
-- The compare-exchange that frees the mutex.
use native.Mathlib.Decide.{ℕ_discrete}
use myos_io.Base.{
  ◌∙◌, sym, ℕ, ◌+◌, ◌<◌, ◌≤◌, ◌≡◌, ◌≢◌, inl, inr, refl, ap, none, some, true, false, update, arith,
  Option-cases,
}
use myos_io.Mutex.Defs.{null, front, Store, Stage, client, asleep, closing}
use myos_io.Mutex.Line.{Line, Knows, Heads, lines_up, IsSound}
use myos_io.Mutex.Quiet.{update_past, Knows-frame, update_all, subject}
use myos_io.Mutex.Reads.{know}

module _ {q : Line} {m : Store} {stage : ℕ → Stage} (inv : IsSound q m stage) (i : ℕ) where
  open inv use {placed, filled, unready, knows, waiting, linked}

  -- The only thread of the line frees the mutex.
  module _ (e : stage i ≡ closing) (still : m.wait_end ≡ front) where
    abbrev shorter : Line
    shorter = record q { head = q.head + 1 }

    abbrev freed : Store
    freed = record m { wait_end = null }

    own : Heads q i true × (m.owner ≡ none)
    own = know inv i e

    stood : (q.head ≤ q.place i) × (q.place i < q.tail) × (q.at (q.place i) ≡ i)
    stood = placed i (ap lines_up e)

    only : q.tail ≡ q.head + 1
    only = let end = inv.held (omega (arith, stood)) in ground (arith, still, end, stood, own)

    no_other : (j : ℕ) → i ≢ j → lines_up (stage j) ≡ true → ⊥
    no_other j n l = ground (arith, l, only, own, stood, placed j)

    sleep_kept : (j : ℕ) → stage j ≡ asleep → update stage i (client false) j ≡ asleep
    sleep_kept =
        update_all (λ w x. stage w ≡ asleep → x ≡ asleep) (λ s. absurd (ground (arith, e, s)))
          (λ j n s. s)

    closes-Knows :
        (j : ℕ)
        → i ≢ j
        → (x : Stage) → (lines_up x ≡ true → ⊥)
        → Knows q m stage j x
        → Knows shorter freed stage j x
    closes-Knows j n x out k = ground (arith, e, only, own, stood)

    nothing_waits : (j : ℕ) → m.waiters ≢ some j
    nothing_waits j h = let (_, n) = waiting j h in omega (arith, n.behind, only)

    waiters_none : m.waiters ≡ none
    waiters_none = elim (Option-cases m.waiters) [
      | inl e ↦ e
      | inr (j, h) ↦ absurd (nothing_waits j h)
    ]

    nobody_sleeps : (j : ℕ) → update stage i (client false) j ≡ asleep → ⊥
    nobody_sleeps j s = elim (ℕ_discrete i j) [
      | yes same ↦ ground (arith, same, s)
      | no n ↦ no_other j n (ap lines_up (sym (update_past stage (client false) n) ∙ s))
    ]

    pub close-IsSound : IsSound shorter freed (update stage i (client false))
    close-IsSound = record {
      joined_node = λ j s past f. absurd (nobody_sleeps j s);
      joined_front = λ j s k l. absurd (nobody_sleeps j s);
      passing = λ h. absurd (omega (arith, h, only));
      ordered = omega (arith, only);
      free = λ z. (refl, waiters_none, own.1);
      held = λ h. absurd (omega (arith, h, only));
      placed = λ j l. absurd (ground (arith, l, no_other j));
      filled = λ k lo hi. absurd (omega (arith, lo, hi, only));
      unready =
          update_all (λ j x. x ≢ asleep → m.schedulable j ≡ false) (λ n. unready i (λ s. cc))
            (λ j n. unready j);
      knows =
          update_all (Knows shorter freed (update stage i (client false)))
            (λ o. ground (arith, o, own))
            (λ j n.
              Knows-frame shorter freed stage (update stage i (client false)) j (stage j)
                (sleep_kept (subject (stage j)))
                (closes-Knows j n (stage j) (no_other j n) (knows j)));
      waiting = λ j h. absurd (nothing_waits j h);
      linked = λ a b l f h. absurd (ground (arith, l, no_other a));
    }
