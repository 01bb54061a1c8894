-- ===== src/Mutex/Wake.antt =====
-- The accesses that write whether a thread is schedulable.
use mathlib.Core.Path.{subst}
use myos_io.Base.{inr, inl, ℕ, ◌+◌, ◌≡◌, ◌≢◌, refl, sym, ap, ◌∙◌, some, true, false, update, arith}
use myos_io.Mutex.Defs.{Store, Stage, client, asleep, waking}
use myos_io.Mutex.Line.{emptied, Line, IsNext, IsGiven, Knows, Heads, Sleeper, lines_up, IsSound}
use myos_io.Mutex.Quiet.{
  emptied_still, falls_not, Knows-frame, update_past, update_all, subject, line_same, keeps,
}
use myos_io.Mutex.Reads.{know}

module _ {q : Line} {m : Store} {stage : ℕ → Stage} (inv : IsSound q m stage) (i : ℕ) where
  open inv use {placed, filled, unready, knows, waiting, linked}

  -- A thread that is asleep and wakes up: none is about to read it as the next or to wake it.
  module _ (e : stage i ≡ asleep) (ready : m.schedulable i ≡ true) where
    abbrev woken : Store
    woken = record m { schedulable = update m.schedulable i false }

    heads : Heads q i true × (m.owner ≡ some i)
    heads = subst (Sleeper q m i) ready (know inv i e)

    not_next : (w : ℕ) → IsNext q stage w → i ≢ w
    not_next w n s = ground (arith, heads, n, filled (q.head + 1))

    IsNext-keeps : (w : ℕ) → IsNext q stage w → IsNext q (update stage i (client true)) w
    IsNext-keeps w n = record {
      behind = n.behind;
      there = n.there;
      sleeps = update_past stage (client true) (not_next w n) ∙ n.sleeps;
    }

    wakes-Knows :
        (j : ℕ)
        → i ≢ j
        → (x : Stage) → Knows q m stage j x
        → Knows q woken (update stage i (client true)) j x
    wakes-Knows j n x k = ground (arith, n, ready, IsNext-keeps (subject x))

    line_keeps : (j : ℕ) → lines_up (update stage i (client true) j) ≡ lines_up (stage j)
    line_keeps =
        update_all (λ j x. lines_up x ≡ lines_up (stage j)) (ap lines_up (sym e)) (λ j n. refl)

    slept : (j : ℕ) → update stage i (client true) j ≡ asleep → stage j ≡ asleep
    slept = update_all (λ j x. x ≡ asleep → stage j ≡ asleep) (λ s. e) (λ j n s. s)

    first_waits :
        (j : ℕ) → stage j ≡ asleep → q.place j ≡ q.head + 1 → q.settled ≡ true → m.waiters ≡ some j
    first_waits j s k l =
        let at : q.at q.head ≡ i = ap q.at (sym heads.0.0) ∙ (placed i (ap lines_up e)).2 in
        elim (inv.joined_front j s k l) [
          | inl w ↦ w
          | inr t ↦ absurd (ground (arith, ap emptied (sym e ∙ ap stage (sym at)), t))
        ]

    pub wake_up-IsSound : IsSound q woken (update stage i (client true))
    wake_up-IsSound = record {
      joined_node = λ j s. inv.joined_node j (slept j s);
      joined_front = λ j s k l. inl (first_waits j (slept j s) k l);
      passing = λ h s u. absurd (ground (arith, s, heads, placed i (ap lines_up e)));
      ordered = inv.ordered;
      free = inv.free;
      held = inv.held;
      placed = λ j l. placed j (sym (line_keeps j) ∙ l);
      filled = λ k lo hi. (line_keeps (q.at k) ∙ (filled k lo hi).0, (filled k lo hi).1);
      unready = λ j n. ground (arith, n, unready j);
      knows =
          update_all (Knows q woken (update stage i (client true))) heads
            (λ j n. wakes-Knows j n (stage j) (knows j));
      waiting = λ j h. ((waiting j h).0, IsNext-keeps j (waiting j h).1);
      linked = λ a b l f h.
          let l_a = sym (line_keeps a) ∙ l in
          let n = linked a b l_a f h in
          record {
            behind = n.behind;
            there = n.there;
            sleeps =
                update_past stage (client true)
                  (λ s. ground (arith, s, n, heads, placed a, l_a, filled (q.place a + 1)))
                ∙ n.sleeps;
          };
    }

  -- The thread that has been given the mutex is made schedulable.
  module _ (w : ℕ) (e : stage i ≡ waking w) where
    abbrev roused : Store
    roused = record m { schedulable = update m.schedulable w true }

    given : IsGiven q m stage i w × (m.owner ≡ some w)
    given = know inv i e

    rouses-Knows :
        (j : ℕ)
        → i ≢ j
        → (x : Stage) → (x ≢ asleep → w ≢ j)
        → Knows q m (update stage i (client false)) j x
        → Knows q roused (update stage i (client false)) j x
    rouses-Knows j n x other k = ground (arith, n, given, other, filled q.head)

    line_kept : (j : ℕ) → lines_up (update stage i (client false) j) ≡ lines_up (stage j)
    line_kept = line_same inv i e refl (λ s. cc) (λ s. cc)

    sleep_kept : (j : ℕ) → stage j ≡ asleep → update stage i (client false) j ≡ asleep
    sleep_kept = keeps inv i e refl (λ s. cc) (λ s. cc)

    pub wake-IsSound : IsSound q roused (update stage i (client false))
    wake-IsSound = record {
      joined_node = λ j s. inv.joined_node j (falls_not inv i e refl (λ s. cc) (λ s. cc) j s);
      joined_front = λ j s k l.
          elim (inv.joined_front j (falls_not inv i e refl (λ s. cc) (λ s. cc) j s) k l) [
            | inl w ↦ inl w
            | inr t ↦ inr (emptied_still inv i e refl (λ s. cc) (λ s. cc) (λ t. cc) (q.at q.head) t)
          ];
      passing = λ h s u. absurd (ground (arith, u, given));
      ordered = inv.ordered;
      free = inv.free;
      held = inv.held;
      placed = λ j l. placed j (sym (line_kept j) ∙ l);
      filled = λ k lo hi. (line_kept (q.at k) ∙ (filled k lo hi).0, (filled k lo hi).1);
      unready = λ j n. ground (arith, n, e, given, sleep_kept w, unready j, unready i);
      knows =
          update_all (Knows q roused (update stage i (client false)))
            (λ o. ground (arith, e, o, given))
            (λ j n.
              rouses-Knows j n (stage j) (λ up s. up (ap stage (sym s) ∙ given.0.sleeps))
                (Knows-frame q m stage (update stage i (client false)) j (stage j)
                  (sleep_kept (subject (stage j))) (knows j)));
      waiting = λ j h.
          let (settled, n) = waiting j h in
          (settled, record { behind = n.behind; there = n.there; sleeps = sleep_kept j n.sleeps });
      linked = λ a b l f h.
          let n = linked a b (sym (line_kept a) ∙ l) f h in
          record { behind = n.behind; there = n.there; sleeps = sleep_kept b n.sleeps };
    }
