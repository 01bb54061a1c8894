-- ===== src/Mutex/Settle.antt =====
-- The compare-exchange of a thread that came to an empty line by its own node.
use myos_io.Base.{
  ℕ, ◌+◌, ◌-◌, ◌<◌, ◌≤◌, ◌≡◌, ◌≢◌, refl, sym, ap, ◌∙◌, none, true, false, update, arith,
}
use myos_io.Mutex.Defs.{front, node, Store, Stage, exiting, claimed, asleep}
use myos_io.Mutex.Line.{Line, Knows, Heads, lines_up, IsSound}
use myos_io.Mutex.Quiet.{falls_not, Knows-frame, update_all, subject, line_same, keeps}
use myos_io.Mutex.Reads.{know}

module _ {q : Line} {m : Store} {stage : ℕ → Stage} (inv : IsSound q m stage) (i : ℕ) where
  open inv use {placed, filled, unready, knows, waiting, linked}

  -- A thread that entered its own node alone is entered at the front instead.
  module _ (e : stage i ≡ claimed) (still : m.wait_end ≡ node i) where
    abbrev fronted : Line
    fronted = record q { settled = true }

    abbrev fronted_store : Store
    fronted_store = record m { wait_end = front }

    own : Heads q i false × (m.waiters ≡ none)
    own = know inv i e

    stood : (q.head ≤ q.place i) × (q.place i < q.tail) × (q.at (q.place i) ≡ i)
    stood = placed i (ap lines_up e)

    only : q.tail ≡ q.head + 1
    only =
        let end = inv.held (omega (arith, stood)) in
        ground (arith, still, end, stood, own, filled (q.tail - 1))

    line_kept : (j : ℕ) → lines_up (update stage i exiting j) ≡ lines_up (stage j)
    line_kept = line_same inv i e refl (λ s. cc) (λ s. cc)

    sleep_kept : (j : ℕ) → stage j ≡ asleep → update stage i exiting j ≡ asleep
    sleep_kept = keeps inv i e refl (λ s. cc) (λ s. cc)

    settles-Knows :
        (j : ℕ)
        → i ≢ j
        → (x : Stage) → stage j ≡ x
        → Knows q m stage j x
        → Knows fronted fronted_store stage j x
    settles-Knows j n x e_j k = ground (arith, e, only, own, stood, placed j)

    nobody_sleeps : (j : ℕ) → update stage i exiting j ≡ asleep → q.head < q.place j → ⊥
    nobody_sleeps j s past =
        let slept = falls_not inv i e refl (λ s. cc) (λ s. cc) j s in
        let (lo, hi, here) = placed j (ap lines_up slept) in omega (arith, hi, past, only)

    pub settle-IsSound : IsSound fronted fronted_store (update stage i exiting)
    settle-IsSound = record {
      joined_node = λ j s past f. absurd (nobody_sleeps j s past);
      joined_front = λ j s k l. absurd (nobody_sleeps j s (omega (arith, k)));
      passing = λ h s u. absurd (ground (arith, s, own, stood));
      ordered = inv.ordered;
      free = λ z. absurd (omega (arith, stood, z));
      held = λ h. record {
        as_front = λ k s. refl;
        as_new = λ k s. absurd cc;
        as_node = λ k. absurd (omega (arith, k, only));
      };
      placed = λ j l. placed j (sym (line_kept j) ∙ l);
      filled = λ k lo hi. (line_kept (q.at k) ∙ (filled k lo hi).0, (filled k lo hi).1);
      unready =
          update_all (λ j x. x ≢ asleep → m.schedulable j ≡ false) (λ n. unready i (λ s. cc))
            (λ j n. unready j);
      knows =
          update_all (Knows fronted fronted_store (update stage i exiting)) (own.0.0, refl)
            (λ j n.
              Knows-frame fronted fronted_store stage (update stage i exiting) j (stage j)
                (sleep_kept (subject (stage j))) (settles-Knows j n (stage j) refl (knows j)));
      waiting = λ j h.
          let (_, n) = waiting j h in
          (refl, record { behind = n.behind; there = n.there; sleeps = sleep_kept j n.sleeps });
      linked = λ a b l f h.
          let n = linked a b (sym (line_kept a) ∙ l) (λ s. f refl) h in
          record { behind = n.behind; there = n.there; sleeps = sleep_kept b n.sleeps };
    }
