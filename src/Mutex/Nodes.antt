-- ===== src/Mutex/Nodes.antt =====
-- The accesses that write the node of a thread.
use mathlib.Core.Path.{subst}
use native.Mathlib.Decide.{ℕ_discrete}
use myos_io.Base.{
  inr, inl, ℕ, ◌+◌, ◌-◌, ◌<◌, ◌≤◌, ◌≡◌, ◌≢◌, refl, sym, ap, ◌∙◌, none, some, true, false, update,
  arith,
}
use myos_io.Mutex.Defs.{node, Store, Stage, looking, clearing, adopting, linking, asleep, shifting}
use myos_io.Mutex.Line.{emptied, Line, Knows, Sleeper, Behind, lines_up, IsSound, Follows}
use myos_io.Mutex.Quiet.{
  emptied_still, falls_not, Knows-frame, update_here, update_past, update_all, subject, line_same,
  keeps,
}
use myos_io.Mutex.Reads.{know}

module _ {q : Line} {m : Store} {stage : ℕ → Stage} (inv : IsSound q m stage) (i : ℕ) where
  open inv use {placed, filled, unready, knows, waiting, linked}

  -- A thread outside the line clears its own node.
  module _ (e : stage i ≡ clearing) where
    abbrev cleared : Store
    cleared = record m { temp0 = update m.temp0 i none }

    line_kept : (j : ℕ) → lines_up (update stage i looking j) ≡ lines_up (stage j)
    line_kept = line_same inv i e refl (λ s. cc) (λ s. cc)

    sleep_kept : (j : ℕ) → stage j ≡ asleep → update stage i looking j ≡ asleep
    sleep_kept = keeps inv i e refl (λ s. cc) (λ s. cc)

    clears-Knows :
        (j : ℕ)
        → i ≢ j
        → (x : Stage) → Knows q m (update stage i looking) j x
        → Knows q cleared (update stage i looking) j x
    clears-Knows j n x k = ground (arith, n, e)

    pub clear-IsSound : IsSound q cleared (update stage i looking)
    clear-IsSound = record {
      joined_node = λ j s p f.
          let slept = falls_not inv i e refl (λ s. cc) (λ s. cc) j s in
          let old = inv.joined_node j slept p f in
          ground (arith, e, old, p, filled (q.place j - 1), placed j, slept);
      joined_front = λ j s k l.
          elim (inv.joined_front j (falls_not inv i e refl (λ s. cc) (λ s. cc) j s) k l) [
            | inl w ↦ inl w
            | inr t ↦ inr (emptied_still inv i e refl (λ s. cc) (λ s. cc) (λ t. cc) (q.at q.head) t)
          ];
      passing = λ h s u.
          let old = inv.passing h (falls_not inv i e refl (λ s. cc) (λ s. cc) (q.at q.head) s) u in
          ground (arith, e, old);
      ordered = inv.ordered;
      free = inv.free;
      held = inv.held;
      placed = λ j l. placed j (sym (line_kept j) ∙ l);
      filled = λ k lo hi. (line_kept (q.at k) ∙ (filled k lo hi).0, (filled k lo hi).1);
      unready =
          update_all (λ j x. x ≢ asleep → m.schedulable j ≡ false) (λ n. unready i (λ s. cc))
            (λ j n. unready j);
      knows =
          update_all (Knows q cleared (update stage i looking))
            (know inv i e, update_here m.temp0 i none)
            (λ j n. clears-Knows j n (stage j) (
              Knows-frame q m stage (update stage i looking) j (stage j)
                (sleep_kept (subject (stage j))) (knows j)));
      waiting = λ j h.
          let (settled, n) = waiting j h in
          (settled, record { behind = n.behind; there = n.there; sleeps = sleep_kept j n.sleeps });
      linked = λ a b l f h.
          let l_a = sym (line_kept a) ∙ l in
          let n = linked a b l_a f (ground (arith, h, e, l_a)) in
          record { behind = n.behind; there = n.there; sleeps = sleep_kept b n.sleeps };
    }

  -- A thread in the line stores its node in that of the thread before it, and sleeps.
  module _ (p : ℕ) (e : stage i ≡ linking (node p)) where
    abbrev joined : Store
    joined = record m { temp0 = update m.temp0 p (some i) }

    mine : (q.head < q.place i) × Behind q (q.place i - 1) (node p)
    mine = know inv i e

    stood : (q.head ≤ q.place i) × (q.place i < q.tail) × (q.at (q.place i) ≡ i)
    stood = placed i (ap lines_up e)

    -- The thread before it is in the line.
    before : (lines_up (stage p) ≡ true) × (q.place p ≡ q.place i - 1)
    before = ground (arith, mine, stood, filled (q.place i - 1))

    -- Nothing has been stored there.
    nothing_before : (j : ℕ) → (q.settled ≡ true → q.head < q.place p) → m.temp0 p ≢ some j
    nothing_before j f h =
        let n = linked p j before.0 f h in ground (arith, before, mine, stood, n, e)

    line_joins : (j : ℕ) → lines_up (update stage i asleep j) ≡ lines_up (stage j)
    line_joins =
        update_all (λ j x. lines_up x ≡ lines_up (stage j)) (ap lines_up (sym e)) (λ j n. refl)

    sleep_joins : (j : ℕ) → stage j ≡ asleep → update stage i asleep j ≡ asleep
    sleep_joins = update_all (λ w x. stage w ≡ asleep → x ≡ asleep) (λ s. refl) (λ j n s. s)

    joins-Knows :
        (j : ℕ) → i ≢ j → (x : Stage) → stage j ≡ x → Knows q m stage j x → Knows q joined stage j x
    joins-Knows j n (adopting t) e_j k = ground (arith, e_j, before, nothing_before t)
    joins-Knows j n (shifting w t) e_j k =
        ground (arith, e_j, before, nothing_before t, filled (q.head + 1))
    joins-Knows j n x e_j k = ground (arith, e_j, before)

    joins-Follows :
        (a b : ℕ)
        → p ≡ a
        → update m.temp0 p (some i) a ≡ some b
        → Follows q (update stage i asleep) a b
    joins-Follows a b s h =
        let same : i ≡ b = ground (arith, s, h) in
        record {
          behind = ground (arith, s, before, mine, stood);
          there = ground (arith, s, before, mine, stood, same);
          sleeps = ap (update stage i asleep) (sym same) ∙ update_here stage i asleep;
        }

    emptied_joins : (j : ℕ) → emptied (stage j) ≡ true → emptied (update stage i asleep j) ≡ true
    emptied_joins =
        update_all (λ j x. emptied (stage j) ≡ true → emptied x ≡ true)
          (λ t. absurd (ground (arith, ap emptied e, t))) (λ j n t. t)

    joins-node :
        (j : ℕ)
        → update stage i asleep j ≡ asleep
        → q.head < q.place j
        → (q.place j ≡ q.head + 1 → q.settled ≡ false)
        → update m.temp0 p (some i) (q.at (q.place j - 1)) ≡ some j
    joins-node j s past f = elim (ℕ_discrete i j) [
      | yes same ↦ ground (arith, same, mine)
      | no n ↦
          let slept : stage j ≡ asleep = sym (update_past stage asleep n) ∙ s in
          let old = inv.joined_node j slept past f in
          let (lo, hi, here) = placed j (ap lines_up slept) in
          let before_j = filled (q.place j - 1) (omega arith) (omega arith) in
          let apart : p ≢ q.at (q.place j - 1) = λ t. n (
            sym stood.2
            ∙ ap q.at (omega (arith, ap q.place t, before, before_j, mine, past))
            ∙ here) in
          update_past m.temp0 (some i) apart ∙ old
    ]

    pub link-IsSound : IsSound q joined (update stage i asleep)
    link-IsSound = record {
      joined_node = joins-node;
      joined_front = λ j s k l. elim (ℕ_discrete i j) [
        | yes same ↦ absurd (ground (arith, same, k, l, mine))
        | no n ↦ elim (inv.joined_front j (sym (update_past stage asleep n) ∙ s) k l) [
          | inl w ↦ inl w
          | inr t ↦ inr (emptied_joins (q.at q.head) t)
        ]
      ];
      passing = λ h s u.
          let slept : stage (q.at q.head) ≡ asleep =
            ground (arith, s, mine, stood, filled q.head) in
          let old = inv.passing h slept u in ground (arith, e, old);
      ordered = inv.ordered;
      free = inv.free;
      held = inv.held;
      placed = λ j l. placed j (sym (line_joins j) ∙ l);
      filled = λ k lo hi. (line_joins (q.at k) ∙ (filled k lo hi).0, (filled k lo hi).1);
      unready =
          update_all (λ j x. x ≢ asleep → m.schedulable j ≡ false) (λ n. absurd (n refl))
            (λ j n. unready j);
      knows =
          update_all (Knows q joined (update stage i asleep))
            (subst (Sleeper q joined i) (sym (unready i (λ s. cc))) tt)
            (λ j n.
              Knows-frame q joined stage (update stage i asleep) j (stage j)
                (sleep_joins (subject (stage j))) (joins-Knows j n (stage j) refl (knows j)));
      waiting = λ j h.
          let (settled, n) = waiting j h in
          (settled, record { behind = n.behind; there = n.there; sleeps = sleep_joins j n.sleeps });
      linked = λ a b l f h. elim (ℕ_discrete p a) [
        | yes s ↦ joins-Follows a b s h
        | no other ↦
            let l_a = sym (line_joins a) ∙ l in
            let n = linked a b l_a f (sym (update_past m.temp0 (some i) other) ∙ h) in
            record { behind = n.behind; there = n.there; sleeps = sleep_joins b n.sleeps }
      ];
    }
