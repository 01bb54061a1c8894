-- ===== src/Mutex/Push.antt =====
-- The accesses that put a thread at the end of the line.
use native.Mathlib.Decide.{ℕ_discrete}
use myos_io.Base.{
  ap, inr, inl, ℕ, ◌+◌, ◌-◌, ◌<◌, ◌≡◌, ◌≢◌, refl, sym, ◌∙◌, none, some, Bool, true, false, update,
  arith,
}
use myos_io.Mutex.Defs.{End, null, front, node, Store, Stage, swapping, linking, asleep}
use myos_io.Mutex.Line.{Line, Knows, Behind, lines_up, IsSound, Follows}
use myos_io.Mutex.Quiet.{update_past, Knows-frame, update_all, subject}
use myos_io.Mutex.Reads.{know}

module _ {q : Line} {m : Store} {stage : ℕ → Stage} (inv : IsSound q m stage) (i : ℕ) where
  open inv use {placed, filled, unready, knows, waiting, linked}

  -- wait_end is NULL when the line is empty, and only then.
  pub empty_line : m.wait_end ≡ null → q.head ≡ q.tail
  empty_line n = elim (ℕ_discrete q.head q.tail) [
    | yes s ↦ s
    | no other ↦
        let end = inv.held (omega (arith, other, inv.ordered)) in
        absurd (ground (arith, n, end, inv.ordered, other))
  ]

  pub full_line : m.wait_end ≢ null → q.head < q.tail
  full_line n = elim (ℕ_discrete q.head q.tail) [
    | yes s ↦ absurd (n (inv.free s).0)
    | no other ↦ omega (arith, other, inv.ordered)
  ]

  -- An empty line: the thread becomes its first, and has the mutex.
  module _ {p : Stage} (p' : Stage) (s : Bool) (end : End) (e : stage i ≡ p)
      (out : lines_up p ≡ false) (in_line : lines_up p' ≡ true) (was_up : p ≢ asleep)
      (is_up : p' ≢ asleep) (is_null : m.wait_end ≡ null) (as_front : s ≡ true → end ≡ front)
      (as_new : s ≡ false → end ≡ node i) (clean : s ≡ false → m.temp0 i ≡ none) where
    abbrev started : Line
    started = record q {
      at = update q.at q.tail i;
      place = update q.place i q.tail;
      tail = q.tail + 1;
      settled = s;
    }

    abbrev entered : Store
    entered = record m { wait_end = end }

    no_one : (j : ℕ) → lines_up (stage j) ≡ true → ⊥
    no_one j l = omega (arith, empty_line is_null, (placed j l).0, (placed j l).1)

    starts-Knows :
        (j : ℕ)
        → i ≢ j
        → (x : Stage) → (lines_up x ≡ true → ⊥)
        → Knows q m stage j x
        → Knows started entered (update stage i p') j x
    starts-Knows j n x idle k = ground (arith, empty_line is_null)

    starts-unlinked :
        (a b : ℕ)
        → lines_up (update stage i p' a) ≡ true
        → (s ≡ true → q.head < started.place a)
        → m.temp0 a ≡ some b
        → ⊥
    starts-unlinked a b l f h = ground (arith, no_one a, empty_line is_null, clean)

    starts-awake : (j : ℕ) → update stage i p' j ≡ asleep → q.head < started.place j → ⊥
    starts-awake j s past = elim (ℕ_discrete i j) [
      | yes same ↦ ground (arith, same, past, empty_line is_null)
      | no n ↦ no_one j (ap lines_up (sym (update_past stage p' n) ∙ s))
    ]

    pub start-IsSound :
        Knows started entered (update stage i p') i p' → IsSound started entered (update stage i p')
    start-IsSound now = record {
      joined_node = λ j s past f. absurd (starts-awake j s past);
      joined_front = λ j s k l. absurd (starts-awake j s (omega (arith, k)));
      passing = λ h s u. absurd (ground (arith, s, empty_line is_null, is_up));
      ordered = omega (arith, inv.ordered);
      free = λ z. absurd (omega (arith, z, inv.ordered));
      held = λ h. record {
        as_front = λ k t. as_front t;
        as_new = λ k t. ground (arith, as_new t, empty_line is_null);
        as_node = λ k. absurd (omega (arith, k, empty_line is_null));
      };
      placed = λ j l. ground (arith, l, no_one j, empty_line is_null);
      filled = λ k lo hi. ground (arith, lo, hi, in_line, empty_line is_null);
      unready =
          update_all (λ j x. x ≢ asleep → m.schedulable j ≡ false)
            (λ n. unready i (λ t. was_up (sym e ∙ t))) (λ j n. unready j);
      knows =
          update_all (Knows started entered (update stage i p')) now
            (λ j n. starts-Knows j n (stage j) (no_one j) (knows j));
      waiting = λ j h. absurd (ground (arith, h, inv.free (empty_line is_null)));
      linked = λ a b l f h. absurd (starts-unlinked a b l f h);
    }

  -- Otherwise it waits, behind the last of the line.
  module _ (e : stage i ≡ swapping) (held : m.wait_end ≢ null) where
    abbrev longer : Line
    longer = record q {
      at = update q.at q.tail i;
      place = update q.place i q.tail;
      tail = q.tail + 1;
    }

    abbrev swapped : Store
    swapped = record m { wait_end = node i }

    mine : (m.owner ≢ some i) × (m.temp0 i ≡ none)
    mine = know inv i e

    sleep_kept : (j : ℕ) → stage j ≡ asleep → update stage i (linking m.wait_end) j ≡ asleep
    sleep_kept =
        update_all (λ w x. stage w ≡ asleep → x ≡ asleep) (λ s. absurd (ground (arith, e, s)))
          (λ j n s. s)

    last_end : Behind q (q.tail - 1) m.wait_end
    last_end = let end = inv.held (full_line held) in ground (arith, full_line held, end)

    swaps-Knows :
        (j : ℕ)
        → i ≢ j
        → (x : Stage) → stage j ≡ x
        → Knows q m stage j x
        → Knows longer swapped stage j x
    swaps-Knows j n x e_j k = ground (arith, e, full_line held, placed j)

    linking-Knows :
        Knows longer swapped (update stage i (linking m.wait_end)) i (linking m.wait_end)
    linking-Knows = ground (arith, full_line held, last_end)

    swaps-Follows :
        (a b : ℕ)
        → lines_up (stage a) ≡ true
        → i ≢ a
        → Follows q stage a b
        → Follows longer (update stage i (linking m.wait_end)) a b
    swaps-Follows a b l n f = record {
      behind = ground (arith, f, n);
      there = ground (arith, f, n);
      sleeps = sleep_kept b f.sleeps;
    }

    swap_slept :
        (j : ℕ) → update stage i (linking m.wait_end) j ≡ asleep → (i ≢ j) × (stage j ≡ asleep)
    swap_slept j s = elim (ℕ_discrete i j) [
      | yes same ↦ absurd (ground (arith, same, s))
      | no n ↦ (n, sym (update_past stage (linking m.wait_end) n) ∙ s)
    ]

    swaps-node :
        (j : ℕ)
        → i ≢ j
        → stage j ≡ asleep
        → q.head < longer.place j
        → (longer.place j ≡ q.head + 1 → q.settled ≡ false)
        → m.temp0 (longer.at (longer.place j - 1)) ≡ some j
    swaps-node j n slept past f =
        let (lo, hi, here) = placed j (ap lines_up slept) in
        let same : longer.place j ≡ q.place j = update_past q.place q.tail n in
        let old = inv.joined_node j slept (omega (arith, past, same)) (λ k. f (same ∙ k)) in
        let at : longer.at (longer.place j - 1) ≡ q.at (q.place j - 1) =
          ground (arith, same, hi, past) in
        ap m.temp0 at ∙ old

    pub swap_held-IsSound : IsSound longer swapped (update stage i (linking m.wait_end))
    swap_held-IsSound = record {
      joined_node = λ j s. swaps-node j (swap_slept j s).0 (swap_slept j s).1;
      joined_front = λ j s k l.
          let (n, slept) = swap_slept j s in
          elim (inv.joined_front j slept (sym (update_past q.place q.tail n) ∙ k) l) [
            | inl w ↦ inl w
            | inr t ↦ inr (ground (arith, t, e, full_line held))
          ];
      passing = λ h s u.
          let slept : stage (q.at q.head) ≡ asleep = ground (arith, s, full_line held) in
          let old = inv.passing (full_line held) slept (ground (arith, u, full_line held)) in
          ground (arith, e, old);
      ordered = omega (arith, inv.ordered);
      free = λ z. absurd (omega (arith, z, inv.ordered));
      held = λ h. record {
        as_front = λ k t. absurd (omega (arith, k, full_line held));
        as_new = λ k t. absurd (omega (arith, k, full_line held));
        as_node = λ k. ground arith;
      };
      placed = λ j l. ground (arith, l, placed j, full_line held);
      filled = λ k lo hi. ground (arith, lo, hi, e, filled k, full_line held);
      unready =
          update_all (λ j x. x ≢ asleep → m.schedulable j ≡ false) (λ n. unready i (λ t. cc))
            (λ j n. unready j);
      knows =
          update_all (Knows longer swapped (update stage i (linking m.wait_end))) linking-Knows
            (λ j n.
              Knows-frame longer swapped stage (update stage i (linking m.wait_end)) j (stage j)
                (sleep_kept (subject (stage j))) (swaps-Knows j n (stage j) refl (knows j)));
      waiting = λ j h.
          let (settled, n) = waiting j h in
          (
            settled,
            record {
              behind = omega (arith, n.behind);
              there = ground (arith, n);
              sleeps = sleep_kept j n.sleeps;
            },
          );
      linked = λ a b l f h. elim (ℕ_discrete i a) [
        | yes s ↦ absurd (ground (arith, s, h, mine))
        | no n ↦
            let l_a : lines_up (stage a) ≡ true = ground (arith, l, n) in
            swaps-Follows a b l_a n (linked a b l_a (λ t. ground (arith, f t, n)) h)
      ];
    }
