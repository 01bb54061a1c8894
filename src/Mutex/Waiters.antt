-- ===== src/Mutex/Waiters.antt =====
-- The accesses that write waiters while the same thread stays first in the line, or count.
use mathlib.Core.Path.{subst}
use native.Mathlib.Decide.{ℕ_discrete}
use myos_io.Base.{
  ◌-◌, inr, inl, ℕ, ◌+◌, ◌<◌, ◌≤◌, ◌≡◌, ◌≢◌, refl, sym, ap, ◌∙◌, none, some, true, false, update,
  arith,
}
use myos_io.Mutex.Defs.{front, Store, Stage, client, adopting, linking, asleep, emptying, cutting}
use myos_io.Mutex.Line.{Line, Knows, Heads, Sleeper, lines_up, IsSound, Follows}
use myos_io.Mutex.Quiet.{
  falls_not, update_past, Knows-frame, update_here, update_all, subject, line_same, keeps,
}
use myos_io.Mutex.Reads.{know, look_next}

module _ {q : Line} {m : Store} {stage : ℕ → Stage} (inv : IsSound q m stage) (i : ℕ) where
  open inv use {placed, filled, unready, knows, waiting, linked}

  -- The count says nothing of the line.
  counts-Knows :
      (c j : ℕ) (x : Stage) → Knows q m stage j x → Knows q (record m { count = c }) stage j x
  counts-Knows c j x k = ground arith

  pub count-IsSound : (c : ℕ) → IsSound q (record m { count = c }) stage
  count-IsSound c = record {
    joined_node = inv.joined_node;
    joined_front = inv.joined_front;
    passing = inv.passing;
    ordered = inv.ordered;
    free = inv.free;
    held = inv.held;
    placed = placed;
    filled = filled;
    unready = unready;
    knows = λ j. counts-Knows c j (stage j) (knows j);
    waiting = waiting;
    linked = linked;
  }

  -- The first of the line empties waiters.
  module _ (w : ℕ) (e : stage i ≡ emptying w) where
    abbrev empty_store : Store
    empty_store = record m { waiters = none }

    empties-Knows : (j : ℕ) (x : Stage) → Knows q m stage j x → Knows q empty_store stage j x
    empties-Knows j x k = ground arith

    -- Before the mover's stage is written.
    empties : IsSound q empty_store stage
    empties = record {
      joined_node = inv.joined_node;
      joined_front = λ j s k l. inr (ground (arith, know inv i e, placed i (ap lines_up e), e));
      passing = inv.passing;
      ordered = inv.ordered;
      free = λ z. let (end, _, own) = inv.free z in (end, refl, own);
      held = inv.held;
      placed = placed;
      filled = filled;
      unready = unready;
      knows = λ j. empties-Knows j (stage j) (knows j);
      waiting = λ j h. absurd cc;
      linked = linked;
    }

    pub empty-IsSound : IsSound q empty_store (update stage i (cutting w))
    empty-IsSound =
        let (h, next) = know inv i e in
        look_next empties i w e next refl refl (λ s. cc, λ t. refl) (λ s. cc) (λ n. (h, n, refl))

  -- A thread stores its node in waiters, behind the first of the line, and sleeps.
  module _ (e : stage i ≡ linking front) where
    abbrev joined_front : Store
    joined_front = record m { waiters = some i }

    mine : (q.place i ≡ q.head + 1) × (q.settled ≡ true)
    mine =
        let (past, (k, s)) : Knows q m stage i (linking front) = know inv i e in
        (omega (arith, past, k), s)

    stood : (q.head ≤ q.place i) × (q.place i < q.tail) × (q.at (q.place i) ≡ i)
    stood = placed i (ap lines_up e)

    line_joins : (j : ℕ) → lines_up (update stage i asleep j) ≡ lines_up (stage j)
    line_joins =
        update_all (λ j x. lines_up x ≡ lines_up (stage j)) (ap lines_up (sym e)) (λ j n. refl)

    sleep_joins : (j : ℕ) → stage j ≡ asleep → update stage i asleep j ≡ asleep
    sleep_joins = update_all (λ w x. stage w ≡ asleep → x ≡ asleep) (λ s. refl) (λ j n s. s)

    joins_front-Knows :
        (j : ℕ) → i ≢ j → (x : Stage) → Knows q m stage j x → Knows q joined_front stage j x
    joins_front-Knows j n x k = ground (arith, e, mine, stood)

    pub link_front-IsSound : IsSound q joined_front (update stage i asleep)
    link_front-IsSound = record {
      joined_node = λ j s past f. elim (ℕ_discrete i j) [
        | yes same ↦ absurd (ground (arith, same, f, mine))
        | no n ↦ inv.joined_node j (sym (update_past stage asleep n) ∙ s) past f
      ];
      joined_front = λ j s k l. elim (ℕ_discrete i j) [
        | yes same ↦ inl (ap some same)
        | no n ↦
            let slept : stage j ≡ asleep = sym (update_past stage asleep n) ∙ s in
            absurd (ground (arith, n, k, mine, stood, placed j (ap lines_up slept)))
      ];
      passing = λ h s u.
          let slept : stage (q.at q.head) ≡ asleep =
            ground (arith, s, mine, stood, filled q.head) in
          let old = inv.passing h slept u in ground (arith, e, old);
      ordered = inv.ordered;
      free = λ z. absurd (omega (arith, stood, z));
      held = inv.held;
      placed = λ j l. placed j (sym (line_joins j) ∙ l);
      filled = λ k lo hi. (line_joins (q.at k) ∙ (filled k lo hi).0, (filled k lo hi).1);
      unready =
          update_all (λ j x. x ≢ asleep → m.schedulable j ≡ false) (λ n. absurd (n refl))
            (λ j n. unready j);
      knows =
          update_all (Knows q joined_front (update stage i asleep))
            (subst (Sleeper q joined_front i) (sym (unready i (λ s. cc))) tt)
            (λ j n.
              Knows-frame q joined_front stage (update stage i asleep) j (stage j)
                (sleep_joins (subject (stage j))) (joins_front-Knows j n (stage j) (knows j)));
      waiting = λ j h.
          let same : i ≡ j = cc in
          (
            mine.1,
            record {
              behind = omega (arith, mine, stood);
              there = ap q.at (sym mine.0) ∙ stood.2 ∙ same;
              sleeps = ap (update stage i asleep) (sym same) ∙ update_here stage i asleep;
            },
          );
      linked = λ a b l f h.
          let n = linked a b (sym (line_joins a) ∙ l) f h in
          record { behind = n.behind; there = n.there; sleeps = sleep_joins b n.sleeps };
    }

  -- The first of the line, which entered its own node, takes over the node that follows.
  module _ (t : ℕ) (e : stage i ≡ adopting t) where
    abbrev adopted : Store
    adopted = record m { waiters = some t }

    abbrev settled : Line
    settled = record q { settled = true }

    own : Heads q i false × (m.waiters ≡ none) × (m.temp0 i ≡ some t) × (m.owner ≡ some i)
    own = know inv i e

    first : (q.head ≤ q.place i) × (q.place i < q.tail) × (q.at (q.place i) ≡ i)
    first = placed i (ap lines_up e)

    behind_first : Follows q stage i t
    behind_first = linked i t (ap lines_up e) (λ s. ground (arith, own, s)) own.2

    line_adopts : (j : ℕ) → lines_up (update stage i (client true) j) ≡ lines_up (stage j)
    line_adopts = line_same inv i e refl (λ s. cc) (λ s. cc)

    sleep_adopts : (j : ℕ) → stage j ≡ asleep → update stage i (client true) j ≡ asleep
    sleep_adopts = keeps inv i e refl (λ s. cc) (λ s. cc)

    adopts-Knows :
        (j : ℕ)
        → i ≢ j
        → (x : Stage) → stage j ≡ x
        → Knows q m stage j x
        → Knows settled adopted stage j x
    adopts-Knows j n x e_j k = ground (arith, e, e_j, own, first, behind_first, placed j)

    adopts_first :
        (j : ℕ) → q.place j ≡ q.head + 1 → m.temp0 (q.at (q.place j - 1)) ≡ some j → some t ≡ some j
    adopts_first j k h = ground (arith, k, h, own, first)

    pub adopt-IsSound : IsSound settled adopted (update stage i (client true))
    adopt-IsSound = record {
      joined_node = λ j s past f.
          inv.joined_node j (falls_not inv i e refl (λ s. cc) (λ s. cc) j s) past (λ k. own.0.1);
      joined_front = λ j s k l.
          let slept = falls_not inv i e refl (λ s. cc) (λ s. cc) j s in
          inl (adopts_first j k (inv.joined_node j slept (omega (arith, k)) (λ k. own.0.1)));
      passing = λ h s u. absurd (ground (arith, s, own, first));
      ordered = inv.ordered;
      free = λ z. absurd (omega (arith, first, z));
      held = λ h.
          let end = inv.held h in
          record {
            as_front = λ k s. absurd (omega (arith, k, behind_first.behind, own));
            as_new = λ k s. absurd cc;
            as_node = end.as_node;
          };
      placed = λ j l. placed j (sym (line_adopts j) ∙ l);
      filled = λ k lo hi. (line_adopts (q.at k) ∙ (filled k lo hi).0, (filled k lo hi).1);
      unready =
          update_all (λ j x. x ≢ asleep → m.schedulable j ≡ false) (λ n. unready i (λ s. cc))
            (λ j n. unready j);
      knows =
          update_all (Knows settled adopted (update stage i (client true))) ((own.0.0, refl), own.3)
            (λ j n.
              Knows-frame settled adopted stage (update stage i (client true)) j (stage j)
                (sleep_adopts (subject (stage j))) (adopts-Knows j n (stage j) refl (knows j)));
      waiting = λ j h.
          let same : t ≡ j = cc in
          (
            refl,
            record {
              behind = omega (arith, own, behind_first.behind);
              there = ap (λ k. q.at (k + 1)) (sym own.0.0) ∙ behind_first.there ∙ same;
              sleeps = sleep_adopts j (ap stage (sym same) ∙ behind_first.sleeps);
            },
          );
      linked = λ a b l f h.
          let n = linked a b (sym (line_adopts a) ∙ l) (λ s. f refl) h in
          record { behind = n.behind; there = n.there; sleeps = sleep_adopts b n.sleeps };
    }
