-- ===== src/Mutex/Pass.antt =====
-- The accesses that take the first thread off the line and put the next in its place.
use mathlib.Core.Path.{subst}
use myos_io.Base.{
  inl, ℕ, ◌+◌, ◌-◌, ◌<◌, ◌≤◌, ◌≡◌, ◌≢◌, refl, sym, ap, ◌∙◌, Option, some, true, false, update,
  arith,
}
use myos_io.Mutex.Defs.{End, Store, Stage, asleep, granting}
use myos_io.Mutex.Line.{gives, Line, IsNext, Knows, Heads, Ends, lines_up, IsSound}
use myos_io.Mutex.Quiet.{update_here, Knows-frame, update_all, subject}

module _ {q : Line} {m : Store} {stage : ℕ → Stage} (inv : IsSound q m stage) (i : ℕ) where
  open inv use {placed, filled, unready, knows, waiting, linked}

  -- The mover has the mutex, and `w` sleeps next.
  module _ {p : Stage} (w : ℕ) (end : End) (ws : Option ℕ) (e : stage i ≡ p)
      (in_line : lines_up p ≡ true) (was_up : p ≢ asleep) (heads : Heads q i true)
      (next : IsNext q stage w) where
    abbrev passed : Line
    passed = record q { head = q.head + 1; giver = i }

    abbrev shifted : Store
    shifted = record m { wait_end = end; waiters = ws }

    stood : (q.head ≤ q.place i) × (q.place i < q.tail) × (q.at (q.place i) ≡ i)
    stood = placed i (ap lines_up e ∙ in_line)

    next_place : q.place w ≡ q.head + 1
    next_place = ap q.place (sym next.there) ∙ (filled (q.head + 1) (omega arith) next.behind).1

    next_sleeps : Knows q m stage w asleep
    next_sleeps = subst (Knows q m stage w) next.sleeps (knows w)

    unwoken : m.schedulable w ≡ false
    unwoken = ground (arith, next_sleeps, next_place)

    not_first : (j : ℕ) → i ≢ j → lines_up (stage j) ≡ true → q.place j ≢ q.head
    not_first j n l s = n (sym stood.2 ∙ ap q.at (heads.0 ∙ sym s) ∙ (placed j l).2)

    not_next : (j : ℕ) → lines_up (stage j) ≡ true → stage j ≢ asleep → q.place j ≢ q.head + 1
    not_next j l up s = up (ap stage (sym (placed j l).2 ∙ ap q.at s ∙ next.there) ∙ next.sleeps)

    sleep_kept : (j : ℕ) → stage j ≡ asleep → update stage i (granting w) j ≡ asleep
    sleep_kept =
        update_all (λ w x. stage w ≡ asleep → x ≡ asleep) (λ s. absurd (was_up (sym e ∙ s)))
          (λ j n s. s)

    passes-Knows :
        (j : ℕ)
        → i ≢ j
        → (x : Stage) → (lines_up x ≡ true → q.place j ≢ q.head)
        → (lines_up x ≡ true → x ≢ asleep → (q.place j ≢ q.head + 1) × (q.place j ≢ q.head + 2))
        → (stage (q.at q.head) ≢ asleep)
        → Knows q m stage j x
        → Knows passed shifted stage j x
    passes-Knows j n x far farther up k = ground (arith, far, farther)

    slept : (j : ℕ) → update stage i (granting w) j ≡ asleep → stage j ≡ asleep
    slept =
        update_all (λ j x. x ≡ asleep → stage j ≡ asleep) (λ s. absurd (ground (arith, s)))
          (λ j n s. s)

    pub pass-IsSound :
        Ends passed end (q.tail - 1)
        → ((j : ℕ) → lines_up (stage j) ≡ true → stage j ≢ asleep → q.place j ≢ q.head + 2)
        → ((j : ℕ) → ws ≡ some j → IsNext passed stage j)
        → ((j : ℕ) → q.place j ≡ q.head + 2 → q.place j < q.tail → m.temp0 w ≡ some j → ws ≡ some j)
        → IsSound passed shifted (update stage i (granting w))
    pass-IsSound ends second follower link = record {
      joined_node =
          λ j s past f. inv.joined_node j (slept j s) (omega arith) (λ k. absurd (omega arith));
      joined_front = λ j s k l.
          let (lo, hi, here) = placed j (ap lines_up (slept j s)) in
          let old =
            inv.joined_node j (slept j s) (omega (arith, k))
              (λ k'. absurd (omega (arith, k, k'))) in
          inl (
            link j (omega (arith, k)) hi
              (ap m.temp0 (sym next.there ∙ ap q.at (omega (arith, k))) ∙ old));
      passing = λ h s u. ap gives (update_here stage i (granting w));
      ordered = omega (arith, next.behind);
      free = λ z. absurd (omega (arith, z, next.behind));
      held = λ h. ends;
      placed = λ j l. ground (arith, l, placed j, not_first j);
      filled = λ k lo hi. ground (arith, lo, filled k, heads);
      unready =
          update_all (λ j x. x ≢ asleep → m.schedulable j ≡ false)
            (λ n. unready i (λ s. was_up (sym e ∙ s))) (λ j n. unready j);
      knows =
          update_all (Knows passed shifted (update stage i (granting w)))
            (record {
              gives = refl;
              some_one = next.behind;
              first = next.there;
              sleeps = sleep_kept w next.sleeps;
              unwoken = unwoken;
              is_settled = heads.1;
            })
            (λ j n.
              Knows-frame passed shifted stage (update stage i (granting w)) j (stage j)
                (sleep_kept (subject (stage j)))
                (passes-Knows j n (stage j) (not_first j n)
                  (λ l up. (not_next j l up, second j l up))
                  (λ s. was_up (sym e ∙ ap stage (sym stood.2 ∙ ap q.at heads.0) ∙ s)) (knows j)));
      waiting = λ j h.
          let n = follower j h in
          (heads.1, record { behind = n.behind; there = n.there; sleeps = sleep_kept j n.sleeps });
      linked = λ a b l f h.
          let l_a : lines_up (stage a) ≡ true = ground (arith, l) in
          let n = linked a b l_a (λ s. omega (arith, f s)) h in
          record { behind = n.behind; there = n.there; sleeps = sleep_kept b n.sleeps };
    }
