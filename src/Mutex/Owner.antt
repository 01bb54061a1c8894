-- ===== src/Mutex/Owner.antt =====
-- The accesses that write owner.
use myos_io.Base.{
  ℕ, ◌<◌, ◌≡◌, ◌≢◌, ◌⊎◌, inl, inr, sym, ap, ◌∙◌, Option, some, Bool, true, false, update, arith,
}
use myos_io.Mutex.Defs.{Store, Stage, asleep}
use myos_io.Mutex.Line.{emptied, gives, Line, IsGiven, Knows, Heads, lines_up, IsSound}
use myos_io.Mutex.Quiet.{
  emptied_still, falls_not, Knows-frame, update_here, update_all, subject, line_same, keeps,
}

-- What a thread knows does not depend on owner, but for the thread that is first in the line.
owner-Knows :
    (q : Line) (m : Store) (f : ℕ → Stage) (o : Option ℕ) (j : ℕ) (x : Stage)
    → (lines_up x ≡ true → (q.place j ≢ q.head) ⊎ ((x ≡ asleep) × (m.schedulable j ≡ false)))
    → (x ≢ asleep → o ≢ some j)
    → ((q.giver ≢ j) ⊎ (f (q.at q.head) ≢ asleep))
    → Knows q m f j x
    → Knows q (record m { owner = o }) f j x
owner-Knows q m f o j x not_first not_owner not_giver k =
    ground (arith, not_first, not_owner, not_giver)

module _ {q : Line} {m : Store} {stage : ℕ → Stage} (inv : IsSound q m stage) (i : ℕ) {p : Stage}
    (p' : Stage) (o : Option ℕ) (e : stage i ≡ p) (line : lines_up p' ≡ lines_up p)
    (was_up : p ≢ asleep) (is_up : p' ≢ asleep) where
  open inv use {placed, filled, unready, knows, waiting, linked}

  abbrev written : Store
  written = record m { owner = o }

  -- With the mover's stage known, and that of the others kept.
  write_owner :
      q.head < q.tail
      → (emptied p ≡ true → emptied p' ≡ true)
      → (update stage i p' (q.at q.head) ≡ asleep
          → m.schedulable (q.at q.head) ≡ false
          → gives (update stage i p' q.giver) ≡ true)
      → Knows q written (update stage i p') i p'
      → ((j : ℕ) → i ≢ j → Knows q written (update stage i p') j (stage j))
      → IsSound q written (update stage i p')
  write_owner held grows pass now others = record {
    joined_node = λ j s. inv.joined_node j (falls_not inv i e line was_up is_up j s);
    joined_front = λ j s k l.
        elim (inv.joined_front j (falls_not inv i e line was_up is_up j s) k l) [
          | inl w ↦ inl w
          | inr t ↦ inr (emptied_still inv i e line was_up is_up grows (q.at q.head) t)
        ];
    passing = λ h. pass;
    ordered = inv.ordered;
    free = λ z. absurd (omega (arith, held, z));
    held = inv.held;
    placed = λ j l. placed j (sym (line_same inv i e line was_up is_up j) ∙ l);
    filled = λ k lo hi.
        (line_same inv i e line was_up is_up (q.at k) ∙ (filled k lo hi).0, (filled k lo hi).1);
    unready =
        update_all (λ j x. x ≢ asleep → m.schedulable j ≡ false)
          (λ n. unready i (λ s. was_up (sym e ∙ s))) (λ j n. unready j);
    knows = update_all (Knows q written (update stage i p')) now others;
    waiting = λ j h.
        let (settled, n) = waiting j h in
        (
          settled,
          record {
            behind = n.behind;
            there = n.there;
            sleeps = keeps inv i e line was_up is_up j n.sleeps;
          },
        );
    linked = λ a b l f h.
        let n = linked a b (sym (line_same inv i e line was_up is_up a) ∙ l) f h in
        record {
          behind = n.behind;
          there = n.there;
          sleeps = keeps inv i e line was_up is_up b n.sleeps;
        };
  }

  -- The first of the line writes NULL or itself.
  pub first_writes :
      (b : Bool)
      → Heads q i b
      → lines_up p ≡ true
      → emptied p ≡ false
      → ((j : ℕ) → i ≢ j → o ≢ some j)
      → Knows q written (update stage i p') i p'
      → IsSound q written (update stage i p')
  first_writes b h l full only now =
      let (lo, hi, here) = placed i (ap lines_up e ∙ l) in
      let at_first : q.at q.head ≡ i = ap q.at (sym h.0) ∙ here in
      let up : update stage i p' (q.at q.head) ≢ asleep =
        λ s. is_up (sym (update_here stage i p') ∙ ap (update stage i p') (sym at_first) ∙ s) in
      write_owner (omega arith) (λ t. ground (arith, t, full)) (λ s u. absurd (up s)) now
        (λ j n.
          owner-Knows q m (update stage i p') o j (stage j)
            (λ l_j. inl (λ at. n (sym at_first ∙ ap q.at (sym at) ∙ (placed j l_j).2)))
            (λ s. only j n) (inr up)
            (Knows-frame q m stage (update stage i p') j (stage j)
              (keeps inv i e line was_up is_up (subject (stage j))) (knows j)))

  -- The thread that passes the mutex on writes the new owner, which sleeps.
  pub giver_writes :
      (w : ℕ)
      → IsGiven q m stage i w
      → o ≡ some w
      → gives p' ≡ true
      → emptied p ≡ false
      → Knows q written (update stage i p') i p'
      → IsSound q written (update stage i p')
  giver_writes w given is_w g full now =
      write_owner given.some_one (λ t. ground (arith, t, full))
        (λ s u.
          ap (λ k. gives (update stage i p' k)) given.gives ∙ ap gives (update_here stage i p') ∙ g)
        now
        (λ j n.
          owner-Knows q m (update stage i p') o j (stage j)
            (λ l_j. ground (arith, placed j, given, filled q.head))
            (λ s. ground (arith, given, is_w)) (inl (λ s. n (sym given.gives ∙ s)))
            (Knows-frame q m stage (update stage i p') j (stage j)
              (keeps inv i e line was_up is_up (subject (stage j))) (knows j)))
