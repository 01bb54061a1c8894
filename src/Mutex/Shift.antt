-- ===== src/Mutex/Shift.antt =====
-- The two ways in which mtx_unlock passes the mutex on.
use myos_io.Base.{ℕ, ◌+◌, ◌-◌, ◌<◌, ◌≡◌, refl, sym, ap, ◌∙◌, none, some, true, update, arith}
use myos_io.Mutex.Defs.{front, node, Store, Stage, cutting, shifting, granting}
use myos_io.Mutex.Line.{Line, IsNext, Heads, IsSound, Follows}
use myos_io.Mutex.Looks.{next_links}
use myos_io.Mutex.Reads.{know}
use myos_io.Mutex.Pass.{pass-IsSound}

module _ {q : Line} {m : Store} {stage : ℕ → Stage} (inv : IsSound q m stage) (i : ℕ) where
  open inv use {held, placed, filled, unready, knows, waiting, linked}

  -- The next is the last of the line: the compare-exchange enters it at the front.
  module _ (w : ℕ) (e : stage i ≡ cutting w) (still : m.wait_end ≡ node w) where
    own : Heads q i true × IsNext q stage w × (m.waiters ≡ none)
    own = know inv i e

    only : q.tail ≡ q.head + 2
    only =
        let end = held (omega (arith, own.1.behind)) in
        let (_, at) = filled (q.head + 1) (omega arith) own.1.behind in
        let (_, last) =
          filled (q.tail - 1) (omega (arith, own.1.behind)) (omega (arith, own.1.behind)) in
        ground (arith, still, end, own, at, last)

    pub cut-IsSound :
        IsSound
          (record q { head = q.head + 1; giver = i })
          (record m { wait_end = front })
          (update stage i (granting w))
    cut-IsSound =
        pass-IsSound inv i w front m.waiters e refl (λ s. cc) own.0 own.1
          record {
            as_front = λ k s. refl;
            as_new = λ k s. absurd (ground (arith, s, own));
            as_node = λ k. absurd (omega (arith, k, only));
          }
          (λ j l up s. omega (arith, s, only, (placed j l).1))
          (λ j h. absurd (ground (arith, h, own))) (λ j k hi h. absurd (omega (arith, k, hi, only)))

  -- Another follows the next: waiters is set to it.
  module _ (w n : ℕ) (e : stage i ≡ shifting w n) where
    mine : Heads q i true × IsNext q stage w × (m.temp0 w ≡ some n)
    mine = know inv i e

    follower : Follows q stage w n × (q.place w ≡ q.head + 1)
    follower = next_links inv i w n mine.1 mine.2

    after : (q.head + 2 < q.tail) × (q.at (q.head + 2) ≡ n)
    after = (
      omega (arith, follower.1, follower.0.behind),
      ap q.at (omega (arith, follower.1)) ∙ follower.0.there,
    )

    pub shift-IsSound :
        IsSound
          (record q { head = q.head + 1; giver = i })
          (record m { waiters = some n })
          (update stage i (granting w))
    shift-IsSound =
        let end = held (omega (arith, after)) in
        pass-IsSound inv i w m.wait_end (some n) e refl (λ s. cc) mine.0 mine.1
          record {
            as_front = λ k s. absurd (omega (arith, k, after));
            as_new = λ k s. absurd (omega (arith, k, after));
            as_node = λ k. end.as_node (omega (arith, k));
          }
          (λ j l up s. up (ap stage (sym (placed j l).2 ∙ ap q.at s ∙ after.1) ∙ follower.0.sleeps))
          (λ j h.
            let same : n ≡ j = cc in
            record {
              behind = omega (arith, after);
              there = ap q.at (omega arith) ∙ after.1 ∙ same;
              sleeps = ap stage (sym same) ∙ follower.0.sleeps;
            })
          (λ j k hi h. sym mine.2 ∙ h)
