-- ===== src/Mutex/Looks.antt =====
-- What a thread learns from an access that only reads.
use native.Mathlib.Decide.{ℕ_discrete}
use myos_io.Base.{ℕ, ◌+◌, ◌-◌, ◌<◌, ◌≡◌, ◌≢◌, sym, ap, ◌∙◌, some, true, false, update, arith}
use myos_io.Mutex.Defs.{front, node, Store, Stage, asleep}
use myos_io.Mutex.Line.{Line, IsNext, Heads, Expects, Ends, lines_up, IsSound, Follows}
use myos_io.Mutex.Quiet.{update_past}

module _ {q : Line} {m : Store} {stage : ℕ → Stage} (inv : IsSound q m stage) (i : ℕ) where
  open inv use {ordered, held, placed, filled, knows, waiting, linked}

  -- A thread in the line that has the first place.
  first_held : q.place i ≡ q.head → lines_up (stage i) ≡ true → Ends q m.wait_end (q.tail - 1)
  first_held h l = held (omega (arith, (placed i l).0, (placed i l).1))

  -- The thread that waiters points to sleeps next.
  pub to_next : (w : ℕ) → m.waiters ≡ some w → IsNext q stage w
  to_next w e = (waiting w e).1

  -- Where wait_end is not the front's, more than one is in the line.
  pub more_than_one :
      Heads q i true
      → lines_up (stage i) ≡ true
      → m.wait_end ≢ front
      → (m.wait_end ≡ node (q.at (q.tail - 1))) × Expects q (node (q.at (q.tail - 1)))
  more_than_one h l n =
      let (lo, hi, _) = placed i l in
      let ends = held (omega arith) in
      elim (ℕ_discrete (q.tail - 1) q.head) [
        | yes one ↦ absurd (n (ends.as_front one h.1))
        | no many ↦
            let last = filled (q.tail - 1) (omega arith) (omega arith) in
            (
              ends.as_node (omega (arith, many)),
              (omega (arith, many, last.1), omega (arith, many, last.1), ap q.at last.1),
            )
      ]

  -- A thread that entered its own node when the line was empty, and that is no longer the last.
  pub overtaken_more :
      Heads q i false → lines_up (stage i) ≡ true → m.wait_end ≢ node i → q.head + 1 < q.tail
  overtaken_more h l n =
      let (lo, hi, here) = placed i l in
      let ends = held (omega arith) in
      elim (ℕ_discrete (q.tail - 1) q.head) [
        | yes one ↦ absurd (n (ends.as_new one h.1 ∙ ap node (ap q.at (one ∙ sym h.0) ∙ here)))
        | no many ↦ omega (arith, many)
      ]

  -- The next in the line is not the last.
  pub next_more : (w : ℕ) → IsNext q stage w → m.wait_end ≢ node w → q.head + 2 < q.tail
  next_more w next n =
      let ends = held (omega (arith, next.behind)) in
      elim (ℕ_discrete (q.tail - 1) (q.head + 1)) [
        | yes two ↦ absurd (n (ends.as_node (omega arith) ∙ ap node (ap q.at two ∙ next.there)))
        | no many ↦ omega (arith, many, next.behind)
      ]

  -- A thread in the line that is not the next.
  pub other_more : (w v : ℕ) → IsNext q stage w → Expects q (node v) → v ≢ w → q.head + 2 < q.tail
  other_more w v next (lo, hi, here) n = elim (ℕ_discrete (q.place v) (q.head + 1)) [
    | yes same ↦ absurd (n (sym here ∙ ap q.at same ∙ next.there))
    | no other ↦ omega arith
  ]

  -- The thread that follows the next.
  pub next_links :
      (w n : ℕ)
      → IsNext q stage w
      → m.temp0 w ≡ some n
      → Follows q stage w n × (q.place w ≡ q.head + 1)
  next_links w n next e =
      let (l, at) = filled (q.head + 1) (omega arith) next.behind in
      let here : q.place w ≡ q.head + 1 = ap q.place (sym next.there) ∙ at in
      (
        linked w n (ap (λ v. lines_up (stage v)) (sym next.there) ∙ l) (λ s. omega (arith, here)) e,
        here,
      )

  -- The mover, once it has moved, knows of the sleeping thread what it knew.
  pub IsNext-still :
      (w : ℕ) {p : Stage} (p' : Stage)
      → stage i ≡ p
      → p ≢ asleep
      → IsNext q stage w
      → IsNext q (update stage i p') w
  IsNext-still w p' e up next = record {
    behind = next.behind;
    there = next.there;
    sleeps = update_past stage p' (λ s. up (sym e ∙ ap stage s ∙ next.sleeps)) ∙ next.sleeps;
  }
