-- ===== src/Mutex/Progress.antt =====
-- No thread is left asleep behind the mutex.
use myos_io.Base.{
  ℕ, ◌+◌, ◌<◌, ◌≡◌, ◌⊎◌, inl, inr, refl, ap, ◌∙◌, some, Bool, true, false, not, Bool-cases, is_none,
  arith,
}
use myos_io.Mutex.Defs.{
  node, Store, Stage, awaiting, asleep, expecting, following, World, Turns, at_rest, mtx_init,
}
use myos_io.Mutex.Line.{Line, Knows, IsSound, lines_up, gives}
use myos_io.Mutex.Safety.{sound}

-- The thread sleeps and has not been made schedulable, or the next access is a round of a loop.
abbrev pub idle : Store → ℕ → Stage → Bool
idle m i asleep = not (m.schedulable i)
idle m i awaiting = is_none (m.temp0 i)
idle m i (expecting _) = is_none m.waiters
idle m i (following w) = is_none (m.temp0 w)
idle m i _ = false

module _ {q : Line} {m : Store} {stage : ℕ → Stage} (inv : IsSound q m stage) where
  open inv use {placed, filled, knows}

  -- Behind the first of the line only a thread that sleeps is idle.
  idle-asleep :
      (k : ℕ) (x : Stage)
      → idle m k x ≡ true
      → Knows q m stage k x
      → q.head < q.place k
      → x ≡ asleep
  idle-asleep k x stuck know past = ground (arith, stuck, know, past)

  gives-idle : (k : ℕ) (x : Stage) → gives x ≡ true → idle m k x ≡ false
  gives-idle k x g = ground (arith, g)

  -- A thread that holds up the line, and that is not idle.
  abbrev Moves : Type 0
  Moves =
      (j : ℕ) × ((lines_up (stage j) ≡ true) ⊎ (gives (stage j) ≡ true))
      × (idle m j (stage j) ≡ false)

  -- The thread at a position behind the first is idle only when it sleeps.
  one_behind : (k : ℕ) → q.head < k → k < q.tail → (stage (q.at k) ≡ asleep → ⊥) → Moves
  one_behind k past lt up =
      let (l, at) = filled k (omega arith) lt in
      elim (Bool-cases (idle m (q.at k) (stage (q.at k)))) [
        | inl stuck ↦
            absurd (
              up (idle-asleep (q.at k) (stage (q.at k)) stuck (knows (q.at k)) (omega (arith, at))))
        | inr moves ↦ (q.at k, inl l, moves)
      ]

  first_stuck :
      (h : ℕ) (x : Stage)
      → q.at q.head ≡ h
      → q.head < q.tail
      → stage h ≡ x
      → Knows q m stage h x
      → idle m h x ≡ true
      → Moves
  first_stuck h asleep at some_one e know stuck =
      let g = inv.passing some_one (ap stage at ∙ e) (ground (arith, stuck, ap m.schedulable at)) in
      (q.giver, inr g, gives-idle q.giver (stage q.giver) g)
  first_stuck h awaiting at some_one e (heads, w, more, own) stuck =
      one_behind (q.head + 1) (omega arith) more (λ s.
        let (l, p) = filled (q.head + 1) (omega arith) more in
        let link = inv.joined_node (q.at (q.head + 1)) s (omega (arith, p)) (λ k. heads.1) in
        ground (arith, link, p, at, stuck))
  first_stuck h (expecting (node v)) at some_one e (heads, (lo, hi, here)) stuck =
      one_behind (q.head + 1) (omega arith) (omega arith) (λ s.
        let (l, p) = filled (q.head + 1) (omega arith) (omega arith) in
        let link = inv.joined_front (q.at (q.head + 1)) s p heads.1 in
        ground (arith, link, at, stuck, e))
  first_stuck h (following w) at some_one e (heads, next, more) stuck =
      one_behind (q.head + 2) (omega arith) more (λ s.
        let (l, p) = filled (q.head + 2) (omega arith) more in
        let link =
          inv.joined_node (q.at (q.head + 2)) s (omega (arith, p))
            (λ k. absurd (omega (arith, k, p))) in
        ground (arith, link, p, next, stuck))
  first_stuck h x at some_one e know stuck = ground (arith, stuck)

  sleeper_moves : (i : ℕ) → stage i ≡ asleep → Moves
  sleeper_moves i s =
      let (lo, hi, here) = placed i (ap lines_up s) in
      let (l, p) = filled q.head (omega arith) (omega arith) in
      let h = q.at q.head in
      elim (Bool-cases (idle m h (stage h))) [
        | inl stuck ↦ first_stuck h (stage h) refl (omega arith) refl (knows h) stuck
        | inr moves ↦ (h, inl l, moves)
      ]

-- No thread is left asleep: in every state that is reachable from a mutex of mtx_init and in which
-- a thread sleeps in mtx_lock, some thread that has the mutex, waits for it or passes it on is not
-- idle, where a thread is idle that sleeps and has not been made schedulable, or whose next access
-- is a round of a loop.
pub no_one_forgotten :
    (type : ℕ) (m₀ m : Store)
    → mtx_init type m₀ ≡ some m
    → ((i : ℕ) → m₀.schedulable i ≡ false)
    → (s : World) → Turns (at_rest m) s
    → (i : ℕ) → s.stage i ≡ asleep
    → (j : ℕ) × ((lines_up (s.stage j) ≡ true) ⊎ (gives (s.stage j) ≡ true))
      × (idle s.store j (s.stage j) ≡ false)
no_one_forgotten type m₀ m made still s r i e =
    let (q, inv) = sound type m₀ made still r in sleeper_moves inv i e
