-- ===== src/Spinlock/Queue.antt =====
-- The queue behind the spin lock, which no variable holds, and what each call knows of it.
use myos_io.Base.{ℕ, ◌+◌, ◌-◌, ◌<◌, ◌≤◌, ◌≡◌, none, some, Bool, true, false}
use myos_io.Spinlock.Defs.{
  Memory, Pc, outside, linking, waiting, entered, releasing, released, handing, granting, returned,
  unreachable, queued,
}

-- The calls in the order of their exchanges: `at` has the call at a position, `place` the position
-- of a call; those from `head` up to `tail` are in the queue.
pub record Queue : Type 0 where
  pub at : ℕ → ℕ
  pub place : ℕ → ℕ
  pub head : ℕ
  pub tail : ℕ

-- Whether the lock has been passed on to a call that waits.
abbrev pub Waits : Queue → Memory → ℕ → ℕ → Bool → Type 0
Waits q m i p true = q.place i ≡ q.head
Waits q m i p false = (q.head < q.place i) × (q.at (q.place i - 1) ≡ p) × (m.next p ≡ some i)

abbrev pub Local : Queue → Memory → ℕ → Pc → Type 0
Local q m i outside = (m.next i ≡ none) × (m.is_locked i ≡ false)
Local q m i (linking p) =
    (m.is_locked i ≡ false) × (q.head < q.place i) × (q.at (q.place i - 1) ≡ p)
Local q m i (waiting p) = Waits q m i p (m.is_locked i)
Local q m i entered = q.place i ≡ q.head
Local q m i releasing = q.place i ≡ q.head
Local q m i released = m.next i ≡ none
Local q m i handing = (q.place i ≡ q.head) × (q.head + 1 < q.tail)
Local q m i (granting j) = (q.place i ≡ q.head) × (m.next i ≡ some j)
Local q m i returned = Unit
Local q m i unreachable = ⊥

-- The call that follows call `i`, once it has stored its member in next.
pub record Follows (q : Queue) (m : Memory) (pc : ℕ → Pc) (i j : ℕ) : Type 0 where
  pub behind : q.place i + 1 < q.tail
  pub there : q.at (q.place i + 1) ≡ j
  pub waits : pc j ≡ waiting i
  pub unlocked : m.is_locked j ≡ false

pub record Inv (q : Queue) (m : Memory) (pc : ℕ → Pc) : Type 0 where
  pub ordered : q.head ≤ q.tail
  pub mutex_free : q.head ≡ q.tail → m.spin_mutex ≡ none
  pub mutex_held : q.head < q.tail → m.spin_mutex ≡ some (q.at (q.tail - 1))
  pub placed :
      (i : ℕ)
      → queued (pc i) ≡ true
      → (q.head ≤ q.place i) × (q.place i < q.tail) × (q.at (q.place i) ≡ i)
  pub filled :
      (k : ℕ) → q.head ≤ k → k < q.tail → (queued (pc (q.at k)) ≡ true) × (q.place (q.at k) ≡ k)
  pub local : (i : ℕ) → Local q m i (pc i)
  pub linked : (i j : ℕ) → queued (pc i) ≡ true → m.next i ≡ some j → Follows q m pc i j
