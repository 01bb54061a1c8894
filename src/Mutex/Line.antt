-- ===== src/Mutex/Line.antt =====
-- The line of the threads that have the mutex or wait for it, which no variable holds, and what
-- each thread knows of it.
use myos_io.Base.{ℕ, ◌+◌, ◌-◌, ◌<◌, ◌≤◌, ◌≡◌, ◌≢◌, ◌⊎◌, none, some, Bool, true, false}
use myos_io.Mutex.Defs.{
  End, null, front, node, Store, Stage, client, peeking, grabbing, seen, trying, looking, retrying,
  exiting, taking, clearing, swapping, claimed, late, awaiting, adopting, linking, asleep,
  giving_up, lonely, freeing, closing, expecting, reading, checking, emptying, cutting, following,
  shifting, granting, waking, unreachable,
}

-- The threads in the order in which they came: `at` has the thread at a position, `place` the
-- position of a thread; the one at `head` has the mutex, those behind it up to `tail` wait.
-- `settled` says that the thread at `head` is entered under the address of waiters, and `giver` is
-- the thread that passes the mutex on.
pub record Line : Type 0 where
  pub at : ℕ → ℕ
  pub place : ℕ → ℕ
  pub head : ℕ
  pub tail : ℕ
  pub settled : Bool
  pub giver : ℕ

-- The thread is in the line.
abbrev pub lines_up : Stage → Bool
lines_up (client b) = b
lines_up peeking = false
lines_up grabbing = false
lines_up seen = false
lines_up trying = false
lines_up looking = false
lines_up retrying = false
lines_up clearing = false
lines_up swapping = false
lines_up (granting _) = false
lines_up (waking _) = false
lines_up unreachable = false
lines_up _ = true

-- The thread passes the mutex on.
abbrev pub gives : Stage → Bool
gives (granting _) = true
gives (waking _) = true
gives _ = false

-- The thread has read which thread is next, and may have emptied waiters.
abbrev pub emptied : Stage → Bool
emptied (emptying _) = true
emptied (cutting _) = true
emptied (following _) = true
emptied (shifting _ _) = true
emptied _ = false

-- The thread `w` sleeps next in the line.
pub record IsNext (q : Line) (stage : ℕ → Stage) (w : ℕ) : Type 0 where
  pub behind : q.head + 1 < q.tail
  pub there : q.at (q.head + 1) ≡ w
  pub sleeps : stage w ≡ asleep

-- The thread `w` has been put in front by thread `i` and has not been woken.
pub record IsGiven (q : Line) (m : Store) (stage : ℕ → Stage) (i w : ℕ) : Type 0 where
  pub gives : q.giver ≡ i
  pub some_one : q.head < q.tail
  pub first : q.at q.head ≡ w
  pub sleeps : stage w ≡ asleep
  pub unwoken : m.schedulable w ≡ false
  pub is_settled : q.settled ≡ true

-- The thread has the mutex, and is entered under the address of waiters or not.
abbrev pub Heads : Line → ℕ → Bool → Type 0
Heads q i b = (q.place i ≡ q.head) × (q.settled ≡ b)

abbrev pub Expects : Line → End → Type 0
Expects q (node e) = (q.head < q.place e) × (q.place e < q.tail) × (q.at (q.place e) ≡ e)
Expects q _ = ⊥

abbrev pub Behind : Line → ℕ → End → Type 0
Behind q k (node p) = (q.at k ≡ p) × (k ≡ q.head → q.settled ≡ false)
Behind q k front = (k ≡ q.head) × (q.settled ≡ true)
Behind q k null = ⊥

abbrev pub Sleeper : Line → Store → ℕ → Bool → Type 0
Sleeper q m i true = Heads q i true × (m.owner ≡ some i)
Sleeper q m i false = Unit

abbrev pub Knows : Line → Store → (ℕ → Stage) → ℕ → Stage → Type 0
Knows q m stage i (client true) = Heads q i true × (m.owner ≡ some i)
Knows q m stage i (client false) = m.owner ≢ some i
Knows q m stage i peeking = m.owner ≢ some i
Knows q m stage i grabbing = m.owner ≢ some i
Knows q m stage i seen = m.owner ≢ some i
Knows q m stage i trying = m.owner ≢ some i
Knows q m stage i looking = (m.owner ≢ some i) × (m.temp0 i ≡ none)
Knows q m stage i retrying = (m.owner ≢ some i) × (m.temp0 i ≡ none)
Knows q m stage i taking = Heads q i true
Knows q m stage i clearing = m.owner ≢ some i
Knows q m stage i swapping = (m.owner ≢ some i) × (m.temp0 i ≡ none)
Knows q m stage i exiting = Heads q i true
Knows q m stage i claimed = Heads q i false × (m.waiters ≡ none)
Knows q m stage i late = Heads q i false × (m.waiters ≡ none) × (q.head + 1 < q.tail)
Knows q m stage i awaiting =
    Heads q i false × (m.waiters ≡ none) × (q.head + 1 < q.tail) × (m.owner ≡ some i)
Knows q m stage i (adopting j) =
    Heads q i false × (m.waiters ≡ none) × (m.temp0 i ≡ some j) × (m.owner ≡ some i)
Knows q m stage i (linking e) = (q.head < q.place i) × Behind q (q.place i - 1) e
Knows q m stage i asleep = Sleeper q m i (m.schedulable i)
Knows q m stage i giving_up = Heads q i true × (m.owner ≡ some i)
Knows q m stage i lonely = Heads q i true × (m.owner ≡ some i)
Knows q m stage i freeing = Heads q i true × (m.owner ≡ some i)
Knows q m stage i closing = Heads q i true × (m.owner ≡ none)
Knows q m stage i (expecting e) = Heads q i true × Expects q e
Knows q m stage i (reading w) = Heads q i true × IsNext q stage w
Knows q m stage i (checking w) = Heads q i true × IsNext q stage w
Knows q m stage i (emptying w) = Heads q i true × IsNext q stage w
Knows q m stage i (cutting w) = Heads q i true × IsNext q stage w × (m.waiters ≡ none)
Knows q m stage i (following w) = Heads q i true × IsNext q stage w × (q.head + 2 < q.tail)
Knows q m stage i (shifting w n) = Heads q i true × IsNext q stage w × (m.temp0 w ≡ some n)
Knows q m stage i (granting w) = IsGiven q m stage i w
Knows q m stage i (waking w) = IsGiven q m stage i w × (m.owner ≡ some w)
Knows q m stage i unreachable = ⊥

-- The thread that follows thread `i`, once its node is stored in that of thread `i`.
pub record Follows (q : Line) (stage : ℕ → Stage) (i j : ℕ) : Type 0 where
  pub behind : q.place i + 1 < q.tail
  pub there : q.at (q.place i + 1) ≡ j
  pub sleeps : stage j ≡ asleep

-- What wait_end holds when the last of the line is at position `k`.
pub record Ends (q : Line) (end : End) (k : ℕ) : Type 0 where
  pub as_front : k ≡ q.head → q.settled ≡ true → end ≡ front
  pub as_new : k ≡ q.head → q.settled ≡ false → end ≡ node (q.at k)
  pub as_node : q.head < k → end ≡ node (q.at k)

pub record IsSound (q : Line) (m : Store) (stage : ℕ → Stage) : Type 0 where
  pub ordered : q.head ≤ q.tail
  pub free : q.head ≡ q.tail → (m.wait_end ≡ null) × (m.waiters ≡ none) × (m.owner ≡ none)
  pub held : q.head < q.tail → Ends q m.wait_end (q.tail - 1)
  pub placed :
      (i : ℕ)
      → lines_up (stage i) ≡ true
      → (q.head ≤ q.place i) × (q.place i < q.tail) × (q.at (q.place i) ≡ i)
  pub filled :
      (k : ℕ)
      → q.head ≤ k
      → k < q.tail
      → (lines_up (stage (q.at k)) ≡ true) × (q.place (q.at k) ≡ k)
  pub unready : (i : ℕ) → stage i ≢ asleep → m.schedulable i ≡ false
  pub knows : (i : ℕ) → Knows q m stage i (stage i)
  pub waiting : (j : ℕ) → m.waiters ≡ some j → (q.settled ≡ true) × IsNext q stage j
  pub linked :
      (i j : ℕ)
      → lines_up (stage i) ≡ true
      → (q.settled ≡ true → q.head < q.place i)
      → m.temp0 i ≡ some j
      → Follows q stage i j
  pub passing :
      q.head < q.tail
      → stage (q.at q.head) ≡ asleep
      → m.schedulable (q.at q.head) ≡ false
      → gives (stage q.giver) ≡ true
  pub joined_node :
      (j : ℕ)
      → stage j ≡ asleep
      → q.head < q.place j
      → (q.place j ≡ q.head + 1 → q.settled ≡ false)
      → m.temp0 (q.at (q.place j - 1)) ≡ some j
  pub joined_front :
      (j : ℕ)
      → stage j ≡ asleep
      → q.place j ≡ q.head + 1
      → q.settled ≡ true
      → (m.waiters ≡ some j) ⊎ (emptied (stage (q.at q.head)) ≡ true)
