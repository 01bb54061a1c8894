-- ===== src/Mutex/Defs.antt =====
-- The mutex of include/threads.h: its memory, and mtx_lock, mtx_trylock and mtx_unlock access by
-- access, for any number of threads.
use myos_io.Base.{
  ℕ, ◌+◌, ◌-◌, ◌<◌, ◌≤◌, ◌≡◌, ◌≢◌, ◌⊎◌, Option, none, some, Bool, true, false, update, word, ◌==◌,
  if◌then◌else◌,
}

-- wait_end: NULL, &mutex->waiters, or the node of a thread
pub data End : Type 0 where
  null : End
  front : End
  node : (i : ℕ) → End

abbrev pub mtx_plain : ℕ
mtx_plain = 0

abbrev pub mtx_recursive : ℕ
mtx_recursive = 1

-- The members of struct Mutex; then, for each thread, what its node temp0 holds, which is the
-- thread whose node follows, and whether it has been made schedulable since it fell asleep.
pub record Store : Type 0 where
  pub owner : Option ℕ
  pub waiters : Option ℕ
  pub wait_end : End
  pub count : ℕ
  pub temp0 : ℕ → Option ℕ
  pub schedulable : ℕ → Bool

-- Where a thread stands, with the locals that it has read.
pub data Stage : Type 0 where
  -- outside the three functions; the last call that changed it left it the mutex, or did not
  client : (locked : Bool) → Stage
  -- mtx_trylock
  peeking : Stage  -- before the load of wait_end
  grabbing : Stage  -- before the compare-exchange
  -- mtx_lock
  seen : Stage  -- before the load of wait_end
  trying : Stage  -- before the compare-exchange
  taking : Stage  -- before the store to owner, in mtx_trylock too
  clearing : Stage  -- before the store of NULL to the node
  looking : Stage  -- before the second load of wait_end
  retrying : Stage  -- before the second compare-exchange
  swapping : Stage  -- before the exchange
  claimed : Stage  -- before the compare-exchange at the node
  exiting : Stage  -- at label_fast_exit, before the store to owner
  late : Stage  -- after it has failed, before the store to owner
  awaiting : Stage  -- at the loop on the node
  adopting : (temp : ℕ) → Stage  -- before the store to waiters
  linking : (last_end : End) → Stage  -- before the store to last_end
  asleep : Stage  -- the context is saved, and label_wakeup is its return_hook
  -- mtx_unlock
  giving_up : Stage  -- before the load of waiters
  lonely : Stage  -- before the load of wait_end
  freeing : Stage  -- before the store of NULL to owner
  closing : Stage  -- before the compare-exchange to NULL
  expecting : (current_end : End) → Stage  -- at the loop on waiters
  reading : (w : ℕ) → Stage  -- before the first load of next
  checking : (w : ℕ) → Stage  -- before the load of wait_end when next was NULL
  emptying : (w : ℕ) → Stage  -- before the store of NULL to waiters
  cutting : (w : ℕ) → Stage  -- before the compare-exchange to the front
  following : (w : ℕ) → Stage  -- at the loop on next
  shifting : (w next : ℕ) → Stage  -- before the store of next to waiters
  granting : (w : ℕ) → Stage  -- at label_next
  waking : (w : ℕ) → Stage  -- before set_thread_schedulable
  unreachable : Stage  -- at __builtin_unreachable

-- The owner cannot lock the mutex once more: it is plain, or count is SIZE_MAX.
abbrev pub IsFull : ℕ → Type 0
IsFull n = (n ≡ 0) ⊎ (n ≡ word - 1)

-- One access of thread `i` in mtx_trylock, up to its last one: the store to owner is that of
-- mtx_lock.
pub data TryAccess (m : Store) (i : ℕ) : Stage → Store → Stage → Type 0 where
  try_free : {b : Bool} → m.owner ≡ none → TryAccess m i (client b) m peeking
  try_busy : {b : Bool} → m.owner ≢ none → m.owner ≢ some i → TryAccess m i (client b) m (client b)
  try_again_error :
      {b : Bool} → m.owner ≡ some i → IsFull m.count → TryAccess m i (client b) m (client b)
  try_again :
      {b : Bool}
      → m.owner ≡ some i
      → ¬ IsFull m.count
      → TryAccess m i (client b) (record m { count = m.count + 1 }) (client true)
  peek_free : m.wait_end ≡ null → TryAccess m i peeking m grabbing
  peek_held : m.wait_end ≢ null → TryAccess m i peeking m (client false)
  grab : m.wait_end ≡ null → TryAccess m i grabbing (record m { wait_end = front }) taking
  miss : m.wait_end ≢ null → TryAccess m i grabbing m (client false)

-- One access of thread `i` in the first part of mtx_lock.
pub data FastAccess (m : Store) (i : ℕ) : Stage → Store → Stage → Type 0 where
  lock_free : {b : Bool} → m.owner ≡ none → FastAccess m i (client b) m seen
  lock_busy : {b : Bool} → m.owner ≢ none → m.owner ≢ some i → FastAccess m i (client b) m clearing
  again_error :
      {b : Bool} → m.owner ≡ some i → IsFull m.count → FastAccess m i (client b) m (client b)
  again :
      {b : Bool}
      → m.owner ≡ some i
      → ¬ IsFull m.count
      → FastAccess m i (client b) (record m { count = m.count + 1 }) (client true)
  seen_free : m.wait_end ≡ null → FastAccess m i seen m trying
  seen_held : m.wait_end ≢ null → FastAccess m i seen m clearing
  win : m.wait_end ≡ null → FastAccess m i trying (record m { wait_end = front }) taking
  lose : m.wait_end ≢ null → FastAccess m i trying m clearing
  take : FastAccess m i taking (record m { owner = some i }) (client true)
  clear : FastAccess m i clearing (record m { temp0 = update m.temp0 i none }) looking

-- One access of thread `i` in mtx_lock once its context is saved.
pub data SlowAccess (m : Store) (i : ℕ) : Stage → Store → Stage → Type 0 where
  look_free : m.wait_end ≡ null → SlowAccess m i looking m retrying
  look_held : m.wait_end ≢ null → SlowAccess m i looking m swapping
  retry_win : m.wait_end ≡ null → SlowAccess m i retrying (record m { wait_end = front }) exiting
  retry_lose : m.wait_end ≢ null → SlowAccess m i retrying m swapping
  exit : SlowAccess m i exiting (record m { owner = some i }) (client true)
  swap_free : m.wait_end ≡ null → SlowAccess m i swapping (record m { wait_end = node i }) claimed
  swap_held :
      m.wait_end ≢ null
      → SlowAccess m i swapping (record m { wait_end = node i }) (linking m.wait_end)
  settle : m.wait_end ≡ node i → SlowAccess m i claimed (record m { wait_end = front }) exiting
  overtaken : m.wait_end ≢ node i → SlowAccess m i claimed m late
  take_late : SlowAccess m i late (record m { owner = some i }) awaiting
  await : m.temp0 i ≡ none → SlowAccess m i awaiting m awaiting
  arrived : {j : ℕ} → m.temp0 i ≡ some j → SlowAccess m i awaiting m (adopting j)
  adopt : {j : ℕ} → SlowAccess m i (adopting j) (record m { waiters = some j }) (client true)
  link_front : SlowAccess m i (linking front) (record m { waiters = some i }) asleep
  link :
      {p : ℕ}
      → SlowAccess m i (linking (node p)) (record m { temp0 = update m.temp0 p (some i) }) asleep
  wake_up :
      m.schedulable i ≡ true
      → SlowAccess m i asleep
          (record m { schedulable = update m.schedulable i false })
          (client true)

-- One access of thread `i` in mtx_unlock.
pub data UnlockAccess (m : Store) (i : ℕ) : Stage → Store → Stage → Type 0 where
  not_owner : {b : Bool} → m.owner ≢ some i → UnlockAccess m i (client b) m (client b)
  undo :
      {b : Bool}
      → m.owner ≡ some i
      → 1 < m.count
      → UnlockAccess m i (client b) (record m { count = m.count - 1 }) (client b)
  unlock : {b : Bool} → m.owner ≡ some i → m.count ≤ 1 → UnlockAccess m i (client b) m giving_up
  has_waiters : {w : ℕ} → m.waiters ≡ some w → UnlockAccess m i giving_up m (reading w)
  no_waiters : m.waiters ≡ none → UnlockAccess m i giving_up m lonely
  no_end : m.wait_end ≡ null → UnlockAccess m i lonely m unreachable
  only_front : m.wait_end ≡ front → UnlockAccess m i lonely m freeing
  some_end : {e : ℕ} → m.wait_end ≡ node e → UnlockAccess m i lonely m (expecting (node e))
  disown : UnlockAccess m i freeing (record m { owner = none }) closing
  close :
      m.wait_end ≡ front → UnlockAccess m i closing (record m { wait_end = null }) (client false)
  reopened : m.wait_end ≢ front → UnlockAccess m i closing m (expecting m.wait_end)
  expect : {e : End} → m.waiters ≡ none → UnlockAccess m i (expecting e) m (expecting e)
  found : {w : ℕ} → m.waiters ≡ some w → UnlockAccess m i (expecting null) m (reading w)
  found_end : {w : ℕ} → m.waiters ≡ some w → UnlockAccess m i (expecting (node w)) m (emptying w)
  found_other :
      {w : ℕ} {e : End}
      → m.waiters ≡ some w
      → e ≢ null
      → e ≢ node w
      → UnlockAccess m i (expecting e) m (following w)
  has_next : {w n : ℕ} → m.temp0 w ≡ some n → UnlockAccess m i (reading w) m (shifting w n)
  no_next : {w : ℕ} → m.temp0 w ≡ none → UnlockAccess m i (reading w) m (checking w)
  is_end : {w : ℕ} → m.wait_end ≡ node w → UnlockAccess m i (checking w) m (emptying w)
  not_end : {w : ℕ} → m.wait_end ≢ node w → UnlockAccess m i (checking w) m (following w)
  empty : {w : ℕ} → UnlockAccess m i (emptying w) (record m { waiters = none }) (cutting w)
  cut :
      {w : ℕ}
      → m.wait_end ≡ node w
      → UnlockAccess m i (cutting w) (record m { wait_end = front }) (granting w)
  not_cut : {w : ℕ} → m.wait_end ≢ node w → UnlockAccess m i (cutting w) m (following w)
  follow : {w : ℕ} → m.temp0 w ≡ none → UnlockAccess m i (following w) m (following w)
  followed : {w n : ℕ} → m.temp0 w ≡ some n → UnlockAccess m i (following w) m (shifting w n)
  shift : {w n : ℕ} → UnlockAccess m i (shifting w n) (record m { waiters = some n }) (granting w)
  grant : {w : ℕ} → UnlockAccess m i (granting w) (record m { owner = some w }) (waking w)
  wake :
      {w : ℕ}
      → UnlockAccess m i
          (waking w)
          (record m { schedulable = update m.schedulable w true })
          (client false)

-- One access of thread `i`.
pub data Access (m : Store) (i : ℕ) (p : Stage) (m' : Store) (p' : Stage) : Type 0 where
  trying_lock : TryAccess m i p m' p' → Access m i p m' p'
  locking : FastAccess m i p m' p' → Access m i p m' p'
  queuing : SlowAccess m i p m' p' → Access m i p m' p'
  unlocking : UnlockAccess m i p m' p' → Access m i p m' p'

pub record World : Type 0 where
  pub store : Store
  pub stage : ℕ → Stage

pub data Turn (s : World) : World → Type 0 where
  turn :
      (i : ℕ) {m : Store} {p : Stage}
      → Access s.store i (s.stage i) m p
      → Turn s (record { store = m; stage = update s.stage i p })

-- The members that mtx_init sets
abbrev pub set_up : (count : ℕ) → Store → Store
set_up count m = record m { owner = none; waiters = none; wait_end = null; count = count }

-- mtx_init, none for thrd_error
unfoldable pub mtx_init : (type : ℕ) → Store → Option Store
mtx_init type m =
    if type == mtx_plain
    then some (set_up 0 m)
    else if type == mtx_plain + mtx_recursive
    then some (set_up 1 m)
    else none

-- All threads are outside the three functions, and none has the mutex.
abbrev pub at_rest : Store → World
at_rest m = record { store = m; stage = λ _. client false }

pub data Turns (s : World) : World → Type 0 where
  here : Turns s s
  next : {t u : World} → Turns s t → Turn t u → Turns s u

-- The thread may run what the mutex protects.
abbrev pub locked_by : Stage → Bool
locked_by (client b) = b
locked_by _ = false
