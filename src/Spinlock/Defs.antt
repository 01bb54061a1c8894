-- ===== src/Spinlock/Defs.antt =====
-- The queue lock of include/spinlock.h: its memory, a call of cli_spinlock_do__ step by step, and
-- any number of calls interleaved.
use myos_io.Base.{ℕ, ◌≡◌, ◌≢◌, Option, none, some, Bool, true, false, not, update, is_none}

-- The mutex, and the members by number: a member is a local variable of one call of
-- cli_spinlock_do__, so calls and members have the same numbers. A pointer to a member is its number.
pub record Memory : Type 0 where
  pub spin_mutex : Option ℕ
  pub is_locked : ℕ → Bool
  pub next : ℕ → Option ℕ

-- Where a call stands, with its locals. `waiting` keeps last_last, which is still in scope.
pub data Pc : Type 0 where
  outside : Pc  -- before the exchange in spin_lock_inline; the member is initialised
  linking : (last_last : ℕ) → Pc  -- before the store to last_last->next
  waiting : (last_last : ℕ) → Pc  -- at the loop on is_locked
  entered : Pc  -- func, up to the load of *spin_mutex in spin_unlock_inline
  releasing : Pc  -- before the compare-exchange
  released : Pc  -- after it has succeeded, before the test of next
  handing : Pc  -- at the loop on next
  granting : (temp : ℕ) → Pc  -- before the store to temp->is_locked
  returned : Pc  -- the member is gone
  unreachable : Pc  -- at __builtin_unreachable

-- One step of call `i`.
pub data Move (m : Memory) (i : ℕ) : Pc → Memory → Pc → Type 0 where
  swap_free : m.spin_mutex ≡ none → Move m i outside (record m { spin_mutex = some i }) entered
  swap_held :
      {p : ℕ}
      → m.spin_mutex ≡ some p
      → Move m i outside (record m { spin_mutex = some i }) (linking p)
  link : {p : ℕ} → Move m i (linking p) (record m { next = update m.next p (some i) }) (waiting p)
  spin : {p : ℕ} → m.is_locked i ≡ false → Move m i (waiting p) m (waiting p)
  enter : {p : ℕ} → m.is_locked i ≡ true → Move m i (waiting p) m entered
  is_last : m.spin_mutex ≡ some i → Move m i entered m releasing
  not_last : m.spin_mutex ≢ some i → Move m i entered m handing
  cas_win : m.spin_mutex ≡ some i → Move m i releasing (record m { spin_mutex = none }) released
  cas_lose : m.spin_mutex ≢ some i → Move m i releasing m handing
  no_next : m.next i ≡ none → Move m i released m returned
  has_next : m.next i ≢ none → Move m i released m unreachable
  wait_next : m.next i ≡ none → Move m i handing m handing
  got_next : {j : ℕ} → m.next i ≡ some j → Move m i handing m (granting j)
  grant :
      {j : ℕ} → Move m i (granting j) (record m { is_locked = update m.is_locked j true }) returned

pub record System : Type 0 where
  pub mem : Memory
  pub pc : ℕ → Pc

pub data Step (s : System) : System → Type 0 where
  pick :
      (i : ℕ) {m : Memory} {p : Pc}
      → Move s.mem i (s.pc i) m p
      → Step s (record { mem = m; pc = update s.pc i p })

-- spin_mutex_init, and a member for each call by spin_mutex_member_init
abbrev pub init : System
init = record {
  mem = record { spin_mutex = none; is_locked = λ _. false; next = λ _. none };
  pc = λ _. Pc.outside;
}

pub data Steps (s : System) : System → Type 0 where
  start : Steps s s
  later : {t u : System} → Steps s t → Step t u → Steps s u

abbrev pub Reach : System → Type 0
Reach = Steps init

-- Holding the lock: from the end of spin_lock_inline to the store that passes the lock on, or the
-- compare-exchange that frees it.
abbrev pub owns : Pc → Bool
owns entered = true
owns releasing = true
owns handing = true
owns (granting _) = true
owns _ = false

-- The member is in the queue.
abbrev pub queued : Pc → Bool
queued (linking _) = true
queued (waiting _) = true
queued p = owns p

-- The member has not been left: its call has not returned.
abbrev pub is_live : Pc → Bool
is_live returned = false
is_live _ = true

-- The next step of call `i` is a round of one of the two loops.
abbrev pub spins : Memory → ℕ → Pc → Bool
spins m i (waiting _) = not (m.is_locked i)
spins m i handing = is_none (m.next i)
spins m i _ = false
