-- ===== src/Mutex/Safety.antt =====
-- What the mutex promises in every reachable state.
use myos_io.Base.{
  ℕ, ◌≡◌, ◌≢◌, refl, sym, ap, ◌==◌, ◌∙◌, none, some, true, false, Bool-cases, inl, inr, arith,
}
use myos_io.Mutex.Defs.{
  Stage, client, asleep, waking, unreachable, World, turn, Turns, here, next, Store, null, mtx_init,
  mtx_plain, set_up, at_rest, locked_by,
}
use myos_io.Mutex.Line.{Line, IsSound}
use myos_io.Mutex.Sound.{Access-IsSound}
use myos_io.Mutex.Reads.{know}

-- What mtx_init leaves when it does not return thrd_error.
abbrev IsSetUp : Store → Store → Type 0
IsSetUp m₀ m =
    (m.owner ≡ none) × (m.waiters ≡ none) × (m.wait_end ≡ null) × (m.schedulable ≡ m₀.schedulable)

set_up-IsSetUp : (c : ℕ) (m₀ m : Store) → set_up c m₀ ≡ m → IsSetUp m₀ m
set_up-IsSetUp c m₀ m e = (
  ap (λ x. x.owner) (sym e),
  ap (λ x. x.waiters) (sym e),
  ap (λ x. x.wait_end) (sym e),
  ap (λ x. x.schedulable) (sym e),
)

mtx_init-IsSetUp : (type : ℕ) (m₀ m : Store) → mtx_init type m₀ ≡ some m → IsSetUp m₀ m
unfolding mtx_init
mtx_init-IsSetUp type m₀ m e = elim (Bool-cases (type == mtx_plain)) [
  | inl plain ↦ set_up-IsSetUp 0 m₀ m cc
  | inr other ↦ set_up-IsSetUp 1 m₀ m (ground (arith, e, other))
]

at_rest-IsSound :
    (m : Store)
    → (m.owner ≡ none) × (m.waiters ≡ none) × (m.wait_end ≡ null)
    → ((i : ℕ) → m.schedulable i ≡ false)
    → IsSound
        (record { at = λ k. k; place = λ k. k; head = 0; tail = 0; settled = true; giver = 0 })
        m
        (at_rest m).stage
at_rest-IsSound m (own, wait, end) still = record {
  joined_node = λ j s. absurd cc;
  joined_front = λ j s. absurd cc;
  passing = λ h. absurd (omega arith);
  ordered = omega arith;
  free = λ e. (end, wait, own);
  held = λ h. absurd (omega arith);
  placed = λ i e. cc;
  filled = λ k lo hi. absurd (omega arith);
  unready = λ i n. still i;
  knows = λ i. λ e. ground (arith, own, e);
  waiting = λ j e. absurd (ground (arith, wait, e));
  linked = λ i j e f n. cc;
}

-- Every reachable state has its line.
Turns-IsSound :
    {m : Store} {s : World}
    → (m.owner ≡ none) × (m.waiters ≡ none) × (m.wait_end ≡ null)
    → ((i : ℕ) → m.schedulable i ≡ false)
    → Turns (at_rest m) s
    → (q : Line) × IsSound q s.store s.stage
Turns-IsSound {m} clear still here = (_, at_rest-IsSound m clear still)
Turns-IsSound clear still (next r (turn i a)) =
    let (q, inv) = Turns-IsSound clear still r in Access-IsSound inv i a refl

module _ {q : Line} {m : Store} {stage : ℕ → Stage} (inv : IsSound q m stage) where
  open inv use {placed, filled, knows}

  locker_first : (i : ℕ) → locked_by (stage i) ≡ true → (q.at q.head ≡ i) × (m.owner ≡ some i)
  locker_first i e = ground (arith, knows i, placed i)

module _ (type : ℕ) (m₀ : Store) {m : Store} (made : mtx_init type m₀ ≡ some m)
    (still : (i : ℕ) → m₀.schedulable i ≡ false) {s : World} (r : Turns (at_rest m) s) where
  -- The line of a reachable state.
  pub sound : (q : Line) × IsSound q s.store s.stage
  sound =
      let (own, wait, end, same) = mtx_init-IsSetUp type m₀ m made in
      Turns-IsSound (own, wait, end) (λ i. ap (λ f. f i) same ∙ still i) r

  -- In every state that is reachable from a mutex of mtx_init, two threads that have locked it and
  -- have not begun to unlock it are the same thread.
  pub lockers_exclude :
      (i j : ℕ) → locked_by (s.stage i) ≡ true → locked_by (s.stage j) ≡ true → i ≡ j
  lockers_exclude i j in_i in_j =
      let (q, inv) = sound in sym (locker_first inv i in_i).0 ∙ (locker_first inv j in_j).0

  -- In every state that is reachable from a mutex of mtx_init, a thread outside the three functions
  -- that has locked the mutex is its owner, so that mtx_unlock does not return thrd_error to it;
  -- and one that has not locked it is not, so that mtx_unlock does. No thread is at
  -- __builtin_unreachable.
  pub owner_locked :
      (i : ℕ)
      → (s.stage i ≡ client true → s.store.owner ≡ some i)
        × (s.stage i ≡ client false → s.store.owner ≢ some i)
        × (s.stage i ≢ unreachable)
  owner_locked i =
      let (q, inv) = sound in (λ e. (know inv i e).1, λ e. know inv i e, λ e. know inv i e)

  -- In every state that is reachable from a mutex of mtx_init, the thread that mtx_unlock is about
  -- to make schedulable sleeps, has not been made schedulable since it fell asleep, and owns the
  -- mutex; no other thread is about to make one schedulable.
  pub waking_sleeper :
      (i w : ℕ)
      → s.stage i ≡ waking w
      → (s.stage w ≡ asleep)
        × (s.store.schedulable w ≡ false)
        × (s.store.owner ≡ some w)
        × ((j v : ℕ) → s.stage j ≡ waking v → j ≡ i)
  waking_sleeper i w e =
      let (q, inv) = sound in
      let (given, own) = know inv i e in
      (given.sleeps, given.unwoken, own, λ j v f. sym (know inv j f).0.gives ∙ given.gives)
