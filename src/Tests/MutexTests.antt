-- ===== src/Tests/MutexTests.antt =====
-- The mutex with two threads: one locks it, the other falls asleep behind it and is given it.
use myos_io.Base.{ℕ, ◌≡◌, ◌≢◌, ◌⊎◌, refl, some, none, true, false, arith}
use myos_io.Mutex.Defs.{
  null, front, node, Store, client, waking, asleep, World, Turns, here, next, turn, mtx_init,
  mtx_plain, set_up, at_rest, lock_free, seen_free, win, take, lock_busy, clear, look_held, locking,
  queuing, unlocking, swap_held, link_front, unlock, has_waiters, no_next, is_end, empty, cut,
  grant, wake, wake_up, unreachable,
}
use myos_io.Mutex.Line.{lines_up, gives}
use myos_io.Mutex.Progress.{idle, no_one_forgotten}
use myos_io.Mutex.Safety.{lockers_exclude, owner_locked, waking_sleeper}

-- Memory that holds anything.
abbrev raw : Store
raw = record {
  owner = some 7;
  waiters = some 3;
  wait_end = node 3;
  count = 9;
  temp0 = λ _. some 5;
  schedulable = λ _. false;
}

raw_init : mtx_init mtx_plain raw ≡ some (set_up 0 raw)
unfolding mtx_init
raw_init = refl

-- A type that is none of the two.
raw_timed : mtx_init 2 raw ≡ none
unfolding mtx_init
raw_timed = refl

abbrev Run : Type 0
Run = (s : World) × Turns (at_rest (set_up 0 raw)) s

-- Thread 0 has locked it.
abbrev one_locks : Run
one_locks =
    let a : Run = (_, next here (turn 0 (locking (lock_free refl)))) in
    let b : Run = (_, next a.1 (turn 0 (locking (seen_free refl)))) in
    let c : Run = (_, next b.1 (turn 0 (locking (win refl)))) in
    (_, next c.1 (turn 0 (locking take)))

not_free : one_locks.0.store.owner ≢ none
not_free e = cc

not_mine : one_locks.0.store.owner ≢ some 1
not_mine e = ground (arith, e)

not_null : front ≢ null
not_null e = cc

-- Thread 1 sleeps behind it.
abbrev one_sleeps : Run
one_sleeps =
    let a : Run = (_, next one_locks.1 (turn 1 (locking (lock_busy not_free not_mine)))) in
    let b : Run = (_, next a.1 (turn 1 (locking clear))) in
    let c : Run = (_, next b.1 (turn 1 (queuing (look_held not_null)))) in
    let d : Run = (_, next c.1 (turn 1 (queuing (swap_held not_null)))) in
    (_, next d.1 (turn 1 (queuing link_front)))

-- Thread 0 is about to wake thread 1.
abbrev one_wakes : Run
one_wakes =
    let a : Run = (_, next one_sleeps.1 (turn 0 (unlocking (unlock refl (omega arith))))) in
    let b : Run = (_, next a.1 (turn 0 (unlocking (has_waiters refl)))) in
    let c : Run = (_, next b.1 (turn 0 (unlocking (no_next refl)))) in
    let d : Run = (_, next c.1 (turn 0 (unlocking (is_end refl)))) in
    let e : Run = (_, next d.1 (turn 0 (unlocking empty))) in
    let f : Run = (_, next e.1 (turn 0 (unlocking (cut refl)))) in
    (_, next f.1 (turn 0 (unlocking grant)))

-- Thread 1 has the mutex, and thread 0 has not.
abbrev handed : Run
handed =
    let a : Run = (_, next one_wakes.1 (turn 0 (unlocking wake))) in
    (_, next a.1 (turn 1 (queuing (wake_up refl))))

handed_stages :
    (handed.0.stage 0 ≡ client false)
    × (handed.0.stage 1 ≡ client true)
    × (handed.0.store.wait_end ≡ front)
    × (handed.0.store.waiters ≡ none)
handed_stages = (refl, refl, refl, refl)

abbrev second : ℕ
second = 1

lockers_exclude_example : second ≡ second
lockers_exclude_example =
    lockers_exclude mtx_plain raw raw_init (λ i. refl) handed.1 second second refl refl

owner_locked_example :
    (one_sleeps.0.stage 0 ≡ client true → one_sleeps.0.store.owner ≡ some 0)
    × (one_sleeps.0.stage 0 ≡ client false → one_sleeps.0.store.owner ≢ some 0)
    × (one_sleeps.0.stage 0 ≢ unreachable)
owner_locked_example = owner_locked mtx_plain raw raw_init (λ i. refl) one_sleeps.1 0

waking_sleeper_example :
    (one_wakes.0.stage 1 ≡ asleep)
    × (one_wakes.0.store.schedulable 1 ≡ false)
    × (one_wakes.0.store.owner ≡ some 1)
    × ((j v : ℕ) → one_wakes.0.stage j ≡ waking v → j ≡ 0)
waking_sleeper_example = waking_sleeper mtx_plain raw raw_init (λ i. refl) one_wakes.1 0 1 refl

no_one_forgotten_example :
    (j : ℕ) × ((lines_up (one_wakes.0.stage j) ≡ true) ⊎ (gives (one_wakes.0.stage j) ≡ true))
    × (idle one_wakes.0.store j (one_wakes.0.stage j) ≡ false)
no_one_forgotten_example =
    no_one_forgotten mtx_plain raw (set_up 0 raw) raw_init (λ i. refl) one_wakes.0 one_wakes.1 1
      refl
