-- ===== src/Tests/SpinlockTests.antt =====
-- The spin lock with two calls: one enters, the other queues behind it and is handed the lock.
use myos_io.Base.{ℕ, ◌≡◌, ◌≢◌, inr, refl, some, true, false, ◌≤◌, arith}
use myos_io.Spinlock.Defs.{
  Pc, outside, entered, returned, System, swap_free, swap_held, link, enter, not_last, got_next,
  grant, pick, Steps, start, later, Reach, queued, is_live, spins,
}
use myos_io.Spinlock.Safety.{mutual_exclusion, never_unreachable, stores_are_safe, no_deadlock}
use myos_io.Spinlock.Schedule.{can_finish, AllReturned}

-- Call 0 holds the lock.
abbrev one_call : (s : System) × Reach s
one_call = (_, later start (pick 0 (swap_free refl)))

-- Call 1 has exchanged and is about to link its member behind that of call 0.
abbrev two_calls : (s : System) × Reach s
two_calls = (_, later one_call.1 (pick 1 (swap_held refl)))

-- Call 1 waits.
abbrev behind : (s : System) × Reach s
behind = (_, later two_calls.1 (pick 1 link))

other_is_last : behind.0.mem.spin_mutex ≢ some 0
other_is_last e = ground (arith, e)

-- Call 0 is about to pass the lock on.
abbrev passing : (s : System) × Reach s
passing = (_, later (later behind.1 (pick 0 (not_last other_is_last))) (pick 0 (got_next refl)))

-- Call 1 holds the lock, and call 0 has returned.
abbrev passed : (s : System) × Reach s
passed = (_, later (later passing.1 (pick 0 grant)) (pick 1 (enter refl)))

passed_pcs : (passed.0.pc 0 ≡ returned) × (passed.0.pc 1 ≡ entered)
passed_pcs = (refl, refl)

abbrev waiter : ℕ
waiter = 1

mutual_exclusion_example : waiter ≡ waiter
mutual_exclusion_example = mutual_exclusion passed.1 waiter waiter refl refl

never_unreachable_example : passing.0.pc 0 ≢ Pc.unreachable
never_unreachable_example = never_unreachable passing.1 0

stores_are_safe_example : is_live (passing.0.pc 1) ≡ true
stores_are_safe_example = stores_are_safe passing.1 0 1 (inr refl)

no_deadlock_example :
    (j : ℕ) × (queued (behind.0.pc j) ≡ true) × (spins behind.0.mem j (behind.0.pc j) ≡ false)
no_deadlock_example = no_deadlock behind.1 1 refl

outside_past : (i : ℕ) → 2 ≤ i → behind.0.pc i ≡ outside
outside_past i past = ground (arith, past)

can_finish_example : (t : System) × Steps behind.0 t × AllReturned 2 t.pc
can_finish_example = can_finish 2 behind.0 behind.1 outside_past
