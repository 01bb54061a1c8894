-- ===== src/Spinlock.antt =====
-- include/spinlock.h and sched/mutex/spinlock_do_c.c: the queue lock, one access to shared memory at
-- a time, in an order that is the same for all processors.
pub mod Defs
pub mod Queue
pub mod Moves
pub mod Safety
pub mod Schedule
