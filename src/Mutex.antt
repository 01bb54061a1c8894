-- ===== src/Mutex.antt =====
-- sched/mutex/mtx_init.c, mtx_lock_c.c, mtx_trylock_c.c and mtx_unlock_c.c: the mutex with its line
-- of sleeping threads, one access to shared memory at a time, in an order that is the same for all
-- threads.
pub mod Defs
pub mod Line
pub mod Quiet
pub mod Looks
pub mod Reads
pub mod Owner
pub mod Wake
pub mod Nodes
pub mod Waiters
pub mod Push
pub mod Settle
pub mod Close
pub mod Pass
pub mod Shift
pub mod Enter
pub mod Slow
pub mod Unlock
pub mod Sound
pub mod Safety
pub mod Progress
