-- ===== src/Mutex/Sound.antt =====
-- Each access keeps a line.
use myos_io.Base.{ℕ, ◌≡◌, update}
use myos_io.Mutex.Defs.{Store, Stage, Access, trying_lock, locking, queuing, unlocking}
use myos_io.Mutex.Line.{Line, IsSound}
use myos_io.Mutex.Enter.{TryAccess-IsSound, FastAccess-IsSound}
use myos_io.Mutex.Slow.{SlowAccess-IsSound}
use myos_io.Mutex.Unlock.{UnlockAccess-IsSound}

pub Access-IsSound :
    {q : Line} {m : Store} {stage : ℕ → Stage} (inv : IsSound q m stage) (i : ℕ) {p p' : Stage}
    {m' : Store}
    → Access m i p m' p'
    → stage i ≡ p
    → (r : Line) × IsSound r m' (update stage i p')
Access-IsSound inv i (trying_lock a) e = TryAccess-IsSound inv i a e
Access-IsSound inv i (locking a) e = FastAccess-IsSound inv i a e
Access-IsSound inv i (queuing a) e = SlowAccess-IsSound inv i a e
Access-IsSound inv i (unlocking a) e = UnlockAccess-IsSound inv i a e
