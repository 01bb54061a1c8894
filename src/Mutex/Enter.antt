-- ===== src/Mutex/Enter.antt =====
-- Each access of mtx_trylock, and of mtx_lock before its context is saved, keeps a line.
use myos_io.Base.{ℕ, ◌+◌, ◌≡◌, ◌≢◌, refl, sym, ◌∙◌, Option, none, some, true, false, update, arith}
use myos_io.Mutex.Defs.{
  front, Store, Stage, client, peeking, grabbing, seen, trying, taking, clearing, TryAccess,
  try_free, try_busy, try_again_error, try_again, peek_free, peek_held, grab, miss, FastAccess,
  lock_free, lock_busy, again_error, again, seen_free, seen_held, win, lose, take, clear,
}
use myos_io.Mutex.Line.{Line, IsSound}
use myos_io.Mutex.Reads.{know, look_client, look_stay, look_client_stay, look_on}
use myos_io.Mutex.Quiet.{update_here}
use myos_io.Mutex.Owner.{first_writes}
use myos_io.Mutex.Nodes.{clear-IsSound}
use myos_io.Mutex.Waiters.{count-IsSound}
use myos_io.Mutex.Push.{empty_line, start-IsSound}

not_own : (o : Option ℕ) (i : ℕ) → o ≡ none → o ≢ some i
not_own o i e f = cc

pub TryAccess-IsSound :
    {q : Line} {m : Store} {stage : ℕ → Stage} (inv : IsSound q m stage) (i : ℕ) {p p' : Stage}
    {m' : Store}
    → TryAccess m i p m' p'
    → stage i ≡ p
    → (r : Line) × IsSound r m' (update stage i p')
TryAccess-IsSound {q} {m} inv i (try_free {b} g) e =
    (q, look_client inv i b peeking e (not_own m.owner i g) refl (λ s. cc) (λ n. n))
TryAccess-IsSound {q} inv i (try_busy {b} g n) e = (q, look_client_stay inv i b e)
TryAccess-IsSound {q} inv i (try_again_error {b} g f) e = (q, look_client_stay inv i b e)
TryAccess-IsSound {q} {m} inv i (try_again {b = true} g f) e =
    (q, look_stay (count-IsSound inv i (m.count + 1)) i (client true) e (λ s. cc, refl) (λ k. k))
TryAccess-IsSound {q} inv i (try_again {b = false} g f) e = absurd (know inv i e g)
TryAccess-IsSound {q} inv i (grab g) e = (
  _,
  start-IsSound inv i taking true front e refl refl (λ s. cc) (λ s. cc) g (λ s. refl)
      (λ s. absurd cc) (λ s. absurd cc)
      (update_here q.place i q.tail ∙ sym (empty_line inv i g), refl),
)
TryAccess-IsSound {q} inv i (peek_free g) e =
    (q, look_on inv i grabbing e refl (λ s. cc, refl, λ t. cc) (λ s. cc) (λ k. k))
TryAccess-IsSound {q} inv i (peek_held g) e =
    (q, look_on inv i (client false) e refl (λ s. cc, refl, λ t. cc) (λ s. cc) (λ k. k))
TryAccess-IsSound {q} inv i (miss g) e =
    (q, look_on inv i (client false) e refl (λ s. cc, refl, λ t. cc) (λ s. cc) (λ k. k))

pub FastAccess-IsSound :
    {q : Line} {m : Store} {stage : ℕ → Stage} (inv : IsSound q m stage) (i : ℕ) {p p' : Stage}
    {m' : Store}
    → FastAccess m i p m' p'
    → stage i ≡ p
    → (r : Line) × IsSound r m' (update stage i p')
FastAccess-IsSound {q} {m} inv i (lock_free {b} g) e =
    (q, look_client inv i b seen e (not_own m.owner i g) refl (λ s. cc) (λ n. n))
FastAccess-IsSound {q} inv i (lock_busy {b} g n) e =
    (q, look_client inv i b clearing e n refl (λ s. cc) (λ k. k))
FastAccess-IsSound {q} inv i (again_error {b} g f) e = (q, look_client_stay inv i b e)
FastAccess-IsSound {q} {m} inv i (again {b = true} g f) e =
    (q, look_stay (count-IsSound inv i (m.count + 1)) i (client true) e (λ s. cc, refl) (λ k. k))
FastAccess-IsSound {q} inv i (again {b = false} g f) e = absurd (know inv i e g)
FastAccess-IsSound {q} inv i (win g) e = (
  _,
  start-IsSound inv i taking true front e refl refl (λ s. cc) (λ s. cc) g (λ s. refl)
      (λ s. absurd cc) (λ s. absurd cc)
      (update_here q.place i q.tail ∙ sym (empty_line inv i g), refl),
)
FastAccess-IsSound {q} inv i take e =
    let h = know inv i e in
    (
      q,
      first_writes inv i (client true) (some i) e refl (λ s. cc) (λ s. cc) true h refl refl
          (λ j n s. ground (arith, n, s)) (h, refl),
    )
FastAccess-IsSound {q} inv i clear e = (q, clear-IsSound inv i e)
FastAccess-IsSound {q} inv i (seen_free g) e =
    (q, look_on inv i trying e refl (λ s. cc, refl, λ t. cc) (λ s. cc) (λ k. k))
FastAccess-IsSound {q} inv i (seen_held g) e =
    (q, look_on inv i clearing e refl (λ s. cc, refl, λ t. cc) (λ s. cc) (λ k. k))
FastAccess-IsSound {q} inv i (lose g) e =
    (q, look_on inv i clearing e refl (λ s. cc, refl, λ t. cc) (λ s. cc) (λ k. k))
