-- ===== src/Mutex/Slow.antt =====
-- Each access of mtx_lock after its context is saved keeps a line.
use myos_io.Base.{ℕ, ◌≡◌, refl, sym, ap, ◌∙◌, some, true, false, update, arith}
use myos_io.Mutex.Defs.{
  front, node, Store, Stage, client, retrying, exiting, swapping, claimed, late, awaiting, adopting,
  SlowAccess, look_free, look_held, retry_win, retry_lose, exit, swap_free, swap_held, settle,
  overtaken, take_late, await, arrived, adopt, link_front, link, wake_up,
}
use myos_io.Mutex.Line.{Line, lines_up, IsSound}
use myos_io.Mutex.Looks.{overtaken_more}
use myos_io.Mutex.Reads.{know, look_on}
use myos_io.Mutex.Quiet.{update_here}
use myos_io.Mutex.Owner.{first_writes}
use myos_io.Mutex.Nodes.{link-IsSound}
use myos_io.Mutex.Waiters.{link_front-IsSound, adopt-IsSound}
use myos_io.Mutex.Wake.{wake_up-IsSound}
use myos_io.Mutex.Push.{empty_line, start-IsSound, swap_held-IsSound}
use myos_io.Mutex.Settle.{settle-IsSound}

pub SlowAccess-IsSound :
    {q : Line} {m : Store} {stage : ℕ → Stage} (inv : IsSound q m stage) (i : ℕ) {p p' : Stage}
    {m' : Store}
    → SlowAccess m i p m' p'
    → stage i ≡ p
    → (r : Line) × IsSound r m' (update stage i p')
SlowAccess-IsSound {q} inv i (retry_win g) e = (
  _,
  start-IsSound inv i exiting true front e refl refl (λ s. cc) (λ s. cc) g (λ s. refl)
      (λ s. absurd cc) (λ s. absurd cc)
      (update_here q.place i q.tail ∙ sym (empty_line inv i g), refl),
)
SlowAccess-IsSound {q} inv i exit e =
    let h = know inv i e in
    (
      q,
      first_writes inv i (client true) (some i) e refl (λ s. cc) (λ s. cc) true h refl refl
          (λ j n s. ground (arith, n, s)) (h, refl),
    )
SlowAccess-IsSound {q} inv i (swap_free g) e = (
  _,
  start-IsSound inv i claimed false (node i) e refl refl (λ s. cc) (λ s. cc) g (λ s. absurd cc)
      (λ s. refl) (λ s. (know inv i e).1)
      (
        (update_here q.place i q.tail ∙ sym (empty_line inv i g), refl),
        (inv.free (empty_line inv i g)).1,
      ),
)
SlowAccess-IsSound inv i (swap_held g) e = (_, swap_held-IsSound inv i e g)
SlowAccess-IsSound inv i (settle g) e = (_, settle-IsSound inv i e g)
SlowAccess-IsSound {q} inv i (overtaken g) e = (
  q,
  look_on inv i late e refl (λ s. cc, refl, λ t. cc) (λ s. cc)
      (λ (h, w). (h, w, overtaken_more inv i h (ap lines_up e) g)),
)
SlowAccess-IsSound {q} inv i take_late e =
    let (h, w, l) = know inv i e in
    (
      q,
      first_writes inv i awaiting (some i) e refl (λ s. cc) (λ s. cc) false h refl refl
          (λ j n s. ground (arith, n, s)) (h, w, l, refl),
    )
SlowAccess-IsSound {q} inv i (await g) e =
    (q, look_on inv i awaiting e refl (λ s. cc, refl, λ t. cc) (λ s. cc) (λ k. k))
SlowAccess-IsSound {q} inv i (arrived {j} g) e = (
  q,
  look_on inv i (adopting j) e refl (λ s. cc, refl, λ t. cc) (λ s. cc)
      (λ (h, w, l, o). (h, w, g, o)),
)
SlowAccess-IsSound inv i (adopt {j}) e = (_, adopt-IsSound inv i j e)
SlowAccess-IsSound {q} inv i link_front e = (q, link_front-IsSound inv i e)
SlowAccess-IsSound {q} inv i (link {p}) e = (q, link-IsSound inv i p e)
SlowAccess-IsSound {q} inv i (wake_up g) e = (q, wake_up-IsSound inv i e g)
SlowAccess-IsSound {q} inv i (look_free g) e =
    (q, look_on inv i retrying e refl (λ s. cc, refl, λ t. cc) (λ s. cc) (λ k. k))
SlowAccess-IsSound {q} inv i (look_held g) e =
    (q, look_on inv i swapping e refl (λ s. cc, refl, λ t. cc) (λ s. cc) (λ k. k))
SlowAccess-IsSound {q} inv i (retry_lose g) e =
    (q, look_on inv i swapping e refl (λ s. cc, refl, λ t. cc) (λ s. cc) (λ k. k))
