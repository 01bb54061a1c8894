-- ===== src/Mutex/Unlock.antt =====
-- Each access of mtx_unlock keeps a line.
use mathlib.Core.Path.{subst}
use myos_io.Base.{ℕ, ◌-◌, ◌≡◌, refl, sym, ap, ◌∙◌, none, some, true, false, update}
use myos_io.Mutex.Defs.{
  null, front, node, Store, Stage, giving_up, lonely, freeing, closing, expecting, waking,
  UnlockAccess, not_owner, undo, unlock, has_waiters, no_waiters, no_end, only_front, some_end,
  disown, close, reopened, expect, found, found_end, found_other, has_next, no_next, is_end,
  not_end, empty, cut, not_cut, follow, followed, shift, grant, wake,
}
use myos_io.Mutex.Line.{Line, Expects, lines_up, IsSound}
use myos_io.Mutex.Looks.{to_next, more_than_one, next_more, other_more}
use myos_io.Mutex.Reads.{know, look_client_stay, look_next, look_on}
use myos_io.Mutex.Quiet.{keeps}
use myos_io.Mutex.Owner.{first_writes, giver_writes}
use myos_io.Mutex.Waiters.{count-IsSound, empty-IsSound}
use myos_io.Mutex.Wake.{wake-IsSound}
use myos_io.Mutex.Close.{close-IsSound}
use myos_io.Mutex.Shift.{cut-IsSound, shift-IsSound}

pub UnlockAccess-IsSound :
    {q : Line} {m : Store} {stage : ℕ → Stage} (inv : IsSound q m stage) (i : ℕ) {p p' : Stage}
    {m' : Store}
    → UnlockAccess m i p m' p'
    → stage i ≡ p
    → (r : Line) × IsSound r m' (update stage i p')
UnlockAccess-IsSound {q} inv i (not_owner {b} g) e = (q, look_client_stay inv i b e)
UnlockAccess-IsSound {q} {m} inv i (undo {b} g f) e =
    (q, look_client_stay (count-IsSound inv i (m.count - 1)) i b e)
UnlockAccess-IsSound {q} inv i (unlock {b = true} g n) e =
    (q, look_on inv i giving_up e refl (λ s. cc, refl, λ t. cc) (λ s. cc) (λ k. k))
UnlockAccess-IsSound {q} inv i (unlock {b = false} g n) e = absurd (know inv i e g)
UnlockAccess-IsSound {q} inv i (has_waiters {w} g) e = (
  q,
  look_next inv i w e (to_next inv i w g) refl refl (λ s. cc, λ t. cc) (λ s. cc)
      (λ n. ((know inv i e).0, n)),
)
UnlockAccess-IsSound {q} inv i (no_waiters g) e =
    (q, look_on inv i lonely e refl (λ s. cc, refl, λ t. cc) (λ s. cc) (λ k. k))
UnlockAccess-IsSound {q} inv i (no_end g) e =
    let (settled, last) = more_than_one inv i (know inv i e).0 (ap lines_up e) (λ f. cc) in
    absurd (cc)
UnlockAccess-IsSound {q} inv i (only_front g) e =
    (q, look_on inv i freeing e refl (λ s. cc, refl, λ t. cc) (λ s. cc) (λ k. k))
UnlockAccess-IsSound {q} inv i (some_end {e = v} g) e = (
  q,
  look_on inv i (expecting (node v)) e refl (λ s. cc, refl, λ t. cc) (λ s. cc)
      (λ k. (
        k.0,
        let (end, last) = more_than_one inv i k.0 (ap lines_up e) (λ f. cc) in
            subst (Expects q) (sym end ∙ g) last,
      )),
)
UnlockAccess-IsSound {q} inv i disown e =
    let (h, o) = know inv i e in
    (
      q,
      first_writes inv i closing none e refl (λ s. cc) (λ s. cc) true h refl refl (λ j n s. cc)
          (h, refl),
    )
UnlockAccess-IsSound inv i (close g) e = (_, close-IsSound inv i e g)
UnlockAccess-IsSound {q} {m} inv i (reopened g) e = (
  q,
  look_on inv i (expecting m.wait_end) e refl (λ s. cc, refl, λ t. cc) (λ s. cc)
      (λ k. (
        k.0,
        let (end, last) = more_than_one inv i k.0 (ap lines_up e) g in
            subst (Expects q) (sym end) last,
      )),
)
UnlockAccess-IsSound {q} inv i (expect {e = v} g) e =
    (q, look_on inv i (expecting v) e refl (λ s. cc, refl, λ t. cc) (λ s. cc) (λ k. k))
UnlockAccess-IsSound {q} inv i (found {w} g) e = absurd (know inv i e).1
UnlockAccess-IsSound {q} inv i (found_end {w} g) e = (
  q,
  look_next inv i w e (to_next inv i w g) refl refl (λ s. cc, λ t. cc) (λ s. cc)
      (λ n. ((know inv i e).0, n)),
)
UnlockAccess-IsSound {q} inv i (found_other {w} {e = null} g a b) e = absurd (know inv i e).1
UnlockAccess-IsSound {q} inv i (found_other {w} {e = front} g a b) e = absurd (know inv i e).1
UnlockAccess-IsSound {q} inv i (found_other {w} {e = node v} g a b) e =
    let (h, v_in) = know inv i e in
    let next = to_next inv i w g in
    (
      q,
      look_next inv i w e next refl refl (λ s. cc, λ t. cc) (λ s. cc)
          (λ n. (h, n, other_more inv i w v next v_in (λ s. b (ap node s)))),
    )
UnlockAccess-IsSound {q} inv i (has_next {w} {n = j} g) e =
    let (h, next) = know inv i e in
    (q, look_next inv i w e next refl refl (λ s. cc, λ t. cc) (λ s. cc) (λ n. (h, n, g)))
UnlockAccess-IsSound {q} inv i (no_next {w} g) e =
    let (h, next) = know inv i e in
    (q, look_next inv i w e next refl refl (λ s. cc, λ t. cc) (λ s. cc) (λ n. (h, n)))
UnlockAccess-IsSound {q} inv i (is_end {w} g) e =
    let (h, next) = know inv i e in
    (q, look_next inv i w e next refl refl (λ s. cc, λ t. cc) (λ s. cc) (λ n. (h, n)))
UnlockAccess-IsSound {q} inv i (not_end {w} g) e =
    let (h, next) = know inv i e in
    (
      q,
      look_next inv i w e next refl refl (λ s. cc, λ t. cc) (λ s. cc)
          (λ n. (h, n, next_more inv i w next g)),
    )
UnlockAccess-IsSound {q} inv i (empty {w}) e = (q, empty-IsSound inv i w e)
UnlockAccess-IsSound inv i (cut {w} g) e = (_, cut-IsSound inv i w e g)
UnlockAccess-IsSound {q} inv i (not_cut {w} g) e =
    let (h, next, n_w) = know inv i e in
    (
      q,
      look_next inv i w e next refl refl (λ s. cc, λ t. cc) (λ s. cc)
          (λ n. (h, n, next_more inv i w next g)),
    )
UnlockAccess-IsSound {q} inv i (follow {w} g) e =
    let (h, next, more) = know inv i e in
    (q, look_next inv i w e next refl refl (λ s. cc, λ t. cc) (λ s. cc) (λ n. (h, n, more)))
UnlockAccess-IsSound {q} inv i (followed {w} {n = j} g) e =
    let (h, next, more) = know inv i e in
    (q, look_next inv i w e next refl refl (λ s. cc, λ t. cc) (λ s. cc) (λ n. (h, n, g)))
UnlockAccess-IsSound inv i (shift {w} {n = j}) e = (_, shift-IsSound inv i w j e)
UnlockAccess-IsSound {q} inv i (grant {w}) e =
    let given = know inv i e in
    (
      q,
      giver_writes inv i (waking w) (some w) e refl (λ s. cc) (λ s. cc) w given refl refl refl
          (
            record {
              gives = given.gives;
              some_one = given.some_one;
              first = given.first;
              sleeps = keeps inv i {p' = waking w} e refl (λ s. cc) (λ s. cc) w given.sleeps;
              unwoken = given.unwoken;
              is_settled = given.is_settled;
            },
            refl,
          ),
    )
UnlockAccess-IsSound {q} inv i (wake {w}) e = (q, wake-IsSound inv i w e)
