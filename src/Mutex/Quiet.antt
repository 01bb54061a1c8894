-- ===== src/Mutex/Quiet.antt =====
-- Accesses that leave the memory and the line as they are.
use mathlib.Core.Path.{subst}
use native.Mathlib.Decide.{ℕ_discrete}
use myos_io.Base.{inl, inr, true, ℕ, ◌≡◌, ◌≢◌, refl, sym, ap, ◌∙◌, false, update, arith}
use myos_io.Mutex.Defs.{
  Store, Stage, asleep, reading, checking, emptying, cutting, following, shifting, granting, waking,
}
use myos_io.Mutex.Line.{Line, Knows, lines_up, gives, emptied, IsSound}

-- The thread that a stage names as asleep.
abbrev pub subject : Stage → ℕ
subject (reading w) = w
subject (checking w) = w
subject (emptying w) = w
subject (cutting w) = w
subject (following w) = w
subject (shifting w _) = w
subject (granting w) = w
subject (waking w) = w
subject _ = 0

-- A thread in the line does not pass the mutex on.
pub lines_up-gives : (p : Stage) → lines_up p ≡ true → gives p ≡ false
lines_up-gives p l = ground (arith, l)

-- What a thread knows of the others is only that they sleep.
pub Knows-frame :
    (q : Line) (m : Store) (f g : ℕ → Stage) (j : ℕ) (x : Stage)
    → (f (subject x) ≡ asleep → g (subject x) ≡ asleep)
    → Knows q m f j x
    → Knows q m g j x
Knows-frame q m f g j x same k = ground (arith, same)

-- Writing at one place, and reading there or elsewhere.
pub update_here {ℓ} : {A : Type ℓ} (f : ℕ → A) (i : ℕ) (a : A) → update f i a i ≡ a
update_here f i a = ground arith

pub update_past {ℓ} : {A : Type ℓ} (f : ℕ → A) (a : A) {i j : ℕ} → i ≢ j → update f i a j ≡ f j
update_past f a n = ground (arith, n)

-- What holds of the new value and of the others holds of all.
pub update_all {ℓ κ} :
    {A : Type ℓ} (P : ℕ → A → Type κ) {f : ℕ → A} {i : ℕ} {a : A}
    → P i a
    → ((j : ℕ) → i ≢ j → P j (f j))
    → (j : ℕ) → P j (update f i a j)
update_all P {f} {i} {a} now rest j = elim (ℕ_discrete i j) [
  | yes same ↦ subst (λ k. P k (update f i a k)) same (subst (P i) (sym (update_here f i a)) now)
  | no other ↦ subst (P j) (sym (update_past f a other)) (rest j other)
]

module _ {q : Line} {m : Store} {stage : ℕ → Stage} (inv : IsSound q m stage) (i : ℕ) {p p' : Stage}
    (e : stage i ≡ p) (line : lines_up p' ≡ lines_up p) (was_up : p ≢ asleep)
    (is_up : p' ≢ asleep) where
  open inv use {placed, filled, unready, knows, waiting, linked}

  pub line_same : (j : ℕ) → lines_up (update stage i p' j) ≡ lines_up (stage j)
  line_same =
      update_all (λ j x. lines_up x ≡ lines_up (stage j)) (line ∙ ap lines_up (sym e)) (λ j n. refl)

  pub keeps : (w : ℕ) → stage w ≡ asleep → update stage i p' w ≡ asleep
  keeps =
      update_all (λ w x. stage w ≡ asleep → x ≡ asleep) (λ s. absurd (was_up (sym e ∙ s)))
        (λ j n s. s)

  -- A thread that sleeps after the access slept before.
  pub falls_not : (j : ℕ) → update stage i p' j ≡ asleep → stage j ≡ asleep
  falls_not = update_all (λ j x. x ≡ asleep → stage j ≡ asleep) (λ s. absurd (is_up s)) (λ j n s. s)

  not_giver : {g : ℕ} → i ≡ g → gives p ≡ false → gives (stage g) ≡ true → ⊥
  not_giver t other old = ground (arith, ap gives (sym e ∙ ap stage t), other, old)

  pub emptied_still :
      (emptied p ≡ true → emptied p' ≡ true)
      → (j : ℕ) → emptied (stage j) ≡ true
      → emptied (update stage i p' j) ≡ true
  emptied_still grows =
      update_all (λ j x. emptied (stage j) ≡ true → emptied x ≡ true)
        (λ t. grows (ap emptied (sym e) ∙ t)) (λ j n t. t)

  pub quiet :
      gives p ≡ false
      → (emptied p ≡ true → emptied p' ≡ true)
      → Knows q m (update stage i p') i p'
      → IsSound q m (update stage i p')
  quiet other grows now = record {
    ordered = inv.ordered;
    free = inv.free;
    held = inv.held;
    placed = λ j l. placed j (sym (line_same j) ∙ l);
    filled = λ k lo hi. (line_same (q.at k) ∙ (filled k lo hi).0, (filled k lo hi).1);
    unready =
        update_all (λ j x. x ≢ asleep → m.schedulable j ≡ false)
          (λ n. unready i (λ s. was_up (sym e ∙ s))) (λ j n. unready j);
    knows = update_all (Knows q m (update stage i p')) now (λ j n.
        Knows-frame q m stage (update stage i p') j (stage j) (keeps (subject (stage j)))
          (knows j));
    waiting = λ j h.
        let (settled, n) = waiting j h in
        (settled, record { behind = n.behind; there = n.there; sleeps = keeps j n.sleeps });
    linked = λ a b l f h.
        let n = linked a b (sym (line_same a) ∙ l) f h in
        record { behind = n.behind; there = n.there; sleeps = keeps b n.sleeps };
    joined_node = λ j s. inv.joined_node j (falls_not j s);
    joined_front = λ j s k l. elim (inv.joined_front j (falls_not j s) k l) [
      | inl w ↦ inl w
      | inr t ↦ inr (emptied_still grows (q.at q.head) t)
    ];
    passing = λ some_one s u.
        let first : stage (q.at q.head) ≡ asleep = falls_not (q.at q.head) s in
        let old = inv.passing some_one first u in
        ap gives (update_past stage p' (λ t. not_giver t other old)) ∙ old;
  }
