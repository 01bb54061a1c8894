-- ===== src/Mutex/Reads.antt =====
-- Each access that only reads keeps the line.
use mathlib.Core.Path.{subst}
use myos_io.Base.{ℕ, ◌≡◌, ◌≢◌, refl, sym, ◌∙◌, some, Bool, true, false, update}
use myos_io.Mutex.Defs.{Store, Stage, client, asleep}
use myos_io.Mutex.Line.{Line, IsNext, Knows, lines_up, gives, emptied, IsSound}
use myos_io.Mutex.Quiet.{quiet, lines_up-gives}
use myos_io.Mutex.Looks.{IsNext-still}

module _ {q : Line} {m : Store} {stage : ℕ → Stage} (inv : IsSound q m stage) (i : ℕ) where
  open inv use {ordered, held, placed, filled, knows, waiting, linked}

  pub know : {p : Stage} → stage i ≡ p → Knows q m stage i p
  know e = subst (Knows q m stage i) e (knows i)

  -- What the stages before and after the access must satisfy.
  pub record IsLook (p p' : Stage) : Type 0 where
    pub at_p : stage i ≡ p
    pub line : lines_up p' ≡ lines_up p
    pub was_up : p ≢ asleep
    pub is_up : p' ≢ asleep
    pub other : gives p ≡ false
    pub grows : emptied p ≡ true → emptied p' ≡ true
    pub now : Knows q m (update stage i p') i p'

  pub look : {p p' : Stage} → IsLook p p' → IsSound q m (update stage i p')
  look r = quiet inv i r.at_p r.line r.was_up r.is_up r.other r.grows r.now

  pub look_on :
      {p : Stage} (p' : Stage)
      → stage i ≡ p
      → lines_up p' ≡ lines_up p
      → (p ≢ asleep) × (gives p ≡ false) × (emptied p ≡ true → emptied p' ≡ true)
      → p' ≢ asleep
      → (Knows q m stage i p → Knows q m (update stage i p') i p')
      → IsSound q m (update stage i p')
  look_on p' e l up up' now = look record {
    at_p = e;
    line = l;
    was_up = up.0;
    is_up = up';
    other = up.1;
    grows = up.2;
    now = now (know e);
  }

  pub look_client :
      (b : Bool) (p : Stage)
      → stage i ≡ client b
      → m.owner ≢ some i
      → lines_up p ≡ false
      → p ≢ asleep
      → (m.owner ≢ some i → Knows q m (update stage i p) i p)
      → IsSound q m (update stage i p)
  look_client true p e n l up now = absurd (n (know e).1)
  look_client false p e n l up now = look record {
    at_p = e;
    line = l;
    was_up = λ s. cc;
    is_up = up;
    other = refl;
    grows = λ t. cc;
    now = now n;
  }

  pub look_stay :
      (p : Stage)
      → stage i ≡ p
      → (p ≢ asleep) × (gives p ≡ false)
      → (Knows q m stage i p → Knows q m (update stage i p) i p)
      → IsSound q m (update stage i p)
  look_stay p e up now = look record {
    at_p = e;
    line = refl;
    was_up = up.0;
    is_up = up.0;
    other = up.1;
    grows = λ t. t;
    now = now (know e);
  }

  pub look_client_stay : (b : Bool) → stage i ≡ client b → IsSound q m (update stage i (client b))
  look_client_stay true e = look_stay (client true) e (λ s. cc, refl) (λ k. k)
  look_client_stay false e = look_stay (client false) e (λ s. cc, refl) (λ k. k)

  -- With the next of the line in hand.
  pub look_next :
      {p p' : Stage} (w : ℕ)
      → stage i ≡ p
      → IsNext q stage w
      → lines_up p ≡ true
      → lines_up p' ≡ true
      → (p ≢ asleep) × (emptied p ≡ true → emptied p' ≡ true)
      → p' ≢ asleep
      → (IsNext q (update stage i p') w → Knows q m (update stage i p') i p')
      → IsSound q m (update stage i p')
  look_next {p'} w e next l l' (up, grows) up' now = look record {
    at_p = e;
    line = l' ∙ sym l;
    was_up = up;
    is_up = up';
    other = lines_up-gives _ l;
    grows = grows;
    now = now (IsNext-still inv i w p' e up next);
  }
