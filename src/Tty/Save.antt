-- ===== src/Tty/Save.antt =====
-- The loop of keyboard_thread (keyboard_thread_c.c) that saves a batch in the input buffer.
use mathlib.Core.List.{append-nil, append_assoc}
use myos_io.Base.{
  ℕ, suc, ◌+◌, ◌%◌, ◌≤◌, ◌<◌, ◌≡◌, refl, ◌∙◌, ◌⊎◌, inl, ◌↔◌, true, ◌&&◌, List, [], ◌∷◌, ◌++◌, arith,
  ltb, ◌==◌, if◌then◌else◌, length,
}
use myos_io.Tty.{read_buf_size, store, save_loop, new_visible_of}
use myos_io.Tty.Ring.{ring, ring-append, ring-store}

-- The characters are appended to the ring, one slot after the other.
pub save_loop-ring :
    (cs : List ℕ) (f : ℕ → ℕ) (o n ii place nv : ℕ)
    → o < read_buf_size
    → ii ≡ (o + n) % read_buf_size
    → n + length cs ≤ read_buf_size
    → ring (save_loop f ii place nv cs).0 o (n + length cs) ≡ ring f o n ++ cs
unfolding save_loop ring
save_loop-ring [] f o n ii place nv h e fits = let z : n + 0 ≡ n = omega arith in rw (z, append-nil)
save_loop-ring (c ∷ cs) f o n ii place nv h e fits =
    let z : n + suc (length cs) ≡ n + 1 + length cs = omega arith in
    let here : store f ii c ii ≡ c = ground arith in
    let lt : n < read_buf_size = omega arith in
    rw
      (
        z,
        save_loop-ring cs (store f ii c) o (n + 1) ((ii + 1) % read_buf_size) (place + 1) _ h
            (omega arith) (omega arith),
        ring-append (store f ii c) o n 1 ii h e,
        ring-store f o n n ii c h (omega arith) lt e,
        here,
      )
      (append_assoc (ring f o n) (c ∷ []) cs)

pub save_loop-ii :
    (cs : List ℕ) (f : ℕ → ℕ) (ii place nv : ℕ)
    → ii < read_buf_size
    → (save_loop f ii place nv cs).1 ≡ (ii + length cs) % read_buf_size
unfolding save_loop
save_loop-ii [] f ii place nv h = omega arith
save_loop-ii (c ∷ cs) f ii place nv h =
    save_loop-ii cs (store f ii c) ((ii + 1) % read_buf_size) (place + 1) _ (omega arith)
    ∙ omega arith

-- Where the last line of `cs` ends, counted from `place`; 0 if there is no line end.
unfoldable pub line_end : ℕ → List ℕ → ℕ
line_end place [] = 0
line_end place (c ∷ cs) =
    let later = line_end (place + 1) cs in
    if later == 0 then (if c == b'\n' then place + 1 else 0) else later

-- A line end is the greater of the first one and a later one.
pub line_end-bounds :
    (cs : List ℕ) (place : ℕ)
    → (line_end place cs ≡ 0)
      ⊎ ((place < line_end place cs) × (line_end place cs ≤ place + length cs))
unfolding line_end
line_end-bounds [] place = inl refl
line_end-bounds (c ∷ cs) place = ground (arith, line_end-bounds cs (place + 1))

unfoldable pub max : ℕ → ℕ → ℕ
max a b = if ltb a b then b else a

pub save_loop-new_visible :
    (cs : List ℕ) (f : ℕ → ℕ) (ii place nv : ℕ)
    → new_visible_of (save_loop f ii place nv cs) ≡ max nv (line_end place cs)
unfolding save_loop line_end max
save_loop-new_visible [] f ii place nv = ground arith
save_loop-new_visible (c ∷ cs) f ii place nv = ground (
  arith,
  line_end-bounds cs (place + 1),
  save_loop-new_visible cs (store f ii c) ((ii + 1) % read_buf_size) (place + 1)
      (if c == b'\n' && ltb nv (place + 1) then place + 1 else nv),
)

pub broadcast_lem :
    (n visible : ℕ)
    → ((ltb 0 n && visible == 0) ≡ true) ↔ ((visible ≡ 0) × (0 < (if ltb 0 n then n else visible)))
broadcast_lem n visible = (ground arith, ground arith)

pub length-eq-zero : (c : List ℕ) → (length c == 0) ≡ true → c ≡ []
length-eq-zero [] h = refl
length-eq-zero (x ∷ c) h = absurd (ground arith)
