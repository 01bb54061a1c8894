-- ===== src/Keyboard/Isr.antt =====
-- The interrupt handler of sched/tty/keyboard_isr_c.c: the key code that the bytes read from port
-- 0x60 stand for, and the slot of `keyboard_buf` that it goes to.
use myos_io.Base.{
  ℕ, zero, suc, ◌+◌, ◌-◌, ◌/◌, ◌%◌, ◌^◌, ◌≤◌, ◌<◌, ◌≡◌, ◌⊎◌, ◌↔◌, inl, inr, refl, Bool, true, false,
  ◌&&◌, ◌||◌, List, [], ◌∷◌, arith, ltb, leb, ◌==◌, if◌then◌else◌, passes, passes_at, Bool-cases,
}
use myos_io.Keyboard.Key.{key_prtsc, key_pause}
use myos_io.Keyboard.ScanCode.{ps2_set1_map, ps2_set1_map2, pressed, released}

-- What the bytes lead to: a key code, a call of `abort`, or a read past the end of a table.
pub data Decoded : Type 0 where
  key_code : ℕ → Decoded
  abort : Decoded
  out_of_bounds : Decoded

-- if (key_code == 0) goto label_abort;
abbrev pub nonzero : ℕ → Decoded
nonzero k = if k == 0 then abort else key_code k

-- The tables have UINT8_MAX entries, so the last byte has none.
abbrev pub table_entry : (ℕ → ℕ) → ℕ → Decoded
table_entry map scan_code = if ltb scan_code 255 then nonzero (map scan_code) else out_of_bounds

-- The bytes that are still expected, from the `i`-th on; any other byte aborts.
unfoldable pub expect : (ℕ → ℕ) → ℕ → List ℕ → ℕ → Decoded
expect port i [] k = key_code k
expect port i (byte ∷ bytes) k =
    let rest = expect port (i + 1) bytes k in if port i == byte then rest else abort

-- `port i` is the result of the i-th `inb(0x60)`.
unfoldable pub decode : (ℕ → ℕ) → Decoded
unfolding expect
decode port =
    if port 0 == 0xe0
    then if port 1 == 0x2a
      then expect port 2 (0xe0 ∷ 0x37 ∷ []) (pressed key_prtsc)
      else if port 1 == 0xb7
      then expect port 2 (0xe0 ∷ 0xaa ∷ []) (released key_prtsc)
      else table_entry ps2_set1_map2 (port 1)
    else if port 0 == 0xe1
    then expect port 1 (0x1d ∷ 0x45 ∷ 0xe1 ∷ 0x9d ∷ 0xc5 ∷ []) (pressed key_pause)
    else table_entry ps2_set1_map (port 0)

codes_checked :
    passes
      (λ s.
        (ps2_set1_map s == 0 || leb 2 (ps2_set1_map s))
        && leb (ps2_set1_map s) 203
        && (ps2_set1_map2 s == 0 || leb 2 (ps2_set1_map2 s))
        && leb (ps2_set1_map2 s) 203)
      255
    ≡ true
unfolding passes ps2_set1_map ps2_set1_map2
codes_checked = refl

abbrev IsKeyCode : Decoded → Type 0
IsKeyCode (key_code k) = (2 ≤ k) × (k ≤ 203)
IsKeyCode abort = Unit
IsKeyCode out_of_bounds = Unit

if-IsKeyCode :
    (b : Bool) (x y : Decoded) → IsKeyCode x → IsKeyCode y → IsKeyCode (if b then x else y)
if-IsKeyCode true x y hx hy = hx
if-IsKeyCode false x y hx hy = hy

nonzero-IsKeyCode : (k : ℕ) → ((k == 0 || leb 2 k) && leb k 203) ≡ true → IsKeyCode (nonzero k)
nonzero-IsKeyCode k h = elim (Bool-cases (k == 0)) [
  | inl e ↦ rw e tt
  | inr e ↦ rw e (ground arith, ground arith)
]

expect-IsKeyCode :
    (bytes : List ℕ) (port : ℕ → ℕ) (i k : ℕ) → 2 ≤ k → k ≤ 203 → IsKeyCode (expect port i bytes k)
unfolding expect
expect-IsKeyCode [] port i k lo hi = (lo, hi)
expect-IsKeyCode (byte ∷ bytes) port i k lo hi =
    if-IsKeyCode (port i == byte) _ _ (expect-IsKeyCode bytes port (i + 1) k lo hi) tt

table_entry-IsKeyCode :
    (s : ℕ) → IsKeyCode (table_entry ps2_set1_map s) × IsKeyCode (table_entry ps2_set1_map2 s)
table_entry-IsKeyCode s = elim (Bool-cases (ltb s 255)) [
  | inr e ↦ rw e (tt, tt)
  | inl e ↦
      let checked = passes_at _ 255 s codes_checked (ground arith) in
      rw e (
        nonzero-IsKeyCode (ps2_set1_map s) (ground arith),
        nonzero-IsKeyCode (ps2_set1_map2 s) (ground arith),
      )
]

decode-IsKeyCode : (port : ℕ → ℕ) → IsKeyCode (decode port)
unfolding decode
decode-IsKeyCode port =
    if-IsKeyCode (port 0 == 0xe0) _ _
      (if-IsKeyCode (port 1 == 0x2a) _ _
        (expect-IsKeyCode (0xe0 ∷ 0x37 ∷ []) port 2 (pressed key_prtsc) (omega arith) (omega arith))
        (if-IsKeyCode (port 1 == 0xb7) _ _
          (expect-IsKeyCode (0xe0 ∷ 0xaa ∷ []) port 2 (released key_prtsc) (omega arith)
            (omega arith))
          (table_entry-IsKeyCode (port 1)).1))
      (if-IsKeyCode (port 0 == 0xe1) _ _
        (expect-IsKeyCode (0x1d ∷ 0x45 ∷ 0xe1 ∷ 0x9d ∷ 0xc5 ∷ []) port 1 (pressed key_pause)
          (omega arith) (omega arith))
        (table_entry-IsKeyCode (port 0)).0)

-- Every key code that the handler gets from an entry of its two tables, or from one of the longer
-- sequences, names a key of the keyboard, so that the tables of the keyboard thread, which have 102
-- entries, are indexed within their bounds. What the handler reads for a scan code 0xff, which has
-- no entry, is left out: there `decode` gives no key code.
pub decode-in_range :
    (port : ℕ → ℕ) (k : ℕ) → decode port ≡ key_code k → (1 ≤ k / 2) × (k / 2 < 102)
decode-in_range port k e =
    let r : IsKeyCode (key_code k) = rw e at (decode-IsKeyCode port) in (omega arith, omega arith)

released_checked :
    passes
      (λ s.
        ps2_set1_map (128 + s) == ps2_set1_map s - 1
        && ps2_set1_map2 (128 + s) == ps2_set1_map2 s - 1
        && (ps2_set1_map s == 0 || ps2_set1_map s % 2 == 1)
        && (ps2_set1_map2 s == 0 || ps2_set1_map2 s % 2 == 1))
      128
    ≡ true
unfolding passes ps2_set1_map ps2_set1_map2
released_checked = refl

-- In both tables a scan code below 0x80 that has an entry stands for a key going down, and the
-- scan code 0x80 higher for the same key coming up; one without an entry has none 0x80 higher.
ps2_set1_map-release :
    (s : ℕ)
    → s < 128
    → (ps2_set1_map (128 + s) ≡ ps2_set1_map s - 1)
      × (ps2_set1_map2 (128 + s) ≡ ps2_set1_map2 s - 1)
      × ((ps2_set1_map s ≡ 0) ⊎ (ps2_set1_map s % 2 ≡ 1))
      × ((ps2_set1_map2 s ≡ 0) ⊎ (ps2_set1_map2 s % 2 ≡ 1))
ps2_set1_map-release s h =
    let checked = passes_at _ 128 s released_checked h in
    (ground arith, ground arith, ground arith, ground arith)

-- KEYBOARD_BUF_SIZE
abbrev pub keyboard_buf_size : ℕ
keyboard_buf_size = 0x200000

-- The slot that the handler writes, from the 32-bit counter `keyboard_buf_ii`: the masked counter
-- is kept in a `uint16_t`. The counter goes up by 1 for each key code.
unfoldable pub write_slot : ℕ → ℕ
write_slot keyboard_buf_ii = keyboard_buf_ii % keyboard_buf_size % 2 ^ 16

unfoldable pub next_ii : ℕ → ℕ
next_ii keyboard_buf_ii = (keyboard_buf_ii + 1) % 2 ^ 32

-- keyboard_buf_oi++ and the mask, in the keyboard thread, which reads the slot keyboard_buf_oi.
unfoldable pub next_oi : ℕ → ℕ
next_oi keyboard_buf_oi = (keyboard_buf_oi + 1) % keyboard_buf_size

-- The two indices when `n` key codes have gone through.
abbrev pub times : ℕ → (ℕ → ℕ) → ℕ
times zero step = 0
times (suc n) step = step (times n step)

times-next_ii : (n : ℕ) → times n next_ii ≡ n % 2 ^ 32
unfolding next_ii
times-next_ii zero = refl
times-next_ii (suc n) = omega (arith, times-next_ii n)

times-next_oi : (n : ℕ) → times n next_oi ≡ n % keyboard_buf_size
unfolding next_oi
times-next_oi zero = refl
times-next_oi (suc n) = omega (arith, times-next_oi n)

-- With n key codes written and n read, the slot that the handler writes next is the slot that the
-- thread reads next exactly where n, modulo the size of the ring, is below 65536.
pub write_slot-next_oi :
    (n : ℕ) → (write_slot (times n next_ii) ≡ times n next_oi) ↔ (n % keyboard_buf_size < 65536)
unfolding write_slot
write_slot-next_oi n = (
  λ e. omega (arith, times-next_ii n, times-next_oi n),
  λ h. omega (arith, times-next_ii n, times-next_oi n),
)
