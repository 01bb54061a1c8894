-- ===== src/Screen/Cursor.antt =====
-- The cursor stays on the screen, and what a write does to the cells.
use myos_io.Base.{
  ℕ, ◌+◌, ◌-◌, ◌*◌, ◌≤◌, ◌<◌, ◌≡◌, ◌≢◌, refl, true, false, ◌&&◌, List, [], ◌∷◌, arith, ltb, leb,
  ◌==◌, if◌then◌else◌, length, take, ◌++◌, ap₂, length-append, take-length, sub64_exact, Bool-cases,
  inl, inr, ◌∙◌, sym, ap,
}
use myos_io.Base.Int.{pos, negsuc}
use myos_io.Screen.{
  rows, cols, ssize_max, Screen, put_char, put_chars, tty_write, writev_loop, einval, written,
  kernel_init_part0, skip_empty, writev_nonempty, tty_writev,
}

pub record IsValid (s : Screen) : Type 0 where
  pub x-lt : s.x < cols
  pub y-lt : s.y < rows

put_char-IsValid : (s : Screen) (c : ℕ) → IsValid s → IsValid (put_char s c)
unfolding put_char
put_char-IsValid s c v = ground arith

put_chars-IsValid : (cs : List ℕ) (s : Screen) → IsValid s → IsValid (put_chars s cs)
unfolding put_chars
put_chars-IsValid [] s v = v
put_chars-IsValid (c ∷ cs) s v = put_chars-IsValid cs (put_char s c) (put_char-IsValid s c v)

-- A cell past the screen is not touched.
put_char-outside :
    (s : Screen) (c i : ℕ) → IsValid s → rows * cols ≤ i → (put_char s c).vidmem i ≡ s.vidmem i
unfolding put_char
put_char-outside s c i v h = ground arith

put_chars-outside :
    (cs : List ℕ) (s : Screen) (i : ℕ)
    → IsValid s
    → rows * cols ≤ i
    → (put_chars s cs).vidmem i ≡ s.vidmem i
unfolding put_chars
put_chars-outside [] s i v h = refl
put_chars-outside (c ∷ cs) s i v h =
    put_chars-outside cs (put_char s c) i (put_char-IsValid s c v) h ∙ put_char-outside s c i v h

-- A write leaves the cursor on the screen, writes no memory behind the 2000 cells, and returns the
-- smaller of the size and SSIZE_MAX.
pub tty_write-IsValid :
    (s : Screen) (buf : List ℕ) (size : ℕ)
    → IsValid s
    → IsValid (tty_write s buf size).0
      × ((i : ℕ) → rows * cols ≤ i → (tty_write s buf size).0.vidmem i ≡ s.vidmem i)
      × ((tty_write s buf size).1 ≡ (if ltb ssize_max size then ssize_max else size))
unfolding tty_write
tty_write-IsValid s buf size v = elim (Bool-cases (size == 0)) [
  | inl nothing ↦ rw nothing (v, λ i h. refl, ground arith)
  | inr something ↦ rw something (
    put_chars-IsValid (take (if ltb ssize_max size then ssize_max else size) buf) s v,
    λ i h. put_chars-outside (take (if ltb ssize_max size then ssize_max else size) buf) s i v h,
    refl,
  )
]

-- All the bytes of the buffers, in order.
abbrev pub joined : List (List ℕ) → List ℕ
joined [] = []
joined (b ∷ bs) = b ++ joined bs

put_chars-append :
    (xs ys : List ℕ) (s : Screen) → put_chars s (xs ++ ys) ≡ put_chars (put_chars s xs) ys
unfolding put_chars
put_chars-append [] ys s = refl
put_chars-append (x ∷ xs) ys s = put_chars-append xs ys (put_char s x)

writev_loop-joined :
    (iov : List (List ℕ)) (s : Screen) (ret : ℕ)
    → ret + length (joined iov) < ssize_max
    → writev_loop s ret iov ≡ (put_chars s (joined iov), ret + length (joined iov))
unfolding writev_loop put_chars
writev_loop-joined [] s ret h = ap (λ n. (s, n)) (omega arith)
writev_loop-joined (b ∷ iov) s ret h =
    rw
      (
        sub64_exact ssize_max ret (omega arith) (omega arith),
        whole,
        take-length b,
        small,
        writev_loop-joined iov (put_chars s b) (ret + length b)
            (omega (arith, length-append b (joined iov))),
      )
      (ap₂ (λ s' n. (s', n)) (sym (put_chars-append b (joined iov) s))
        (omega (arith, length-append b (joined iov))))
  where
    whole : (if ltb (ssize_max - ret) (length b) then ssize_max - ret else length b) ≡ length b
    whole = ground (arith, length-append b (joined iov))

    small : (ret + length b == ssize_max) ≡ false
    small = ground (arith, length-append b (joined iov))

skip_empty-joined : (iov : List (List ℕ)) → joined (skip_empty iov) ≡ joined iov
unfolding skip_empty
skip_empty-joined [] = refl
skip_empty-joined ([] ∷ iov) = skip_empty-joined iov
skip_empty-joined ((x ∷ b) ∷ iov) = refl

nonempty :
    (s : Screen) (iov : List (List ℕ))
    → length (joined iov) < ssize_max
    → writev_nonempty s iov ≡ written (put_chars s (joined iov)) (length (joined iov))
unfolding put_chars
nonempty s [] h = refl
nonempty s (b ∷ iov) h =
    let from_zero : 0 + length (joined (b ∷ iov)) ≡ length (joined (b ∷ iov)) = omega arith in
    rw (writev_loop-joined (b ∷ iov) s 0 (omega arith), from_zero)

-- A vectored write of less than SSIZE_MAX bytes in all puts on the screen what one write of all
-- the bytes in order puts there, and returns their number; a negative count is EINVAL.
pub tty_writev-joined :
    (s : Screen) (iov : List (List ℕ)) (k : ℕ)
    → length (joined (take k iov)) < ssize_max
    → (tty_writev s iov (pos k)
        ≡ written (put_chars s (joined (take k iov))) (length (joined (take k iov))))
      × (tty_writev s iov (negsuc k) ≡ einval)
unfolding tty_writev
tty_writev-joined s iov k h = (
  rw (← skip_empty-joined (take k iov))
      (nonempty s (skip_empty (take k iov)) (rw (skip_empty-joined (take k iov)) h)),
  refl,
)

-- A character with a cell to spare on its right, and a backspace that stays in its row.
put_char-plain :
    (s : Screen) (c : ℕ)
    → s.x + 1 < cols
    → c ≢ 0
    → c ≢ 8
    → c ≢ b'\n'
    → put_char s c
      ≡ record s { vidmem = λ i. if i == s.x + cols * s.y then c else s.vidmem i; x = s.x + 1 }
unfolding put_char
put_char-plain s c h n0 n8 nl =
    let e0 : (c == 0) ≡ false = ground arith in
    let e8 : (c == 8) ≡ false = ground arith in
    let enl : (c == b'\n') ≡ false = ground arith in
    let room : leb cols (s.x + 1) ≡ false = ground arith in rw (e0, e8, enl, room)

put_char-back : (s : Screen) → 0 < s.x → put_char s 8 ≡ record s { x = s.x - 1 }
unfolding put_char
put_char-back s h = let left : ltb 0 s.x ≡ true = ground arith in rw left

-- On a screen with the cursor not in the last column, a character other than 0, backspace and line
-- feed, then the three bytes with which the keyboard erases it, put the cursor back and leave a
-- blank in its cell and the other cells as they were.
pub put_chars-rubout :
    (s : Screen) (c i : ℕ)
    → IsValid s
    → s.x + 1 < cols
    → c ≢ 0
    → c ≢ 8
    → c ≢ b'\n'
    → ((put_chars s (c ∷ 8 ∷ b' ' ∷ 8 ∷ [])).x ≡ s.x)
      × ((put_chars s (c ∷ 8 ∷ b' ' ∷ 8 ∷ [])).y ≡ s.y)
      × ((put_chars s (c ∷ 8 ∷ b' ' ∷ 8 ∷ [])).vidmem i
          ≡ (if i == s.x + cols * s.y then b' ' else s.vidmem i))
unfolding put_chars
put_chars-rubout s c i v h n0 n8 nl =
    rw
      (
        put_char-plain s c h n0 n8 nl,
        put_char-back (after c) (omega arith),
        back,
        put_char-plain (record (after c) { x = s.x }) b' ' h (omega arith) (omega arith)
            (omega arith),
        put_char-back
            (record (after c) {
              vidmem = λ j. if j == s.x + cols * s.y then b' ' else (after c).vidmem j;
            })
            (omega arith),
      )
      (back, refl, ground arith)
  where
    after : ℕ → Screen
    after d = record s {
      vidmem = λ j. if j == s.x + cols * s.y then d else s.vidmem j;
      x = s.x + 1;
    }

    back : s.x + 1 - 1 ≡ s.x
    back = omega arith

-- The start-up code puts the cursor where the port says, or at the start if that is off the screen;
-- it leaves the cursor on the screen, and clears, from the cursor on, cells of the first 1000 of
-- the 2000 only.
pub kernel_init_part0-IsValid :
    (vidmem : ℕ → ℕ) (low high i : ℕ)
    → IsValid (kernel_init_part0 vidmem low high)
      × ((kernel_init_part0 vidmem low high).x + cols * (kernel_init_part0 vidmem low high).y
          ≡ (if ltb (low + high * 256) 2000 then low + high * 256 else 0))
      × ((kernel_init_part0 vidmem low high).vidmem i ≡ (
          if leb (if ltb (low + high * 256) 2000 then low + high * 256 else 0) i && ltb i 1000
          then 0
          else vidmem i))
unfolding kernel_init_part0
kernel_init_part0-IsValid vidmem low high i =
    (record { x-lt = omega arith; y-lt = ground arith }, ground arith, ground arith)
