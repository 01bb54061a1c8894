-- ===== src/Screen.antt =====
-- sched/tty/tty_write.c: the text screen, 25 rows of 80 cells, and its cursor. `vidmem` holds the
-- characters, cell x + 80 * y. Their attribute bytes are left out: they are written at start-up, and
-- scrolling moves them along with the characters.
pub mod Cursor
use myos_io.Base.{
  ℕ, zero, suc, ◌+◌, ◌-◌, ◌*◌, ◌/◌, ◌%◌, Bool, true, false, ◌&&◌, List, [], ◌∷◌, ltb, leb, ◌==◌,
  if◌then◌else◌, length, take, sub64,
}
use myos_io.Base.Int.{ℤ, pos, negsuc}

abbrev pub rows : ℕ
rows = 25

abbrev pub cols : ℕ
cols = 80

abbrev pub ssize_max : ℕ
ssize_max = 0x7fff_ffff_ffff_ffff

pub record Screen : Type 0 where
  pub vidmem : ℕ → ℕ
  pub x : ℕ
  pub y : ℕ

-- memmove of all rows but the first, and zeros in the last one
unfoldable pub scroll : Screen → Screen
scroll s = record s {
  vidmem = λ i.
      if ltb i ((rows - 1) * cols)
      then s.vidmem (i + cols)
      else if ltb i (rows * cols)
      then 0
      else s.vidmem i;
}

-- y has gone up by 1: scroll, if it has left the screen
unfoldable pub next_row : Screen → Screen
unfolding scroll
next_row s =
    if leb rows (s.y + 1) then record (scroll s) { y = s.y + 1 - 1 } else record s { y = s.y + 1 }

unfoldable pub put_char : Screen → ℕ → Screen
unfolding next_row
put_char s c =
    if c == 0
    then s
    else if c == 8
    then if ltb 0 s.x
      then record s { x = s.x - 1 }
      else if ltb 0 s.y
      then record s { y = s.y - 1; x = cols - 1 }
      else s
    else if c == b'\n'
    then next_row (record s { x = 0 })
    else let s' = record s { vidmem = λ i. if i == s.x + cols * s.y then c else s.vidmem i } in
      if leb cols (s.x + 1) then next_row (record s' { x = 0 }) else record s' { x = s.x + 1 }

unfoldable pub put_chars : Screen → List ℕ → Screen
unfolding put_char
put_chars s [] = s
put_chars s (c ∷ cs) = put_chars (put_char s c) cs

-- The first `size` bytes of the buffer, SSIZE_MAX at most; the number that is returned.
unfoldable pub tty_write : Screen → List ℕ → ℕ → Screen × ℕ
unfolding put_chars
tty_write s buf size =
    let n = if ltb ssize_max size then ssize_max else size in
    if size == 0 then (s, 0) else (put_chars s (take n buf), n)

-- The loop of tty_writev over the buffers that are left, each a list of its bytes; `ret` counts.
unfoldable pub writev_loop : Screen → ℕ → List (List ℕ) → Screen × ℕ
writev_loop s ret [] = (s, ret)
writev_loop s ret (base ∷ iov) =
    let size =
      if ltb (sub64 ssize_max ret) (length base) then sub64 ssize_max ret else length base in
    let s' = put_chars s (take size base) in
    let rest = writev_loop s' (ret + size) iov in
    if ret + size == ssize_max then (s', ret + size) else rest

pub data Written : Type 0 where
  written : Screen → ℕ → Written
  einval : Written

-- Leading buffers of length 0 are passed over.
unfoldable pub skip_empty : List (List ℕ) → List (List ℕ)
skip_empty [] = []
skip_empty ([] ∷ iov) = skip_empty iov
skip_empty ((x ∷ base) ∷ iov) = (x ∷ base) ∷ iov

abbrev pub writev_nonempty : Screen → List (List ℕ) → Written
writev_nonempty s [] = written s 0
writev_nonempty s (base ∷ iov) =
    written (writev_loop s 0 (base ∷ iov)).0 (writev_loop s 0 (base ∷ iov)).1

unfoldable pub tty_writev : Screen → List (List ℕ) → ℤ → Written
unfolding writev_loop skip_empty
tty_writev s iov (negsuc _) = einval
tty_writev s iov (pos iovcnt) = writev_nonempty s (skip_empty (take iovcnt iov))

-- kernel_init_part0, with the two bytes read from the cursor port: `pos` counts bytes of VIDMEM, two
-- to a cell, and so does the bound of the loop that clears, ROWS * COLS.
unfoldable pub start_pos : ℕ → ℕ → ℕ
start_pos low high = if leb (cols * rows) (low + high * 256) then 0 else (low + high * 256) * 2

unfoldable pub kernel_init_part0 : (ℕ → ℕ) → ℕ → ℕ → Screen
unfolding start_pos
kernel_init_part0 vidmem low high =
    let pos = start_pos low high in
    record {
      vidmem = λ i. if leb pos (2 * i) && ltb (2 * i) (rows * cols) then 0 else vidmem i;
      x = pos / 2 % 80;
      y = pos / 2 / 80;
    }
