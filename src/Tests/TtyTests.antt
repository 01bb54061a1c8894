-- ===== src/Tests/TtyTests.antt =====
-- The terminal's input buffer: sched/tty.
use myos_io.Base.{
  ℕ, ◌+◌, ◌≤◌, ◌≡◌, refl, List, [], ◌∷◌, arith, ltb, if◌then◌else◌, min, sum, take, sub64,
}
use myos_io.Base.Int.{pos}
use myos_io.Tty.{Tty, returned, tty_read, tty_readv, receive}
use myos_io.Tty.Ring.{IsValid, contents}
use myos_io.Tty.Read.{Takes, tty_read-take, Stores, tty_readv-Stores}
use myos_io.Tty.Receive.{Appends, receive-Appends, receive-seen_prefix}

-- The end of the array, with a line that goes round it and a partial line behind.
abbrev cells : ℕ → ℕ
cells i = if ltb i 100 then 104 + i else b'a'

abbrev wrapped : Tty
wrapped = record {
  read_buf = cells;
  read_buf_ii = 3;
  read_buf_oi = 0x1ffffe;
  read_buf_used = 5;
  read_buf_visible = 4;
}

wrapped-IsValid : IsValid wrapped
wrapped-IsValid = record {
  used-le = omega arith;
  visible-le = omega arith;
  oi-lt = omega arith;
  ii-eq = refl;
}

reads_around : (bytes : List ℕ) × (t' : Tty) × (tty_read wrapped 3 ≡ returned bytes 3 t')
unfolding tty_read sub64
reads_around = (
  b'a' ∷ b'a' ∷ 104 ∷ [],
  record wrapped { read_buf_oi = 1; read_buf_used = 2; read_buf_visible = 1 },
  refl,
)

tty_read-take_example :
    (bytes : List ℕ) × (t' : Tty) × (tty_read wrapped 3 ≡ returned bytes (min 3 4) t')
    × Takes wrapped (min 3 4) bytes t'
tty_read-take_example = tty_read-take wrapped 3 wrapped-IsValid (omega arith) (omega arith)

tty_readv-Stores_example :
    Stores wrapped 0
      (min (sum (take 2 (0 ∷ 3 ∷ 9 ∷ []))) 4)
      (tty_readv wrapped (0 ∷ 3 ∷ 9 ∷ []) (pos 2))
tty_readv-Stores_example = tty_readv-Stores wrapped (0 ∷ 3 ∷ 9 ∷ []) 2 wrapped-IsValid (omega arith)

receive-Appends_example :
    Appends wrapped
      (b'h' ∷ b'i' ∷ b'\n' ∷ [])
      2
      wrapped-IsValid
      (receive wrapped (b'h' ∷ b'i' ∷ b'\n' ∷ []) 2)
receive-Appends_example = receive-Appends wrapped (b'h' ∷ b'i' ∷ b'\n' ∷ []) 2 wrapped-IsValid

receive-seen_prefix_example :
    (4 ≤ (receive wrapped (b'h' ∷ []) 9).tty.read_buf_visible)
    × (take 4 (contents (receive wrapped (b'h' ∷ []) 9).tty) ≡ take 4 (contents wrapped))
receive-seen_prefix_example = receive-seen_prefix wrapped (b'h' ∷ []) 9 wrapped-IsValid
