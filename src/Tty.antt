-- ===== src/Tty.antt =====
-- sched/tty/tty-internal.h, tty_read.c, tty_readv.c and the last part of the loop of
-- keyboard_thread in keyboard_thread_c.c: the input buffer of a terminal. The lock `read_mtx` is
-- held wherever the buffer is touched, so each operation is one step on the state; a reader that
-- finds nothing visible waits on `read_cnd`, which is the outcome `wait`.
pub mod Ring
pub mod Read
pub mod Save
pub mod Receive
use myos_io.Base.{
  ℕ, zero, suc, ◌+◌, ◌-◌, ◌*◌, ◌%◌, ◌^◌, ◌≡◌, Bool, true, false, ◌&&◌, List, [], ◌∷◌, ◌++◌, ltb,
  leb, ◌==◌, if◌then◌else◌, sub64, length, take,
}
use myos_io.Base.Int.{ℤ, pos, negsuc}

-- TTY_READ_BUF_SIZE, TTY_READ_BUF_VISIBLE_THRESHOLD, SSIZE_MAX
abbrev pub read_buf_size : ℕ
read_buf_size = 0x200000

abbrev pub visible_threshold : ℕ
visible_threshold = 0x100000

abbrev pub ssize_max : ℕ
ssize_max = 0x7fff_ffff_ffff_ffff

-- The fields of `struct TTY` that the readers and keyboard_thread touch.
pub record Tty : Type 0 where
  pub read_buf : ℕ → ℕ
  pub read_buf_ii : ℕ
  pub read_buf_oi : ℕ
  pub read_buf_used : ℕ
  pub read_buf_visible : ℕ

-- memcpy(buf, &src[start], n): the bytes copied
unfoldable pub copied : (ℕ → ℕ) → ℕ → ℕ → List ℕ
copied src start zero = []
copied src start (suc n) = src start ∷ copied src (start + 1) n

-- How a call of `tty_read` or `tty_readv` ends: with bytes for the caller and a return value, by
-- waiting (state unchanged), or at a failed `assert`; `einval` is -1 with errno == EINVAL.
pub data Outcome (A : Type 0) : Type 0 where
  returned : A → ℕ → Tty → Outcome A
  wait : Outcome A
  assert_failed : Outcome A
  einval : Outcome A

-- The three-way copy that both readers make once `size` is at most what is visible.
unfoldable pub take_out : Tty → ℕ → List ℕ × Tty
unfolding copied
take_out t size =
    let t' = record t {
      read_buf_visible = sub64 t.read_buf_visible size;
      read_buf_used = sub64 t.read_buf_used size;
    } in
    if ltb t.read_buf_oi (sub64 read_buf_size size)
    then (copied t.read_buf t.read_buf_oi size, record t' { read_buf_oi = t.read_buf_oi + size })
    else if t.read_buf_oi == sub64 read_buf_size size
    then (copied t.read_buf t.read_buf_oi size, record t' { read_buf_oi = 0 })
    else let temp_size = sub64 read_buf_size t.read_buf_oi in
      (
        copied t.read_buf t.read_buf_oi temp_size ++ copied t.read_buf 0 (sub64 size temp_size),
        record t' { read_buf_oi = sub64 size temp_size },
      )

-- if (size > visible) size = visible;
abbrev pub at_most : ℕ → ℕ → ℕ
at_most size visible = if ltb visible size then visible else size

unfoldable pub tty_read : Tty → ℕ → Outcome (List ℕ)
unfolding take_out
tty_read t size =
    if size == 0
    then returned [] 0 t
    else if t.read_buf_visible == 0
    then wait
    else let n = at_most size t.read_buf_visible in
      if leb n ssize_max then returned (take_out t n).0 n (take_out t n).1 else assert_failed

-- The bytes that went to one buffer, before those that went to the next ones.
abbrev pub then_more : List ℕ → Outcome (List (List ℕ)) → Outcome (List (List ℕ))
then_more bytes (returned more ret t) = returned (bytes ∷ more) ret t
then_more bytes wait = wait
then_more bytes assert_failed = assert_failed
then_more bytes einval = einval

-- The `do … while (--iovcnt > 0)` of `tty_readv`, over the lengths of the buffers that are left.
unfoldable pub readv_loop : Tty → ℕ → List ℕ → Outcome (List (List ℕ))
unfolding take_out
readv_loop t ret [] = returned [] ret t
readv_loop t ret (iov_len ∷ iov) =
    let size = at_most iov_len t.read_buf_visible in
    let t' = (take_out t size).1 in
    let more = readv_loop t' (ret + size) iov in
    if leb size (sub64 ssize_max ret)
    then if t'.read_buf_visible == 0
      then returned ((take_out t size).0 ∷ []) (ret + size) t'
      else then_more (take_out t size).0 more
    else assert_failed

-- Leading buffers of length 0 are passed over.
unfoldable pub skip_empty : List ℕ → List ℕ
skip_empty [] = []
skip_empty (iov_len ∷ iov) =
    let rest = skip_empty iov in if iov_len == 0 then rest else iov_len ∷ iov

abbrev pub readv_nonempty : Tty → List ℕ → Outcome (List (List ℕ))
readv_nonempty t [] = returned [] 0 t
readv_nonempty t (iov_len ∷ iov) =
    if t.read_buf_visible == 0 then wait else readv_loop t 0 (iov_len ∷ iov)

-- `iov` holds the lengths of the caller's buffers.
unfoldable pub tty_readv : Tty → List ℕ → ℤ → Outcome (List (List ℕ))
unfolding readv_loop skip_empty
tty_readv t iov (negsuc _) = einval
tty_readv t iov (pos iovcnt) = readv_nonempty t (skip_empty (take iovcnt iov))

-- What keyboard_thread does with one batch: the new buffer, the bytes written to the screen, and
-- whether the waiting readers are woken.
pub record Received : Type 0 where
  pub tty : Tty
  pub echo : List ℕ
  pub broadcast : Bool

abbrev pub store : (ℕ → ℕ) → ℕ → ℕ → ℕ → ℕ
store f i v j = if i == j then v else f j

-- The loop that saves c[0 .. save_num): buffer, write index and `new_visible`; `place` is
-- read_buf_used + i.
unfoldable pub save_loop : (ℕ → ℕ) → ℕ → ℕ → ℕ → List ℕ → (ℕ → ℕ) × ℕ × ℕ
save_loop buf ii place new_visible [] = (buf, ii, new_visible)
save_loop buf ii place new_visible (c ∷ cs) =
    save_loop (store buf ii c) ((ii + 1) % read_buf_size) (place + 1)
      (if c == b'\n' && ltb new_visible (place + 1) then place + 1 else new_visible) cs

-- "\b \b", n times
unfoldable pub rubout : ℕ → List ℕ
rubout zero = []
rubout (suc n) = 8 ∷ b' ' ∷ 8 ∷ rubout n

-- back_num, cut to what has not been made visible
abbrev pub back_limit : Tty → ℕ → ℕ
back_limit t back_num =
    if ltb (sub64 t.read_buf_used t.read_buf_visible) back_num
    then sub64 t.read_buf_used t.read_buf_visible
    else back_num

-- read_buf_ii, taken back over the erased characters
abbrev pub step_back : ℕ → ℕ → ℕ
step_back ii back =
    if back == 0 then ii else if leb back ii then ii - back else sub64 read_buf_size (back - ii)

abbrev pub room : ℕ → List ℕ → ℕ
room used c =
    if ltb (sub64 read_buf_size used) (length c) then sub64 read_buf_size used else length c

-- The state after the last assignments, from what the loop left.
abbrev pub settle : Tty → ℕ → ℕ → (ℕ → ℕ) × ℕ × ℕ → Tty
settle t used save_num (buf, ii, new_visible) = record {
  read_buf = buf;
  read_buf_ii = ii;
  read_buf_oi = t.read_buf_oi;
  read_buf_used = used + save_num;
  read_buf_visible = if ltb 0 new_visible then new_visible else t.read_buf_visible;
}

abbrev pub new_visible_of : (ℕ → ℕ) × ℕ × ℕ → ℕ
new_visible_of (buf, ii, new_visible) = new_visible

-- From `mtx_lock(&tty->read_mtx)` to `mtx_unlock` in keyboard_thread.
unfoldable pub receive : Tty → List ℕ → ℕ → Received
unfolding save_loop rubout
receive t c back_num =
    let back = back_limit t back_num in
    let used = sub64 t.read_buf_used back in
    let save_num = room used c in
    let start : ℕ = if leb visible_threshold (used + save_num) then used + save_num else 0 in
    let ii = step_back t.read_buf_ii back in
    let saved = save_loop t.read_buf ii used start (take save_num c) in
    if back == 0 && length c == 0
    then record { tty = t; echo = []; broadcast = false }
    else if save_num == 0
    then record {
      tty = settle t used 0 (t.read_buf, ii, 0);
      echo = rubout back ++ c;
      broadcast = false;
    }
    else record {
      tty = settle t used save_num saved;
      echo = rubout back ++ c;
      broadcast = ltb 0 (new_visible_of saved) && t.read_buf_visible == 0;
    }
