-- ===== src/Tty/Receive.antt =====
-- What keyboard_thread does to the input buffer with a batch of characters (keyboard_thread_c.c).
use mathlib.Core.List.{append-nil}
use native.Mathlib.Nat.{add-zero}
use myos_io.Base.{
  ℕ, ◌+◌, ◌-◌, ◌%◌, ◌≤◌, ◌<◌, ◌≡◌, refl, sym, ap, ◌∙◌, ◌⊎◌, ◌↔◌, Bool, true, false, ◌&&◌, List, [],
  ◌++◌, arith, ltb, leb, ◌==◌, if◌then◌else◌, length, length-take, take-append_le, take, min,
  sub64_exact,
}
use myos_io.Tty.{
  read_buf_size, visible_threshold, Tty, save_loop, rubout, back_limit, step_back, room, settle,
  new_visible_of, Received, receive,
}
use myos_io.Tty.Ring.{ring, contents, IsValid, take-ring, length-ring}
use myos_io.Tty.Save.{
  save_loop-ring, save_loop-ii, line_end, line_end-bounds, max, save_loop-new_visible,
  broadcast_lem, length-eq-zero,
}

module _ (t : Tty) (c : List ℕ) (back_num : ℕ) (v : IsValid t) where
  -- The erased, kept and saved characters, in numbers.
  abbrev pub erased : ℕ
  erased = min back_num (t.read_buf_used - t.read_buf_visible)

  abbrev pub kept : ℕ
  kept = t.read_buf_used - erased

  abbrev pub saved : ℕ
  saved = min (length c) (read_buf_size - kept)

  back_limit-eq : back_limit t back_num ≡ erased
  back_limit-eq =
      rw (sub64_exact t.read_buf_used t.read_buf_visible (omega arith) (omega arith)) (ground arith)

  room-eq : room kept c ≡ saved
  room-eq = rw (sub64_exact read_buf_size kept (omega arith) (omega arith)) (ground arith)

  step_back-eq : step_back t.read_buf_ii erased ≡ (t.read_buf_oi + kept) % read_buf_size
  step_back-eq = ground (
    arith,
    sub64_exact read_buf_size (erased - t.read_buf_ii) (omega arith) (omega arith),
    v.ii-eq,
  )

  saved-length : length (take saved c) ≡ saved
  saved-length = length-take saved c ∙ omega arith

  -- What the loop over the saved characters starts from.
  abbrev start : ℕ
  start = if leb visible_threshold (kept + saved) then kept + saved else 0

  abbrev loop : (ℕ → ℕ) × ℕ × ℕ
  loop = save_loop t.read_buf ((t.read_buf_oi + kept) % read_buf_size) kept start (take saved c)

  settle-contents :
      ring loop.0 t.read_buf_oi (kept + saved) ≡ take kept (contents t) ++ take saved c
  unfolding contents
  settle-contents =
      rw (take-ring t.read_buf t.read_buf_oi kept t.read_buf_used v.oi-lt (omega arith)) (
        ap (λ n. ring loop.0 t.read_buf_oi (kept + n)) (sym saved-length)
        ∙ save_loop-ring (take saved c) t.read_buf t.read_buf_oi kept _ kept start v.oi-lt refl
            (omega (arith, saved-length)))

  -- What the readers may see afterwards: all, once half the buffer is full; or else up to the last
  -- line end saved, or what they saw before, where nothing or no line end was saved.
  abbrev pub seen : ℕ
  seen =
      if saved == 0
      then t.read_buf_visible
      else if leb visible_threshold (kept + saved)
      then kept + saved
      else if line_end kept (take saved c) == 0
      then t.read_buf_visible
      else line_end kept (take saved c)

  -- What a batch of `c`, after `back_num` erasures, does in terms of the queue.
  pub record Appends (r : Received) : Type 0 where
    pub contents-eq : contents r.tty ≡ take kept (contents t) ++ take saved c
    pub valid : IsValid r.tty
    pub visible-eq : r.tty.read_buf_visible ≡ seen
    pub echo-eq : r.echo ≡ rubout erased ++ c
    pub broadcast_iff :
        (r.broadcast ≡ true) ↔ ((t.read_buf_visible ≡ 0) × (0 < r.tty.read_buf_visible))

  last_line :
      (line_end kept (take saved c) ≡ 0)
      ⊎ ((kept < line_end kept (take saved c)) × (line_end kept (take saved c) ≤ kept + saved))
  last_line = rw saved-length at (line_end-bounds (take saved c) kept)

  shown : new_visible_of loop ≡ max start (line_end kept (take saved c))
  shown = save_loop-new_visible (take saved c) t.read_buf _ kept start

  settled : Tty
  settled = settle t kept saved loop

  settled-seen : (saved == 0) ≡ false → settled.read_buf_visible ≡ seen
  unfolding settled max
  settled-seen e = ground (arith, shown, last_line)

  seen_bounds : (t.read_buf_visible ≤ seen) × (seen ≤ kept + saved)
  seen_bounds = ground (arith, last_line)

  settled-IsValid : (saved == 0) ≡ false → IsValid settled
  unfolding settled
  settled-IsValid e = record {
    used-le = omega arith;
    visible-le = omega (arith, settled-seen e, seen_bounds.1);
    oi-lt = v.oi-lt;
    ii-eq =
        save_loop-ii (take saved c) t.read_buf _ kept start (omega arith)
        ∙ omega (arith, saved-length);
  }

  kept-contents : ring t.read_buf t.read_buf_oi kept ≡ take kept (contents t)
  unfolding contents
  kept-contents =
      sym (take-ring t.read_buf t.read_buf_oi kept t.read_buf_used v.oi-lt (omega arith))

  unsaved : saved ≡ 0 → take saved c ≡ []
  unsaved e = rw e

  -- the three ways through the code after the lock
  abbrev nothing : Received
  nothing = record { tty = t; echo = []; broadcast = false }

  abbrev erase_only : Received
  erase_only = record {
    tty = settle t kept 0 (t.read_buf, (t.read_buf_oi + kept) % read_buf_size, 0);
    echo = rubout erased ++ c;
    broadcast = false;
  }

  abbrev save_some : Received
  save_some = record {
    tty = settled;
    echo = rubout erased ++ c;
    broadcast = ltb 0 (new_visible_of loop) && t.read_buf_visible == 0;
  }

  nothing-Appends : erased ≡ 0 → c ≡ [] → Appends nothing
  unfolding contents rubout
  nothing-Appends e n =
      let none_saved : saved ≡ 0 = rw n (omega arith) in
      let all : kept ≡ t.read_buf_used = omega arith in
      record {
        contents-eq =
            ap (ring t.read_buf t.read_buf_oi) (sym all)
            ∙ kept-contents
            ∙ sym (append-nil _)
            ∙ ap (λ r. take kept (contents t) ++ r) (sym (unsaved none_saved));
        valid = v;
        visible-eq = ground (arith, none_saved);
        echo-eq = rw (e, n);
        broadcast_iff = (cc, ground arith);
      }

  erase_only-Appends : saved ≡ 0 → Appends erase_only
  unfolding contents
  erase_only-Appends e = record {
    contents-eq =
        ap (ring t.read_buf t.read_buf_oi) (add-zero kept)
        ∙ kept-contents
        ∙ sym (append-nil _)
        ∙ ap (λ r. take kept (contents t) ++ r) (sym (unsaved e));
    valid = record {
      used-le = omega arith;
      visible-le = omega arith;
      oi-lt = v.oi-lt;
      ii-eq = omega arith;
    };
    visible-eq = ground (arith, e);
    echo-eq = refl;
    broadcast_iff = (cc, ground arith);
  }

  save_some-Appends : (saved == 0) ≡ false → Appends save_some
  unfolding settled contents
  save_some-Appends e = record {
    contents-eq = settle-contents;
    valid = settled-IsValid e;
    visible-eq = settled-seen e;
    echo-eq = refl;
    broadcast_iff = broadcast_lem (new_visible_of loop) t.read_buf_visible;
  }

  receive-eq : receive t c back_num ≡ (
      if erased == 0 && length c == 0
      then nothing
      else if saved == 0
      then erase_only
      else save_some)
  unfolding receive settled
  receive-eq = rw (
    back_limit-eq,
    sub64_exact t.read_buf_used erased (omega arith) (omega arith),
    room-eq,
    step_back-eq,
  )

  by_case :
      (b e : Bool)
      → (erased == 0 && length c == 0) ≡ b
      → (saved == 0) ≡ e
      → Appends (if b then nothing else if e then erase_only else save_some)
  by_case true e p q = nothing-Appends (ground arith) (length-eq-zero c (ground arith))
  by_case false true p q = erase_only-Appends (ground arith)
  by_case false false p q = save_some-Appends q

  -- A batch erases at most the characters that no reader has been shown, then appends as many of
  -- `c` as fit; the buffer stays valid, the readers see `seen`, the screen gets the erasures and
  -- the whole of `c`, and the waiting readers are woken exactly when there is now something to
  -- see where there was nothing.
  pub receive-Appends : Appends (receive t c back_num)
  receive-Appends = rw receive-eq (by_case _ _ refl refl)

  prefix :
      take t.read_buf_visible (ring t.read_buf t.read_buf_oi kept)
      ≡ take t.read_buf_visible (contents t)
  unfolding contents
  prefix =
      take-ring t.read_buf t.read_buf_oi t.read_buf_visible kept v.oi-lt (omega arith)
      ∙ sym (
          take-ring t.read_buf t.read_buf_oi t.read_buf_visible t.read_buf_used v.oi-lt
            v.visible-le)

  -- A batch never takes back what the readers have been shown: it stays the front of the queue,
  -- and the readers see no less.
  pub receive-seen_prefix :
      (t.read_buf_visible ≤ (receive t c back_num).tty.read_buf_visible)
      × (take t.read_buf_visible (contents (receive t c back_num).tty)
          ≡ take t.read_buf_visible (contents t))
  receive-seen_prefix = (
    rw receive-Appends.visible-eq seen_bounds.0,
    rw (receive-Appends.contents-eq, ← kept-contents)
        (take-append_le t.read_buf_visible (ring t.read_buf t.read_buf_oi kept) _
            (omega (arith, length-ring t.read_buf t.read_buf_oi kept))
          ∙ prefix),
  )
