-- ===== src/Tty/Read.antt =====
-- The readers of tty_read.c and tty_readv.c: they take characters from the front of the queue.
use mathlib.Core.List.{append-nil}
use myos_io.Base.{
  ℕ, ◌+◌, ◌-◌, ◌%◌, ◌≤◌, ◌<◌, ◌≡◌, ◌≢◌, refl, sym, ap, ◌∙◌, ◌⊎◌, inl, inr, true, false, List, [],
  ◌∷◌, ◌++◌, arith, ltb, leb, ◌==◌, ◌↔◌, sum, take, drop, take-add, drop-add, min, Bool-cases,
  sub64_exact,
}
use myos_io.Base.Int.{pos, negsuc}
use myos_io.Tty.{
  read_buf_size, ssize_max, Tty, copied, Outcome, returned, wait, take_out, at_most, tty_read,
  readv_loop, then_more, skip_empty, readv_nonempty, tty_readv, einval,
}
use myos_io.Tty.Ring.{ring, contents, IsValid, ring-append, copied-ring, take-ring, drop-ring}

-- What taking `size` characters does, in terms of the queue.
pub record Takes (t : Tty) (size : ℕ) (bytes : List ℕ) (t' : Tty) : Type 0 where
  pub bytes-eq : bytes ≡ take size (contents t)
  pub contents-eq : contents t' ≡ drop size (contents t)
  pub valid : IsValid t'
  pub visible-eq : t'.read_buf_visible ≡ t.read_buf_visible - size

module _ (t : Tty) (size : ℕ) (v : IsValid t) (fits : size ≤ t.read_buf_visible) where
  -- the three ways in which the end of the array and the end of the copy can lie
  abbrev after : ℕ → Tty
  after oi = record {
    read_buf = t.read_buf;
    read_buf_ii = t.read_buf_ii;
    read_buf_oi = oi;
    read_buf_used = t.read_buf_used - size;
    read_buf_visible = t.read_buf_visible - size;
  }

  after-Takes :
      (oi : ℕ) (bytes : List ℕ)
      → oi ≡ (t.read_buf_oi + size) % read_buf_size
      → bytes ≡ ring t.read_buf t.read_buf_oi size
      → Takes t size bytes (after oi)
  unfolding contents
  after-Takes oi bytes e b = record {
    bytes-eq =
        b ∙ sym (take-ring t.read_buf t.read_buf_oi size t.read_buf_used v.oi-lt (omega arith));
    contents-eq =
        ap (λ o. ring t.read_buf o (t.read_buf_used - size)) e
        ∙ sym (drop-ring t.read_buf t.read_buf_oi size t.read_buf_used v.oi-lt (omega arith));
    valid = record {
      used-le = omega arith;
      visible-le = omega arith;
      oi-lt = omega arith;
      ii-eq = omega arith;
    };
    visible-eq = refl;
  }

  wrapped :
      (a b : ℕ)
      → a + b ≡ size
      → t.read_buf_oi + a ≡ read_buf_size
      → copied t.read_buf t.read_buf_oi a ++ copied t.read_buf 0 b
        ≡ ring t.read_buf t.read_buf_oi size
  wrapped a b e h =
      rw
        (
          ← e,
          copied-ring t.read_buf t.read_buf_oi a (omega arith),
          copied-ring t.read_buf 0 b (omega arith),
        )
        (sym (ring-append t.read_buf t.read_buf_oi a b 0 v.oi-lt (omega arith)))

  pub take_out-Takes : Takes t size (take_out t size).0 (take_out t size).1
  unfolding take_out
  take_out-Takes =
      rw
        (
          sub64_exact t.read_buf_visible size fits (omega arith),
          sub64_exact t.read_buf_used size (omega arith) (omega arith),
          sub64_exact read_buf_size size (omega arith) (omega arith),
          sub64_exact read_buf_size t.read_buf_oi (omega arith) (omega arith),
        )
        (elim (Bool-cases (ltb t.read_buf_oi (read_buf_size - size))) [
          | inl inside ↦ rw inside (
              after-Takes (t.read_buf_oi + size) _ (ground arith)
                (copied-ring t.read_buf t.read_buf_oi size (ground arith)))
          | inr past ↦ rw past (elim (Bool-cases (t.read_buf_oi == read_buf_size - size)) [
            | inl flush ↦ rw flush (
                after-Takes 0 _ (ground arith)
                  (copied-ring t.read_buf t.read_buf_oi size (ground arith)))
            | inr around ↦
                rw
                  (
                    around,
                    sub64_exact size (read_buf_size - t.read_buf_oi) (ground arith) (omega arith),
                  )
                  (after-Takes (size - (read_buf_size - t.read_buf_oi)) _ (ground arith) (
                    wrapped (read_buf_size - t.read_buf_oi) (size - (read_buf_size - t.read_buf_oi))
                      (ground arith) (omega arith)))
          ])
        ])

pub at_most-min : (size visible : ℕ) → at_most size visible ≡ min size visible
at_most-min size visible = ground arith

-- A read of a valid buffer with something visible never trips its assertion: it returns
-- min(size, visible) characters, the first of the queue, and leaves the others.
pub tty_read-take :
    (t : Tty) (size : ℕ)
    → IsValid t
    → 0 < size
    → 0 < t.read_buf_visible
    → (bytes : List ℕ) × (t' : Tty) × (tty_read t size
        ≡ returned bytes (min size t.read_buf_visible) t')
      × Takes t (min size t.read_buf_visible) bytes t'
unfolding tty_read
tty_read-take t size v h k =
    let n = min size t.read_buf_visible in
    let some_asked : (size == 0) ≡ false = ground arith in
    let some_there : (t.read_buf_visible == 0) ≡ false = ground arith in
    let small : leb n ssize_max ≡ true = ground arith in
    (
      (take_out t n).0,
      (take_out t n).1,
      rw (some_asked, some_there, at_most-min size t.read_buf_visible, small),
      take_out-Takes t n v (omega arith),
    )

-- A reader waits exactly when it asks for something and nothing is visible.
pub tty_read-wait :
    (t : Tty) (size : ℕ) → (tty_read t size ≡ wait) ↔ ((0 < size) × (t.read_buf_visible ≡ 0))
unfolding tty_read
tty_read-wait t size = (ground arith, ground arith)

-- The characters that the buffers of a vectored read have received, in order.
abbrev pub joined : List (List ℕ) → List ℕ
joined [] = []
joined (b ∷ bs) = b ++ joined bs

-- Two takings, one after the other, are one.
module _ {t t' t'' : Tty} {m n : ℕ} {bs cs : List ℕ} (p : Takes t m bs t')
    (q : Takes t' n cs t'') where
  Takes-trans : Takes t (m + n) (bs ++ cs) t''
  Takes-trans = record {
    bytes-eq = rw (p.bytes-eq, q.bytes-eq, p.contents-eq) (sym (take-add m n (contents t)));
    contents-eq = q.contents-eq ∙ ap (drop n) p.contents-eq ∙ sym (drop-add m n (contents t));
    valid = q.valid;
    visible-eq = omega (arith, p.visible-eq, q.visible-eq);
  }

Takes-refl : {t : Tty} → IsValid t → Takes t 0 [] t
Takes-refl v = record { bytes-eq = refl; contents-eq = refl; valid = v; visible-eq = omega arith }

-- A run that stored `n` characters, the first of the queue, in the buffers given.
abbrev pub Stores : Tty → ℕ → ℕ → Outcome (List (List ℕ)) → Type 0
Stores t ret n o =
    (bytes : List (List ℕ)) × (t' : Tty) × (o ≡ returned bytes (ret + n) t')
    × Takes t n (joined bytes) t'

module _ {t t' : Tty} {size : ℕ} {b : List ℕ} (p : Takes t size b t') (ret len total : ℕ)
    (clipped : size ≡ min len t.read_buf_visible) where
  -- the `break`: nothing is left to see
  stop-Stores :
      (t'.read_buf_visible == 0) ≡ true
      → Stores t ret (min (len + total) t.read_buf_visible) (returned (b ∷ []) (ret + size) t')
  stop-Stores e =
      let all : min (len + total) t.read_buf_visible ≡ size = ground (arith, p.visible-eq) in
      (b ∷ [], t', rw all, rw (all, append-nil) p)

  go-Stores :
      (o : Outcome (List (List ℕ)))
      → (t'.read_buf_visible == 0) ≡ false
      → Stores t' (ret + size) (min total t'.read_buf_visible) o
      → Stores t ret (min (len + total) t.read_buf_visible) (then_more b o)
  go-Stores o e (bytes, t'', run, rest) =
      let whole : min (len + total) t.read_buf_visible ≡ size + min total t'.read_buf_visible =
        ground (arith, p.visible-eq) in
      (
        b ∷ bytes,
        t'',
        rw (run, whole) (ap (λ r. returned (b ∷ bytes) r t'') (omega arith)),
        rw whole (Takes-trans p rest),
      )

readv_loop-Stores :
    (iov : List ℕ) (t : Tty) (ret : ℕ)
    → IsValid t
    → ret + t.read_buf_visible ≤ ssize_max
    → Stores t ret (min (sum iov) t.read_buf_visible) (readv_loop t ret iov)
unfolding readv_loop
readv_loop-Stores [] t ret v h =
    let e : min 0 t.read_buf_visible ≡ 0 = omega arith in
    let e' : ret + 0 ≡ ret = omega arith in ([], t, rw (e, e'), rw e (Takes-refl v))
readv_loop-Stores (len ∷ iov) t ret v h =
    rw
      (
        at_most-min len t.read_buf_visible,
        sub64_exact ssize_max ret (omega arith) (omega arith),
        fits,
      )
      (elim (Bool-cases ((take_out t size).1.read_buf_visible == 0)) [
        | inl e ↦ rw e (stop-Stores took ret len (sum iov) refl e)
        | inr e ↦ rw e (
            go-Stores took ret len (sum iov) refl _ e (
              readv_loop-Stores iov (take_out t size).1 (ret + size) took.valid
                (omega (arith, took.visible-eq))))
      ])
  where
    size : ℕ
    size = min len t.read_buf_visible

    fits : leb size (ssize_max - ret) ≡ true
    fits = ground arith

    took : Takes t size (take_out t size).0 (take_out t size).1
    took = take_out-Takes t size v (omega arith)

sum-skip_empty : (iov : List ℕ) → sum (skip_empty iov) ≡ sum iov
unfolding skip_empty
sum-skip_empty [] = refl
sum-skip_empty (len ∷ iov) = ground (arith, sum-skip_empty iov)

-- What is left after the empty buffers asks for something.
asks : (iov : List ℕ) → (skip_empty iov ≡ []) ⊎ (0 < sum iov)
unfolding skip_empty
asks [] = inl refl
asks (len ∷ iov) = ground (arith, asks iov)

skip_empty_none : (iov : List ℕ) → 0 < sum iov → skip_empty iov ≢ []
unfolding skip_empty
skip_empty_none [] h = absurd (omega arith)
skip_empty_none (len ∷ iov) h = ground (arith, skip_empty_none iov)

nonempty-Stores :
    (t : Tty) (iov : List ℕ)
    → IsValid t
    → 0 < t.read_buf_visible
    → Stores t 0 (min (sum iov) t.read_buf_visible) (readv_nonempty t iov)
nonempty-Stores t [] v k =
    let e : min 0 t.read_buf_visible ≡ 0 = omega arith in ([], t, rw e, rw e (Takes-refl v))
nonempty-Stores t (len ∷ iov) v k =
    let there : (t.read_buf_visible == 0) ≡ false = ground arith in
    rw there (readv_loop-Stores (len ∷ iov) t 0 v (omega arith))

-- A vectored read of a valid buffer with something visible never trips its assertion: it returns
-- min(total length of the buffers, visible), and the buffers, in order, hold that many characters
-- from the front of the queue, which keeps the others.
pub tty_readv-Stores :
    (t : Tty) (iov : List ℕ) (iovcnt : ℕ)
    → IsValid t
    → 0 < t.read_buf_visible
    → Stores t 0 (min (sum (take iovcnt iov)) t.read_buf_visible) (tty_readv t iov (pos iovcnt))
unfolding tty_readv
tty_readv-Stores t iov iovcnt v k =
    rw (← sum-skip_empty (take iovcnt iov)) (nonempty-Stores t (skip_empty (take iovcnt iov)) v k)

nonempty-wait :
    (t : Tty) (iov : List ℕ) → t.read_buf_visible ≡ 0 → (readv_nonempty t iov ≡ wait) ↔ (iov ≢ [])
nonempty-wait t [] e = (ground arith, λ h. absurd (h refl))
nonempty-wait t (len ∷ iov) e = (ground arith, ground arith)

-- With nothing visible a vectored read waits exactly when its buffers are not all empty, and a
-- negative count is EINVAL in every state.
pub tty_readv_blocks :
    (t : Tty) (iov : List ℕ) (k : ℕ)
    → (t.read_buf_visible ≡ 0 → (tty_readv t iov (pos k) ≡ wait) ↔ (0 < sum (take k iov)))
      × (tty_readv t iov (negsuc k) ≡ einval)
unfolding tty_readv
tty_readv_blocks t iov k = (
  λ e. (
    λ w. some_asked ((nonempty-wait t (skip_empty (take k iov)) e).0 w),
    λ h. (nonempty-wait t (skip_empty (take k iov)) e).1 (skip_empty_none (take k iov) h),
  ),
  refl,
)
  where
    some_asked : skip_empty (take k iov) ≢ [] → 0 < sum (take k iov)
    some_asked ne = elim (asks (take k iov)) [ inl none_left ↦ absurd (ne none_left) | inr h ↦ h ]
