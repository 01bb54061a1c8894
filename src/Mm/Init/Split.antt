-- ===== src/Mm/Init/Split.antt =====
-- Where the parts of an entry lie that remain beside the kernel.
use myos_io.Base.{
  ℕ, ◌+◌, ◌-◌, ◌%◌, ◌<◌, ◌≤◌, ◌≡◌, ◌≢◌, ◌∙◌, ◌⊎◌, inl, inr, false, Bool-cases, by_test, ltb→lt,
  leb→le, ◌&&◌, List, ◌++◌, ltb, leb, ◌==◌, sub64, sub64_exact, word, arith,
}
use myos_io.Mm.Init.{
  E820Entry, FreeMemoryBlock, Image, kernel_align2m, before_kernel, after_kernel, split_blocks,
}
use myos_io.Mm.Init.Blocks.{IsImage, Placed, reach, Laid}

module _ (img : Image) (ok : IsImage img) where
  open ok use {high, nonempty, low, rounded, near, aligned}

  -- _kernel_align2m
  pub start_aligned : (kernel_align2m img % 0x20_0000 ≡ 0) × (kernel_align2m img ≤ img.kernel)
  start_aligned = (omega arith, omega arith)

  before_kernel-Laid :
      (lo addr hi : ℕ)
      → lo ≤ addr
      → addr % 0x20_0000 ≡ 0
      → 0x100_0000 ≤ addr
      → addr ≤ img.ekernel_align2m
      → img.ekernel_align2m ≤ hi
      → (bs : List FreeMemoryBlock) → ((lo' : ℕ) → lo' ≤ img.ekernel_align2m → Laid img lo' bs hi)
      → Laid img lo (before_kernel img addr ++ bs) hi
  before_kernel-Laid lo addr hi from addr_al above in_hi past bs rest =
      by_test (λ xs. Laid img lo (xs ++ bs) hi) (ltb addr (kernel_align2m img))
        (λ t.
          let lt : addr < kernel_align2m img = ltb→lt _ _ t in
          (
            record {
              from = from;
              upto = omega (arith, lt, start_aligned, ok);
              nonzero = omega (arith, lt);
              addr_aligned = addr_al;
              size_aligned = omega (arith, lt, start_aligned, addr_al);
              above = above;
              clear = inl (omega (arith, lt));
            },
            rest _ (omega (arith, lt, start_aligned, nonempty, rounded)),
          ))
        (λ t. rest lo (omega arith))

  after_kernel-Laid :
      (addr size hi : ℕ)
      → 0x100_0000 ≤ addr
      → size % 0x20_0000 ≡ 0
      → addr % 0x20_0000 ≡ 0
      → addr + size ≤ hi
      → hi ≤ word
      → addr ≤ img.ekernel_align2m
      → img.ekernel_align2m ≤ addr + size
      → (lo : ℕ) → lo ≤ img.ekernel_align2m
      → Laid img lo (after_kernel img addr size) hi
  after_kernel-Laid addr size hi far size_al addr_al upto in_word above below lo from =
      let e : sub64 img.ekernel_align2m addr ≡ img.ekernel_align2m - addr =
        sub64_exact _ _ above (omega (arith, low, near)) in
      let f : sub64 size (sub64 img.ekernel_align2m addr) ≡ addr + size - img.ekernel_align2m =
        sub64_exact size _ (omega (arith, e, below)) (omega (arith, upto, in_word, far))
        ∙ omega (arith, e, above, below) in
      by_test (λ xs. Laid img lo xs hi) (sub64 img.ekernel_align2m addr == size) (λ t. tt)
        (λ t.
          let ne : img.ekernel_align2m ≢ addr + size = λ q. ground (arith, e, t, q, above) in
          (
            record {
              from = from;
              upto = omega (arith, f, upto, below);
              nonzero = omega (arith, f, below, ne);
              addr_aligned = aligned;
              size_aligned = omega (arith, f, size_al, addr_al, aligned, below);
              above = omega (arith, high, nonempty, rounded);
              clear = inr (omega arith);
            },
            tt,
          ))

  -- _ekernel_align2m - addr, with its wrap-around.
  distance :
      (addr : ℕ)
      → addr < word
      → ((addr ≤ img.ekernel_align2m)
          × (sub64 img.ekernel_align2m addr ≡ img.ekernel_align2m - addr))
        ⊎ ((img.ekernel_align2m < addr)
            × (sub64 img.ekernel_align2m addr ≡ img.ekernel_align2m + word - addr))
  unfolding sub64
  distance addr in_word = elim (Bool-cases (leb addr img.ekernel_align2m)) [
    | inl t ↦ let h = leb→le _ _ t in inl (h, omega (arith, h, low, near))
    | inr t ↦
        let h : img.ekernel_align2m < addr = ground arith in inr (h, omega (arith, h, in_word))
  ]

  -- An entry that fails the test has no page of the kernel.
  missed :
      (e : E820Entry) (addr size : ℕ)
      → 0 < size
      → e.addr ≤ addr
      → addr + size ≤ reach e
      → reach e < addr + size + 0x20_0000
      → reach e ≤ word
      → Placed img e
      → addr % 0x20_0000 ≡ 0
      → size % 0x20_0000 ≡ 0
      → (leb e.addr img.kernel && leb (sub64 img.ekernel_align2m addr) size) ≡ false
      → (addr + size ≤ kernel_align2m img) ⊎ (img.ekernel_align2m ≤ addr)
  missed e addr size pos_size from upto last in_word (inl after) addr_al size_al t =
      inr (omega (arith, after, from))
  missed e addr size pos_size from upto last in_word (inr (inl before)) addr_al size_al t =
      inl (omega (arith, before, upto))
  missed e addr size pos_size from upto last in_word (inr (inr (start, end))) addr_al size_al t =
      elim (distance addr (omega (arith, pos_size, upto, in_word))) [
        | inr (h, q) ↦ inr (omega (arith, h))
        | inl (h, q) ↦
            let far : size < img.ekernel_align2m - addr = ground (arith, t, q, start) in
            absurd (omega (arith, far, h, end, last, addr_al, size_al, aligned))
      ]

  pub split_blocks-Laid :
      (e : E820Entry) (addr size : ℕ)
      → 0x100_0000 ≤ addr
      → addr % 0x20_0000 ≡ 0
      → size % 0x20_0000 ≡ 0
      → 0 < size
      → e.addr ≤ addr
      → addr + size ≤ reach e
      → reach e < addr + size + 0x20_0000
      → reach e ≤ word
      → Placed img e
      → Laid img e.addr (split_blocks img e addr size) (reach e)
  split_blocks-Laid e addr size far addr_al size_al pos_size from upto last in_word placed =
      by_test (λ xs. Laid img e.addr xs (reach e))
        (leb e.addr img.kernel && leb (sub64 img.ekernel_align2m addr) size)
        (λ t.
          let (at_start, in_size) : (e.addr ≤ img.kernel)
              × (sub64 img.ekernel_align2m addr ≤ size) =
            ground (arith, t) in
          let d = distance addr (omega (arith, pos_size, upto, in_word)) in
          let ordered : (addr ≤ img.ekernel_align2m) × (img.ekernel_align2m ≤ addr + size) =
            elim d [
              | inl (h, q) ↦ (h, omega (arith, h, q, in_size))
              | inr (h, q) ↦ absurd (omega (arith, h, q, in_size, upto, in_word, nonempty, rounded))
            ] in
          before_kernel-Laid e.addr addr (reach e) from addr_al far ordered.0
            (omega (arith, ordered, upto)) (after_kernel img addr size)
            (after_kernel-Laid addr size (reach e) far size_al addr_al upto in_word ordered.0
              ordered.1))
        (λ t. (
          record {
            from = from;
            upto = upto;
            nonzero = pos_size;
            addr_aligned = addr_al;
            size_aligned = size_al;
            above = far;
            clear = missed e addr size pos_size from upto last in_word placed addr_al size_al t;
          },
          tt,
        ))
