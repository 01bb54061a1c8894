-- ===== src/Mm/Init/Entries.antt =====
-- Where the blocks of an entry lie.
use myos_io.Base.{
  ℕ, ◌+◌, ◌-◌, ◌*◌, ◌/◌, ◌%◌, ◌<◌, ◌≤◌, ◌≡◌, refl, inl, inr, true, false, Bool-cases, by_test, not,
  ◌||◌, ◌++◌, leb, ◌==◌, sub64, add64, add64_exact, word, arith, tests,
}
use myos_io.Mm.Init.{
  E820Entry, Image, kernel_align2m, is_usable, pad, entry_blocks, super_blocks, above_super,
}
use myos_io.Mm.State.{page_size}
use myos_io.Mm.Init.Blocks.{IsImage, Placed, reach, Laid}
use myos_io.Mm.Init.Split.{split_blocks-Laid, start_aligned}

pad_aligned : (e : E820Entry) → ((e.addr + pad e) % 0x20_0000 ≡ 0) × (0x100_0000 ≤ e.addr + pad e)
pad_aligned e = elim (Bool-cases (leb e.addr 0x100_0000)) [
  | inl t ↦ ground (arith, t)
  | inr t ↦ ground (arith, t)
]

-- What the two tests of a round leave.
tests_passed :
    (e : E820Entry)
    → (not (is_usable e) || leb e.size (pad e)) ≡ false
    → (is_usable e ≡ true) × (pad e < e.size) × (reach e ≡ e.addr + e.size)
tests_passed e t =
    let (u, l) : (is_usable e ≡ true) × (leb e.size (pad e) ≡ false) = ground (arith, t) in
    let less : pad e < e.size = ground (arith, l) in (u, less, ground (arith, less))

module _ (img : Image) (ok : IsImage img) where
  open ok use {high, nonempty, low, rounded, near, aligned}

  pub entry_blocks-Laid :
      (e : E820Entry)
      → reach e ≤ word
      → (is_usable e ≡ true → Placed img e)
      → Laid img e.addr (entry_blocks img e) (reach e)
  unfolding entry_blocks
  entry_blocks-Laid e in_word placed =
      by_test (λ xs. Laid img e.addr xs (reach e)) (not (is_usable e) || leb e.size (pad e))
        (λ t. tt)
        (λ t.
          let size = (e.size - pad e) / page_size * page_size in
          by_test (λ xs. Laid img e.addr xs (reach e)) (size == 0) (λ t'. tt)
            (λ t'.
              let (usable, less, whole) = tests_passed e t in
              let (al, far) = pad_aligned e in
              let q : add64 e.addr (pad e) ≡ e.addr + pad e =
                add64_exact _ _ (omega (arith, less, whole, in_word)) in
              let nonzero : 0 < (e.size - pad e) / page_size * page_size = ground (arith, t') in
              split_blocks-Laid img ok e (add64 e.addr (pad e)) size (omega (arith, q, far))
                (omega (arith, q, al)) (omega arith) nonzero (omega (arith, q))
                (omega (arith, q, whole, less)) (omega (arith, q, whole, less)) in_word
                (placed usable)))

  kernel_end : (0x100_0000 < img.ekernel_align2m) × (img.ekernel_align2m < word)
  kernel_end = (omega (arith, high, nonempty, rounded), omega (arith, low, near))

  last_block : (lo : ℕ) → lo ≤ img.ekernel_align2m → Laid img lo (above_super img) word
  unfolding sub64
  last_block lo from =
      let q : sub64 0 img.ekernel_align2m ≡ word - img.ekernel_align2m =
        omega (tests, kernel_end) in
      (
        record {
          from = from;
          upto = omega (arith, q, kernel_end);
          nonzero = omega (arith, q, kernel_end);
          addr_aligned = aligned;
          size_aligned = omega (arith, q, aligned);
          above = omega (arith, kernel_end);
          clear = inr (omega arith);
        },
        tt,
      )

  pub super_blocks-Laid : Laid img 0 (super_blocks img) word
  super_blocks-Laid =
      by_test (λ xs. Laid img 0 (xs ++ above_super img) word) (kernel_align2m img == 0x100_0000)
        (λ t. last_block 0 (omega arith))
        (λ t.
          let far : 0x100_0000 < kernel_align2m img = ground (arith, t, high) in
          (
            record {
              from = omega arith;
              upto = omega (arith, far, start_aligned img ok, nonempty, low);
              nonzero = omega (arith, far);
              addr_aligned = refl;
              size_aligned = omega (arith, far, start_aligned img ok);
              above = omega arith;
              clear = inl (omega (arith, far));
            },
            last_block _ (omega (arith, far, start_aligned img ok, nonempty, rounded)),
          ))
