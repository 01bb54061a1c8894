-- ===== src/Mm/Init/Append.antt =====
-- All the blocks of a map, and when the array of blocks is large enough for them.
use mathlib.Core.List.{append-nil, append_assoc}
use myos_io.Base.{
  ℕ, ◌+◌, ◌*◌, ◌-◌, ◌/◌, ◌≤◌, ◌≡◌, refl, sym, ◌∙◌, ap, inl, inr, false, not, ◌&&◌, ◌||◌, Bool-cases,
  by_test, some, ◌>>=◌, List, [], ◌∷◌, ◌++◌, length, length-append, ltb, leb, ◌==◌, if◌then◌else◌,
  sub64, add64, arith,
}
use myos_io.Mm.State.{page_size}
use myos_io.Mm.Init.{
  E820Entry, FreeMemoryBlock, Image, kernel_align2m, is_usable, pad, before_kernel, after_kernel,
  split_blocks, page_blocks, entry_blocks, super_blocks, below_super, above_super, append_blocks,
  blocks_loop, memory_blocks, take_first,
}

module _ (img : Image) where
  -- All blocks: what a loop that never aborts appends, and those of an entry that is all of memory.
  unfoldable pub blocks_of : List E820Entry → List FreeMemoryBlock
  unfolding entry_blocks
  blocks_of [] = []
  blocks_of (e ∷ es) = entry_blocks img e ++ blocks_of es

  unfoldable pub all_blocks : List E820Entry → List FreeMemoryBlock
  unfolding blocks_of
  all_blocks (e ∷ []) =
      if e.size == 0 then if is_usable e then super_blocks img else [] else blocks_of (e ∷ [])
  all_blocks es = blocks_of es

  append_blocks-append :
      (bs blocks : List FreeMemoryBlock)
      → length blocks + length bs ≤ 2048
      → append_blocks blocks bs ≡ some (blocks ++ bs)
  unfolding append_blocks
  append_blocks-append [] blocks h = ap some (sym (append-nil blocks))
  append_blocks-append (b ∷ bs) blocks h =
      let room : (length blocks == 2048) ≡ false = ground (arith, h) in
      rw room (
        append_blocks-append bs (blocks ++ b ∷ []) (omega (arith, length-append blocks (b ∷ []), h))
        ∙ ap some (append_assoc blocks (b ∷ []) bs))

  length-before_kernel : (addr : ℕ) → length (before_kernel img addr) ≤ 1
  length-before_kernel addr =
      by_test (λ xs. length xs ≤ 1) (ltb addr (kernel_align2m img)) (λ t. omega arith)
        (λ t. omega arith)

  length-after_kernel : (addr size : ℕ) → length (after_kernel img addr size) ≤ 1
  length-after_kernel addr size =
      by_test (λ xs. length xs ≤ 1) (sub64 img.ekernel_align2m addr == size) (λ t. omega arith)
        (λ t. omega arith)

  length-split_blocks : (e : E820Entry) (addr size : ℕ) → length (split_blocks img e addr size) ≤ 2
  length-split_blocks e addr size =
      by_test (λ xs. length xs ≤ 2)
        (leb e.addr img.kernel && leb (sub64 img.ekernel_align2m addr) size)
        (λ t. omega (
          arith,
          length-append (before_kernel img addr) (after_kernel img addr size),
          length-before_kernel addr,
          length-after_kernel addr size,
        ))
        (λ t. omega arith)

  length-page_blocks : (e : E820Entry) (size : ℕ) → length (page_blocks img e size) ≤ 2
  length-page_blocks e size =
      by_test (λ xs. length xs ≤ 2) (size == 0) (λ t. omega arith)
        (λ t. length-split_blocks e (add64 e.addr (pad e)) size)

  length-below_super : length (below_super img) ≤ 1
  length-below_super =
      by_test (λ xs. length xs ≤ 1) (kernel_align2m img == 0x100_0000) (λ t. omega arith)
        (λ t. omega arith)

  length-super_blocks : length (super_blocks img) ≤ 2
  length-super_blocks =
      omega (arith, length-append (below_super img) (above_super img), length-below_super)

  length-entry_blocks : (e : E820Entry) → length (entry_blocks img e) ≤ 2
  unfolding entry_blocks
  length-entry_blocks e =
      let size = (e.size - pad e) / page_size * page_size in
      by_test (λ xs. length xs ≤ 2) (not (is_usable e) || leb e.size (pad e)) {x = []}
        {y = page_blocks img e size} (λ t. omega arith) (λ t. length-page_blocks e size)

  blocks_loop-append :
      (es : List E820Entry) (blocks : List FreeMemoryBlock)
      → length blocks + 2 * length es ≤ 2048
      → blocks_loop img blocks es ≡ some (blocks ++ blocks_of es)
  unfolding blocks_loop blocks_of
  blocks_loop-append [] blocks h = ap some (sym (append-nil blocks))
  blocks_loop-append (e ∷ es) blocks h =
      let l = length-entry_blocks e in
      rw (append_blocks-append (entry_blocks img e) blocks (omega (arith, l, h))) (
        blocks_loop-append es (blocks ++ entry_blocks img e)
          (omega (arith, length-append blocks (entry_blocks img e), l, h))
        ∙ ap some (append_assoc blocks (entry_blocks img e) (blocks_of es)))

  pub memory_blocks-all_blocks :
      (es : List E820Entry)
      → 2 * length es ≤ 2048
      → (memory_blocks img es >>= take_first) ≡ take_first (all_blocks es)
  unfolding memory_blocks all_blocks take_first
  memory_blocks-all_blocks [] h = refl
  memory_blocks-all_blocks (e ∷ []) h = elim (Bool-cases (e.size == 0)) [
    | inr t ↦ rw t (ap (λ o. o >>= take_first) (blocks_loop-append (e ∷ []) [] (omega (arith, h))))
    | inl t ↦ rw t (elim (Bool-cases (is_usable e)) [
      | inl u ↦ rw u (
          ap (λ o. o >>= take_first)
            (append_blocks-append (super_blocks img) [] (omega (arith, length-super_blocks))))
      | inr u ↦ rw u refl
    ])
  ]
  memory_blocks-all_blocks (e ∷ f ∷ es) h =
      ap (λ o. o >>= take_first) (blocks_loop-append (e ∷ f ∷ es) [] (omega (arith, h)))
