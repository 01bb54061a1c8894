-- ===== src/Mm/Init/FirstPage.antt =====
-- What kernel_init_part2 gives out: the page for the first page tables, then the others.
use mathlib.Core.Path.{subst}
use myos_io.Base.{
  ℕ, suc, ◌+◌, ◌-◌, ◌*◌, ◌/◌, ◌%◌, ◌<◌, ◌≤◌, ◌≡◌, refl, sym, ap, false, not, ◌||◌, ltb, leb,
  by_test, Option, none, some, List, [], ◌∷◌, take, length, ◌==◌, arith,
}
use myos_io.Mm.State.{page_size}
use myos_io.Mm.Init.{
  E820Entry, FreeMemoryBlock, Image, take_first, init_blocks, FreePagesIterator,
  init_free_pages_iterator,
}
use myos_io.Mm.Init.Blocks.{IsImage}
use myos_io.Mm.Init.Pages.{pages_from, pages_of, Whole, drain, drain-init_free_pages_iterator}
use myos_io.Mm.Init.Free.{Ascending, FreePages, FreePages-take}
use myos_io.Mm.Init.Append.{all_blocks, memory_blocks-all_blocks}
use myos_io.Mm.Init.Usable.{all_blocks-FreePages, all_blocks-Whole}

-- There is no page, or the first one lies above 512 GiB.
abbrev pub NoFirst : List ℕ → Type 0
NoFirst [] = Unit
NoFirst (p ∷ ps) = 0x80_0000_0000 ≤ p

-- Of the blocks `all`, the first page has been taken, and the iterator gives out the others.
abbrev pub GivenOut : List FreeMemoryBlock → Option (ℕ × List FreeMemoryBlock) → Type 0
GivenOut all none = NoFirst (pages_of all)
GivenOut all (some (first, bs)) =
    (first < 0x80_0000_0000)
    × ((n : ℕ) (old : FreePagesIterator)
        → first ∷ drain n (init_free_pages_iterator old bs) ≡ take (suc n) (pages_of all))

starts :
    (addr size : ℕ)
    → 0 < size
    → size % 0x20_0000 ≡ 0
    → pages_from addr (size / page_size)
      ≡ addr ∷ pages_from (addr + page_size) ((size - page_size) / page_size)
starts addr size nonzero al =
    let e : size / page_size ≡ suc ((size - page_size) / page_size) = omega arith in rw e refl

take_first-GivenOut : (bs : List FreeMemoryBlock) → Whole bs → GivenOut bs (take_first bs)
unfolding take_first
take_first-GivenOut [] whole = tt
take_first-GivenOut (b ∷ bs) (nonzero, al, in_word, whole) =
    let s = starts b.addr b.size nonzero al in
    by_test (GivenOut (b ∷ bs)) (leb 0x80_0000_0000 b.addr) (λ t. rw s (ground (arith, t)))
      (λ t.
        by_test (GivenOut (b ∷ bs)) (b.size == page_size)
          (λ u. (
            ground (arith, t),
            λ n old.
                let one : b.size / page_size ≡ 1 = ground (arith, u) in
                rw one (ap (λ ps. b.addr ∷ ps) (drain-init_free_pages_iterator n old bs whole)),
          ))
          (λ u. (
            ground (arith, t),
            λ n old.
                let less : page_size < b.size = ground (arith, u, nonzero, al) in
                rw s (
                  ap (λ ps. b.addr ∷ ps)
                    (drain-init_free_pages_iterator n old _ (
                      omega (arith, less),
                      omega (arith, al),
                      omega (arith, less, in_word),
                      whole,
                    ))),
          )))

module _ (img : Image) (es : List E820Entry) (ok : IsImage img)
    (at_page : img.virtual_null % 0x20_0000 ≡ 0) (ascending : Ascending img 0 es)
    (room : 2 * length es ≤ 2048) where
  open ok use {high, low}

  init_blocks-take_first : init_blocks img es ≡ take_first (all_blocks img es)
  unfolding init_blocks
  init_blocks-take_first =
      let tests : ((ltb img.kernel 0x100_0000 || ltb 0x1_0000_0000 img.ekernel)
            || not (img.virtual_null % 0x20_0000 == 0))
          ≡ false =
        ground (arith, high, low, at_page) in
      rw tests (memory_blocks-all_blocks img es room)

  -- For a kernel between 16 MiB and 4 GiB at a whole page, and a map of at most 1024 entries in
  -- ascending order without overlaps, in 64-bit addresses, an empty entry only at address 0, of
  -- which each usable entry has either no page of the kernel, or its start and the end of its last
  -- page: the search for free pages fails only when there is no block, or the first one lies above
  -- 512 GiB. Else the page that is taken for the first page tables, and then
  -- the calls of get_free_page_in_init, give all pages of all blocks, in order, and then NULL.
  pub init_blocks-GivenOut : GivenOut (all_blocks img es) (init_blocks img es)
  init_blocks-GivenOut =
      rw init_blocks-take_first
        (take_first-GivenOut (all_blocks img es) (all_blocks-Whole img ok es ascending))

  -- Under the same conditions, the page for the first page tables and the pages that the iterator
  -- gives out do not overlap, are aligned, lie above 16 MiB in a usable entry, and none of them is a page of
  -- the kernel.
  pub init_blocks-FreePages :
      (first : ℕ) (bs : List FreeMemoryBlock)
      → init_blocks img es ≡ some (first, bs)
      → (n : ℕ) (old : FreePagesIterator)
      → FreePages img es 0 (first ∷ drain n (init_free_pages_iterator old bs))
  init_blocks-FreePages first bs taken n old =
      let given : GivenOut (all_blocks img es) (some (first, bs)) =
        subst (GivenOut (all_blocks img es)) taken init_blocks-GivenOut in
      subst (FreePages img es 0) (sym (given.1 n old))
        (FreePages-take img es (suc n) 0 _ (all_blocks-FreePages img ok es ascending))
