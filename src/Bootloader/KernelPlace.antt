-- ===== src/Bootloader/KernelPlace.antt =====
-- The place of the kernel and the map that the kernel reads its free pages from.
use myos_io.Base.{
  ℕ, ◌+◌, ◌-◌, ◌*◌, ◌%◌, ◌^◌, ◌<◌, ◌≤◌, ◌⊎◌, ◌≡◌, refl, inl, inr, Bool-cases, ◌&&◌, Option, none,
  some, List, [], ◌∷◌, ltb, leb, ◌==◌, length, add64, word, arith,
}
use myos_io.Mm.Init.{
  E820Entry, FreeMemoryBlock, Image, init_blocks, FreePagesIterator, init_free_pages_iterator,
}
use myos_io.Mm.Init.Blocks.{IsImage, reach}
use myos_io.Mm.Init.Pages.{drain}
use myos_io.Mm.Init.Free.{Ascending, FreePages}
use myos_io.Mm.Init.Usable.{reach_from}
use myos_io.Mm.Init.FirstPage.{init_blocks-FreePages}
use myos_io.Bootloader.E820.Order.{Ordered}
use myos_io.Bootloader.{padsize, try_entry, place_loop, find_kernel_load_pos}

-- The kernel lies at `pos` and takes `size` bytes.
pub record LoadedAt (pos size : ℕ) (img : Image) : Type 0 where
  pub start : img.kernel ≡ pos
  pub null : img.virtual_null ≡ pos
  pub nonempty : pos < img.ekernel
  pub ends : img.ekernel_align2m ≡ pos + size
  pub rounded : img.ekernel ≤ img.ekernel_align2m
  pub near : img.ekernel_align2m < img.ekernel + 0x20_0000

-- A place for the kernel, in the part of the map from `lo` on.
abbrev pub IsPlace : ℕ → ℕ → ℕ → Type 0
IsPlace lo size pos =
    (lo ≤ pos) × (pos % 0x20_0000 ≡ 0) × (0x100_0000 ≤ pos) × (pos + size ≤ 0x1_0000_0000)

module _ (size : ℕ) (whole : size % 0x20_0000 ≡ 0) (nonempty : 0 < size)
    (small : size ≤ 0xff00_0000) where
  -- The entry in which the kernel is put.
  abbrev pub Holds : E820Entry → ℕ → Type 0
  Holds e pos = IsPlace e.addr size pos × (pos + size ≤ reach e)

  padsize-IsPlace :
      (e : E820Entry) (pad : ℕ) → padsize size e ≡ some pad → IsPlace e.addr size (e.addr + pad)
  padsize-IsPlace e pad p = elim (Bool-cases (leb e.addr 0x100_0000)) [
    | inl t ↦
        let q : pad ≡ 0x100_0000 - e.addr = ground (arith, t, p) in
        let low : e.addr ≤ 0x100_0000 = ground (arith, t) in
        (omega arith, omega (arith, q, low), omega (arith, q, low), omega (arith, q, low, small))
    | inr t ↦
        let far : 0x100_0000 < e.addr = ground (arith, t) in
        let low : e.addr ≤ 0x1_0000_0000 - size = ground (arith, t, p) in
        elim (Bool-cases (e.addr % 0x20_0000 == 0)) [
          | inl u ↦
              let q : (pad ≡ 0) × (e.addr % 0x20_0000 ≡ 0) = ground (arith, t, u, p) in
              (omega arith, omega (arith, q), omega (arith, far), omega (arith, q, low, small))
          | inr u ↦
              let q : pad ≡ 0x20_0000 - e.addr % 0x20_0000 = ground (arith, t, u, p) in
              let n : 0 < e.addr % 0x20_0000 = ground (arith, u) in
              (
                omega arith,
                omega (arith, q),
                omega (arith, far),
                omega (arith, q, n, low, small, whole),
              )
        ]
  ]

  try_entry-Holds :
      (e : E820Entry) (pos : ℕ)
      → reach e ≤ word
      → (o : Option ℕ) (next : Option ℕ) → padsize size e ≡ o
      → try_entry size e o next ≡ some pos
      → Holds e pos ⊎ (next ≡ some pos)
  unfolding add64
  try_entry-Holds e pos in_word none next p t = cc
  try_entry-Holds e pos in_word (some pad) next p t =
      elim (Bool-cases (ltb pad e.size && leb size (e.size - pad))) [
        | inr u ↦ inr (rw u at t)
        | inl u ↦
            let (from, al, far, upto) = padsize-IsPlace e pad p in
            let (less, room) : (pad < e.size) × (size ≤ e.size - pad) = ground (arith, u) in
            let all : reach e ≡ e.addr + e.size = ground (arith, less) in
            let q : pos ≡ e.addr + pad =
              let v : add64 e.addr pad % 2 ^ 32 ≡ e.addr + pad = omega (arith, upto, nonempty) in
              ground (arith, rw u at t, v) in
            inl (
              (
                omega (arith, q),
                omega (arith, q, al),
                omega (arith, q, far),
                omega (arith, q, upto),
              ),
              omega (arith, q, all, less, room),
            )
      ]

  -- After the entry that holds the kernel nothing of it is left.
  after-Ascending :
      (img : Image) (es : List E820Entry) (lo : ℕ)
      → img.ekernel_align2m ≤ lo
      → Ordered lo es
      → Ascending img lo es
  after-Ascending img [] lo past h = tt
  after-Ascending img (e ∷ es) lo past (from, in_word, all, rest) = (
    from,
    in_word,
    all,
    λ u. inl (omega (arith, from, past)),
    after-Ascending img es (reach e) (omega (arith, reach_from e in_word all, from, past)) rest,
  )

  module _ (pos : ℕ) (img : Image) (loaded : LoadedAt pos size img) where
    open loaded use {start, ends}

    place_loop-Ascending :
        (es : List E820Entry) (lo : ℕ)
        → Ordered lo es
        → place_loop size es ≡ some pos
        → IsPlace lo size pos × Ascending img lo es
    unfolding place_loop
    place_loop-Ascending [] lo h t = cc
    place_loop-Ascending (e ∷ es) lo (from, in_word, all, rest) t =
        elim (try_entry-Holds e pos in_word (padsize size e) (place_loop size es) refl t) [
          | inl ((at, al, far, upto), within) ↦ (
            (omega (arith, from, at), al, far, upto),
            (
              from,
              in_word,
              all,
              λ u. inr (inr (omega (arith, start, at), omega (arith, ends, within))),
              after-Ascending img es (reach e) (omega (arith, ends, within)) rest,
            ),
          )
          | inr later ↦
              let ((at, al, far, upto), asc) = place_loop-Ascending es (reach e) rest later in
              (
                (omega (arith, reach_from e in_word all, from, at), al, far, upto),
                (from, in_word, all, λ u. inr (inl (omega (arith, start, at, al))), asc),
              )
        ]

    find_kernel_load_pos-Ascending :
        (es : List E820Entry)
        → Ordered 0 es
        → find_kernel_load_pos size es ≡ some pos
        → IsPlace 0 size pos × Ascending img 0 es
    unfolding find_kernel_load_pos
    find_kernel_load_pos-Ascending [] h t = place_loop-Ascending [] 0 h t
    find_kernel_load_pos-Ascending (e ∷ []) h t = elim (Bool-cases (e.size == 0)) [
      | inr u ↦ place_loop-Ascending (e ∷ []) 0 h (rw u at t)
      | inl u ↦
          let q : pos ≡ 0x100_0000 = ground (arith, u, t) in
          let low : e.addr ≡ 0 = ground (arith, u, h.2) in
          let all : reach e ≡ word = ground (arith, u) in
          (
            (omega arith, omega (arith, q), omega (arith, q), omega (arith, q, small)),
            (
              h.0,
              h.1,
              h.2,
              λ v. inr (inr (omega (arith, low), omega (arith, ends, q, all, small))),
              tt,
            ),
          )
    ]
    find_kernel_load_pos-Ascending (e ∷ f ∷ es) h t = place_loop-Ascending (e ∷ f ∷ es) 0 h t

    LoadedAt-IsImage : IsPlace 0 size pos → IsImage img
    LoadedAt-IsImage (from, al, far, upto) = record {
      high = omega (arith, start, far);
      nonempty = omega (arith, start, loaded.nonempty);
      low = omega (arith, loaded.rounded, ends, upto);
      rounded = loaded.rounded;
      near = loaded.near;
      aligned = omega (arith, ends, al, whole);
    }

    -- For a kernel of whole pages and at most 4 GiB - 16 MiB, and a map of at most 1024 entries in
    -- ascending order without overlaps: when the boot loader finds a place for the kernel and puts it
    -- there, the page for the first page tables and the pages that the kernel's iterator gives out
    -- do not overlap, are aligned, lie above 16 MiB in a usable entry, and none of them is a page of the kernel.
    pub find_kernel_load_pos-init_blocks :
        (es : List E820Entry)
        → Ordered 0 es
        → 2 * length es ≤ 2048
        → find_kernel_load_pos size es ≡ some pos
        → (first : ℕ) (bs : List FreeMemoryBlock) → init_blocks img es ≡ some (first, bs)
        → (n : ℕ) (old : FreePagesIterator)
        → FreePages img es 0 (first ∷ drain n (init_free_pages_iterator old bs))
    find_kernel_load_pos-init_blocks es h room t first bs taken =
        let (place, asc) = find_kernel_load_pos-Ascending es h t in
        init_blocks-FreePages img es (LoadedAt-IsImage place) (omega (arith, loaded.null, place))
          asc room first bs taken
