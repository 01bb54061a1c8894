-- ===== src/Bootloader/Memory.antt =====
-- From the firmware's map, through the boot loader, to the pages that the kernel gives out.
use mathlib.Core.Path.{subst}
use myos_io.Base.{
  ℕ, zero, suc, Bool-cases, ◌+◌, ◌%◌, ◌<◌, ◌≤◌, ◌≡◌, refl, sym, ◌∙◌, inl, inr, true, false, some,
  List, [], ◌∷◌, length, ◌==◌, word, arith,
}
use myos_io.Base.Int.{ℤ}
use myos_io.Mm.State.{page_size}
use myos_io.Mm.Init.{
  E820Entry, FreeMemoryBlock, Image, init_blocks, FreePagesIterator, init_free_pages_iterator,
}
use myos_io.Mm.Init.Blocks.{reach}
use myos_io.Mm.Init.Usable.{reach_from}
use myos_io.Mm.Init.Pages.{drain}
use myos_io.Mm.Init.Free.{OfUsable, FreePages}
use myos_io.Bootloader.{find_kernel_load_pos}
use myos_io.Bootloader.Detect.{Answer, found, detect_memory_e820}
use myos_io.Bootloader.Detect.Kept.{Filled, IsKept, detect_memory_e820-IsKept}
use myos_io.Bootloader.E820.{Block, trim_e820_entrys}
use myos_io.Bootloader.E820.Cover.{covers, kind_at, AllNonempty}
use myos_io.Bootloader.E820.Ends.{AllWords, IsQsort}
use myos_io.Bootloader.E820.Order.{Ordered, kind_at-below, Trims}
use myos_io.Bootloader.E820.Trim.{trim_e820_entrys-Trims}
use myos_io.Bootloader.E820.Length.{length-trim_e820_entrys}
use myos_io.Bootloader.KernelPlace.{LoadedAt, find_kernel_load_pos-init_blocks}

-- e820_entrys[from .. from + num)
abbrev pub entrys_from : ℕ → ℕ → (ℕ → E820Entry) → List E820Entry
entrys_from from zero m = []
entrys_from from (suc num) m = m from ∷ entrys_from (from + 1) num m

-- The map says of each byte of each page that it is usable.
abbrev pub AllUsable : List E820Entry → List ℕ → Type 0
AllUsable es [] = Unit
AllUsable es (p ∷ ps) =
    ((a : ℕ) → p ≤ a → a < p + page_size → kind_at es a ≡ some (1, 1)) × AllUsable es ps

OfUsable-from : (lo p : ℕ) (es : List E820Entry) → Ordered lo es → OfUsable es p → lo ≤ p
OfUsable-from lo p [] h u = elim u [ ]
OfUsable-from lo p (e ∷ es) (from, in_word, whole, h) (inl (u, start, end)) =
    omega (arith, from, start)
OfUsable-from lo p (e ∷ es) (from, in_word, whole, h) (inr u) =
    omega (arith, from, reach_from e in_word whole, OfUsable-from (reach e) p es h u)

OfUsable-kind_at :
    (lo p : ℕ) (es : List E820Entry)
    → Ordered lo es
    → OfUsable es p
    → (a : ℕ) → p ≤ a
    → a < p + page_size
    → (kind_at es a ≡ some (1, 1)) × (a < word)
OfUsable-kind_at lo p [] h u a above below = elim u [ ]
OfUsable-kind_at lo p (e ∷ es) (from, in_word, whole, h) (inl (u, start, end)) a above below =
    let c : covers e a ≡ true = ground (arith, start, end, above, below) in
    let rest = kind_at-below (reach e) a es h (omega (arith, end, below)) in
    let (t, x) : (e.type ≡ 1) × (e.extend ≡ 1) = ground (arith, u) in
    (rw (c, rest, t, x) refl, omega (arith, end, in_word, below))
OfUsable-kind_at lo p (e ∷ es) (from, in_word, whole, h) (inr u) a above below =
    let c : covers e a ≡ false = ground (arith, OfUsable-from (reach e) p es h u, above) in
    let (k, w) = OfUsable-kind_at (reach e) p es h u a above below in (rw c k, w)

FreePages-AllUsable :
    (img : Image) (es out : List E820Entry) (lo : ℕ) (ps : List ℕ)
    → Trims es 0 out
    → FreePages img out lo ps
    → AllUsable es ps
FreePages-AllUsable img es out lo [] trims h = tt
FreePages-AllUsable img es out lo (p ∷ ps) trims (from, page, h) = (
  λ a above below.
      let (k, w) = OfUsable-kind_at 0 p out trims.ordered page.usable a above below in
      sym (trims.says a (omega arith) w) ∙ k,
  FreePages-AllUsable img es out (p + page_size) ps trims h,
)

module _ (qsort : (ℕ → ℕ → ℤ) → List ℕ → List ℕ) (ok : IsQsort qsort) (old : ℕ → Block)
    (es : List E820Entry) (ws : AllWords es) (hs : AllNonempty es) (few : length es ≤ 512)
    (size pos : ℕ) (img : Image) (loaded : LoadedAt pos size img) (whole : size % 0x20_0000 ≡ 0)
    (nonempty : 0 < size) (small : size ≤ 0xff00_0000) where
  trim_e820_entrys-init_blocks :
      find_kernel_load_pos size (trim_e820_entrys qsort old es) ≡ some pos
      → (first : ℕ) (bs : List FreeMemoryBlock)
      → init_blocks img (trim_e820_entrys qsort old es) ≡ some (first, bs)
      → (n : ℕ) (before : FreePagesIterator)
      → FreePages img
          (trim_e820_entrys qsort old es)
          0
          (first ∷ drain n (init_free_pages_iterator before bs))
        × AllUsable es (first ∷ drain n (init_free_pages_iterator before bs))
  trim_e820_entrys-init_blocks place first bs taken n before =
      let trims = trim_e820_entrys-Trims old es ws hs qsort ok in
      let pages =
        find_kernel_load_pos-init_blocks size whole nonempty small pos img loaded
          (trim_e820_entrys qsort old es) trims.ordered
          (omega (arith, few, length-trim_e820_entrys qsort old es ok)) place first bs taken n
          before in
      (
        pages,
        FreePages-AllUsable img es (trim_e820_entrys qsort old es) 0
            (first ∷ drain n (init_free_pages_iterator before bs)) trims pages,
      )

length-entrys_from : (from num : ℕ) (m : ℕ → E820Entry) → length (entrys_from from num m) ≡ num
length-entrys_from from zero m = refl
length-entrys_from from (suc num) m = omega (arith, length-entrys_from (from + 1) num m)

Filled-at : (n : ℕ) (m : ℕ → E820Entry) → Filled n m → (i : ℕ) → i < n → 0 < (m i).size
Filled-at zero m h i lt = elim lt [ ]
Filled-at (suc n) m (h, last) i lt = elim (Bool-cases (i == n)) [
  | inl t ↦ let e : i ≡ n = ground (arith, t) in subst (λ j. 0 < (m j).size) (sym e) last
  | inr t ↦ Filled-at n m h i (ground (arith, t, lt))
]

entrys_from-AllNonempty :
    (from num : ℕ) (m : ℕ → E820Entry)
    → ((i : ℕ) → i < from + num → 0 < (m i).size)
    → AllNonempty (entrys_from from num m)
entrys_from-AllNonempty from zero m h = tt
entrys_from-AllNonempty from (suc num) m h = (
  h from (omega arith),
  entrys_from-AllNonempty (from + 1) num m (λ i lt. h i (omega (arith, lt))),
)

module _ (qsort : (ℕ → ℕ → ℤ) → List ℕ → List ℕ) (ok : IsQsort qsort) (old : ℕ → Block)
    (entrys m : ℕ → E820Entry) (answers : List Answer) (num : ℕ)
    (ws : AllWords (entrys_from 0 num m))
    (detected : detect_memory_e820 entrys 512 answers ≡ found num m) (size pos : ℕ) (img : Image)
    (loaded : LoadedAt pos size img) (whole : size % 0x20_0000 ≡ 0) (nonempty : 0 < size)
    (small : size ≤ 0xff00_0000) where
  -- For a kernel of whole pages and at most 4 GiB - 16 MiB: when the boot loader gets a map from the
  -- firmware, trims it, finds a place for the kernel in it and puts the kernel there, then the page for the
  -- first page tables and the pages that the kernel's iterator gives out do not overlap, are aligned, lie
  -- above 16 MiB, none of them is a page of the kernel, and the entries of the firmware's map that
  -- have a byte of such a page all say that it is usable (type 1, extend 1), and there is one.
  pub detect_memory_e820-init_blocks :
      find_kernel_load_pos size (trim_e820_entrys qsort old (entrys_from 0 num m)) ≡ some pos
      → (first : ℕ) (bs : List FreeMemoryBlock)
      → init_blocks img (trim_e820_entrys qsort old (entrys_from 0 num m)) ≡ some (first, bs)
      → (n : ℕ) (before : FreePagesIterator)
      → FreePages img
          (trim_e820_entrys qsort old (entrys_from 0 num m))
          0
          (first ∷ drain n (init_free_pages_iterator before bs))
        × AllUsable (entrys_from 0 num m) (first ∷ drain n (init_free_pages_iterator before bs))
  detect_memory_e820-init_blocks =
      let is_kept : IsKept 512 (found num m) =
        subst (IsKept 512) detected (detect_memory_e820-IsKept entrys 512 answers (omega arith)) in
      let (some_kept, few, filled) = is_kept in
      trim_e820_entrys-init_blocks qsort ok old (entrys_from 0 num m) ws
        (entrys_from-AllNonempty 0 num m (λ i lt. Filled-at num m filled i (omega (arith, lt))))
        (omega (arith, length-entrys_from 0 num m, few)) size pos img loaded whole nonempty small
