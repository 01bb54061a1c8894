-- ===== src/Mm/Init/Free.antt =====
-- What the free pages are: whole pages of usable memory above 16 MiB and outside the kernel.
use mathlib.Core.List.{append_assoc}
use myos_io.Base.{
  ℕ, zero, suc, ◌+◌, ◌*◌, ◌/◌, ◌%◌, ◌≤◌, ◌≡◌, ◌⊎◌, inl, inr, true, List, [], ◌∷◌, ◌++◌, take, word,
  arith,
}
use myos_io.Mm.State.{page_size}
use myos_io.Mm.Init.{E820Entry, FreeMemoryBlock, Image, kernel_align2m, is_usable}
use myos_io.Mm.Init.Blocks.{Placed, reach, Laid}
use myos_io.Mm.Init.Pages.{pages_from, pages_of}

-- A map in ascending order without overlaps, from `lo` on; one entry of size 0 is all of memory.
abbrev pub Ascending : Image → ℕ → List E820Entry → Type 0
Ascending img lo [] = Unit
Ascending img lo (e ∷ es) =
    (lo ≤ e.addr)
    × (reach e ≤ word)
    × (e.size ≡ 0 → e.addr ≡ 0)
    × (is_usable e ≡ true → Placed img e)
    × Ascending img (reach e) es

-- The page at p lies in a usable entry.
abbrev pub OfUsable : List E820Entry → ℕ → Type 0
OfUsable [] p = ⊥
OfUsable (e ∷ es) p =
    ((is_usable e ≡ true) × (e.addr ≤ p) × (p + page_size ≤ reach e)) ⊎ OfUsable es p

pub record FreePage (img : Image) (es : List E820Entry) (p : ℕ) : Type 0 where
  pub aligned : p % 0x20_0000 ≡ 0
  pub above : 0x100_0000 ≤ p
  pub clear : (p + page_size ≤ kernel_align2m img) ⊎ (img.ekernel_align2m ≤ p)
  pub usable : OfUsable es p

-- Free pages from `lo` on, no two of which overlap.
abbrev pub FreePages : Image → List E820Entry → ℕ → List ℕ → Type 0
FreePages img es lo [] = Unit
FreePages img es lo (p ∷ ps) = (lo ≤ p) × FreePage img es p × FreePages img es (p + page_size) ps

module _ (img : Image) where
  pub FreePages-mono :
      (es : List E820Entry) (lo lo' : ℕ) (ps : List ℕ)
      → lo' ≤ lo
      → FreePages img es lo ps
      → FreePages img es lo' ps
  FreePages-mono es lo lo' [] h k = tt
  FreePages-mono es lo lo' (p ∷ ps) h (from, page, rest) = (omega (arith, from), page, rest)

  pub FreePages-cons :
      (e : E820Entry) (es : List E820Entry) (lo : ℕ) (ps : List ℕ)
      → FreePages img es lo ps
      → FreePages img (e ∷ es) lo ps
  FreePages-cons e es lo [] h = tt
  FreePages-cons e es lo (p ∷ ps) (from, page, rest) = (
    from,
    record {
      aligned = page.aligned;
      above = page.above;
      clear = page.clear;
      usable = inr page.usable;
    },
    FreePages-cons e es (p + page_size) ps rest,
  )

  pub FreePages-take :
      (es : List E820Entry) (n lo : ℕ) (ps : List ℕ)
      → FreePages img es lo ps
      → FreePages img es lo (take n ps)
  FreePages-take es zero lo ps h = tt
  FreePages-take es (suc n) lo [] h = tt
  FreePages-take es (suc n) lo (p ∷ ps) (from, page, rest) =
      (from, page, FreePages-take es n (p + page_size) ps rest)

  -- The blocks that lie in a usable entry of `es`.
  module _ (e : E820Entry) (es : List E820Entry) (usable : is_usable e ≡ true) where
    pages_from-FreePages :
        (rest : List ℕ) (n addr lo : ℕ)
        → lo ≤ addr
        → e.addr ≤ addr
        → addr % 0x20_0000 ≡ 0
        → 0x100_0000 ≤ addr
        → addr + n * page_size ≤ reach e
        → (addr + n * page_size ≤ kernel_align2m img) ⊎ (img.ekernel_align2m ≤ addr)
        → FreePages img (e ∷ es) (addr + n * page_size) rest
        → FreePages img (e ∷ es) lo (pages_from addr n ++ rest)
    pages_from-FreePages rest zero addr lo from start al far upto clear after =
        FreePages-mono (e ∷ es) _ _ rest (omega (arith, from)) after
    pages_from-FreePages rest (suc n) addr lo from start al far upto clear after = (
      from,
      record {
        aligned = al;
        above = far;
        clear = ground (arith, clear);
        usable = inl (usable, start, omega (arith, upto));
      },
      pages_from-FreePages rest n (addr + page_size) (addr + page_size) (omega arith)
          (omega (arith, start)) (omega (arith, al)) (omega (arith, far)) (omega (arith, upto))
          (ground (arith, clear))
          (FreePages-mono (e ∷ es) (addr + suc n * page_size) _ rest (omega arith) after),
    )

    pub pages_of-FreePages :
        (rest : List ℕ) (bs : List FreeMemoryBlock) (lo : ℕ)
        → e.addr ≤ lo
        → lo ≤ reach e
        → Laid img lo bs (reach e)
        → FreePages img (e ∷ es) (reach e) rest
        → FreePages img (e ∷ es) lo (pages_of bs ++ rest)
    pages_of-FreePages rest [] lo start within laid after =
        FreePages-mono (e ∷ es) _ _ rest within after
    pages_of-FreePages rest (b ∷ bs) lo start within (fit, laid) after =
        let e : b.size / page_size * page_size ≡ b.size = omega (arith, fit.size_aligned) in
        rw (append_assoc (pages_from b.addr (b.size / page_size)) (pages_of bs) rest) (
          pages_from-FreePages (pages_of bs ++ rest) (b.size / page_size) b.addr lo fit.from
            (omega (arith, start, fit.from)) fit.addr_aligned fit.above (omega (arith, e, fit.upto))
            (ground (arith, e, fit.clear))
            (rw e (
              pages_of-FreePages rest bs (b.addr + b.size) (omega (arith, start, fit.from)) fit.upto
                laid after)))
