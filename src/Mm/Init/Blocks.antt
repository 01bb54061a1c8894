-- ===== src/Mm/Init/Blocks.antt =====
-- Where a block of free memory may lie.
use myos_io.Base.{ℕ, ◌+◌, ◌%◌, ◌<◌, ◌≤◌, ◌≡◌, ◌⊎◌, List, [], ◌∷◌, ◌==◌, if◌then◌else◌, word}
use myos_io.Mm.Init.{E820Entry, FreeMemoryBlock, Image, kernel_align2m}

-- What the linker script and the first test of kernel_init_part2 give.
pub record IsImage (img : Image) : Type 0 where
  pub high : 0x100_0000 ≤ img.kernel
  pub nonempty : img.kernel < img.ekernel
  pub low : img.ekernel ≤ 0x1_0000_0000
  pub rounded : img.ekernel ≤ img.ekernel_align2m
  pub near : img.ekernel_align2m < img.ekernel + 0x20_0000
  pub aligned : img.ekernel_align2m % 0x20_0000 ≡ 0

-- The end of an entry; a size of 0 stands for all of memory.
abbrev pub reach : E820Entry → ℕ
reach e = if e.size == 0 then word else e.addr + e.size

-- An entry has nothing of the kernel's pages, or they end in it and it has the kernel's start.
abbrev pub Placed : Image → E820Entry → Type 0
Placed img e =
    (img.ekernel_align2m ≤ e.addr)
    ⊎ (reach e ≤ kernel_align2m img)
    ⊎ ((e.addr ≤ img.kernel) × (img.ekernel_align2m ≤ reach e))

-- Whole pages between lo and hi, above 16 MiB, and none of the kernel's.
pub record Fit (img : Image) (lo hi : ℕ) (b : FreeMemoryBlock) : Type 0 where
  pub from : lo ≤ b.addr
  pub upto : b.addr + b.size ≤ hi
  pub nonzero : 0 < b.size
  pub addr_aligned : b.addr % 0x20_0000 ≡ 0
  pub size_aligned : b.size % 0x20_0000 ≡ 0
  pub above : 0x100_0000 ≤ b.addr
  pub clear : (b.addr + b.size ≤ kernel_align2m img) ⊎ (img.ekernel_align2m ≤ b.addr)

-- The blocks lie one after the other.
abbrev pub Laid : Image → ℕ → List FreeMemoryBlock → ℕ → Type 0
Laid img lo [] hi = Unit
Laid img lo (b ∷ bs) hi = Fit img lo hi b × Laid img (b.addr + b.size) bs hi
