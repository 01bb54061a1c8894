-- ===== src/Mm/Init.antt =====
-- The part of kernel_init_part2 in mm/init.c that finds the free pages: the blocks of free memory from
-- the map that the firmware gives, the page for the first page tables, and the iterator over the rest.
pub mod Blocks
pub mod Split
pub mod Entries
pub mod Pages
pub mod Free
pub mod Append
pub mod Usable
pub mod FirstPage
use myos_io.Base.{
  ℕ, zero, suc, ◌+◌, ◌-◌, ◌*◌, ◌/◌, ◌%◌, ◌^◌, Bool, true, false, not, ◌&&◌, ◌||◌, Option, none,
  some, List, [], ◌∷◌, ◌++◌, ltb, leb, ◌==◌, if◌then◌else◌, ◌>>=◌, length, sub64, add64,
}
use myos_io.Mm.State.{page_size}

pub record E820Entry : Type 0 where
  pub addr : ℕ
  pub size : ℕ
  pub type : ℕ
  pub extend : ℕ

-- The list prev / next is a List.
pub record FreeMemoryBlock : Type 0 where
  pub addr : ℕ
  pub size : ℕ

abbrev pub free_memory_blocks_max : ℕ
free_memory_blocks_max = 2048

-- The addresses of __virtual_null, _kernel, _ekernel and _ekernel_align2m, which the linker script
-- (kernel.ld) and the place of the kernel fix.
pub record Image : Type 0 where
  pub virtual_null : ℕ
  pub kernel : ℕ
  pub ekernel : ℕ
  pub ekernel_align2m : ℕ

-- _kernel_align2m
abbrev pub kernel_align2m : Image → ℕ
kernel_align2m img = img.kernel / page_size * page_size

abbrev pub is_usable : E820Entry → Bool
is_usable e = e.type == 1 && e.extend == 1

-- The bytes of an entry before its first page.
abbrev pub pad : E820Entry → ℕ
pad e = if leb e.addr 0x100_0000 then 0x100_0000 - e.addr else 0x20_0000 - e.addr % 0x20_0000

-- An entry around the kernel: the part before the kernel, and the part after it.
abbrev pub before_kernel : Image → ℕ → List FreeMemoryBlock
before_kernel img addr =
    if ltb addr (kernel_align2m img)
    then record { addr = addr; size = kernel_align2m img - addr } ∷ []
    else []

abbrev pub after_kernel : Image → ℕ → ℕ → List FreeMemoryBlock
after_kernel img addr size =
    if sub64 img.ekernel_align2m addr == size
    then []
    else record { addr = img.ekernel_align2m; size = sub64 size (sub64 img.ekernel_align2m addr) }
      ∷ []

-- What one round of the loop appends, from the definition of addr on.
abbrev pub split_blocks : Image → E820Entry → ℕ → ℕ → List FreeMemoryBlock
split_blocks img e addr size =
    if leb e.addr img.kernel && leb (sub64 img.ekernel_align2m addr) size
    then before_kernel img addr ++ after_kernel img addr size
    else record { addr = addr; size = size } ∷ []

-- From the definition of size on.
abbrev pub page_blocks : Image → E820Entry → ℕ → List FreeMemoryBlock
page_blocks img e size = if size == 0 then [] else split_blocks img e (add64 e.addr (pad e)) size

-- What one round of the loop appends.
unfoldable pub entry_blocks : Image → E820Entry → List FreeMemoryBlock
entry_blocks img e =
    if not (is_usable e) || leb e.size (pad e)
    then []
    else page_blocks img e ((e.size - pad e) / page_size * page_size)

-- The blocks of an entry that is all of memory.
abbrev pub below_super : Image → List FreeMemoryBlock
below_super img =
    if kernel_align2m img == 0x100_0000
    then []
    else record { addr = 0x100_0000; size = kernel_align2m img - 0x100_0000 } ∷ []

abbrev pub above_super : Image → List FreeMemoryBlock
above_super img = record { addr = img.ekernel_align2m; size = sub64 0 img.ekernel_align2m } ∷ []

abbrev pub super_blocks : Image → List FreeMemoryBlock
super_blocks img = below_super img ++ above_super img

-- One DL_APPEND after the other, each with its test of memory_blocks_alloced_num, which is the length
-- of the list; `none` is abort.
unfoldable pub append_blocks :
    List FreeMemoryBlock → List FreeMemoryBlock → Option (List FreeMemoryBlock)
append_blocks blocks [] = some blocks
append_blocks blocks (b ∷ bs) =
    let rest = append_blocks (blocks ++ b ∷ []) bs in
    if length blocks == free_memory_blocks_max then none else rest

unfoldable pub blocks_loop :
    Image → List FreeMemoryBlock → List E820Entry → Option (List FreeMemoryBlock)
unfolding append_blocks entry_blocks
blocks_loop img blocks [] = some blocks
blocks_loop img blocks (e ∷ es) = do
  more ← append_blocks blocks (entry_blocks img e)
  blocks_loop img more es

-- From the definition of blocks_buf to the search for the first page.
unfoldable pub memory_blocks : Image → List E820Entry → Option (List FreeMemoryBlock)
unfolding append_blocks blocks_loop
memory_blocks img (e ∷ []) =
    if e.size == 0
    then if is_usable e then append_blocks [] (super_blocks img) else none
    else blocks_loop img [] (e ∷ [])
memory_blocks img es = blocks_loop img [] es

-- The page for the first page tables, and the blocks without it.
unfoldable pub take_first : List FreeMemoryBlock → Option (ℕ × List FreeMemoryBlock)
take_first [] = none
take_first (b ∷ bs) =
    if leb 0x80_0000_0000 b.addr
    then none
    else if b.size == page_size
    then some (b.addr, bs)
    else some (b.addr, record { addr = b.addr + page_size; size = b.size - page_size } ∷ bs)

-- The two tests of the kernel's place, the blocks, and the first page.
unfoldable pub init_blocks : Image → List E820Entry → Option (ℕ × List FreeMemoryBlock)
unfolding memory_blocks take_first
init_blocks img es =
    if (ltb img.kernel 0x100_0000 || ltb 0x1_0000_0000 img.ekernel)
      || not (img.virtual_null % 0x20_0000 == 0)
    then none
    else do blocks ← memory_blocks img es; take_first blocks

-- `block` is the list from it->block on.
pub record FreePagesIterator : Type 0 where
  pub block : List FreeMemoryBlock
  pub addr : ℕ
  pub addr_max : ℕ

-- addr and addr_max of an iterator move to the head of the list, if it has one.
abbrev pub at_head : FreePagesIterator → List FreeMemoryBlock → FreePagesIterator
at_head it [] = record it { block = [] }
at_head it (b ∷ bs) = record { block = b ∷ bs; addr = b.addr; addr_max = add64 b.addr b.size }

-- `old` is what the iterator held.
unfoldable pub init_free_pages_iterator :
    FreePagesIterator → List FreeMemoryBlock → FreePagesIterator
init_free_pages_iterator old head = at_head old head

abbrev pub next_page : FreePagesIterator → List FreeMemoryBlock → Option (ℕ × FreePagesIterator)
next_page it [] = none
next_page it (b ∷ bs) =
    let new_addr = add64 it.addr page_size in
    some (it.addr, if new_addr == it.addr_max then at_head it bs else record it { addr = new_addr })

unfoldable pub get_free_page_in_init : FreePagesIterator → Option (ℕ × FreePagesIterator)
get_free_page_in_init it = next_page it it.block
