-- ===== src/Bootloader.antt =====
-- bootloader/load_kernel.c: the place for the kernel.
pub mod E820
pub mod Detect
pub mod KernelPlace
pub mod Memory
use myos_io.Base.{
  ℕ, ◌+◌, ◌-◌, ◌%◌, ◌^◌, Bool, true, false, ◌&&◌, Option, none, some, List, [], ◌∷◌, ltb, leb, ◌==◌,
  if◌then◌else◌, add64,
}
use myos_io.Mm.Init.{E820Entry, is_usable}

-- padsize; `none` is bootloader_error. `kernel_size` is KERNEL_SIZE_ALIGN2M.
abbrev pub padsize : ℕ → E820Entry → Option ℕ
padsize kernel_size e =
    if leb e.addr 0x100_0000
    then some (0x100_0000 - e.addr)
    else if leb e.addr (0x1_0000_0000 - kernel_size)
    then some (if e.addr % 0x20_0000 == 0 then 0 else 0x20_0000 - e.addr % 0x20_0000)
    else none

-- One round of the loop; `next` is what the rounds after it give.
abbrev pub try_entry : ℕ → E820Entry → Option ℕ → Option ℕ → Option ℕ
try_entry kernel_size e none next = none
try_entry kernel_size e (some pad) next =
    if ltb pad e.size && leb kernel_size (e.size - pad)
    then some (add64 e.addr pad % 2 ^ 32)
    else next

unfoldable pub place_loop : ℕ → List E820Entry → Option ℕ
place_loop kernel_size [] = none
place_loop kernel_size (e ∷ es) =
    try_entry kernel_size e (padsize kernel_size e) (place_loop kernel_size es)

unfoldable pub find_kernel_load_pos : ℕ → List E820Entry → Option ℕ
unfolding place_loop
find_kernel_load_pos kernel_size (e ∷ []) =
    if e.size == 0
    then if is_usable e then some 0x100_0000 else none
    else place_loop kernel_size (e ∷ [])
find_kernel_load_pos kernel_size es = place_loop kernel_size es
