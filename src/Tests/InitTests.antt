-- ===== src/Tests/InitTests.antt =====
-- The free pages of a machine with 64 MiB above 1 MiB and the kernel at 32 MiB.
use myos_io.Base.{◌≡◌, refl, inl, inr, some, List, [], ◌∷◌, arith, sub64, add64}
use myos_io.Mm.Init.{
  E820Entry, FreeMemoryBlock, Image, entry_blocks, append_blocks, blocks_loop, memory_blocks,
  take_first, init_blocks, FreePagesIterator, init_free_pages_iterator,
}
use myos_io.Mm.Init.Blocks.{IsImage}
use myos_io.Mm.Init.Pages.{Whole, drain, drain-init_free_pages_iterator}
use myos_io.Mm.Init.Free.{Ascending}
use myos_io.Mm.Init.Append.{all_blocks}
use myos_io.Mm.Init.FirstPage.{GivenOut, init_blocks-GivenOut}
use myos_io.Bootloader.{place_loop, find_kernel_load_pos}

abbrev image : Image
image = record {
  virtual_null = 0x200_0000;
  kernel = 0x200_0000;
  ekernel = 0x234_5678;
  ekernel_align2m = 0x240_0000;
}

abbrev memory_map : List E820Entry
memory_map =
    record { addr = 0; size = 0x9_f000; type = 1; extend = 1 }
    ∷ record { addr = 0x9_f000; size = 0x6_1000; type = 2; extend = 1 }
    ∷ record { addr = 0x10_0000; size = 0x270_0000; type = 1; extend = 1 }
    ∷ []

abbrev blocks : List FreeMemoryBlock
blocks =
    record { addr = 0x120_0000; size = 0xe0_0000 }
    ∷ record { addr = 0x240_0000; size = 0x40_0000 }
    ∷ []

init_blocks_run : init_blocks image memory_map ≡ some (0x100_0000, blocks)
unfolding init_blocks memory_blocks blocks_loop append_blocks entry_blocks take_first sub64 add64
init_blocks_run = refl

image-IsImage : IsImage image
image-IsImage = record {
  high = omega arith;
  nonempty = omega arith;
  low = omega arith;
  rounded = omega arith;
  near = omega arith;
  aligned = refl;
}

memory_map-Ascending : Ascending image 0 memory_map
memory_map-Ascending = (
  omega arith,
  omega arith,
  λ e. refl,
  λ u. inr (inl (omega arith)),
  (
    omega arith,
    omega arith,
    λ e. ground (arith, e),
    λ u. ground (arith, u),
    (
      omega arith,
      omega arith,
      λ e. ground (arith, e),
      λ u. inr (inr (omega arith, omega arith)),
      tt,
    ),
  ),
)

blocks-Whole : Whole blocks
blocks-Whole = (omega arith, refl, omega arith, (omega arith, refl, omega arith, tt))

-- What the iterator held.
abbrev unset : FreePagesIterator
unset = record { block = []; addr = 0; addr_max = 0 }

drain-init_free_pages_iterator_example :
    drain 3 (init_free_pages_iterator unset blocks) ≡ 0x120_0000 ∷ 0x140_0000 ∷ 0x160_0000 ∷ []
drain-init_free_pages_iterator_example = drain-init_free_pages_iterator 3 unset blocks blocks-Whole

init_blocks-GivenOut_example : GivenOut (all_blocks image memory_map) (init_blocks image memory_map)
init_blocks-GivenOut_example =
    init_blocks-GivenOut image memory_map image-IsImage refl memory_map-Ascending (omega arith)

-- The kernel where the boot loader puts it.
abbrev loaded_image : Image
loaded_image = record {
  virtual_null = 0x100_0000;
  kernel = 0x100_0000;
  ekernel = 0x134_5678;
  ekernel_align2m = 0x140_0000;
}

abbrev other_blocks : List FreeMemoryBlock
other_blocks = record { addr = 0x160_0000; size = 0x120_0000 } ∷ []

loaded_run : init_blocks loaded_image memory_map ≡ some (0x140_0000, other_blocks)
unfolding init_blocks memory_blocks blocks_loop append_blocks entry_blocks take_first sub64 add64
loaded_run = refl

place_run : find_kernel_load_pos 0x40_0000 memory_map ≡ some 0x100_0000
unfolding find_kernel_load_pos place_loop add64
place_run = refl

-- The boot loader does not look at the type of an entry: this one is reserved.
reserved_place :
    find_kernel_load_pos 0x40_0000
      (record { addr = 0x100_0000; size = 0x80_0000; type = 2; extend = 1 } ∷ [])
    ≡ some 0x100_0000
unfolding find_kernel_load_pos place_loop add64
reserved_place = refl

-- An entry that starts at a page loses that page.
aligned_entry :
    entry_blocks image (record { addr = 0x400_0000; size = 0x40_0000; type = 1; extend = 1 })
    ≡ record { addr = 0x420_0000; size = 0x20_0000 } ∷ []
unfolding entry_blocks sub64 add64
aligned_entry = refl
