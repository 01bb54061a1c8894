-- ===== src/Tests/MmTests.antt =====
-- The page tables and the page allocation: mm.
use myos_io.Base.{
  ℕ, zero, suc, ◌≡◌, refl, true, false, none, some, [], ◌∷◌, arith, ◌==◌, if◌then◌else◌, drop,
}
use myos_io.Base.Int.{pos}
use myos_io.Mm.State.{Mm, ok, with_flags, entry_of, set_entry}
use myos_io.Mm.PageTable.{mapped, pt_try_map, pt_unmap, pt_is_map, pt_dec_free_entrys_num}
use myos_io.Mm.Pages.{
  at, mmap, mmap_soft, munmap, check_map, is_kernel_range, prot_rwx, map_private_anonymous,
}
use myos_io.Mm.Remap.{Ensures, Unmaps, pt_unmap-pt_try_map}
use myos_io.Mm.Pages.{MapState}
use myos_io.Mm.CheckMap.{AllAre, Describes, check_map-Describes}
use myos_io.Mm.Leak.{mmap_soft-leak}
use myos_io.Mm.Alloc.{Granted, mmap-conserve, munmap-Returned}
use myos_io.Mm.Unmap.{Returned, addrs_from}

-- 4 TiB, where the kernel's heap begins
abbrev heap : ℕ
heap = 0x400_0000_0000

-- One table for the first GiB of the heap, with every entry `e`.
abbrev one_table : ℕ → Mm
one_table e = record {
  kernel_vpt2s =
      λ slot. if slot == 4096 then some (record { page = 0x3ff_ffe0_0000; id = 0 }) else none;
  kernel_pt2s = λ _. 0;
  pt_page = λ _. record {
    page_tables = λ _ _. e;
    ph_addr = 0x100_0000;
    free_ids = 1 ∷ 2 ∷ [];
    free_entrys_num = λ _. 512;
  };
  free_pt_pages = 0x3ff_ffe0_0000 ∷ [];
  free_pts_num = 2;
  pt_pages_sp = 0x3ff_ffe0_0000;
  pt_pages_sp_min = 0x200_0000;
  free_pages = 0x800_0000 ∷ 0x820_0000 ∷ 0x840_0000 ∷ [];
}

after_map : Mm
after_map =
    set_entry (pt_dec_free_entrys_num (one_table 0) (record { page = 0x3ff_ffe0_0000; id = 0 }))
      (record { page = 0x3ff_ffe0_0000; id = 0 }) (entry_of heap) (with_flags 0x860_0000)

maps_heap : pt_try_map (one_table 0) 0x860_0000 heap false ≡ ok mapped after_map
unfolding pt_try_map after_map
maps_heap = refl

pt_unmap-pt_try_map_example :
    (pt_is_map after_map heap ≡ true) × Unmaps after_map heap 0x860_0000 (pt_unmap after_map heap)
pt_unmap-pt_try_map_example =
    pt_unmap-pt_try_map (one_table 0) after_map 0x860_0000 heap false refl maps_heap

two_pages : is_kernel_range heap 0x40_0000 ≡ true
unfolding is_kernel_range
two_pages = refl

all_there : AllAre (one_table 0x83) true heap 2
unfolding pt_is_map
all_there zero lt = refl
all_there (suc zero) lt = refl
all_there (suc (suc i)) lt = absurd (omega arith)

check_map-Describes_example :
    (m : MapState) × (check_map heap 0x40_0000 (one_table 0x83) ≡ ok m (one_table 0x83))
    × Describes (one_table 0x83) heap 2 m
check_map-Describes_example =
    check_map-Describes heap 0x40_0000 (one_table 0x83) two_pages (omega arith)

mmap_soft-leak_example :
    mmap_soft heap 0x40_0000 prot_rwx map_private_anonymous (pos 0) (one_table 0x83)
    ≡ ok (at heap) (record (one_table 0x83) { free_pages = drop 2 (one_table 0x83).free_pages })
mmap_soft-leak_example =
    mmap_soft-leak heap 0x40_0000 (one_table 0x83) two_pages all_there (omega arith)

mmap-conserve_example :
    Ensures
      (Granted heap 0x40_0000 (one_table 0))
      (mmap heap 0x40_0000 prot_rwx map_private_anonymous (pos 0) (one_table 0))
mmap-conserve_example =
    mmap-conserve heap 0x40_0000 prot_rwx map_private_anonymous (pos 0) (one_table 0)

munmap-Returned_example :
    Ensures
      (λ _ s'. Returned (one_table 0x83) (addrs_from heap 2) (one_table 0x83) s')
      (munmap heap 0x40_0000 (one_table 0x83))
munmap-Returned_example = munmap-Returned heap 0x40_0000 (one_table 0x83)
