-- ===== src/Tests/E820Tests.antt =====
-- The firmware's map trimmed: with overlaps, in no order, and one that is all of memory.
use myos_io.Base.{
  ℕ, suc, ◌<◌, ◌≤◌, ◌≡◌, ◌∙◌, refl, inl, inr, Bool, true, false, Bool-cases, some, List, [], ◌∷◌,
  length, if◌then◌else◌, add64, sub64, update, arith,
}
use myos_io.Base.Int.{ℤ, pos, negsuc}
use myos_io.Mm.Init.{
  E820Entry, FreeMemoryBlock, Image, entry_blocks, append_blocks, blocks_loop, memory_blocks,
  take_first, init_blocks, FreePagesIterator, init_free_pages_iterator,
}
use myos_io.Mm.Init.Pages.{drain}
use myos_io.Mm.Init.Free.{FreePages}
use myos_io.Bootloader.{place_loop, find_kernel_load_pos}
use myos_io.Bootloader.E820.{Block, blocks_cmp, trim_e820_entrys}
use myos_io.Bootloader.E820.Cover.{AllNonempty}
use myos_io.Bootloader.E820.Ends.{AllWords, IsQsort, SortedBy, count}
use myos_io.Bootloader.E820.Order.{Trims}
use myos_io.Bootloader.E820.Trim.{trim_e820_entrys-Trims}
use myos_io.Bootloader.KernelPlace.{LoadedAt}
use myos_io.Bootloader.Memory.{AllUsable, detect_memory_e820-init_blocks}
use myos_io.Bootloader.Detect.{Answer, found, detect_loop, detect_memory_e820}
use myos_io.Bootloader.Detect.All.{Holds, detect_loop-all}

is_after : ℤ → Bool
is_after (pos n) = false
is_after (negsuc n) = true

insert_by : (ℕ → ℕ → ℤ) → ℕ → List ℕ → List ℕ
insert_by cmp a [] = a ∷ []
insert_by cmp a (b ∷ bs) =
    let rest = insert_by cmp a bs in if is_after (cmp b a) then b ∷ rest else a ∷ b ∷ bs

-- A sort.
sort_by : (ℕ → ℕ → ℤ) → List ℕ → List ℕ
sort_by cmp [] = []
sort_by cmp (a ∷ bs) = insert_by cmp a (sort_by cmp bs)

insert_by-count : (x a : ℕ) (ps : List ℕ) → count x (insert_by blocks_cmp a ps) ≡ count x (a ∷ ps)
unfolding insert_by
insert_by-count x a [] = refl
insert_by-count x a (b ∷ bs) = ground (arith, insert_by-count x a bs)

length-insert_by : (a : ℕ) (ps : List ℕ) → length (insert_by blocks_cmp a ps) ≡ suc (length ps)
unfolding insert_by
length-insert_by a [] = refl
length-insert_by a (b ∷ bs) = ground (arith, length-insert_by a bs)

insert_behind :
    (p a : ℕ) (ps : List ℕ)
    → p ≤ a
    → SortedBy blocks_cmp (p ∷ ps)
    → SortedBy blocks_cmp (p ∷ insert_by blocks_cmp a ps)
unfolding insert_by is_after
insert_behind p a [] le h = (ground (arith, le), tt)
insert_behind p a (b ∷ bs) le (first, h) = elim (Bool-cases (is_after (blocks_cmp b a))) [
  | inl t ↦ rw t (first, insert_behind b a bs (ground (arith, t)) h)
  | inr t ↦ rw t (ground (arith, le), (ground (arith, t), h))
]

insert_by-SortedBy :
    (a : ℕ) (ps : List ℕ) → SortedBy blocks_cmp ps → SortedBy blocks_cmp (insert_by blocks_cmp a ps)
unfolding insert_by is_after
insert_by-SortedBy a [] h = tt
insert_by-SortedBy a (b ∷ bs) h = elim (Bool-cases (is_after (blocks_cmp b a))) [
  | inl t ↦ rw t (insert_behind b a bs (ground (arith, t)) h)
  | inr t ↦ rw t (ground (arith, t), h)
]

sort_by-SortedBy : (ps : List ℕ) → SortedBy blocks_cmp (sort_by blocks_cmp ps)
unfolding sort_by
sort_by-SortedBy [] = tt
sort_by-SortedBy (a ∷ ps) = insert_by-SortedBy a (sort_by blocks_cmp ps) (sort_by-SortedBy ps)

length-sort_by : (ps : List ℕ) → length (sort_by blocks_cmp ps) ≡ length ps
unfolding sort_by
length-sort_by [] = refl
length-sort_by (a ∷ ps) =
    omega (arith, length-insert_by a (sort_by blocks_cmp ps), length-sort_by ps)

sort_by-count : (ps : List ℕ) (x : ℕ) → count x (sort_by blocks_cmp ps) ≡ count x ps
unfolding sort_by
sort_by-count [] x = refl
sort_by-count (a ∷ ps) x =
    insert_by-count x a (sort_by blocks_cmp ps) ∙ ground (arith, sort_by-count ps x)

sort_by-IsQsort : IsQsort sort_by
sort_by-IsQsort = record {
  sorted = sort_by-SortedBy;
  same_length = length-sort_by;
  same_items = sort_by-count;
}

-- What the memory of the blocks held.
abbrev noise : ℕ → Block
noise i = record { addr = i; type = i; extend = 7; exist = true }

abbrev firmware_map : List E820Entry
firmware_map =
    record { addr = 0x10_0000; size = 0x270_0000; type = 1; extend = 1 }
    ∷ record { addr = 0; size = 0x9_f000; type = 1; extend = 1 }
    ∷ record { addr = 0x9_f000; size = 0x1_0000; type = 1; extend = 1 }
    ∷ record { addr = 0xe_0000; size = 0x3_0000; type = 2; extend = 1 }
    ∷ []

firmware_map-AllWords : AllWords firmware_map
firmware_map-AllWords = omega arith

firmware_map-AllNonempty : AllNonempty firmware_map
firmware_map-AllNonempty = omega arith

trim_run :
    trim_e820_entrys sort_by noise firmware_map
    ≡ record { addr = 0; size = 0xa_f000; type = 1; extend = 1 }
      ∷ record { addr = 0xe_0000; size = 0x3_0000; type = 2; extend = 1 }
      ∷ record { addr = 0x11_0000; size = 0x26f_0000; type = 1; extend = 1 }
      ∷ []
unfolding trim_e820_entrys sort_by insert_by is_after add64 sub64
trim_run = refl

all_of_memory :
    trim_e820_entrys sort_by noise (
      record { addr = 0; size = 0xffff_ffff_ffff_ffff; type = 1; extend = 1 }
      ∷ record { addr = 5; size = 0xffff_ffff_ffff_ffff; type = 1; extend = 1 }
      ∷ [])
    ≡ record { addr = 0; size = 0; type = 1; extend = 1 } ∷ []
unfolding trim_e820_entrys sort_by insert_by is_after add64 sub64
all_of_memory = refl

trim_e820_entrys-Trims_example : Trims firmware_map 0 (trim_e820_entrys sort_by noise firmware_map)
trim_e820_entrys-Trims_example =
    trim_e820_entrys-Trims noise firmware_map firmware_map-AllWords firmware_map-AllNonempty sort_by
      sort_by-IsQsort

-- The kernel where the boot loader puts it.
abbrev kernel_image : Image
kernel_image = record {
  virtual_null = 0x100_0000;
  kernel = 0x100_0000;
  ekernel = 0x134_5678;
  ekernel_align2m = 0x140_0000;
}

kernel_image-LoadedAt : LoadedAt 0x100_0000 0x40_0000 kernel_image
kernel_image-LoadedAt = record {
  start = refl;
  null = refl;
  nonempty = omega arith;
  ends = refl;
  rounded = omega arith;
  near = omega arith;
}

abbrev free_blocks : List FreeMemoryBlock
free_blocks = record { addr = 0x160_0000; size = 0x120_0000 } ∷ []

place_found :
    find_kernel_load_pos 0x40_0000 (trim_e820_entrys sort_by noise firmware_map) ≡ some 0x100_0000
unfolding find_kernel_load_pos place_loop trim_e820_entrys sort_by insert_by is_after add64 sub64
place_found = refl

blocks_found :
    init_blocks kernel_image (trim_e820_entrys sort_by noise firmware_map)
    ≡ some (0x140_0000, free_blocks)
unfolding init_blocks memory_blocks blocks_loop append_blocks entry_blocks take_first
    trim_e820_entrys sort_by insert_by is_after add64 sub64
blocks_found = refl

-- What the iterator held.
abbrev unset_iterator : FreePagesIterator
unset_iterator = record { block = []; addr = 0; addr_max = 0 }

abbrev answer_for : E820Entry → ℕ → Answer
answer_for e ebx = record { carry = false; eax = 0x534d_4150; cl = 24; ebx = ebx; entry = e }

abbrev answers : List Answer
answers =
    answer_for (record { addr = 0x10_0000; size = 0x270_0000; type = 1; extend = 1 }) 1
    ∷ answer_for (record { addr = 0; size = 0x9_f000; type = 1; extend = 1 }) 2
    ∷ answer_for (record { addr = 0x9_f000; size = 0x1_0000; type = 1; extend = 1 }) 3
    ∷ answer_for (record { addr = 0xe_0000; size = 0x3_0000; type = 2; extend = 1 }) 0
    ∷ []

abbrev no_entrys : ℕ → E820Entry
no_entrys i = record { addr = 0; size = 0; type = 0; extend = 0 }

-- The array after the four answers.
abbrev detected_entrys : ℕ → E820Entry
detected_entrys =
    update
      (update
        (update
          (update no_entrys 0
            (record { addr = 0x10_0000; size = 0x270_0000; type = 1; extend = 1 }))
          1 (record { addr = 0; size = 0x9_f000; type = 1; extend = 1 }))
        2 (record { addr = 0x9_f000; size = 0x1_0000; type = 1; extend = 1 }))
      3 (record { addr = 0xe_0000; size = 0x3_0000; type = 2; extend = 1 })

detected_run : detect_memory_e820 no_entrys 512 answers ≡ found 4 detected_entrys
unfolding detect_memory_e820
detected_run = refl

detect_memory_e820-init_blocks_example :
    FreePages kernel_image
      (trim_e820_entrys sort_by noise firmware_map)
      0
      (0x140_0000 ∷ drain 2 (init_free_pages_iterator unset_iterator free_blocks))
    × AllUsable firmware_map
        (0x140_0000 ∷ drain 2 (init_free_pages_iterator unset_iterator free_blocks))
detect_memory_e820-init_blocks_example =
    detect_memory_e820-init_blocks sort_by sort_by-IsQsort noise no_entrys detected_entrys answers 4
      firmware_map-AllWords detected_run 0x40_0000 0x100_0000 kernel_image kernel_image-LoadedAt
      refl (omega arith) (omega arith) place_found 0x140_0000 free_blocks blocks_found 2
      unset_iterator

-- Three answers of 24 bytes, an empty one after the first, and one of 20 bytes at the end.
abbrev answer : ℕ → ℕ → ℕ → Answer
answer cl size ebx = record {
  carry = false;
  eax = 0x534d_4150;
  cl = cl;
  ebx = ebx;
  entry = record { addr = 0x1000; size = size; type = 1; extend = 1 };
}

detect_loop-all_example :
    (m : ℕ → E820Entry) × (detect_loop 512 (answer 24 16 1 ∷ answer 20 32 0 ∷ []) no_entrys 0 0
      ≡ found 2 m)
    × Holds 0 (answer 24 16 1 ∷ answer 20 32 0 ∷ []) m
    × ((i : ℕ) → i < 0 → m i ≡ no_entrys i)
detect_loop-all_example =
    detect_loop-all 512 (answer 24 16 1 ∷ answer 20 32 0 ∷ []) no_entrys 0
      (
        (refl, refl, omega arith, inr (refl, refl)),
        (λ e. ground (arith, e)),
        ((refl, refl, omega arith, inl refl), refl),
      )
      (omega arith) (omega arith)
