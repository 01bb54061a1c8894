-- ===== src/Mm/Pages.antt =====
-- mm/mm.c: mmap, mmap_soft, munmap and check_map over the page tables. The lock and unlock of
-- `mmap_mutex` around each routine succeed.
use myos_io.Base.{
  ℕ, zero, suc, ◌-◌, ◌*◌, ◌/◌, ◌%◌, Bool, true, false, not, ◌&&◌, List, [], ◌∷◌, ltb, leb, ◌==◌,
  if◌then◌else◌, length, add64,
}
use myos_io.Base.Int.{ℤ, pos, negsuc}
use myos_io.Mm.State.{page_size, Mm, Run, ok, aborted, and_then}
use myos_io.Mm.PageTable.{Mapped, mapped, already, no_page, pt_try_map, pt_unmap, pt_is_map}

-- free_pages[free_pages_num++] = page
abbrev pub push_free : ℕ → Mm → Mm
push_free page s = record s { free_pages = page ∷ s.free_pages }

-- The rollback at `label_failed`, over the pages mapped so far, the last one first.
unfoldable pub unmap_all : List ℕ → Mm → Run (Unit {0})
unmap_all [] s = ok tt s
unmap_all (page ∷ pages) s = and_then (pt_unmap s page) λ ph s'. unmap_all pages (push_free ph s')

abbrev pub fail_after : List ℕ → Mm → Run Bool
fail_after pages s = and_then (unmap_all pages s) λ _ s'. ok false s'

-- What one round does with the result of pt_try_map; `next` is the rest of the loop.
abbrev pub after_try : ℕ → ℕ → List ℕ → (List ℕ → Mm → Run Bool) → Mapped → Mm → Run Bool
after_try page addr pages next mapped s = next (addr ∷ pages) s
after_try page addr pages next already s = next pages s
after_try page addr pages next no_page s = fail_after pages (push_free page s)

abbrev pub try_page : ℕ → Bool → List ℕ → Mm → (List ℕ → Mm → Run Bool) → List ℕ → Run Bool
try_page addr is_soft pages s next [] = fail_after pages s
try_page addr is_soft pages s next (page ∷ rest) =
    and_then (pt_try_map (record s { free_pages = rest }) page addr is_soft)
      (after_try page addr pages next)

-- The loop over the pages that are left, `pages` being `mapped_pages`; true is the result 0, and
-- false the result -1.
unfoldable pub alloc_loop : ℕ → ℕ → Bool → List ℕ → Mm → Run Bool
alloc_loop zero addr is_soft pages s = ok true s
alloc_loop (suc num) addr is_soft pages s =
    try_page addr is_soft pages s (alloc_loop num (add64 addr page_size) is_soft) s.free_pages

unfoldable pub alloc_page_lock_routine : ℕ → ℕ → Bool → Mm → Run Bool
unfolding alloc_loop unmap_all
alloc_page_lock_routine addr num is_soft s = alloc_loop num addr is_soft [] s

-- Address and length are multiples of the page size and lie in [4 TiB, 32 TiB].
unfoldable pub is_kernel_range : ℕ → ℕ → Bool
is_kernel_range addr length =
    addr % page_size == 0
    && length % page_size == 0
    && leb 0x400_0000_0000 addr
    && leb addr 0x2000_0000_0000
    && leb length (0x2000_0000_0000 - addr)

abbrev pub prot_rwx : ℕ
prot_rwx = 7

abbrev pub map_private_anonymous : ℕ
map_private_anonymous = 0x22

-- What the caller of mmap gets: the address, or (void *)-1.
pub data Addr : Type 0 where
  at : ℕ → Addr
  map_failed : Addr

abbrev pub addr_or_failed : ℕ → Bool → Mm → Run Addr
addr_or_failed addr true s = ok (at addr) s
addr_or_failed addr false s = ok map_failed s

-- mmap with `is_soft` false, mmap_soft with true. (The memset of mmap is on the pages' contents.)
unfoldable pub mmap_generic : Bool → ℕ → ℕ → ℕ → ℕ → ℤ → Mm → Run Addr
unfolding alloc_page_lock_routine is_kernel_range
mmap_generic is_soft addr length prot flags (negsuc _) s = aborted
mmap_generic is_soft addr len prot flags (pos offset) s =
    if prot == prot_rwx && flags == map_private_anonymous && offset == 0 && is_kernel_range addr len
    then if ltb (length s.free_pages) (len / page_size)
      then ok map_failed s
      else if len / page_size == 0
      then ok (at addr) s
      else and_then (alloc_page_lock_routine addr (len / page_size) is_soft s) (addr_or_failed addr)
    else aborted

abbrev pub mmap : ℕ → ℕ → ℕ → ℕ → ℤ → Mm → Run Addr
mmap = mmap_generic false

abbrev pub mmap_soft : ℕ → ℕ → ℕ → ℕ → ℤ → Mm → Run Addr
mmap_soft = mmap_generic true

-- `num` is at least 1: the loop unmaps first and then counts down.
unfoldable pub free_page_lock_routine : ℕ → ℕ → Mm → Run (Unit {0})
free_page_lock_routine v_addr zero s = ok tt s
free_page_lock_routine v_addr (suc num) s =
    and_then (pt_unmap s v_addr)
      λ ph s'. free_page_lock_routine (add64 v_addr page_size) num (push_free ph s')

unfoldable pub munmap : ℕ → ℕ → Mm → Run (Unit {0})
unfolding free_page_lock_routine is_kernel_range
munmap addr len s =
    if is_kernel_range addr len then free_page_lock_routine addr (len / page_size) s else aborted

-- MAP_NO_MAPPED, MAP_ALL_MAPPED, MAP_PART_MAPPED
pub data MapState : Type 0 where
  no_mapped : MapState
  all_mapped : MapState
  part_mapped : MapState

-- The loop of check_map_lock_routine: does every page agree with the first one?
unfoldable pub agree : Bool → ℕ → ℕ → Mm → Bool
agree is_map v_addr zero s = true
agree is_map v_addr (suc num) s =
    let rest = agree is_map (add64 v_addr page_size) num s in
    if pt_is_map s v_addr
    then (if is_map then rest else false)
    else (if is_map then false else rest)

unfoldable pub check_map_lock_routine : ℕ → ℕ → Mm → MapState
unfolding agree
check_map_lock_routine v_addr num s =
    let is_map = pt_is_map s v_addr in
    if agree is_map v_addr num s then (if is_map then all_mapped else no_mapped) else part_mapped

unfoldable pub check_map : ℕ → ℕ → Mm → Run MapState
unfolding check_map_lock_routine is_kernel_range
check_map addr len s =
    if is_kernel_range addr len && not (len / page_size == 0)
    then ok (check_map_lock_routine addr (len / page_size) s) s
    else aborted

unfoldable pub estimate_free_mem : Mm → ℕ
estimate_free_mem s = length s.free_pages * page_size
