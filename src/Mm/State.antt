-- ===== src/Mm/State.antt =====
-- The variables of mm/mm-internal.h and `struct PT_Page`.
pub use myos_io.Base.{update}
use Prim.Native.Nat.{bit_or}
use myos_io.Base.{ℕ, ◌+◌, ◌*◌, ◌/◌, ◌%◌, ◌^◌, Option, List}

-- The size of a page, and of a `struct PT_Page`.
abbrev pub page_size : ℕ
page_size = 0x200000

-- A `struct PT_Page`: 510 tables of 512 entries. `free_ids` is the stack free_ids[0 .. free_num),
-- its top (index free_num - 1) first.
pub record PtPage : Type 0 where
  pub page_tables : ℕ → ℕ → ℕ
  pub ph_addr : ℕ
  pub free_ids : List ℕ
  pub free_entrys_num : ℕ → ℕ

-- A `uint64_t *` to a table: the address of its PT_Page, and its index there. The code goes from
-- the pointer to these two by masking.
pub record PtRef : Type 0 where
  pub page : ℕ
  pub id : ℕ

-- `kernel_vpt2s` and `kernel_pt2s` by i1 * 512 + i2, NULL as `none`; `pt_page` is the memory at the
-- addresses of the PT_Pages; `free_pt_pages` the linked list, head first; `free_pages` the stack
-- free_pages[0 .. free_pages_num), its top first.
pub record Mm : Type 0 where
  pub kernel_vpt2s : ℕ → Option PtRef
  pub kernel_pt2s : ℕ → ℕ
  pub pt_page : ℕ → PtPage
  pub free_pt_pages : List ℕ
  pub free_pts_num : ℕ
  pub pt_pages_sp : ℕ
  pub pt_pages_sp_min : ℕ
  pub free_pages : List ℕ

-- A call returns, calls `abort`, or goes through a null pointer or past an array.
pub data Run (A : Type 0) : Type 0 where
  ok : A → Mm → Run A
  aborted : Run A
  fault : Run A

abbrev pub and_then : {A B : Type 0} → Run A → (A → Mm → Run B) → Run B
and_then (ok a s) f = f a s
and_then aborted f = aborted
and_then fault f = fault

-- (v_addr >> 39) & 0x1ff, (v_addr >> 30) & 0x1ff, (v_addr >> 21) & 0x1ff
abbrev pub slot_of : ℕ → ℕ
slot_of v_addr = v_addr / 2 ^ 39 % 512 * 512 + v_addr / 2 ^ 30 % 512

abbrev pub entry_of : ℕ → ℕ
entry_of v_addr = v_addr / 2 ^ 21 % 512

-- ph_addr | ((1 << 0) | (1 << 1) | (1 << 7)): the flags lie in the lowest byte.
abbrev pub with_flags : ℕ → ℕ
with_flags ph_addr = ph_addr / 256 * 256 + bit_or (ph_addr % 256) 0x83

-- entry & -0x200000
abbrev pub page_of : ℕ → ℕ
page_of entry = entry / page_size * page_size

-- pt3[i3]
abbrev pub entry : Mm → PtRef → ℕ → ℕ
entry s r i3 = (s.pt_page r.page).page_tables r.id i3

-- pt3[i3] = value
unfoldable pub set_entry : Mm → PtRef → ℕ → ℕ → Mm
set_entry s r i3 value =
    let p = s.pt_page r.page in
    record s {
      pt_page = update s.pt_page r.page (record p {
        page_tables = update p.page_tables r.id (update (p.page_tables r.id) i3 value);
      });
    }
