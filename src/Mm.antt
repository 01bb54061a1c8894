-- ===== src/Mm.antt =====
-- mm/pt_manage.c and mm/mm.c: the pool of page tables, and the allocation of 2 MiB pages to virtual
-- addresses. Every operation runs under `mmap_mutex`, so each is one function on the state.
pub mod State
pub mod PageTable
pub mod Pages
pub mod CheckMap
pub mod Remap
pub mod Unmap
pub mod Conserve
pub mod Alloc
pub mod Leak
pub mod Init
