-- ===== src/Lib.antt =====
-- The kernel of myos_io.
--
-- Characters flow from the keyboard interrupt to the programs that read a terminal:
-- the handler (sched/tty/keyboard_isr_c.c) turns bytes of port 0x60 into key codes and stores them
-- in a ring; keyboard_thread (sched/tty/keyboard_thread_c.c) takes them out, turns them into
-- characters and erasures, and puts these into the input buffer of a terminal; tty_read and
-- tty_readv (sched/tty/tty_read.c, sched/tty/tty_readv.c) take them from there.
--
-- Keyboard.Key, Keyboard.Ascii, Keyboard.ScanCode: the key numbers of sched/tty/tty-internal.h and
-- the tables of keyboard_thread_c.c and keyboard_isr_c.c, entry by entry. Keyboard.Isr: `decode` is
-- the part of keyboard_isr_wrap from the first inb to the test of key_code, with the port as a
-- function from the number of the read to the byte; `write_slot`, `next_ii` and `next_oi` are the
-- indices of the ring of key codes. Keyboard.Translate: `translate` is the loop over key_codes in
-- keyboard_thread. Tty: `tty_read`, `tty_readv`, and `receive`, which is keyboard_thread from
-- mtx_lock to mtx_unlock. Tty.Ring says what queue the buffer stands for, Tty.Read, Tty.Save and
-- Tty.Receive hold the proofs.
--
-- Screen: the text screen of sched/tty/tty_write.c; `put_char` is __putcharx, and `tty_write`,
-- `tty_writev` and `kernel_init_part0` keep their names. Screen.Cursor holds the proofs.
-- Mm: virtual memory of the kernel in pages of 2 MiB, mm/mm.c and mm/pt_manage.c. Mm.State has the
-- variables of mm/mm-internal.h; Mm.PageTable maps and unmaps one page (`pt_try_map`, `pt_unmap`);
-- Mm.Pages has mmap, mmap_soft (both `mmap_generic`), munmap and check_map. Mm.Remap, Mm.Unmap,
-- Mm.Conserve, Mm.Alloc, Mm.Leak and Mm.CheckMap hold the proofs.
--
-- Mm.Init: kernel_init_part2 of mm/init.c up to the page for the first page tables (`init_blocks`;
-- the calls of DL_APPEND with their tests of the array's size are `append_blocks`), and the
-- iterator over the other pages. Mm.Init.Blocks, Split and Entries say where the blocks of an entry
-- lie, Append that the array is large enough, Pages what the iterator gives, Free and Usable that
-- these are free pages, and FirstPage puts the parts together. Addresses and sizes are 64-bit
-- words, with `add64` and `sub64` where they can wrap.
--
-- Bootloader: the map of memory before the kernel starts. Bootloader.Detect is detect_memory_e820
-- of bootloader/e820.c, with what the firmware answers as a list; a run ends in `overrun` where the
-- firmware is asked to write behind the array of `limit` entries, or past the 2730 entries that the
-- uint16_t iregs.di reaches. Bootloader.E820 is
-- trim_e820_entrys, with qsort and what the memory of `blocks` held as parameters: `ends_of`
-- collects the blocks, `set_block` gives one its type, `scan_entry`, `scan_gap` and `scan_zero` are
-- the loops that write the entries. Bootloader has find_kernel_load_pos of
-- bootloader/load_kernel.c. In E820 the modules Cover, Ends, Order, Scan, Runs, Trim and Length
-- hold the proofs; KernelPlace and Memory join the boot loader to Mm.Init.
--
-- Calc: the calculator (main.c). Calc has `cheng`, the multiplication, with its loops: the array is
-- a list, lowest digit first; a loop that would leave it, or a digit that would overflow int64_t,
-- is a failure of the call. Calc.Digits says what number a list stands for; Calc.Carry, Calc.Batch,
-- Calc.Rows and Calc.Multiply hold the proofs. Calc.Compare is numcmp and Num_compare_jueduizhi,
-- with the sum of float_segment and len as the uint64_t that it is. In cheng float_offset is a
-- uint8_t, and float_segment an int64_t whose sums wrap around, as two's complement does (`wrap64`);
-- in the other routines the source bounds float_segment first, in 128 bits. calloc is a parameter.
-- Calc.Sum has jia, jian and calc_baoliu; in jian a digit can be below 0 on the way, one that
-- leaves int64_t is a failure (`checked_ℤ`), and so is a result with a digit below 0.
-- Calc.Sum.Places, Arrays and Borrow carry the proofs of Calc.Sum.Add and Subtract; Calc.Sum.Signed
-- puts them together by the signs. Calc.Input is check, the test whether a line is a number.
-- Division (a parameter of calc_baoliu), the rest of the input and printing are not modelled.
--
-- Mutex: sched/mutex/mtx_init.c, mtx_lock_c.c, mtx_trylock_c.c and mtx_unlock_c.c. Mutex.Defs has
-- struct Mutex with the nodes of the threads (Thread.temp0), the stages between the accesses to
-- shared memory, and the accesses of each function (TryAccess, FastAccess and SlowAccess for the
-- two parts of mtx_lock, UnlockAccess); any threads take turns, in one order for all of them. A
-- thread is a number, and the pointer to a node is the number of its thread. Of the scheduler only
-- this is modelled: a thread that is asleep goes on once it has been made schedulable. The saving
-- of the context, the interrupt flag and the count threads_num of a process are left out.
-- Mutex.Line is the line of the threads, which no variable holds; Mutex.Sound puts together that
-- each access keeps it, and Mutex.Safety and Mutex.Progress have what follows.
--
-- Spinlock: the queue lock of include/spinlock.h as sched/mutex/spinlock_do_c.c uses it.
-- Spinlock.Defs has a call step by step: `Pc` is where it stands, `Move` one access to shared
-- memory, `Step` a move of any of the calls. All processors see the accesses in one order: the
-- weaker orders that the source asks for are not modelled. A member belongs to one call.
-- Spinlock.Queue says which queue the members form; Spinlock.Moves, Safety and Schedule hold the
-- proofs.
--
-- In Mm the arrays free_ids[0 .. free_num) and free_pages[0 .. free_pages_num) are stacks and are
-- lists, top first; an index (i1, i2) into the two upper tables is i1 * 512 + i2. `abort` and a
-- null pointer are results of a call (`aborted`, `fault`). The hook that pt_try_map is passed is
-- the only one the file passes, get_free_page_generic. The contents of mapped pages are left out.
-- The routines run under mmap_mutex, so each is one step.
--
-- `size_t` arithmetic that could wrap is written out with `sub64`. The buffers are functions from
-- an index to a byte. The readers and `receive` run under the terminal's lock, so each is one step;
-- a reader that finds nothing visible ends in `wait`, which is cnd_wait: it runs again when woken.
-- The loops recur on the list of buffers or characters, or on the number of pages, so none needs
-- fuel.
--
-- Not modelled: the contexts that the scheduler switches (inline assembly), the wake-up of the
-- keyboard thread, the atomic list and the condition variables, the C library (copies of musl and
-- mimalloc) and the hardware set-up.
pub mod Base
pub mod Bootloader
pub mod Calc
pub mod Keyboard
pub mod Mm
pub mod Mutex
pub mod Screen
pub mod Spinlock
mod Tests
pub mod Tty
