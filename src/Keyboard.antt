-- ===== src/Keyboard.antt =====
-- The keyboard, from the interrupt to the characters: the interrupt handler of
-- sched/tty/keyboard_isr_c.c, and the translation of key codes in sched/tty/keyboard_thread_c.c.
pub mod Table
pub mod Key
pub mod Ascii
pub mod ScanCode
pub mod Translate
pub mod Layout
pub mod Isr
