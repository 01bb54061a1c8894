-- ===== src/Tests.antt =====
-- Runs of the code on concrete inputs, and each theorem with hypotheses at an input that meets them.
mod TtyTests
mod CalcTests
mod SumTests
mod KeyboardTests
mod MmTests
mod ScreenTests
mod E820Tests
mod InitTests
mod SpinlockTests
mod MutexTests
