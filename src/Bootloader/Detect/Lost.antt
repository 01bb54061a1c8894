-- ===== src/Bootloader/Detect/Lost.antt =====
-- What happens to the entries after one that is skipped: iregs.di moves on and e820_entrys_num does
-- not, so the skipped entry is looked at again and again.
use myos_io.Base.{ℕ, ◌<◌, ◌≡◌}
use myos_io.Mm.Init.{E820Entry}
use myos_io.Bootloader.Detect.{Detected, found, failed, asking, overrun}

-- What is found is the first `num` entries of `before`.
abbrev pub Loses : ℕ → (ℕ → E820Entry) → Detected → Type 0
Loses num before (found k entrys) = (k ≡ num) × ((i : ℕ) → i < num → entrys i ≡ before i)
Loses num before failed = Unit
Loses num before asking = Unit
Loses num before overrun = Unit
