-- ===== src/Bootloader/Detect.antt =====
-- detect_memory_e820 of bootloader/e820.c: the firmware is asked for one entry of its map after the
-- other.
pub mod Kept
pub mod Lost
pub mod All
use myos_io.Base.{
  ℕ, zero, suc, ◌+◌, ◌%◌, Bool, true, false, not, ◌||◌, List, [], ◌∷◌, leb, ◌==◌, if◌then◌else◌,
  update,
}
use myos_io.Mm.Init.{E820Entry}

-- What intcall(0x15) leaves: bit 0 of oregs.eflags, the other registers that are read, and the
-- entry that iregs.di points at.
pub record Answer : Type 0 where
  pub carry : Bool
  pub eax : ℕ
  pub cl : ℕ
  pub ebx : ℕ
  pub entry : E820Entry

-- `asking`: the answers are used up. `failed` is bootloader_error. `overrun`: the firmware is asked
-- to write behind the array, or to where iregs.di, a uint16_t, has wrapped; what the memory holds
-- from then on is left out.
pub data Detected : Type 0 where
  found : (num : ℕ) (entrys : ℕ → E820Entry) → Detected
  failed : Detected
  asking : Detected
  overrun : Detected

-- After the loop.
abbrev pub finish : ℕ → (ℕ → E820Entry) → Detected
finish num entrys = if num == 0 then failed else found num entrys

-- From skip_entry on; `again` is what the next rounds give.
abbrev pub go_on : ℕ → Answer → ℕ → (ℕ → E820Entry) → Detected → Detected
go_on limit r num entrys again =
    if r.ebx == 0 then finish num entrys else if leb limit num then failed else again

-- Where es:di reaches: iregs.di starts below 16, and 2730 entries of 24 bytes end at 65535.
abbrev pub di_entrys : ℕ
di_entrys = 2730

-- From the first answer on. `num` is e820_entrys_num, and iregs.di points at e820_entrys[slot]; the
-- array has `limit` entries.
unfoldable pub detect_loop : ℕ → List Answer → (ℕ → E820Entry) → ℕ → ℕ → Detected
detect_loop limit [] entrys num slot = asking
detect_loop limit (r ∷ rs) entrys num slot =
    let written = update entrys slot r.entry in
    let e = written num in
    let filled = update written num (record e { extend = 1 }) in
    let skipped = go_on limit r num written (detect_loop limit rs written num (slot + 1)) in
    let kept_20 =
      go_on limit r (num + 1) filled (detect_loop limit rs filled (num + 1) (slot + 1)) in
    let kept_24 =
      go_on limit r (num + 1) written (detect_loop limit rs written (num + 1) (slot + 1)) in
    if leb limit slot || leb di_entrys slot
    then overrun
    else if r.carry
    then finish num written
    else if not (r.eax == 0x534d_4150)
    then failed
    else if r.cl == 20
    then if e.size == 0 then skipped else kept_20
    else if r.cl == 24
    then if e.extend % 2 == 0 || e.size == 0 then skipped else kept_24
    else failed

unfoldable pub detect_memory_e820 : (ℕ → E820Entry) → ℕ → List Answer → Detected
unfolding detect_loop
detect_memory_e820 entrys limit rs = detect_loop limit rs entrys 0 0
