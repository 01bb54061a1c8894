-- ===== src/Bootloader/E820.antt =====
-- trim_e820_entrys of bootloader/e820.c: from the map of the firmware, whose entries may overlap and
-- come in any order, to one in ascending order.
pub mod Cover
pub mod Ends
pub mod Order
pub mod Scan
pub mod Runs
pub mod Trim
pub mod Length
use myos_io.Base.{
  ℕ, ◌+◌, ◌-◌, Bool, true, false, not, ◌&&◌, ◌||◌, List, [], ◌∷◌, ltb, leb, ◌==◌, if◌then◌else◌,
  sub64, add64,
}
use myos_io.Base.Int.{ℤ, pos, negsuc}
use myos_io.Mm.Init.{E820Entry}

abbrev pub phy_addr_max : ℕ
phy_addr_max = 0xffff_ffff_ffff_ffff

pub record Block : Type 0 where
  pub addr : ℕ
  pub type : ℕ
  pub extend : ℕ
  pub exist : Bool

-- On the addresses of two blocks.
abbrev pub blocks_cmp : ℕ → ℕ → ℤ
blocks_cmp a b = if ltb b a then pos 1 else if ltb a b then negsuc 0 else pos 0

-- The addr of the blocks before the sort: where an entry starts, and where it ends.
unfoldable pub ends_of : List E820Entry → List ℕ
ends_of [] = []
ends_of (e ∷ es) =
    if ltb phy_addr_max e.addr
    then ends_of es
    else if ltb (phy_addr_max - e.addr) e.size
    then e.addr ∷ ends_of es
    else e.addr ∷ add64 e.addr e.size ∷ ends_of es

abbrev pub contains : E820Entry → ℕ → Bool
contains e a = leb e.addr a && ltb (a - e.addr) e.size

-- The loop from label_find1 on: does a later entry with the address differ?
unfoldable pub overlaps : ℕ → E820Entry → List E820Entry → Bool
overlaps a f [] = false
overlaps a f (e ∷ es) =
    if contains e a && (not (f.type == e.type) || not (f.extend == e.extend))
    then true
    else overlaps a f es

-- One block from label_in on. `b` is the block with its addr; type and extend of a block that does
-- not exist stay what the memory held.
unfoldable pub set_block : List E820Entry → Block → Block
unfolding overlaps
set_block [] b = record b { exist = false }
set_block (e ∷ es) b =
    if contains e b.addr
    then if overlaps b.addr e es
      then record b { exist = true; type = 2; extend = 1 }
      else record b { exist = true; type = e.type; extend = e.extend }
    else set_block es b

-- The loop over the sorted blocks after the block at `last`, from index i on: a block at the address
-- of the one before is left alone. `old` is what the memory of `blocks` held.
unfoldable pub set_blocks : (ℕ → Block) → List E820Entry → ℕ → ℕ → List ℕ → List Block
unfolding set_block
set_blocks old es i last [] = []
set_blocks old es i last (a ∷ ps) =
    let b = record (old i) { addr = a } in
    (if a == last then b else set_block es b) ∷ set_blocks old es (i + 1) a ps

abbrev pub same : Block → Block → Bool
same n b = ((if n.exist then b.exist else not b.exist) && n.type == b.type) && n.extend == b.extend

abbrev pub entry_to : Block → ℕ → E820Entry
entry_to s size = record { addr = s.addr; size = size; type = s.type; extend = s.extend }

-- The loop over i and next_i. `some s`: at label_in2 with the entry for `s` begun; `none`: the block
-- at i does not exist. `b` is the block at i, the list what follows from next_i on.
unfoldable mutual
  pub scan_gap : Block → List Block → List E820Entry
  scan_gap b [] = []
  scan_gap b (n ∷ ns) =
      let skip = scan_gap b ns in
      let found = scan_entry n n ns in if n.addr == b.addr then skip else found

  pub scan_entry : Block → Block → List Block → List E820Entry
  scan_entry s b [] = entry_to s (add64 (phy_addr_max - s.addr) 1) ∷ []
  scan_entry s b (n ∷ ns) =
      let skip = scan_entry s b ns in
      let longer = scan_entry s n ns in
      let next_entry = scan_entry n n ns in
      let next_gap = scan_gap n ns in
      if n.addr == b.addr
      then skip
      else if same n b
      then longer
      else entry_to s (sub64 n.addr s.addr) ∷ (if n.exist then next_entry else next_gap)

-- The loop for a first block at address 0, which looks for a map that is one entry of all of memory;
-- its size is 0 then.
unfoldable pub scan_zero : Block → Block → List Block → List E820Entry
unfolding scan_gap scan_entry
scan_zero s b [] = entry_to s 0 ∷ []
scan_zero s b (n ∷ ns) =
    let skip = scan_zero s b ns in
    let longer = scan_zero s n ns in
    let next_entry = scan_entry n n ns in
    let next_gap = scan_gap n ns in
    if n.addr == b.addr
    then skip
    else if same n b
    then longer
    else entry_to s (sub64 n.addr s.addr) ∷ (if n.exist then next_entry else next_gap)

unfoldable pub scan : Block → List Block → List E820Entry
unfolding scan_zero scan_entry
scan b bs = if b.addr == 0 then scan_zero b b bs else scan_entry b b bs

-- From the sorted blocks on.
unfoldable pub trim_sorted : (ℕ → Block) → List E820Entry → List ℕ → List E820Entry
unfolding scan set_block set_blocks
trim_sorted old es [] = []
trim_sorted old es (p ∷ ps) =
    scan (set_block es (record (old 0) { addr = p })) (set_blocks old es 1 p ps)

-- `qsort` is the C library's.
unfoldable pub trim_e820_entrys :
    ((ℕ → ℕ → ℤ) → List ℕ → List ℕ) → (ℕ → Block) → List E820Entry → List E820Entry
unfolding trim_sorted ends_of
trim_e820_entrys qsort old es = trim_sorted old es (qsort blocks_cmp (ends_of es))
