-- ===== src/Bootloader/E820/Length.antt =====
-- How many entries the trimmed map has.
use myos_io.Base.{ℕ, suc, ◌+◌, ◌*◌, ◌≤◌, ◌≡◌, refl, by_test, List, [], ◌∷◌, length, ◌==◌, arith}
use myos_io.Base.Int.{ℤ}
use myos_io.Mm.Init.{E820Entry}
use myos_io.Bootloader.E820.{
  Block, blocks_cmp, ends_of, set_block, set_blocks, scan_gap, scan_entry, trim_sorted,
  trim_e820_entrys,
}
use myos_io.Bootloader.E820.Ends.{IsQsort}
use myos_io.Bootloader.E820.Trim.{scan-scan_entry}

mutual
  unfolding scan_gap scan_entry

  length-scan_gap : (b : Block) (ns : List Block) → length (scan_gap b ns) ≤ length ns
  length-scan_gap b [] = omega arith
  length-scan_gap b (n ∷ ns) =
      by_test (λ xs. length xs ≤ suc (length ns)) (n.addr == b.addr) {x = scan_gap b ns}
        {y = scan_entry n n ns} (λ t. omega (arith, length-scan_gap b ns))
        (λ t. length-scan_entry n n ns)

  length-scan_entry : (s b : Block) (ns : List Block) → length (scan_entry s b ns) ≤ suc (length ns)
  length-scan_entry s b [] = omega arith
  length-scan_entry s b (n ∷ ns) = ground (
    arith,
    length-scan_entry s b ns,
    length-scan_entry s n ns,
    length-scan_entry n n ns,
    length-scan_gap n ns,
  )

length-set_blocks :
    (old : ℕ → Block) (es : List E820Entry) (i last : ℕ) (ps : List ℕ)
    → length (set_blocks old es i last ps) ≡ length ps
unfolding set_blocks
length-set_blocks old es i last [] = refl
length-set_blocks old es i last (p ∷ ps) = omega (arith, length-set_blocks old es (i + 1) p ps)

length-ends_of : (es : List E820Entry) → length (ends_of es) ≤ 2 * length es
unfolding ends_of
length-ends_of [] = omega arith
length-ends_of (e ∷ es) = ground (arith, length-ends_of es)

length-trim_sorted :
    (old : ℕ → Block) (es : List E820Entry) (ps : List ℕ)
    → length (trim_sorted old es ps) ≤ length ps
unfolding trim_sorted
length-trim_sorted old es [] = omega arith
length-trim_sorted old es (p ∷ ps) =
    let n = set_block es (record (old 0) { addr = p }) in
    rw (scan-scan_entry n (set_blocks old es 1 p ps)) (
      omega
        (arith, length-scan_entry n n (set_blocks old es 1 p ps), length-set_blocks old es 1 p ps))

-- The trimmed map has at most twice as many entries.
pub length-trim_e820_entrys :
    (qsort : (ℕ → ℕ → ℤ) → List ℕ → List ℕ) (old : ℕ → Block) (es : List E820Entry)
    → IsQsort qsort
    → length (trim_e820_entrys qsort old es) ≤ 2 * length es
unfolding trim_e820_entrys
length-trim_e820_entrys qsort old es ok = omega (
  arith,
  length-trim_sorted old es (qsort blocks_cmp (ends_of es)),
  ok.same_length (ends_of es),
  length-ends_of es,
)
