-- ===== src/Bootloader/E820/Trim.antt =====
-- What trim_e820_entrys makes of a map.
use mathlib.Core.Path.{subst}
use myos_io.Base.{
  ℕ, suc, ◌-◌, ◌<◌, ◌≤◌, ◌≡◌, refl, sym, ap, inl, inr, true, false, Bool-cases, none, List, [], ◌∷◌,
  ◌==◌, add64, word, arith,
}
use myos_io.Base.Int.{ℤ}
use myos_io.Mm.Init.{E820Entry}
use myos_io.Bootloader.E820.{
  Block, phy_addr_max, blocks_cmp, ends_of, set_block, set_blocks, entry_to, scan_entry, scan_zero,
  scan, trim_sorted, trim_e820_entrys,
}
use myos_io.Bootloader.E820.Cover.{covers, kind_at, AllNonempty, set_block-Says}
use myos_io.Bootloader.E820.Ends.{
  AllWords, EndOf, In, IsQsort, SortedBy, SortedBy-Rising, Rising-le, Above, into_sort, from_sort,
}
use myos_io.Bootloader.E820.Order.{Trims, start_or_end}
use myos_io.Bootloader.E820.Runs.{said, at_place, entry_Trims, Trims-down}

-- For a first block at address 0 the two loops are the same: MAX - 0 + 1 is 0.
scan_zero-scan_entry :
    (s b : Block) (ns : List Block) → s.addr ≡ 0 → scan_zero s b ns ≡ scan_entry s b ns
unfolding scan_zero scan_entry add64
scan_zero-scan_entry s b [] e =
    let z : add64 (phy_addr_max - s.addr) 1 ≡ 0 = omega (arith, e) in
    ap (λ x. entry_to s x ∷ []) (sym z)
scan_zero-scan_entry s b (n ∷ ns) e =
    rw (scan_zero-scan_entry s b ns e, scan_zero-scan_entry s n ns e) refl

pub scan-scan_entry : (b : Block) (bs : List Block) → scan b bs ≡ scan_entry b b bs
unfolding scan
scan-scan_entry b bs = elim (Bool-cases (b.addr == 0)) [
  | inl t ↦ rw t (scan_zero-scan_entry b b bs (ground (arith, t)))
  | inr t ↦ rw t refl
]

-- Below the first place there is nothing.
free_below :
    (es : List E820Entry) (p a : ℕ)
    → AllWords es
    → ((q : ℕ) → EndOf es q → q < word → p ≤ q)
    → a < p
    → kind_at es a ≡ none
free_below [] p a ws h lt = refl
free_below (e ∷ es) p a (w, ws) h lt =
    let misses : covers e a ≡ false = ground (arith, h e.addr (inl refl) w, lt) in
    rw misses (free_below es p a ws (λ q m v. h q (inr (inr m)) v) lt)

module _ (old : ℕ → Block) (es : List E820Entry) (ws : AllWords es) (hs : AllNonempty es) where
  no_places : ((a : ℕ) → EndOf es a → a < word → ⊥) → (a : ℕ) → kind_at es a ≡ none
  no_places h a = free_below es (suc a) a ws (λ q m v. absurd (h q m v)) (omega arith)

  trim_sorted-Trims :
      (ps : List ℕ)
      → SortedBy blocks_cmp ps
      → ((a : ℕ) → EndOf es a → a < word → In a ps)
      → ((a : ℕ) → In a ps → EndOf es a × (a < word))
      → Trims es 0 (trim_sorted old es ps)
  unfolding trim_sorted
  trim_sorted-Trims [] h listed ends = record {
    ordered = tt;
    says = λ a from w. sym (no_places listed a);
  }
  trim_sorted-Trims (p ∷ ps) h listed ends =
      let rising = SortedBy-Rising p ps h in
      let first : (q : ℕ) → EndOf es q → q < word → p ≤ q =
        λ q m v. Rising-le p q (p ∷ ps) (omega arith, rising) (listed q m v) in
      let b = record (old 0) { addr = p } in
      let n = set_block es b in
      let (there, tells) = set_block-Says es b hs in
      let in_word = (ends p (inl refl)).1 in
      let found : n.exist ≡ true = elim (Bool-cases n.exist) [
        | inl x ↦ x
        | inr x ↦ absurd (elim (start_or_end es p hs (ends p (inl refl)).0) [
          | inl k ↦ k ((said n (kind_at es p) tells).1 x)
          | inr (q, m, lt, k) ↦ omega (arith, lt, first q m (omega (arith, lt, in_word)))
        ])
      ] in
      let above : Above es p ps = record {
        rising = rising;
        listed = λ a m v past. elim (listed a m v) [
          | inl e ↦ absurd (omega (arith, e, past))
          | inr k ↦ k
        ];
        ends = λ a m. ends a (inr m);
      } in
      let rest =
        entry_Trims old es hs ps 1 p n n there (omega (arith, there)) in_word
          (at_place old es hs n p there found tells) (found, refl, refl) above in
      subst (Trims es 0) (sym (scan-scan_entry n (set_blocks old es 1 p ps))) (
        Trims-down old es hs 0 p (scan_entry n n (set_blocks old es 1 p ps)) (omega arith)
          (λ a from lt. free_below es p a ws first lt)
          (subst (λ x. Trims es x (scan_entry n n (set_blocks old es 1 p ps))) there rest))

  -- For any sort and any contents of the array of blocks: a map whose entries are not empty becomes
  -- one in ascending order without overlaps, which says of each 64-bit address what the entries of the
  -- map say of it that have the address: nothing, their type and extend if these are all the same, and
  -- else that it is reserved (type 2, extend 1).
  pub trim_e820_entrys-Trims :
      (qsort : (ℕ → ℕ → ℤ) → List ℕ → List ℕ)
      → IsQsort qsort
      → Trims es 0 (trim_e820_entrys qsort old es)
  unfolding trim_e820_entrys
  trim_e820_entrys-Trims qsort ok =
      trim_sorted-Trims (qsort blocks_cmp (ends_of es)) (ok.sorted (ends_of es))
        (into_sort qsort ok es ws hs) (from_sort qsort ok es ws hs)
