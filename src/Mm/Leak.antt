-- ===== src/Mm/Leak.antt =====
-- mmap_soft of mm/mm.c over pages that are mapped already.
use myos_io.Base.{
  ltb, Option, none, some, ℕ, zero, suc, ◌+◌, ◌*◌, ◌/◌, ◌≤◌, ◌<◌, ◌≡◌, inl, inr, refl, sym, ap, ◌∙◌,
  true, false, List, [], ◌∷◌, arith, ◌==◌, Bool-cases, length, add64, add64_exact, word, drop,
}
use myos_io.Base.Int.{pos}
use myos_io.Mm.State.{page_size, PtRef, Mm, ok, slot_of, entry_of, entry}
use myos_io.Mm.PageTable.{already, is_map, try_map, pt_try_map, pt_is_map}
use myos_io.Mm.Pages.{
  try_page, alloc_loop, at, prot_rwx, map_private_anonymous, is_kernel_range, mmap_generic,
  mmap_soft,
}
use myos_io.Mm.CheckMap.{AllAre, range-lt-word}

-- A page that is mapped already stays as it is under a soft mapping.
try_map-already :
    (s : Mm) (ph_addr v_addr : ℕ)
    → pt_is_map s v_addr ≡ true
    → pt_try_map s ph_addr v_addr true ≡ ok already s
unfolding pt_try_map pt_is_map
try_map-already s ph_addr v_addr h = by_slot (s.kernel_vpt2s (slot_of v_addr)) h
  where
    by_slot :
        (o : Option PtRef)
        → is_map s v_addr o ≡ true
        → try_map s ph_addr v_addr true o ≡ ok already s
    by_slot none h = cc
    by_slot (some r) h =
        let there : (entry s r (entry_of v_addr) == 0) ≡ false = ground arith in rw there

same_map :
    (s : Mm) (l : List ℕ) (v_addr : ℕ)
    → pt_is_map (record s { free_pages = l }) v_addr ≡ pt_is_map s v_addr
unfolding pt_is_map
same_map s l v_addr = by_slot (s.kernel_vpt2s (slot_of v_addr))
  where
    by_slot : (o : Option PtRef) → is_map (record s { free_pages = l }) v_addr o ≡ is_map s v_addr o
    by_slot none = refl
    by_slot (some r) = refl

alloc_loop-already :
    (num addr : ℕ) (pages : List ℕ) (s : Mm)
    → addr + num * page_size < word
    → AllAre s true addr num
    → num ≤ length s.free_pages
    → alloc_loop num addr true pages s ≡ ok true (record s { free_pages = drop num s.free_pages })
unfolding alloc_loop
alloc_loop-already zero addr pages s small all enough = refl
alloc_loop-already (suc num) addr pages s small all enough = by_stack s.free_pages enough (λ l h.
    alloc_loop-already num (add64 addr page_size) pages (record s { free_pages = l })
      (omega (arith, add64_exact addr page_size (omega arith)))
      (λ i lt. same_map s l _ ∙ shifted i ∙ all (suc i) (omega arith)) h)
  where
    shifted :
        (i : ℕ)
        → pt_is_map s (add64 addr page_size + i * page_size)
          ≡ pt_is_map s (addr + suc i * page_size)
    shifted i = ap (pt_is_map s) (omega (arith, add64_exact addr page_size (omega arith)))

    here : pt_is_map s addr ≡ true
    here = ap (pt_is_map s) (omega arith) ∙ all 0 (omega arith)

    by_stack :
        (l : List ℕ)
        → suc num ≤ length l
        → ((l' : List ℕ)
            → num ≤ length l'
            → alloc_loop num (add64 addr page_size) true pages (record s { free_pages = l' })
              ≡ ok true (record s { free_pages = drop num l' }))
        → try_page addr true pages s (alloc_loop num (add64 addr page_size) true) l
          ≡ ok true (record s { free_pages = drop (suc num) l })
    by_stack [] h ih = absurd (omega arith)
    by_stack (page ∷ l) h ih =
        rw (try_map-already (record s { free_pages = l }) page addr (same_map s l addr ∙ here))
          (ih l (omega arith))

-- mmap_soft over pages that are all mapped already, with enough free pages, succeeds and maps
-- nothing, but drops as many pages from the stack of free pages as it was asked for, for good: no
-- other variable changes.
pub mmap_soft-leak :
    (addr len : ℕ) (s : Mm)
    → is_kernel_range addr len ≡ true
    → AllAre s true addr (len / page_size)
    → len / page_size ≤ length s.free_pages
    → mmap_soft addr len prot_rwx map_private_anonymous (pos 0) s
      ≡ ok (at addr) (record s { free_pages = drop (len / page_size) s.free_pages })
unfolding mmap_generic
mmap_soft-leak addr len s fits all enough =
    rw (fits, have)
      (elim (Bool-cases (len / page_size == 0)) [
        | inl none_asked ↦ rw none_asked (
            let zero_pages : len / page_size ≡ 0 = ground arith in
            ap (λ n. ok (at addr) (record s { free_pages = drop n s.free_pages })) (sym zero_pages))
        | inr asked ↦ rw asked (
            rw (
              alloc_loop-already (len / page_size) addr [] s (range-lt-word addr len fits) all
                enough))
      ])
  where
    have : ltb (length s.free_pages) (len / page_size) ≡ false
    have = ground arith
