-- ===== src/Mm/Unmap.antt =====
-- What pt_unmap gives back, over several pages (mm/pt_manage.c, mm/mm.c).
use myos_io.Base.{
  ℕ, zero, suc, ◌+◌, ◌%◌, ◌≡◌, ◌≢◌, inl, inr, ◌⊎◌, refl, sym, ap, ap₂, ◌∙◌, Bool, true, false,
  Option, none, some, List, [], ◌∷◌, arith, ◌==◌, if◌then◌else◌, Bool-cases, update, add64, map,
}
use myos_io.Mm.State.{
  page_size, PtPage, PtRef, Mm, Run, aborted, and_then, slot_of, entry_of, page_of, entry,
  set_entry,
}
use myos_io.Mm.PageTable.{pt_inc_free_entrys_num_and_free_pt, after_clear, unmap, pt_unmap}
use myos_io.Mm.Pages.{push_free, unmap_all, free_page_lock_routine}
use myos_io.Mm.Remap.{Ensures, Ensures-and_then, Ensures-mono}

-- The physical page that the page tables hold for an address.
abbrev pub page_in : (ℕ → PtPage) → ℕ → Option PtRef → ℕ
page_in tables v_addr none = 0
page_in tables v_addr (some r) = page_of ((tables r.page).page_tables r.id (entry_of v_addr))

abbrev pub page_at : Mm → ℕ → ℕ
page_at s v_addr = page_in s.pt_page v_addr (s.kernel_vpt2s (slot_of v_addr))

-- A stack after the pages `ps` have been pushed, one after the other.
abbrev pub put_back : List ℕ → List ℕ → List ℕ
put_back [] stack = stack
put_back (p ∷ ps) stack = put_back ps (p ∷ stack)

-- `num` pages from `addr` on.
abbrev pub addrs_from : ℕ → ℕ → List ℕ
addrs_from addr zero = []
addrs_from addr (suc num) = addr ∷ addrs_from (add64 addr page_size) num

-- Of the slots and entries of `s`, those of s' are some.
pub record Below (s s' : Mm) : Type 0 where
  pub slots : (k : ℕ) (r : PtRef) → s'.kernel_vpt2s k ≡ some r → s.kernel_vpt2s k ≡ some r
  pub entrys : (r : PtRef) (i : ℕ) → (entry s' r i ≡ 0) ⊎ (entry s' r i ≡ entry s r i)

pub Below-refl : (s : Mm) → Below s s
Below-refl s = record { slots = λ k r e. e; entrys = λ r i. inr refl }

Below-trans : (s t u : Mm) → Below s t → Below t u → Below s u
Below-trans s t u a b = record {
  slots = λ k r e. a.slots k r (b.slots k r e);
  entrys = λ r i. elim (b.entrys r i) [
    | inl z ↦ inl z
    | inr e ↦ elim (a.entrys r i) [ inl z ↦ inl (e ∙ z) | inr f ↦ inr (e ∙ f) ]
  ];
}

-- What pt_unmap does: it gives back the page, and takes its entry away.
pub record Unmapped (s : Mm) (v_addr ph : ℕ) (s' : Mm) : Type 0 where
  pub table : PtRef
  pub slot-eq : s.kernel_vpt2s (slot_of v_addr) ≡ some table
  pub there : entry s table (entry_of v_addr) ≢ 0
  pub gives : ph ≡ page_of (entry s table (entry_of v_addr))
  pub below : Below s s'
  pub stack : s'.free_pages ≡ s.free_pages
  pub sp : s'.pt_pages_sp ≡ s.pt_pages_sp

-- Counting a free entry leaves slots, entries and free pages alone.
record Counts (s s' : Mm) : Type 0 where
  slots : s'.kernel_vpt2s ≡ s.kernel_vpt2s
  entrys : (r : PtRef) (i : ℕ) → entry s' r i ≡ entry s r i
  stack : s'.free_pages ≡ s.free_pages
  sp : s'.pt_pages_sp ≡ s.pt_pages_sp

inc-Counts : (s : Mm) (r : PtRef) → Counts s (pt_inc_free_entrys_num_and_free_pt s r).1
unfolding pt_inc_free_entrys_num_and_free_pt
inc-Counts s r =
    elim (Bool-cases (((s.pt_page r.page).free_entrys_num r.id + 1) % 0x1_0000 == 512)) [
      | inl full ↦
          rw full (record { slots = refl; entrys = λ t i. ground arith; stack = refl; sp = refl })
      | inr used ↦
          rw used (record { slots = refl; entrys = λ t i. ground arith; stack = refl; sp = refl })
    ]

set_entry-entrys :
    (s : Mm) (r t : PtRef) (k i : ℕ)
    → (entry (set_entry s r k 0) t i ≡ 0) ⊎ (entry (set_entry s r k 0) t i ≡ entry s t i)
unfolding set_entry
set_entry-entrys s r t k i = ground arith

clear_slot-slots :
    (slots : ℕ → Option PtRef) (slot k : ℕ) (r : PtRef)
    → update slots slot none k ≡ some r
    → slots k ≡ some r
clear_slot-slots slots slot k r e = ground (arith, e)

clear-Below : (s : Mm) (r : PtRef) (k : ℕ) → Below s (set_entry s r k 0)
unfolding set_entry
clear-Below s r k = record { slots = λ j t e. e; entrys = λ t i. set_entry-entrys s r t k i }

after_clear-Below :
    (s : Mm) (slot ph : ℕ) (b : Bool) (s' : Mm)
    → Counts s s'
    → Ensures
        (λ p s2.
          (p ≡ ph) × Below s s2 × (s2.free_pages ≡ s.free_pages) × (s2.pt_pages_sp ≡ s.pt_pages_sp))
        (after_clear slot ph (b, s'))
after_clear-Below s slot ph true s' c = (
  refl,
  record {
    slots = λ k r e. ap (λ f. f k) (sym c.slots) ∙ clear_slot-slots s'.kernel_vpt2s slot k r e;
    entrys = λ r i. inr (c.entrys r i);
  },
  c.stack,
  c.sp,
)
after_clear-Below s slot ph false s' c = (
  refl,
  record { slots = λ k r e. ap (λ f. f k) (sym c.slots) ∙ e; entrys = λ r i. inr (c.entrys r i) },
  c.stack,
  c.sp,
)

pub pt_unmap-Unmapped :
    (s : Mm) (v_addr : ℕ) → Ensures (λ ph s'. Unmapped s v_addr ph s') (pt_unmap s v_addr)
unfolding pt_unmap set_entry
pt_unmap-Unmapped s v_addr = by_slot (s.kernel_vpt2s (slot_of v_addr)) refl
  where
    by_slot :
        (o : Option PtRef)
        → s.kernel_vpt2s (slot_of v_addr) ≡ o
        → Ensures (λ ph s'. Unmapped s v_addr ph s') (unmap s v_addr o)
    by_slot none e = tt
    by_slot (some r) e = present (entry s r (entry_of v_addr) == 0) refl
      where
        cleared : Mm
        cleared = set_entry s r (entry_of v_addr) 0

        present :
            (b : Bool)
            → (entry s r (entry_of v_addr) == 0) ≡ b
            → Ensures
                (λ ph s'. Unmapped s v_addr ph s')
                (if b
                  then aborted
                  else after_clear
                      (slot_of v_addr)
                      (page_of (entry s r (entry_of v_addr)))
                      (pt_inc_free_entrys_num_and_free_pt cleared r))
        present true t = tt
        present false t =
            Ensures-mono
              (λ p s2.
                (p ≡ page_of (entry s r (entry_of v_addr)))
                × Below cleared s2
                × (s2.free_pages ≡ s.free_pages)
                × (s2.pt_pages_sp ≡ s.pt_pages_sp))
              (λ ph s'. Unmapped s v_addr ph s') _
              (after_clear-Below cleared (slot_of v_addr) (page_of (entry s r (entry_of v_addr))) _
                _ (inc-Counts cleared r))
              λ ph s2 (p, below, stack, sp). record {
                table = r;
                slot-eq = e;
                there = ground (arith, t);
                gives = p;
                below = Below-trans s cleared s2 (clear-Below s r (entry_of v_addr)) below;
                stack = stack;
                sp = sp;
              }

-- An entry that is still there is the one from before.
Below-page_at :
    (s s1 : Mm) (v_addr ph : ℕ) (s2 : Mm)
    → Below s s1
    → Unmapped s1 v_addr ph s2
    → ph ≡ page_at s v_addr
Below-page_at s s1 v_addr ph s2 b u =
    let slot = b.slots (slot_of v_addr) u.table u.slot-eq in
    rw slot (
      u.gives
      ∙ ap page_of
          (elim (b.entrys u.table (entry_of v_addr)) [ inl z ↦ absurd (u.there z) | inr e ↦ e ]))

-- The pages that the page tables of `s` hold for the addresses are back on the stack, pushed in this
-- order, and the pool of page tables has not moved its end.
pub record Returned (s : Mm) (addrs : List ℕ) (s1 s' : Mm) : Type 0 where
  pub stack : s'.free_pages ≡ put_back (map (page_at s) addrs) s1.free_pages
  pub sp : s'.pt_pages_sp ≡ s1.pt_pages_sp
  pub below : Below s s'

-- One page of either loop: `s` is the state when the loop began.
unmap_one :
    (s s1 : Mm) (v_addr : ℕ) (addrs : List ℕ) (rest : Mm → Run (Unit {0}))
    → Below s s1
    → ((s2 : Mm) → Below s s2 → Ensures (λ _ s'. Returned s addrs s2 s') (rest s2))
    → Ensures
        (λ _ s'. Returned s (v_addr ∷ addrs) s1 s')
        (and_then (pt_unmap s1 v_addr) λ ph s'. rest (push_free ph s'))
unmap_one s s1 v_addr addrs rest b h =
    Ensures-and_then (λ ph s'. Unmapped s1 v_addr ph s') (λ _ s'. Returned s (v_addr ∷ addrs) s1 s')
      (pt_unmap s1 v_addr) _ (pt_unmap-Unmapped s1 v_addr)
      λ ph s2 u.
        let below = Below-trans s s1 s2 b u.below in
        let pushed : Below s (push_free ph s2) = record {
          slots = below.slots;
          entrys = below.entrys;
        } in
        Ensures-mono (λ _ s'. Returned s addrs (push_free ph s2) s')
          (λ _ s'. Returned s (v_addr ∷ addrs) s1 s') _ (h (push_free ph s2) pushed)
          λ _ s3 k. record {
            stack =
                k.stack
                ∙ ap (put_back (map (page_at s) addrs))
                    (ap₂ (λ p l. p ∷ l) (Below-page_at s s1 v_addr ph s2 b u) u.stack);
            sp = k.sp ∙ u.sp;
            below = k.below;
          }

pub unmap_all-Returned :
    (pages : List ℕ) (s s1 : Mm)
    → Below s s1
    → Ensures (λ _ s'. Returned s pages s1 s') (unmap_all pages s1)
unfolding unmap_all
unmap_all-Returned [] s s1 b = record { stack = refl; sp = refl; below = b }
unmap_all-Returned (page ∷ pages) s s1 b =
    unmap_one s s1 page pages (unmap_all pages) b (unmap_all-Returned pages s)

pub free_page_lock_routine-Returned :
    (num addr : ℕ) (s s1 : Mm)
    → Below s s1
    → Ensures (λ _ s'. Returned s (addrs_from addr num) s1 s') (free_page_lock_routine addr num s1)
unfolding free_page_lock_routine
free_page_lock_routine-Returned zero addr s s1 b = record { stack = refl; sp = refl; below = b }
free_page_lock_routine-Returned (suc num) addr s s1 b =
    unmap_one s s1 addr (addrs_from (add64 addr page_size) num)
      (free_page_lock_routine (add64 addr page_size) num) b
      (free_page_lock_routine-Returned num (add64 addr page_size) s)
