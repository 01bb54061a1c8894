-- ===== src/Mm/Remap.antt =====
-- Mapping a page and unmapping it (mm/pt_manage.c), at the address that was mapped.
use mathlib.Core.Path.{subst}
use myos_io.Base.{
  ℕ, ◌+◌, ◌-◌, ◌%◌, ◌≡◌, ◌≢◌, inl, inr, refl, Bool, true, false, ◌||◌, Option, none, some, List, [],
  ◌∷◌, arith, ltb, leb, ◌==◌, if◌then◌else◌, Bool-cases,
}
use myos_io.Mm.State.{
  page_size, PtRef, Mm, Run, ok, aborted, fault, and_then, slot_of, entry_of, with_flags, page_of,
  entry, set_entry,
}
use myos_io.Mm.PageTable.{
  pt_dec_free_entrys_num, pt_inc_free_entrys_num_and_free_pt, take_from, take_id, take_pt, Mapped,
  mapped, already, no_page, map_in_new, grow, add_pt_page, try_map, pt_try_map, clear_slot,
  after_clear, pt_unmap, pt_is_map, get_free_page_generic,
}

-- Every way to return from a run satisfies `P`.
abbrev pub Ensures : {A : Type 0} → (A → Mm → Type 0) → Run A → Type 0
Ensures P (ok a s) = P a s
Ensures P aborted = Unit {0}
Ensures P fault = Unit {0}

pub Ensures-and_then :
    {A B : Type 0} (P : A → Mm → Type 0) (Q : B → Mm → Type 0) (r : Run A) (f : A → Mm → Run B)
    → Ensures P r
    → ((a : A) (s : Mm) → P a s → Ensures Q (f a s))
    → Ensures Q (and_then r f)
Ensures-and_then P Q (ok a s) f h k = k a s h
Ensures-and_then P Q aborted f h k = tt
Ensures-and_then P Q fault f h k = tt

pub Ensures-mono :
    {A : Type 0} (P Q : A → Mm → Type 0) (r : Run A)
    → Ensures P r
    → ((a : A) (s : Mm) → P a s → Q a s)
    → Ensures Q r
Ensures-mono P Q (ok a s) h k = k a s h
Ensures-mono P Q aborted h k = tt
Ensures-mono P Q fault h k = tt

pub Ensures-if :
    {A : Type 0} (P : A → Mm → Type 0) (b : Bool) (x y : Run A)
    → Ensures P x
    → Ensures P y
    → Ensures P (if b then x else y)
Ensures-if P true x y hx hy = hx
Ensures-if P false x y hx hy = hy

-- The address has a table, and its entry there is `e`.
pub record Entry (s : Mm) (v_addr e : ℕ) : Type 0 where
  pub table : PtRef
  pub slot-eq : s.kernel_vpt2s (slot_of v_addr) ≡ some table
  pub entry-eq : entry s table (entry_of v_addr) ≡ e

abbrev WhenMapped : (v_addr e : ℕ) → Mapped → Mm → Type 0
WhenMapped v_addr e mapped s = Entry s v_addr e
WhenMapped v_addr e already s = Unit {0}
WhenMapped v_addr e no_page s = Unit {0}

set_entry-Entry :
    (s : Mm) (r : PtRef) (v_addr e : ℕ)
    → s.kernel_vpt2s (slot_of v_addr) ≡ some r
    → Entry (set_entry s r (entry_of v_addr) e) v_addr e
unfolding set_entry
set_entry-Entry s r v_addr e h = record { table = r; slot-eq = h; entry-eq = ground arith }

take_pt-slot :
    (s : Mm) (slot : ℕ) → Ensures (λ r s'. s'.kernel_vpt2s slot ≡ some r) (take_pt s slot)
unfolding take_pt
take_pt-slot s slot = by_pages s.free_pt_pages
  where
    by_ids :
        (page : ℕ) (pages ids : List ℕ)
        → Ensures (λ r s'. s'.kernel_vpt2s slot ≡ some r) (take_id s slot page pages ids)
    by_ids page pages [] = tt
    by_ids page pages (id ∷ ids) = ground arith

    by_pages :
        (pages : List ℕ) → Ensures (λ r s'. s'.kernel_vpt2s slot ≡ some r) (take_from s slot pages)
    by_pages [] = tt
    by_pages (page ∷ pages) = by_ids page pages (s.pt_page page).free_ids

map_in_new-Entry :
    (s : Mm) (ph_addr v_addr : ℕ)
    → Ensures (WhenMapped v_addr (with_flags ph_addr)) (map_in_new s ph_addr v_addr)
map_in_new-Entry s ph_addr v_addr =
    Ensures-and_then _ (WhenMapped v_addr (with_flags ph_addr)) (take_pt s (slot_of v_addr)) _
      (take_pt-slot s (slot_of v_addr)) λ r s' h. set_entry-Entry s' r v_addr (with_flags ph_addr) h

grow-Entry :
    (s : Mm) (ph_addr v_addr : ℕ) (page : Option (ℕ × Mm))
    → Ensures (WhenMapped v_addr (with_flags ph_addr)) (grow s ph_addr v_addr page)
grow-Entry s ph_addr v_addr none = tt
grow-Entry s ph_addr v_addr (some (page, s')) =
    Ensures-and_then (λ _ _. Unit {0}) (WhenMapped v_addr (with_flags ph_addr))
      (add_pt_page (record s' { pt_pages_sp = s'.pt_pages_sp - page_size }) page
        (s'.pt_pages_sp - page_size))
      _ (any_run _) λ _ s'' _. map_in_new-Entry s'' ph_addr v_addr
  where
    any_run : (r : Run (Unit {0})) → Ensures (λ _ _. Unit {0}) r
    any_run (ok a s) = tt
    any_run aborted = tt
    any_run fault = tt

pt_try_map-Entry :
    (s : Mm) (ph_addr v_addr : ℕ) (is_soft : Bool)
    → Ensures (WhenMapped v_addr (with_flags ph_addr)) (pt_try_map s ph_addr v_addr is_soft)
unfolding pt_try_map
pt_try_map-Entry s ph_addr v_addr is_soft = by_slot (s.kernel_vpt2s (slot_of v_addr)) refl
  where
    by_slot :
        (o : Option PtRef)
        → s.kernel_vpt2s (slot_of v_addr) ≡ o
        → Ensures (WhenMapped v_addr (with_flags ph_addr)) (try_map s ph_addr v_addr is_soft o)
    by_slot none h =
        Ensures-if (WhenMapped v_addr (with_flags ph_addr)) (s.free_pts_num == 1) _ _
          (Ensures-if (WhenMapped v_addr (with_flags ph_addr))
            (leb s.pt_pages_sp s.pt_pages_sp_min
              || ltb (s.pt_pages_sp - s.pt_pages_sp_min) page_size)
            (ok no_page s) _ tt (grow-Entry s ph_addr v_addr (get_free_page_generic s)))
          (map_in_new-Entry s ph_addr v_addr)
    by_slot (some r) h =
        Ensures-if (WhenMapped v_addr (with_flags ph_addr)) (entry s r (entry_of v_addr) == 0) _ _
          (set_entry-Entry (pt_dec_free_entrys_num s r) r v_addr (with_flags ph_addr) h)
          (Ensures-if (WhenMapped v_addr (with_flags ph_addr)) is_soft (ok already s) aborted tt tt)

-- A page-aligned address keeps clear of the flags, which make the entry differ from 0.
page_of-with_flags :
    (ph_addr : ℕ)
    → ph_addr % page_size ≡ 0
    → (page_of (with_flags ph_addr) ≡ ph_addr) × (with_flags ph_addr ≢ 0)
page_of-with_flags ph_addr h =
    let low : ph_addr % 256 ≡ 0 = omega arith in rw low (omega arith, omega arith)

-- What taking an entry away does.
abbrev pub Unmaps : Mm → ℕ → ℕ → Run ℕ → Type 0
Unmaps s v_addr ph o =
    (s' : Mm) × (o ≡ ok ph s')
    × (pt_is_map s' v_addr ≡ false)
    × (s'.free_pages ≡ s.free_pages)
    × (s'.pt_pages_sp ≡ s.pt_pages_sp)

-- What counting a free entry leaves alone: the slots, the entry at hand and the free pages.
pub record Keeps (s s' : Mm) (r : PtRef) (i3 : ℕ) : Type 0 where
  pub slots : s'.kernel_vpt2s ≡ s.kernel_vpt2s
  pub value : entry s' r i3 ≡ entry s r i3
  pub free : s'.free_pages ≡ s.free_pages
  pub sp : s'.pt_pages_sp ≡ s.pt_pages_sp

pub inc-Keeps :
    (s : Mm) (r : PtRef) (i3 : ℕ) → Keeps s (pt_inc_free_entrys_num_and_free_pt s r).1 r i3
unfolding pt_inc_free_entrys_num_and_free_pt
inc-Keeps s r i3 =
    elim (Bool-cases (((s.pt_page r.page).free_entrys_num r.id + 1) % 0x1_0000 == 512)) [
      | inl full ↦ rw full (record { slots = refl; value = ground arith; free = refl; sp = refl })
      | inr used ↦ rw used (record { slots = refl; value = ground arith; free = refl; sp = refl })
    ]

after_clear-Unmaps :
    (s : Mm) (r : PtRef) (v_addr ph : ℕ) (b : Bool) (s' : Mm)
    → Keeps s s' r (entry_of v_addr)
    → s.kernel_vpt2s (slot_of v_addr) ≡ some r
    → entry s r (entry_of v_addr) ≡ 0
    → Unmaps s v_addr ph (after_clear (slot_of v_addr) ph (b, s'))
unfolding pt_is_map
after_clear-Unmaps s r v_addr ph true s' k h e =
    let gone : (slot_of v_addr == slot_of v_addr) ≡ true = ground arith in
    (clear_slot s' (slot_of v_addr), refl, rw gone, k.free, k.sp)
after_clear-Unmaps s r v_addr ph false s' k h e =
    (s', refl, rw (k.slots, h) (ground (arith, k.value)), k.free, k.sp)

-- Clearing the entry of `r`: the slot keeps its table, or loses it.
clear-Unmaps :
    (s : Mm) (r : PtRef) (v_addr ph : ℕ)
    → s.kernel_vpt2s (slot_of v_addr) ≡ some r
    → Unmaps s v_addr ph (
        after_clear
          (slot_of v_addr)
          ph
          (pt_inc_free_entrys_num_and_free_pt (set_entry s r (entry_of v_addr) 0) r))
unfolding set_entry
clear-Unmaps s r v_addr ph h =
    after_clear-Unmaps (set_entry s r (entry_of v_addr) 0) r v_addr ph _ _
      (inc-Keeps (set_entry s r (entry_of v_addr) 0) r (entry_of v_addr)) h (ground arith)

-- With an entry that is not 0, pt_unmap returns the page's address and the address is unmapped.
pub Entry-Unmaps :
    (s : Mm) (v_addr e : ℕ)
    → Entry s v_addr e
    → e ≢ 0
    → Unmaps s v_addr (page_of e) (pt_unmap s v_addr)
unfolding pt_unmap
Entry-Unmaps s v_addr e h ne =
    let nonzero : (entry s h.table (entry_of v_addr) == 0) ≡ false = ground (arith, h.entry-eq) in
    rw (h.slot-eq, nonzero, h.entry-eq) (clear-Unmaps s h.table v_addr (page_of e) h.slot-eq)

Entry-is_map : (s : Mm) (v_addr e : ℕ) → Entry s v_addr e → e ≢ 0 → pt_is_map s v_addr ≡ true
unfolding pt_is_map
Entry-is_map s v_addr e h ne = rw h.slot-eq (ground (arith, h.entry-eq))

-- When pt_try_map maps a page-aligned physical address, the virtual address is mapped, and
-- pt_unmap there returns that physical address and leaves the virtual address unmapped and the
-- stack of free pages as it was.
pub pt_unmap-pt_try_map :
    (s s' : Mm) (ph_addr v_addr : ℕ) (is_soft : Bool)
    → ph_addr % page_size ≡ 0
    → pt_try_map s ph_addr v_addr is_soft ≡ ok mapped s'
    → (pt_is_map s' v_addr ≡ true) × Unmaps s' v_addr ph_addr (pt_unmap s' v_addr)
pt_unmap-pt_try_map s s' ph_addr v_addr is_soft aligned run =
    let flags = page_of-with_flags ph_addr aligned in
    let there : Entry s' v_addr (with_flags ph_addr) =
      subst (Ensures (WhenMapped v_addr (with_flags ph_addr))) run
        (pt_try_map-Entry s ph_addr v_addr is_soft) in
    (
      Entry-is_map s' v_addr (with_flags ph_addr) there flags.1,
      rw flags.0 at (Entry-Unmaps s' v_addr (with_flags ph_addr) there flags.1),
    )
