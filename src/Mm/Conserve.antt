-- ===== src/Mm/Conserve.antt =====
-- Where the free pages go (mm/mm.c): to the caller, or into the pool of page tables, which grows
-- downwards from pt_pages_sp.
use myos_io.Base.{
  ℕ, ◌+◌, ◌-◌, ◌*◌, ◌≤◌, ◌≡◌, refl, sym, ap, ◌∙◌, ◌++◌, Bool, true, false, ◌||◌, Option, none, some,
  List, [], ◌∷◌, arith, ltb, leb, ◌==◌, if◌then◌else◌, length,
}
use myos_io.Mm.State.{
  page_size, PtRef, Mm, ok, aborted, slot_of, entry_of, page_of, entry, set_entry,
}
use myos_io.Mm.PageTable.{
  take_from, take_id, take_pt, Mapped, mapped, already, no_page, map_always, pt_map_always_success,
  map_in_new, pop_free_page, grow, add_pt_page, try_map, pt_try_map, after_clear, unmap, pt_unmap,
  get_free_page_generic,
}
use myos_io.Mm.Remap.{Ensures, Ensures-and_then, Ensures-if, Ensures-mono, inc-Keeps}

-- The stack of free pages and the end of the pool.
pub record SamePool (s s' : Mm) : Type 0 where
  pub free : s'.free_pages ≡ s.free_pages
  pub sp : s'.pt_pages_sp ≡ s.pt_pages_sp

-- The pages `taken` have left the top of the stack: `pages`, and `tables` more, which have gone into
-- the pool.
pub record Spends (s s' : Mm) (pages : ℕ) : Type 0 where
  pub taken : List ℕ
  pub tables : ℕ
  pub stack : s.free_pages ≡ taken ++ s'.free_pages
  pub count : length taken ≡ tables + pages
  pub sp : s'.pt_pages_sp + tables * page_size ≡ s.pt_pages_sp

take_pt-SamePool : (s : Mm) (slot : ℕ) → Ensures (λ _ s'. SamePool s s') (take_pt s slot)
unfolding take_pt
take_pt-SamePool s slot = by_pages s.free_pt_pages
  where
    by_ids :
        (page : ℕ) (pages ids : List ℕ)
        → Ensures (λ _ s'. SamePool s s') (take_id s slot page pages ids)
    by_ids page pages [] = tt
    by_ids page pages (id ∷ ids) = record { free = refl; sp = refl }

    by_pages : (pages : List ℕ) → Ensures (λ _ s'. SamePool s s') (take_from s slot pages)
    by_pages [] = tt
    by_pages (page ∷ pages) = by_ids page pages (s.pt_page page).free_ids

map_in_new-SamePool :
    (s : Mm) (ph_addr v_addr : ℕ)
    → Ensures (λ m s'. (m ≡ mapped) × SamePool s s') (map_in_new s ph_addr v_addr)
unfolding set_entry
map_in_new-SamePool s ph_addr v_addr =
    Ensures-and_then (λ _ s'. SamePool s s') (λ m s'. (m ≡ mapped) × SamePool s s')
      (take_pt s (slot_of v_addr)) _ (take_pt-SamePool s (slot_of v_addr))
      λ r s' h. (refl, record { free = h.free; sp = h.sp })

pt_map_always_success-SamePool :
    (s : Mm) (ph_addr v_addr : ℕ)
    → Ensures (λ _ s'. SamePool s s') (pt_map_always_success s ph_addr v_addr)
unfolding pt_map_always_success
pt_map_always_success-SamePool s ph_addr v_addr = by_slot (s.kernel_vpt2s (slot_of v_addr))
  where
    by_slot : (o : Option PtRef) → Ensures (λ _ s'. SamePool s s') (map_always s ph_addr v_addr o)
    by_slot none =
        Ensures-and_then (λ _ s'. SamePool s s') (λ _ s'. SamePool s s')
          (take_pt s (slot_of v_addr)) _ (take_pt-SamePool s (slot_of v_addr))
          λ r s' h. record { free = h.free; sp = h.sp }
    by_slot (some r) =
        Ensures-if (λ _ s'. SamePool s s') (entry s r (entry_of v_addr) == 0) _ aborted
          (record { free = refl; sp = refl }) tt

add_pt_page-SamePool :
    (s : Mm) (ph_addr page : ℕ) → Ensures (λ _ s'. SamePool s s') (add_pt_page s ph_addr page)
unfolding add_pt_page
add_pt_page-SamePool s ph_addr page =
    Ensures-and_then (λ _ s'. SamePool s s') (λ _ s'. SamePool s s')
      (pt_map_always_success s ph_addr page) _ (pt_map_always_success-SamePool s ph_addr page)
      λ _ s' h. record { free = h.free; sp = h.sp }

-- What the three results of pt_try_map cost; the pool grows only for a new mapping.
abbrev pub Costs : Mm → Bool → Mapped → Mm → Type 0
Costs s is_soft mapped s' = Spends s s' 0
Costs s is_soft already s' = (is_soft ≡ true) × SamePool s s'
Costs s is_soft no_page s' = s' ≡ s

Costs-mapped :
    (s s' : Mm) (is_soft : Bool) (m : Mapped) → m ≡ mapped → Spends s s' 0 → Costs s is_soft m s'
Costs-mapped s s' is_soft mapped e h = h
Costs-mapped s s' is_soft already e h = cc
Costs-mapped s s' is_soft no_page e h = cc

grow-Costs :
    (s : Mm) (ph_addr v_addr : ℕ) (is_soft : Bool)
    → page_size ≤ s.pt_pages_sp
    → Ensures (Costs s is_soft) (grow s ph_addr v_addr (get_free_page_generic s))
unfolding get_free_page_generic
grow-Costs s ph_addr v_addr is_soft room = by_stack s.free_pages refl
  where
    by_stack :
        (l : List ℕ)
        → s.free_pages ≡ l
        → Ensures (Costs s is_soft) (grow s ph_addr v_addr (pop_free_page s l))
    by_stack [] e = refl
    by_stack (page ∷ l) e =
        let s1 : Mm = record s { free_pages = l; pt_pages_sp = s.pt_pages_sp - page_size } in
        Ensures-and_then (λ _ s'. SamePool s1 s') (Costs s is_soft)
          (add_pt_page s1 page (s.pt_pages_sp - page_size)) _
          (add_pt_page-SamePool s1 page (s.pt_pages_sp - page_size))
          λ _ s2 h.
            Ensures-mono (λ m s'. (m ≡ mapped) × SamePool s2 s') (Costs s is_soft) _
              (map_in_new-SamePool s2 ph_addr v_addr)
              λ m s3 k. Costs-mapped s s3 is_soft m k.0 (record {
                taken = page ∷ [];
                tables = 1;
                stack = e ∙ ap (λ r. page ∷ r) (sym (k.1.free ∙ h.free));
                count = omega arith;
                sp = omega (arith, k.1.sp, h.sp);
              })

pub pt_try_map-Costs :
    (s : Mm) (ph_addr v_addr : ℕ) (is_soft : Bool)
    → Ensures (Costs s is_soft) (pt_try_map s ph_addr v_addr is_soft)
unfolding pt_try_map
pt_try_map-Costs s ph_addr v_addr is_soft = by_slot (s.kernel_vpt2s (slot_of v_addr))
  where
    full : Bool
    full = leb s.pt_pages_sp s.pt_pages_sp_min || ltb (s.pt_pages_sp - s.pt_pages_sp_min) page_size

    no_room :
        (b : Bool)
        → full ≡ b
        → Ensures
            (Costs s is_soft)
            (if b then ok no_page s else grow s ph_addr v_addr (get_free_page_generic s))
    no_room true e = refl
    no_room false e = grow-Costs s ph_addr v_addr is_soft (ground arith)

    by_slot : (o : Option PtRef) → Ensures (Costs s is_soft) (try_map s ph_addr v_addr is_soft o)
    by_slot none = Ensures-if (Costs s is_soft) (s.free_pts_num == 1) _ _ (no_room full refl) (
        Ensures-mono (λ m s'. (m ≡ mapped) × SamePool s s') (Costs s is_soft) _
          (map_in_new-SamePool s ph_addr v_addr)
          λ m s' k. Costs-mapped s s' is_soft m k.0 (record {
            taken = [];
            tables = 0;
            stack = sym k.1.free;
            count = omega arith;
            sp = omega (arith, k.1.sp);
          }))
    by_slot (some r) =
        Ensures-if (Costs s is_soft) (entry s r (entry_of v_addr) == 0) _ _
          (record { taken = []; tables = 0; stack = refl; count = omega arith; sp = omega arith })
          (soft is_soft refl)
      where
        soft :
            (b : Bool)
            → is_soft ≡ b
            → Ensures (Costs s is_soft) (if b then ok already s else aborted)
        soft true e = (e, record { free = refl; sp = refl })
        soft false e = tt

pub pt_unmap-SamePool : (s : Mm) (v_addr : ℕ) → Ensures (λ _ s'. SamePool s s') (pt_unmap s v_addr)
unfolding pt_unmap
pt_unmap-SamePool s v_addr = by_slot (s.kernel_vpt2s (slot_of v_addr))
  where
    cleared :
        (r : PtRef) (b : Bool) (s' : Mm)
        → SamePool s s'
        → Ensures
            (λ _ s2. SamePool s s2)
            (after_clear (slot_of v_addr) (page_of (entry s r (entry_of v_addr))) (b, s'))
    cleared r true s' h = record { free = h.free; sp = h.sp }
    cleared r false s' h = h

    by_slot : (o : Option PtRef) → Ensures (λ _ s'. SamePool s s') (unmap s v_addr o)
    by_slot none = tt
    by_slot (some r) =
        let k = inc-Keeps (set_entry s r (entry_of v_addr) 0) r (entry_of v_addr) in
        Ensures-if (λ _ s'. SamePool s s') (entry s r (entry_of v_addr) == 0) aborted _ tt
          (cleared r _ _ (record { free = k.free; sp = k.sp }))
