-- ===== src/Mm/PageTable.antt =====
-- mm/pt_manage.c: mapping one page, with the page tables taken from a pool that grows.
use myos_io.Base.{
  ℕ, zero, suc, ◌+◌, ◌-◌, ◌*◌, ◌%◌, Bool, true, false, not, ◌||◌, Option, none, some, List, [], ◌∷◌,
  ◌++◌, ltb, leb, ◌==◌, if◌then◌else◌, length, sub64,
}
use myos_io.Mm.State.{
  page_size, PtPage, PtRef, Mm, Run, ok, aborted, fault, and_then, update, slot_of, entry_of,
  with_flags, page_of, entry, set_entry,
}

-- free_ids after the loop, top first: 0, 1, …, 509
abbrev pub count_up : ℕ → ℕ → List ℕ
count_up zero i = []
count_up (suc n) i = i ∷ count_up n (i + 1)

-- `old` is what the memory held; the loop leaves free_entrys_num alone.
unfoldable pub init_pt_page : PtPage → ℕ → PtPage
init_pt_page old ph_addr = record {
  page_tables = λ _ _. 0;
  ph_addr = ph_addr;
  free_ids = count_up 510 0;
  free_entrys_num = old.free_entrys_num;
}

-- `--pt_page->free_entrys_num[id]`, a uint16_t
unfoldable pub pt_dec_free_entrys_num : Mm → PtRef → Mm
pt_dec_free_entrys_num s r =
    let p = s.pt_page r.page in
    record s {
      pt_page = update s.pt_page r.page (record p {
        free_entrys_num =
            update p.free_entrys_num r.id ((p.free_entrys_num r.id + 0xffff) % 0x1_0000);
      });
    }

-- Whether the table became empty, and was given back to its PT_Page.
unfoldable pub pt_inc_free_entrys_num_and_free_pt : Mm → PtRef → Bool × Mm
pt_inc_free_entrys_num_and_free_pt s r =
    let p = s.pt_page r.page in
    let count = (p.free_entrys_num r.id + 1) % 0x1_0000 in
    let counted = record p { free_entrys_num = update p.free_entrys_num r.id count } in
    if count == 512
    then (
      true,
      record s {
        pt_page = update s.pt_page r.page (record counted { free_ids = r.id ∷ p.free_ids });
        free_pt_pages =
            if length (r.id ∷ p.free_ids) == 1 then r.page ∷ s.free_pt_pages else s.free_pt_pages;
        free_pts_num = s.free_pts_num + 1;
      },
    )
    else (false, record s { pt_page = update s.pt_page r.page counted })

-- From `const uint16_t id = …` to `--free_pts_num`: a table of the first PT_Page with a free one
-- goes into the slot. The list without its head stands for DL_DELETE.
abbrev pub take_id : Mm → ℕ → ℕ → List ℕ → List ℕ → Run PtRef
take_id s slot page pages [] = fault
take_id s slot page pages (id ∷ ids) =
    let p = s.pt_page page in
    ok (record { page = page; id = id })
      (record s {
        pt_page =
            update s.pt_page page
              (record p { free_ids = ids; free_entrys_num = update p.free_entrys_num id 511 });
        kernel_vpt2s = update s.kernel_vpt2s slot (some (record { page = page; id = id }));
        kernel_pt2s = update s.kernel_pt2s slot (id * 0x1000 + p.ph_addr + 3);
        free_pt_pages = if length ids == 0 then pages else page ∷ pages;
        free_pts_num = sub64 s.free_pts_num 1;
      })

abbrev pub take_from : Mm → ℕ → List ℕ → Run PtRef
take_from s slot [] = fault
take_from s slot (page ∷ pages) = take_id s slot page pages (s.pt_page page).free_ids

unfoldable pub take_pt : Mm → ℕ → Run PtRef
take_pt s slot = take_from s slot s.free_pt_pages

abbrev pub map_always : Mm → ℕ → ℕ → Option PtRef → Run (Unit {0})
map_always s ph_addr v_addr none =
    and_then (take_pt s (slot_of v_addr))
      λ r s'. ok tt (set_entry s' r (entry_of v_addr) (with_flags ph_addr))
map_always s ph_addr v_addr (some r) =
    if entry s r (entry_of v_addr) == 0
    then ok tt (set_entry (pt_dec_free_entrys_num s r) r (entry_of v_addr) (with_flags ph_addr))
    else aborted

unfoldable pub pt_map_always_success : Mm → ℕ → ℕ → Run (Unit {0})
unfolding take_pt set_entry pt_dec_free_entrys_num
pt_map_always_success s ph_addr v_addr =
    map_always s ph_addr v_addr (s.kernel_vpt2s (slot_of v_addr))

unfoldable pub add_pt_page : Mm → ℕ → ℕ → Run (Unit {0})
unfolding pt_map_always_success init_pt_page
add_pt_page s ph_addr page = and_then (pt_map_always_success s ph_addr page) λ _ s'.
    ok tt (record s' {
      pt_page = update s'.pt_page page (init_pt_page (s'.pt_page page) ph_addr);
      free_pt_pages = s'.free_pt_pages ++ page ∷ [];
      free_pts_num = s'.free_pts_num + 510;
    })

-- The results 0, 1 and -1 of pt_try_map.
pub data Mapped : Type 0 where
  mapped : Mapped
  already : Mapped
  no_page : Mapped

-- `get_free_page_generic` of mm.c, the hook that the allocation passes.
abbrev pub pop_free_page : Mm → List ℕ → Option (ℕ × Mm)
pop_free_page s [] = none
pop_free_page s (page ∷ pages) = some (page, record s { free_pages = pages })

unfoldable pub get_free_page_generic : Mm → Option (ℕ × Mm)
get_free_page_generic s = pop_free_page s s.free_pages

-- Take a table for the slot and write the entry.
abbrev pub map_in_new : Mm → ℕ → ℕ → Run Mapped
map_in_new s ph_addr v_addr =
    and_then (take_pt s (slot_of v_addr))
      λ r s'. ok mapped (set_entry s' r (entry_of v_addr) (with_flags ph_addr))

abbrev pub grow : Mm → ℕ → ℕ → Option (ℕ × Mm) → Run Mapped
grow s ph_addr v_addr none = ok no_page s
grow s ph_addr v_addr (some (page, s')) =
    let sp = s'.pt_pages_sp - page_size in
    and_then (add_pt_page (record s' { pt_pages_sp = sp }) page sp)
      λ _ s''. map_in_new s'' ph_addr v_addr

abbrev pub try_map : Mm → ℕ → ℕ → Bool → Option PtRef → Run Mapped
try_map s ph_addr v_addr is_soft (some r) =
    if entry s r (entry_of v_addr) == 0
    then ok mapped (set_entry (pt_dec_free_entrys_num s r) r (entry_of v_addr) (with_flags ph_addr))
    else if is_soft
    then ok already s
    else aborted
try_map s ph_addr v_addr is_soft none =
    if s.free_pts_num == 1
    then if leb s.pt_pages_sp s.pt_pages_sp_min || ltb (s.pt_pages_sp - s.pt_pages_sp_min) page_size
      then ok no_page s
      else grow s ph_addr v_addr (get_free_page_generic s)
    else map_in_new s ph_addr v_addr

unfoldable pub pt_try_map : Mm → ℕ → ℕ → Bool → Run Mapped
unfolding take_pt set_entry pt_dec_free_entrys_num get_free_page_generic add_pt_page
pt_try_map s ph_addr v_addr is_soft =
    try_map s ph_addr v_addr is_soft (s.kernel_vpt2s (slot_of v_addr))

abbrev pub clear_slot : Mm → ℕ → Mm
clear_slot s slot = record s {
  kernel_vpt2s = update s.kernel_vpt2s slot none;
  kernel_pt2s = update s.kernel_pt2s slot 0;
}

-- After the entry is cleared: the slot goes too, if its table became empty.
abbrev pub after_clear : ℕ → ℕ → Bool × Mm → Run ℕ
after_clear slot ph_addr (true, s) = ok ph_addr (clear_slot s slot)
after_clear slot ph_addr (false, s) = ok ph_addr s

abbrev pub unmap : Mm → ℕ → Option PtRef → Run ℕ
unmap s v_addr none = fault
unmap s v_addr (some r) =
    let e = entry s r (entry_of v_addr) in
    if e == 0
    then aborted
    else after_clear (slot_of v_addr) (page_of e)
        (pt_inc_free_entrys_num_and_free_pt (set_entry s r (entry_of v_addr) 0) r)

unfoldable pub pt_unmap : Mm → ℕ → Run ℕ
unfolding set_entry pt_inc_free_entrys_num_and_free_pt
pt_unmap s v_addr = unmap s v_addr (s.kernel_vpt2s (slot_of v_addr))

abbrev pub is_map : Mm → ℕ → Option PtRef → Bool
is_map s v_addr none = false
is_map s v_addr (some r) = not (entry s r (entry_of v_addr) == 0)

unfoldable pub pt_is_map : Mm → ℕ → Bool
pt_is_map s v_addr = is_map s v_addr (s.kernel_vpt2s (slot_of v_addr))
