-- ===== src/Mm/Alloc.antt =====
-- Where the pages of an allocation of mm/mm.c come from and go back to.
use mathlib.Core.Path.{subst}
use mathlib.Core.List.{append_assoc}
use myos_io.Base.{
  ltb, ℕ, zero, suc, ◌+◌, ◌*◌, ◌/◌, ◌≡◌, inl, inr, refl, sym, ap, ◌∙◌, Bool, true, false, ◌&&◌,
  List, [], ◌∷◌, ◌++◌, arith, ◌==◌, Bool-cases, length, length-append, add64, map,
}
use myos_io.Base.Int.{ℤ, pos, negsuc}
use myos_io.Mm.State.{page_size, Mm, Run, ok, aborted, fault, and_then}
use myos_io.Mm.PageTable.{Mapped, mapped, already, no_page, pt_try_map}
use myos_io.Mm.Pages.{
  push_free, unmap_all, fail_after, after_try, try_page, alloc_loop, alloc_page_lock_routine, Addr,
  at, map_failed, addr_or_failed, prot_rwx, map_private_anonymous, is_kernel_range, mmap_generic,
  mmap, munmap,
}
use myos_io.Mm.Remap.{Ensures, Ensures-and_then, Ensures-if}
use myos_io.Mm.Conserve.{Spends, Costs, pt_try_map-Costs}
use myos_io.Mm.Unmap.{
  page_at, put_back, addrs_from, Below, Below-refl, Returned, unmap_all-Returned,
  free_page_lock_routine-Returned,
}

-- From s, the addresses have been mapped, the last one first in the list, each to the page that was
-- on top of the stack of free pages.
pub data Maps (s : Mm) : List ℕ → Mm → Type 0 where
  none_yet : Maps s [] s
  one_more :
      {addrs rest : List ℕ} {t u : Mm} {page addr : ℕ}
      → Maps s addrs t
      → t.free_pages ≡ page ∷ rest
      → pt_try_map (record t { free_pages = rest }) page addr false ≡ ok mapped u
      → Maps s (addr ∷ addrs) u

-- The pages that have left the stack, one for each address, and those that the pool grew by.
Maps-Spends : {s u : Mm} {addrs : List ℕ} → Maps s addrs u → Spends s u (length addrs)
Maps-Spends none_yet = record {
  taken = [];
  tables = 0;
  stack = refl;
  count = omega arith;
  sp = omega arith;
}
Maps-Spends {u} (one_more {rest} {t} {page} {addr} m top e) =
    let before = Maps-Spends m in
    let t' : Mm = record t { free_pages = rest } in
    let cost : Spends t' u 0 =
      subst (Ensures (Costs t' false)) e (pt_try_map-Costs t' page addr false) in
    record {
      taken = before.taken ++ page ∷ cost.taken;
      tables = before.tables + cost.tables;
      stack =
          before.stack
          ∙ ap (λ l. before.taken ++ l) (top ∙ ap (λ l. page ∷ l) cost.stack)
          ∙ sym (append_assoc before.taken (page ∷ cost.taken) u.free_pages);
      count =
          omega (arith, length-append before.taken (page ∷ cost.taken), before.count, cost.count);
      sp = omega (arith, before.sp, cost.sp);
    }

-- An allocation that has failed: it had mapped the addresses `addrs` when it did, and `left` were
-- still to be mapped; what the page tables held for `addrs` is back on the stack as it was then. All
-- but the pages that the pool grew by are back.
pub record Undone (s : Mm) (all : List ℕ) (s' : Mm) : Type 0 where
  pub addrs : List ℕ
  pub left : List ℕ
  pub whole : put_back left addrs ≡ all
  pub failed : Mm
  pub maps : Maps s addrs failed
  pub stack : s'.free_pages ≡ put_back (map (page_at failed) addrs) failed.free_pages
  pub tables : ℕ
  pub count : length s'.free_pages + tables ≡ length s.free_pages
  pub sp : s'.pt_pages_sp + tables * page_size ≡ s.pt_pages_sp

length-put_back : (ps l : List ℕ) → length (put_back ps l) ≡ length ps + length l
length-put_back [] l = omega arith
length-put_back (p ∷ ps) l = omega (arith, length-put_back ps (p ∷ l))

length-map : (f : ℕ → ℕ) (l : List ℕ) → length (map f l) ≡ length l
length-map f [] = refl
length-map f (x ∷ l) = omega (arith, length-map f l)

length-addrs_from : (addr num : ℕ) → length (addrs_from addr num) ≡ num
length-addrs_from addr zero = refl
length-addrs_from addr (suc num) = omega (arith, length-addrs_from (add64 addr page_size) num)

Undone-of :
    (s t : Mm) (addrs left all : List ℕ) (s' : Mm)
    → Maps s addrs t
    → put_back left addrs ≡ all
    → s'.free_pages ≡ put_back (map (page_at t) addrs) t.free_pages
    → s'.pt_pages_sp ≡ t.pt_pages_sp
    → Undone s all s'
Undone-of s t addrs left all s' m whole stack sp =
    let spent = Maps-Spends m in
    record {
      addrs = addrs;
      left = left;
      whole = whole;
      failed = t;
      maps = m;
      stack = stack;
      tables = spent.tables;
      count = omega (
        arith,
        ap length stack,
        length-put_back (map (page_at t) addrs) t.free_pages,
        length-map (page_at t) addrs,
        ap length spent.stack,
        length-append spent.taken t.free_pages,
        spent.count,
      );
      sp = omega (arith, sp, spent.sp);
    }

-- What the loop ends in, when all addresses together are `all`.
abbrev pub Outcome : Mm → List ℕ → Bool → Mm → Type 0
Outcome s all true s' = Maps s all s'
Outcome s all false s' = Undone s all s'

-- The rollback, in a state that differs from that of the failure in nothing that counts.
fail_after-Outcome :
    (s t t' : Mm) (addrs left all : List ℕ)
    → Maps s addrs t
    → put_back left addrs ≡ all
    → Below t t'
    → t'.free_pages ≡ t.free_pages
    → t'.pt_pages_sp ≡ t.pt_pages_sp
    → Ensures (Outcome s all) (fail_after addrs t')
fail_after-Outcome s t t' addrs left all m whole b free sp =
    Ensures-and_then (λ _ s'. Returned t addrs t' s') (Outcome s all) (unmap_all addrs t') _
      (unmap_all-Returned addrs t t' b)
      λ _ s2 k.
        Undone-of s t addrs left all s2 m whole
          (k.stack ∙ ap (put_back (map (page_at t) addrs)) free) (k.sp ∙ sp)

-- The same, where the call before has returned.
Ensures-and_then_eq :
    {A B : Type 0} (P : A → Mm → Type 0) (Q : B → Mm → Type 0) (r : Run A) (f : A → Mm → Run B)
    → Ensures P r
    → ((a : A) (s : Mm) → r ≡ ok a s → P a s → Ensures Q (f a s))
    → Ensures Q (and_then r f)
Ensures-and_then_eq P Q (ok a s) f h k = k a s refl h
Ensures-and_then_eq P Q aborted f h k = tt
Ensures-and_then_eq P Q fault f h k = tt

-- One round, given what the rest of the loop does.
module _ (s t : Mm) (addr : ℕ) (pages left all : List ℕ) (next : List ℕ → Mm → Run Bool)
    (m : Maps s pages t) (whole : put_back (addr ∷ left) pages ≡ all)
    (rest : (u : Mm)
      → Maps s (addr ∷ pages) u
      → Ensures (Outcome s all) (next (addr ∷ pages) u)) where
  after_try-Outcome :
      (page : ℕ) (l : List ℕ)
      → t.free_pages ≡ page ∷ l
      → (o : Mapped) (u : Mm) → pt_try_map (record t { free_pages = l }) page addr false ≡ ok o u
      → Costs (record t { free_pages = l }) false o u
      → Ensures (Outcome s all) (after_try page addr pages next o u)
  after_try-Outcome page l top mapped u e c = rest u (one_more m top e)
  after_try-Outcome page l top already u e c = cc
  after_try-Outcome page l top no_page u e c =
      fail_after-Outcome s t (push_free page u) pages (addr ∷ left) all m whole
        (record {
          slots = λ k r h. ap (λ x. x.kernel_vpt2s k) (sym c) ∙ h;
          entrys = λ r i. inr (ap (λ x. (x.pt_page r.page).page_tables r.id i) c);
        })
        (ap (λ x. page ∷ x.free_pages) c ∙ sym top) (ap (λ x. x.pt_pages_sp) c)

  step :
      (l : List ℕ) → t.free_pages ≡ l → Ensures (Outcome s all) (try_page addr false pages t next l)
  step [] e = fail_after-Outcome s t t pages (addr ∷ left) all m whole (Below-refl t) refl refl
  step (page ∷ l) e =
      Ensures-and_then_eq (Costs (record t { free_pages = l }) false) (Outcome s all)
        (pt_try_map (record t { free_pages = l }) page addr false) _
        (pt_try_map-Costs (record t { free_pages = l }) page addr false)
        (after_try-Outcome page l e)

alloc_loop-Outcome :
    (num addr : ℕ) (s t : Mm) (pages all : List ℕ)
    → Maps s pages t
    → put_back (addrs_from addr num) pages ≡ all
    → Ensures (Outcome s all) (alloc_loop num addr false pages t)
unfolding alloc_loop
alloc_loop-Outcome zero addr s t pages all m whole = subst (λ l. Maps s l t) whole m
alloc_loop-Outcome (suc num) addr s t pages all m whole =
    step s t addr pages (addrs_from (add64 addr page_size) num) all
      (alloc_loop num (add64 addr page_size) false) m whole
      (λ u n. alloc_loop-Outcome num (add64 addr page_size) s u (addr ∷ pages) all n whole)
      t.free_pages refl

-- The addresses of a mapping, the last one first.
abbrev pub addrs_of : ℕ → ℕ → List ℕ
addrs_of addr len = put_back (addrs_from addr (len / page_size)) []

pub alloc_page_lock_routine-Outcome :
    (addr len : ℕ) (s : Mm)
    → Ensures
        (Outcome s (addrs_of addr len))
        (alloc_page_lock_routine addr (len / page_size) false s)
unfolding alloc_page_lock_routine
alloc_page_lock_routine-Outcome addr len s =
    alloc_loop-Outcome (len / page_size) addr s s [] (addrs_of addr len) none_yet refl

-- What mmap has done: it gives `addr`, all the addresses are mapped and the pages that have left the
-- stack are those and the ones that the pool grew by, or it has undone what it did.
abbrev pub Granted : ℕ → ℕ → Mm → Addr → Mm → Type 0
Granted addr len s (at a) s' =
    (a ≡ addr) × Maps s (addrs_of addr len) s' × Spends s s' (len / page_size)
Granted addr len s map_failed s' = Undone s (addrs_of addr len) s'

Granted-all :
    (addr len : ℕ) (s s' : Mm) → Maps s (addrs_of addr len) s' → Granted addr len s (at addr) s'
Granted-all addr len s s' m =
    let spent = Maps-Spends m in
    (
      refl,
      m,
      record {
        taken = spent.taken;
        tables = spent.tables;
        stack = spent.stack;
        count = omega (
          arith,
          spent.count,
          length-put_back (addrs_from addr (len / page_size)) [],
          length-addrs_from addr (len / page_size),
        );
        sp = spent.sp;
      },
    )

Granted-none : (addr len : ℕ) (s : Mm) → len / page_size ≡ 0 → Granted addr len s (at addr) s
Granted-none addr len s e = Granted-all addr len s s (rw e none_yet)

-- Whenever mmap returns: if it returns the address, it has mapped each address of the range in turn
-- to the page on top of the stack of free pages, and the pages that have left the stack, from its top
-- on, are one for each of these addresses and one for each PT_Page that the pool grew by; if it
-- returns (void *)-1, it had done so for the first addresses of the range, and the pages that the
-- page tables then held for these are back on the stack, so that it is shorter only by the pages that
-- the pool grew by.
pub mmap-conserve :
    (addr len prot flags : ℕ) (offset : ℤ) (s : Mm)
    → Ensures (Granted addr len s) (mmap addr len prot flags offset s)
unfolding mmap_generic
mmap-conserve addr len prot flags (negsuc k) s = tt
mmap-conserve addr len prot flags (pos offset) s =
    Ensures-if (Granted addr len s)
      (prot == prot_rwx
        && flags == map_private_anonymous
        && offset == 0
        && is_kernel_range addr len)
      _ aborted
      (Ensures-if (Granted addr len s) (ltb (length s.free_pages) (len / page_size))
        (ok map_failed s) _
        (Undone-of s s [] (addrs_from addr (len / page_size)) (addrs_of addr len) s none_yet refl
          refl refl)
        (elim (Bool-cases (len / page_size == 0)) [
          | inl none_asked ↦ rw none_asked (Granted-none addr len s (ground (arith, none_asked)))
          | inr asked ↦ rw asked (
              Ensures-and_then (Outcome s (addrs_of addr len)) (Granted addr len s)
                (alloc_page_lock_routine addr (len / page_size) false s) (addr_or_failed addr)
                (alloc_page_lock_routine-Outcome addr len s) answer)
        ]))
      tt
  where
    answer :
        (b : Bool) (s' : Mm)
        → Outcome s (addrs_of addr len) b s'
        → Ensures (Granted addr len s) (addr_or_failed addr b s')
    answer true s' h = Granted-all addr len s s' h
    answer false s' h = h

-- Whenever munmap returns, the pages that the page tables held for the addresses of the range are
-- back on the stack of free pages, pushed in the order of the addresses, and the pool of page tables
-- has not moved its end.
pub munmap-Returned :
    (addr len : ℕ) (s : Mm)
    → Ensures (λ _ s'. Returned s (addrs_from addr (len / page_size)) s s') (munmap addr len s)
unfolding munmap
munmap-Returned addr len s =
    Ensures-if (λ _ s'. Returned s (addrs_from addr (len / page_size)) s s')
      (is_kernel_range addr len) _ aborted
      (free_page_lock_routine-Returned (len / page_size) addr s s (Below-refl s)) tt
