-- ===== src/Mm/Init/Pages.antt =====
-- The pages that the iterator gives out, one after the other.
use myos_io.Base.{
  ℕ, zero, suc, ◌+◌, ◌-◌, ◌*◌, ◌/◌, ◌%◌, ◌<◌, ◌≤◌, ◌≡◌, refl, sym, ◌∙◌, ap, by_test, ==_iff, ◌≢◌,
  Option, none, some, List, [], ◌∷◌, ◌++◌, take, ◌==◌, add64, word, arith,
}
use myos_io.Mm.State.{page_size}
use myos_io.Mm.Init.{
  FreeMemoryBlock, FreePagesIterator, at_head, init_free_pages_iterator, get_free_page_in_init,
}

-- The pages of a block, and of a list of blocks.
abbrev pub pages_from : ℕ → ℕ → List ℕ
pages_from addr zero = []
pages_from addr (suc n) = addr ∷ pages_from (addr + page_size) n

abbrev pub pages_of : List FreeMemoryBlock → List ℕ
pages_of [] = []
pages_of (b ∷ bs) = pages_from b.addr (b.size / page_size) ++ pages_of bs

-- What n calls of get_free_page_in_init give, up to the first NULL.
abbrev pub taken : ℕ → Option (ℕ × FreePagesIterator) → (FreePagesIterator → List ℕ) → List ℕ
taken n none rest = []
taken n (some (page, it)) rest = page ∷ rest it

unfoldable pub drain : ℕ → FreePagesIterator → List ℕ
unfolding get_free_page_in_init
drain zero it = []
drain (suc n) it = taken n (get_free_page_in_init it) (drain n)

-- Whole pages within the address space.
abbrev pub Whole : List FreeMemoryBlock → Type 0
Whole [] = Unit
Whole (b ∷ bs) = (0 < b.size) × (b.size % 0x20_0000 ≡ 0) × (b.addr + b.size ≤ word) × Whole bs

drain-empty :
    (n addr addr_max : ℕ) → drain n (record { block = []; addr = addr; addr_max = addr_max }) ≡ []
unfolding drain get_free_page_in_init
drain-empty zero addr addr_max = refl
drain-empty (suc n) addr addr_max = refl

take-empty : (n : ℕ) → take {A = ℕ} n [] ≡ []
take-empty zero = refl
take-empty (suc n) = refl

-- The iterator at the page `addr` of its first block, with k more pages after it.
at_page : ℕ → FreeMemoryBlock → List FreeMemoryBlock → FreePagesIterator
at_page addr b bs = record { block = b ∷ bs; addr = addr; addr_max = add64 b.addr b.size }

more_pages :
    (size : ℕ) → 0 < size → size % 0x20_0000 ≡ 0 → size / page_size ≡ suc (size / page_size - 1)
more_pages size nonzero al = omega arith

-- `add64 addr page_size` is the end of the block only at its last page.
past_last :
    (addr size from : ℕ) → addr + page_size ≡ from + size → add64 addr page_size ≡ add64 from size
unfolding add64
past_last addr size from e = omega arith

not_last :
    (k addr size from : ℕ)
    → addr + suc (suc k) * page_size ≡ from + size
    → from + size ≤ word
    → (add64 addr page_size ≡ addr + page_size) × (add64 addr page_size ≢ add64 from size)
unfolding add64
not_last k addr size from e in_word = (omega arith, λ q. omega arith)

inside :
    (n k addr : ℕ) (b : FreeMemoryBlock) (bs : List FreeMemoryBlock)
    → addr + suc k * page_size ≡ b.addr + b.size
    → b.addr + b.size ≤ word
    → ((m : ℕ) (it : FreePagesIterator) → drain m (at_head it bs) ≡ take m (pages_of bs))
    → drain n (at_page addr b bs) ≡ take n (pages_from addr (suc k) ++ pages_of bs)
unfolding drain get_free_page_in_init at_page
inside zero k addr b bs here in_word rest = refl
inside (suc n) zero addr b bs here in_word rest =
    ap (λ xs. addr ∷ xs)
      (by_test (λ it. drain n it ≡ take n (pages_of bs))
        (add64 addr page_size == add64 b.addr b.size) (λ t. rest n (at_page addr b bs))
        (λ t. absurd (ground (arith, t, past_last addr b.size b.addr (omega (arith, here))))))
inside (suc n) (suc k) addr b bs here in_word rest =
    let (next, far) = not_last k addr b.size b.addr here in_word in
    ap (λ xs. addr ∷ xs)
      (by_test (λ it. drain n it ≡ take n (pages_from (addr + page_size) (suc k) ++ pages_of bs))
        (add64 addr page_size == add64 b.addr b.size) (λ t. absurd (far ((==_iff _ _).0 t)))
        (λ t.
          ap (λ a. drain n (at_page a b bs)) next
          ∙ inside n k (addr + page_size) b bs (omega (arith, here)) in_word rest))

from_head :
    (bs : List FreeMemoryBlock)
    → Whole bs
    → (n : ℕ) (old : FreePagesIterator) → drain n (at_head old bs) ≡ take n (pages_of bs)
unfolding at_page
from_head [] whole n old = drain-empty n old.addr old.addr_max ∙ sym (take-empty n)
from_head (b ∷ bs) (nonzero, al, in_word, whole) n old =
    let count = more_pages b.size nonzero al in
    inside n (b.size / page_size - 1) b.addr b bs (omega (arith, count)) in_word
      (from_head bs whole)
    ∙ ap (λ k. take n (pages_from b.addr k ++ pages_of bs)) (sym count)

-- The iterator gives out exactly the pages of the blocks, in order, and then NULL.
pub drain-init_free_pages_iterator :
    (n : ℕ) (old : FreePagesIterator) (bs : List FreeMemoryBlock)
    → Whole bs
    → drain n (init_free_pages_iterator old bs) ≡ take n (pages_of bs)
unfolding init_free_pages_iterator
drain-init_free_pages_iterator n old bs whole = from_head bs whole n old
