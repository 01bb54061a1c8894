-- ===== src/Mm/Init/Usable.antt =====
-- The pages of all the blocks of a map are free pages.
use mathlib.Core.List.{append_assoc, append-nil}
use myos_io.Base.{
  ℕ, ◌/◌, ◌≤◌, ◌≡◌, refl, sym, ◌∙◌, ap, inl, inr, true, false, Bool-cases, by_test, List, [], ◌∷◌,
  ◌++◌, ◌==◌, word, arith,
}
use myos_io.Mm.State.{page_size}
use myos_io.Mm.Init.{E820Entry, FreeMemoryBlock, Image, is_usable, entry_blocks, super_blocks}
use myos_io.Mm.Init.Blocks.{IsImage, Placed, reach, Laid}
use myos_io.Mm.Init.Entries.{entry_blocks-Laid, super_blocks-Laid}
use myos_io.Mm.Init.Pages.{pages_from, pages_of, Whole}
use myos_io.Mm.Init.Free.{Ascending, FreePages, FreePages-mono, FreePages-cons, pages_of-FreePages}
use myos_io.Mm.Init.Append.{blocks_of, all_blocks}

pages_of-append : (xs ys : List FreeMemoryBlock) → pages_of (xs ++ ys) ≡ pages_of xs ++ pages_of ys
pages_of-append [] ys = refl
pages_of-append (b ∷ xs) ys =
    ap (λ ps. pages_from b.addr (b.size / page_size) ++ ps) (pages_of-append xs ys)
    ∙ sym (append_assoc (pages_from b.addr (b.size / page_size)) (pages_of xs) (pages_of ys))

pub reach_from : (e : E820Entry) → reach e ≤ word → (e.size ≡ 0 → e.addr ≡ 0) → e.addr ≤ reach e
reach_from e in_word whole = elim (Bool-cases (e.size == 0)) [
  | inl t ↦ ground (arith, t, whole)
  | inr t ↦ ground (arith, t)
]

Laid-Whole :
    (img : Image) (bs : List FreeMemoryBlock) (lo hi : ℕ) → hi ≤ word → Laid img lo bs hi → Whole bs
Laid-Whole img [] lo hi h laid = tt
Laid-Whole img (b ∷ bs) lo hi h (fit, laid) =
    (fit.nonzero, fit.size_aligned, omega (arith, fit.upto), Laid-Whole img bs _ hi h laid)

unusable_nothing : (img : Image) (e : E820Entry) → is_usable e ≡ false → entry_blocks img e ≡ []
unfolding entry_blocks
unusable_nothing img e u = rw u refl

module _ (img : Image) (ok : IsImage img) where
  entry_blocks-FreePages :
      (e : E820Entry) (es : List E820Entry) (rest : List ℕ)
      → reach e ≤ word
      → (e.size ≡ 0 → e.addr ≡ 0)
      → (is_usable e ≡ true → Placed img e)
      → FreePages img (e ∷ es) (reach e) rest
      → FreePages img (e ∷ es) e.addr (pages_of (entry_blocks img e) ++ rest)
  entry_blocks-FreePages e es rest in_word whole placed after = elim (Bool-cases (is_usable e)) [
    | inl u ↦
        pages_of-FreePages img e es u rest (entry_blocks img e) e.addr (omega arith)
          (reach_from e in_word whole) (entry_blocks-Laid img ok e in_word placed) after
    | inr u ↦
        rw (unusable_nothing img e u)
          (FreePages-mono img (e ∷ es) (reach e) e.addr rest (reach_from e in_word whole) after)
  ]

  entry_blocks-Whole :
      (e : E820Entry)
      → reach e ≤ word
      → (is_usable e ≡ true → Placed img e)
      → Whole (entry_blocks img e)
  entry_blocks-Whole e in_word placed =
      Laid-Whole img (entry_blocks img e) e.addr (reach e) in_word
        (entry_blocks-Laid img ok e in_word placed)

  blocks_of-FreePages :
      (es : List E820Entry) (lo : ℕ)
      → Ascending img lo es
      → FreePages img es lo (pages_of (blocks_of img es))
  unfolding blocks_of
  blocks_of-FreePages [] lo h = tt
  blocks_of-FreePages (e ∷ es) lo (from, in_word, whole, placed, rest) =
      rw (pages_of-append (entry_blocks img e) (blocks_of img es)) (
        FreePages-mono img (e ∷ es) e.addr lo _ from (
          entry_blocks-FreePages e es _ in_word whole placed
            (FreePages-cons img e es (reach e) _ (blocks_of-FreePages es (reach e) rest))))

  super_blocks-FreePages :
      (e : E820Entry)
      → (e.size == 0) ≡ true
      → (e.size ≡ 0 → e.addr ≡ 0)
      → is_usable e ≡ true
      → FreePages img (e ∷ []) 0 (pages_of (super_blocks img))
  super_blocks-FreePages e t whole u =
      let all : reach e ≡ word = rw t refl in
      let start : e.addr ≤ 0 = ground (arith, t, whole) in
      let laid : Laid img 0 (super_blocks img) (reach e) = rw all (super_blocks-Laid img ok) in
      rw (← append-nil (pages_of (super_blocks img)))
        (pages_of-FreePages img e [] u [] (super_blocks img) 0 start (omega arith) laid tt)

  pub all_blocks-FreePages :
      (es : List E820Entry) → Ascending img 0 es → FreePages img es 0 (pages_of (all_blocks img es))
  unfolding all_blocks
  all_blocks-FreePages [] h = blocks_of-FreePages [] 0 h
  all_blocks-FreePages (e ∷ []) h =
      by_test (λ bs. FreePages img (e ∷ []) 0 (pages_of bs)) (e.size == 0)
        (λ t.
          by_test (λ bs. FreePages img (e ∷ []) 0 (pages_of bs)) (is_usable e)
            (super_blocks-FreePages e t h.2) (λ u. tt))
        (λ t. blocks_of-FreePages (e ∷ []) 0 h)
  all_blocks-FreePages (e ∷ f ∷ es) h = blocks_of-FreePages (e ∷ f ∷ es) 0 h

  Whole-append : (xs ys : List FreeMemoryBlock) → Whole xs → Whole ys → Whole (xs ++ ys)
  Whole-append [] ys h k = k
  Whole-append (b ∷ xs) ys (n, al, w, h) k = (n, al, w, Whole-append xs ys h k)

  blocks_of-Whole : (es : List E820Entry) (lo : ℕ) → Ascending img lo es → Whole (blocks_of img es)
  unfolding blocks_of
  blocks_of-Whole [] lo h = tt
  blocks_of-Whole (e ∷ es) lo (from, in_word, whole, placed, rest) =
      Whole-append (entry_blocks img e) (blocks_of img es) (entry_blocks-Whole e in_word placed)
        (blocks_of-Whole es (reach e) rest)

  pub all_blocks-Whole : (es : List E820Entry) → Ascending img 0 es → Whole (all_blocks img es)
  unfolding all_blocks
  all_blocks-Whole [] h = blocks_of-Whole [] 0 h
  all_blocks-Whole (e ∷ []) h =
      by_test Whole (e.size == 0)
        (λ t.
          by_test Whole (is_usable e)
            (λ u. Laid-Whole img _ 0 word (omega arith) (super_blocks-Laid img ok)) (λ u. tt))
        (λ t. blocks_of-Whole (e ∷ []) 0 h)
  all_blocks-Whole (e ∷ f ∷ es) h = blocks_of-Whole (e ∷ f ∷ es) 0 h
