-- ===== src/Bootloader/E820/Scan.antt =====
-- The entries that the loops over the blocks write, one at a time.
use mathlib.Core.Path.{subst}
use myos_io.Base.{
  ℕ, ◌+◌, ◌-◌, ◌%◌, ◌<◌, ◌≤◌, ◌≡◌, ◌⊎◌, sym, ◌∙◌, inl, inr, true, false, Bool-cases, some, List, [],
  ◌∷◌, ltb, leb, ltb→lt, leb→le, ◌==◌, add64, sub64, sub64_exact, word, arith,
}
use myos_io.Mm.Init.{E820Entry}
use myos_io.Mm.Init.Blocks.{reach}
use myos_io.Bootloader.E820.{Block, phy_addr_max, entry_to}
use myos_io.Bootloader.E820.Cover.{covers, kind_at}
use myos_io.Bootloader.E820.Order.{Ordered, kind_at-below, Trims}

module _ (es : List E820Entry) where
  -- The map says of the addresses from s up to `last` what the block s says.
  abbrev pub Constant : Block → ℕ → Type 0
  Constant s last = (a : ℕ) → s.addr ≤ a → a ≤ last → kind_at es a ≡ some (s.type, s.extend)

  -- And up to the next place.
  pub spread :
      (s : Block) (last p : ℕ)
      → s.addr ≤ last
      → Constant s last
      → ((a : ℕ) → last ≤ a → a < p → kind_at es a ≡ kind_at es last)
      → (a : ℕ) → s.addr ≤ a
      → a < p
      → kind_at es a ≡ some (s.type, s.extend)
  spread s last p from k flat a above below = elim (Bool-cases (leb a last)) [
    | inl t ↦ k a above (leb→le _ _ t)
    | inr t ↦ flat a (ground (arith, t)) below ∙ k last from (omega arith)
  ]

  -- The entry that is written when the next block is not the same.
  pub cut :
      (s : Block) (p : ℕ) (out : List E820Entry)
      → s.addr < p
      → p < word
      → ((a : ℕ) → s.addr ≤ a → a < p → kind_at es a ≡ some (s.type, s.extend))
      → Trims es p out
      → Trims es s.addr (entry_to s (sub64 p s.addr) ∷ out)
  cut s p out past in_word k rest =
      let size : sub64 p s.addr ≡ p - s.addr = sub64_exact p s.addr (omega (arith, past)) in_word in
      let end : reach (entry_to s (sub64 p s.addr)) ≡ p = ground (arith, size, past) in
      record {
        ordered = (
          omega arith,
          omega (arith, end, in_word),
          λ z. absurd (omega (arith, z, size, past)),
          subst (λ x. Ordered x out) (sym end) rest.ordered,
        );
        says = λ a from w. elim (Bool-cases (ltb a p)) [
          | inl t ↦
              let lt = ltb→lt _ _ t in
              let c : covers (entry_to s (sub64 p s.addr)) a ≡ true =
                ground (arith, from, lt, end) in
              rw (c, kind_at-below p a out rest.ordered lt) (sym (k a from lt))
          | inr t ↦
              let c : covers (entry_to s (sub64 p s.addr)) a ≡ false = ground (arith, t, end) in
              rw c (rest.says a (ground (arith, t)) w)
        ];
      }

  -- The last entry.
  pub last_entry :
      (s : Block)
      → s.addr < word
      → ((a : ℕ) → s.addr ≤ a → a < word → kind_at es a ≡ some (s.type, s.extend))
      → Trims es s.addr (entry_to s (add64 (phy_addr_max - s.addr) 1) ∷ [])
  unfolding add64
  last_entry s in_word k =
      let size = (phy_addr_max - s.addr + 1) % word in
      let d : ((s.addr ≡ 0) × (size ≡ 0)) ⊎ ((0 < s.addr) × (size ≡ word - s.addr)) =
        elim (Bool-cases (s.addr == 0)) [
          | inl t ↦ let z : s.addr ≡ 0 = ground (arith, t) in inl (z, omega (arith, z))
          | inr t ↦ let z : 0 < s.addr = ground (arith, t) in inr (z, omega (arith, z, in_word))
        ] in
      let end : reach (entry_to s size) ≡ word = ground (arith, d, in_word) in
      record {
        ordered = (omega arith, omega (arith, end), λ z. ground (arith, d, z, in_word), tt);
        says = λ a from w.
            let c : covers (entry_to s size) a ≡ true = ground (arith, from, w, end) in
            rw c (sym (k a from w));
      }
