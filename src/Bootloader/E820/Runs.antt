-- ===== src/Bootloader/E820/Runs.antt =====
-- The two loops over the blocks, to their ends.
use mathlib.Core.Path.{subst}
use myos_io.Base.{
  ℕ, ◌+◌, ◌<◌, ◌≤◌, ◌≡◌, ◌≢◌, refl, sym, ◌∙◌, ap, ap₂, inl, inr, true, false, Bool-cases, by_test,
  Option, none, some, List, [], ◌∷◌, ltb, ltb→lt, ◌==◌, if◌then◌else◌, sub64, word, arith,
}
use myos_io.Mm.Init.{E820Entry}
use myos_io.Bootloader.E820.{Block, set_block, set_blocks, same, entry_to, scan_gap, scan_entry}
use myos_io.Bootloader.E820.Cover.{Kind, kind_at, AllNonempty, kind_at-NoEnd, Says, set_block-Says}
use myos_io.Bootloader.E820.Ends.{Above, Above-tail, Above-NoEnd, Above-last}
use myos_io.Bootloader.E820.Order.{Ordered-mono, kind_at-below, Trims, next_covered}
use myos_io.Bootloader.E820.Scan.{Constant, spread, cut, last_entry}

-- What a block tells of the map at its address.
pub said :
    (n : Block) (k : Option Kind)
    → Says n k
    → (n.exist ≡ true → k ≡ some (n.type, n.extend)) × (n.exist ≡ false → k ≡ none)
said n none h = (λ e. cc, λ e. refl)
said n (some (t, x)) h = (λ e. cc, λ e. cc)

module _ (old : ℕ → Block) (es : List E820Entry) (hs : AllNonempty es) where
  abbrev pub GoesOn : Block → Block → Type 0
  GoesOn s c = (c.exist ≡ true) × (c.type ≡ s.type) × (c.extend ≡ s.extend)

  -- The memory up to the next place is like that at `last`.
  flat :
      (last p : ℕ) (ps : List ℕ)
      → Above es last (p ∷ ps)
      → (a : ℕ) → last ≤ a
      → a < p
      → kind_at es a ≡ kind_at es last
  flat last p ps above a from below =
      kind_at-NoEnd es last a from (Above-NoEnd es last p ps above a below)

  pub Trims-down :
      (last p : ℕ) (out : List E820Entry)
      → last ≤ p
      → ((a : ℕ) → last ≤ a → a < p → kind_at es a ≡ none)
      → Trims es p out
      → Trims es last out
  Trims-down last p out le free h = record {
    ordered = Ordered-mono p last out le h.ordered;
    says = λ a from w. elim (Bool-cases (ltb a p)) [
      | inl t ↦ kind_at-below p a out h.ordered (ltb→lt _ _ t) ∙ sym (free a from (ltb→lt _ _ t))
      | inr t ↦ h.says a (ground (arith, t)) w
    ];
  }

  pub at_place :
      (n : Block) (p : ℕ) → n.addr ≡ p → n.exist ≡ true → Says n (kind_at es p) → Constant es n p
  at_place n p e x h a from upto =
      let here : a ≡ p = omega (arith, e, from, upto) in
      ap (kind_at es) here ∙ (said n (kind_at es p) h).0 x

  reaches :
      (s n : Block) (p : ℕ)
      → ((a : ℕ) → s.addr ≤ a → a < p → kind_at es a ≡ some (s.type, s.extend))
      → n.addr ≡ p
      → Says n (kind_at es p)
      → GoesOn s n
      → Constant es s p
  reaches s n p k e h (x, t, u) a above upto = elim (Bool-cases (ltb a p)) [
    | inl b ↦ k a above (ltb→lt _ _ b)
    | inr b ↦
        at_place n p e x h a (ground (arith, b, e)) upto ∙ ap₂ (λ (y : ℕ) (z : ℕ). some (y, z)) t u
  ]

  module _ (i last p : ℕ) (ps : List ℕ) where
    blank : Block
    blank = record (old i) { addr = p }

    others : List Block
    others = set_blocks old es (i + 1) p ps

    set_blocks-again : (p == last) ≡ true → set_blocks old es i last (p ∷ ps) ≡ blank ∷ others
    unfolding set_blocks blank others
    set_blocks-again t = rw t refl

    set_blocks-next :
        (p == last) ≡ false → set_blocks old es i last (p ∷ ps) ≡ set_block es blank ∷ others
    unfolding set_blocks blank others
    set_blocks-next t = rw t refl

  module _ (s c n : Block) (ns : List Block) where
    gap_skip : n.addr ≡ c.addr → scan_gap c (n ∷ ns) ≡ scan_gap c ns
    unfolding scan_gap
    gap_skip e = ground (arith, e)

    gap_found : n.addr ≢ c.addr → scan_gap c (n ∷ ns) ≡ scan_entry n n ns
    unfolding scan_gap
    gap_found e = ground (arith, e)

    entry_skip : n.addr ≡ c.addr → scan_entry s c (n ∷ ns) ≡ scan_entry s c ns
    unfolding scan_entry
    entry_skip e = ground (arith, e)

    entry_longer : n.addr ≢ c.addr → same n c ≡ true → scan_entry s c (n ∷ ns) ≡ scan_entry s n ns
    unfolding scan_entry
    entry_longer e t = ground (arith, e, t)

    tail : List E820Entry
    tail = if n.exist then scan_entry n n ns else scan_gap n ns

    entry_cut :
        n.addr ≢ c.addr
        → same n c ≡ false
        → scan_entry s c (n ∷ ns) ≡ entry_to s (sub64 n.addr s.addr) ∷ tail
    unfolding scan_entry tail
    entry_cut e t = let d : (n.addr == c.addr) ≡ false = ground (arith, e) in rw (d, t) refl

  mutual
    unfolding scan_gap scan_entry set_blocks blank others tail

    gap_Trims :
        (ps : List ℕ) (i last : ℕ) (c : Block)
        → c.addr ≡ last
        → last < word
        → kind_at es last ≡ none
        → Above es last ps
        → Trims es last (scan_gap c (set_blocks old es i last ps))
    gap_Trims [] i last c at w free above = record {
      ordered = tt;
      says = λ a from lt. sym (kind_at-NoEnd es last a from (Above-last es last above a lt) ∙ free);
    }
    gap_Trims (p ∷ ps) i last c at w free above = elim (Bool-cases (p == last)) [
      | inl t ↦
          let e : p ≡ last = ground (arith, t) in
          let rest =
            gap_Trims ps (i + 1) p c (at ∙ sym e) (omega (arith, e, w)) (ap (kind_at es) e ∙ free)
              (Above-tail es last p ps above) in
          subst (Trims es last)
            (sym (
              ap (scan_gap c) (set_blocks-again i last p ps t)
              ∙ gap_skip c c (blank i last p ps) (others i last p ps) (e ∙ sym at)))
            (subst (λ x. Trims es x (scan_gap c (others i last p ps))) e rest)
      | inr t ↦
          let n = set_block es (blank i last p ps) in
          let (there, tells) = set_block-Says es (blank i last p ps) hs in
          let past : last < p = ground (arith, t, above.rising) in
          let found : n.exist ≡ true = elim (Bool-cases n.exist) [
            | inl x ↦ x
            | inr x ↦
                absurd
                  (next_covered es last p ps hs above past free ((said n (kind_at es p) tells).1 x))
          ] in
          let rest =
            entry_Trims ps (i + 1) p n n there (omega (arith, there)) ((above.ends p (inl refl)).1)
              (at_place n p there found tells) (found, refl, refl)
              (Above-tail es last p ps above) in
          subst (Trims es last)
            (sym (
              ap (scan_gap c) (set_blocks-next i last p ps t)
              ∙ gap_found c c n (others i last p ps) (λ q. omega (arith, q, there, at, past))))
            (Trims-down last p (scan_entry n n (others i last p ps)) (omega (arith, past))
              (λ a from below. flat last p ps above a from below ∙ free)
              (subst (λ x. Trims es x (scan_entry n n (others i last p ps))) there rest))
    ]

    pub entry_Trims :
        (ps : List ℕ) (i last : ℕ) (s c : Block)
        → c.addr ≡ last
        → s.addr ≤ last
        → last < word
        → Constant es s last
        → GoesOn s c
        → Above es last ps
        → Trims es s.addr (scan_entry s c (set_blocks old es i last ps))
    entry_Trims [] i last s c at from w k on above = last_entry es s (omega (arith, from, w)) (
        spread es s last word from k
          λ a le lt. kind_at-NoEnd es last a le (Above-last es last above a lt))
    entry_Trims (p ∷ ps) i last s c at from w k on above = elim (Bool-cases (p == last)) [
      | inl t ↦
          let e : p ≡ last = ground (arith, t) in
          subst (Trims es s.addr)
            (sym (
              ap (scan_entry s c) (set_blocks-again i last p ps t)
              ∙ entry_skip s c (blank i last p ps) (others i last p ps) (e ∙ sym at)))
            (entry_Trims ps (i + 1) p s c (at ∙ sym e) (omega (arith, e, from))
              (omega (arith, e, w)) (λ a le upto. k a le (omega (arith, e, upto))) on
              (Above-tail es last p ps above))
      | inr t ↦
          let n = set_block es (blank i last p ps) in
          let (there, tells) = set_block-Says es (blank i last p ps) hs in
          let past : last < p = ground (arith, t, above.rising) in
          let later : n.addr ≢ c.addr = λ q. omega (arith, q, there, at, past) in
          let tail_above = Above-tail es last p ps above in
          let upto_p = spread es s last p from k (flat last p ps above) in
          let in_word = (above.ends p (inl refl)).1 in
          elim (Bool-cases (same n c)) [
            | inl u ↦
                let alike : (n.exist ≡ true) × (n.type ≡ s.type) × (n.extend ≡ s.extend) =
                  ground (arith, u, on) in
                subst (Trims es s.addr)
                  (sym (
                    ap (scan_entry s c) (set_blocks-next i last p ps t)
                    ∙ entry_longer s c n (others i last p ps) later u))
                  (entry_Trims ps (i + 1) p s n there (omega (arith, from, past)) in_word
                    (reaches s n p upto_p there tells alike) alike tail_above)
            | inr u ↦
                let rest : Trims es p (tail s c n (others i last p ps)) =
                  by_test (Trims es p) n.exist
                    (λ x.
                      subst (λ y. Trims es y (scan_entry n n (others i last p ps))) there
                        (entry_Trims ps (i + 1) p n n there (omega (arith, there)) in_word
                          (at_place n p there x tells) (x, refl, refl) tail_above))
                    (λ x.
                      gap_Trims ps (i + 1) p n there in_word ((said n (kind_at es p) tells).1 x)
                        tail_above) in
                subst (Trims es s.addr)
                  (sym (
                    ap (scan_entry s c) (set_blocks-next i last p ps t)
                    ∙ entry_cut s c n (others i last p ps) later u
                    ∙ ap (λ x. entry_to s (sub64 x s.addr) ∷ tail s c n (others i last p ps))
                        there))
                  (cut es s p (tail s c n (others i last p ps)) (omega (arith, from, past)) in_word
                    upto_p rest)
          ]
    ]
