-- ===== src/Bootloader/E820/Ends.antt =====
-- The sorted blocks hold every place where an entry starts or ends, in order.
use mathlib.Core.Path.{subst}
use myos_io.Base.{
  ℕ, suc, ◌+◌, ◌-◌, ◌<◌, ◌≤◌, ◌≡◌, ◌⊎◌, refl, sym, ◌∙◌, inl, inr, false, Bool-cases, ltb→lt, leb→le,
  List, [], ◌∷◌, length, ltb, leb, ◌==◌, if◌then◌else◌, add64, add64_exact, word, arith,
}
use myos_io.Base.Int.{ℤ, pos, ◌≤ℤ◌}
use myos_io.Mm.Init.{E820Entry}
use myos_io.Mm.Init.Blocks.{reach}
use myos_io.Bootloader.E820.{phy_addr_max, blocks_cmp, ends_of}
use myos_io.Bootloader.E820.Cover.{AllNonempty, NoEnd}

abbrev pub count : ℕ → List ℕ → ℕ
count a [] = 0
count a (p ∷ ps) = if a == p then suc (count a ps) else count a ps

abbrev pub SortedBy : (ℕ → ℕ → ℤ) → List ℕ → Type 0
SortedBy cmp [] = Unit
SortedBy cmp (p ∷ []) = Unit
SortedBy cmp (p ∷ q ∷ ps) = (cmp p q ≤ℤ pos 0) × SortedBy cmp (q ∷ ps)

-- What trim_e820_entrys relies on of qsort.
pub record IsQsort (qsort : (ℕ → ℕ → ℤ) → List ℕ → List ℕ) : Type 0 where
  pub sorted : (ps : List ℕ) → SortedBy blocks_cmp (qsort blocks_cmp ps)
  pub same_length : (ps : List ℕ) → length (qsort blocks_cmp ps) ≡ length ps
  pub same_items : (ps : List ℕ) (a : ℕ) → count a (qsort blocks_cmp ps) ≡ count a ps

abbrev pub In : ℕ → List ℕ → Type 0
In a [] = ⊥
In a (p ∷ ps) = (a ≡ p) ⊎ In a ps

In-count : (a : ℕ) (ps : List ℕ) → In a ps → 0 < count a ps
In-count a [] m = elim m [ ]
In-count a (p ∷ ps) (inl e) = ground (arith, e)
In-count a (p ∷ ps) (inr m) = ground (arith, In-count a ps m)

count-In : (a : ℕ) (ps : List ℕ) → 0 < count a ps → In a ps
count-In a [] h = elim h [ ]
count-In a (p ∷ ps) h = elim (Bool-cases (a == p)) [
  | inl t ↦ inl (ground (arith, t))
  | inr t ↦ inr (count-In a ps (ground (arith, t, h)))
]

-- a is the start or the end of an entry.
abbrev pub EndOf : List E820Entry → ℕ → Type 0
EndOf [] a = ⊥
EndOf (e ∷ es) a = (a ≡ e.addr) ⊎ (a ≡ reach e) ⊎ EndOf es a

-- Addresses are 64-bit words.
abbrev pub AllWords : List E820Entry → Type 0
AllWords [] = Unit
AllWords (e ∷ es) = (e.addr < word) × AllWords es

-- What an entry adds to the list.
ends_of_cons :
    (e : E820Entry) (es : List E820Entry)
    → e.addr < word
    → 0 < e.size
    → ((reach e < word) × (ends_of (e ∷ es) ≡ e.addr ∷ reach e ∷ ends_of es))
      ⊎ ((word ≤ reach e) × (ends_of (e ∷ es) ≡ e.addr ∷ ends_of es))
unfolding ends_of
ends_of_cons e es w h =
    let all : reach e ≡ e.addr + e.size = ground (arith, h) in
    let fits : ltb phy_addr_max e.addr ≡ false = ground (arith, w) in
    elim (Bool-cases (ltb (phy_addr_max - e.addr) e.size)) [
      | inl t ↦
          let past : phy_addr_max - e.addr < e.size = ltb→lt _ _ t in
          inr (omega (arith, past, all, w), rw (fits, t) refl)
      | inr t ↦
          let room : e.size ≤ phy_addr_max - e.addr = ground (arith, t) in
          let q : add64 e.addr e.size ≡ reach e =
            add64_exact e.addr e.size (omega (arith, room, w)) ∙ sym all in
          inl (omega (arith, room, all, w), rw (fits, t, q) refl)
    ]

pub ends_of-In :
    (es : List E820Entry) (a : ℕ)
    → AllWords es
    → AllNonempty es
    → EndOf es a
    → a < word
    → In a (ends_of es)
ends_of-In [] a ws hs m lt = elim m [ ]
ends_of-In (e ∷ es) a (w, ws) (h, hs) m lt = elim (ends_of_cons e es w h) [
  | inl (room, q) ↦ rw q (elim m [
    | inl x ↦ inl x
    | inr (inl x) ↦ inr (inl x)
    | inr (inr x) ↦ inr (inr (ends_of-In es a ws hs x lt))
  ])
  | inr (past, q) ↦ rw q (elim m [
    | inl x ↦ inl x
    | inr (inl x) ↦ absurd (omega (arith, x, past, lt))
    | inr (inr x) ↦ inr (ends_of-In es a ws hs x lt)
  ])
]

In-ends_of :
    (es : List E820Entry) (a : ℕ)
    → AllWords es
    → AllNonempty es
    → In a (ends_of es)
    → EndOf es a × (a < word)
unfolding ends_of
In-ends_of [] a ws hs m = elim m [ ]
In-ends_of (e ∷ es) a (w, ws) (h, hs) m = elim (ends_of_cons e es w h) [
  | inl (room, q) ↦ elim (subst (In a) q m) [
    | inl x ↦ (inl x, omega (arith, x, w))
    | inr (inl x) ↦ (inr (inl x), omega (arith, x, room))
    | inr (inr x) ↦ let (k, lt) = In-ends_of es a ws hs x in (inr (inr k), lt)
  ]
  | inr (past, q) ↦ elim (subst (In a) q m) [
    | inl x ↦ (inl x, omega (arith, x, w))
    | inr x ↦ let (k, lt) = In-ends_of es a ws hs x in (inr (inr k), lt)
  ]
]

-- From lo on, in ascending order.
abbrev pub Rising : ℕ → List ℕ → Type 0
Rising lo [] = Unit
Rising lo (p ∷ ps) = (lo ≤ p) × Rising p ps

pub Rising-le : (lo a : ℕ) (ps : List ℕ) → Rising lo ps → In a ps → lo ≤ a
Rising-le lo a [] r m = elim m [ ]
Rising-le lo a (p ∷ ps) (le, r) (inl e) = omega (arith, e)
Rising-le lo a (p ∷ ps) (le, r) (inr m) = omega (arith, Rising-le p a ps r m)

pub SortedBy-Rising : (p : ℕ) (ps : List ℕ) → SortedBy blocks_cmp (p ∷ ps) → Rising p ps
SortedBy-Rising p [] h = tt
SortedBy-Rising p (q ∷ ps) (le, h) = (ground (arith, le), SortedBy-Rising q ps h)

-- ps holds what starts and ends above lo, in order.
pub record Above (es : List E820Entry) (lo : ℕ) (ps : List ℕ) : Type 0 where
  pub rising : Rising lo ps
  pub listed : (a : ℕ) → EndOf es a → a < word → lo < a → In a ps
  pub ends : (a : ℕ) → In a ps → EndOf es a × (a < word)

-- After the next place.
pub Above-tail :
    (es : List E820Entry) (lo p : ℕ) (ps : List ℕ) → Above es lo (p ∷ ps) → Above es p ps
Above-tail es lo p ps h = record {
  rising = h.rising.1;
  listed = λ a m lt above. elim (h.listed a m lt (omega (arith, h.rising, above))) [
    | inl e ↦ absurd (omega (arith, e, above))
    | inr k ↦ k
  ];
  ends = λ a m. h.ends a (inr m);
}

apart : (lo hi a : ℕ) → hi < word → (a < word → (a ≤ lo) ⊎ (hi < a)) → (a ≤ lo) ⊎ (hi < a)
apart lo hi a lt k = elim (Bool-cases (ltb a word)) [
  | inl t ↦ k (ltb→lt _ _ t)
  | inr t ↦ inr (ground (arith, t, lt))
]

NoEnd-EndOf :
    (es : List E820Entry) (lo hi : ℕ)
    → hi < word
    → ((a : ℕ) → EndOf es a → a < word → (a ≤ lo) ⊎ (hi < a))
    → NoEnd es lo hi
NoEnd-EndOf [] lo hi lt h = tt
NoEnd-EndOf (e ∷ es) lo hi lt h = (
  apart lo hi e.addr lt (λ w. h e.addr (inl refl) w),
  apart lo hi (reach e) lt (λ w. h (reach e) (inr (inl refl)) w),
  NoEnd-EndOf es lo hi lt (λ a m w. h a (inr (inr m)) w),
)

-- Up to the next place no entry starts or ends.
pub Above-NoEnd :
    (es : List E820Entry) (lo p : ℕ) (ps : List ℕ)
    → Above es lo (p ∷ ps)
    → (hi : ℕ) → hi < p
    → NoEnd es lo hi
Above-NoEnd es lo p ps h hi below =
    NoEnd-EndOf es lo hi (omega (arith, below, (h.ends p (inl refl)).1)) λ a m w.
      elim (Bool-cases (leb a lo)) [
        | inl t ↦ inl (leb→le _ _ t)
        | inr t ↦ inr (
            omega (
              arith,
              below,
              Rising-le p a (p ∷ ps) (omega arith, h.rising.1) (h.listed a m w (ground (arith, t))),
            ))
      ]

pub Above-last :
    (es : List E820Entry) (lo : ℕ) → Above es lo [] → (hi : ℕ) → hi < word → NoEnd es lo hi
Above-last es lo h hi lt = NoEnd-EndOf es lo hi lt λ a m w. elim (Bool-cases (leb a lo)) [
  | inl t ↦ inl (leb→le _ _ t)
  | inr t ↦ absurd (h.listed a m w (ground (arith, t)))
]

-- The sorted blocks of a map.
module _ (qsort : (ℕ → ℕ → ℤ) → List ℕ → List ℕ) (ok : IsQsort qsort) (es : List E820Entry)
    (ws : AllWords es) (hs : AllNonempty es) where
  pub into_sort : (a : ℕ) → EndOf es a → a < word → In a (qsort blocks_cmp (ends_of es))
  into_sort a m lt =
      count-In a _
        (omega (arith, ok.same_items (ends_of es) a, In-count a _ (ends_of-In es a ws hs m lt)))

  pub from_sort : (a : ℕ) → In a (qsort blocks_cmp (ends_of es)) → EndOf es a × (a < word)
  from_sort a m =
      In-ends_of es a ws hs
        (count-In a _ (omega (arith, ok.same_items (ends_of es) a, In-count a _ m)))
