-- ===== src/Bootloader/E820/Cover.antt =====
-- What a map says of an address, and that a block is set to that.
use myos_io.Base.{
  ℕ, ◌<◌, ◌≤◌, ◌≡◌, ◌⊎◌, refl, ◌∙◌, inl, inr, Bool, true, false, Bool-cases, not, ◌&&◌, ◌||◌,
  Option, none, some, List, [], ◌∷◌, ltb, leb, ◌==◌, if◌then◌else◌, arith,
}
use myos_io.Mm.Init.{E820Entry}
use myos_io.Mm.Init.Blocks.{reach}
use myos_io.Bootloader.E820.{Block, contains, overlaps, set_block}

-- type and extend
abbrev pub Kind : Type 0
Kind = ℕ × ℕ

abbrev pub covers : E820Entry → ℕ → Bool
covers e a = leb e.addr a && ltb a (reach e)

-- An entry over the others: memory of which entries say different things is reserved.
abbrev pub combine : ℕ → ℕ → Option Kind → Option Kind
combine t x none = some (t, x)
combine t x (some (u, v)) = if t == u && x == v then some (u, v) else some (2, 1)

-- What the entries that cover an address say of it; `none` if there are none.
abbrev pub kind_at : List E820Entry → ℕ → Option Kind
kind_at [] a = none
kind_at (e ∷ es) a =
    let rest = kind_at es a in if covers e a then combine e.type e.extend rest else rest

abbrev pub AllNonempty : List E820Entry → Type 0
AllNonempty [] = Unit
AllNonempty (e ∷ es) = (0 < e.size) × AllNonempty es

contains-covers : (e : E820Entry) (a : ℕ) → 0 < e.size → contains e a ≡ covers e a
contains-covers e a h = ground (arith, h)

differs : E820Entry → E820Entry → Bool
differs f e = not (f.type == e.type) || not (f.extend == e.extend)

combine_apart :
    (f e : E820Entry) (k : Option Kind)
    → differs f e ≡ true
    → combine f.type f.extend (combine e.type e.extend k) ≡ some (2, 1)
unfolding differs
combine_apart f e none d = ground (arith, d)
combine_apart f e (some (u, v)) d = ground (arith, d)

combine_same :
    (f e : E820Entry) (k : Option Kind)
    → differs f e ≡ false
    → combine f.type f.extend (combine e.type e.extend k) ≡ combine f.type f.extend k
unfolding differs
combine_same f e none d = ground (arith, d)
combine_same f e (some (u, v)) d = ground (arith, d)

-- A later entry differs, or all later ones with the address are the same.
with_overlaps :
    (a : ℕ) (f : E820Entry) (es : List E820Entry)
    → AllNonempty es
    → overlaps a f es ≡ true
    → combine f.type f.extend (kind_at es a) ≡ some (2, 1)
unfolding overlaps differs
with_overlaps a f [] h o = cc
with_overlaps a f (e ∷ es) (h, hs) o = elim (Bool-cases (covers e a)) [
  | inr n ↦ rw n (with_overlaps a f es hs (ground (arith, o, contains-covers e a h, n)))
  | inl c ↦ rw c (elim (Bool-cases (differs f e)) [
    | inl d ↦ combine_apart f e (kind_at es a) d
    | inr d ↦
        combine_same f e (kind_at es a) d
        ∙ with_overlaps a f es hs (ground (arith, o, contains-covers e a h, c, d))
  ])
]

no_overlaps :
    (a : ℕ) (f : E820Entry) (es : List E820Entry)
    → AllNonempty es
    → overlaps a f es ≡ false
    → combine f.type f.extend (kind_at es a) ≡ some (f.type, f.extend)
unfolding overlaps differs
no_overlaps a f [] h o = refl
no_overlaps a f (e ∷ es) (h, hs) o = elim (Bool-cases (covers e a)) [
  | inr n ↦ rw n (no_overlaps a f es hs (ground (arith, o, contains-covers e a h, n)))
  | inl c ↦
      let d : differs f e ≡ false = ground (arith, o, contains-covers e a h, c) in
      rw c (
        combine_same f e (kind_at es a) d
        ∙ no_overlaps a f es hs (ground (arith, o, contains-covers e a h, c, d)))
]

-- A block that is set to a kind.
abbrev pub Says : Block → Option Kind → Type 0
Says b none = b.exist ≡ false
Says b (some (t, x)) = (b.exist ≡ true) × (b.type ≡ t) × (b.extend ≡ x)

pub set_block-Says :
    (es : List E820Entry) (b : Block)
    → AllNonempty es
    → ((set_block es b).addr ≡ b.addr) × Says (set_block es b) (kind_at es b.addr)
unfolding set_block
set_block-Says [] b h = (refl, refl)
set_block-Says (e ∷ es) b (h, hs) =
    let same_cover = contains-covers e b.addr h in
    elim (Bool-cases (covers e b.addr)) [
      | inr n ↦ rw (same_cover, n) (set_block-Says es b hs)
      | inl c ↦ elim (Bool-cases (overlaps b.addr e es)) [
        | inl o ↦ rw (same_cover, c, o, with_overlaps b.addr e es hs o) (refl, (refl, refl, refl))
        | inr o ↦ rw (same_cover, c, o, no_overlaps b.addr e es hs o) (refl, (refl, refl, refl))
      ]
    ]

-- No entry starts or ends above lo and up to hi.
abbrev pub NoEnd : List E820Entry → ℕ → ℕ → Type 0
NoEnd [] lo hi = Unit
NoEnd (e ∷ es) lo hi =
    ((e.addr ≤ lo) ⊎ (hi < e.addr)) × ((reach e ≤ lo) ⊎ (hi < reach e)) × NoEnd es lo hi

pub kind_at-NoEnd :
    (es : List E820Entry) (lo hi : ℕ) → lo ≤ hi → NoEnd es lo hi → kind_at es hi ≡ kind_at es lo
kind_at-NoEnd [] lo hi le h = refl
kind_at-NoEnd (e ∷ es) lo hi le (starts, ends, h) =
    let same_cover : covers e hi ≡ covers e lo = ground (arith, starts, ends) in
    rw (same_cover, kind_at-NoEnd es lo hi le h) refl
