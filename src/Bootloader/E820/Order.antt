-- ===== src/Bootloader/E820/Order.antt =====
-- Maps in order, and what lies between two places of a map.
use myos_io.Base.{
  ℕ, ◌<◌, ◌≤◌, ◌≡◌, ◌≢◌, ◌⊎◌, refl, inl, inr, true, false, Bool-cases, Option, none, some, List, [],
  ◌∷◌, leb, leb→le, word, arith,
}
use myos_io.Mm.Init.{E820Entry}
use myos_io.Mm.Init.Blocks.{reach}
use myos_io.Mm.Init.Usable.{reach_from}
use myos_io.Bootloader.E820.Cover.{Kind, covers, combine, kind_at, AllNonempty}
use myos_io.Bootloader.E820.Ends.{EndOf, Rising-le, Above}

-- A map in ascending order without overlaps, from `lo` on; one entry of size 0 is all of memory.
abbrev pub Ordered : ℕ → List E820Entry → Type 0
Ordered lo [] = Unit
Ordered lo (e ∷ es) =
    (lo ≤ e.addr) × (reach e ≤ word) × (e.size ≡ 0 → e.addr ≡ 0) × Ordered (reach e) es

pub Ordered-mono : (lo lo' : ℕ) (es : List E820Entry) → lo' ≤ lo → Ordered lo es → Ordered lo' es
Ordered-mono lo lo' [] le h = tt
Ordered-mono lo lo' (e ∷ es) le (from, in_word, whole, h) =
    (omega (arith, from, le), in_word, whole, h)

-- Below an ordered map there is nothing.
pub kind_at-below : (lo a : ℕ) (es : List E820Entry) → Ordered lo es → a < lo → kind_at es a ≡ none
kind_at-below lo a [] h lt = refl
kind_at-below lo a (e ∷ es) (from, in_word, whole, h) lt =
    let misses : covers e a ≡ false = ground (arith, from, lt) in
    rw misses (kind_at-below (reach e) a es h (omega (arith, reach_from e in_word whole, from, lt)))

-- The entries `out` from lo on say what `es` says.
pub record Trims (es : List E820Entry) (lo : ℕ) (out : List E820Entry) : Type 0 where
  pub ordered : Ordered lo out
  pub says : (a : ℕ) → lo ≤ a → a < word → kind_at out a ≡ kind_at es a

-- An entry at a place is found there, or it covers what lies below the place.
not_none : (e : E820Entry) (k : Option Kind) → combine e.type e.extend k ≢ none
not_none e none h = cc
not_none e (some (u, v)) h = ground (arith, h)

covered_here :
    (e : E820Entry) (es : List E820Entry) (a : ℕ) → covers e a ≡ true → kind_at (e ∷ es) a ≢ none
covered_here e es a c h = not_none e (kind_at es a) (rw c at h)

covered_later :
    (e : E820Entry) (es : List E820Entry) (a : ℕ) → kind_at es a ≢ none → kind_at (e ∷ es) a ≢ none
covered_later e es a k h = elim (Bool-cases (covers e a)) [
  | inl c ↦ covered_here e es a c h
  | inr c ↦ k (rw c at h)
]

pub start_or_end :
    (es : List E820Entry) (p : ℕ)
    → AllNonempty es
    → EndOf es p
    → (kind_at es p ≢ none)
      ⊎ ((q : ℕ) × EndOf es q × (q < p) × ((a : ℕ) → q ≤ a → a < p → kind_at es a ≢ none))
start_or_end [] p hs m = elim m [ ]
start_or_end (e ∷ es) p (h, hs) (inl start) = inl (covered_here e es p (ground (arith, start, h)))
start_or_end (e ∷ es) p (h, hs) (inr (inl end)) = inr (
  e.addr,
  inl refl,
  ground (arith, h, end),
  λ a from upto. covered_here e es a (ground (arith, from, upto, end)),
)
start_or_end (e ∷ es) p (h, hs) (inr (inr m)) = elim (start_or_end es p hs m) [
  | inl k ↦ inl (covered_later e es p k)
  | inr (q, n, lt, k) ↦
      inr (q, inr (inr n), lt, λ a from upto. covered_later e es a (k a from upto))
]

-- After a place that no entry covers, the next place is the start of one.
pub next_covered :
    (es : List E820Entry) (lo p : ℕ) (ps : List ℕ)
    → AllNonempty es
    → Above es lo (p ∷ ps)
    → lo < p
    → kind_at es lo ≡ none
    → kind_at es p ≢ none
next_covered es lo p ps hs above past free =
    elim (start_or_end es p hs (above.ends p (inl refl)).0) [
      | inl k ↦ k
      | inr (q, n, lt, k) ↦ absurd (elim (Bool-cases (leb q lo)) [
        | inl t ↦ k lo (leb→le _ _ t) past free
        | inr t ↦
            let m =
              above.listed q n (omega (arith, lt, (above.ends p (inl refl)).1))
                (ground (arith, t)) in
            omega (arith, lt, Rising-le p q (p ∷ ps) (omega arith, above.rising.1) m)
      ])
    ]
