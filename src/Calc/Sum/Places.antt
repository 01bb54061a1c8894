-- ===== src/Calc/Sum/Places.antt =====
-- The array of a sum in jia and jian (main.c): where the two numbers lie in it.
use Prim.Native.Nat.{max}
use myos_io.Base.{
  ℕ, ◌+◌, ◌-◌, ◌≤◌, ◌≡◌, ◌⊎◌, inl, inr, arith, Bool-cases, false, length, if◌then◌else◌,
}
use myos_io.Base.Int.{ℤ, pos, pos_part, neg_part, ◌+ℤ◌, ◌-ℤ◌, ◌≤ℤ◌, ltb_ℤ, +ℤ_parts}
use myos_io.Calc.{Num}
use myos_io.Calc.Sum.{top, max_of, min_of, index_of, size_of}

pub index_of-eq :
    (high low : ℤ)
    → low ≤ℤ high
    → index_of high low + pos_part low + neg_part high ≡ pos_part high + neg_part low
unfolding ◌-ℤ◌
index_of-eq high low h = ground arith

≤ℤ_refl : (a : ℤ) → a ≤ℤ a
≤ℤ_refl a = omega arith

-- The test chooses the smaller, or the larger, of two.
smaller : (s t : ℤ) → ((if ltb_ℤ s t then s else t) ≤ℤ s) × ((if ltb_ℤ s t then s else t) ≤ℤ t)
smaller s t = elim (Bool-cases (ltb_ℤ s t)) [
  | inl less ↦ rw less (≤ℤ_refl s, ground (arith, less))
  | inr more ↦ rw more (ground (arith, more), ≤ℤ_refl t)
]

larger : (s t : ℤ) → (s ≤ℤ (if ltb_ℤ t s then s else t)) × (t ≤ℤ (if ltb_ℤ t s then s else t))
larger s t = elim (Bool-cases (ltb_ℤ t s)) [
  | inl less ↦ rw less (≤ℤ_refl s, ground (arith, less))
  | inr more ↦ rw more (ground (arith, more), ≤ℤ_refl t)
]

-- min_max: the larger of the two float_segments, found by a comparison with the smaller.
record Higher (s t p : ℤ) : Type 0 where
  above_s : s ≤ℤ p
  above_t : t ≤ℤ p
  one : (p ≤ℤ s) ⊎ (p ≤ℤ t)

higher : (s t : ℤ) → Higher s t (if ltb_ℤ (if ltb_ℤ s t then s else t) s then s else t)
higher s t = elim (Bool-cases (ltb_ℤ s t)) [
  | inl less ↦
      let e : ltb_ℤ s s ≡ false = ground arith in
      rw (less, e)
        (record { above_s = ground (arith, less); above_t = ≤ℤ_refl t; one = inr (≤ℤ_refl t) })
  | inr more ↦ elim (Bool-cases (ltb_ℤ t s)) [
    | inl above ↦
        rw (more, above)
          (record { above_s = ≤ℤ_refl s; above_t = ground (arith, more); one = inl (≤ℤ_refl s) })
    | inr same ↦
        rw (more, same)
          (record { above_s = ground (arith, same); above_t = ≤ℤ_refl t; one = inr (≤ℤ_refl t) })
  ]
]

-- The parts of the sum's array, for `a` and `b`.
pub record Places (a b : Num) : Type 0 where
  pub room_a : index_of a.float_segment (min_of a b) + length a.num + 1 ≤ size_of a b
  pub room_b : index_of b.float_segment (min_of a b) + length b.num + 1 ≤ size_of a b
  pub carry_from :
      index_of
        (if ltb_ℤ (min_of a b) a.float_segment then a.float_segment else b.float_segment)
        (min_of a b)
      ≡ max (index_of a.float_segment (min_of a b)) (index_of b.float_segment (min_of a b))
  pub carry_length :
      index_of
        (max_of a b +ℤ pos 1)
        (if ltb_ℤ (min_of a b) a.float_segment then a.float_segment else b.float_segment)
      ≡ size_of a b
        - max (index_of a.float_segment (min_of a b)) (index_of b.float_segment (min_of a b))
  pub borrow_length :
      index_of (max_of a b +ℤ pos 1) b.float_segment
      ≡ size_of a b - index_of b.float_segment (min_of a b)

module _ (s t m high p : ℤ) (la lb : ℕ) where
  module _ (ms : m ≤ℤ s) (mt : m ≤ℤ t) (sh : s +ℤ pos la ≤ℤ high) (th : t +ℤ pos lb ≤ℤ high) where
    size-eq :
        index_of (high +ℤ pos 1) m + pos_part m + neg_part high ≡ pos_part high + neg_part m + 1
    size-eq = omega (
      arith,
      index_of-eq (high +ℤ pos 1) m (omega (arith, +ℤ_parts high (pos 1), +ℤ_parts s (pos la))),
      +ℤ_parts high (pos 1),
      +ℤ_parts s (pos la),
    )

    room :
        (index_of s m + la + 1 ≤ index_of (high +ℤ pos 1) m)
        × (index_of t m + lb + 1 ≤ index_of (high +ℤ pos 1) m)
    room = omega (
      arith,
      size-eq,
      index_of-eq s m ms,
      index_of-eq t m mt,
      +ℤ_parts s (pos la),
      +ℤ_parts t (pos lb),
    )

    module _ (h : Higher s t p) where
      m-le-p : m ≤ℤ p
      m-le-p = omega (arith, h.above_s)

      carry_place : index_of p m ≡ max (index_of s m) (index_of t m)
      carry_place = elim h.one [
        | inl at_s ↦ omega (
          arith,
          index_of-eq s m ms,
          index_of-eq t m mt,
          index_of-eq p m m-le-p,
          h.above_s,
          h.above_t,
        )
        | inr at_t ↦ omega (
          arith,
          index_of-eq s m ms,
          index_of-eq t m mt,
          index_of-eq p m m-le-p,
          h.above_s,
          h.above_t,
        )
      ]

      rest_length :
          (q : ℤ)
          → m ≤ℤ q
          → (q ≤ℤ s) ⊎ (q ≤ℤ t)
          → index_of (high +ℤ pos 1) q ≡ index_of (high +ℤ pos 1) m - index_of q m
      rest_length q mq one =
          let below : q ≤ℤ high +ℤ pos 1 = elim one [
            | inl at_s ↦ omega (arith, +ℤ_parts high (pos 1), +ℤ_parts s (pos la))
            | inr at_t ↦ omega (arith, +ℤ_parts high (pos 1), +ℤ_parts t (pos lb))
          ] in
          omega (
            arith,
            size-eq,
            index_of-eq q m mq,
            index_of-eq (high +ℤ pos 1) q below,
            +ℤ_parts high (pos 1),
          )

pub Places-of : (a b : Num) → Places a b
Places-of a b =
    let s = a.float_segment in
    let t = b.float_segment in
    let la = length a.num in
    let lb = length b.num in
    let (ms, mt) = smaller s t in
    let (sh, th) = larger (top a) (top b) in
    let h = higher s t in
    let m = min_of a b in
    let high = max_of a b in
    let p = if ltb_ℤ m s then s else t in
    let (room_a, room_b) = room s t m high p la lb ms mt sh th in
    let rest = rest_length s t m high p la lb ms mt sh th h in
    record {
      room_a = room_a;
      room_b = room_b;
      carry_from = carry_place s t m high p la lb ms mt sh th h;
      carry_length =
          rw (← carry_place s t m high p la lb ms mt sh th h)
            (rest p (m-le-p s t m high p la lb ms mt sh th h) h.one);
      borrow_length = rest t mt (inr (≤ℤ_refl t));
    }
