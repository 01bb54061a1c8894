-- ===== src/Tty/Ring.antt =====
-- What the input buffer stands for: the characters from read_buf_oi on, around the end.
use myos_io.Base.{
  ℕ, zero, suc, ◌+◌, ◌-◌, ◌%◌, ◌≤◌, ◌<◌, ◌≡◌, ◌≢◌, refl, ap, ◌∙◌, List, [], ◌∷◌, ◌++◌, arith,
  length, take, drop,
}
use myos_io.Tty.{read_buf_size, Tty, copied, store}

abbrev pub next : ℕ → ℕ
next o = (o + 1) % read_buf_size

-- `n` characters from slot `o` on
unfoldable pub ring : (ℕ → ℕ) → ℕ → ℕ → List ℕ
ring f o zero = []
ring f o (suc n) = f o ∷ ring f (next o) n

-- The queue that the buffer implements, and the part of it that readers may take.
unfoldable pub contents : Tty → List ℕ
unfolding ring
contents t = ring t.read_buf t.read_buf_oi t.read_buf_used

pub record IsValid (t : Tty) : Type 0 where
  pub used-le : t.read_buf_used ≤ read_buf_size
  pub visible-le : t.read_buf_visible ≤ t.read_buf_used
  pub oi-lt : t.read_buf_oi < read_buf_size
  pub ii-eq : t.read_buf_ii ≡ (t.read_buf_oi + t.read_buf_used) % read_buf_size

pub length-ring : (f : ℕ → ℕ) (o n : ℕ) → length (ring f o n) ≡ n
unfolding ring
length-ring f o zero = refl
length-ring f o (suc n) = ap suc (length-ring f (next o) n)

pub ring-append :
    (f : ℕ → ℕ) (o a b p : ℕ)
    → o < read_buf_size
    → p ≡ (o + a) % read_buf_size
    → ring f o (a + b) ≡ ring f o a ++ ring f p b
unfolding ring
ring-append f o zero b p h e =
    let e' : p ≡ o = omega arith in let z : zero + b ≡ b = omega arith in rw (e', z)
ring-append f o (suc a) b p h e =
    let z : suc a + b ≡ suc (a + b) = omega arith in
    rw z (ap (λ r. f o ∷ r) (ring-append f (next o) a b p (omega arith) (omega arith)))

pub copied-ring : (f : ℕ → ℕ) (o n : ℕ) → o + n ≤ read_buf_size → copied f o n ≡ ring f o n
unfolding ring copied
copied-ring f o zero h = refl
copied-ring f o (suc zero) h = refl
copied-ring f o (suc (suc n)) h =
    let e : next o ≡ o + 1 = omega arith in
    rw e (ap (λ r. f o ∷ r) (copied-ring f (o + 1) (suc n) (omega arith)))

-- A write behind the last of the `n` characters changes none of them.
pub ring-store :
    (f : ℕ → ℕ) (o n m p v : ℕ)
    → o < read_buf_size
    → n ≤ m
    → m < read_buf_size
    → p ≡ (o + m) % read_buf_size
    → ring (store f p v) o n ≡ ring f o n
unfolding ring
ring-store f o zero m p v h k l e = refl
ring-store f o (suc n) m p v h k l e =
    let ne : p ≢ o = omega arith in
    let ih =
      ring-store f (next o) n (m - 1) p v (omega arith) (omega arith) (omega arith) (omega arith) in
    ground (arith, ih)

pub take-append_length : (xs ys : List ℕ) (n : ℕ) → length xs ≡ n → take n (xs ++ ys) ≡ xs
take-append_length [] ys zero e = refl
take-append_length [] ys (suc n) e = absurd (omega arith)
take-append_length (x ∷ xs) ys zero e = absurd (omega arith)
take-append_length (x ∷ xs) ys (suc n) e =
    ap (λ r. x ∷ r) (take-append_length xs ys n (omega arith))

pub drop-append_length : (xs ys : List ℕ) (n : ℕ) → length xs ≡ n → drop n (xs ++ ys) ≡ ys
drop-append_length [] ys zero e = refl
drop-append_length [] ys (suc n) e = absurd (omega arith)
drop-append_length (x ∷ xs) ys zero e = absurd (omega arith)
drop-append_length (x ∷ xs) ys (suc n) e = drop-append_length xs ys n (omega arith)

-- The first `n` of `m` characters, and the rest.
module _ (f : ℕ → ℕ) (o n m : ℕ) (start : o < read_buf_size) (fits : n ≤ m) where
  split : ring f o m ≡ ring f o n ++ ring f ((o + n) % read_buf_size) (m - n)
  split =
      let e : m ≡ n + (m - n) = omega arith in
      ap (ring f o) e ∙ ring-append f o n (m - n) _ start refl

  pub take-ring : take n (ring f o m) ≡ ring f o n
  take-ring = rw split (take-append_length _ _ n (length-ring f o n))

  pub drop-ring : drop n (ring f o m) ≡ ring f ((o + n) % read_buf_size) (m - n)
  drop-ring = rw split (drop-append_length _ _ n (length-ring f o n))
