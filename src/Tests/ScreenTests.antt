-- ===== src/Tests/ScreenTests.antt =====
-- The text screen: sched/tty/tty_write.c.
use myos_io.Base.{
  ℕ, ◌+◌, ◌*◌, ◌≤◌, ◌≡◌, refl, ◌&&◌, List, [], ◌∷◌, arith, ltb, leb, if◌then◌else◌, length, take,
}
use myos_io.Base.Int.{pos, negsuc}
use myos_io.Screen.{
  Screen, rows, cols, ssize_max, put_chars, tty_write, written, einval, tty_writev,
  kernel_init_part0,
}
use myos_io.Screen.Cursor.{
  IsValid, tty_write-IsValid, joined, tty_writev-joined, kernel_init_part0-IsValid,
}

-- the last cell but one of the screen
abbrev near_end : Screen
near_end = record { vidmem = λ i. i; x = 78; y = 24 }

near_end-IsValid : IsValid near_end
near_end-IsValid = omega arith

scrolls : (put_chars near_end (b'a' ∷ b'b' ∷ [])).vidmem 1919 ≡ b'b'
unfolding put_chars
scrolls = refl

tty_write-IsValid_example :
    IsValid (tty_write near_end (b'a' ∷ b'b' ∷ []) 2).0
    × ((i : ℕ) → rows * cols ≤ i → (tty_write near_end (b'a' ∷ b'b' ∷ []) 2).0.vidmem i ≡ i)
    × ((tty_write near_end (b'a' ∷ b'b' ∷ []) 2).1 ≡ (if ltb ssize_max 2 then ssize_max else 2))
tty_write-IsValid_example = tty_write-IsValid near_end (b'a' ∷ b'b' ∷ []) 2 near_end-IsValid

abbrev pieces : List (List ℕ)
pieces = [] ∷ (b'a' ∷ []) ∷ (b'b' ∷ b'c' ∷ []) ∷ []

tty_writev-joined_example :
    (tty_writev near_end pieces (pos 2)
      ≡ written (put_chars near_end (joined (take 2 pieces))) (length (joined (take 2 pieces))))
    × (tty_writev near_end pieces (negsuc 2) ≡ einval)
tty_writev-joined_example = tty_writev-joined near_end pieces 2 (omega arith)

kernel_init_part0-IsValid_example :
    IsValid (kernel_init_part0 (λ i. i) 160 0)
    × ((kernel_init_part0 (λ i. i) 160 0).x + cols * (kernel_init_part0 (λ i. i) 160 0).y
        ≡ (if ltb (160 + 0 * 256) 2000 then 160 + 0 * 256 else 0))
    × ((kernel_init_part0 (λ i. i) 160 0).vidmem 1500 ≡ (
        if leb (if ltb (160 + 0 * 256) 2000 then 160 + 0 * 256 else 0) 1500 && ltb 1500 1000
        then 0
        else 1500))
kernel_init_part0-IsValid_example = kernel_init_part0-IsValid (λ i. i) 160 0 1500
