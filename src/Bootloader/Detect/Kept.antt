-- ===== src/Bootloader/Detect/Kept.antt =====
-- The entries that are kept.
use myos_io.Base.{
  ℕ, zero, suc, ◌+◌, ◌%◌, ◌<◌, ◌≤◌, ◌≡◌, by_test, not, ◌||◌, List, [], ◌∷◌, leb, ◌==◌, update,
  arith,
}
use myos_io.Mm.Init.{E820Entry}
use myos_io.Bootloader.Detect.{
  Answer, Detected, found, failed, asking, overrun, di_entrys, finish, go_on, detect_loop,
  detect_memory_e820,
}

-- The first n entries are not empty.
abbrev pub Filled : ℕ → (ℕ → E820Entry) → Type 0
Filled zero m = Unit
Filled (suc n) m = Filled n m × (0 < (m n).size)

Filled-update :
    (n i : ℕ) (m : ℕ → E820Entry) (e : E820Entry) → n ≤ i → Filled n m → Filled n (update m i e)
Filled-update zero i m e le h = tt
Filled-update (suc n) i m e le (h, pos_size) =
    (Filled-update n i m e (omega arith) h, ground (arith, le))

-- What is found has at least one and at most `limit` entries, and none of these is empty.
abbrev pub IsKept : ℕ → Detected → Type 0
IsKept limit (found num entrys) = (0 < num) × (num ≤ limit) × Filled num entrys
IsKept limit failed = Unit
IsKept limit asking = Unit
IsKept limit overrun = Unit

Filled-push : (n : ℕ) (m : ℕ → E820Entry) → Filled n m → 0 < (m n).size → Filled (n + 1) m
Filled-push n m h pos_size = let e : n + 1 ≡ suc n = omega arith in rw e (h, pos_size)

finish-IsKept :
    (limit num : ℕ) (m : ℕ → E820Entry) → num ≤ limit → Filled num m → IsKept limit (finish num m)
finish-IsKept limit num m le h =
    by_test (IsKept limit) (num == 0) (λ t. tt) (λ t. (ground (arith, t), le, h))

go_on-IsKept :
    (limit : ℕ) (r : Answer) (num : ℕ) (m : ℕ → E820Entry) (again : Detected)
    → num ≤ limit
    → Filled num m
    → (num < limit → IsKept limit again)
    → IsKept limit (go_on limit r num m again)
go_on-IsKept limit r num m again le h k =
    by_test (IsKept limit) (r.ebx == 0) (λ t. finish-IsKept limit num m le h)
      (λ t. by_test (IsKept limit) (leb limit num) (λ u. tt) (λ u. k (ground (arith, u))))

size_kept :
    (m : ℕ → E820Entry) (i : ℕ)
    → 0 < (m i).size
    → 0 < (update m i (record (m i) { extend = 1 }) i).size
size_kept m i h = ground (arith, h)

detect_loop-IsKept :
    (limit : ℕ) (rs : List Answer) (m : ℕ → E820Entry) (num slot : ℕ)
    → num < limit
    → num ≤ slot
    → Filled num m
    → IsKept limit (detect_loop limit rs m num slot)
unfolding detect_loop
detect_loop-IsKept limit [] m num slot lt le h = tt
detect_loop-IsKept limit (r ∷ rs) m num slot lt le h =
    let written = update m slot r.entry in
    let e = written num in
    let stays = Filled-update num slot m r.entry le h in
    let skip =
      go_on-IsKept limit r num written (detect_loop limit rs written num (slot + 1))
        (omega (arith, lt)) stays
        (λ room.
          detect_loop-IsKept limit rs written num (slot + 1) room (omega (arith, le)) stays) in
    let keep : (m' : ℕ → E820Entry)
        → Filled (num + 1) m'
        → IsKept limit (go_on limit r (num + 1) m' (detect_loop limit rs m' (num + 1) (slot + 1))) =
      λ m' more.
        go_on-IsKept limit r (num + 1) m' (detect_loop limit rs m' (num + 1) (slot + 1))
          (omega (arith, lt)) more
          (λ room.
            detect_loop-IsKept limit rs m' (num + 1) (slot + 1) room (omega (arith, le)) more) in
    by_test (IsKept limit) (leb limit slot || leb di_entrys slot) (λ o. tt)
      λ o.
        by_test (IsKept limit) r.carry
          (λ t. finish-IsKept limit num written (omega (arith, lt)) stays)
          λ t.
            by_test (IsKept limit) (not (r.eax == 0x534d_4150)) (λ u. tt)
              λ u.
                by_test (IsKept limit) (r.cl == 20)
                  (λ v.
                    by_test (IsKept limit) (e.size == 0) (λ w. skip)
                      (λ w. keep (update written num (record e { extend = 1 })) (
                        Filled-push num (update written num (record e { extend = 1 }))
                          (Filled-update num num written (record e { extend = 1 }) (omega arith)
                            stays)
                          (size_kept written num (ground (arith, w))))))
                  (λ v.
                    by_test (IsKept limit) (r.cl == 24)
                      (λ w.
                        by_test (IsKept limit) (e.extend % 2 == 0 || e.size == 0) (λ x. skip)
                          (λ x. keep written (Filled-push num written stays (ground (arith, x)))))
                      (λ w. tt))

pub detect_memory_e820-IsKept :
    (entrys : ℕ → E820Entry) (limit : ℕ) (rs : List Answer)
    → 0 < limit
    → IsKept limit (detect_memory_e820 entrys limit rs)
unfolding detect_memory_e820
detect_memory_e820-IsKept entrys limit rs h =
    detect_loop-IsKept limit rs entrys 0 0 h (omega arith) tt
