-- ===== src/Keyboard/Layout.antt =====
-- How the four character tables of keyboard_thread_c.c relate.
use myos_io.Base.{
  ℕ, ◌-◌, ◌<◌, ◌≡◌, refl, Bool, true, ◌&&◌, arith, leb, ◌==◌, if◌then◌else◌, passes, passes_at,
}
use myos_io.Keyboard.Ascii.{to_ascii, to_ascii_shift, to_ascii_cap, to_ascii_cap_shift}

abbrev pub is_lower : ℕ → Bool
is_lower c = leb b'a' c && leb c b'z'

-- The upper case of a lower-case letter, and any other character itself.
abbrev pub upper : ℕ → ℕ
upper c = if is_lower c then c - 32 else c

cap_checked :
    passes
      (λ k.
        to_ascii_cap k == upper (to_ascii k)
        && to_ascii_cap_shift k == (if is_lower (to_ascii k) then to_ascii k else to_ascii_shift k)
        && (if is_lower (to_ascii k) then to_ascii_shift k == upper (to_ascii k) else true))
      102
    ≡ true
unfolding passes to_ascii to_ascii_shift to_ascii_cap to_ascii_cap_shift
cap_checked = refl

-- For every key, the caps lock acts on letters only: it turns a lower-case letter into its upper
-- case, as the shift key does, and the two together give the lower case back; a key that types no
-- letter types with the caps lock what it types without, shifted or not.
pub to_ascii_cap-upper :
    (k : ℕ)
    → k < 102
    → (to_ascii_cap k ≡ upper (to_ascii k))
      × (to_ascii_cap_shift k ≡ (if is_lower (to_ascii k) then to_ascii k else to_ascii_shift k))
      × (is_lower (to_ascii k) ≡ true → to_ascii_shift k ≡ upper (to_ascii k))
to_ascii_cap-upper k h =
    let checked = passes_at _ 102 k cap_checked h in (ground arith, ground arith, ground arith)
