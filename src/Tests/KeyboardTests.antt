-- ===== src/Tests/KeyboardTests.antt =====
-- The keyboard: sched/tty.
use myos_io.Base.{ℕ, ◌/◌, ◌%◌, ◌≤◌, ◌<◌, ◌≡◌, ◌↔◌, refl, false, List, [], ◌∷◌, drop_last}
use myos_io.Keyboard.Key.{key_a, key_b, key_back, key_left_shift}
use myos_io.Keyboard.ScanCode.{pressed, released, ps2_set1_map, ps2_set1_map2}
use myos_io.Keyboard.Ascii.{to_ascii, to_ascii_shift, to_ascii_cap, to_ascii_cap_shift}
use myos_io.Keyboard.Translate.{
  Keys, Batch, translate, next_keys, char_of, apply_batch, type_keys, translate-type_keys,
}
use myos_io.Keyboard.Isr.{
  key_code, decode, decode-in_range, write_slot, next_ii, next_oi, times, write_slot-next_oi,
}

abbrev all_up : Keys
all_up = record { keymap = λ _. false; is_cap = false }

abbrev empty : Batch
empty = record { c = []; back_num = 0 }

-- shift down, a, shift up, b, two erasures and a third
abbrev typed : List ℕ
typed =
    pressed key_left_shift
    ∷ pressed key_a
    ∷ released key_left_shift
    ∷ pressed key_b
    ∷ pressed key_back
    ∷ pressed key_back
    ∷ pressed key_back
    ∷ []

typed-translate : (translate all_up empty typed).1 ≡ record { c = []; back_num = 1 }
unfolding translate next_keys char_of to_ascii to_ascii_shift to_ascii_cap to_ascii_cap_shift
    drop_last
typed-translate = refl

translate-type_keys_example :
    apply_batch (b'x' ∷ []) (translate all_up empty typed).1
    ≡ type_keys all_up (apply_batch (b'x' ∷ []) empty) typed
translate-type_keys_example = translate-type_keys typed all_up (b'x' ∷ []) empty

-- 0x1e is the scan code of A
decode_a : decode (λ _. 0x1e) ≡ key_code (pressed key_a)
unfolding decode ps2_set1_map ps2_set1_map2
decode_a = refl

decode-in_range_example : (1 ≤ pressed key_a / 2) × (pressed key_a / 2 < 102)
decode-in_range_example = decode-in_range (λ _. 0x1e) (pressed key_a) decode_a

write_slot-next_oi_example :
    (write_slot (times 3 next_ii) ≡ times 3 next_oi) ↔ (3 % 0x200000 < 65536)
write_slot-next_oi_example = write_slot-next_oi 3
