-- ===== src/Keyboard/Translate.antt =====
-- The loop of keyboard_thread that turns a batch of key codes into characters, preceded by a number
-- of erasures (keyboard_thread_c.c). `keymap` holds which keys are down, `is_cap` the caps lock.
use mathlib.Core.List.{append-nil, append_assoc}
use myos_io.Base.{
  ℕ, zero, suc, ◌+◌, ◌/◌, ◌%◌, ◌<◌, ◌≡◌, refl, sym, ap, ◌∙◌, Bool, true, false, not, ◌&&◌, ◌||◌,
  List, [], ◌∷◌, ◌++◌, arith, ◌==◌, if◌then◌else◌, length, drop_last, drop_last-append,
}
use myos_io.Keyboard.Key.{key_cap, key_back, key_left_shift, key_right_shift}
use myos_io.Keyboard.ScanCode.{pressed, released}
use myos_io.Keyboard.Ascii.{to_ascii, to_ascii_shift, to_ascii_cap, to_ascii_cap_shift}

-- The two static variables of the thread.
pub record Keys : Type 0 where
  pub keymap : ℕ → Bool
  pub is_cap : Bool

-- c[0 .. c_num) and back_num
pub record Batch : Type 0 where
  pub c : List ℕ
  pub back_num : ℕ

-- key_codes[i] >> 1, (key_codes[i] & 1) == 1
abbrev pub key_of : ℕ → ℕ
key_of code = code / 2

abbrev pub is_press : ℕ → Bool
is_press code = code % 2 == 1

abbrev pub set_key : (ℕ → Bool) → ℕ → Bool → ℕ → Bool
set_key keymap key down k = if key == k then down else keymap k

-- The caps lock flips when its key goes down, and not while it repeats.
unfoldable pub next_keys : Keys → ℕ → Keys
next_keys s code =
    let key = key_of code in
    record {
      keymap = set_key s.keymap key (is_press code);
      is_cap =
          if key == key_cap && is_press code && not (s.keymap key_cap)
          then not s.is_cap
          else s.is_cap;
    }

abbrev pub is_shift : Keys → Bool
is_shift s = s.keymap key_left_shift || s.keymap key_right_shift

unfoldable pub char_of : Keys → ℕ → ℕ
char_of s key =
    if s.is_cap && is_shift s
    then to_ascii_cap_shift key
    else if not s.is_cap && is_shift s
    then to_ascii_shift key
    else if s.is_cap && not (is_shift s)
    then to_ascii_cap key
    else to_ascii key

-- `if (c_num > 0) --c_num; else ++back_num;`
unfoldable pub backspace : Batch → Batch
backspace b =
    if length b.c == 0
    then record b { back_num = b.back_num + 1 }
    else record b { c = drop_last b.c }

-- One round of the loop: the new keymap and caps lock, and what the key adds to the batch.
unfoldable pub round : Keys → Batch → ℕ → Batch
unfolding backspace
round s b code =
    let key = key_of code in
    let temp_c = char_of (next_keys s code) key in
    if not (is_press code)
    then b
    else if key == key_back
    then backspace b
    else if temp_c == 0
    then b
    else record b { c = b.c ++ temp_c ∷ [] }

unfoldable pub translate : Keys → Batch → List ℕ → Keys × Batch
unfolding round
translate s b [] = (s, b)
translate s b (code ∷ codes) = translate (next_keys s code) (round s b code) codes

-- What a key does to the line that is being typed, if anything.
pub data Edit : Type 0 where
  keep : Edit
  erase : Edit
  type_char : ℕ → Edit

pub edit_of : Keys → ℕ → Edit
edit_of s code =
    let key = key_of code in
    let typed = char_of (next_keys s code) key in
    if not (is_press code)
    then keep
    else if key == key_back
    then erase
    else if typed == 0
    then keep
    else type_char typed

abbrev pub edit : List ℕ → Edit → List ℕ
edit line keep = line
edit line erase = drop_last line
edit line (type_char x) = line ++ x ∷ []

-- The keys one by one, each at once on the line.
pub type_keys : Keys → List ℕ → List ℕ → List ℕ
unfolding edit_of
type_keys s line [] = line
type_keys s line (code ∷ codes) = type_keys (next_keys s code) (edit line (edit_of s code)) codes

pub erase_n : ℕ → List ℕ → List ℕ
erase_n zero line = line
erase_n (suc n) line = drop_last (erase_n n line)

-- A batch as one change of a line: first the erasures, then the characters.
pub apply_batch : List ℕ → Batch → List ℕ
unfolding erase_n
apply_batch line b = erase_n b.back_num line ++ b.c

backspace-erase :
    (line : List ℕ) (c : List ℕ) (n : ℕ)
    → apply_batch line (backspace (record { c = c; back_num = n }))
      ≡ drop_last (apply_batch line (record { c = c; back_num = n }))
unfolding apply_batch backspace
backspace-erase line [] n =
    let e : n + 1 ≡ suc n = omega arith in
    append-nil _ ∙ ap (λ k. erase_n k line) e ∙ ap drop_last (sym (append-nil (erase_n n line)))
backspace-erase line (x ∷ c) n =
    let some_left : (suc (length c) == 0) ≡ false = ground arith in
    rw some_left (sym (drop_last-append (erase_n n line) x c))

type-append :
    (line : List ℕ) (b : Batch) (x : ℕ)
    → apply_batch line (record b { c = b.c ++ x ∷ [] }) ≡ apply_batch line b ++ x ∷ []
unfolding apply_batch
type-append line b x = sym (append_assoc (erase_n b.back_num line) b.c (x ∷ []))

-- One key: on the batch that is then applied, or on the line itself.
round-edit :
    (s : Keys) (line : List ℕ) (b : Batch) (code : ℕ)
    → apply_batch line (round s b code) ≡ edit (apply_batch line b) (edit_of s code)
unfolding round edit_of
round-edit s line b code =
    by_case (not (is_press code)) (key_of code == key_back)
      (char_of (next_keys s code) (key_of code) == 0)
  where
    typed : ℕ
    typed = char_of (next_keys s code) (key_of code)

    by_case :
        (idle back blank : Bool)
        → apply_batch line (
            if idle
            then b
            else if back
            then backspace b
            else if blank
            then b
            else record b { c = b.c ++ typed ∷ [] })
          ≡ edit (apply_batch line b) (
              if idle
              then keep
              else if back
              then erase
              else if blank
              then keep
              else type_char typed)
    by_case true back blank = refl
    by_case false true blank = backspace-erase line b.c b.back_num
    by_case false false true = refl
    by_case false false false = type-append line b typed

-- Collecting a batch and then applying it to a line, erasures first, gives what the keys give one
-- by one on that line, whatever the keyboard's state and the batch collected before.
pub translate-type_keys :
    (codes : List ℕ) (s : Keys) (line : List ℕ) (b : Batch)
    → apply_batch line (translate s b codes).1 ≡ type_keys s (apply_batch line b) codes
unfolding translate type_keys
translate-type_keys [] s line b = refl
translate-type_keys (code ∷ codes) s line b =
    translate-type_keys codes (next_keys s code) line (round s b code)
    ∙ ap (λ l. type_keys (next_keys s code) l codes) (round-edit s line b code)

-- A key that goes down and up again leaves every key's state as if it were up, and only the caps
-- lock key changes the caps lock, if it was not already down.
pub next_keys_tap :
    (s : Keys) (key k : ℕ)
    → key < 0x8000
    → ((next_keys (next_keys s (pressed key)) (released key)).keymap k
        ≡ (if key == k then false else s.keymap k))
      × ((next_keys (next_keys s (pressed key)) (released key)).is_cap
          ≡ (if key == key_cap && not (s.keymap key_cap) then not s.is_cap else s.is_cap))
unfolding next_keys
next_keys_tap s key k h =
    let down : pressed key / 2 ≡ key = omega arith in
    let up : released key / 2 ≡ key = omega arith in
    let odd : pressed key % 2 ≡ 1 = omega arith in
    let even : released key % 2 ≡ 0 = omega arith in
    rw (down, up, odd, even) (ground arith, ground arith)
