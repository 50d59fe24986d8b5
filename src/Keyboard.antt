-- ===== src/Keyboard.antt =====
-- The keyboard interrupt of drivers/keyboard.c: modifier keys, the line buffer, and what it prints.
pub mod Lines
mod Tests
use matanos.Base.{
  ℕ, zero, suc, ◌+◌, ◌-◌, ◌*◌, ◌/◌, ◌%◌, ◌^◌, ◌==◌, ltb, Bool, true, false, not, List, [], ◌∷◌,
  length, if◌then◌else◌, Run, ok, fault, ◌>>=◌, ◌>>◌, read, write,
}
use matanos.Ports.{Ports}
use matanos.Text.{append_char, backspace}
use matanos.Screen.{kprint, kprint_backspace}

-- `sc_ascii_shift` and `sc_ascii`.
abbrev pub sc_ascii_shift : List ℕ
sc_ascii_shift =
    63 ∷ 63 ∷ 33 ∷ 64 ∷ 35 ∷ 36 ∷ 37 ∷ 94 ∷ 38 ∷ 42 ∷ 40 ∷ 41 ∷ 95 ∷ 43 ∷ 63 ∷ 63 ∷ 81 ∷ 87 ∷ 69
    ∷ 82 ∷ 84 ∷ 89 ∷ 85 ∷ 73 ∷ 79 ∷ 80 ∷ 91 ∷ 93 ∷ 63 ∷ 63 ∷ 65 ∷ 83 ∷ 68 ∷ 70 ∷ 71 ∷ 72 ∷ 74 ∷ 75
    ∷ 76 ∷ 58 ∷ 34 ∷ 96 ∷ 63 ∷ 92 ∷ 90 ∷ 88 ∷ 67 ∷ 86 ∷ 66 ∷ 78 ∷ 77 ∷ 60 ∷ 62 ∷ 63 ∷ 63 ∷ 63 ∷ 63
    ∷ 32 ∷ 63 ∷ 63 ∷ []

abbrev pub sc_ascii : List ℕ
sc_ascii =
    63 ∷ 63 ∷ 49 ∷ 50 ∷ 51 ∷ 52 ∷ 53 ∷ 54 ∷ 55 ∷ 56 ∷ 57 ∷ 48 ∷ 45 ∷ 61 ∷ 63 ∷ 63 ∷ 113 ∷ 119 ∷ 101
    ∷ 114 ∷ 116 ∷ 121 ∷ 117 ∷ 105 ∷ 111 ∷ 112 ∷ 123 ∷ 125 ∷ 63 ∷ 63 ∷ 97 ∷ 115 ∷ 100 ∷ 102 ∷ 103
    ∷ 104 ∷ 106 ∷ 107 ∷ 108 ∷ 59 ∷ 39 ∷ 96 ∷ 63 ∷ 92 ∷ 122 ∷ 120 ∷ 99 ∷ 118 ∷ 98 ∷ 110 ∷ 109 ∷ 44
    ∷ 46 ∷ 47 ∷ 63 ∷ 63 ∷ 63 ∷ 32 ∷ 63 ∷ 63 ∷ []

-- The globals `is_shift_pressed`, `is_caps_locked` and `key_buffer`.
pub record Keys : Type 0 where
  pub is_shift_pressed : Bool
  pub is_caps_locked : Bool
  pub key_buffer : List ℕ

unfoldable pub xor : Bool → Bool → Bool
xor true b = not b
xor false b = b

-- The table that the two modifiers choose.
unfoldable pub ascii_table : Keys → List ℕ
unfolding xor
ascii_table k = if xor k.is_caps_locked k.is_shift_pressed then sc_ascii_shift else sc_ascii

-- `user_input` of kernel/shell.c, which the Enter key calls: it gets the line, the video memory
-- and the devices.
abbrev pub UserInput : Type 0 → Type 0
UserInput S = List ℕ → List ℕ → S → Run (List ℕ × S)

module _ {S : Type 0} (p : Ports S) (user_input : UserInput S) where
  -- A key that is released: only the shift key matters.
  unfoldable pub release_key : ℕ → Keys → Keys
  release_key scancode k = if scancode == 0x2A then record k { is_shift_pressed = false } else k

  -- A key that is pressed, apart from the modifiers, Backspace and Enter.
  unfoldable pub type_letter : ℕ → Keys → List ℕ → S → Run (Keys × List ℕ × S)
  type_letter scancode k mem s = do
    letter ← read (ascii_table k) scancode
    line ← append_char k.key_buffer letter
    (mem', s') ← kprint p (letter ∷ 0 ∷ []) mem s
    ok (record k { key_buffer = line }, mem', s')

  unfoldable pub type_backspace : Keys → List ℕ → S → Run (Keys × List ℕ × S)
  type_backspace k mem s = do
    line ← backspace k.key_buffer
    (mem', s') ← kprint_backspace p mem s
    ok (record k { key_buffer = line }, mem', s')

  unfoldable pub type_enter : Keys → List ℕ → S → Run (Keys × List ℕ × S)
  type_enter k mem s = do
    (mem1, s1) ← kprint p (10 ∷ 0 ∷ []) mem s
    (mem2, s2) ← user_input k.key_buffer mem1 s1
    line ← write k.key_buffer 0 0
    ok (record k { key_buffer = line }, mem2, s2)

  unfoldable pub press_key : ℕ → Keys → List ℕ → S → Run (Keys × List ℕ × S)
  press_key scancode k mem s =
      if scancode == 0x2A
      then ok (record k { is_shift_pressed = true }, mem, s)
      else if scancode == 0x3A
      then ok (record k { is_caps_locked = not k.is_caps_locked }, mem, s)
      else if scancode == 0x0E
      then type_backspace k mem s
      else if scancode == 0x1C
      then type_enter k mem s
      else type_letter scancode k mem s

  -- `keyboard_callback` on the scan code it has read.
  unfoldable pub key_event : ℕ → Keys → List ℕ → S → Run (Keys × List ℕ × S)
  key_event scancode k mem s =
      if ltb (0x80 + 58) scancode
      then ok (k, mem, s)
      else if not (ltb scancode 0x80)
      then ok (release_key (scancode - 0x80) k, mem, s)
      else if ltb 58 scancode
      then ok (k, mem, s)
      else press_key scancode k mem s

  -- `keyboard_callback`.
  unfoldable pub keyboard_callback : Keys → List ℕ → S → Run (Keys × List ℕ × S)
  keyboard_callback k mem s =
      let (scancode, s') = p.port_byte_in 0x60 s in key_event scancode k mem s'
