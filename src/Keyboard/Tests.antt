-- ===== src/Keyboard/Tests.antt =====
-- A keyboard whose cursor stands in the first cell.
use matanos.Base.{
  ℕ, ◌+◌, ◌*◌, ◌<◌, ◌^◌, List, [], ◌∷◌, true, false, ok, replicate, length, length-replicate, ◌≡◌,
  refl, arith,
}
use matanos.Ports.{Ports}
use matanos.Text.Strings.{NonZero}
use matanos.Screen.{get_cursor_offset}
use matanos.Keyboard.{Keys, UserInput, key_event}
use matanos.Keyboard.Lines.{IsLetter, letters, letter_of, key_event-letter}

abbrev Device : Type 0
Device = List (ℕ × ℕ)

abbrev quiet : Ports Device
quiet = record { port_byte_in = λ port s. (0, s); port_byte_out = λ port v s. ((port, v) ∷ s) }

abbrev ignore : UserInput Device
ignore line mem s = ok (mem, s)

abbrev keys : Keys
keys = record { is_shift_pressed = true; is_caps_locked = false; key_buffer = 108 ∷ 0 ∷ 0 ∷ 0 ∷ [] }

abbrev blank : List ℕ
blank = replicate 4000 0

l-NonZero : NonZero (108 ∷ [])
unfolding NonZero
l-NonZero = ((λ e. omega arith), tt)

s-IsLetter : IsLetter 0x1F
unfolding IsLetter
s-IsLetter = (omega arith, (λ e. omega arith), (λ e. omega arith), λ e. omega arith)

at_origin : (get_cursor_offset quiet []).0 < 4000
unfolding get_cursor_offset
at_origin = lt_of_numeral
  where
    lt_of_numeral : (0 * 2 ^ 8 + 0) * 2 < 4000
    lt_of_numeral = omega arith

key_event-letter_example :
    (mem' : List ℕ) × (s' : Device) × (key_event quiet ignore 0x1F keys blank []
      ≡ ok (record keys { key_buffer = 108 ∷ 83 ∷ 0 ∷ 0 ∷ [] }, mem', s'))
    × (length mem' ≡ 4000)
unfolding letter_of letters
key_event-letter_example =
    key_event-letter quiet ignore 0x1F keys (108 ∷ []) 0 (0 ∷ []) blank [] s-IsLetter l-NonZero refl
      (λ e. omega arith) (length-replicate {A = ℕ} 4000 0) at_origin

abbrev full_keys : Keys
full_keys = record { is_shift_pressed = false; is_caps_locked = false; key_buffer = 108 ∷ 0 ∷ [] }

abbrev empty_keys : Keys
empty_keys = record { is_shift_pressed = false; is_caps_locked = false; key_buffer = 0 ∷ 0 ∷ [] }
