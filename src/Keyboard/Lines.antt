-- ===== src/Keyboard/Lines.antt =====
-- The line that the keyboard of drivers/keyboard.c collects.
use matanos.Base.{
  ℕ, ◌+◌, ◌<◌, ne→==, lt→ltb, le→ltb, Bool, true, false, not, List, [], ◌∷◌, ◌++◌, length, get_or,
  if◌then◌else◌, ok, fault, read, read-get_or, ◌≡◌, refl, ap, ◌∙◌, arith,
}
use matanos.Ports.{Ports}
use matanos.Text.{append_char}
use matanos.Text.Strings.{NonZero, append_char_lem, backspace_lem}
use matanos.Screen.{get_cursor_offset}
use matanos.Screen.Bounds.{kprint_lem}
use matanos.Keyboard.{
  Keys, UserInput, ascii_table, sc_ascii, sc_ascii_shift, xor, key_event, press_key, release_key,
  type_letter, type_backspace,
}

-- Codes of keys that type a letter.
unfoldable pub IsLetter : ℕ → Type 0
IsLetter code = (code < 58) × (¬ (code ≡ 0x2A)) × (¬ (code ≡ 0x0E)) × (¬ (code ≡ 0x1C))

-- The table of letters for caps lock and shift: the capitals if exactly one of them is on.
unfoldable pub letters : (caps shift : Bool) → List ℕ
letters true true = sc_ascii
letters true false = sc_ascii_shift
letters false true = sc_ascii_shift
letters false false = sc_ascii

unfoldable pub letter_of : Keys → ℕ → ℕ
letter_of k code = get_or (letters k.is_caps_locked k.is_shift_pressed) code 0

length-letters : (caps shift : Bool) → length (letters caps shift) ≡ 60
unfolding letters
length-letters true true = refl
length-letters true false = refl
length-letters false true = refl
length-letters false false = refl

ascii_table-letters :
    (caps shift : Bool) → (if xor caps shift then sc_ascii_shift else sc_ascii) ≡ letters caps shift
unfolding letters xor
ascii_table-letters true true = refl
ascii_table-letters true false = refl
ascii_table-letters false true = refl
ascii_table-letters false false = refl

module _ {S : Type 0} (p : Ports S) (user_input : UserInput S) where
  letter_read :
      (k : Keys) (code : ℕ) → code < 58 → read (ascii_table k) code ≡ ok (letter_of k code)
  unfolding ascii_table letter_of xor
  letter_read k code h =
      let caps = k.is_caps_locked in
      let shift = k.is_shift_pressed in
      ap (λ (l : List ℕ). read l code) (ascii_table-letters caps shift)
      ∙ read-get_or (letters caps shift) code 0 (omega (arith, length-letters caps shift))

  pressed :
      (code : ℕ) (k : Keys) (mem : List ℕ) (s : S)
      → IsLetter code
      → key_event p user_input code k mem s ≡ type_letter p user_input code k mem s
  unfolding IsLetter key_event press_key
  pressed code k mem s (lt, shift, back, enter) =
      rw
        (
          le→ltb (0x80 + 58) code (omega arith),
          lt→ltb code 0x80 (omega arith),
          le→ltb 58 code (omega arith),
          ne→== code 0x2A shift,
          ne→== code 0x3A (λ e. omega arith),
          ne→== code 0x0E back,
          ne→== code 0x1C enter,
        )
        refl

  -- With the cursor on the screen, video memory of 4000 bytes, room for one more byte in the
  -- line buffer, and a key whose letter is not the terminator, pressing the key returns. The
  -- letter is that of `sc_ascii_shift` if exactly one of shift and caps lock is on, and else that
  -- of `sc_ascii`. It is put behind the line, and the modifiers stay.
  pub key_event-letter :
      (code : ℕ) (k : Keys) (xs : List ℕ) (y : ℕ) (rest mem : List ℕ) (s : S)
      → IsLetter code
      → NonZero xs
      → k.key_buffer ≡ xs ++ (0 ∷ y ∷ rest)
      → ¬ (letter_of k code ≡ 0)
      → length mem ≡ 4000
      → (get_cursor_offset p s).0 < 4000
      → (mem' : List ℕ) × (s' : S) × (key_event p user_input code k mem s
          ≡ ok (record k { key_buffer = (xs ++ (letter_of k code ∷ [])) ++ (0 ∷ rest) }, mem', s'))
        × (length mem' ≡ 4000)
  unfolding type_letter IsLetter NonZero
  key_event-letter code k xs y rest mem s letter nz line visible len cursor =
      let (room, full) = append_char_lem xs (letter_of k code) nz in
      let (mem', s', run, len') =
        kprint_lem p (letter_of k code ∷ []) [] mem s (visible, tt) len cursor in
      (
        mem',
        s',
        rw
            (
              pressed code k mem s letter,
              letter_read k code letter.0,
              ap (λ (b : List ℕ). append_char b (letter_of k code)) line ∙ room y rest,
              run,
            )
            refl,
        len',
      )

  -- A letter key on a line whose terminator is the last byte of the buffer writes outside the
  -- line buffer.
  key_event-full :
      (code : ℕ) (k : Keys) (xs mem : List ℕ) (s : S)
      → IsLetter code
      → NonZero xs
      → k.key_buffer ≡ xs ++ (0 ∷ [])
      → key_event p user_input code k mem s ≡ fault
  unfolding type_letter IsLetter
  key_event-full code k xs mem s letter nz line =
      let (room, full) = append_char_lem xs (letter_of k code) nz in
      rw
        (
          pressed code k mem s letter,
          letter_read k code letter.0,
          ap (λ (b : List ℕ). append_char b (letter_of k code)) line ∙ full,
        )
        refl

  -- Backspace on an empty line writes outside the line buffer.
  key_event-backspace_empty :
      (k : Keys) (rest mem : List ℕ) (s : S)
      → k.key_buffer ≡ 0 ∷ rest
      → key_event p user_input 0x0E k mem s ≡ fault
  unfolding key_event press_key type_backspace
  key_event-backspace_empty k rest mem s line =
      let (some_left, empty) = backspace_lem rest in rw (line, empty) refl

  -- The codes of shift, its release and caps lock change the modifiers alone.
  pub key_event-modifiers :
      (k : Keys) (mem : List ℕ) (s : S)
      → (key_event p user_input 0x2A k mem s ≡ ok (record k { is_shift_pressed = true }, mem, s))
        × (key_event p user_input 0xAA k mem s ≡ ok (record k { is_shift_pressed = false }, mem, s))
        × (key_event p user_input 0x3A k mem s
            ≡ ok (record k { is_caps_locked = not k.is_caps_locked }, mem, s))
        × ((code : ℕ) → 0x80 + 58 < code → key_event p user_input code k mem s ≡ ok (k, mem, s))
  unfolding key_event press_key release_key
  key_event-modifiers k mem s = (refl, refl, refl, λ code h. rw (lt→ltb (0x80 + 58) code h) refl)
