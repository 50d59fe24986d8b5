-- ===== src/Screen/Bounds.antt =====
-- Printing by drivers/screen.c stays on the screen.
use matanos.Base.{
  ℕ, zero, suc, ◌+◌, ◌-◌, ◌*◌, ◌/◌, ◌<◌, ◌≤◌, ◌==◌, ltb, lt→ltb, le→ltb, ltb→lt, ltb→le, Bool-cases,
  if◌then◌else◌, inl, inr, List, [], ◌∷◌, length, length-set, set, Run, ok, write-set, ◌≡◌, refl,
  ap, ◌∙◌, arith,
}
use matanos.Ports.{Ports}
use matanos.Text.Strings.{NonZero}
use matanos.Base.{◌++◌}
use matanos.Screen.{
  ℤ, pos, diff, at_least, plus_part, minus_part, get_offset, get_offset_row, get_offset_col,
  set_cursor_offset, settle, put_char, write_at, print_char, print_from, kprint_at, kprint,
  get_cursor_offset,
}
use matanos.Screen.Scroll.{scroll_lem}

-- A result of printing: the offset of a cell of the screen, which is where the cursor is set, and
-- video memory of the same size.
unfoldable pub OnScreen : {S : Type 0} → Run (ℤ × List ℕ × S) → Type 0
OnScreen {S} r =
    (o : ℕ) × (mem : List ℕ) × (s : S) × (r ≡ ok (pos o, mem, s)) × (length mem ≡ 4000) × (o < 4000)

diff_pos : (a b : ℕ) → b ≤ a → diff a b ≡ pos (a - b)
unfolding diff
diff_pos a b h = rw (le→ltb a b h) refl

get_offset-pos : (col row : ℕ) → get_offset (pos col) (pos row) ≡ pos (2 * (row * 80 + col))
unfolding get_offset plus_part minus_part
get_offset-pos col row = diff_pos (2 * (row * 80 + col)) 0 (omega arith) ∙ ap pos (omega arith)

-- The offset of the next line.
next_line :
    (o : ℕ)
    → get_offset
        (pos 0)
        (diff (plus_part (get_offset_row (pos o)) + 1) (minus_part (get_offset_row (pos o))))
      ≡ pos (2 * ((o / 160 + 1) * 80))
unfolding get_offset_row plus_part minus_part
next_line o =
    rw (diff_pos (o / 160 + 1) 0 (omega arith), get_offset-pos 0 (o / 160 + 1 - 0))
      (ap pos (omega arith))

module _ {S : Type 0} (p : Ports S) where
  settle_lem :
      (o : ℕ) (mem : List ℕ) (s : S)
      → length mem ≡ 4000
      → o < 4160
      → OnScreen (settle p (pos o) mem s)
  unfolding settle at_least OnScreen plus_part minus_part
  settle_lem o mem s len h = elim (Bool-cases (ltb o 4000)) [
    | inl lt ↦ (o, mem, set_cursor_offset p (pos o) s, rw lt refl, len, ltb→lt o 4000 lt)
    | inr ge ↦
        let (mem', run, len', moved, blank) = scroll_lem mem len in
        (
          o - 160,
          mem',
          set_cursor_offset p (pos (o - 160)) s,
          rw (ge, run, diff_pos o 160 (omega (arith, ltb→le o 4000 ge))) refl,
          len',
          omega arith,
        )
  ]

  put_char_lem :
      (c o attr : ℕ) (mem : List ℕ) (s : S)
      → length mem ≡ 4000
      → o + 1 < 4000
      → OnScreen (put_char p c (pos o) attr mem s)
  unfolding put_char write_at plus_part minus_part
  put_char_lem c o attr mem s len h = elim (Bool-cases (c == 10)) [
    | inl e ↦ rw (e, next_line o) (settle_lem (2 * ((o / 160 + 1) * 80)) mem s len (omega arith))
    | inr n ↦
        let one = set mem o c in
        let len1 = length-set mem o c in
        let two = set one (o + 1) attr in
        let len2 = length-set one (o + 1) attr in
        let next : o + 1 - 0 ≡ o + 1 = omega arith in
        let after : o + 2 - 0 ≡ o + 2 = omega arith in
        rw
          (
            n,
            write-set mem o c (omega arith),
            diff_pos (o + 1) 0 (omega arith),
            next,
            write-set one (o + 1) attr (omega arith),
            diff_pos (o + 2) 0 (omega arith),
            after,
          )
          (settle_lem (o + 2) two s (omega arith) (omega arith))
  ]

  -- At a cell of the screen, with video memory of 4000 bytes, `print_char` returns, its writes
  -- stay inside that memory, and so does the offset it returns.
  pub print_char_lem :
      (c col row attr : ℕ) (mem : List ℕ) (s : S)
      → length mem ≡ 4000
      → col < 80
      → row < 25
      → OnScreen (print_char p c (pos col) (pos row) attr mem s)
  unfolding print_char at_least
  print_char_lem c col row attr mem s len hc hr =
      rw
        (
          lt→ltb col 80 hc,
          lt→ltb row 25 hr,
          le→ltb col 0 (omega arith),
          le→ltb row 0 (omega arith),
          get_offset-pos col row,
        )
        (put_char_lem c (2 * (row * 80 + col)) (if attr == 0 then 0x0f else attr) mem s len
          (omega arith))

  print_from_lem :
      (cs rest : List ℕ) (col row : ℕ) (mem : List ℕ) (s : S)
      → NonZero cs
      → length mem ≡ 4000
      → col < 80
      → row < 25
      → (mem' : List ℕ) × (s' : S) × (print_from p (cs ++ (0 ∷ rest)) (pos col) (pos row) mem s
          ≡ ok (mem', s'))
        × (length mem' ≡ 4000)
  unfolding print_from NonZero OnScreen get_offset_row get_offset_col
  print_from_lem [] rest col row mem s nz len hc hr = (mem, s, refl, len)
  print_from_lem (zero ∷ cs) rest col row mem s (nz, nzs) len hc hr = absurd (nz refl)
  print_from_lem (suc c ∷ cs) rest col row mem s (nz, nzs) len hc hr =
      let (o, mem', s', run, len', inside) = print_char_lem (suc c) col row 0x0f mem s len hc hr in
      let (mem'', s'', run', len'') =
        print_from_lem cs rest ((o - o / (2 * 80) * 2 * 80) / 2) (o / (2 * 80)) mem' s' nzs len'
          (omega arith) (omega arith) in
      (mem'', s'', rw run run', len'')

  -- From a cell of the screen on, with video memory of 4000 bytes, `kprint_at` returns for
  -- every string, no write lies outside that memory, and its size stays.
  pub kprint_at_lem :
      (cs rest : List ℕ) (col row : ℕ) (mem : List ℕ) (s : S)
      → NonZero cs
      → length mem ≡ 4000
      → col < 80
      → row < 25
      → (mem' : List ℕ) × (s' : S) × (kprint_at p (cs ++ (0 ∷ rest)) (pos col) (pos row) mem s
          ≡ ok (mem', s'))
        × (length mem' ≡ 4000)
  unfolding kprint_at at_least
  kprint_at_lem cs rest col row mem s nz len hc hr =
      rw (le→ltb col 0 (omega arith), le→ltb row 0 (omega arith))
        (print_from_lem cs rest col row mem s nz len hc hr)

  -- The same for `kprint` if the cursor is on the screen.
  pub kprint_lem :
      (cs rest mem : List ℕ) (s : S)
      → NonZero cs
      → length mem ≡ 4000
      → (get_cursor_offset p s).0 < 4000
      → (mem' : List ℕ) × (s' : S) × (kprint p (cs ++ (0 ∷ rest)) mem s ≡ ok (mem', s'))
        × (length mem' ≡ 4000)
  unfolding kprint kprint_at at_least get_offset_row get_offset_col
  kprint_lem cs rest mem s nz len h =
      let o = (get_cursor_offset p s).0 in
      print_from_lem cs rest ((o - o / (2 * 80) * 2 * 80) / 2) (o / (2 * 80)) mem
        (get_cursor_offset p s).1 nz len (omega arith) (omega arith)
