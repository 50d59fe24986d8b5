-- ===== src/Screen.antt =====
-- The text screen of drivers/screen.c: the video memory as a list of bytes from 0xb8000 on, and
-- the cursor behind the ports 0x3d4 and 0x3d5.
pub mod Scroll
pub mod Cursor
pub mod Bounds
mod Tests
use matanos.Base.{
  ℕ, zero, suc, ◌+◌, ◌-◌, ◌*◌, ◌/◌, ◌%◌, ◌^◌, ◌==◌, ltb, Bool, true, false, not, ◌&&◌, ◌||◌, List,
  [], ◌∷◌, length, if◌then◌else◌, u8, Run, ok, fault, out_of_fuel, ◌>>=◌, ◌>>◌, read, write,
}
use matanos.Ports.{Ports}
use matanos.Text.{memcpy, memset}

-- An `int`: columns, rows and offsets may be negative.
pub data ℤ : Type 0 where
  pos : ℕ → ℤ
  negsuc : ℕ → ℤ

-- `a - b` as an `int`.
unfoldable pub diff : ℕ → ℕ → ℤ
diff a b = if ltb a b then negsuc (b - a - 1) else pos (a - b)

-- The positive and the negative part.
unfoldable pub plus_part : ℤ → ℕ
plus_part (pos n) = n
plus_part (negsuc n) = 0

unfoldable pub minus_part : ℤ → ℕ
minus_part (pos n) = 0
minus_part (negsuc n) = suc n

-- `a <= z` for a natural number.
unfoldable pub at_least : ℕ → ℤ → Bool
at_least a (pos n) = not (ltb n a)
at_least a (negsuc n) = false

unfoldable pub get_offset : (col row : ℤ) → ℤ
unfolding plus_part minus_part diff
get_offset col row =
    diff (2 * (plus_part row * 80 + plus_part col)) (2 * (minus_part row * 80 + minus_part col))

unfoldable pub get_offset_row : ℤ → ℤ
unfolding diff
get_offset_row (pos n) = pos (n / (2 * 80))
get_offset_row (negsuc n) = diff 0 (suc n / (2 * 80))

unfoldable pub get_offset_col : ℤ → ℤ
unfolding diff
get_offset_col (pos n) = pos ((n - n / (2 * 80) * 2 * 80) / 2)
get_offset_col (negsuc n) = diff 0 ((suc n - suc n / (2 * 80) * 2 * 80) / 2)

-- `get_cursor_offset`.
unfoldable pub get_cursor_offset : {S : Type 0} → Ports S → S → ℕ × S
get_cursor_offset p s =
    let (high, s1) = p.port_byte_in 0x3d5 (p.port_byte_out 0x3d4 14 s) in
    let (low, s2) = p.port_byte_in 0x3d5 (p.port_byte_out 0x3d4 15 s1) in
    ((high * 2 ^ 8 + low) * 2, s2)

-- The cell that `set_cursor_offset` computes, as 16 bits: the quotient is rounded towards zero.
unfoldable pub cursor_word : ℤ → ℕ
cursor_word (pos n) = n / 2 % 2 ^ 16
cursor_word (negsuc n) = (2 ^ 16 - suc n / 2 % 2 ^ 16) % 2 ^ 16

-- `set_cursor_offset`.
unfoldable pub set_cursor_offset : {S : Type 0} → Ports S → ℤ → S → S
unfolding cursor_word
set_cursor_offset p offset s =
    let w = cursor_word offset in
    let s1 = p.port_byte_out 0x3d5 (w / 2 ^ 8) (p.port_byte_out 0x3d4 14 s) in
    p.port_byte_out 0x3d5 (w % 2 ^ 8) (p.port_byte_out 0x3d4 15 s1)

-- `vidmem[z] = v`.
unfoldable pub write_at : List ℕ → ℤ → ℕ → Run (List ℕ)
write_at mem (pos n) v = write mem n v
write_at mem (negsuc n) v = fault

-- The rows `i`, `i + 1`, ... move up by one.
unfoldable pub move_rows : (left i : ℕ) → List ℕ → Run (List ℕ)
move_rows zero i mem = ok mem
move_rows (suc left) i mem =
    memcpy (2 * (i * 80)) (2 * ((i - 1) * 80)) (80 * 2) mem >>= λ mem'. move_rows left (i + 1) mem'

-- The scrolling of `print_char`: 24 rows move, and the last one is blanked byte by byte.
unfoldable pub scroll : List ℕ → Run (List ℕ)
scroll mem = move_rows 24 1 mem >>= λ mem'. memset (2 * (24 * 80)) 0 (80 * 2) mem'

-- The end of `print_char` at the next offset: scroll if it is behind the screen, and set the cursor.
unfoldable pub settle : {S : Type 0} → Ports S → ℤ → List ℕ → S → Run (ℤ × List ℕ × S)
settle p offset mem s =
    if at_least (25 * 80 * 2) offset
    then (do
      mem' ← scroll mem
      let back = diff (plus_part offset) (minus_part offset + 2 * 80)
      ok (back, mem', set_cursor_offset p back s))
    else ok (offset, mem, set_cursor_offset p offset s)

-- `print_char` once it has its offset.
unfoldable pub put_char :
    {S : Type 0} → Ports S → (c : ℕ) (offset : ℤ) (attr : ℕ) → List ℕ → S → Run (ℤ × List ℕ × S)
put_char p c offset attr mem s =
    if c == 10
    then settle p
        (get_offset (pos 0)
          (diff (plus_part (get_offset_row offset) + 1) (minus_part (get_offset_row offset))))
        mem s
    else (do
      mem1 ← write_at mem offset c
      mem2 ← write_at mem1 (diff (plus_part offset + 1) (minus_part offset)) attr
      settle p (diff (plus_part offset + 2) (minus_part offset)) mem2 s)

-- `print_char`. Coordinates that are too large put a red E into the last cell.
unfoldable pub print_char :
    {S : Type 0} → Ports S → (c : ℕ) (col row : ℤ) (attr : ℕ) → List ℕ → S → Run (ℤ × List ℕ × S)
print_char p c col row attr mem s =
    let attr' = if attr == 0 then 0x0f else attr in
    if at_least 80 col || at_least 25 row
    then (do
      mem1 ← write mem (2 * 80 * 25 - 2) 69
      mem2 ← write mem1 (2 * 80 * 25 - 1) 0xf4
      ok (get_offset col row, mem2, s))
    else (let (o, s') = get_cursor_offset p s in
        if at_least 0 col && at_least 0 row
        then put_char p c (get_offset col row) attr' mem s
        else put_char p c (pos o) attr' mem s')

-- The loop of `kprint_at` over the characters in front of the terminator.
unfoldable pub print_from :
    {S : Type 0} → Ports S → List ℕ → (col row : ℤ) → List ℕ → S → Run (List ℕ × S)
print_from p [] col row mem s = fault
print_from p (zero ∷ cs) col row mem s = ok (mem, s)
print_from p (suc c ∷ cs) col row mem s = do
  (offset, mem', s') ← print_char p (suc c) col row 0x0f mem s
  print_from p cs (get_offset_col offset) (get_offset_row offset) mem' s'

-- `kprint_at`.
unfoldable pub kprint_at :
    {S : Type 0} → Ports S → List ℕ → (col row : ℤ) → List ℕ → S → Run (List ℕ × S)
kprint_at p message col row mem s =
    if at_least 0 col && at_least 0 row
    then print_from p message col row mem s
    else (let (o, s') = get_cursor_offset p s in
        print_from p message (get_offset_col (pos o)) (get_offset_row (pos o)) mem s')

unfoldable pub kprint : {S : Type 0} → Ports S → List ℕ → List ℕ → S → Run (List ℕ × S)
kprint p message mem s = kprint_at p message (negsuc 0) (negsuc 0) mem s

-- `kprint_backspace`.
unfoldable pub kprint_backspace : {S : Type 0} → Ports S → List ℕ → S → Run (List ℕ × S)
kprint_backspace p mem s = do
  let (o, s') = get_cursor_offset p s
  let offset = diff o 2
  let row = get_offset_row offset
  let col = get_offset_col offset
  (next, mem', s'') ← print_char p 32 col row 0x0f mem s'
  first ← read mem' (plus_part (get_offset (pos 0) row))
  ok (mem', if at_least 2 col || not (first == 62) then set_cursor_offset p offset s'' else s'')

-- The loop of `clear_screen` over the cells from `i` on.
unfoldable pub clear_cells : (left i : ℕ) → List ℕ → Run (List ℕ)
clear_cells zero i mem = ok mem
clear_cells (suc left) i mem = do
  mem1 ← write mem (i * 2) 32
  mem2 ← write mem1 (i * 2 + 1) 0x0f
  clear_cells left (i + 1) mem2

unfoldable pub clear_screen : {S : Type 0} → Ports S → List ℕ → S → Run (List ℕ × S)
clear_screen p mem s = clear_cells (80 * 25) 0 mem >>= λ mem'.
    ok (mem', set_cursor_offset p (get_offset (pos 0) (pos 0)) s)
