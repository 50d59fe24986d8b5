-- ===== src/Screen/Cursor.antt =====
-- The cursor of drivers/screen.c behind its ports.
use matanos.Base.{ℕ, ◌+◌, ◌*◌, ◌/◌, ◌%◌, ◌^◌, ◌<◌, ◌≡◌, refl, ◌∙◌, arith}
use matanos.Ports.{Ports}
use matanos.Screen.{pos, get_cursor_offset, set_cursor_offset, cursor_word}

-- A display controller: registers behind an index port and a data port. Reading a register gives
-- its value and changes none, and writing a byte changes that register alone.
pub record Crtc {S : Type 0} (p : Ports S) : Type 0 where
  pub register : ℕ → S → ℕ
  pub reads : (r : ℕ) (s : S) → (p.port_byte_in 0x3d5 (p.port_byte_out 0x3d4 r s)).0 ≡ register r s
  pub kept :
      (r k : ℕ) (s : S)
      → register k (p.port_byte_in 0x3d5 (p.port_byte_out 0x3d4 r s)).1 ≡ register k s
  pub written :
      (r v : ℕ) (s : S)
      → v < 2 ^ 8
      → register r (p.port_byte_out 0x3d5 v (p.port_byte_out 0x3d4 r s)) ≡ v
  pub others :
      (r v k : ℕ) (s : S)
      → ¬ (r ≡ k)
      → register k (p.port_byte_out 0x3d5 v (p.port_byte_out 0x3d4 r s)) ≡ register k s

module _ {S : Type 0} {p : Ports S} (c : Crtc p) where
  pub get_cursor_offset_lem :
      (s : S) → (get_cursor_offset p s).0 ≡ (c.register 14 s * 2 ^ 8 + c.register 15 s) * 2
  unfolding get_cursor_offset
  get_cursor_offset_lem s =
      let s1 = (p.port_byte_in 0x3d5 (p.port_byte_out 0x3d4 14 s)).1 in
      rw (c.reads 14 s, c.reads 15 s1, c.kept 14 15 s) refl

  -- With a display controller whose registers hold what is written, the offset of a cell below
  -- 2 ^ 16 that is set is the offset that is read back.
  get_cursor_offset-set_cursor_offset :
      (n : ℕ) (s : S)
      → n < 2 ^ 16
      → (get_cursor_offset p (set_cursor_offset p (pos (n * 2)) s)).0 ≡ n * 2
  unfolding set_cursor_offset cursor_word
  get_cursor_offset-set_cursor_offset n s h =
      let w = n * 2 / 2 % 2 ^ 16 in
      let s1 = p.port_byte_out 0x3d5 (w / 2 ^ 8) (p.port_byte_out 0x3d4 14 s) in
      let high =
        c.others 15 (w % 2 ^ 8) 14 s1 (λ e. omega arith)
        ∙ c.written 14 (w / 2 ^ 8) s (omega arith) in
      let low = c.written 15 (w % 2 ^ 8) s1 (omega arith) in
      omega (arith, get_cursor_offset_lem (set_cursor_offset p (pos (n * 2)) s), high, low)
