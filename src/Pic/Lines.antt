-- ===== src/Pic/Lines.antt =====
-- The request lines that `IRQ_set_mask` and `IRQ_clear_mask` of cpu/isr.c mask.
use matanos.Base.{
  ℕ, ◌-◌, ◌^◌, ◌<◌, ◌==◌, ltb, ltb→lt, ==→eq, Bool-cases, inl, inr, if◌then◌else◌, u8, bit_and,
  bit_or, bit_not, ◌≡◌, refl, arith, sym, ap, bit, bit-bit_or, bit-bit_and, bit-le-one,
  bit-pow_self, bit-pow_ne, bit-bit_not, bit_or-lt, bit_and-lt, pow-lt-pow, true, false,
}
use Prim.Native.Nat.{min, max}
use matanos.Ports.{Ports}
use matanos.Pic.{irq_set_mask, irq_clear_mask, set_mask_at, clear_mask_at}

-- Controllers whose data ports hold the masks: a read returns the mask and changes nothing, and a
-- write of a byte replaces the mask of the port's controller and no other.
pub record Masks {S : Type 0} (p : Ports S) : Type 0 where
  pub mask : ℕ → S → ℕ
  pub is_byte : (port : ℕ) (s : S) → mask port s < 2 ^ 8
  pub reads : (port : ℕ) (s : S) → p.port_byte_in port s ≡ (mask port s, s)
  pub written : (port v : ℕ) (s : S) → v < 2 ^ 8 → mask port (p.port_byte_out port v s) ≡ v
  pub others : (port v k : ℕ) (s : S) → ¬ (port ≡ k) → mask k (p.port_byte_out port v s) ≡ mask k s

==→ne : (i j : ℕ) → (i == j) ≡ false → ¬ (j ≡ i)
==→ne i j h = ground arith

-- Lines of different controllers differ, and lines of the slave are compared by their positions.
apart : (i j : ℕ) → ltb i 8 ≡ true → ltb j 8 ≡ false → (j == i) ≡ false
apart i j a b = ground arith

==_sym : (i j : ℕ) → (i == j) ≡ (j == i)
==_sym i j = ground arith

shifted : (i j : ℕ) → ltb i 8 ≡ false → ltb j 8 ≡ false → (j - 8 == i - 8) ≡ (j == i)
shifted i j a b = ground arith

module _ {S : Type 0} {p : Ports S} (m : Masks p) where
  -- Is line `k` masked? The slave has the lines from 8 on.
  unfoldable pub masked : ℕ → S → ℕ
  masked k s = if ltb k 8 then bit (m.mask 0x21 s) k else bit (m.mask 0xA1 s) (k - 8)

  set_port :
      (port j : ℕ) (s : S)
      → j < 8
      → (k : ℕ) → k < 8
      → (bit (m.mask port (p.port_byte_out port (u8 (bit_or (m.mask port s) (2 ^ j))) s)) k
          ≡ max (bit (m.mask port s) k) (bit (2 ^ j) k))
  set_port port j s hj k hk =
      let small : bit_or (m.mask port s) (2 ^ j) < 2 ^ 8 =
        bit_or-lt 8 (m.mask port s) (2 ^ j) (m.is_byte port s) (pow-lt-pow j 8 hj) in
      let same : u8 (bit_or (m.mask port s) (2 ^ j)) ≡ bit_or (m.mask port s) (2 ^ j) =
        omega arith in
      rw (same, m.written port (bit_or (m.mask port s) (2 ^ j)) s small)
        (bit-bit_or k (m.mask port s) (2 ^ j))

  clear_port :
      (port j : ℕ) (s : S)
      → j < 8
      → (k : ℕ) → k < 8
      → (bit
            (m.mask port
              (p.port_byte_out port (u8 (bit_and (m.mask port s) (bit_not 32 (2 ^ j)))) s))
            k
          ≡ min (bit (m.mask port s) k) (1 - bit (2 ^ j) k))
  clear_port port j s hj k hk =
      let small : bit_and (m.mask port s) (bit_not 32 (2 ^ j)) < 2 ^ 8 =
        bit_and-lt 8 (m.mask port s) (bit_not 32 (2 ^ j)) (m.is_byte port s) in
      let same : u8 (bit_and (m.mask port s) (bit_not 32 (2 ^ j)))
          ≡ bit_and (m.mask port s) (bit_not 32 (2 ^ j)) =
        omega arith in
      rw
        (
          same,
          m.written port (bit_and (m.mask port s) (bit_not 32 (2 ^ j))) s small,
          bit-bit_and k (m.mask port s) (bit_not 32 (2 ^ j)),
          bit-bit_not 32 k (2 ^ j) (omega arith) (pow-lt-pow j 32 (omega arith)),
        )
        refl

  set_bit :
      (port j k : ℕ) (s : S)
      → j < 8
      → k < 8
      → bit (m.mask port (p.port_byte_out port (u8 (bit_or (m.mask port s) (2 ^ j))) s)) k
        ≡ (if k == j then 1 else bit (m.mask port s) k)
  set_bit port j k s hj hk = elim (Bool-cases (k == j)) [
    | inl e ↦
        rw (e, set_port port j s hj k hk, ==→eq k j e, bit-pow_self j)
          (omega (arith, bit-le-one j (m.mask port s)))
    | inr n ↦
        rw (n, set_port port j s hj k hk, bit-pow_ne j k (==→ne k j n))
          (omega (arith, bit-le-one k (m.mask port s)))
  ]

  clear_bit :
      (port j k : ℕ) (s : S)
      → j < 8
      → k < 8
      → bit
          (m.mask port (p.port_byte_out port (u8 (bit_and (m.mask port s) (bit_not 32 (2 ^ j)))) s))
          k
        ≡ (if k == j then 0 else bit (m.mask port s) k)
  clear_bit port j k s hj hk = elim (Bool-cases (k == j)) [
    | inl e ↦
        rw (e, clear_port port j s hj k hk, ==→eq k j e, bit-pow_self j)
          (omega (arith, bit-le-one j (m.mask port s)))
    | inr n ↦
        rw (n, clear_port port j s hj k hk, bit-pow_ne j k (==→ne k j n))
          (omega (arith, bit-le-one k (m.mask port s)))
  ]

  set_mask_at-out :
      (port j : ℕ) (s : S)
      → set_mask_at p port j s ≡ p.port_byte_out port (u8 (bit_or (m.mask port s) (2 ^ j))) s
  unfolding set_mask_at
  set_mask_at-out port j s = rw (set_mask_at, m.reads port s) refl

  clear_mask_at-out :
      (port j : ℕ) (s : S)
      → clear_mask_at p port j s
        ≡ p.port_byte_out port (u8 (bit_and (m.mask port s) (bit_not 32 (2 ^ j)))) s
  unfolding clear_mask_at
  clear_mask_at-out port j s = rw (clear_mask_at, m.reads port s) refl

  -- With controllers whose data ports hold their masks, masking one of the 16 lines sets that
  -- line's bit and leaves the other 15 as they were, whichever controller each belongs to.
  irq_set_mask_lem :
      (line k : ℕ) (s : S)
      → line < 16
      → k < 16
      → masked k (irq_set_mask p line s) ≡ (if k == line then 1 else masked k s)
  unfolding masked irq_set_mask
  irq_set_mask_lem line k s hl hk = elim (Bool-cases (ltb line 8)) [
    | inl a ↦ elim (Bool-cases (ltb k 8)) [
      | inl b ↦
          rw (b, a, set_mask_at-out 0x21 line s)
            (set_bit 0x21 line k s (ltb→lt line 8 a) (ltb→lt k 8 b))
      | inr b ↦
          rw (b, a, set_mask_at-out 0x21 line s, apart line k a b)
            (ap (λ (t : ℕ). bit t (k - 8)) (m.others 0x21 _ 0xA1 s (λ e. absurd (omega arith))))
    ]
    | inr a ↦ elim (Bool-cases (ltb k 8)) [
      | inl b ↦
          rw (b, a, set_mask_at-out 0xA1 (line - 8) s, ==_sym k line, apart k line b a)
            (ap (λ (t : ℕ). bit t k) (m.others 0xA1 _ 0x21 s (λ e. absurd (omega arith))))
      | inr b ↦
          rw (b, a, set_mask_at-out 0xA1 (line - 8) s, sym (shifted line k a b))
            (set_bit 0xA1 (line - 8) (k - 8) s (omega arith) (omega arith))
    ]
  ]

  -- With controllers whose data ports hold their masks, clearing the mask of one of the 16 lines
  -- clears that line's bit and leaves the other 15 as they were.
  irq_clear_mask_lem :
      (line k : ℕ) (s : S)
      → line < 16
      → k < 16
      → masked k (irq_clear_mask p line s) ≡ (if k == line then 0 else masked k s)
  unfolding masked irq_clear_mask
  irq_clear_mask_lem line k s hl hk = elim (Bool-cases (ltb line 8)) [
    | inl a ↦ elim (Bool-cases (ltb k 8)) [
      | inl b ↦
          rw (b, a, clear_mask_at-out 0x21 line s)
            (clear_bit 0x21 line k s (ltb→lt line 8 a) (ltb→lt k 8 b))
      | inr b ↦
          rw (b, a, clear_mask_at-out 0x21 line s, apart line k a b)
            (ap (λ (t : ℕ). bit t (k - 8)) (m.others 0x21 _ 0xA1 s (λ e. absurd (omega arith))))
    ]
    | inr a ↦ elim (Bool-cases (ltb k 8)) [
      | inl b ↦
          rw (b, a, clear_mask_at-out 0xA1 (line - 8) s, ==_sym k line, apart k line b a)
            (ap (λ (t : ℕ). bit t k) (m.others 0xA1 _ 0x21 s (λ e. absurd (omega arith))))
      | inr b ↦
          rw (b, a, clear_mask_at-out 0xA1 (line - 8) s, sym (shifted line k a b))
            (clear_bit 0xA1 (line - 8) (k - 8) s (omega arith) (omega arith))
    ]
  ]
