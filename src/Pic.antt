-- ===== src/Pic.antt =====
-- The two interrupt controllers as cpu/isr.c drives them.
pub mod Lines
mod Tests
use matanos.Base.{
  ℕ, ◌+◌, ◌-◌, ◌*◌, ◌^◌, List, [], ◌∷◌, ltb, if◌then◌else◌, u8, bit_and, bit_or, bit_not,
}
use matanos.Ports.{Ports, outs}

-- `PIC_sendEOI`.
unfoldable pub pic_send_eoi : {S : Type 0} → Ports S → (irq : ℕ) → S → S
pic_send_eoi p irq s =
    let slave = if ltb irq 40 then s else p.port_byte_out 0xA0 0x20 s in
    p.port_byte_out 0x20 0x20 slave

-- `PIC_remap`. `io_wait` is a write to port 0x80.
unfoldable pub pic_remap : {S : Type 0} → Ports S → (offset1 offset2 : ℕ) → S → S
unfolding outs
pic_remap p offset1 offset2 s =
    let (a1, s1) = p.port_byte_in 0x21 s in
    let (a2, s2) = p.port_byte_in 0xA1 s1 in
    outs p
      ((0x20, 0x11)
        ∷ (0x80, 0)
        ∷ (0xA0, 0x11)
        ∷ (0x80, 0)
        ∷ (0x21, u8 offset1)
        ∷ (0x80, 0)
        ∷ (0xA1, u8 offset2)
        ∷ (0x80, 0)
        ∷ (0x21, 4)
        ∷ (0x80, 0)
        ∷ (0xA1, 2)
        ∷ (0x80, 0)
        ∷ (0x21, 0x01)
        ∷ (0x80, 0)
        ∷ (0xA1, 0x01)
        ∷ (0x80, 0)
        ∷ (0x21, a1)
        ∷ (0xA1, a2)
        ∷ [])
      s2

-- `IRQ_set_mask`, behind the choice of the controller.
unfoldable pub set_mask_at : {S : Type 0} → Ports S → (port position : ℕ) → S → S
set_mask_at p port position s =
    let (mask, s') = p.port_byte_in port s in
    p.port_byte_out port (u8 (bit_or mask (2 ^ position))) s'

unfoldable pub irq_set_mask : {S : Type 0} → Ports S → (line : ℕ) → S → S
irq_set_mask p line s =
    if ltb line 8 then set_mask_at p 0x21 line s else set_mask_at p 0xA1 (line - 8) s

-- `IRQ_clear_mask`, behind the choice of the controller.
unfoldable pub clear_mask_at : {S : Type 0} → Ports S → (port position : ℕ) → S → S
clear_mask_at p port position s =
    let (mask, s') = p.port_byte_in port s in
    p.port_byte_out port (u8 (bit_and mask (bit_not 32 (2 ^ position)))) s'

unfoldable pub irq_clear_mask : {S : Type 0} → Ports S → (line : ℕ) → S → S
irq_clear_mask p line s =
    if ltb line 8 then clear_mask_at p 0x21 line s else clear_mask_at p 0xA1 (line - 8) s
