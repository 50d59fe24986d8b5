-- ===== src/Heap/Holes.antt =====
-- The writes by which cpu/kheap.c makes a hole of new bytes, or a hole larger.
use matanos.Base.{ℕ, ◌+◌, ◌-◌, ◌^◌, ◌<◌, ◌≤◌, inl, inr, ◌≡◌, ◌∙◌, arith}
use matanos.Memory.{Memory, load8, store8, store32}
use matanos.Memory.Frame.{
  AgreeOff, AgreeOff-Agree, AgreeOff-widen, AgreeOff-trans, load32-Agree, load8-Agree,
  load32-store32, store8-AgreeOff, store32-AgreeOff, store8_self,
}
use matanos.Heap.{
  magic_number, header_magic, header_is_hole, header_size, footer_magic, footer_header,
  write_footer,
}
use matanos.Heap.Blocks.{IsBlock, write_footer-fields, write_footer-AgreeOff}

-- A header, and a footer where it says, make a block.
footed-IsBlock :
    (m m' : Memory) (h size hole : ℕ)
    → 20 ≤ size
    → h + size < 2 ^ 32
    → header_magic m h ≡ magic_number
    → header_is_hole m h ≡ hole
    → header_size m h ≡ size
    → AgreeOff (h + (size - 8)) 8 m m'
    → footer_magic m' (h + (size - 8)) ≡ magic_number
    → footer_header m' (h + (size - 8)) ≡ h
    → IsBlock m' h size hole
unfolding header_magic header_is_hole header_size
footed-IsBlock m m' h size hole large inside magic kind extent off end_magic back =
    let f = h + (size - 8) in
    record {
      large = large;
      inside = inside;
      magic = load32-Agree h m m' (AgreeOff-Agree f 8 h 4 m m' off (inl (omega arith))) ∙ magic;
      kind =
          load8-Agree (h + 4) m m' (AgreeOff-Agree f 8 (h + 4) 1 m m' off (inl (omega arith)))
          ∙ kind;
      extent =
          load32-Agree (h + 8) m m' (AgreeOff-Agree f 8 (h + 8) 4 m m' off (inl (omega arith)))
          ∙ extent;
      end_magic = end_magic;
      back = back;
    }

-- The two assignments of a footer in the other order.
footer_back :
    (m : Memory) (f h : ℕ)
    → h < 2 ^ 32
    → AgreeOff f 8 m (store32 (store32 m (f + 4) h) f magic_number)
      × (footer_magic (store32 (store32 m (f + 4) h) f magic_number) f ≡ magic_number)
      × (footer_header (store32 (store32 m (f + 4) h) f magic_number) f ≡ h)
unfolding footer_magic footer_header
footer_back m f h small =
    let m1 = store32 m (f + 4) h in
    let m2 = store32 m1 f magic_number in
    (
      AgreeOff-trans f 8 m m1 m2
          (AgreeOff-widen f 8 (f + 4) 4 m m1 (store32-AgreeOff m (f + 4) h) (omega arith)
            (omega arith))
          (AgreeOff-widen f 8 f 4 m1 m2 (store32-AgreeOff m1 f magic_number) (omega arith)
            (omega arith)),
      load32-store32 m1 f magic_number (omega arith),
      load32-Agree (f + 4) m1 m2 (
            AgreeOff-Agree f 4 (f + 4) 4 m1 m2 (store32-AgreeOff m1 f magic_number)
              (inr (omega arith)))
          ∙ load32-store32 m (f + 4) h small,
    )

-- Making a hole larger keeps it a hole.
pub resized-IsBlock :
    (m : Memory) (h old size : ℕ)
    → IsBlock m h old 1
    → old ≤ size
    → h + size < 2 ^ 32
    → IsBlock
        (store32
          (store32 (store32 m (h + 8) size) (h + (size - 8) + 4) h)
          (h + (size - 8))
          magic_number)
        h
        size
        1
      × AgreeOff h size m (
          store32
            (store32 (store32 m (h + 8) size) (h + (size - 8) + 4) h)
            (h + (size - 8))
            magic_number)
unfolding header_magic header_is_hole header_size
resized-IsBlock m h old size b larger inside =
    let large = b.large in
    let f = h + (size - 8) in
    let m1 = store32 m (h + 8) size in
    let m2 = store32 (store32 m1 (f + 4) h) f magic_number in
    let off = store32-AgreeOff m (h + 8) size in
    let (footer, end_magic, back) = footer_back m1 f h (omega arith) in
    (
      footed-IsBlock m1 m2 h size 1 (omega arith) inside
          (load32-Agree h m m1 (AgreeOff-Agree (h + 8) 4 h 4 m m1 off (inl (omega arith)))
            ∙ b.magic)
          (load8-Agree (h + 4) m m1
              (AgreeOff-Agree (h + 8) 4 (h + 4) 1 m m1 off (inl (omega arith)))
            ∙ b.kind)
          (load32-store32 m (h + 8) size (omega arith)) footer end_magic back,
      AgreeOff-trans h size m m1 m2
          (AgreeOff-widen h size (h + 8) 4 m m1 off (omega arith) (omega arith))
          (AgreeOff-widen h size f 8 m1 m2 footer (omega arith) (omega arith)),
    )

-- A hole that fills the new bytes.
pub created-IsBlock :
    (m : Memory) (h size : ℕ)
    → 20 ≤ size
    → h + size < 2 ^ 32
    → IsBlock
        (write_footer
          (h + (size - 8))
          h
          (store8 (store32 (store32 m h magic_number) (h + 8) size) (h + 4) 1))
        h
        size
        1
      × AgreeOff h size m (
          write_footer
            (h + (size - 8))
            h
            (store8 (store32 (store32 m h magic_number) (h + 8) size) (h + 4) 1))
unfolding header_magic header_is_hole header_size load8
created-IsBlock m h size large inside =
    let f = h + (size - 8) in
    let m1 = store32 m h magic_number in
    let m2 = store32 m1 (h + 8) size in
    let m3 = store8 m2 (h + 4) 1 in
    let m4 = write_footer f h m3 in
    let off2 = store32-AgreeOff m1 (h + 8) size in
    let off3 = store8-AgreeOff m2 (h + 4) 1 in
    let footer = write_footer-AgreeOff f h m3 in
    let (end_magic, back) = write_footer-fields f h m3 (omega arith) in
    (
      footed-IsBlock m3 m4 h size 1 large inside
          (load32-Agree h m2 m3 (AgreeOff-Agree (h + 4) 1 h 4 m2 m3 off3 (inl (omega arith)))
            ∙ load32-Agree h m1 m2 (AgreeOff-Agree (h + 8) 4 h 4 m1 m2 off2 (inl (omega arith)))
            ∙ load32-store32 m h magic_number (omega arith))
          (store8_self m2 (h + 4) 1)
          (load32-Agree (h + 8) m2 m3
              (AgreeOff-Agree (h + 4) 1 (h + 8) 4 m2 m3 off3 (inr (omega arith)))
            ∙ load32-store32 m1 (h + 8) size (omega arith))
          footer end_magic back,
      AgreeOff-trans h size m m1 m4
          (AgreeOff-widen h size h 4 m m1 (store32-AgreeOff m h magic_number) (omega arith)
            (omega arith))
          (AgreeOff-trans h size m1 m2 m4
            (AgreeOff-widen h size (h + 8) 4 m1 m2 off2 (omega arith) (omega arith))
            (AgreeOff-trans h size m2 m3 m4
              (AgreeOff-widen h size (h + 4) 1 m2 m3 off3 (omega arith) (omega arith))
              (AgreeOff-widen h size f 8 m3 m4 footer (omega arith) (omega arith)))),
    )
