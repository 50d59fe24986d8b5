-- ===== src/Segments/Decode.antt =====
-- The processor's reading of the descriptors that cpu/isr.c writes.
use matanos.Base.{
  ℕ, ◌+◌, ◌*◌, ◌/◌, ◌%◌, ◌^◌, ◌<◌, ◌==◌, if◌then◌else◌, arith, List, u8, bit_and, bit_or, ok, ◌≡◌,
  bit_and-low_ones, bit_and-high_nibble, bit_or-nibbles, write-set, get_or, length, get_or-set_self,
  get_or-set_ne, length-set,
}
use matanos.Segments.{GdtEntry, gate_entry, gdt_set_gate}

-- The base, the limit field and the flags of a descriptor, in the processor's format.
unfoldable pub segment_base : GdtEntry → ℕ
segment_base e = e.base_low + e.base_middle * 2 ^ 16 + e.base_high * 2 ^ 24

unfoldable pub segment_limit : GdtEntry → ℕ
segment_limit e = e.limit_low + e.granularity % 16 * 2 ^ 16

unfoldable pub segment_flags : GdtEntry → ℕ
segment_flags e = e.granularity / 16

-- The last offset inside the segment: bit 3 of the flags counts the limit in pages.
unfoldable pub last_offset : GdtEntry → ℕ
unfolding segment_flags segment_limit
last_offset e =
    if segment_flags e / 8 == 1 then segment_limit e * 0x1000 + 0xFFF else segment_limit e

-- For a base of 32 bits and a granularity of 8 bits, the processor reads back from the
-- descriptor the base, the low 20 bits of the limit, and the high half of the granularity
-- byte.
pub gate_entry-fields :
    (base limit access gran : ℕ)
    → base < 2 ^ 32
    → gran < 2 ^ 8
    → (segment_base (gate_entry base limit access gran) ≡ base)
      × (segment_limit (gate_entry base limit access gran) ≡ limit % 2 ^ 20)
      × (segment_flags (gate_entry base limit access gran) ≡ gran / 16)
unfolding gate_entry segment_base segment_limit segment_flags
gate_entry-fields base limit access gran hb hg =
    let lo : u8 (bit_and (limit / 2 ^ 16) 0x0F) ≡ limit / 2 ^ 16 % 16 =
      omega (arith, bit_and-low_ones 4 (limit / 2 ^ 16)) in
    let gran_byte : bit_or (u8 (bit_and (limit / 2 ^ 16) 0x0F)) (bit_and gran 0xF0)
        ≡ limit / 2 ^ 16 % 16 + gran / 16 * 16 =
      rw
        (
          lo,
          bit_and-high_nibble gran,
          bit_or-nibbles (limit / 2 ^ 16 % 16) (gran / 16 % 16) (omega arith),
        )
        (omega arith) in
    (
      omega (
        arith,
        bit_and-low_ones 16 base,
        bit_and-low_ones 8 (base / 2 ^ 16),
        bit_and-low_ones 8 (base / 2 ^ 24),
      ),
      omega (arith, bit_and-low_ones 16 limit, gran_byte),
      omega (arith, gran_byte),
    )

-- Writing entry `num` changes no other entry.
pub gdt_set_gate_lem :
    (num base limit access gran : ℕ) (gdt : List GdtEntry)
    → num < length gdt
    → (other : GdtEntry)
    → (gdt' : List GdtEntry) × (gdt_set_gate num base limit access gran gdt ≡ ok gdt')
      × (length gdt' ≡ length gdt)
      × (get_or gdt' num other ≡ gate_entry base limit access gran)
      × ((k : ℕ) → ¬ (num ≡ k) → get_or gdt' k other ≡ get_or gdt k other)
unfolding gdt_set_gate
gdt_set_gate_lem num base limit access gran gdt h other = (
  _,
  write-set gdt num (gate_entry base limit access gran) h,
  length-set gdt num (gate_entry base limit access gran),
  get_or-set_self gdt num (gate_entry base limit access gran) other h,
  λ k ne. get_or-set_ne gdt num k (gate_entry base limit access gran) other ne,
)
