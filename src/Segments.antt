-- ===== src/Segments.antt =====
-- The segment descriptors and the task state segment of cpu/isr.c and cpu/isr.h.
pub mod Decode
pub mod Init
mod Tests
use matanos.Base.{
  ℕ, zero, suc, ◌+◌, ◌-◌, ◌*◌, ◌/◌, ◌%◌, ◌^◌, List, u8, u16, u32, bit_and, bit_or, Run, ok, ◌>>=◌,
  ◌>>◌, write, read,
}

-- `gdt_entry_t`.
pub record GdtEntry : Type 0 where
  pub limit_low : ℕ
  pub base_low : ℕ
  pub base_middle : ℕ
  pub access : ℕ
  pub granularity : ℕ
  pub base_high : ℕ

-- `gdt_ptr_t`.
pub record GdtPtr : Type 0 where
  pub limit : ℕ
  pub base : ℕ

-- `tss_entry_t`.
pub record TssEntry : Type 0 where
  pub prev_tss : ℕ
  pub esp0 : ℕ
  pub ss0 : ℕ
  pub esp1 : ℕ
  pub ss1 : ℕ
  pub esp2 : ℕ
  pub ss2 : ℕ
  pub cr3 : ℕ
  pub eip : ℕ
  pub eflags : ℕ
  pub eax : ℕ
  pub ecx : ℕ
  pub edx : ℕ
  pub ebx : ℕ
  pub esp : ℕ
  pub ebp : ℕ
  pub esi : ℕ
  pub edi : ℕ
  pub es : ℕ
  pub cs : ℕ
  pub ss : ℕ
  pub ds : ℕ
  pub fs : ℕ
  pub gs : ℕ
  pub ldt : ℕ
  pub trap : ℕ
  pub iomap_base : ℕ

-- The globals of isr.c, and the addresses the linker gives the two tables.
pub record Tables : Type 0 where
  pub tss_entry : TssEntry
  pub gdt_entries : List GdtEntry
  pub gdt_ptr : GdtPtr
  pub tss_address : ℕ
  pub gdt_address : ℕ

-- The value `gdt_set_gate` gives an entry.
unfoldable pub gate_entry : (base limit access gran : ℕ) → GdtEntry
gate_entry base limit access gran = record {
  base_low = u16 (bit_and base 0xFFFF);
  base_middle = u8 (bit_and (base / 2 ^ 16) 0xFF);
  base_high = u8 (bit_and (base / 2 ^ 24) 0xFF);
  limit_low = u16 (bit_and limit 0xFFFF);
  granularity = bit_or (u8 (bit_and (limit / 2 ^ 16) 0x0F)) (bit_and gran 0xF0);
  access = access;
}

-- `gdt_set_gate`.
unfoldable pub gdt_set_gate : (num base limit access gran : ℕ) → List GdtEntry → Run (List GdtEntry)
gdt_set_gate num base limit access gran gdt = write gdt num (gate_entry base limit access gran)

-- `memset(&tss_entry, 0, sizeof(tss_entry))`.
abbrev pub zero_tss : TssEntry
zero_tss = record {
  prev_tss = 0;
  esp0 = 0;
  ss0 = 0;
  esp1 = 0;
  ss1 = 0;
  esp2 = 0;
  ss2 = 0;
  cr3 = 0;
  eip = 0;
  eflags = 0;
  eax = 0;
  ecx = 0;
  edx = 0;
  ebx = 0;
  esp = 0;
  ebp = 0;
  esi = 0;
  edi = 0;
  es = 0;
  cs = 0;
  ss = 0;
  ds = 0;
  fs = 0;
  gs = 0;
  ldt = 0;
  trap = 0;
  iomap_base = 0;
}

-- `sizeof(tss_entry)`: 25 words and two half words.
abbrev pub tss_size : ℕ
tss_size = 104

-- `write_tss`.
unfoldable pub write_tss : (num ss0 esp0 : ℕ) → Tables → Run Tables
write_tss num ss0 esp0 t = do
  let base = t.tss_address
  let limit = u32 (base + tss_size)
  gdt ← gdt_set_gate num base limit 0xE9 0x00 t.gdt_entries
  ok (record t {
    gdt_entries = gdt;
    tss_entry = record zero_tss {
      ss0 = ss0;
      esp0 = esp0;
      cs = 0x0b;
      ss = 0x13;
      ds = 0x13;
      es = 0x13;
      fs = 0x13;
      gs = 0x13;
    };
  })

-- `init_gdt`. The instructions that load the two registers at its end are not modelled.
unfoldable pub init_gdt : Tables → Run Tables
init_gdt t = do
  gdt0 ← gdt_set_gate 0 0 0 0 0 t.gdt_entries
  gdt1 ← gdt_set_gate 1 0 0xFFFFFFFF 0x9A 0xCF gdt0
  gdt2 ← gdt_set_gate 2 0 0xFFFFFFFF 0x92 0xCF gdt1
  gdt3 ← gdt_set_gate 3 0 0xFFFFFFFF 0xFA 0xCF gdt2
  gdt4 ← gdt_set_gate 4 0 0xFFFFFFFF 0xF2 0xCF gdt3
  write_tss 5 0x10 0x0 (record t {
    gdt_entries = gdt4;
    gdt_ptr = record { limit = 8 * 6 - 1; base = t.gdt_address };
  })

-- `set_kernel_stack`.
unfoldable pub set_kernel_stack : (stack : ℕ) → Tables → Tables
set_kernel_stack stack t = record t { tss_entry = record t.tss_entry { esp0 = stack } }
