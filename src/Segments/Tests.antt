-- ===== src/Segments/Tests.antt =====
-- A concrete table of descriptors.
use matanos.Base.{replicate, ◌≡◌, refl}
use matanos.Segments.{GdtEntry, Tables, zero_tss, set_kernel_stack}

abbrev no_entry : GdtEntry
no_entry = record {
  limit_low = 0;
  base_low = 0;
  base_middle = 0;
  access = 0;
  granularity = 0;
  base_high = 0;
}

abbrev at_boot : Tables
at_boot = record {
  tss_entry = zero_tss;
  gdt_entries = replicate 6 no_entry;
  gdt_ptr = record { limit = 0; base = 0 };
  tss_address = 0x10A040;
  gdt_address = 0x10A000;
}

stack_replaced : (set_kernel_stack 0x9000 at_boot).tss_entry.esp0 ≡ 0x9000
unfolding set_kernel_stack
stack_replaced = refl
