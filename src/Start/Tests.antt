-- ===== src/Start/Tests.antt =====
-- A controller with a byte in its output buffer, and the start on it.
use matanos.Base.{◌+◌, ◌==◌, Bool, true, false, ◌&&◌, none, replicate, if◌then◌else◌}
use matanos.Ports.{Ports}
use matanos.Segments.{GdtEntry, zero_tss}
use matanos.Interrupts.{Stubs, Handler, zero_gate}
use matanos.Start.{Started}

-- Whether a byte waits in the output buffer, and whether it is the answer to a self-test.
record Board : Type 0 where
  full : Bool
  tested : Bool

-- The first bit of the status says whether a byte waits. Reading the data port takes the byte, and
-- without one gives 0. The command of the self-test puts its answer there.
abbrev board : Ports Board
board = record {
  port_byte_in = λ port s. if port == 0x64 then (if s.full then 1 else 0, s) else (
    if s.full && s.tested then 0x55 else 0,
    if port == 0x60 then record { full = false; tested = false } else s,
  );
  port_byte_out = λ port value s.
      if (port == 0x64) && (value == 0xAA) then record { full = true; tested = true } else s;
}

-- Each handler marks the state.
abbrev sets : Bool → Handler Board
sets b regs s = record s { full = b }

abbrev no_entry : GdtEntry
no_entry = record {
  limit_low = 0;
  base_low = 0;
  base_middle = 0;
  access = 0;
  granularity = 0;
  base_high = 0;
}

abbrev stubs : Stubs
stubs = record {
  isr = λ i. 0x1000 + i;
  irq = λ i. 0x2000 + i;
  isr3_handler = 0x3000;
  isr128 = 0x4000;
}

abbrev at_boot : Started Board
at_boot = record {
  tables = record {
    tss_entry = zero_tss;
    gdt_entries = replicate 6 no_entry;
    gdt_ptr = record { limit = 0; base = 0 };
    tss_address = 0x10A040;
    gdt_address = 0x10A000;
  };
  idt = record {
    idt = replicate 256 zero_gate;
    idt_reg = record { limit = 0; base = 0 };
    idt_address = 0x109000;
    interrupts = false;
  };
  handlers = replicate 256 none;
  channels = record { is_dual_channel = false; should_probe_second_channel = true };
  devices = record { full = true; tested = false };
}
