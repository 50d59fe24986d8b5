-- ===== src/Interrupts/Tests.antt =====
-- A machine that records what its handlers do.
use matanos.Base.{
  ℕ, ◌+◌, ◌<◌, ◌≡◌, arith, List, [], ◌∷◌, replicate, length-replicate, Option, none, ok, false,
}
use matanos.Ports.{Ports}
use matanos.Interrupts.{
  Idt, Stubs, Registers, Handlers, Handler, isr_handler, register_interrupt_handler,
}
use matanos.Interrupts.Dispatch.{resumed, register-isr_handler}

abbrev Log : Type 0
Log = List (ℕ × ℕ)

abbrev recorder : Ports Log
recorder = record { port_byte_in = λ port s. (0, s); port_byte_out = λ port v s. ((port, v) ∷ s) }

abbrev stubs : Stubs
stubs = record {
  isr = λ n. 0x1000 + n;
  irq = λ n. 0x2000 + n;
  isr3_handler = 0x3000;
  isr128 = 0x4000;
}

abbrev before : Idt
before = record {
  idt = [];
  idt_reg = record { limit = 0; base = 0 };
  idt_address = 0x5000;
  interrupts = false;
}

abbrev no_handler : Option (Handler Log)
no_handler = none

abbrev no_handlers : Handlers Log
no_handlers = replicate 256 no_handler

abbrev note_eip : Handler Log
note_eip regs s = (0, regs.eip) ∷ s

abbrev on_vector : ℕ → Registers
on_vector n = record {
  ds = 0;
  edi = 0;
  esi = 0;
  ebp = 0;
  esp = 0;
  ebx = 0;
  edx = 0;
  ecx = 0;
  eax = 7;
  int_no = n;
  err_code = 0;
  eip = 0x100;
  cs = 0;
  eflags = 0;
  useresp = 0;
  ss = 0;
}

register-isr_handler_example :
    (handlers' : Handlers Log) × (register_interrupt_handler 3 note_eip no_handlers ≡ ok handlers')
    × ((regs : Registers) (s : Log)
        → regs.int_no ≡ 3
        → isr_handler handlers' regs s ≡ ok (resumed 3 regs, note_eip (resumed 3 regs) s))
    × ((regs : Registers) (s : Log)
        → ¬ (3 ≡ regs.int_no)
        → regs.int_no < 256
        → isr_handler handlers' regs s ≡ isr_handler no_handlers regs s)
register-isr_handler_example =
    register-isr_handler 3 note_eip no_handlers (length-replicate 256 no_handler) (omega arith)
