-- ===== src/Interrupts.antt =====
-- The interrupt descriptor table of cpu/idt.c and cpu/idt.h, its installation and the handlers of
-- cpu/isr.c.
pub mod Install
pub mod Dispatch
mod Tests
use matanos.Base.{
  ℕ, zero, suc, ◌+◌, ◌-◌, ◌*◌, ◌/◌, ◌%◌, ◌^◌, ◌==◌, Bool, true, false, List, [], ◌∷◌, replicate,
  if◌then◌else◌, u8, u16, u32, bit_and, Option, none, some, Run, ok, fault, ◌>>=◌, ◌>>◌, read,
  write,
}
use matanos.Ports.{Ports, outs}
use matanos.Pic.{pic_send_eoi, pic_remap}

-- `idt_gate_t`.
pub record IdtGate : Type 0 where
  pub low_offset : ℕ
  pub sel : ℕ
  pub always0 : ℕ
  pub flags : ℕ
  pub high_offset : ℕ

-- `idt_register_t`.
pub record IdtRegister : Type 0 where
  pub limit : ℕ
  pub base : ℕ

-- The globals `idt` and `idt_reg`, the table's address, and the processor's interrupt flag.
pub record Idt : Type 0 where
  pub idt : List IdtGate
  pub idt_reg : IdtRegister
  pub idt_address : ℕ
  pub interrupts : Bool

unfoldable pub low_16 : ℕ → ℕ
low_16 address = u16 (bit_and address 0xFFFF)

unfoldable pub high_16 : ℕ → ℕ
high_16 address = u16 (bit_and (address / 2 ^ 16) 0xFFFF)

-- The gate that `set_idt_gate` writes.
unfoldable pub kernel_gate : ℕ → IdtGate
unfolding low_16 high_16
kernel_gate handler = record {
  low_offset = low_16 handler;
  sel = 0x08;
  always0 = 0;
  flags = 0x8E;
  high_offset = high_16 handler;
}

-- The gate that `set_idt_gate_user` writes.
unfoldable pub user_gate : ℕ → IdtGate
unfolding low_16 high_16
user_gate handler = record {
  low_offset = low_16 handler;
  sel = 0x08;
  always0 = 0;
  flags = 0xEE;
  high_offset = high_16 handler;
}

unfoldable pub set_idt_gate : (n handler : ℕ) → List IdtGate → Run (List IdtGate)
set_idt_gate n handler idt = write idt n (kernel_gate handler)

unfoldable pub set_idt_gate_user : (n handler : ℕ) → List IdtGate → Run (List IdtGate)
set_idt_gate_user n handler idt = write idt n (user_gate handler)

-- `set_idt`, up to the instruction that loads the register.
unfoldable pub set_idt : Idt → Idt
set_idt t = record t { idt_reg = record { limit = 256 * 8 - 1; base = t.idt_address } }

-- Calls of `set_idt_gate` for successive vectors, in their order.
unfoldable pub set_idt_gates : ℕ → List ℕ → List IdtGate → Run (List IdtGate)
set_idt_gates n [] idt = ok idt
set_idt_gates n (handler ∷ hs) idt =
    set_idt_gate n handler idt >>= λ idt'. set_idt_gates (suc n) hs idt'

-- The addresses of the assembly stubs of cpu/interrupt.asm and of `isr3_handler`.
pub record Stubs : Type 0 where
  pub isr : ℕ → ℕ
  pub irq : ℕ → ℕ
  pub isr3_handler : ℕ
  pub isr128 : ℕ

-- The handlers of `isr_install` for vectors 0 to 31, and 32 to 47.
abbrev pub exception_stubs : Stubs → List ℕ
exception_stubs st =
    st.isr 0
    ∷ st.isr 1
    ∷ st.isr 2
    ∷ st.isr3_handler
    ∷ st.isr 4
    ∷ st.isr 5
    ∷ st.isr 6
    ∷ st.isr 7
    ∷ st.isr 8
    ∷ st.isr 9
    ∷ st.isr 10
    ∷ st.isr 11
    ∷ st.isr 12
    ∷ st.isr 13
    ∷ st.isr 14
    ∷ st.isr 15
    ∷ st.isr 16
    ∷ st.isr 17
    ∷ st.isr 18
    ∷ st.isr 19
    ∷ st.isr 20
    ∷ st.isr 21
    ∷ st.isr 22
    ∷ st.isr 23
    ∷ st.isr 24
    ∷ st.isr 25
    ∷ st.isr 26
    ∷ st.isr 27
    ∷ st.isr 28
    ∷ st.isr 29
    ∷ st.isr 30
    ∷ st.isr 31
    ∷ []

abbrev pub request_stubs : Stubs → List ℕ
request_stubs st =
    st.irq 0
    ∷ st.irq 1
    ∷ st.irq 2
    ∷ st.irq 3
    ∷ st.irq 4
    ∷ st.irq 5
    ∷ st.irq 6
    ∷ st.irq 7
    ∷ st.irq 8
    ∷ st.irq 9
    ∷ st.irq 10
    ∷ st.irq 11
    ∷ st.irq 12
    ∷ st.irq 13
    ∷ st.irq 14
    ∷ st.irq 15
    ∷ []

abbrev pub zero_gate : IdtGate
zero_gate = record { low_offset = 0; sel = 0; always0 = 0; flags = 0; high_offset = 0 }

-- `isr_install`. The `memset` at its beginning zeroes the whole table of 256 gates.
unfoldable pub isr_install : {S : Type 0} → Ports S → Stubs → Idt → S → Run (Idt × S)
isr_install p st t s = do
  exceptions ← set_idt_gates 0 (exception_stubs st) (replicate 256 zero_gate)
  let remapped = pic_remap p 0x20 0x28 s
  requests ← set_idt_gates 32 (request_stubs st) exceptions
  all ← set_idt_gate_user 128 st.isr128 requests
  let loaded = set_idt (record t { idt = all })
  ok (record loaded { interrupts = true }, remapped)

-- `registers_t`.
pub record Registers : Type 0 where
  pub ds : ℕ
  pub edi : ℕ
  pub esi : ℕ
  pub ebp : ℕ
  pub esp : ℕ
  pub ebx : ℕ
  pub edx : ℕ
  pub ecx : ℕ
  pub eax : ℕ
  pub int_no : ℕ
  pub err_code : ℕ
  pub eip : ℕ
  pub cs : ℕ
  pub eflags : ℕ
  pub useresp : ℕ
  pub ss : ℕ

-- `isr_t`, on the state of everything outside this component, and `interrupt_handlers`. A handler
-- gets its own copy of the registers.
abbrev pub Handler : Type 0 → Type 0
Handler S = Registers → S → S

abbrev pub Handlers : Type 0 → Type 0
Handlers S = List (Option (Handler S))

unfoldable pub call : {S : Type 0} → Option (Handler S) → Handler S
call none regs s = s
call (some handler) regs s = handler regs s

-- `isr_handler`. It returns its copy of the registers too, which the stub restores.
unfoldable pub isr_handler : {S : Type 0} → Handlers S → Registers → S → Run (Registers × S)
isr_handler handlers regs s = do
  let int_no = u8 (bit_and regs.int_no 0xFF)
  let regs' = if int_no == 0 then record regs { eip = u32 (regs.eip + 2) } else regs
  handler ← read handlers int_no
  ok (regs', call handler regs' s)

-- `register_interrupt_handler`.
unfoldable pub register_interrupt_handler :
    {S : Type 0} → (n : ℕ) → Handler S → Handlers S → Run (Handlers S)
register_interrupt_handler n handler handlers = write handlers n (some handler)

-- `irq_handler`. The number goes to `PIC_sendEOI` as an `unsigned char`.
unfoldable pub irq_handler : {S : Type 0} → Ports S → Handlers S → Registers → S → Run S
irq_handler p handlers r s = do
  let acknowledged = pic_send_eoi p (u8 r.int_no) s
  handler ← read handlers r.int_no
  ok (call handler r acknowledged)

-- `init_timer` of cpu/timer.c. Division by zero is a fault.
unfoldable pub init_timer :
    {S : Type 0} → Ports S → (freq : ℕ) → Handler S → Handlers S → S → Run (Handlers S × S)
init_timer p freq timer_callback handlers s = if freq == 0 then fault else (do
  handlers' ← register_interrupt_handler 32 timer_callback handlers
  let divisor = 1193180 / freq
  let low = u8 (bit_and divisor 0xFF)
  let high = u8 (bit_and (divisor / 2 ^ 8) 0xFF)
  ok (handlers', outs p ((0x43, 0x36) ∷ (0x40, low) ∷ (0x40, high) ∷ []) s))
