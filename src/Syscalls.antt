-- ===== src/Syscalls.antt =====
-- The system calls: the dispatch of cpu/syscall.c, the stubs of cpu/syscall.h, and the way of
-- `int $0x80` through cpu/interrupt.asm and cpu/isr.c.
pub mod Results
mod Tests
use matanos.Base.{ℕ, List, [], ◌∷◌, leb, if◌then◌else◌, u32, Run, ok, ◌>>=◌, read}
use matanos.Interrupts.{Registers, Handler, Handlers, isr_handler, register_interrupt_handler}

-- `isr128` and `isr_common_stub`: `push byte` extends the sign of 128. Afterwards the stub restores
-- the registers from the memory that `isr_handler` had as its argument.
unfoldable pub int_0x80 : {S : Type 0} → Handlers S → Registers → S → Run (Registers × S)
int_0x80 handlers regs s =
    isr_handler handlers (record regs { int_no = 0xFFFFFF80; err_code = 0 }) s

-- `num_syscalls`, and the table `syscalls` with the address of `print_string`.
abbrev pub num_syscalls : ℕ
num_syscalls = 1

abbrev pub syscalls : ℕ → List ℕ
syscalls print_string = print_string ∷ []

-- The arguments that `syscall_handler` pushes, as the called function sees them.
abbrev pub pushed : Registers → List ℕ
pushed regs = regs.ebx ∷ regs.ecx ∷ regs.edx ∷ regs.esi ∷ regs.edi ∷ []

-- `print_string` is the address of that function, and `call` what the call of an address does.
module _ {S : Type 0} (print_string : ℕ) (call : ℕ → List ℕ → S → ℕ × S) where
  -- `syscall_handler`, with its copy of the registers.
  unfoldable pub syscall_handler : Registers → S → Run (Registers × S)
  syscall_handler regs s = if leb num_syscalls regs.eax then ok (regs, s) else (do
    location ← read (syscalls print_string) regs.eax
    let (ret, s') = call location (pushed regs) s
    ok (record regs { eax = u32 ret }, s'))

  -- As an entry of `interrupt_handlers`: the copy of the registers is the handler's own.
  unfoldable pub on_copy : Handler (Run S)
  on_copy regs r = r >>= λ s. syscall_handler regs s >>= λ done. ok (done.1)

  -- `initialise_syscalls`.
  unfoldable pub initialise_syscalls : Handlers (Run S) → Run (Handlers (Run S))
  initialise_syscalls handlers = register_interrupt_handler 0x80 on_copy handlers

-- `int $0x80` with the operands in place; the result is in `eax`.
unfoldable pub trap : {S : Type 0} → Handlers S → Registers → S → Run (ℕ × S)
trap handlers regs s = int_0x80 handlers regs s >>= λ r. ok (r.0.eax, r.1)

-- The functions that `DEFN_SYSCALL0` to `DEFN_SYSCALL5` define, with the registers before them.
module _ {S : Type 0} (handlers : Handlers S) (num : ℕ) where
  unfoldable pub defn_syscall0 : Registers → S → Run (ℕ × S)
  defn_syscall0 regs s = trap handlers (record regs { eax = num }) s

  unfoldable pub defn_syscall1 : (p1 : ℕ) → Registers → S → Run (ℕ × S)
  defn_syscall1 p1 regs s = trap handlers (record regs { eax = num; ebx = p1 }) s

  unfoldable pub defn_syscall2 : (p1 p2 : ℕ) → Registers → S → Run (ℕ × S)
  defn_syscall2 p1 p2 regs s = trap handlers (record regs { eax = num; ebx = p1; ecx = p2 }) s

  unfoldable pub defn_syscall3 : (p1 p2 p3 : ℕ) → Registers → S → Run (ℕ × S)
  defn_syscall3 p1 p2 p3 regs s =
      trap handlers (record regs { eax = num; ebx = p1; ecx = p2; edx = p3 }) s

  unfoldable pub defn_syscall4 : (p1 p2 p3 p4 : ℕ) → Registers → S → Run (ℕ × S)
  defn_syscall4 p1 p2 p3 p4 regs s =
      trap handlers (record regs { eax = num; ebx = p1; ecx = p2; edx = p3; esi = p4 }) s

  -- `DEFN_SYSCALL5` does not name the types `P1` to `P5` among its parameters, so the source cannot
  -- use it outside a scope that declares them; this is what its body then says.
  unfoldable pub defn_syscall5 : (p1 p2 p3 p4 p5 : ℕ) → Registers → S → Run (ℕ × S)
  defn_syscall5 p1 p2 p3 p4 p5 regs s =
      trap handlers (record regs { eax = num; ebx = p1; ecx = p2; edx = p3; esi = p4; edi = p5 }) s

-- `syscall_print_string`.
unfoldable pub syscall_print_string :
    {S : Type 0} → Handlers S → (str : ℕ) → Registers → S → Run (ℕ × S)
syscall_print_string handlers str = defn_syscall1 handlers 0 str
