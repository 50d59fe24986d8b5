-- ===== src/Syscalls/Tests.antt =====
-- A print function that notes its arguments and returns 42, called through `int $0x80`.
use matanos.Base.{ℕ, ◌≡◌, refl, List, [], ◌∷◌, none, Run, ok, replicate}
use matanos.Interrupts.{Registers, Handlers}
use matanos.Syscalls.{
  initialise_syscalls, defn_syscall0, defn_syscall1, defn_syscall2, defn_syscall3, defn_syscall4,
  defn_syscall5, syscall_print_string,
}
use matanos.Syscalls.Results.{served, defn_syscalls_lem}

-- The calls so far, each with the address and the first two arguments.
abbrev Notes : Type 0
Notes = List (ℕ × ℕ × ℕ)

abbrev note : ℕ → List ℕ → Notes → ℕ × Notes
note f (a ∷ b ∷ args) calls = (42, (f, a, b) ∷ calls)
note f args calls = (42, calls)

abbrev empty_table : Handlers (Run Notes)
empty_table = replicate 256 none

abbrev regs : Registers
regs = record {
  ds = 0x23;
  edi = 5;
  esi = 4;
  ebp = 0;
  esp = 0;
  ebx = 1;
  edx = 3;
  ecx = 2;
  eax = 9;
  int_no = 0;
  err_code = 0;
  eip = 0x1000;
  cs = 0x1B;
  eflags = 0x202;
  useresp = 0x9000;
  ss = 0x23;
}

defn_syscalls_lem_example :
    (handlers' : Handlers (Run Notes)) × (initialise_syscalls 0x5000 note empty_table
      ≡ ok handlers')
    × (defn_syscall0 handlers' 0 regs (ok []) ≡ ok (0, ok ((0x5000, 1, 2) ∷ [])))
    × (defn_syscall1 handlers' 0 7 regs (ok []) ≡ ok (0, ok ((0x5000, 7, 2) ∷ [])))
    × (defn_syscall2 handlers' 0 7 8 regs (ok []) ≡ ok (0, ok ((0x5000, 7, 8) ∷ [])))
    × (defn_syscall3 handlers' 0 7 8 9 regs (ok []) ≡ ok (0, ok ((0x5000, 7, 8) ∷ [])))
    × (defn_syscall4 handlers' 0 7 8 9 10 regs (ok []) ≡ ok (0, ok ((0x5000, 7, 8) ∷ [])))
    × (defn_syscall5 handlers' 0 7 8 9 10 11 regs (ok []) ≡ ok (0, ok ((0x5000, 7, 8) ∷ [])))
    × (syscall_print_string handlers' 7 regs (ok []) ≡ ok (0, ok ((0x5000, 7, 2) ∷ [])))
unfolding served
defn_syscalls_lem_example = defn_syscalls_lem 0x5000 note empty_table refl 0 7 8 9 10 11 regs []
