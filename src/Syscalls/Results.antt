-- ===== src/Syscalls/Results.antt =====
-- What a program gets back from a system call.
use matanos.Base.{
  ℕ, zero, suc, ◌≡◌, refl, ◌∙◌, ap, List, [], ◌∷◌, arith, none, some, leb, true, Run, ok, length,
  length-set, set, get_or-set_self, read-get_or, write-set, read,
}
use matanos.Interrupts.{Registers, Handlers, call, isr_handler, register_interrupt_handler}
use matanos.Syscalls.{
  int_0x80, syscall_handler, on_copy, initialise_syscalls, pushed, trap, defn_syscall0,
  defn_syscall1, defn_syscall2, defn_syscall3, defn_syscall4, defn_syscall5, syscall_print_string,
}

module _ {S : Type 0} (print_string : ℕ) (f : ℕ → List ℕ → S → ℕ × S) where
  -- What the system call with this number does: the call of `print_string` for 0, nothing else.
  unfoldable pub served : (num : ℕ) → List ℕ → S → S
  served zero args s = (f print_string args s).1
  served (suc num) args s = s

  on_copy-served :
      (num : ℕ) (regs : Registers) (s : S)
      → regs.eax ≡ num
      → on_copy print_string f regs (ok s) ≡ ok (served num (pushed regs) s)
  unfolding on_copy syscall_handler served read
  on_copy-served zero regs s e = rw e refl
  on_copy-served (suc num) regs s e =
      let big : leb 1 (suc num) ≡ true = ground arith in rw (e, big) refl

  module _ (handlers : Handlers (Run S)) (len : length handlers ≡ 256) where
    abbrev pub installed : Handlers (Run S)
    installed = set handlers 0x80 (some (on_copy print_string f))

    found : read installed 0x80 ≡ ok (some (on_copy print_string f))
    found =
        read-get_or installed 0x80 none
          (omega (arith, length-set handlers 0x80 (some (on_copy print_string f)), len))
        ∙ ap (λ h. ok h)
            (get_or-set_self handlers 0x80 (some (on_copy print_string f)) none
              (omega (arith, len)))

    trap-served :
        (num : ℕ) (regs : Registers) (s : S)
        → regs.eax ≡ num
        → trap installed regs (ok s) ≡ ok (num, ok (served num (pushed regs) s))
    unfolding trap int_0x80 isr_handler call
    trap-served num regs s e =
        let inside = record regs { int_no = 0xFFFFFF80; err_code = 0 } in
        rw (found, on_copy-served num inside s e)
          (ap (λ a. ok (a, ok (served num (pushed regs) s))) e)

    -- With a table of 256 interrupt handlers, `initialise_syscalls` succeeds. From then on each of
    -- the functions that `DEFN_SYSCALL0` to `DEFN_SYSCALL5` define calls `print_string` with its
    -- arguments for the number 0, and nothing for another number. In every case it returns its own
    -- number: the result of the called function is lost, and an unknown number gives no error.
    -- `syscall_print_string` is the one with one argument for the number 0.
    pub defn_syscalls_lem :
        (num p1 p2 p3 p4 p5 : ℕ) (regs : Registers) (s : S)
        → (handlers' : Handlers (Run S)) × (initialise_syscalls print_string f handlers
            ≡ ok handlers')
          × (defn_syscall0 handlers' num regs (ok s) ≡ ok (num, ok (served num (pushed regs) s)))
          × (defn_syscall1 handlers' num p1 regs (ok s)
              ≡ ok (num, ok (served num (p1 ∷ regs.ecx ∷ regs.edx ∷ regs.esi ∷ regs.edi ∷ []) s)))
          × (defn_syscall2 handlers' num p1 p2 regs (ok s)
              ≡ ok (num, ok (served num (p1 ∷ p2 ∷ regs.edx ∷ regs.esi ∷ regs.edi ∷ []) s)))
          × (defn_syscall3 handlers' num p1 p2 p3 regs (ok s)
              ≡ ok (num, ok (served num (p1 ∷ p2 ∷ p3 ∷ regs.esi ∷ regs.edi ∷ []) s)))
          × (defn_syscall4 handlers' num p1 p2 p3 p4 regs (ok s)
              ≡ ok (num, ok (served num (p1 ∷ p2 ∷ p3 ∷ p4 ∷ regs.edi ∷ []) s)))
          × (defn_syscall5 handlers' num p1 p2 p3 p4 p5 regs (ok s)
              ≡ ok (num, ok (served num (p1 ∷ p2 ∷ p3 ∷ p4 ∷ p5 ∷ []) s)))
          × (syscall_print_string handlers' p1 regs (ok s)
              ≡ ok (0, ok (served 0 (p1 ∷ regs.ecx ∷ regs.edx ∷ regs.esi ∷ regs.edi ∷ []) s)))
    unfolding initialise_syscalls register_interrupt_handler defn_syscall0 defn_syscall1
        defn_syscall2 defn_syscall3 defn_syscall4 defn_syscall5 syscall_print_string
    defn_syscalls_lem num p1 p2 p3 p4 p5 regs s = (
      installed,
      write-set handlers 0x80 (some (on_copy print_string f)) (omega (arith, len)),
      trap-served num (record regs { eax = num }) s refl,
      trap-served num (record regs { eax = num; ebx = p1 }) s refl,
      trap-served num (record regs { eax = num; ebx = p1; ecx = p2 }) s refl,
      trap-served num (record regs { eax = num; ebx = p1; ecx = p2; edx = p3 }) s refl,
      trap-served num (record regs { eax = num; ebx = p1; ecx = p2; edx = p3; esi = p4 }) s refl,
      trap-served num (record regs { eax = num; ebx = p1; ecx = p2; edx = p3; esi = p4; edi = p5 })
          s refl,
      trap-served 0 (record regs { eax = 0; ebx = p1 }) s refl,
    )
