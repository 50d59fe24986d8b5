-- ===== src/Interrupts/Dispatch.antt =====
-- What the handlers of cpu/isr.c do with an interrupt.
use matanos.Base.{
  ℕ, zero, suc, ◌+◌, ◌<◌, ltb, if◌then◌else◌, ne→==, arith, none, some, ok, u8, u32, bit_and, ◌≡◌,
  refl, bit_and-low_ones, read-get_or, write-set, get_or, set, length, get_or-set_self,
  get_or-set_ne, length-set, ◌∙◌,
}
use matanos.Ports.{Ports}
use matanos.Pic.{pic_send_eoi}
use matanos.Interrupts.{
  Registers, Handler, Handlers, call, isr_handler, irq_handler, register_interrupt_handler,
}

-- The registers that an exception returns to: behind the dividing instruction for vector 0.
unfoldable pub resumed : ℕ → Registers → Registers
resumed zero regs = record regs { eip = u32 (regs.eip + 2) }
resumed (suc n) regs = regs

low_byte : (n : ℕ) → n < 256 → u8 (bit_and n 0xFF) ≡ n
low_byte n h = omega (arith, bit_and-low_ones 8 n)

isr_handler-at :
    {S : Type 0} (handlers : Handlers S) (n : ℕ) (regs : Registers) (s : S)
    → length handlers ≡ 256
    → regs.int_no ≡ n
    → n < 256
    → isr_handler handlers regs s
      ≡ ok (resumed n regs, call (get_or handlers n none) (resumed n regs) s)
unfolding resumed isr_handler
isr_handler-at handlers zero regs s len e h =
    rw (isr_handler, e, read-get_or handlers 0 none (omega arith)) refl
isr_handler-at handlers (suc n) regs s len e h =
    rw
      (
        isr_handler,
        e,
        low_byte (suc n) h,
        ne→== (suc n) 0 (λ e. omega arith),
        read-get_or handlers (suc n) none (omega arith),
      )
      refl

module _ {S : Type 0} (n : ℕ) (h : Handler S) (handlers : Handlers S) (len : length handlers ≡ 256)
    (small : n < 256) where
  -- In a table of 256 handlers, registering a handler for a vector `n` below 256 succeeds. An
  -- exception on `n` then calls it, with the instruction pointer behind the dividing
  -- instruction for vector 0, and an exception on another vector below 256 is treated as
  -- before.
  pub register-isr_handler :
      (handlers' : Handlers S) × (register_interrupt_handler n h handlers ≡ ok handlers')
      × ((regs : Registers) (s : S)
          → regs.int_no ≡ n
          → isr_handler handlers' regs s ≡ ok (resumed n regs, h (resumed n regs) s))
      × ((regs : Registers) (s : S)
          → ¬ (n ≡ regs.int_no)
          → regs.int_no < 256
          → isr_handler handlers' regs s ≡ isr_handler handlers regs s)
  unfolding register_interrupt_handler call
  register-isr_handler =
      let len' = length-set handlers n (some h) ∙ len in
      (
        set handlers n (some h),
        write-set handlers n (some h) (omega arith),
        (λ regs s e.
            rw
              (
                isr_handler-at (set handlers n (some h)) n regs s len' e small,
                get_or-set_self handlers n (some h) none (omega arith),
              )
              refl),
        (λ regs s ne lt.
            rw
              (
                isr_handler-at (set handlers n (some h)) regs.int_no regs s len' refl lt,
                isr_handler-at handlers regs.int_no regs s len refl lt,
                get_or-set_ne handlers n regs.int_no (some h) none ne,
              )
              refl),
      )

  -- In a table of 256 handlers, after a handler is registered for a vector `n` below 256, an
  -- interrupt request on `n` calls it after the acknowledgement, which the master always gets
  -- and the slave for the vectors from 40 on.
  register-irq_handler :
      (p : Ports S) (regs : Registers) (s : S)
      → regs.int_no ≡ n
      → (handlers' : Handlers S) × (register_interrupt_handler n h handlers ≡ ok handlers')
        × (irq_handler p handlers' regs s
            ≡ ok (
                h regs (
                  p.port_byte_out 0x20 0x20 (if ltb n 40 then s else p.port_byte_out 0xA0 0x20 s))))
  unfolding register_interrupt_handler call pic_send_eoi irq_handler
  register-irq_handler p regs s e =
      let low : u8 n ≡ n = omega arith in
      (
        set handlers n (some h),
        write-set handlers n (some h) (omega arith),
        rw
            (
              irq_handler,
              e,
              low,
              read-get_or (set handlers n (some h)) n none
                  (omega (arith, length-set handlers n (some h))),
              get_or-set_self handlers n (some h) none (omega arith),
            )
            refl,
      )

kept : (n : ℕ) (regs : Registers) → (resumed n regs).eax ≡ regs.eax
unfolding resumed
kept zero regs = refl
kept (suc n) regs = refl

-- With a table of 256 handlers, an exception returns for every vector below 256. The registers that the stub restores are the interrupted ones, up to the instruction pointer: whatever a handler does to its copy is lost.
isr_handler-registers :
    {S : Type 0} (handlers : Handlers S) (regs : Registers) (s : S)
    → length handlers ≡ 256
    → regs.int_no < 256
    → (s' : S) × (isr_handler handlers regs s ≡ ok (resumed regs.int_no regs, s'))
      × ((resumed regs.int_no regs).eax ≡ regs.eax)
isr_handler-registers handlers regs s len h =
    (_, isr_handler-at handlers regs.int_no regs s len refl h, kept regs.int_no regs)
