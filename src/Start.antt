-- ===== src/Start.antt =====
-- The start of the kernel in kernel/kernel.c, up to the paging.
pub mod Answers
pub mod Returns
mod Tests
use matanos.Base.{ℕ, Run, ok, panic, ◌>>=◌}
use matanos.Ports.{Ports}
use matanos.Segments.{Tables, init_gdt}
use matanos.Interrupts.{
  Idt, Stubs, Registers, Handler, Handlers, isr_install, init_timer, register_interrupt_handler,
}
use matanos.Ps2.{Channels, init_a20, init_keyboard}

-- What the initialisers set up: the descriptor tables, the handlers, the keyboard's channels, and the
-- state of the devices.
pub record Started (S : Type 0) : Type 0 where
  pub tables : Tables
  pub idt : Idt
  pub handlers : Handlers S
  pub channels : Channels
  pub devices : S

-- The part of `main` in front of `initialise_paging`, with the functions whose addresses it
-- registers. Of `A20_sanity_checks` the call of `init_A20` stands here: the two writes to free memory
-- and the messages are left out. `main` does not look at the result of `init_keyboard`.
unfoldable pub start :
    {S : Type 0}
    → Ports S
    → Stubs
    → (fuel : ℕ) → (timer_callback keyboard_callback general_fault : Handler S) → Started S
    → Run (Started S)
start p st fuel timer_callback keyboard_callback general_fault b = do
  s1 ← init_a20 p fuel b.devices
  tables ← init_gdt b.tables
  (idt, s2) ← isr_install p st b.idt s1
  (handlers1, s3) ← init_timer p 50 timer_callback b.handlers s2
  (passed, channels, handlers2, s4) ← init_keyboard p fuel keyboard_callback b.channels handlers1 s3
  handlers3 ← register_interrupt_handler 13 general_fault handlers2
  ok (record {
    tables = tables;
    idt = idt;
    handlers = handlers3;
    channels = channels;
    devices = s4;
  })
