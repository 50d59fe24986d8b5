-- ===== src/Ports.antt =====
-- The port instructions of drivers/ports.c and `io_wait` of cpu/isr.h. The devices behind the
-- ports are not part of the program: their state `S`, and what a read and a write do to it, are
-- parameters.
use matanos.Base.{ℕ, List, [], ◌∷◌}

-- A machine whose devices have states in `S`.
pub record Ports (S : Type 0) : Type 0 where
  pub port_byte_in : ℕ → S → ℕ × S
  pub port_byte_out : (port value : ℕ) → S → S

-- Writes in their order.
unfoldable pub outs : {S : Type 0} → Ports S → List (ℕ × ℕ) → S → S
outs p [] s = s
outs p ((port, value) ∷ ws) s = outs p ws (p.port_byte_out port value s)
