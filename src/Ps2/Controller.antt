-- ===== src/Ps2/Controller.antt =====
-- What drivers/keyboard.c relies on of the keyboard controller, an 8042: its configuration byte, its
-- output buffer, and its commands.
use matanos.Base.{ℕ, suc, ◌/◌, ◌%◌, ◌<◌, ◌≡◌, refl, arith, Bool, if◌then◌else◌}
use matanos.Ports.{Ports}
use matanos.Ps2.{Ps2Config, config_of, config_byte}

-- Fields that are bits.
pub record IsConfig (c : Ps2Config) : Type 0 where
  pub port1_irq_status : c.port1_irq_status < 2
  pub port2_irq_status : c.port2_irq_status < 2
  pub system_flag : c.system_flag < 2
  pub zero1 : c.zero1 < 2
  pub port1_clock_status : c.port1_clock_status < 2
  pub port2_clock_status : c.port2_clock_status < 2
  pub port1_translation_status : c.port1_translation_status < 2
  pub zero2 : c.zero2 < 2

-- A controller, with a second channel if `second`. `pending` is the number of bytes in its output
-- buffer. A command to the second channel of a controller that has one channel is ignored: bit 5 of
-- the configuration stays as it is, set or not.
pub record Controller {S : Type 0} (p : Ports S) (second : Bool) : Type 0 where
  pub config : S → ℕ
  pub pending : S → ℕ
  pub waited : (s : S) → config (p.port_byte_out 0x80 0 s) ≡ config s
  pub waited_pending : (s : S) → pending (p.port_byte_out 0x80 0 s) ≡ pending s
  pub status_empty : (s : S) → pending s ≡ 0 → (p.port_byte_in 0x64 s).0 % 2 ≡ 0
  pub status_full : (s : S) (n : ℕ) → pending s ≡ suc n → (p.port_byte_in 0x64 s).0 % 2 ≡ 1
  pub status_config : (s : S) → config ((p.port_byte_in 0x64 s).1) ≡ config s
  pub status_pending : (s : S) → pending ((p.port_byte_in 0x64 s).1) ≡ pending s
  pub data_config : (s : S) → config ((p.port_byte_in 0x60 s).1) ≡ config s
  pub data_pending : (s : S) (n : ℕ) → pending s ≡ suc n → pending ((p.port_byte_in 0x60 s).1) ≡ n
  pub disabled1 :
      (s : S)
      → config_of (config (p.port_byte_out 0x64 0xAD s))
        ≡ record (config_of (config s)) { port1_clock_status = 1 }
  pub disabled1_pending : (s : S) → pending (p.port_byte_out 0x64 0xAD s) ≡ pending s
  pub disabled2 :
      (s : S)
      → config_of (config (p.port_byte_out 0x64 0xA7 s)) ≡ record (config_of (config s)) {
        port2_clock_status = if second then 1 else (config_of (config s)).port2_clock_status;
      }
  pub disabled2_pending : (s : S) → pending (p.port_byte_out 0x64 0xA7 s) ≡ pending s
  pub enabled1 :
      (s : S)
      → config_of (config (p.port_byte_out 0x64 0xAE s))
        ≡ record (config_of (config s)) { port1_clock_status = 0 }
  pub enabled1_pending : (s : S) → pending (p.port_byte_out 0x64 0xAE s) ≡ pending s
  pub enabled2 :
      (s : S)
      → config_of (config (p.port_byte_out 0x64 0xA8 s)) ≡ record (config_of (config s)) {
        port2_clock_status = if second then 0 else (config_of (config s)).port2_clock_status;
      }
  pub enabled2_pending : (s : S) → pending (p.port_byte_out 0x64 0xA8 s) ≡ pending s
  pub read :
      (s : S) → pending s ≡ 0 → (p.port_byte_in 0x60 (p.port_byte_out 0x64 0x20 s)).0 ≡ config s
  pub read_config :
      (s : S)
      → pending s ≡ 0
      → config ((p.port_byte_in 0x60 (p.port_byte_out 0x64 0x20 s)).1) ≡ config s
  pub read_pending :
      (s : S) → pending s ≡ 0 → pending ((p.port_byte_in 0x60 (p.port_byte_out 0x64 0x20 s)).1) ≡ 0
  pub written :
      (s : S) (v : ℕ) → v < 256 → config (p.port_byte_out 0x60 v (p.port_byte_out 0x64 0x60 s)) ≡ v
  pub written_pending :
      (s : S) (v : ℕ) → pending (p.port_byte_out 0x60 v (p.port_byte_out 0x64 0x60 s)) ≡ pending s

-- A configuration read back from its byte.
pub config_of-config_byte : (c : Ps2Config) → IsConfig c → config_of (config_byte c) ≡ c
unfolding config_of config_byte
config_of-config_byte c h =
    let h1 = h.port1_irq_status in
    let h2 = h.port2_irq_status in
    let h3 = h.system_flag in
    let h4 = h.zero1 in
    let h5 = h.port1_clock_status in
    let h6 = h.port2_clock_status in
    let h7 = h.port1_translation_status in
    let h8 = h.zero2 in
    let b = config_byte c in
    let e1 : config_byte c % 2 ≡ c.port1_irq_status = omega arith in
    let e2 : config_byte c / 2 % 2 ≡ c.port2_irq_status = omega arith in
    let e3 : config_byte c / 4 % 2 ≡ c.system_flag = omega arith in
    let e4 : config_byte c / 8 % 2 ≡ c.zero1 = omega arith in
    let e5 : config_byte c / 16 % 2 ≡ c.port1_clock_status = omega arith in
    let e6 : config_byte c / 32 % 2 ≡ c.port2_clock_status = omega arith in
    let e7 : config_byte c / 64 % 2 ≡ c.port1_translation_status = omega arith in
    let e8 : config_byte c / 128 % 2 ≡ c.zero2 = omega arith in
    rw (e1, e2, e3, e4, e5, e6, e7, e8) refl

pub config_byte-bound : (c : Ps2Config) → IsConfig c → config_byte c < 256
unfolding config_byte
config_byte-bound c h =
    let h1 = h.port1_irq_status in
    let h2 = h.port2_irq_status in
    let h3 = h.system_flag in
    let h4 = h.zero1 in
    let h5 = h.port1_clock_status in
    let h6 = h.port2_clock_status in
    let h7 = h.port1_translation_status in let h8 = h.zero2 in omega arith

pub config_of-IsConfig : (v : ℕ) → IsConfig (config_of v)
unfolding config_of
config_of-IsConfig v = record {
  port1_irq_status = omega arith;
  port2_irq_status = omega arith;
  system_flag = omega arith;
  zero1 = omega arith;
  port1_clock_status = omega arith;
  port2_clock_status = omega arith;
  port1_translation_status = omega arith;
  zero2 = omega arith;
}
