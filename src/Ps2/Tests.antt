-- ===== src/Ps2/Tests.antt =====
-- A keyboard controller, and the commands of drivers/keyboard.c to it.
use matanos.Base.{
  ℕ, zero, suc, ◌+◌, ◌-◌, ◌%◌, ◌<◌, ◌==◌, Bool, true, false, if◌then◌else◌, ne→==, ok, out_of_fuel,
  ◌≡◌, refl, ap, arith, inl,
}
use matanos.Ports.{Ports}
use matanos.Ps2.{port1, Channels, config_of, config_byte, disable_devices, probe, send_port, reboot}
use matanos.Ps2.Controller.{Controller, config_of-config_byte}
use matanos.Ps2.Detect.{probe-disable_devices}
use matanos.Ps2.Waiting.{polls, send_port-ready, reboot-out_of_fuel}

-- The configuration byte, the number of pending bytes, and what the next byte of data is: 1 is to
-- read the configuration, 2 to write it.
record Board : Type 0 where
  config : ℕ
  pending : ℕ
  mode : ℕ

abbrev clock1 : (v : ℕ) → ℕ → ℕ
clock1 v b = config_byte (record (config_of b) { port1_clock_status = v })

abbrev clock2 : (v : ℕ) → ℕ → ℕ
clock2 v b = config_byte (record (config_of b) { port2_clock_status = v })

abbrev second_clock : (second : Bool) (v : ℕ) → ℕ → ℕ
second_clock true v b = clock2 v b
second_clock false v b = b

abbrev command : (second : Bool) (v : ℕ) → Board → Board
command second v s =
    if v == 0x20
    then record s { mode = 1 }
    else if v == 0x60
    then record s { mode = 2 }
    else if v == 0xAD
    then record s { config = clock1 1 (s.config) }
    else if v == 0xAE
    then record s { config = clock1 0 (s.config) }
    else if v == 0xA7
    then record s { config = second_clock second 1 (s.config) }
    else if v == 0xA8
    then record s { config = second_clock second 0 (s.config) }
    else s

abbrev board : (second : Bool) → Ports Board
board second = record {
  port_byte_in = λ port s.
      if port == 0x64
      then (if s.pending == 0 then 0 else 1, s)
      else (if s.mode == 1 then s.config else 0xAA, record s { mode = 0; pending = s.pending - 1 });
  port_byte_out = λ port v s.
      if port == 0x64
      then command second v s
      else if port == 0x60
      then record s { config = if s.mode == 2 then v else s.config; mode = 0 }
      else s;
}

clock1_lem :
    (v b : ℕ) → v < 2 → config_of (clock1 v b) ≡ record (config_of b) { port1_clock_status = v }
unfolding config_of
clock1_lem v b h =
    config_of-config_byte (record (config_of b) { port1_clock_status = v })
      (record {
        port1_irq_status = omega arith;
        port2_irq_status = omega arith;
        system_flag = omega arith;
        zero1 = omega arith;
        port1_clock_status = h;
        port2_clock_status = omega arith;
        port1_translation_status = omega arith;
        zero2 = omega arith;
      })

clock2_lem :
    (v b : ℕ) → v < 2 → config_of (clock2 v b) ≡ record (config_of b) { port2_clock_status = v }
unfolding config_of
clock2_lem v b h =
    config_of-config_byte (record (config_of b) { port2_clock_status = v })
      (record {
        port1_irq_status = omega arith;
        port2_irq_status = omega arith;
        system_flag = omega arith;
        zero1 = omega arith;
        port1_clock_status = omega arith;
        port2_clock_status = h;
        port1_translation_status = omega arith;
        zero2 = omega arith;
      })

full_status : (k n : ℕ) → k ≡ suc n → (if k == 0 then 0 else 1) % 2 ≡ 1
full_status k n e = rw (ne→== k 0 (λ z. omega arith)) refl

second_clock_lem :
    (second : Bool) (v b : ℕ)
    → v < 2
    → config_of (second_clock second v b) ≡ record (config_of b) {
      port2_clock_status = if second then v else (config_of b).port2_clock_status;
    }
second_clock_lem true v b h = clock2_lem v b h
second_clock_lem false v b h = refl

board-Controller : (second : Bool) → Controller (board second) second
board-Controller second = record {
  config = λ s. s.config;
  pending = λ s. s.pending;
  waited = λ s. refl;
  waited_pending = λ s. refl;
  status_empty = λ s e. ap (λ n. (if n == 0 then 0 else 1) % 2) e;
  status_full = λ s n e. full_status (s.pending) n e;
  status_config = λ s. refl;
  status_pending = λ s. refl;
  data_config = λ s. refl;
  data_pending = λ s n e. omega arith;
  disabled1 = λ s. clock1_lem 1 (s.config) (omega arith);
  disabled1_pending = λ s. refl;
  disabled2 = λ s. second_clock_lem second 1 (s.config) (omega arith);
  disabled2_pending = λ s. refl;
  enabled1 = λ s. clock1_lem 0 (s.config) (omega arith);
  enabled1_pending = λ s. refl;
  enabled2 = λ s. second_clock_lem second 0 (s.config) (omega arith);
  enabled2_pending = λ s. refl;
  read = λ s e. refl;
  read_config = λ s e. refl;
  read_pending = λ s e. omega arith;
  written = λ s v h. refl;
  written_pending = λ s v. refl;
}

-- Three bytes pending, and a configuration that a firmware may leave, with bit 5 set.
abbrev booted : Board
booted = record { config = 0x67; pending = 3; mode = 0 }

-- The same controller once the start has emptied its output buffer.
abbrev emptied : Board
emptied = record { config = 0x34; pending = 0; mode = 0 }

abbrev unknown : Channels
unknown = record { is_dual_channel = false; should_probe_second_channel = true }

probe-disable_devices_example :
    (ch1 : Channels) × (s1 : Board) × (disable_devices (board false) (3 + suc 0) unknown booted
      ≡ ok (ch1, s1))
    × ((probe (board false) ch1 emptied).0.is_dual_channel ≡ false)
unfolding board-Controller config_of
probe-disable_devices_example =
    probe-disable_devices (board false) (board-Controller false) 0 unknown booted emptied refl refl
      refl

-- A controller whose input buffer is full for a number of readings, and that counts the bytes
-- written to it.
record Slow : Type 0 where
  full_for : ℕ
  bytes : ℕ

abbrev slow : Ports Slow
slow = record {
  port_byte_in = λ port s.
      if port == 0x64
      then (if s.full_for == 0 then 0 else 2, record s { full_for = s.full_for - 1 })
      else (0x55, s);
  port_byte_out = λ port v s. if port == 0x60 then record s { bytes = s.bytes + 1 } else s;
}

send_port-ready_example :
    send_port slow port1 0xFF unknown (record { full_for = 0; bytes = 0 })
    ≡ (true, record { full_for = 0; bytes = 1 })
unfolding polls
send_port-ready_example =
    send_port-ready slow port1 0xFF 0 unknown (record { full_for = 0; bytes = 0 }) (inl refl)
      (omega arith) (λ i h. absurd (omega arith)) refl

-- A controller whose input buffer is always full.
abbrev deaf : Ports ℕ
deaf = record {
  port_byte_in = λ port s. (2, s);
  port_byte_out = λ port v s. if port == 0x60 then s + 1 else s;
}

deaf-polls : (n : ℕ) → polls deaf n 2 0 ≡ (2, 0)
unfolding polls
deaf-polls zero = refl
deaf-polls (suc n) = deaf-polls n

reboot-out_of_fuel_example : reboot deaf 100 0 ≡ out_of_fuel
reboot-out_of_fuel_example = reboot-out_of_fuel deaf 100 0 (λ e. omega arith)
