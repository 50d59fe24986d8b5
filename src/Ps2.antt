-- ===== src/Ps2.antt =====
-- The commands of drivers/keyboard.c to the keyboard controller. Printing is left out.
pub mod Controller
pub mod Detect
pub mod Waiting
mod Tests
use matanos.Base.{
  ℕ, zero, suc, ◌+◌, ◌*◌, ◌/◌, ◌%◌, ◌==◌, Bool, true, false, not, ◌&&◌, ◌||◌, if◌then◌else◌,
  bit_and, bit_or, Run, ok, out_of_fuel, ◌>>=◌, ◌>>◌,
}
use matanos.Ports.{Ports}
use matanos.Interrupts.{Handler, Handlers, register_interrupt_handler}

-- `struct ps2_status`.
pub record Ps2Status : Type 0 where
  pub tx_buf_status : ℕ
  pub rx_buf_status : ℕ
  pub system_flag : ℕ
  pub cmd_or_data : ℕ
  pub unknown1 : ℕ
  pub unknown2 : ℕ
  pub timeout : ℕ
  pub parity : ℕ

unfoldable pub status_of : ℕ → Ps2Status
status_of v = record {
  tx_buf_status = v % 2;
  rx_buf_status = v / 2 % 2;
  system_flag = v / 4 % 2;
  cmd_or_data = v / 8 % 2;
  unknown1 = v / 16 % 2;
  unknown2 = v / 32 % 2;
  timeout = v / 64 % 2;
  parity = v / 128 % 2;
}

-- `struct ps2_config`, from its byte and to it.
pub record Ps2Config : Type 0 where
  pub port1_irq_status : ℕ
  pub port2_irq_status : ℕ
  pub system_flag : ℕ
  pub zero1 : ℕ
  pub port1_clock_status : ℕ
  pub port2_clock_status : ℕ
  pub port1_translation_status : ℕ
  pub zero2 : ℕ

unfoldable pub config_of : ℕ → Ps2Config
config_of v = record {
  port1_irq_status = v % 2;
  port2_irq_status = v / 2 % 2;
  system_flag = v / 4 % 2;
  zero1 = v / 8 % 2;
  port1_clock_status = v / 16 % 2;
  port2_clock_status = v / 32 % 2;
  port1_translation_status = v / 64 % 2;
  zero2 = v / 128 % 2;
}

unfoldable pub config_byte : Ps2Config → ℕ
config_byte c =
    c.port1_irq_status
    + c.port2_irq_status * 2
    + c.system_flag * 4
    + c.zero1 * 8
    + c.port1_clock_status * 16
    + c.port2_clock_status * 32
    + c.port1_translation_status * 64
    + c.zero2 * 128

-- The globals `is_dual_channel` and `should_probe_second_channel`.
pub record Channels : Type 0 where
  pub is_dual_channel : Bool
  pub should_probe_second_channel : Bool

-- `enum ps2_port`.
pub data Ps2Port : Type 0 where
  port1 : Ps2Port
  port2 : Ps2Port

-- `io_wait` of cpu/isr.h.
unfoldable pub io_wait : {S : Type 0} → Ports S → S → S
io_wait p s = p.port_byte_out 0x80 0 s

unfoldable pub read_status : {S : Type 0} → Ports S → S → Ps2Status × S
read_status p s = let (v, s') = p.port_byte_in 0x64 s in (status_of v, s')

unfoldable pub read_config : {S : Type 0} → Ports S → S → Ps2Config × S
read_config p s =
    let (v, s') = p.port_byte_in 0x60 (p.port_byte_out 0x64 0x20 s) in (config_of v, s')

unfoldable pub write_config : {S : Type 0} → Ports S → Ps2Config → S → S
write_config p config s = p.port_byte_out 0x60 (config_byte config) (p.port_byte_out 0x64 0x60 s)

-- The loop of `wait_keyboard`, which does not read the status again. Each round of the source prints
-- the status, which is left out.
unfoldable pub keep_waiting : (fuel c : ℕ) → Run (Unit {0})
keep_waiting zero c = out_of_fuel
keep_waiting (suc fuel) c =
    let rest = keep_waiting fuel c in if bit_and c 0x2 == 0 then ok tt else rest

unfoldable pub wait_keyboard : {S : Type 0} → Ports S → (fuel : ℕ) → S → Run S
wait_keyboard p fuel s = let (c, s') = p.port_byte_in 0x64 s in keep_waiting fuel c >>= λ _. ok s'

-- `init_A20`.
unfoldable pub init_a20 : {S : Type 0} → Ports S → (fuel : ℕ) → S → Run S
init_a20 p fuel s = do
  s1 ← wait_keyboard p fuel s
  s2 ← wait_keyboard p fuel (p.port_byte_out 0x64 0xAD s1)
  let (d, s3) = p.port_byte_in 0x60 (io_wait p (p.port_byte_out 0x64 0xD0 s2))
  s4 ← wait_keyboard p fuel s3
  s5 ← wait_keyboard p fuel (p.port_byte_out 0x64 0xD1 s4)
  s6 ← wait_keyboard p fuel (p.port_byte_out 0x60 (bit_or d 2) s5)
  ok (p.port_byte_out 0x64 0xAE s6)

-- `reboot`.
unfoldable pub reboot : {S : Type 0} → Ports S → (fuel : ℕ) → S → Run S
reboot p fuel s = wait_keyboard p fuel s >>= λ s'. ok (p.port_byte_out 0x64 0xFE s')

-- `i8042_self_test`, with its loop.
unfoldable pub await_response : {S : Type 0} → Ports S → (fuel response : ℕ) → S → Run (Bool × S)
await_response p zero response s = out_of_fuel
await_response p (suc fuel) response s =
    let (next, s') = p.port_byte_in 0x60 s in
    let rest = await_response p fuel next s' in
    if not (response == 0x55) && not (response == 0xFC) then rest else ok (response == 0x55, s)

unfoldable pub i8042_self_test : {S : Type 0} → Ports S → (fuel : ℕ) → S → Run (Bool × S)
i8042_self_test p fuel s =
    let (response, s') = p.port_byte_in 0x60 (p.port_byte_out 0x64 0xAA s) in
    await_response p fuel response s'

-- `disable_devices`, with the loop that flushes the output buffer.
unfoldable pub flush : {S : Type 0} → Ports S → (fuel : ℕ) → Ps2Status → S → Run S
flush p zero status s = out_of_fuel
flush p (suc fuel) status s =
    let (data_byte, s1) = p.port_byte_in 0x60 (io_wait p s) in
    let (status', s2) = read_status p s1 in
    let rest = flush p fuel status' s2 in if not (status.tx_buf_status == 0) then rest else ok s

unfoldable pub disable_devices :
    {S : Type 0} → Ports S → (fuel : ℕ) → Channels → S → Run (Channels × S)
disable_devices p fuel ch s = do
  let (status, s1) = read_status p (p.port_byte_out 0x64 0xA7 (p.port_byte_out 0x64 0xAD s))
  s2 ← flush p fuel status s1
  let (config, s3) = read_config p s2
  let config' = record config {
    port1_irq_status = 0;
    port2_irq_status = 0;
    port1_translation_status = 0;
  }
  let ch' =
      if config.port2_clock_status == 0
      then record { is_dual_channel = false; should_probe_second_channel = false }
      else ch
  ok (ch', write_config p config' s3)

-- `is_channel2_present`.
unfoldable pub is_channel2_present : {S : Type 0} → Ports S → S → Bool × S
is_channel2_present p s =
    let (config, s') = read_config p (p.port_byte_out 0x64 0xA8 s) in
    (config.port2_clock_status == 0, p.port_byte_out 0x64 0xA7 s')

-- `test_ports`.
unfoldable pub test_ports : {S : Type 0} → Ports S → Channels → S → Bool × S
test_ports p ch s =
    let (response, s1) = p.port_byte_in 0x60 (p.port_byte_out 0x64 0xAB s) in
    let (response', s2) = p.port_byte_in 0x60 (p.port_byte_out 0x64 0xA9 s1) in
    if not (response == 0)
    then (false, s1)
    else if ch.is_dual_channel
    then (response' == 0, s2)
    else (true, s1)

-- `enable_ports`.
unfoldable pub enable_ports : {S : Type 0} → Ports S → S → S
enable_ports p s =
    let (config, s') = read_config p (p.port_byte_out 0x64 0xA8 (p.port_byte_out 0x64 0xAE s)) in
    write_config p (record config { port1_irq_status = 1; port2_irq_status = 1 }) s'

-- The loop of `send_port`, on the retries that are left.
unfoldable pub retry : {S : Type 0} → Ports S → (retries : ℕ) → Ps2Status → S → ℕ × S
retry p zero status s = (0, s)
retry p (suc retries) status s =
    let (status', s') = read_status p (io_wait p s) in
    let rest = retry p retries status' s' in
    if not (status.rx_buf_status == 0) then rest else (suc retries, s)

-- `send_port` once its command is out.
unfoldable pub send_data : {S : Type 0} → Ports S → (data_byte : ℕ) → Ps2Status → S → Bool × S
send_data p data_byte status s =
    let (retries, s') = retry p 1000 status s in
    if retries == 0 then (false, s') else (true, p.port_byte_out 0x60 data_byte s')

-- `send_port`.
unfoldable pub send_port :
    {S : Type 0} → Ports S → Ps2Port → (data_byte : ℕ) → Channels → S → Bool × S
send_port p port1 data_byte ch s =
    let (status, s1) = read_status p s in send_data p data_byte status s1
send_port p port2 data_byte ch s =
    let (status, s1) = read_status p s in
    if not ch.is_dual_channel
    then (false, s1)
    else send_data p data_byte status (p.port_byte_out 0x64 0xD4 s1)

-- `reset_devices`.
unfoldable pub reset_devices : {S : Type 0} → Ports S → Channels → S → Bool × S
reset_devices p ch s =
    let (ret, s1) = send_port p port1 0xFF ch s in
    if not ret
    then (ret, s1)
    else if ch.is_dual_channel
    then send_port p port2 0xFF ch s1
    else (ret, s1)

-- `set_keyboard_scancode`.
unfoldable pub set_keyboard_scancode : {S : Type 0} → Ports S → Channels → S → Bool × S
set_keyboard_scancode p ch s =
    let (first, s1) = send_port p port1 0xF0 ch s in
    let (second, s2) = send_port p port1 0x01 ch s1 in
    let (status, s3) = p.port_byte_in 0x60 (io_wait p s2) in
    if not first then (false, s1) else if not second then (false, s2) else (status == 0xFA, s3)

-- The part of `init_keyboard` that looks for the second channel.
unfoldable pub probe : {S : Type 0} → Ports S → Channels → S → Channels × S
probe p ch s =
    if ch.should_probe_second_channel
    then (let (present, s') = is_channel2_present p s in
        (record ch { is_dual_channel = present }, s'))
    else (ch, s)

-- `init_keyboard`. `fuel` is for the two loops on the output buffer.
unfoldable pub init_keyboard :
    {S : Type 0}
    → Ports S
    → (fuel : ℕ) → (keyboard_callback : Handler S) → Channels
    → Handlers S
    → S
    → Run (Bool × Channels × Handlers S × S)
init_keyboard p fuel keyboard_callback ch handlers s = do
  (ch1, s1) ← disable_devices p fuel ch s
  (passed, s2) ← i8042_self_test p fuel s1
  let (ch2, s3) = probe p ch1 s2
  let (tested, s4) = test_ports p ch2 s3
  if not passed
      then ok (false, ch1, handlers, s2)
      else (if not tested then ok (false, ch2, handlers, s4) else (do
        handlers' ← register_interrupt_handler 33 keyboard_callback handlers
        let (reset, s5) = reset_devices p ch2 (enable_ports p s4)
        let (set, s6) = set_keyboard_scancode p ch2 s5
        ok (if reset then (true, ch2, handlers', s6) else (false, ch2, handlers', s5))))
