-- ===== src/Ps2/Waiting.antt =====
-- The loops of drivers/keyboard.c that wait for the keyboard controller.
use matanos.Base.{
  ℕ, zero, suc, ◌+◌, ◌-◌, ◌/◌, ◌%◌, ◌<◌, ◌==◌, true, false, ne→==, bit_and, ok, out_of_fuel, ◌⊎◌,
  inl, inr, ◌≡◌, refl, sym, arith,
}
use matanos.Ports.{Ports}
use matanos.Ps2.{
  Ps2Port, port1, port2, Channels, status_of, read_status, io_wait, retry, send_data, send_port,
  keep_waiting, wait_keyboard, reboot, await_response, i8042_self_test,
}

-- `n` further readings of the status, each behind `io_wait`: the last byte read, and the machine.
unfoldable pub polls : {S : Type 0} → Ports S → (n v : ℕ) → S → ℕ × S
polls p zero v s = (v, s)
polls p (suc n) v s =
    let (v', s') = p.port_byte_in 0x64 (p.port_byte_out 0x80 0 s) in polls p n v' s'

-- The input buffer of the controller is full.
abbrev pub Busy : ℕ → Type 0
Busy v = ¬ (v / 2 % 2 ≡ 0)

module _ {S : Type 0} (p : Ports S) where
  retry-ready :
      (n left v : ℕ) (s : S)
      → ((i : ℕ) → i < n → Busy ((polls p i v s).0))
      → (polls p n v s).0 / 2 % 2 ≡ 0
      → retry p (n + suc left) (status_of v) s ≡ (suc left, (polls p n v s).1)
  unfolding retry polls status_of read_status io_wait
  retry-ready zero left v s busy ready =
      let rounds : 0 + suc left ≡ suc left = omega arith in rw (rounds, ready) refl
  retry-ready (suc n) left v s busy ready =
      let r = p.port_byte_in 0x64 (p.port_byte_out 0x80 0 s) in
      let rounds : suc n + suc left ≡ suc (n + suc left) = omega arith in
      rw (rounds, ne→== (v / 2 % 2) 0 (busy 0 (omega arith)))
        (retry-ready n left (r.0) (r.1) (λ i h. busy (suc i) (omega arith)) ready)

  retry-Busy :
      (n v : ℕ) (s : S)
      → ((i : ℕ) → i < n → Busy ((polls p i v s).0))
      → retry p n (status_of v) s ≡ (0, (polls p n v s).1)
  unfolding retry polls status_of read_status io_wait
  retry-Busy zero v s busy = refl
  retry-Busy (suc n) v s busy =
      let r = p.port_byte_in 0x64 (p.port_byte_out 0x80 0 s) in
      rw (ne→== (v / 2 % 2) 0 (busy 0 (omega arith)))
        (retry-Busy n (r.0) (r.1) (λ i h. busy (suc i) (omega arith)))

  -- The machine behind the command of `send_port`.
  abbrev pub commanded : Ps2Port → S → S
  commanded port1 s = s
  commanded port2 s = p.port_byte_out 0x64 0xD4 s

  -- The readings of `send_port`, the first one before the command.
  abbrev pub polled : Ps2Port → ℕ → S → ℕ × S
  polled port n s =
      polls p n ((p.port_byte_in 0x64 s).0) (commanded port ((p.port_byte_in 0x64 s).1))

  send_data-ready :
      (data_byte n v : ℕ) (s : S)
      → n < 1000
      → ((i : ℕ) → i < n → Busy ((polls p i v s).0))
      → (polls p n v s).0 / 2 % 2 ≡ 0
      → send_data p data_byte (status_of v) s
        ≡ (true, p.port_byte_out 0x60 data_byte ((polls p n v s).1))
  unfolding send_data
  send_data-ready data_byte n v s h busy ready =
      let rounds : n + suc (999 - n) ≡ 1000 = omega arith in
      let found : retry p 1000 (status_of v) s ≡ (suc (999 - n), (polls p n v s).1) =
        rw (sym rounds) (retry-ready n (999 - n) v s busy ready) in
      rw (found, ne→== (suc (999 - n)) 0 (λ e. omega arith)) refl

  send_data-Busy :
      (data_byte v : ℕ) (s : S)
      → ((i : ℕ) → i < 1000 → Busy ((polls p i v s).0))
      → send_data p data_byte (status_of v) s ≡ (false, (polls p 1000 v s).1)
  unfolding send_data
  send_data-Busy data_byte v s busy = rw (retry-Busy 1000 v s busy) refl

  -- A port that exists, and a controller that is busy for `n` readings of the status, fewer than
  -- 1000, and then ready. The byte is written behind the last of them. For the second port the
  -- first reading is from before the command.
  pub send_port-ready :
      (port : Ps2Port) (data_byte n : ℕ) (ch : Channels) (s : S)
      → (port ≡ port1) ⊎ (ch.is_dual_channel ≡ true)
      → n < 1000
      → ((i : ℕ) → i < n → Busy ((polled port i s).0))
      → (polled port n s).0 / 2 % 2 ≡ 0
      → send_port p port data_byte ch s
        ≡ (true, p.port_byte_out 0x60 data_byte ((polled port n s).1))
  unfolding send_port read_status
  send_port-ready port1 data_byte n ch s there h busy ready =
      send_data-ready data_byte n ((p.port_byte_in 0x64 s).0) ((p.port_byte_in 0x64 s).1) h busy
        ready
  send_port-ready port2 data_byte n ch s (inl e) h busy ready = absurd (cc)
  send_port-ready port2 data_byte n ch s (inr dual) h busy ready = rw dual (
      send_data-ready data_byte n ((p.port_byte_in 0x64 s).0)
        (p.port_byte_out 0x64 0xD4 ((p.port_byte_in 0x64 s).1)) h busy ready)

  -- A port that exists, and a controller that is busy for 1000 readings of the status. `send_port`
  -- fails and writes no byte, whatever the 1001st reading shows.
  send_port-Busy :
      (port : Ps2Port) (data_byte : ℕ) (ch : Channels) (s : S)
      → (port ≡ port1) ⊎ (ch.is_dual_channel ≡ true)
      → ((i : ℕ) → i < 1000 → Busy ((polled port i s).0))
      → send_port p port data_byte ch s ≡ (false, (polled port 1000 s).1)
  unfolding send_port read_status
  send_port-Busy port1 data_byte ch s there busy =
      send_data-Busy data_byte ((p.port_byte_in 0x64 s).0) ((p.port_byte_in 0x64 s).1) busy
  send_port-Busy port2 data_byte ch s (inl e) busy = absurd (cc)
  send_port-Busy port2 data_byte ch s (inr dual) busy = rw dual (
      send_data-Busy data_byte ((p.port_byte_in 0x64 s).0)
        (p.port_byte_out 0x64 0xD4 ((p.port_byte_in 0x64 s).1)) busy)

  stuck : (fuel c : ℕ) → ¬ (bit_and c 2 ≡ 0) → keep_waiting fuel c ≡ out_of_fuel
  unfolding keep_waiting
  stuck zero c h = refl
  stuck (suc fuel) c h = rw (ne→== (bit_and c 2) 0 h) (stuck fuel c h)

  -- `reboot`, without the message that each of its rounds prints, when the first reading of the
  -- status shows a full buffer: it does not return within any number of rounds, whatever the
  -- controller does later.
  pub reboot-out_of_fuel :
      (fuel : ℕ) (s : S)
      → ¬ (bit_and ((p.port_byte_in 0x64 s).0) 2 ≡ 0)
      → reboot p fuel s ≡ out_of_fuel
  unfolding reboot wait_keyboard
  reboot-out_of_fuel fuel s full = rw (stuck fuel ((p.port_byte_in 0x64 s).0) full) refl

  -- `n` further readings of the data port: the last byte read, and the machine.
  unfoldable pub replies : (n v : ℕ) → S → ℕ × S
  replies zero v s = (v, s)
  replies (suc n) v s = let (v', s') = p.port_byte_in 0x60 s in replies n v' s'

  await_response_lem :
      (n more v : ℕ) (s : S)
      → ((i : ℕ) → i < n → (¬ ((replies i v s).0 ≡ 0x55)) × (¬ ((replies i v s).0 ≡ 0xFC)))
      → ((replies n v s).0 ≡ 0x55) ⊎ ((replies n v s).0 ≡ 0xFC)
      → await_response p (n + suc more) v s ≡ ok ((replies n v s).0 == 0x55, (replies n v s).1)
  unfolding await_response replies
  await_response_lem zero more v s before (inl pass) =
      let rounds : 0 + suc more ≡ suc more = omega arith in rw (rounds, pass) refl
  await_response_lem zero more v s before (inr failed) =
      let rounds : 0 + suc more ≡ suc more = omega arith in rw (rounds, failed) refl
  await_response_lem (suc n) more v s before last =
      let rounds : suc n + suc more ≡ suc (n + suc more) = omega arith in
      let first = before 0 (omega arith) in
      let r = p.port_byte_in 0x60 s in
      rw (rounds, ne→== v 0x55 (first.0), ne→== v 0xFC (first.1))
        (await_response_lem n more (r.0) (r.1) (λ i h. before (suc i) (omega arith)) last)

  -- The readings of `i8042_self_test` behind its command.
  abbrev pub answers : ℕ → S → ℕ × S
  answers n s =
      replies n ((p.port_byte_in 0x60 (p.port_byte_out 0x64 0xAA s)).0)
        ((p.port_byte_in 0x60 (p.port_byte_out 0x64 0xAA s)).1)

  -- A controller that answers the self test at the `n`-th further reading, and not before. The test
  -- returns, with `n + 1` rounds or more, and says whether that answer is the one of success.
  i8042_self_test_lem :
      (n more : ℕ) (s : S)
      → ((i : ℕ) → i < n → (¬ ((answers i s).0 ≡ 0x55)) × (¬ ((answers i s).0 ≡ 0xFC)))
      → ((answers n s).0 ≡ 0x55) ⊎ ((answers n s).0 ≡ 0xFC)
      → i8042_self_test p (n + suc more) s ≡ ok ((answers n s).0 == 0x55, (answers n s).1)
  unfolding i8042_self_test
  i8042_self_test_lem n more s before last =
      await_response_lem n more ((p.port_byte_in 0x60 (p.port_byte_out 0x64 0xAA s)).0)
        ((p.port_byte_in 0x60 (p.port_byte_out 0x64 0xAA s)).1) before last
