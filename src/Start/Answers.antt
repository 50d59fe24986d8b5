-- ===== src/Start/Answers.antt =====
-- What the kernel's start relies on of the keyboard controller, and the loops of
-- drivers/keyboard.c that wait for it there.
use matanos.Base.{
  ℕ, zero, suc, ◌/◌, ◌%◌, ◌<◌, ◌==◌, ◌⊎◌, inl, inr, Bool, true, false, not, ◌&&◌, Bool-cases, ◌≡◌,
  refl, arith, ok,
}
use matanos.Ports.{Ports}
use matanos.Ps2.{status_of, read_status, io_wait, flush, await_response}
use matanos.Ps2.Waiting.{replies}

module _ {S : Type 0} (p : Ports S) where
  -- `n` further readings of the status, each once a byte has been read from the data port: the last
  -- status, and the machine.
  unfoldable pub drained : (n v : ℕ) → S → ℕ × S
  drained zero v s = (v, s)
  drained (suc n) v s =
      let (v', s') = p.port_byte_in 0x64 ((p.port_byte_in 0x60 (p.port_byte_out 0x80 0 s)).1) in
      drained n v' s'

  flush-returns :
      (n fuel v : ℕ) (s : S)
      → n < fuel
      → (drained n v s).0 % 2 ≡ 0
      → (s' : S) × (flush p fuel (status_of v) s ≡ ok s')
  unfolding flush drained read_status status_of io_wait
  flush-returns n zero v s h empty = absurd (omega arith)
  flush-returns zero (suc fuel) v s h empty = (s, rw empty refl)
  flush-returns (suc n) (suc fuel) v s h empty =
      let r = p.port_byte_in 0x64 ((p.port_byte_in 0x60 (p.port_byte_out 0x80 0 s)).1) in
      elim (Bool-cases (v % 2 == 0)) [
        | inl done ↦ (s, rw done refl)
        | inr full ↦
            let (s', run) = flush-returns n fuel r.0 r.1 (omega arith) empty in (s', rw full run)
      ]

  await_response-returns :
      (n fuel v : ℕ) (s : S)
      → n < fuel
      → ((replies p n v s).0 ≡ 0x55) ⊎ ((replies p n v s).0 ≡ 0xFC)
      → (passed : Bool) × (s' : S) × (await_response p fuel v s ≡ ok (passed, s'))
  unfolding await_response replies
  await_response-returns n zero v s h last = absurd (omega arith)
  await_response-returns zero (suc fuel) v s h (inl pass) = (true, s, rw pass refl)
  await_response-returns zero (suc fuel) v s h (inr failed) = (false, s, rw failed refl)
  await_response-returns (suc n) (suc fuel) v s h last =
      let r = p.port_byte_in 0x60 s in
      elim (Bool-cases (not (v == 0x55) && not (v == 0xFC))) [
        | inl more ↦
            let (passed, s', run) = await_response-returns n fuel r.0 r.1 (omega arith) last in
            (passed, s', rw more run)
        | inr over ↦ (v == 0x55, s, rw over refl)
      ]

  -- A controller that takes each byte at once. Behind the commands that disable both channels, its
  -- output buffer runs empty after fewer than `fuel` bytes. Behind the command of the self-test,
  -- fewer than `fuel` bytes stand in front of the answer, which is that of success or of failure.
  pub record Responds (fuel : ℕ) : Type 0 where
    pub free : (s : S) → (p.port_byte_in 0x64 s).0 / 2 % 2 ≡ 0
    pub empties :
        (s : S)
        → (n : ℕ) × (n < fuel)
          × ((drained n
                  ((p.port_byte_in 0x64
                    (p.port_byte_out 0x64 0xA7 (p.port_byte_out 0x64 0xAD s))).0)
                  ((p.port_byte_in 0x64
                    (p.port_byte_out 0x64 0xA7 (p.port_byte_out 0x64 0xAD s))).1)).0
                % 2
              ≡ 0)
    pub answers :
        (s : S)
        → (n : ℕ) × (n < fuel)
          × (((replies p n
                  ((p.port_byte_in 0x60 (p.port_byte_out 0x64 0xAA s)).0)
                  ((p.port_byte_in 0x60 (p.port_byte_out 0x64 0xAA s)).1)).0
                ≡ 0x55)
              ⊎ ((replies p n
                    ((p.port_byte_in 0x60 (p.port_byte_out 0x64 0xAA s)).0)
                    ((p.port_byte_in 0x60 (p.port_byte_out 0x64 0xAA s)).1)).0
                  ≡ 0xFC))

  module _ (fuel : ℕ) (laws : Responds fuel) where
    -- The loop of `disable_devices` and that of `i8042_self_test` return.
    pub flush-ok :
        (s : S)
        → (s' : S) × (flush p fuel
              ((read_status p (p.port_byte_out 0x64 0xA7 (p.port_byte_out 0x64 0xAD s))).0)
              ((read_status p (p.port_byte_out 0x64 0xA7 (p.port_byte_out 0x64 0xAD s))).1)
            ≡ ok s')
    unfolding read_status
    flush-ok s =
        let r = p.port_byte_in 0x64 (p.port_byte_out 0x64 0xA7 (p.port_byte_out 0x64 0xAD s)) in
        let (n, few, empty) = laws.empties s in flush-returns n fuel r.0 r.1 few empty

    pub await_response-ok :
        (s : S)
        → (passed : Bool) × (s' : S) × (await_response p fuel
              ((p.port_byte_in 0x60 (p.port_byte_out 0x64 0xAA s)).0)
              ((p.port_byte_in 0x60 (p.port_byte_out 0x64 0xAA s)).1)
            ≡ ok (passed, s'))
    await_response-ok s =
        let r = p.port_byte_in 0x60 (p.port_byte_out 0x64 0xAA s) in
        let (n, few, last) = laws.answers s in await_response-returns n fuel r.0 r.1 few last
