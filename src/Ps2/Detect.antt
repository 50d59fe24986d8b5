-- ===== src/Ps2/Detect.antt =====
-- The set-up of the keyboard controller by drivers/keyboard.c, on a controller that keeps its laws.
use matanos.Base.{
  ℕ, zero, suc, ◌+◌, ◌%◌, ◌==◌, Bool, true, false, if◌then◌else◌, ok, ◌≡◌, refl, sym, ap, ◌∙◌,
  arith, inl, inr, Bool-cases,
}
use matanos.Ports.{Ports}
use matanos.Ps2.{
  Ps2Config, Channels, config_of, config_byte, status_of, read_status, read_config, write_config,
  io_wait, flush, disable_devices, is_channel2_present, enable_ports, probe,
}
use matanos.Ps2.Controller.{
  IsConfig, Controller, config_of-config_byte, config_byte-bound, config_of-IsConfig,
}

-- The output status of a byte that was read from the status port, for `n` pending bytes.
unfoldable Shows : (n v : ℕ) → Type 0
Shows zero v = v % 2 ≡ 0
Shows (suc n) v = v % 2 ≡ 1

module _ {S : Type 0} (p : Ports S) {second : Bool} (c : Controller p second) where
  status-Shows : (n : ℕ) (s : S) → c.pending s ≡ n → Shows n ((p.port_byte_in 0x64 s).0)
  unfolding Shows
  status-Shows zero s e = c.status_empty s e
  status-Shows (suc n) s e = c.status_full s n e

  flush-empties :
      (n more v : ℕ) (s : S)
      → c.pending s ≡ n
      → Shows n v
      → (s' : S) × (flush p (n + suc more) (status_of v) s ≡ ok s')
        × (c.pending s' ≡ 0)
        × (c.config s' ≡ c.config s)
  unfolding flush status_of read_status io_wait Shows
  flush-empties zero more v s e shown =
      let rounds : 0 + suc more ≡ suc more = omega arith in (s, rw (rounds, shown) refl, e, refl)
  flush-empties (suc n) more v s e shown =
      let waiting = p.port_byte_out 0x80 0 s in
      let s1 = (p.port_byte_in 0x60 waiting).1 in
      let r = p.port_byte_in 0x64 s1 in
      let left = c.data_pending waiting n (c.waited_pending s ∙ e) in
      let left' = c.status_pending s1 ∙ left in
      let (s', run, empty, same) =
        flush-empties n more (r.0) (r.1) left' (status-Shows n s1 left) in
      let rounds : suc n + suc more ≡ suc (n + suc more) = omega arith in
      (
        s',
        rw (rounds, shown) run,
        empty,
        same ∙ c.status_config s1 ∙ c.data_config waiting ∙ c.waited s,
      )

  -- A change of the configuration, read and written back, on an empty output buffer.
  update_lem :
      (f : Ps2Config → Ps2Config) (s : S)
      → ((config : Ps2Config) → IsConfig config → IsConfig (f config))
      → c.pending s ≡ 0
      → (config_of (c.config (write_config p (f ((read_config p s).0)) ((read_config p s).1)))
          ≡ f (config_of (c.config s)))
        × (c.pending (write_config p (f ((read_config p s).0)) ((read_config p s).1)) ≡ 0)
        × ((read_config p s).0 ≡ config_of (c.config s))
  unfolding read_config write_config
  update_lem f s keeps e =
      let r = p.port_byte_in 0x60 (p.port_byte_out 0x64 0x20 s) in
      let config' = f (config_of (r.0)) in
      let bits = keeps (config_of (r.0)) (config_of-IsConfig (r.0)) in
      (
        ap (λ v. config_of v)
              (c.written (r.1) (config_byte config') (config_byte-bound config' bits))
            ∙ config_of-config_byte config' bits
            ∙ ap (λ v. f (config_of v)) (c.read s e),
        c.written_pending (r.1) (config_byte config') ∙ c.read_pending s e,
        ap (λ v. config_of v) (c.read s e),
      )

  shut : Ps2Config → Ps2Config
  shut config = record config {
    port1_irq_status = 0;
    port2_irq_status = 0;
    port1_translation_status = 0;
  }

  shut-IsConfig : (config : Ps2Config) → IsConfig config → IsConfig (shut config)
  unfolding shut
  shut-IsConfig config h = record {
    port1_irq_status = omega arith;
    port2_irq_status = omega arith;
    system_flag = h.system_flag;
    zero1 = h.zero1;
    port1_clock_status = h.port1_clock_status;
    port2_clock_status = h.port2_clock_status;
    port1_translation_status = omega arith;
    zero2 = h.zero2;
  }

  -- The clock bit of the second channel once the channel has been disabled.
  abbrev pub stopped : S → ℕ
  stopped s = if second then 1 else (config_of (c.config s)).port2_clock_status

  -- The flags of the driver behind `disable_devices`, for that bit.
  abbrev noted : ℕ → Channels → Channels
  noted clock ch =
      if clock == 0
      then record { is_dual_channel = false; should_probe_second_channel = false }
      else ch

  -- `disable_devices` on a controller that keeps its laws, with one round for each pending byte and
  -- one more. It returns with the output buffer empty, the interrupts and the translation off, the
  -- clock of each channel that there is stopped, and the rest of the configuration as it was. It
  -- clears both flags of the driver if the clock bit of the second channel is 0 then, and else
  -- neither.
  disable_devices_lem :
      (more : ℕ) (ch : Channels) (s : S)
      → (s' : S) × (disable_devices p (c.pending s + suc more) ch s ≡ ok (noted (stopped s) ch, s'))
        × (c.pending s' ≡ 0)
        × (config_of (c.config s') ≡ record (config_of (c.config s)) {
          port1_irq_status = 0;
          port2_irq_status = 0;
          port1_clock_status = 1;
          port2_clock_status = stopped s;
          port1_translation_status = 0;
        })
  unfolding disable_devices read_status shut
  disable_devices_lem more ch s =
      let s0 = p.port_byte_out 0x64 0xA7 (p.port_byte_out 0x64 0xAD s) in
      let r = p.port_byte_in 0x64 s0 in
      let kept : c.pending s0 ≡ c.pending s =
        c.disabled2_pending (p.port_byte_out 0x64 0xAD s) ∙ c.disabled1_pending s in
      let (s2, run, empty, same) =
        flush-empties (c.pending s) more (r.0) (r.1) (c.status_pending s0 ∙ kept)
          (status-Shows (c.pending s) s0 kept) in
      let (updated, still_empty, found) = update_lem shut s2 shut-IsConfig empty in
      let before : config_of (c.config s2) ≡ record (config_of (c.config s)) {
        port1_clock_status = 1;
        port2_clock_status = stopped s;
      } =
        ap (λ v. config_of v) (same ∙ c.status_config s0)
        ∙ c.disabled2 (p.port_byte_out 0x64 0xAD s)
        ∙ ap
            (λ (d : Ps2Config). record d {
              port2_clock_status = if second then 1 else d.port2_clock_status;
            })
            (c.disabled1 s) in
      (
        write_config p (shut ((read_config p s2).0)) ((read_config p s2).1),
        rw run (
            ap
              (λ (d : Ps2Config). ok (
                noted d.port2_clock_status ch,
                write_config p (shut ((read_config p s2).0)) ((read_config p s2).1),
              ))
              (found ∙ before)),
        still_empty,
        updated ∙ ap (λ (d : Ps2Config). shut d) before,
      )

  -- What `probe` notes, by the clock bit that the second channel then has.
  probe_lem :
      (ch : Channels) (later : S)
      → ch.should_probe_second_channel ≡ true
      → c.pending later ≡ 0
      → (probe p ch later).0.is_dual_channel
        ≡ ((if second then 0 else (config_of (c.config later)).port2_clock_status) == 0)
  unfolding probe is_channel2_present read_config
  probe_lem ch later asked empty =
      let s2 = p.port_byte_out 0x64 0xA8 later in
      let found =
        ap (λ v. config_of v) (c.read s2 (c.enabled2_pending later ∙ empty)) ∙ c.enabled2 later in
      rw asked (ap (λ (d : Ps2Config). d.port2_clock_status == 0) found)

  unasked :
      (later : S)
      → (probe p
          (record { is_dual_channel = false; should_probe_second_channel = false })
          later).0.is_dual_channel
        ≡ false
  unfolding probe
  unasked later = refl

  -- A driver that has not ruled out the second channel, on a controller that keeps its laws. What
  -- `init_keyboard` notes behind `disable_devices` is whether there is a second channel, and this
  -- also if the controller has one channel and its configuration shows bit 5 set. It is probed at
  -- any later state with an empty output buffer and with the bit as `disable_devices` has left it.
  pub probe-disable_devices :
      (more : ℕ) (ch : Channels) (s later : S)
      → ch.should_probe_second_channel ≡ true
      → c.pending later ≡ 0
      → (config_of (c.config later)).port2_clock_status ≡ stopped s
      → (ch1 : Channels) × (s1 : S) × (disable_devices p (c.pending s + suc more) ch s
          ≡ ok (ch1, s1))
        × ((probe p ch1 later).0.is_dual_channel ≡ second)
  probe-disable_devices more ch s later asked empty left =
      let (s1, run, _, _) = disable_devices_lem more ch s in
      let found = probe_lem ch later asked empty in
      (
        noted (stopped s) ch,
        s1,
        run,
        elim (Bool-cases second) [
          | inl two ↦ rw two (found ∙ rw two refl)
          | inr one ↦ elim (Bool-cases (stopped s == 0)) [
            | inl clear ↦ rw clear (unasked later ∙ sym one)
            | inr bit ↦ rw bit (found ∙ rw (one, left, bit) refl ∙ sym one)
          ]
        ],
      )

  opened : Ps2Config → Ps2Config
  opened config = record config { port1_irq_status = 1; port2_irq_status = 1 }

  opened-IsConfig : (config : Ps2Config) → IsConfig config → IsConfig (opened config)
  unfolding opened
  opened-IsConfig config h = record {
    port1_irq_status = omega arith;
    port2_irq_status = omega arith;
    system_flag = h.system_flag;
    zero1 = h.zero1;
    port1_clock_status = h.port1_clock_status;
    port2_clock_status = h.port2_clock_status;
    port1_translation_status = h.port1_translation_status;
    zero2 = h.zero2;
  }

  -- `enable_ports` on a controller that keeps its laws, with an empty output buffer. Both interrupts
  -- are on, the clock of each channel that there is runs, and the rest of the configuration is as it
  -- was.
  enable_ports_lem :
      (s : S)
      → c.pending s ≡ 0
      → (config_of (c.config (enable_ports p s)) ≡ record (config_of (c.config s)) {
        port1_irq_status = 1;
        port2_irq_status = 1;
        port1_clock_status = 0;
        port2_clock_status = if second then 0 else (config_of (c.config s)).port2_clock_status;
      })
        × (c.pending (enable_ports p s) ≡ 0)
  unfolding enable_ports opened
  enable_ports_lem s empty =
      let s1 = p.port_byte_out 0x64 0xAE s in
      let s2 = p.port_byte_out 0x64 0xA8 s1 in
      let (updated, still_empty, found) =
        update_lem opened s2 opened-IsConfig
          (c.enabled2_pending s1 ∙ c.enabled1_pending s ∙ empty) in
      (
        updated
            ∙ ap (λ (d : Ps2Config). opened d)
                (c.enabled2 s1
                  ∙ ap
                      (λ (d : Ps2Config). record d {
                        port2_clock_status = if second then 0 else d.port2_clock_status;
                      })
                      (c.enabled1 s)),
        still_empty,
      )
