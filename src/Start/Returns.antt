-- ===== src/Start/Returns.antt =====
-- The start of the kernel returns, and the handlers that it leaves.
use matanos.Base.{
  ℕ, ◌<◌, ◌⊎◌, Bool, true, false, not, if◌then◌else◌, set, ◌≡◌, some, Run, ok, ◌>>=◌,
}
use matanos.Ports.{Ports}
use matanos.Interrupts.{Handler, Handlers, register_interrupt_handler}
use matanos.Ps2.{Channels, probe, test_ports, enable_ports, reset_devices, set_keyboard_scancode}
use matanos.Start.Answers.{Responds}

module _ {S : Type 0} (p : Ports S) (fuel : ℕ) (laws : Responds p fuel) (some_fuel : 0 < fuel) where
  -- `init_keyboard` behind the self-test.
  abbrev tested :
      Handler S → Channels → Bool → Handlers S → S → Run (Bool × Channels × Handlers S × S)
  tested keyboard_callback ch1 passed handlers s2 =
      let (ch2, s3) = probe p ch1 s2 in
      let (ports, s4) = test_ports p ch2 s3 in
      if not passed
      then ok (false, ch1, handlers, s2)
      else (if not ports then ok (false, ch2, handlers, s4) else (do
        handlers' ← register_interrupt_handler 33 keyboard_callback handlers
        let (reset, s5) = reset_devices p ch2 (enable_ports p s4)
        let (set, s6) = set_keyboard_scancode p ch2 s5
        ok (if reset then (true, ch2, handlers', s6) else (false, ch2, handlers', s5))))

  abbrev Returned : Handler S → Handlers S → Run (Bool × Channels × Handlers S × S) → Type 0
  Returned keyboard_callback handlers r =
      (passed : Bool) × (ch : Channels) × (handlers' : Handlers S) × (s : S) × (r
        ≡ ok (passed, ch, handlers', s))
      × ((handlers' ≡ handlers) ⊎ (handlers' ≡ set handlers 33 (some keyboard_callback)))
