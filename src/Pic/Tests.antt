-- ===== src/Pic/Tests.antt =====
-- Controllers whose state is a function from ports to bytes.
use matanos.Base.{
  ℕ, ◌==◌, ◌^◌, ◌%◌, if◌then◌else◌, ◌≡◌, refl, sym, arith, ne→==, eq→==, List, [], ◌∷◌,
}
use matanos.Ports.{Ports, outs}
use matanos.Pic.{pic_send_eoi, pic_remap}
use matanos.Pic.Lines.{Masks}

abbrev latches : Ports (ℕ → ℕ)
latches = record {
  port_byte_in = λ port s. (s port % 2 ^ 8, s);
  port_byte_out = λ port v s. (λ k. if k == port then v else s k);
}

latches-Masks : Masks latches
latches-Masks = record {
  mask = λ port s. s port % 2 ^ 8;
  is_byte = λ port s. omega arith;
  reads = λ port s. refl;
  written = λ port v s h. rw (eq→== port port refl) (omega arith);
  others = λ port v k s h. rw (ne→== k port (λ e. h (sym e))) refl;
}

abbrev all_masked : ℕ → ℕ
all_masked k = 0xFF

-- A machine that records the writes to its ports, the last one first.
abbrev recorder : Ports (List (ℕ × ℕ))
recorder = record {
  port_byte_in = λ port s. (0xB8, s);
  port_byte_out = λ port v s. ((port, v) ∷ s);
}

eoi_slave : pic_send_eoi recorder 40 [] ≡ (0x20, 0x20) ∷ (0xA0, 0x20) ∷ []
unfolding pic_send_eoi
eoi_slave = refl

masks_restored :
    (rest : List (ℕ × ℕ)) × (pic_remap recorder 0x20 0x28 [] ≡ (0xA1, 0xB8) ∷ (0x21, 0xB8) ∷ rest)
unfolding pic_remap outs
masks_restored = (_, refl)
