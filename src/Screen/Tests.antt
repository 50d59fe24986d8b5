-- ===== src/Screen/Tests.antt =====
-- A concrete screen.
use matanos.Base.{
  ℕ, ◌+◌, ◌<◌, ◌==◌, ◌≤◌, List, [], ◌∷◌, ok, replicate, length, length-replicate, get_or,
  if◌then◌else◌, eq→==, ne→==, ◌≡◌, refl, sym, arith,
}
use matanos.Ports.{Ports}
use matanos.Text.Strings.{NonZero}
use matanos.Screen.{pos, kprint_at, scroll}
use matanos.Screen.Scroll.{scroll_lem}
use matanos.Screen.Cursor.{Crtc}
use matanos.Screen.Bounds.{kprint_at_lem}

-- A display controller: the index, and the registers.
abbrev Display : Type 0
Display = ℕ × (ℕ → ℕ)

abbrev controller : Ports Display
controller = record {
  port_byte_in = λ port s. (s.1 s.0, s);
  port_byte_out =
      λ port v s. if port == 0x3d4 then (v, s.1) else (s.0, λ k. if k == s.0 then v else s.1 k);
}

controller-Crtc : Crtc controller
controller-Crtc = record {
  register = λ r s. s.1 r;
  reads = λ r s. refl;
  kept = λ r k s. refl;
  written = λ r v s h. rw (eq→== r r refl) refl;
  others = λ r v k s h. rw (ne→== k r (λ e. h (sym e))) refl;
}

abbrev display : Display
display = (0, λ k. 0)

abbrev blank : List ℕ
blank = replicate 4000 0

blank-length : length blank ≡ 4000
blank-length = length-replicate {A = ℕ} 4000 0

scroll_lem_example :
    (mem' : List ℕ) × (scroll blank ≡ ok mem')
    × (length mem' ≡ 4000)
    × ((k : ℕ) → k < 3840 → get_or mem' k 0 ≡ get_or blank (k + 160) 0)
    × ((k : ℕ) → 3840 ≤ k → k < 4000 → get_or mem' k 0 ≡ 0)
scroll_lem_example = scroll_lem blank blank-length

message : NonZero (72 ∷ 105 ∷ [])
unfolding NonZero
message = ((λ e. omega arith), ((λ e. omega arith), tt))

kprint_at_lem_example :
    (mem' : List ℕ) × (s' : Display) × (kprint_at controller
        (72 ∷ 105 ∷ 0 ∷ [])
        (pos 79)
        (pos 24)
        blank
        display
      ≡ ok (mem', s'))
    × (length mem' ≡ 4000)
kprint_at_lem_example =
    kprint_at_lem controller (72 ∷ 105 ∷ []) [] 79 24 blank display message blank-length
      (omega arith) (omega arith)
