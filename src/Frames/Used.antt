-- ===== src/Frames/Used.antt =====
-- The set of used frames that the bit table stands for, and the effect of one bit on it.
use matanos.Base.{
  ℕ, ◌*◌, ◌/◌, ◌%◌, ◌^◌, ◌≤◌, ◌<◌, ◌≡◌, refl, sym, ◌↔◌, inl, inr, List, arith, ◌==◌, eq→==,
  if◌then◌else◌, Bool-cases, ==→eq, length, length-set, get_or, set, get_or-set_self, get_or-set_ne,
  read-get_or, write-set, bit, bit-bit_or, bit-bit_and, bit-pow_self, bit-pow_ne, bit-bit_not,
  bit-le-one, bit_or-lt, bit_and-lt, bit_not, bit_and, bit_or, bit_and-pow, pow-lt-pow, ok,
}
use native.Mathlib.Nat.{one-le-pow}
use matanos.Frames.{FrameTable, set_frame, clear_frame, test_frame}

-- 1 if the bit of frame `f` is set, 0 if not.
abbrev pub used_in : List ℕ → ℕ → ℕ
used_in fs f = bit (get_or fs (f / 32) 0) (f % 32)

abbrev pub used : FrameTable → ℕ → ℕ
used t f = used_in t.frames f

-- One word for every 32 frames, and every word of 32 bits.
pub record IsTable (t : FrameTable) : Type 0 where
  pub words : length t.frames * 32 ≡ t.nframes
  pub few : t.nframes ≤ 2 ^ 20
  pub wide : (i : ℕ) → get_or t.frames i 0 < 2 ^ 32

get_or-set {ℓ} :
    {A : Type ℓ} (xs : List A) (i j : ℕ) (v d : A)
    → i < length xs
    → get_or (set xs i v) j d ≡ (if i == j then v else get_or xs j d)
get_or-set xs i j v d h = elim (Bool-cases (i == j)) [
  | inl same ↦ rw (same, ← ==→eq i j same) (get_or-set_self xs i v d h)
  | inr other ↦ rw other (get_or-set_ne xs i j v d λ e. ground (arith, eq→== i j e))
]

bit-set_bit : (w j k : ℕ) → bit (bit_or w (2 ^ j)) k ≡ (if k == j then 1 else bit w k)
bit-set_bit w j k = elim (Bool-cases (k == j)) [
  | inl same ↦ rw (same, bit-bit_or, ==→eq k j same, bit-pow_self j) (omega (arith, bit-le-one j w))
  | inr other ↦
      rw (other, bit-bit_or, bit-pow_ne j k (λ e. ground (arith, eq→== k j (sym e)))) (omega arith)
]

bit-clear_bit :
    (w j k : ℕ)
    → j < 32
    → k < 32
    → bit (bit_and w (bit_not 32 (2 ^ j))) k ≡ (if k == j then 0 else bit w k)
bit-clear_bit w j k hj hk =
    let inverted = bit-bit_not 32 k (2 ^ j) hk (pow-lt-pow j 32 hj) in
    elim (Bool-cases (k == j)) [
      | inl same ↦ rw (same, bit-bit_and, inverted, ==→eq k j same, bit-pow_self j) (omega arith)
      | inr other ↦
          rw (other, bit-bit_and, inverted, bit-pow_ne j k (λ e. ground (arith, eq→== k j (sym e))))
            (omega (arith, bit-le-one k w))
    ]

module _ (fs : List ℕ) (f g : ℕ) (inside : f / 32 < length fs) where
  used-set_word :
      (v x : ℕ)
      → bit v (g % 32) ≡ (if g % 32 == f % 32 then x else bit (get_or fs (f / 32) 0) (g % 32))
      → used_in (set fs (f / 32) v) g ≡ (if g == f then x else used_in fs g)
  used-set_word v x h =
      rw (get_or-set fs (f / 32) (g / 32) v 0 inside) (elim (Bool-cases (f / 32 == g / 32)) [
        | inl same ↦ rw (same, h, ==→eq (f / 32) (g / 32) same) (ground arith)
        | inr other ↦ rw other (ground arith)
      ])

IsTable-store :
    (t : FrameTable) (i v : ℕ)
    → IsTable t
    → i < length t.frames
    → v < 2 ^ 32
    → IsTable (record t { frames = set t.frames i v })
IsTable-store t i v valid inside small = record {
  words = rw (length-set t.frames i v) valid.words;
  few = valid.few;
  wide = λ j. rw (get_or-set t.frames i j v 0 inside) (ground (arith, valid.wide j));
}

module _ (addr : ℕ) (t : FrameTable) (valid : IsTable t) (h : addr / 0x1000 < t.nframes) where
  frame_word : ℕ
  frame_word = get_or t.frames (addr / 0x1000 / 32) 0

  word_inside : addr / 0x1000 / 32 < length t.frames
  word_inside = omega (arith, valid.words)

  -- `set_frame` of a frame in the table returns normally, marks that frame used, and leaves the
  -- marks of all other frames as they are.
  pub set_frame-used :
      (t' : FrameTable) × (set_frame addr t ≡ ok t')
      × IsTable t'
      × (t'.nframes ≡ t.nframes)
      × ((g : ℕ) → used t' g ≡ (if g == addr / 0x1000 then 1 else used t g))
  unfolding set_frame frame_word
  set_frame-used =
      let f = addr / 0x1000 in
      let v = bit_or frame_word (2 ^ (f % 32)) in
      let bit_small : 2 ^ (f % 32) < 2 ^ 32 = pow-lt-pow (f % 32) 32 (omega arith) in
      (
        record t { frames = set t.frames (f / 32) v },
        rw (read-get_or t.frames (f / 32) 0 word_inside, write-set t.frames (f / 32) v word_inside),
        IsTable-store t (f / 32) v valid word_inside
            (bit_or-lt 32 frame_word (2 ^ (f % 32)) (valid.wide (f / 32)) bit_small),
        refl,
        λ g. used-set_word t.frames f g word_inside v 1 (bit-set_bit frame_word (f % 32) (g % 32)),
      )

  -- `clear_frame` of a frame in the table returns normally, marks that frame free, and leaves the
  -- marks of all other frames as they are.
  pub clear_frame-used :
      (t' : FrameTable) × (clear_frame addr t ≡ ok t')
      × IsTable t'
      × (t'.nframes ≡ t.nframes)
      × ((g : ℕ) → used t' g ≡ (if g == addr / 0x1000 then 0 else used t g))
  unfolding clear_frame frame_word
  clear_frame-used =
      let f = addr / 0x1000 in
      let v = bit_and frame_word (bit_not 32 (2 ^ (f % 32))) in
      (
        record t { frames = set t.frames (f / 32) v },
        rw (read-get_or t.frames (f / 32) 0 word_inside, write-set t.frames (f / 32) v word_inside),
        IsTable-store t (f / 32) v valid word_inside
            (bit_and-lt 32 frame_word (bit_not 32 (2 ^ (f % 32))) (valid.wide (f / 32))),
        refl,
        λ g.
            used-set_word t.frames f g word_inside v 0
              (bit-clear_bit frame_word (f % 32) (g % 32) (omega arith) (omega arith)),
      )

  -- `test_frame` of a frame in the table returns 0 exactly if the frame is free.
  test_frame-used : (r : ℕ) × (test_frame addr t ≡ ok r) × ((r ≡ 0) ↔ (used t (addr / 0x1000) ≡ 0))
  unfolding test_frame frame_word
  test_frame-used =
      let f = addr / 0x1000 in
      (
        used t f * 2 ^ (f % 32),
        rw (read-get_or t.frames (f / 32) 0 word_inside, bit_and-pow (f % 32) frame_word),
        (
          λ e. ground (arith, one-le-pow (f % 32) 2, bit-le-one (f % 32) frame_word),
          λ e. rw e (omega arith),
        ),
      )
