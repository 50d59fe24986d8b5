-- ===== src/Frames/Search.antt =====
-- `first_frame` finds the least free frame.
use matanos.Base.{
  ℕ, zero, suc, ◌+◌, ◌*◌, ◌/◌, ◌%◌, ◌^◌, ◌≤◌, ◌<◌, ◌≡◌, refl, ◌⊎◌, inl, inr, false, List, arith,
  ◌==◌, Bool-cases, ==→eq, ltb, ltb→lt, ltb→le, length, get_or, read-get_or, bit, bit_and,
  bit_and-pow, bit-le-one, bit-ones, Run, ok, fault, none, some,
}
use native.Mathlib.Nat.{one-le-pow, le_refl}
use matanos.Frames.{FrameTable, find_bit, find_word, first_frame}
use matanos.Frames.Used.{used_in, used, IsTable}

-- What the inner loop finds from bit `j` on: the first clear bit, or that all are set.
record FindsBit (j w k : ℕ) : Type 0 where
  from : j ≤ k
  below : k < 32
  clear : bit w k ≡ 0
  first : (b : ℕ) → j ≤ b → b < k → bit w b ≡ 1

AllSet : (j w : ℕ) → Type 0
AllSet j w = (b : ℕ) → j ≤ b → b < 32 → bit w b ≡ 1

bit_test : (w j : ℕ) → (bit_and w (2 ^ j) == 0) ≡ (bit w j == 0)
bit_test w j = rw (bit_and-pow j w) (ground (arith, one-le-pow j 2, bit-le-one j w))

from_next : (j w : ℕ) → bit w j ≡ 1 → (b : ℕ) → j ≤ b → (j + 1 ≤ b → bit w b ≡ 1) → bit w b ≡ 1
from_next j w h b p later = elim (Bool-cases (b == j)) [
  | inl same ↦ rw (==→eq b j same) h
  | inr other ↦ later (ground arith)
]

find_bit-cases :
    (left j w : ℕ)
    → j + left ≡ 32
    → ((k : ℕ) × (find_bit left j w ≡ some k) × FindsBit j w k)
      ⊎ ((find_bit left j w ≡ none) × AllSet j w)
unfolding find_bit AllSet
find_bit-cases zero j w e = inr (refl, λ b p q. absurd (omega arith))
find_bit-cases (suc left) j w e = elim (Bool-cases (bit w j == 0)) [
  | inl clear ↦ inl (
    j,
    rw (bit_test w j, clear),
    record {
      from = le_refl j;
      below = omega arith;
      clear = ==→eq (bit w j) 0 clear;
      first = λ b p q. absurd (omega arith);
    },
  )
  | inr marked ↦
      rw (bit_test w j, marked)
        (elim (find_bit-cases left (j + 1) w (omega arith)) [
          | inl (k, found, at) ↦ inl (
            k,
            found,
            record {
              from = omega (arith, at.from);
              below = at.below;
              clear = at.clear;
              first = λ b p q. from_next j w (is_set marked) b p (λ p'. at.first b p' q);
            },
          )
          | inr (nothing, all) ↦
              inr (nothing, λ b p q. from_next j w (is_set marked) b p (λ p'. all b p' q))
        ])
]
  where
    is_set : (bit w j == 0) ≡ false → bit w j ≡ 1
    is_set h = ground (arith, bit-le-one j w)

-- The same for the words from `i` on: the first free frame, or that all are used.
record FindsFrame (fs : List ℕ) (start r : ℕ) : Type 0 where
  from : start ≤ r
  below : r < length fs * 32
  free : used_in fs r ≡ 0
  first : (g : ℕ) → start ≤ g → g < r → used_in fs g ≡ 1

AllUsed : List ℕ → ℕ → Type 0
AllUsed fs start = (g : ℕ) → start ≤ g → g < length fs * 32 → used_in fs g ≡ 1

word_used :
    (fs : List ℕ) (i : ℕ)
    → AllSet 0 (get_or fs i 0)
    → (g : ℕ) → i * 32 ≤ g
    → g < i * 32 + 32
    → used_in fs g ≡ 1
unfolding AllSet
word_used fs i all g p q =
    let e : g / 32 ≡ i = omega arith in rw e (all (g % 32) (omega arith) (omega arith))

module _ (fs : List ℕ) where
  -- The result of the search from word `i` on.
  Searches : ℕ → Run ℕ → Type 0
  Searches i result =
      ((r : ℕ) × (result ≡ ok r) × FindsFrame fs (i * 32) r)
      ⊎ ((result ≡ fault) × AllUsed fs (i * 32))

  skip_word :
      (i : ℕ) (result : Run ℕ)
      → AllSet 0 (get_or fs i 0)
      → Searches (i + 1) result
      → Searches i result
  unfolding Searches AllUsed
  skip_word i result all (inl (r, e, found)) = inl (
    r,
    e,
    record {
      from = omega (arith, found.from);
      below = found.below;
      free = found.free;
      first = λ g p q. elim (Bool-cases (ltb g (i * 32 + 32))) [
        | inl here ↦ word_used fs i all g p (ltb→lt g (i * 32 + 32) here)
        | inr later ↦ found.first g (omega (arith, ltb→le g (i * 32 + 32) later)) q
      ];
    },
  )
  skip_word i result all (inr (e, rest)) = inr (
    e,
    λ g p q. elim (Bool-cases (ltb g (i * 32 + 32))) [
      | inl here ↦ word_used fs i all g p (ltb→lt g (i * 32 + 32) here)
      | inr later ↦ rest g (omega (arith, ltb→le g (i * 32 + 32) later)) q
    ],
  )

  at_word :
      (i k : ℕ)
      → i < length fs
      → FindsBit 0 (get_or fs i 0) k
      → FindsFrame fs (i * 32) (i * 4 * 8 + k)
  at_word i k inside found =
      let word : (i * 4 * 8 + k) / 32 ≡ i = omega (arith, found.below) in
      let place : (i * 4 * 8 + k) % 32 ≡ k = omega (arith, found.below) in
      record {
        from = omega arith;
        below = omega (arith, found.below);
        free = rw (word, place) found.clear;
        first = λ g p q.
            let word' : g / 32 ≡ i = omega (arith, found.below) in
            rw word' (found.first (g % 32) (omega arith) (omega arith));
      }

  find_word-Searches : (left i : ℕ) → i + left ≡ length fs → Searches i (find_word left i fs)
  unfolding find_word Searches AllUsed AllSet
  find_word-Searches zero i e = inr (refl, λ g p q. absurd (omega arith))
  find_word-Searches (suc left) i e =
      let rest = find_word-Searches left (i + 1) (omega arith) in
      rw (read-get_or fs i 0 (omega arith)) (elim (Bool-cases (get_or fs i 0 == 0xFFFFFFFF)) [
        | inl full ↦ rw full (
            skip_word i (find_word left (i + 1) fs)
              (λ b p q. rw (==→eq (get_or fs i 0) 0xFFFFFFFF full) (bit-ones 32 b q)) rest)
        | inr other ↦ rw other (elim (find_bit-cases 32 0 (get_or fs i 0) refl) [
          | inl (k, found, at) ↦ rw found (inl (i * 4 * 8 + k, refl, at_word i k (omega arith) at))
          | inr (nothing, all) ↦ rw nothing (skip_word i (find_word left (i + 1) fs) all rest)
        ])
      ])

-- When some frame is free, `first_frame` returns the least free frame.
pub first_frame-least :
    (t : FrameTable) (f : ℕ)
    → IsTable t
    → f < t.nframes
    → used t f ≡ 0
    → (r : ℕ) × (first_frame t ≡ ok r) × (r ≤ f) × (used t r ≡ 0) × ((g : ℕ) → g < r → used t g ≡ 1)
unfolding first_frame Searches AllUsed
first_frame-least t f valid h free =
    elim (find_word-Searches t.frames (t.nframes / 32) 0 (omega (arith, valid.words))) [
      | inl (r, e, found) ↦ (
        r,
        e,
        elim (Bool-cases (ltb f r)) [
          | inl below ↦ absurd (omega (arith, free, found.first f (omega arith) (ltb→lt f r below)))
          | inr above ↦ ltb→le f r above
        ],
        found.free,
        λ g q. found.first g (omega arith) q,
      )
      | inr (e, all) ↦
          absurd (omega (arith, free, all f (omega arith) (omega (arith, valid.words, h))))
    ]

-- When every frame is used, `first_frame` ends with no return value, so that its caller's
-- comparison with -1 is undefined behaviour.
pub first_frame_full :
    (t : FrameTable) → IsTable t → ((f : ℕ) → f < t.nframes → used t f ≡ 1) → first_frame t ≡ fault
unfolding first_frame Searches AllUsed
first_frame_full t valid all =
    elim (find_word-Searches t.frames (t.nframes / 32) 0 (omega (arith, valid.words))) [
      | inl (r, e, found) ↦
          absurd (omega (arith, found.free, all r (omega (arith, valid.words, found.below))))
      | inr (e, rest) ↦ e
    ]
