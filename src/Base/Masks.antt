-- ===== src/Base/Masks.antt =====
-- Masks of several bits: the low and the high part of a word, and words put together from parts.
use Prim.Native.Nat.{ℕ, zero, suc, ◌+◌, ◌-◌, ◌*◌, ◌/◌, ◌%◌, ◌^◌, ◌≤◌, ◌<◌}
use native.Mathlib.Nat.{mod-add-div, mul_assoc, mod-lt, add-mul-mod_self_left, mod-eq_of_lt}
use mathlib.Core.Path.{sym}
use Prim.Native.Nat.{min, bit_and, bit_or, bit_or-bitwise}
use mathlib.Core.Path.{◌≡◌, ◌∙◌, ap}
use native.Mathlib.Nat.{pow-suc, one-le-pow}
use native.Mathlib.Omega.{arith}
use matanos.Base.Words.{bit_and_step, bit_or_step, bit_and-zero}

-- A mask of the `n` lowest bits is a remainder.
pub bit_and-low_ones : (n a : ℕ) → bit_and a (2 ^ n - 1) ≡ a % 2 ^ n
bit_and-low_ones zero a = omega (arith, bit_and-zero a)
bit_and-low_ones (suc n) a =
    let half : (2 ^ suc n - 1) / 2 ≡ 2 ^ n - 1 = omega (arith, pow-suc 2 n, one-le-pow n 2) in
    let odd : (2 ^ suc n - 1) % 2 ≡ 1 = omega (arith, pow-suc 2 n, one-le-pow n 2) in
    rw (sym (bit_and_step a (2 ^ suc n - 1)), half, odd, bit_and-low_ones n (a / 2))
      (halves a (2 ^ n) (one-le-pow n 2 (omega arith))
        ∙ ap (λ (t : ℕ). a % t) (omega (arith, pow-suc 2 n)))
  where
    halves : (a m : ℕ) → 1 ≤ m → min (a % 2) 1 + 2 * (a / 2 % m) ≡ a % (2 * m)
    halves a m h =
        let r = a / 2 % m in
        let low = min (a % 2) 1 + 2 * r in
        let whole : low + (2 * m) * (a / 2 / m) ≡ a =
          omega (arith, mod-add-div (a / 2) m, mul_assoc 2 m (a / 2 / m)) in
        let bound : low < 2 * m = omega (arith, mod-lt (a / 2) h) in
        sym (
          sym (ap (λ (t : ℕ). t % (2 * m)) whole)
          ∙ add-mul-mod_self_left low (2 * m) (a / 2 / m)
          ∙ mod-eq_of_lt bound)

push_or : (lo hi : ℕ) → bit_or lo (hi * 2) ≡ bit_or (lo / 2) hi * 2 + lo % 2
push_or lo hi =
    let half : hi * 2 / 2 ≡ hi = omega arith in
    let even : hi * 2 % 2 ≡ 0 = omega arith in
    rw (sym (bit_or_step lo (hi * 2)), half, even) (omega arith)

push_and : (a hi : ℕ) → bit_and a (hi * 2) ≡ bit_and (a / 2) hi * 2
push_and a hi =
    let half : hi * 2 / 2 ≡ hi = omega arith in
    let even : hi * 2 % 2 ≡ 0 = omega arith in
    rw (sym (bit_and_step a (hi * 2)), half, even) (omega arith)

-- The high half of a byte.
pub bit_and-high_nibble : (a : ℕ) → bit_and a 0xF0 ≡ a / 16 % 16 * 16
bit_and-high_nibble a = omega (
  arith,
  push_and a 0x78,
  push_and (a / 2) 0x3C,
  push_and (a / 2 / 2) 0x1E,
  push_and (a / 2 / 2 / 2) 0xF,
  bit_and-low_ones 4 (a / 2 / 2 / 2 / 2),
)

-- A disjunction of the two halves of a byte is their sum.
pub bit_or-nibbles : (lo hi : ℕ) → lo < 16 → bit_or lo (hi * 16) ≡ lo + hi * 16
bit_or-nibbles lo hi h =
    let split : hi * 16 ≡ hi * 2 * 2 * 2 * 2 = omega arith in
    let top : lo / 2 / 2 / 2 / 2 ≡ 0 = omega arith in
    let rest : bit_or (lo / 2 / 2 / 2 / 2) hi ≡ hi = rw top (bit_or-bitwise 0 hi) in
    rw
      (
        split,
        push_or lo (hi * 2 * 2 * 2),
        push_or (lo / 2) (hi * 2 * 2),
        push_or (lo / 2 / 2) (hi * 2),
        push_or (lo / 2 / 2 / 2) hi,
        rest,
      )
      (omega arith)

-- The page of an address of 32 bits.
pub bit_and-page : (n : ℕ) → n < 2 ^ 32 → bit_and n 0xFFFFF000 ≡ n / 0x1000 * 0x1000
bit_and-page n h = omega (
  arith,
  push_and n 0x7FFFF800,
  push_and (n / 2) 0x3FFFFC00,
  push_and (n / 2 / 2) 0x1FFFFE00,
  push_and (n / 2 / 2 / 2) 0xFFFFF00,
  push_and (n / 2 / 2 / 2 / 2) 0x7FFFF80,
  push_and (n / 2 / 2 / 2 / 2 / 2) 0x3FFFFC0,
  push_and (n / 2 / 2 / 2 / 2 / 2 / 2) 0x1FFFFE0,
  push_and (n / 2 / 2 / 2 / 2 / 2 / 2 / 2) 0xFFFFF0,
  push_and (n / 2 / 2 / 2 / 2 / 2 / 2 / 2 / 2) 0x7FFFF8,
  push_and (n / 2 / 2 / 2 / 2 / 2 / 2 / 2 / 2 / 2) 0x3FFFFC,
  push_and (n / 2 / 2 / 2 / 2 / 2 / 2 / 2 / 2 / 2 / 2) 0x1FFFFE,
  push_and (n / 2 / 2 / 2 / 2 / 2 / 2 / 2 / 2 / 2 / 2 / 2) 0xFFFFF,
  bit_and-low_ones 20 (n / 2 / 2 / 2 / 2 / 2 / 2 / 2 / 2 / 2 / 2 / 2 / 2),
)
