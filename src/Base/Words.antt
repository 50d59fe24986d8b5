-- ===== src/Base/Words.antt =====
-- Machine words: values of the fixed widths as native numbers, and their single bits.
use Prim.Native.Nat.{ℕ, zero, suc, ◌+◌, ◌-◌, ◌*◌, ◌/◌, ◌%◌, ◌^◌, ◌≤◌, ◌<◌}
use Prim.Native.Nat.{min, max, digits, bitwise, bit_and, bit_or, bit_and-bitwise, bit_or-bitwise}
use mathlib.Core.Path.{◌≡◌, refl, sym, ◌∙◌, ap}
use mathlib.Core.Logic.{◌≢◌}
use native.Mathlib.Nat.{le_refl, pow-suc, one-le-pow, pow-le-pow_right}
use native.Mathlib.Omega.{arith}

abbrev pub u8 : ℕ → ℕ
u8 n = n % 2 ^ 8

abbrev pub u16 : ℕ → ℕ
u16 n = n % 2 ^ 16

abbrev pub u32 : ℕ → ℕ
u32 n = n % 2 ^ 32

-- `a - b` on `uint32_t`, for `b` below 2 ^ 32.
abbrev pub sub32 : ℕ → ℕ → ℕ
sub32 a b = (a + 2 ^ 32 - b) % 2 ^ 32

-- `~x` on a word of `n` bits.
abbrev pub bit_not : ℕ → ℕ → ℕ
bit_not n x = 2 ^ n - 1 - x

-- The bit of `w` at position `k`.
unfoldable pub bit : ℕ → ℕ → ℕ
bit w zero = w % 2
bit w (suc k) = bit (w / 2) k

module _ (rest : ℕ → ℕ) (op : ℕ → ℕ → ℕ) where
  -- More rounds than the first word needs change nothing.
  spare :
      (v w used rounds : ℕ)
      → v ≤ used
      → used ≤ rounds
      → digits rest op used v w ≡ digits rest op rounds v w
  spare zero w zero zero h k = refl
  spare zero w zero (suc rounds) h k = refl
  spare zero w (suc used) zero h k = absurd (omega arith)
  spare zero w (suc used) (suc rounds) h k = refl
  spare (suc v) w zero rounds h k = absurd (omega arith)
  spare (suc v) w (suc used) zero h k = absurd (omega arith)
  spare (suc v) w (suc used) (suc rounds) h k =
      rw (spare (suc v / 2) (w / 2) used rounds (omega arith) (omega arith))

  peel :
      (w v : ℕ)
      → op (suc v % 2) (w % 2) + 2 * bitwise rest op (suc v / 2) (w / 2) ≡ bitwise rest op (suc v) w
  peel w v = omega (arith, spare (suc v / 2) (w / 2) (suc v / 2) v (le_refl _) (omega arith))

-- The lowest bit of a disjunction or a conjunction, and the words that are left behind it.
pub bit_or_step : (v w : ℕ) → max (v % 2) (w % 2) + 2 * bit_or (v / 2) (w / 2) ≡ bit_or v w
bit_or_step (suc v) w = simp bit_or-bitwise (peel (λ y. y) max w v)
bit_or_step zero w = simp bit_or-bitwise (omega arith)

pub bit-bit_or : (k a b : ℕ) → bit (bit_or a b) k ≡ max (bit a k) (bit b k)
unfolding bit
bit-bit_or zero a b = omega (arith, bit_or_step a b)
bit-bit_or (suc k) a b =
    let half : bit_or a b / 2 ≡ bit_or (a / 2) (b / 2) = omega (arith, bit_or_step a b) in
    rw half (bit-bit_or k (a / 2) (b / 2))

pub bit_and_step : (v w : ℕ) → min (v % 2) (w % 2) + 2 * bit_and (v / 2) (w / 2) ≡ bit_and v w
bit_and_step (suc v) w = simp bit_and-bitwise (peel (λ y. 0) min w v)
bit_and_step zero w = simp bit_and-bitwise (omega arith)

pub bit-bit_and : (k a b : ℕ) → bit (bit_and a b) k ≡ min (bit a k) (bit b k)
unfolding bit
bit-bit_and zero a b = omega (arith, bit_and_step a b)
bit-bit_and (suc k) a b =
    let half : bit_and a b / 2 ≡ bit_and (a / 2) (b / 2) = omega (arith, bit_and_step a b) in
    rw half (bit-bit_and k (a / 2) (b / 2))

pub bit-le-one : (k w : ℕ) → bit w k ≤ 1
unfolding bit
bit-le-one zero w = omega arith
bit-le-one (suc k) w = bit-le-one k (w / 2)

pub bit-zero : (k : ℕ) → bit 0 k ≡ 0
unfolding bit
bit-zero zero = refl
bit-zero (suc k) = bit-zero k

two_pow_half : (n : ℕ) → 2 ^ suc n / 2 ≡ 2 ^ n
two_pow_half n = omega (arith, pow-suc 2 n)

pub bit-pow_self : (k : ℕ) → bit (2 ^ k) k ≡ 1
unfolding bit
bit-pow_self zero = refl
bit-pow_self (suc k) = rw (two_pow_half k) (bit-pow_self k)

pub bit-pow_ne : (j k : ℕ) → j ≢ k → bit (2 ^ j) k ≡ 0
unfolding bit
bit-pow_ne zero zero h = absurd (h refl)
bit-pow_ne zero (suc k) h = bit-zero k
bit-pow_ne (suc j) zero h = omega (arith, pow-suc 2 j)
bit-pow_ne (suc j) (suc k) h = rw (two_pow_half j) (bit-pow_ne j k (λ e. h (ap suc e)))

pub bit-bit_not : (n k x : ℕ) → k < n → x < 2 ^ n → bit (bit_not n x) k ≡ 1 - bit x k
unfolding bit
bit-bit_not zero k x h lt = absurd (omega arith)
bit-bit_not (suc n) zero x h lt = omega (arith, pow-suc 2 n)
bit-bit_not (suc n) (suc k) x h lt =
    let half : bit_not (suc n) x / 2 ≡ bit_not n (x / 2) = omega (arith, pow-suc 2 n) in
    rw half (bit-bit_not n k (x / 2) (omega arith) (omega (arith, pow-suc 2 n)))

-- A word is determined by its low bits.
pub bit_ext : (n x y : ℕ) → x < 2 ^ n → y < 2 ^ n → ((k : ℕ) → k < n → bit x k ≡ bit y k) → x ≡ y
unfolding bit
bit_ext zero x y hx hy same = omega arith
bit_ext (suc n) x y hx hy same = omega (
  arith,
  pow-suc 2 n,
  same 0 (omega arith),
  bit_ext n (x / 2) (y / 2) (omega (arith, pow-suc 2 n)) (omega (arith, pow-suc 2 n))
      (λ k h. same (suc k) (omega arith)),
)

pub bit_or-lt : (n a b : ℕ) → a < 2 ^ n → b < 2 ^ n → bit_or a b < 2 ^ n
bit_or-lt zero a b ha hb =
    let a0 : a ≡ 0 = omega arith in let b0 : b ≡ 0 = omega arith in rw (a0, b0) (omega arith)
bit_or-lt (suc n) a b ha hb = omega (
  arith,
  pow-suc 2 n,
  bit_or_step a b,
  bit_or-lt n (a / 2) (b / 2) (omega (arith, pow-suc 2 n)) (omega (arith, pow-suc 2 n)),
)

pub bit_and-lt : (n a b : ℕ) → a < 2 ^ n → bit_and a b < 2 ^ n
bit_and-lt zero a b ha = let a0 : a ≡ 0 = omega arith in rw (a0, bit_and-bitwise 0 b) (omega arith)
bit_and-lt (suc n) a b ha = omega (
  arith,
  pow-suc 2 n,
  bit_and_step a b,
  bit_and-lt n (a / 2) (b / 2) (omega (arith, pow-suc 2 n)),
)

pub pow-lt-pow : (k n : ℕ) → k < n → 2 ^ k < 2 ^ n
pow-lt-pow k n h =
    omega (arith, pow-suc 2 k, one-le-pow k 2, pow-le-pow_right {n = 2} (omega arith) {i = suc k} h)

bit_and-zero_fuel : (n a : ℕ) → a ≤ n → bit_and a 0 ≡ 0
bit_and-zero_fuel zero a h =
    omega (arith, bit_and_step a 0, bit_and-bitwise 0 0, ap (λ (t : ℕ). bit_and t 0) zero_half)
  where
    zero_half : a / 2 ≡ 0
    zero_half = omega arith
bit_and-zero_fuel (suc n) zero h = bit_and-bitwise 0 0
bit_and-zero_fuel (suc n) (suc a) h =
    omega (arith, bit_and_step (suc a) 0, bit_and-zero_fuel n (suc a / 2) (omega arith))

pub bit_and-zero : (a : ℕ) → bit_and a 0 ≡ 0
bit_and-zero a = bit_and-zero_fuel a a (le_refl a)

-- A mask of one bit keeps that bit.
pub bit_and-pow : (k w : ℕ) → bit_and w (2 ^ k) ≡ bit w k * 2 ^ k
unfolding bit
bit_and-pow zero w = omega (arith, bit_and_step w 1, bit_and-zero_fuel (w / 2) (w / 2) (le_refl _))
bit_and-pow (suc k) w =
    let half : bit_and w (2 ^ suc k) ≡ bit_and (w / 2) (2 ^ k) * 2 =
      sym (rw (two_pow_half k) at (bit_and_step w (2 ^ suc k))) ∙ omega (arith, pow-suc 2 k) in
    rw (half, bit_and-pow k (w / 2), pow-suc) (omega arith)

-- All bits of a word whose value is the largest are set.
pub bit-ones : (n k : ℕ) → k < n → bit (2 ^ n - 1) k ≡ 1
bit-ones n k h =
    let e : bit_not n 0 ≡ 2 ^ n - 1 = omega arith in
    omega (
      arith,
      ap (λ (t : ℕ). bit t k) e,
      bit-bit_not n k 0 h (one-le-pow n 2 (omega arith)),
      bit-zero k,
    )
