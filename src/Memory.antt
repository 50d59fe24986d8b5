-- ===== src/Memory.antt =====
-- The kernel's memory: a byte at each address. The machine is little-endian.
pub mod Frame
use matanos.Base.{ℕ, zero, suc, ◌+◌, ◌*◌, ◌/◌, ◌%◌, ◌^◌, ◌==◌, if◌then◌else◌}

abbrev pub Memory : Type 0
Memory = ℕ → ℕ

unfoldable pub load8 : Memory → ℕ → ℕ
load8 m a = m a

unfoldable pub load32 : Memory → ℕ → ℕ
load32 m a = m a + m (a + 1) * 2 ^ 8 + m (a + 2) * 2 ^ 16 + m (a + 3) * 2 ^ 24

unfoldable pub store8 : Memory → (a v : ℕ) → Memory
store8 m a v = λ k. if k == a then v else m k

unfoldable pub store32 : Memory → (a v : ℕ) → Memory
store32 m a v =
    store8
      (store8 (store8 (store8 m a (v % 2 ^ 8)) (a + 1) (v / 2 ^ 8 % 2 ^ 8)) (a + 2)
        (v / 2 ^ 16 % 2 ^ 8))
      (a + 3) (v / 2 ^ 24 % 2 ^ 8)

-- `memset` of kernel/util.c on this memory.
unfoldable pub fill : Memory → (a v n : ℕ) → Memory
fill m a v zero = m
fill m a v (suc n) = fill (store8 m a v) (a + 1) v n

-- `memcpy` of kernel/util.c on this memory.
unfoldable pub copy : (source dest n : ℕ) → Memory → Memory
copy source dest zero m = m
copy source dest (suc n) m = copy (source + 1) (dest + 1) n (store8 m dest (load8 m source))
