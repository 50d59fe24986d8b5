-- ===== src/Stack/Tests.antt =====
-- A stack of two words moved, with a saved base pointer in it.
use matanos.Base.{ℕ, ◌+◌, ◌-◌, ◌*◌, ◌<◌, ◌≤◌, ◌==◌, if◌then◌else◌, ◌≡◌, refl, ok, arith}
use matanos.Memory.{Memory, load32}
use matanos.Memory.Frame.{AgreeOff}
use matanos.Stack.{remapped, relocate}
use matanos.Stack.Relocate.{relocate_lem}

-- The word 0x0FFA at 0x0FFC.
abbrev base_pointer : Memory
base_pointer = λ a. if a == 0xFFC then 0xFA else if a == 0xFFD then 0x0F else 0

remapped_runs : remapped 0xFF8 0x1000 0x1000 0xFFA ≡ 0x1FFA
unfolding remapped
remapped_runs = refl

relocate_lem_example :
    (m' : Memory) × (relocate 0x2000 16 0x1000 0xFF8 base_pointer ≡ ok m')
    × ((j : ℕ)
        → 0 < j
        → j < 4
        → 0xFF8 + 4 * j ≤ 0x1000
        → load32 m' (0x2000 - 4 * j)
          ≡ remapped 0xFF8 0x1000 0x1000 (load32 base_pointer (0x1000 - 4 * j)))
    × AgreeOff 0x1FF0 20 base_pointer m'
relocate_lem_example =
    relocate_lem 0x2000 16 4 0x1000 0xFF8 base_pointer refl (omega arith) (omega arith)
      (omega arith) (omega arith)
