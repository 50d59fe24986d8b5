-- ===== src/Kmalloc/Tests.antt =====
-- Allocation before there is a heap, at work.
use matanos.Base.{ℕ, ◌+◌, ◌%◌, ◌<◌, ◌≤◌, ◌≡◌, refl, [], none, ok, arith}
use matanos.Kmalloc.{Kernel, align_placement, kmalloc, kmalloc_a}
use matanos.Kmalloc.Placement.{kmalloc-kmalloc_a}

abbrev start : Kernel
start = record {
  machine = record {
    memory = λ a. 0;
    frames = record { frames = []; nframes = 0 };
    kernel_directory = 0;
  };
  kheap = none;
  placement_address = 0x100000;
}

align_placement_runs : align_placement 1 0x100000 ≡ 0x101000
unfolding align_placement
align_placement_runs = refl

kmalloc-kmalloc_a_example :
    (a : ℕ) × (k1 : Kernel) × (k2 : Kernel) × (kmalloc_a 1 8196 start ≡ ok (a, k1))
    × (kmalloc 1 512 k1 ≡ ok (a + 8196, k2))
    × (a % 0x1000 ≡ 0)
    × (0x100000 < a)
    × (a ≤ 0x101000)
    × (k2.placement_address ≡ a + 8196 + 512)
kmalloc-kmalloc_a_example = kmalloc-kmalloc_a 1 8196 512 start refl (omega arith) (omega arith)
