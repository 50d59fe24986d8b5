-- ===== src/Heap/Tests.antt =====
-- The heap at work on three small blocks, and the theorems there.
use matanos.Base.{ℕ, ◌+◌, ◌-◌, ◌≡◌, refl, List, [], ◌∷◌, ◌++◌, arith, ok, panic}
use matanos.Memory.{Memory, load8, load32, store8, store32}
use matanos.Memory.Frame.{AgreeOff}
use matanos.OrderedArray.{OrderedArray}
use matanos.OrderedArray.Spec.{insert_sorted}
use matanos.OrderedArray.Contents.{Holds}
use matanos.Paging.{Machine}
use matanos.Heap.{
  Heap, header_magic, header_is_hole, header_size, footer_magic, footer_header, header_t_less_than,
  write_header, write_footer,
}
use matanos.Heap.Resize.{contract}
use matanos.Heap.Alloc.{alloc}
use matanos.Heap.Free.{free}
use matanos.Heap.Blocks.{IsBlock, Blocks}
use matanos.Heap.Take.{carve, holes_left}
use matanos.Heap.Search.{AllSmaller}
use matanos.Heap.Row.{alloc_lem}
use matanos.Heap.Full.{alloc-panic}
use matanos.Heap.Give.{free_lem}
use matanos.Heap.Unite.{NotAmong, free_stale_footer}
use matanos.Heap.Sizes.{Ends, contract-Ends}

abbrev pub put : (a size hole : ℕ) → Memory → Memory
put a size hole m = write_footer (a + (size - 8)) a (write_header a hole size m)

-- A block of 32 bytes at 0x1000, one of 100 behind it, and one of 32 at the end.
abbrev pub row : (second third : ℕ) → Memory
row second third = put 4096 32 0 (put 4128 100 second (put 4228 32 third (λ a. 0)))

abbrev pub machine : Memory → Machine
machine m = record {
  memory = m;
  frames = record { frames = []; nframes = 0 };
  kernel_directory = 0;
}

abbrev pub index_of : List ℕ → ℕ → OrderedArray
index_of array size = record { array = array; size = size; max_size = 3; less_than = 1 }

abbrev pub heap_of : OrderedArray → Heap
heap_of index = record {
  index = index;
  start_address = 4096;
  end_address = 8192;
  max_address = 65536;
  supervisor = 0;
  readonly = 0;
}

pub first-IsBlock : (second third : ℕ) → IsBlock (row second third) 4096 32 0
unfolding header_magic header_is_hole header_size footer_magic footer_header load8 load32 store8
    store32 write_header write_footer
first-IsBlock second third = record {
  large = omega arith;
  inside = omega arith;
  magic = refl;
  kind = refl;
  extent = refl;
  end_magic = refl;
  back = refl;
}

pub second-IsBlock : (second third : ℕ) → IsBlock (row second third) 4128 100 second
unfolding header_magic header_is_hole header_size footer_magic footer_header load8 load32 store8
    store32 write_header write_footer
second-IsBlock second third = record {
  large = omega arith;
  inside = omega arith;
  magic = refl;
  kind = refl;
  extent = refl;
  end_magic = refl;
  back = refl;
}

pub third-IsBlock : (second third : ℕ) → IsBlock (row second third) 4228 32 third
unfolding header_magic header_is_hole header_size footer_magic footer_header load8 load32 store8
    store32 write_header write_footer
third-IsBlock second third = record {
  large = omega arith;
  inside = omega arith;
  magic = refl;
  kind = refl;
  extent = refl;
  end_magic = refl;
  back = refl;
}

pub one_hole-Holds : Holds (index_of (4128 ∷ 0 ∷ 0 ∷ []) 1) (4128 ∷ []) (0 ∷ 0 ∷ [])
one_hole-Holds = record { memory = refl; count = refl; small = omega arith; callable = omega arith }

pub no_holes-Holds : Holds (index_of (0 ∷ 0 ∷ 0 ∷ []) 0) [] (0 ∷ 0 ∷ 0 ∷ [])
no_holes-Holds = record { memory = refl; count = refl; small = omega arith; callable = omega arith }

last_hole-Holds : Holds (index_of (4228 ∷ 0 ∷ 0 ∷ []) 1) (4228 ∷ []) (0 ∷ 0 ∷ [])
last_hole-Holds = record {
  memory = refl;
  count = refl;
  small = omega arith;
  callable = omega arith;
}

alloc_lem_example :
    (heap' : Heap) × (s' : Machine) × (free' : List ℕ) × (alloc 1 30 0
        (heap_of (index_of (4128 ∷ 0 ∷ 0 ∷ []) 1))
        (machine (row 1 0))
      ≡ ok (4140, heap', s'))
    × Blocks s'.memory 4096 ((32, 0) ∷ (carve 100 50 ++ ((32, 0) ∷ []))) 4260
    × Holds heap'.index (holes_left s'.memory 4128 100 50 []) free'
    × AgreeOff 4128 100 (row 1 0) s'.memory
unfolding Blocks AllSmaller
alloc_lem_example =
    alloc_lem 0 30 (heap_of (index_of (4128 ∷ 0 ∷ 0 ∷ []) 1)) (machine (row 1 0)) 4096 4260
      ((32, 0) ∷ []) ((32, 0) ∷ []) 4128 100 [] [] 0 (0 ∷ []) (first-IsBlock 1 0, refl)
      (second-IsBlock 1 0) (third-IsBlock 1 0, refl) (omega arith) one_hole-Holds tt (omega arith)

free_lem_example :
    (heap' : Heap) × (s' : Machine) × (free 4140
        (heap_of (index_of (0 ∷ 0 ∷ 0 ∷ []) 0))
        (machine (row 0 0))
      ≡ ok (heap', s'))
    × Blocks s'.memory 4096 ((32, 0) ∷ (100, 1) ∷ (32, 0) ∷ []) 4260
    × Holds heap'.index (insert_sorted (header_t_less_than s'.memory) 4128 []) (0 ∷ 0 ∷ [])
    × AgreeOff 4132 1 (row 0 0) s'.memory
unfolding Blocks
free_lem_example =
    free_lem (heap_of (index_of (0 ∷ 0 ∷ 0 ∷ []) 0)) (machine (row 0 0)) 4096 4260 4096 32 4128 100
      32 [] [] [] 0 (0 ∷ 0 ∷ []) refl (first-IsBlock 0 0) refl (second-IsBlock 0 0)
      (third-IsBlock 0 0) refl (omega arith) no_holes-Holds (omega arith)

free_stale_footer_example :
    (heap' : Heap) × (s' : Machine) × (free 4140
        (heap_of (index_of (4228 ∷ 0 ∷ 0 ∷ []) 1))
        (machine (row 0 1))
      ≡ ok (heap', s'))
    × (header_size s'.memory 4128 ≡ 132)
    × (footer_header s'.memory 4252 ≡ 4228)
    × (¬ IsBlock s'.memory 4128 132 1)
unfolding NotAmong
free_stale_footer_example =
    free_stale_footer (heap_of (index_of (4228 ∷ 0 ∷ 0 ∷ []) 1)) (machine (row 0 1)) 4096 32 4128
      100 32 [] [] 0 (0 ∷ []) (first-IsBlock 0 1) refl (second-IsBlock 0 1) (third-IsBlock 0 1)
      (omega arith) last_hole-Holds tt

contract-Ends_example : Ends (contract 0 (heap_of (index_of [] 0)) (machine (row 0 0)))
contract-Ends_example = contract-Ends 0 (heap_of (index_of [] 0)) (machine (row 0 0))

-- The heap of these tests, when it may not grow.
abbrev full_heap : Heap
full_heap = record (heap_of (index_of (4128 ∷ 0 ∷ 0 ∷ []) 1)) { max_address = 8192 }

alloc-panic_example : alloc 1 200 0 full_heap (machine (row 1 0)) ≡ panic
unfolding AllSmaller header_size load32 store8 store32 write_header write_footer
alloc-panic_example =
    alloc-panic 0 200 full_heap (machine (row 1 0)) (4128 ∷ []) (0 ∷ 0 ∷ []) one_hole-Holds
      (omega arith, tt) (omega arith) (omega arith) (omega arith)
