-- ===== src/OrderedArray.antt =====
-- cpu/ordered_array.c: the insertion-sorted array of the heap's holes.
pub mod Spec
pub mod Contents
pub mod Insert
pub mod Remove
mod Tests
use matanos.Base.{
  ◌++◌, ℕ, zero, suc, ◌+◌, ◌-◌, ◌<◌, ◌==◌, Bool, true, false, List, if◌then◌else◌, ltb, u32, sub32,
  Run, ok, panic, ◌>>=◌, ◌>>◌, assert, not, read, write, replicate,
}

-- `ordered_array_t`. `array` is the memory from the start address on; an element is a pointer,
-- read as its address. `less_than` is a function pointer, 0 for NULL.
pub record OrderedArray : Type 0 where
  pub array : List ℕ
  pub size : ℕ
  pub max_size : ℕ
  pub less_than : ℕ

-- `standard_lessthan_predicate`.
unfoldable pub standard_lessthan_predicate : ℕ → ℕ → ℕ
standard_lessthan_predicate a b = if ltb a b then 1 else 0

-- `place_ordered_array`: the `max_size` elements from the address on are set to 0, and `rest` is
-- the memory behind them.
unfoldable pub place_ordered_array : (rest : List ℕ) → ℕ → ℕ → OrderedArray
place_ordered_array rest max_size less_than = record {
  array = replicate max_size 0 ++ rest;
  size = 0;
  max_size = max_size;
  less_than = less_than;
}

-- `lookup_ordered_array`.
unfoldable pub lookup_ordered_array : ℕ → OrderedArray → Run ℕ
lookup_ordered_array i arr = assert (ltb i arr.size) >> read arr.array i

-- The loop of `remove_ordered_array`, with `left` rounds to go.
unfoldable pub shift_down : (left i : ℕ) → List ℕ → Run (List ℕ)
shift_down zero i a = ok a
shift_down (suc left) i a = do
  next ← read a (i + 1)
  a' ← write a i next
  shift_down left (i + 1) a'

-- `remove_ordered_array`. The loop makes `size - i` rounds, none if `i` is past the end.
unfoldable pub remove_ordered_array : ℕ → OrderedArray → Run OrderedArray
remove_ordered_array i arr = do
  a ← shift_down (arr.size - i) i arr.array
  ok (record arr { array = a; size = sub32 arr.size 1 })

-- The second loop of `insert_ordered_array`: moves the elements behind `i` up by one.
unfoldable pub shift_up : (left i tmp : ℕ) → List ℕ → Run (List ℕ)
shift_up zero i tmp a = ok a
shift_up (suc left) i tmp a = do
  tmp2 ← read a (i + 1)
  a' ← write a (i + 1) tmp
  shift_up left (i + 1) tmp2 a'

-- `less` is what the function pointer of the array computes in the memory of the call.
module _ (less : ℕ → ℕ → Bool) where
  -- The first loop: the position of the first element that is not below `item`.
  unfoldable pub find_position : (left i item : ℕ) → List ℕ → Run ℕ
  find_position zero i item a = ok i
  find_position (suc left) i item a =
      let rest = find_position left (i + 1) item a in
      read a i >>= λ x. if less x item then rest else ok i

  -- `insert_ordered_array`.
  unfoldable pub insert_ordered_array : ℕ → OrderedArray → Run OrderedArray
  insert_ordered_array item arr = do
    assert (not (arr.less_than == 0))
    i ← find_position arr.size 0 item arr.array
    if i == arr.size
        then (do
          a ← write arr.array arr.size item
          ok (record arr { array = a; size = u32 (arr.size + 1) }))
        else (do
          tmp ← read arr.array i
          a ← write arr.array i item
          a' ← shift_up (arr.size - i) i tmp a
          ok (record arr { array = a'; size = u32 (arr.size + 1) }))
