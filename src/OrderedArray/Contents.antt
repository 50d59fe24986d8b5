-- ===== src/OrderedArray/Contents.antt =====
-- The list that an ordered array holds: its first `size` elements, before unused memory.
use matanos.Base.{
  ℕ, ◌≤◌, ◌<◌, ◌^◌, ◌≡◌, refl, ◌≢◌, List, [], ◌∷◌, ◌++◌, arith, length, length-append, replicate,
  append_assoc, lt→ltb, le→ltb, ok, panic, read-append,
}
use matanos.OrderedArray.{OrderedArray, place_ordered_array, lookup_ordered_array}

-- The array holds `items`, and `free` is the memory behind them.
pub record Holds (arr : OrderedArray) (items free : List ℕ) : Type 0 where
  pub memory : arr.array ≡ items ++ free
  pub count : arr.size ≡ length items
  pub small : arr.size < 2 ^ 32
  pub callable : arr.less_than ≢ 0

-- A new array holds nothing, and all of its `max_size` elements are free.
pub place_ordered_array-Holds :
    (rest : List ℕ) (max_size less_than : ℕ)
    → less_than ≢ 0
    → Holds (place_ordered_array rest max_size less_than) [] (replicate max_size 0 ++ rest)
unfolding place_ordered_array
place_ordered_array-Holds rest max_size less_than h = record {
  memory = refl;
  count = refl;
  small = omega arith;
  callable = h;
}

-- `lookup_ordered_array` returns the item at an index in use, and stops the machine at any other.
pub lookup_ordered_array-Holds :
    (arr : OrderedArray) (p : List ℕ) (x : ℕ) (q free : List ℕ)
    → Holds arr (p ++ (x ∷ q)) free
    → (lookup_ordered_array (length p) arr ≡ ok x)
      × ((i : ℕ) → length (p ++ (x ∷ q)) ≤ i → lookup_ordered_array i arr ≡ panic)
unfolding lookup_ordered_array
lookup_ordered_array-Holds arr p x q free h = (
  rw
      (
        lt→ltb (length p) arr.size (omega (arith, length-append p (x ∷ q), h.count)),
        h.memory,
        append_assoc,
      )
      (read-append p x (q ++ free) (length p) refl),
  λ i past. rw (le→ltb i arr.size (omega (arith, h.count))),
)
