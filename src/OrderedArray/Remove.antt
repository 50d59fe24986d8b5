-- ===== src/OrderedArray/Remove.antt =====
-- `remove_ordered_array` against the removal of one item from a list.
use matanos.Base.{
  ℕ, suc, ◌+◌, ◌-◌, ◌≡◌, refl, List, [], ◌∷◌, ◌++◌, append_assoc, append-nil, sym, Bool, arith,
  length, length-append, length-snoc, append_snoc, ok, fault, read, read-append, write-append,
  read_past, sub32,
}
use matanos.OrderedArray.{OrderedArray, shift_down, remove_ordered_array}
use matanos.OrderedArray.Spec.{NoneBelow, IsSorted}
use matanos.OrderedArray.Contents.{Holds}

-- The elements behind `i` move down by one; the element behind the last one is copied too.
shift_down_lem :
    (xs p : List ℕ) (x y : ℕ) (free : List ℕ) (i : ℕ)
    → length p ≡ i
    → shift_down (suc (length xs)) i (p ++ (x ∷ xs ++ (y ∷ free)))
      ≡ ok (p ++ (xs ++ (y ∷ y ∷ free)))
unfolding shift_down
shift_down_lem [] p x y free i e =
    let there : length (p ++ (x ∷ [])) ≡ i + 1 = omega (arith, length-snoc p x) in
    let next : read (p ++ (x ∷ y ∷ free)) (i + 1) ≡ ok y =
      rw (append_snoc p x (y ∷ free)) at (read-append (p ++ (x ∷ [])) y free (i + 1) there) in
    rw (next, write-append p x y (y ∷ free) i e)
shift_down_lem (z ∷ xs) p x y free i e =
    let there : length (p ++ (x ∷ [])) ≡ i + 1 = omega (arith, length-snoc p x) in
    let next : read (p ++ (x ∷ z ∷ xs ++ (y ∷ free))) (i + 1) ≡ ok z =
      rw (append_snoc p x (z ∷ xs ++ (y ∷ free))) at
        (read-append (p ++ (x ∷ [])) z (xs ++ (y ∷ free)) (i + 1) there) in
    let there' : length (p ++ (z ∷ [])) ≡ i + 1 = omega (arith, length-snoc p z) in
    rw (
      next,
      write-append p x z (z ∷ xs ++ (y ∷ free)) i e,
      ← append_snoc p z (z ∷ xs ++ (y ∷ free)),
      shift_down_lem xs (p ++ (z ∷ [])) z y free (i + 1) there',
      append_snoc p z (xs ++ (y ∷ y ∷ free)),
    )

-- With a free element behind the items, `remove_ordered_array` returns normally and drops exactly
-- the item at the index, keeping the order of the others.
pub remove_ordered_array-Holds :
    (arr : OrderedArray) (p : List ℕ) (x : ℕ) (q : List ℕ) (y : ℕ) (free : List ℕ)
    → Holds arr (p ++ (x ∷ q)) (y ∷ free)
    → (arr' : OrderedArray) × (remove_ordered_array (length p) arr ≡ ok arr')
      × Holds arr' (p ++ q) (y ∷ y ∷ free)
unfolding remove_ordered_array
remove_ordered_array-Holds arr p x q y free h = (
  record arr { array = p ++ (q ++ (y ∷ y ∷ free)); size = sub32 arr.size 1 },
  rw (
    rounds,
    h.memory,
    append_assoc p (x ∷ q) (y ∷ free),
    shift_down_lem q p x y free (length p) refl,
  ),
  record {
    memory = sym (append_assoc p q (y ∷ y ∷ free));
    count = omega (arith, h.count, h.small, length-append p q, length-append p (x ∷ q));
    small = omega arith;
    callable = h.callable;
  },
)
  where
    rounds : arr.size - length p ≡ suc (length q)
    rounds = omega (arith, h.count, length-append p (x ∷ q))

NoneBelow-drop :
    (less : ℕ → ℕ → Bool) (a : ℕ) (p : List ℕ) (x : ℕ) (q : List ℕ)
    → NoneBelow less a (p ++ (x ∷ q))
    → NoneBelow less a (p ++ q)
NoneBelow-drop less a [] x q h = h.1
NoneBelow-drop less a (y ∷ p) x q h = (h.0, NoneBelow-drop less a p x q h.1)

-- A sorted list stays sorted when an item is dropped.
pub IsSorted-drop :
    (less : ℕ → ℕ → Bool) (p : List ℕ) (x : ℕ) (q : List ℕ)
    → IsSorted less (p ++ (x ∷ q))
    → IsSorted less (p ++ q)
IsSorted-drop less [] x q s = s.1
IsSorted-drop less (y ∷ p) x q s = (NoneBelow-drop less y p x q s.0, IsSorted-drop less p x q s.1)

shift_down_past :
    (xs p : List ℕ) (x i : ℕ)
    → length p ≡ i
    → shift_down (suc (length xs)) i (p ++ (x ∷ xs)) ≡ fault
unfolding shift_down
shift_down_past [] p x i e = rw (read_past (p ++ (x ∷ [])) (i + 1) (omega (arith, length-snoc p x)))
shift_down_past (z ∷ xs) p x i e =
    let there : length (p ++ (x ∷ [])) ≡ i + 1 = omega (arith, length-snoc p x) in
    let next : read (p ++ (x ∷ z ∷ xs)) (i + 1) ≡ ok z =
      rw (append_snoc p x (z ∷ xs)) at (read-append (p ++ (x ∷ [])) z xs (i + 1) there) in
    let there' : length (p ++ (z ∷ [])) ≡ i + 1 = omega (arith, length-snoc p z) in
    rw (
      next,
      write-append p x z (z ∷ xs) i e,
      ← append_snoc p z (z ∷ xs),
      shift_down_past xs (p ++ (z ∷ [])) z (i + 1) there',
    )

-- When the items fill the memory of the array there is no element behind the last item, and the
-- removal of any item reads past the end of the array.
remove_ordered_array_full :
    (arr : OrderedArray) (p : List ℕ) (x : ℕ) (q : List ℕ)
    → Holds arr (p ++ (x ∷ q)) []
    → remove_ordered_array (length p) arr ≡ fault
unfolding remove_ordered_array
remove_ordered_array_full arr p x q h =
    let rounds : arr.size - length p ≡ suc (length q) =
      omega (arith, h.count, length-append p (x ∷ q)) in
    rw (rounds, h.memory, append-nil, shift_down_past q p x (length p) refl)
