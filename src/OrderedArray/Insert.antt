-- ===== src/OrderedArray/Insert.antt =====
-- `insert_ordered_array` against insertion into a sorted list.
use matanos.Base.{
  ℕ, suc, ◌+◌, ◌-◌, ◌<◌, ◌^◌, ◌≡◌, refl, ap, ◌∙◌, ◌≢◌, inl, inr, Bool, List, [], ◌∷◌, ◌++◌,
  append_assoc, sym, arith, length, length-append, length-snoc, append_snoc, ne→==, eq→==,
  Bool-cases, ok, read-append, write-append, u32,
}
use matanos.OrderedArray.{OrderedArray, shift_up, find_position, insert_ordered_array}
use matanos.OrderedArray.Spec.{
  before, after, insert_sorted, before-append-after, IsOrder, IsSorted, insert_sorted-IsSorted,
  insert_sorted-perm,
}
use mathlib.Core.List.{Perm}
use matanos.OrderedArray.Contents.{Holds}

-- The elements behind `i` move up by one; the last of them takes the place of `y`.
shift_up_lem :
    (xs p : List ℕ) (v tmp y : ℕ) (free : List ℕ) (i : ℕ)
    → length p ≡ i
    → shift_up (suc (length xs)) i tmp (p ++ (v ∷ xs ++ (y ∷ free)))
      ≡ ok (p ++ (v ∷ tmp ∷ xs ++ free))
unfolding shift_up
shift_up_lem [] p v tmp y free i e =
    let there : length (p ++ (v ∷ [])) ≡ i + 1 = omega (arith, length-snoc p v) in
    rw (
      ← append_snoc p v (y ∷ free),
      read-append (p ++ (v ∷ [])) y free (i + 1) there,
      write-append (p ++ (v ∷ [])) y tmp free (i + 1) there,
      append_snoc p v (tmp ∷ free),
    )
shift_up_lem (x ∷ xs) p v tmp y free i e =
    let there : length (p ++ (v ∷ [])) ≡ i + 1 = omega (arith, length-snoc p v) in
    rw (
      ← append_snoc p v (x ∷ xs ++ (y ∷ free)),
      read-append (p ++ (v ∷ [])) x (xs ++ (y ∷ free)) (i + 1) there,
      write-append (p ++ (v ∷ [])) x tmp (xs ++ (y ∷ free)) (i + 1) there,
      shift_up_lem xs (p ++ (v ∷ [])) tmp x y free (i + 1) there,
      append_snoc p v (tmp ∷ x ∷ xs ++ free),
    )

module _ (less : ℕ → ℕ → Bool) (item : ℕ) where
  find_position-before :
      (xs p free : List ℕ) (i : ℕ)
      → length p ≡ i
      → find_position less (length xs) i item (p ++ (xs ++ free))
        ≡ ok (i + length (before less item xs))
  unfolding find_position
  find_position-before [] p free i e = ap ok (omega arith)
  find_position-before (x ∷ xs) p free i e =
      let there : length (p ++ (x ∷ [])) ≡ i + 1 = omega (arith, length-snoc p x) in
      let next : find_position less (length xs) (i + 1) item (p ++ (x ∷ xs ++ free))
          ≡ ok (i + 1 + length (before less item xs)) =
        rw (append_snoc p x (xs ++ free)) at
          (find_position-before xs (p ++ (x ∷ [])) free (i + 1) there) in
      rw (read-append p x (xs ++ free) i e) (elim (Bool-cases (less x item)) [
        | inl below ↦ rw (below, next) (ap ok (omega arith))
        | inr stop ↦ rw stop (ap ok (omega arith))
      ])

  -- One insertion in front of `xs`, behind `p`, where the first free element is `y`.
  store_at :
      (arr : OrderedArray) (p xs : List ℕ) (y : ℕ) (free : List ℕ)
      → find_position less arr.size 0 item arr.array ≡ ok (length p)
      → arr.array ≡ p ++ (xs ++ (y ∷ free))
      → arr.size ≡ length p + length xs
      → arr.less_than ≢ 0
      → insert_ordered_array less item arr
        ≡ ok (record arr { array = p ++ (item ∷ xs ++ free); size = u32 (arr.size + 1) })
  unfolding insert_ordered_array
  store_at arr p [] y free found memory count callable = rw (
    ne→== arr.less_than 0 callable,
    found,
    eq→== (length p) arr.size (omega arith),
    memory,
    write-append p y item free arr.size (omega arith),
  )
  store_at arr p (x ∷ xs) y free found memory count callable =
      let rest : arr.size - length p ≡ suc (length xs) = omega arith in
      rw (
        ne→== arr.less_than 0 callable,
        found,
        ne→== (length p) arr.size (omega arith),
        memory,
        read-append p x (xs ++ (y ∷ free)) (length p) refl,
        write-append p x item (xs ++ (y ∷ free)) (length p) refl,
        rest,
        shift_up_lem xs p item x y free (length p) refl,
      )

-- Insertion into an array that has a free element behind its items returns normally, and the
-- array then holds the items with the new one inserted in order, one element less being free.
pub insert_ordered_array-Holds :
    (less : ℕ → ℕ → Bool) (item : ℕ) (arr : OrderedArray) (items : List ℕ) (y : ℕ) (free : List ℕ)
    → Holds arr items (y ∷ free)
    → arr.size + 1 < 2 ^ 32
    → (arr' : OrderedArray) × (insert_ordered_array less item arr ≡ ok arr')
      × Holds arr' (insert_sorted less item items) free
insert_ordered_array-Holds less item arr items y free h room = (
  record arr { array = p ++ (item ∷ xs ++ free); size = u32 (arr.size + 1) },
  store_at less item arr p xs y free found (h.memory ∙ split)
      (omega (arith, h.count, ap length whole, length-append p xs)) h.callable,
  record {
    memory = sym (append_assoc p (item ∷ xs) free);
    count =
        omega (arith, h.count, ap length whole, length-append p xs, length-append p (item ∷ xs));
    small = omega arith;
    callable = h.callable;
  },
)
  where
    p : List ℕ
    p = before less item items

    xs : List ℕ
    xs = after less item items

    whole : items ≡ p ++ xs
    whole = sym (before-append-after less item items)

    split : items ++ (y ∷ free) ≡ p ++ (xs ++ (y ∷ free))
    split = ap (λ l. l ++ (y ∷ free)) whole ∙ append_assoc p xs (y ∷ free)

    found : find_position less arr.size 0 item arr.array ≡ ok (length p)
    found =
        rw (h.count, h.memory)
          (find_position-before less item items [] (y ∷ free) 0 refl ∙ ap ok (omega arith))

-- The items of a sorted array are sorted after an insertion, whatever the item.
pub insert_ordered_array-IsSorted :
    (less : ℕ → ℕ → Bool) (item : ℕ) (arr : OrderedArray) (items : List ℕ) (y : ℕ) (free : List ℕ)
    → IsOrder less
    → IsSorted less items
    → Holds arr items (y ∷ free)
    → arr.size + 1 < 2 ^ 32
    → (arr' : OrderedArray) × (items' : List ℕ) × (insert_ordered_array less item arr ≡ ok arr')
      × Holds arr' items' free
      × IsSorted less items'
      × Perm items' (item ∷ items)
insert_ordered_array-IsSorted less item arr items y free o s h room =
    let (arr', runs, holds) = insert_ordered_array-Holds less item arr items y free h room in
    (
      arr',
      insert_sorted less item items,
      runs,
      holds,
      insert_sorted-IsSorted less o item items s,
      insert_sorted-perm less item items,
    )
