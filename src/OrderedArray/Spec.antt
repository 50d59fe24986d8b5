-- ===== src/OrderedArray/Spec.antt =====
-- What the ordered array stands for: a sorted list, and insertion into one.
use mathlib.Core.List.{Perm, perm_middle}
use matanos.Base.{
  ℕ, ◌≡◌, refl, Bool, true, false, List, [], ◌∷◌, ◌++◌, arith, if◌then◌else◌, Bool-cases, inl, inr,
}

-- A strict order whose incomparability is transitive, as the order of holes by their size.
pub record IsOrder (less : ℕ → ℕ → Bool) : Type 0 where
  pub asymm : (a b : ℕ) → less a b ≡ true → less b a ≡ false
  pub cotrans : (a b c : ℕ) → less a b ≡ false → less b c ≡ false → less a c ≡ false

module _ (less : ℕ → ℕ → Bool) where
  -- The elements up to the first one that is not below `item`, and those from it on.
  abbrev pub before : ℕ → List ℕ → List ℕ
  before item [] = []
  before item (x ∷ xs) = if less x item then x ∷ before item xs else []

  abbrev pub after : ℕ → List ℕ → List ℕ
  after item [] = []
  after item (x ∷ xs) = if less x item then after item xs else x ∷ xs

  abbrev pub insert_sorted : ℕ → List ℕ → List ℕ
  insert_sorted item xs = before item xs ++ (item ∷ after item xs)

  -- No later element is below an earlier one.
  abbrev pub NoneBelow : ℕ → List ℕ → Type 0
  NoneBelow x [] = Unit
  NoneBelow x (y ∷ ys) = (less y x ≡ false) × NoneBelow x ys

  abbrev pub IsSorted : List ℕ → Type 0
  IsSorted [] = Unit
  IsSorted (x ∷ xs) = NoneBelow x xs × IsSorted xs

module _ (less : ℕ → ℕ → Bool) where
  pub before-append-after :
      (item : ℕ) (xs : List ℕ) → before less item xs ++ after less item xs ≡ xs
  before-append-after item [] = refl
  before-append-after item (x ∷ xs) = ground (arith, before-append-after item xs)

  pub insert_sorted-perm : (item : ℕ) (xs : List ℕ) → Perm (insert_sorted less item xs) (item ∷ xs)
  insert_sorted-perm item xs =
      rw (before-append-after item xs) at
        (perm_middle {a = item} (before less item xs) (after less item xs))

module _ (less : ℕ → ℕ → Bool) (o : IsOrder less) where
  NoneBelow-trans :
      (x y : ℕ) (xs : List ℕ) → less y x ≡ false → NoneBelow less y xs → NoneBelow less x xs
  NoneBelow-trans x y [] h n = tt
  NoneBelow-trans x y (z ∷ xs) h n = (o.cotrans z y x n.0 h, NoneBelow-trans x y xs h n.1)

  NoneBelow-insert_sorted :
      (x item : ℕ) (xs : List ℕ)
      → less item x ≡ false
      → NoneBelow less x xs
      → NoneBelow less x (insert_sorted less item xs)
  NoneBelow-insert_sorted x item [] h n = (h, tt)
  NoneBelow-insert_sorted x item (y ∷ ys) h n =
      ground (arith, NoneBelow-insert_sorted x item ys h n.1)

  -- Insertion keeps a list sorted.
  pub insert_sorted-IsSorted :
      (item : ℕ) (xs : List ℕ) → IsSorted less xs → IsSorted less (insert_sorted less item xs)
  insert_sorted-IsSorted item [] s = (tt, tt)
  insert_sorted-IsSorted item (x ∷ xs) s = elim (Bool-cases (less x item)) [
    | inl below ↦ rw below (
      NoneBelow-insert_sorted x item xs (o.asymm x item below) s.0,
      insert_sorted-IsSorted item xs s.1,
    )
    | inr stop ↦ rw stop ((stop, NoneBelow-trans item x xs stop s.0), s)
  ]
