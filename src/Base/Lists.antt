-- ===== src/Base/Lists.antt =====
-- C arrays as lists indexed by native numbers, with faults outside them.
use Prim.Native.Nat.{ℕ, zero, suc, ◌+◌, ◌≤◌, ◌<◌}
use mathlib.Core.Path.{◌≡◌, refl, ap}
use mathlib.Core.Logic.{◌≢◌, ◌⊎◌, inl, inr}
use mathlib.Core.List.{List, [], ◌∷◌, ◌++◌, append_assoc}
use mathlib.Core.Option.{Option, none, some}
use native.Mathlib.Omega.{arith}
use matanos.Base.Outcome.{Run, ok, fault, expect, ◌>>=◌}

module _ {ℓ} {A : Type ℓ} where
  abbrev pub length : List A → ℕ
  length [] = 0
  length (x ∷ xs) = suc (length xs)

  abbrev pub get_elem? : List A → ℕ → Option A
  get_elem? [] i = none
  get_elem? (x ∷ xs) zero = some x
  get_elem? (x ∷ xs) (suc i) = get_elem? xs i

  abbrev pub get_or : List A → ℕ → A → A
  get_or [] i d = d
  get_or (x ∷ xs) zero d = x
  get_or (x ∷ xs) (suc i) d = get_or xs i d

  -- A write out of bounds changes nothing.
  abbrev pub set : List A → ℕ → A → List A
  set [] i v = []
  set (x ∷ xs) zero v = v ∷ xs
  set (x ∷ xs) (suc i) v = x ∷ set xs i v

  abbrev pub replicate : ℕ → A → List A
  replicate zero a = []
  replicate (suc n) a = a ∷ replicate n a

  -- `xs[i]` of C.
  unfoldable pub read : List A → ℕ → Run A
  read xs i = expect (get_elem? xs i)

  -- `xs[i] = v` of C: a fault outside the array.
  unfoldable pub write : List A → ℕ → A → Run (List A)
  write [] i v = fault
  write (x ∷ xs) zero v = ok (v ∷ xs)
  write (x ∷ xs) (suc i) v = write xs i v >>= λ ys. ok (x ∷ ys)

module _ {ℓ} {A : Type ℓ} where
  pub length-append : (xs ys : List A) → length (xs ++ ys) ≡ length xs + length ys
  length-append [] ys = omega arith
  length-append (x ∷ xs) ys = omega (arith, length-append xs ys)

  pub length-set : (xs : List A) (i : ℕ) (v : A) → length (set xs i v) ≡ length xs
  length-set [] i v = refl
  length-set (x ∷ xs) zero v = refl
  length-set (x ∷ xs) (suc i) v = ap suc (length-set xs i v)

  pub length-replicate : (n : ℕ) (a : A) → length (replicate n a) ≡ n
  length-replicate zero a = refl
  length-replicate (suc n) a = ap suc (length-replicate n a)

  pub get_or-set_self :
      (xs : List A) (i : ℕ) (v d : A) → i < length xs → get_or (set xs i v) i d ≡ v
  get_or-set_self [] i v d h = absurd (omega arith)
  get_or-set_self (x ∷ xs) zero v d h = refl
  get_or-set_self (x ∷ xs) (suc i) v d h = get_or-set_self xs i v d (omega arith)

  pub get_or-set_ne :
      (xs : List A) (i j : ℕ) (v d : A) → i ≢ j → get_or (set xs i v) j d ≡ get_or xs j d
  get_or-set_ne [] i j v d h = refl
  get_or-set_ne (x ∷ xs) zero zero v d h = absurd (h refl)
  get_or-set_ne (x ∷ xs) zero (suc j) v d h = refl
  get_or-set_ne (x ∷ xs) (suc i) zero v d h = refl
  get_or-set_ne (x ∷ xs) (suc i) (suc j) v d h = get_or-set_ne xs i j v d (λ e. h (ap suc e))

  -- Inside the array a read returns the element, and a write is `set`.
  pub read-get_or : (xs : List A) (i : ℕ) (d : A) → i < length xs → read xs i ≡ ok (get_or xs i d)
  unfolding read
  read-get_or [] i d h = absurd (omega arith)
  read-get_or (x ∷ xs) zero d h = refl
  read-get_or (x ∷ xs) (suc i) d h = read-get_or xs i d (omega arith)

  pub write-set : (xs : List A) (i : ℕ) (v : A) → i < length xs → write xs i v ≡ ok (set xs i v)
  unfolding write
  write-set [] i v h = absurd (omega arith)
  write-set (x ∷ xs) zero v h = refl
  write-set (x ∷ xs) (suc i) v h = rw (write-set xs i v (omega arith))

  -- The same at the element behind a prefix.
  pub read-append :
      (p : List A) (x : A) (q : List A) (i : ℕ) → length p ≡ i → read (p ++ (x ∷ q)) i ≡ ok x
  unfolding read
  read-append [] x q zero e = refl
  read-append [] x q (suc i) e = absurd (omega arith)
  read-append (y ∷ p) x q zero e = absurd (omega arith)
  read-append (y ∷ p) x q (suc i) e = read-append p x q i (omega arith)

  pub write-append :
      (p : List A) (x v : A) (q : List A) (i : ℕ)
      → length p ≡ i
      → write (p ++ (x ∷ q)) i v ≡ ok (p ++ (v ∷ q))
  unfolding write
  write-append [] x v q zero e = refl
  write-append [] x v q (suc i) e = absurd (omega arith)
  write-append (y ∷ p) x v q zero e = absurd (omega arith)
  write-append (y ∷ p) x v q (suc i) e = rw (write-append p x v q i (omega arith))

  -- Past the end of an array both are faults.
  pub read_past : (xs : List A) (i : ℕ) → length xs ≤ i → read xs i ≡ fault
  unfolding read
  read_past [] i h = refl
  read_past (x ∷ xs) zero h = absurd (omega arith)
  read_past (x ∷ xs) (suc i) h = read_past xs i (omega arith)

  pub write_past : (xs : List A) (i : ℕ) (v : A) → length xs ≤ i → write xs i v ≡ fault
  unfolding write
  write_past [] i v h = refl
  write_past (x ∷ xs) zero v h = absurd (omega arith)
  write_past (x ∷ xs) (suc i) v h = rw (write_past xs i v (omega arith))

  pub append_snoc : (p : List A) (x : A) (q : List A) → (p ++ (x ∷ [])) ++ q ≡ p ++ (x ∷ q)
  append_snoc p x q = append_assoc p (x ∷ []) q

  pub length-snoc : (p : List A) (x : A) → length (p ++ (x ∷ [])) ≡ length p + 1
  length-snoc p x = omega (arith, length-append p (x ∷ []))

  -- A list is empty, or it has a last element.
  pub snoc-cases : (xs : List A) → (xs ≡ []) ⊎ ((ys : List A) × (y : A) × (xs ≡ ys ++ (y ∷ [])))
  snoc-cases [] = inl refl
  snoc-cases (x ∷ xs) = elim (snoc-cases xs) [
    | inl e ↦ inr ([], x, ap (λ l. x ∷ l) e)
    | inr (ys, y, e) ↦ inr (x ∷ ys, y, ap (λ l. x ∷ l) e)
  ]
