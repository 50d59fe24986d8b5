-- ===== src/Text/Reverse.antt =====
-- `reverse` of kernel/util.c turns a string round.
use matanos.Base.{
  ℕ, zero, suc, ◌+◌, ◌-◌, ◌≤◌, lt→ltb, le→ltb, inl, inr, List, [], ◌∷◌, ◌++◌, append_assoc,
  append_snoc, snoc-cases, length, length-append, length-snoc, ok, read, write, read-append,
  write-append, ◌≡◌, refl, sym, ap, ◌∙◌, arith,
}
use matanos.Text.{swap_ends, reverse}
use matanos.Text.Strings.{NonZero, strlen_lem}

-- The characters in the opposite order.
unfoldable pub backwards : List ℕ → List ℕ
backwards [] = []
backwards (x ∷ xs) = backwards xs ++ (x ∷ [])

backwards-snoc : (xs : List ℕ) (y : ℕ) → backwards (xs ++ (y ∷ [])) ≡ y ∷ backwards xs
unfolding backwards
backwards-snoc [] y = refl
backwards-snoc (x ∷ xs) y = rw (backwards-snoc xs y) refl

-- One round on the two ends of what is left.
swap_ends-step :
    (p m q : List ℕ) (x y left i j : ℕ)
    → length p ≡ i
    → i + length m + 1 ≡ j
    → swap_ends (suc left) i j (p ++ (x ∷ (m ++ (y ∷ q))))
      ≡ swap_ends left (i + 1) (j - 1) ((p ++ (y ∷ [])) ++ (m ++ (x ∷ q)))
unfolding swap_ends
swap_ends-step p m q x y left i j ep ej =
    let front : (c : ℕ) → p ++ (c ∷ (m ++ (y ∷ q))) ≡ (p ++ (c ∷ m)) ++ (y ∷ q) =
      λ c. sym (append_assoc p (c ∷ m) (y ∷ q)) in
    let back : length (p ++ (y ∷ m)) ≡ j = omega (arith, length-append p (y ∷ m)) in
    let back_x : length (p ++ (x ∷ m)) ≡ j = omega (arith, length-append p (x ∷ m)) in
    let first = read-append p x (m ++ (y ∷ q)) i ep in
    let second : read (p ++ (x ∷ (m ++ (y ∷ q)))) j ≡ ok y =
      rw (front x) (read-append (p ++ (x ∷ m)) y q j back_x) in
    let third = write-append p x y (m ++ (y ∷ q)) i ep in
    let fourth : write (p ++ (y ∷ (m ++ (y ∷ q)))) j x ≡ ok ((p ++ (y ∷ m)) ++ (x ∷ q)) =
      rw (front y) (write-append (p ++ (y ∷ m)) y x q j back) in
    rw
      (
        lt→ltb i j (omega arith),
        first,
        second,
        third,
        fourth,
        append_assoc p (y ∷ m) (x ∷ q),
        append_snoc p y (m ++ (x ∷ q)),
      )
      refl

swap_ends_stop : (left i j : ℕ) (s : List ℕ) → j ≤ i → swap_ends left i j s ≡ ok s
unfolding swap_ends
swap_ends_stop zero i j s h = rw (le→ltb i j h) refl
swap_ends_stop (suc left) i j s h = rw (le→ltb i j h) refl

-- From index `i` on, the loop turns `m` round, if it has the rounds.
pub swap_ends_lem :
    (left : ℕ) (p m q : List ℕ) (i j : ℕ)
    → length p ≡ i
    → length m ≤ left
    → i + length m - 1 ≡ j
    → swap_ends left i j (p ++ (m ++ q)) ≡ ok (p ++ (backwards m ++ q))
unfolding backwards
swap_ends_lem left p [] q i j ep h ej = swap_ends_stop left i j (p ++ q) (omega arith)
swap_ends_lem zero p (x ∷ m) q i j ep h ej = absurd (omega arith)
swap_ends_lem (suc left) p (x ∷ m) q i j ep h ej = elim (snoc-cases m) [
  | inl e ↦ rw e (swap_ends_stop (suc left) i j (p ++ (x ∷ q)) (omega (arith, ap length e)))
  | inr (ms, y, e) ↦
      let long : length m ≡ length ms + 1 = ap length e ∙ length-snoc ms y in
      rw
        (
          e,
          append_snoc ms y q,
          swap_ends-step p ms q x y left i j ep (omega arith),
          swap_ends_lem left (p ++ (y ∷ [])) ms (x ∷ q) (i + 1) (j - 1)
              (omega (arith, length-snoc p y)) (omega arith) (omega arith),
          backwards-snoc ms y,
          append_snoc p y (backwards ms ++ (x ∷ q)),
          append_snoc (backwards ms) x q,
        )
        refl
]

-- `reverse` returns, turns the string round and keeps what lies behind its terminator.
pub reverse_lem :
    (xs rest : List ℕ) → NonZero xs → reverse (xs ++ (0 ∷ rest)) ≡ ok (backwards xs ++ (0 ∷ rest))
unfolding reverse
reverse_lem xs rest nz =
    rw (strlen_lem xs rest nz) (
      swap_ends_lem (length xs) [] xs (0 ∷ rest) 0 (length xs - 1) refl (omega arith) (omega arith))
