-- ===== src/Text/Strings.antt =====
-- The lengths and the ends of strings, by kernel/util.c.
use matanos.Base.{
  ℕ, zero, suc, ◌+◌, ◌-◌, ◌<◌, false, ◌==◌, ne→==, List, [], ◌∷◌, ◌++◌, append_snoc, length,
  length-append, length-snoc, ok, fault, ◌>>=◌, read-append, write-append, write_past, ◌≡◌, refl,
  sym, arith,
}
use matanos.Text.{scan, strlen, append_char, backspace}

-- No character of the list is the terminator.
unfoldable pub NonZero : List ℕ → Type 0
NonZero [] = Unit
NonZero (c ∷ cs) = (¬ (c ≡ 0)) × NonZero cs

pub NonZero-append : (xs ys : List ℕ) → NonZero (xs ++ ys) → NonZero xs × NonZero ys
unfolding NonZero
NonZero-append [] ys h = (tt, h)
NonZero-append (x ∷ xs) ys (h, hs) = let (a, b) = NonZero-append xs ys hs in ((h, a), b)

-- The scan passes a prefix without terminators and stops at the first one.
pub scan_lem :
    (p xs rest : List ℕ) (left i : ℕ)
    → NonZero xs
    → length p ≡ i
    → length xs < left
    → scan left i (p ++ (xs ++ (0 ∷ rest))) ≡ ok (i + length xs)
unfolding scan NonZero
scan_lem p [] rest zero i nz e h = absurd (omega arith)
scan_lem p (x ∷ xs) rest zero i nz e h = absurd (omega arith)
scan_lem p [] rest (suc left) i nz e h =
    let none_more : i + 0 ≡ i = omega arith in rw (read-append p 0 rest i e, none_more) refl
scan_lem p (x ∷ xs) rest (suc left) i (nx, nz) e h =
    let shift : i + suc (length xs) ≡ i + 1 + length xs = omega arith in
    rw
      (
        read-append p x (xs ++ (0 ∷ rest)) i e,
        ne→== x 0 nx,
        shift,
        sym (append_snoc p x (xs ++ (0 ∷ rest))),
      )
      (scan_lem (p ++ (x ∷ [])) xs rest left (i + 1) nz (omega (arith, length-snoc p x))
        (omega arith))

-- `strlen` of a buffer is the number of characters in front of its first terminator.
pub strlen_lem : (xs rest : List ℕ) → NonZero xs → strlen (xs ++ (0 ∷ rest)) ≡ ok (length xs)
unfolding strlen
strlen_lem xs rest nz =
    let none_before : 0 + length xs ≡ length xs = omega arith in
    rw none_before at (
      scan_lem [] xs rest (length (xs ++ (0 ∷ rest))) 0 nz refl
        (omega (arith, length-append xs (0 ∷ rest))))

-- On a string, `append` puts a character behind it if the buffer has one more byte, and
-- otherwise writes outside the buffer.
pub append_char_lem :
    (xs : List ℕ) (n : ℕ)
    → NonZero xs
    → ((y : ℕ) (rest : List ℕ)
        → append_char (xs ++ (0 ∷ y ∷ rest)) n ≡ ok ((xs ++ (n ∷ [])) ++ (0 ∷ rest)))
      × (append_char (xs ++ (0 ∷ [])) n ≡ fault)
unfolding append_char
append_char_lem xs n nz = (
  (λ y rest.
      rw
        (
          strlen_lem xs (y ∷ rest) nz,
          write-append xs 0 n (y ∷ rest) (length xs) refl,
          sym (append_snoc xs n (y ∷ rest)),
        )
        (write-append (xs ++ (n ∷ [])) y 0 rest (length xs + 1) (length-snoc xs n))),
  rw (strlen_lem xs [] nz, write-append xs 0 n [] (length xs) refl)
      (write_past (xs ++ (n ∷ [])) (length xs + 1) 0 (omega (arith, length-snoc xs n))),
)

-- `backspace` removes the last character of a string that has one, and on the empty string it
-- writes outside the buffer.
pub backspace_lem :
    (rest : List ℕ)
    → ((xs : List ℕ) (x : ℕ)
        → NonZero (xs ++ (x ∷ []))
        → backspace ((xs ++ (x ∷ [])) ++ (0 ∷ rest)) ≡ ok (xs ++ (0 ∷ 0 ∷ rest)))
      × (backspace (0 ∷ rest) ≡ fault)
unfolding backspace NonZero
backspace_lem rest = (
  (λ xs x nz.
      let some_left : (length (xs ++ (x ∷ [])) == 0) ≡ false =
        ne→== _ 0 (λ e. omega (arith, length-snoc xs x)) in
      rw (strlen_lem (xs ++ (x ∷ [])) rest nz, some_left, append_snoc xs x (0 ∷ rest))
        (write-append xs x 0 (0 ∷ rest) (length (xs ++ (x ∷ [])) - 1)
          (omega (arith, length-snoc xs x)))),
  rw (strlen_lem [] rest tt) refl,
)

-- Appending a character other than the terminator, with room for it, and removing it again
-- gives the string back.
backspace-append_char :
    (xs rest : List ℕ) (y n : ℕ)
    → NonZero (xs ++ (n ∷ []))
    → (append_char (xs ++ (0 ∷ y ∷ rest)) n >>= backspace) ≡ ok (xs ++ (0 ∷ 0 ∷ rest))
backspace-append_char xs rest y n nz =
    let (nx, last) = NonZero-append xs (n ∷ []) nz in
    let (room, full) = append_char_lem xs n nx in
    let (removed, empty) = backspace_lem rest in rw (room y rest) (removed xs n nz)
