-- ===== src/Text/Compare.antt =====
-- What the result of `strcmp` of kernel/util.c says of two strings.
use matanos.Base.{
  ℕ, zero, suc, ◌+◌, ◌<◌, ◌==◌, ◌↔◌, ne→==, ==→eq, Bool-cases, inl, inr, List, [], ◌∷◌, ◌++◌,
  append_snoc, length, length-append, length-snoc, Run, ok, read-append, sub32, ◌≡◌, refl, sym, ap,
  arith, false,
}
use matanos.Text.{compare_from, strcmp, sign_extend}
use matanos.Text.Strings.{NonZero}

unfoldable pub AllBytes : List ℕ → Type 0
AllBytes [] = Unit
AllBytes (c ∷ cs) = (c < 256) × AllBytes cs

-- Characters that differ have a difference other than 0.
difference :
    (a b : ℕ) → a < 256 → b < 256 → ¬ (a ≡ b) → ¬ (sub32 (sign_extend a) (sign_extend b) ≡ 0)
unfolding sign_extend
difference a b ha hb ne e = ground arith

-- An outcome that is 0 just when two strings are equal.
unfoldable pub Decides : Run ℕ → (xs ys : List ℕ) → Type 0
Decides r xs ys = (v : ℕ) × (r ≡ ok v) × ((v ≡ 0) ↔ (xs ≡ ys))

pub compare_from_lem :
    (p q xs ys r1 r2 : List ℕ) (left i : ℕ)
    → NonZero xs
    → NonZero ys
    → AllBytes xs
    → AllBytes ys
    → length p ≡ i
    → length q ≡ i
    → length xs < left
    → Decides (compare_from left i (p ++ (xs ++ (0 ∷ r1))) (q ++ (ys ++ (0 ∷ r2)))) xs ys
unfolding compare_from NonZero AllBytes Decides
compare_from_lem p q xs ys r1 r2 zero i nx ny bx by_ ep eq_ h = absurd (omega arith)
compare_from_lem p q [] [] r1 r2 (suc left) i nx ny bx by_ ep eq_ h =
    (0, rw (read-append p 0 r1 i ep, read-append q 0 r2 i eq_) refl, ((λ e. refl), λ e. refl))
compare_from_lem p q [] (y ∷ ys) r1 r2 (suc left) i nx (ny, nys) bx (hy, hys) ep eq_ h =
    let differ : (0 == y) ≡ false = ne→== 0 y (λ e. ny (sym e)) in
    (
      sub32 (sign_extend 0) (sign_extend y),
      rw (read-append p 0 r1 i ep, read-append q y (ys ++ (0 ∷ r2)) i eq_, differ) refl,
      (
        (λ e. absurd (difference 0 y (omega arith) hy (λ d. ny (sym d)) e)),
        λ e. absurd (omega (arith, ap length e)),
      ),
    )
compare_from_lem p q (x ∷ xs) [] r1 r2 (suc left) i (nx, nxs) ny (hx, hxs) by_ ep eq_ h = (
  sub32 (sign_extend x) (sign_extend 0),
  rw (read-append p x (xs ++ (0 ∷ r1)) i ep, read-append q 0 r2 i eq_, ne→== x 0 nx) refl,
  ((λ e. absurd (difference x 0 hx (omega arith) nx e)), λ e. absurd (omega (arith, ap length e))),
)
compare_from_lem p q (x ∷ xs) (y ∷ ys) r1 r2 (suc left) i (nx, nxs) (ny, nys) (hx, hxs) (hy, hys) ep
      eq_ h =
    elim (Bool-cases (x == y)) [
      | inl e ↦
          let (v, run, (to, from)) =
            compare_from_lem (p ++ (x ∷ [])) (q ++ (y ∷ [])) xs ys r1 r2 left (i + 1) nxs nys hxs
              hys (omega (arith, length-snoc p x)) (omega (arith, length-snoc q y)) (omega arith) in
          (
            v,
            rw
                (
                  read-append p x (xs ++ (0 ∷ r1)) i ep,
                  read-append q y (ys ++ (0 ∷ r2)) i eq_,
                  e,
                  ne→== x 0 nx,
                  sym (append_snoc p x (xs ++ (0 ∷ r1))),
                  sym (append_snoc q y (ys ++ (0 ∷ r2))),
                )
                run,
            (
              (λ z. let same = to z in let first = ==→eq x y e in cc),
              λ z. from (let whole = z in cc),
            ),
          )
      | inr n ↦ (
        sub32 (sign_extend x) (sign_extend y),
        rw (read-append p x (xs ++ (0 ∷ r1)) i ep, read-append q y (ys ++ (0 ∷ r2)) i eq_, n) refl,
        (
          (λ z. absurd (difference x y hx hy (ne x y n) z)),
          λ z. absurd (ne x y n (let whole = z in cc)),
        ),
      )
    ]
  where
    ne : (a b : ℕ) → (a == b) ≡ false → ¬ (a ≡ b)
    ne a b h = ground arith

-- For strings of bytes `strcmp` returns, and it returns 0 just when the strings are equal.
pub strcmp_lem :
    (xs ys r1 r2 : List ℕ)
    → NonZero xs
    → NonZero ys
    → AllBytes xs
    → AllBytes ys
    → Decides (strcmp (xs ++ (0 ∷ r1)) (ys ++ (0 ∷ r2))) xs ys
unfolding strcmp
strcmp_lem xs ys r1 r2 nx ny bx by_ =
    compare_from_lem [] [] xs ys r1 r2 (length (xs ++ (0 ∷ r1))) 0 nx ny bx by_ refl refl
      (omega (arith, length-append xs (0 ∷ r1)))
