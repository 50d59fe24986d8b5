-- ===== src/Shell/Numbers.antt =====
-- The numbers that `int_to_ascii` of kernel/util.c writes and `skip_atoi` of kernel/shell.c reads.
use matanos.Base.{
  ℕ, zero, suc, ◌+◌, ◌-◌, ◌*◌, ◌/◌, ◌%◌, ◌^◌, ◌<◌, ◌≤◌, ltb, leb, lt→ltb, le→ltb, ltb→le, ne→==,
  Bool-cases, true, ◌&&◌, inl, inr, List, [], ◌∷◌, ◌++◌, append_snoc, length, length-snoc, ok,
  write-append, ◌≡◌, refl, sym, arith,
}
use native.Mathlib.Nat.{pow-suc}
use matanos.Text.{put_digits, int_to_ascii}
use matanos.Text.Strings.{NonZero}
use matanos.Text.Reverse.{backwards, reverse_lem}
use matanos.Shell.{isdigit, atoi_from, skip_atoi}

-- Decimal digits, the lowest first, and their value.
unfoldable pub AllDigits : List ℕ → Type 0
AllDigits [] = Unit
AllDigits (d ∷ ds) = (48 ≤ d) × (d < 58) × AllDigits ds

unfoldable pub low_value : List ℕ → ℕ
low_value [] = 0
low_value (d ∷ ds) = d - 48 + 10 * low_value ds

AllDigits-NonZero : (ds : List ℕ) → AllDigits ds → NonZero ds
unfolding AllDigits NonZero
AllDigits-NonZero [] h = tt
AllDigits-NonZero (d ∷ ds) (lo, hi, rest) = ((λ e. omega arith), AllDigits-NonZero ds rest)

-- The loop of `int_to_ascii` writes digits of value `n` from index `i` on.
unfoldable pub Writes : (fuel i n : ℕ) → (p buf : List ℕ) → Type 0
Writes fuel i n p buf =
    (ds : List ℕ) × (rest : List ℕ) × (put_digits fuel i n (p ++ buf)
      ≡ ok (i + length ds, p ++ (ds ++ rest)))
    × AllDigits ds
    × (low_value ds ≡ n)
    × (length ds ≤ fuel)
    × (length rest + length ds ≡ length buf)

last_digit :
    (fuel i n : ℕ) (p : List ℕ) (y : ℕ) (buf : List ℕ)
    → length p ≡ i
    → n / 10 ≡ 0
    → Writes (suc fuel) i n p (y ∷ buf)
unfolding Writes put_digits AllDigits low_value
last_digit fuel i n p y buf e small = (
  (n % 10 + 48) ∷ [],
  buf,
  rw (write-append p y (n % 10 + 48) buf i e, le→ltb 0 (n / 10) (omega arith)) refl,
  (omega arith, omega arith, tt),
  omega arith,
  omega arith,
  omega arith,
)

put_digits_lem :
    (fuel i n : ℕ) (p buf : List ℕ)
    → length p ≡ i
    → n < 10 ^ suc fuel
    → fuel < length buf
    → Writes (suc fuel) i n p buf
unfolding Writes put_digits AllDigits low_value
put_digits_lem fuel i n p [] e h room = absurd (omega arith)
put_digits_lem zero i n p (y ∷ buf) e h room =
    last_digit 0 i n p y buf e (omega (arith, pow-suc 10 0))
put_digits_lem (suc fuel) i n p (y ∷ buf) e h room = elim (Bool-cases (ltb 0 (n / 10))) [
  | inr no_more ↦ last_digit (suc fuel) i n p y buf e (omega (arith, ltb→le 0 (n / 10) no_more))
  | inl more ↦
      let d = n % 10 + 48 in
      let (ds, rest, run, digits, value, short, kept) =
        put_digits_lem fuel (i + 1) (n / 10) (p ++ (d ∷ [])) buf (omega (arith, length-snoc p d))
          (omega (arith, pow-suc 10 (suc fuel))) (omega arith) in
      let index : i + 1 + length ds ≡ i + suc (length ds) = omega arith in
      (
        d ∷ ds,
        rest,
        rw
            (
              write-append p y d buf i e,
              more,
              sym (append_snoc p d buf),
              run,
              index,
              append_snoc p d (ds ++ rest),
            )
            refl,
        (omega arith, omega arith, digits),
        omega arith,
        omega arith,
        omega arith,
      )
]

digit_read :
    (c acc : ℕ) (cs : List ℕ)
    → 48 ≤ c
    → c < 58
    → acc * 10 + (c - 48) < 2 ^ 31
    → atoi_from acc (c ∷ cs) ≡ atoi_from (acc * 10 + (c - 48)) cs
unfolding atoi_from isdigit
digit_read c acc cs lo hi small =
    rw (is_digit c lo hi, lt→ltb (acc * 10 + (c - 48)) (2 ^ 31) small) refl
  where
    is_digit : (c : ℕ) → 48 ≤ c → c < 58 → (leb 48 c && leb c 57) ≡ true
    is_digit c lo hi = ground arith

-- Reading the digits from the highest on adds up their value.
atoi_from-backwards :
    (ds rest : List ℕ)
    → AllDigits ds
    → low_value ds < 2 ^ 31
    → atoi_from 0 (backwards ds ++ rest) ≡ atoi_from (low_value ds) rest
unfolding backwards AllDigits low_value
atoi_from-backwards [] rest h small = refl
atoi_from-backwards (d ∷ ds) rest (lo, hi, digits) small =
    let value : low_value ds * 10 + (d - 48) ≡ d - 48 + 10 * low_value ds = omega arith in
    rw
      (
        append_snoc (backwards ds) d rest,
        atoi_from-backwards ds (d ∷ rest) digits (omega arith),
        digit_read d (low_value ds) rest lo hi (omega arith),
        value,
      )
      refl

finish :
    (n : ℕ) (buf ds rest : List ℕ)
    → n < 2 ^ 31
    → put_digits 11 0 n buf ≡ ok (0 + length ds, ds ++ rest)
    → AllDigits ds
    → low_value ds ≡ n
    → 0 < length rest
    → (str : List ℕ) × (int_to_ascii n buf ≡ ok str) × (skip_atoi str ≡ ok n)
unfolding int_to_ascii skip_atoi atoi_from isdigit
finish n buf ds [] h run digits value room = absurd (omega arith)
finish n buf ds (y ∷ rest) h run digits value room =
    let start : 0 + length ds ≡ length ds = omega arith in
    (
      backwards ds ++ (0 ∷ rest),
      rw
          (
            ne→== n (2 ^ 31) (λ e. omega arith),
            le→ltb (2 ^ 31 - 1) n (omega arith),
            run,
            start,
            write-append ds y 0 rest (length ds) refl,
            reverse_lem ds rest (AllDigits-NonZero ds digits),
          )
          refl,
      rw (atoi_from-backwards ds (0 ∷ rest) digits (omega arith), value) (ended n rest),
    )
  where
    ended : (n : ℕ) (rest : List ℕ) → atoi_from n (0 ∷ rest) ≡ ok n
    ended n rest = refl

-- A number below 2 ^ 31 that `int_to_ascii` writes into a buffer of at least 12 bytes is the number
-- that the shell reads back, and both return.
pub skip_atoi-int_to_ascii :
    (n : ℕ) (buf : List ℕ)
    → n < 2 ^ 31
    → 12 ≤ length buf
    → (str : List ℕ) × (int_to_ascii n buf ≡ ok str) × (skip_atoi str ≡ ok n)
unfolding Writes
skip_atoi-int_to_ascii n buf h room =
    let (ds, rest, run, digits, value, short, kept) =
      put_digits_lem 10 0 n [] buf refl (omega arith) (omega arith) in
    finish n buf ds rest h run digits value (omega arith)
