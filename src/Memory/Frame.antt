-- ===== src/Memory/Frame.antt =====
-- What a store changes in memory, and what it leaves.
use matanos.Base.{
  ℕ, zero, suc, ◌+◌, ◌/◌, ◌%◌, ◌^◌, ◌<◌, ◌≤◌, ◌⊎◌, inl, inr, eq→==, ne→==, ◌≡◌, refl, sym, ap, ◌∙◌,
  arith,
}
use matanos.Memory.{Memory, load8, load32, store8, store32, fill, copy}

-- The two memories agree from `a` on for `n` bytes.
abbrev pub Agree : (a n : ℕ) → Memory → Memory → Type 0
Agree a n m m' = (k : ℕ) → a ≤ k → k < a + n → m' k ≡ m k

-- They agree outside that range.
abbrev pub AgreeOff : (a n : ℕ) → Memory → Memory → Type 0
AgreeOff a n m m' = (k : ℕ) → (k < a) ⊎ (a + n ≤ k) → m' k ≡ m k

pub AgreeOff-Agree :
    (a n b l : ℕ) (m m' : Memory) → AgreeOff a n m m' → (b + l ≤ a) ⊎ (a + n ≤ b) → Agree b l m m'
AgreeOff-Agree a n b l m m' off (inl h) k lo hi = off k (inl (omega arith))
AgreeOff-Agree a n b l m m' off (inr h) k lo hi = off k (inr (omega arith))

pub AgreeOff-widen :
    (a n b l : ℕ) (m m' : Memory) → AgreeOff b l m m' → a ≤ b → b + l ≤ a + n → AgreeOff a n m m'
AgreeOff-widen a n b l m m' off lo hi k (inl h) = off k (inl (omega arith))
AgreeOff-widen a n b l m m' off lo hi k (inr h) = off k (inr (omega arith))

pub AgreeOff-trans :
    (a n : ℕ) (m m' m'' : Memory) → AgreeOff a n m m' → AgreeOff a n m' m'' → AgreeOff a n m m''
AgreeOff-trans a n m m' m'' f g k out = g k out ∙ f k out

pub load32-Agree : (a : ℕ) (m m' : Memory) → Agree a 4 m m' → load32 m' a ≡ load32 m a
unfolding load32
load32-Agree a m m' h =
    rw
      (
        h a (omega arith) (omega arith),
        h (a + 1) (omega arith) (omega arith),
        h (a + 2) (omega arith) (omega arith),
        h (a + 3) (omega arith) (omega arith),
      )
      refl

pub load8-Agree : (a : ℕ) (m m' : Memory) → Agree a 1 m m' → load8 m' a ≡ load8 m a
unfolding load8
load8-Agree a m m' h = h a (omega arith) (omega arith)

pub store8_self : (m : Memory) (a v : ℕ) → store8 m a v a ≡ v
unfolding store8
store8_self m a v = rw (eq→== a a refl) refl

pub store8-ne : (m : Memory) (a v k : ℕ) → ¬ (k ≡ a) → store8 m a v k ≡ m k
unfolding store8
store8-ne m a v k h = rw (ne→== k a h) refl

pub store8-AgreeOff : (m : Memory) (a v : ℕ) → AgreeOff a 1 m (store8 m a v)
store8-AgreeOff m a v k (inl h) = store8-ne m a v k (λ e. omega arith)
store8-AgreeOff m a v k (inr h) = store8-ne m a v k (λ e. omega arith)

pub store32-AgreeOff : (m : Memory) (a v : ℕ) → AgreeOff a 4 m (store32 m a v)
unfolding store32
store32-AgreeOff m a v k out =
    store8-ne _ (a + 3) _ k (far k a 3 out (omega arith))
    ∙ store8-ne _ (a + 2) _ k (far k a 2 out (omega arith))
    ∙ store8-ne _ (a + 1) _ k (far k a 1 out (omega arith))
    ∙ store8-ne m a _ k (λ e. far k a 0 out (omega arith) (omega arith))
  where
    far : (k a i : ℕ) → (k < a) ⊎ (a + 4 ≤ k) → i < 4 → ¬ (k ≡ a + i)
    far k a i (inl h) lt e = omega arith
    far k a i (inr h) lt e = omega arith

-- A word that is stored is read back.
pub load32-store32 : (m : Memory) (a v : ℕ) → v < 2 ^ 32 → load32 (store32 m a v) a ≡ v
unfolding load32 store32
load32-store32 m a v h =
    let b0 = store8 m a (v % 2 ^ 8) in
    let b1 = store8 b0 (a + 1) (v / 2 ^ 8 % 2 ^ 8) in
    let b2 = store8 b1 (a + 2) (v / 2 ^ 16 % 2 ^ 8) in
    let low : store8 b2 (a + 3) (v / 2 ^ 24 % 2 ^ 8) a ≡ v % 2 ^ 8 =
      store8-ne b2 (a + 3) _ a (λ e. omega arith)
      ∙ store8-ne b1 (a + 2) _ a (λ e. omega arith)
      ∙ store8-ne b0 (a + 1) _ a (λ e. omega arith)
      ∙ store8_self m a _ in
    let second : store8 b2 (a + 3) (v / 2 ^ 24 % 2 ^ 8) (a + 1) ≡ v / 2 ^ 8 % 2 ^ 8 =
      store8-ne b2 (a + 3) _ (a + 1) (λ e. omega arith)
      ∙ store8-ne b1 (a + 2) _ (a + 1) (λ e. omega arith)
      ∙ store8_self b0 (a + 1) _ in
    let third : store8 b2 (a + 3) (v / 2 ^ 24 % 2 ^ 8) (a + 2) ≡ v / 2 ^ 16 % 2 ^ 8 =
      store8-ne b2 (a + 3) _ (a + 2) (λ e. omega arith) ∙ store8_self b1 (a + 2) _ in
    let high = store8_self b2 (a + 3) (v / 2 ^ 24 % 2 ^ 8) in
    rw (low, second, third, high) (omega arith)

pub fill-AgreeOff : (m : Memory) (a v n : ℕ) → AgreeOff a n m (fill m a v n)
unfolding fill
fill-AgreeOff m a v zero k out = refl
fill-AgreeOff m a v (suc n) k out =
    fill-AgreeOff (store8 m a v) (a + 1) v n k (shifted a n k out)
    ∙ store8-ne m a v k (off a n k out)
  where
    shifted : (a n k : ℕ) → (k < a) ⊎ (a + suc n ≤ k) → (k < a + 1) ⊎ (a + 1 + n ≤ k)
    shifted a n k (inl h) = inl (omega arith)
    shifted a n k (inr h) = inr (omega arith)

    off : (a n k : ℕ) → (k < a) ⊎ (a + suc n ≤ k) → ¬ (k ≡ a)
    off a n k (inl h) e = omega arith
    off a n k (inr h) e = omega arith

-- Every byte of the range has the value.
pub fill-inside : (m : Memory) (a v n k : ℕ) → a ≤ k → k < a + n → fill m a v n k ≡ v
unfolding fill
fill-inside m a v zero k lo hi = absurd (omega arith)
fill-inside m a v (suc n) k lo hi = elim (first a k lo) [
  | inl e ↦
      fill-AgreeOff (store8 m a v) (a + 1) v n k (inl (omega arith)) ∙ rw e (store8_self m a v)
  | inr l ↦ fill-inside (store8 m a v) (a + 1) v n k l (omega arith)
]
  where
    first : (a k : ℕ) → a ≤ k → (k ≡ a) ⊎ (a + 1 ≤ k)
    first a k h = ground arith

pub load32-fill : (m : Memory) (a n b : ℕ) → a ≤ b → b + 4 ≤ a + n → load32 (fill m a 0 n) b ≡ 0
unfolding load32
load32-fill m a n b lo hi =
    rw
      (
        fill-inside m a 0 n b lo (omega arith),
        fill-inside m a 0 n (b + 1) (omega arith) (omega arith),
        fill-inside m a 0 n (b + 2) (omega arith) (omega arith),
        fill-inside m a 0 n (b + 3) (omega arith) (omega arith),
      )
      refl

pub load32-bound : (m : Memory) (a : ℕ) → ((b : ℕ) → m b < 2 ^ 8) → load32 m a < 2 ^ 32
unfolding load32
load32-bound m a h =
    let h0 = h a in
    let h1 = h (a + 1) in let h2 = h (a + 2) in let h3 = h (a + 3) in omega (arith, h0, h1, h2, h3)

pub copy-AgreeOff : (source dest n : ℕ) (m : Memory) → AgreeOff dest n m (copy source dest n m)
unfolding copy
copy-AgreeOff source dest zero m k out = refl
copy-AgreeOff source dest (suc n) m k out =
    let m1 = store8 m dest (load8 m source) in
    copy-AgreeOff (source + 1) (dest + 1) n m1 k (ground arith)
    ∙ store8-ne m dest (load8 m source) k (λ e. ground arith)

-- The bytes copied from a range apart.
pub copy-inside :
    (source dest n k : ℕ) (m : Memory)
    → (source + n ≤ dest) ⊎ (dest + n ≤ source)
    → k < n
    → copy source dest n m (dest + k) ≡ m (source + k)
unfolding copy load8
copy-inside source dest zero k m apart h = absurd (omega arith)
copy-inside source dest (suc n) zero m apart h =
    let m1 = store8 m dest (m source) in
    let here : dest + 0 ≡ dest = omega arith in
    let there : source + 0 ≡ source = omega arith in
    rw (here, there)
      (copy-AgreeOff (source + 1) (dest + 1) n m1 dest (inl (omega arith))
        ∙ store8_self m dest (m source))
copy-inside source dest (suc n) (suc k) m apart h =
    let m1 = store8 m dest (m source) in
    let to : dest + suc k ≡ dest + 1 + k = omega arith in
    let from : source + suc k ≡ source + 1 + k = omega arith in
    rw (to, from)
      (copy-inside (source + 1) (dest + 1) n k m1 (ground arith) (omega arith)
        ∙ store8-ne m dest (m source) (source + 1 + k) (λ e. ground arith))

pub load32-copy :
    (source dest n k : ℕ) (m : Memory)
    → (source + n ≤ dest) ⊎ (dest + n ≤ source)
    → k + 4 ≤ n
    → load32 (copy source dest n m) (dest + k) ≡ load32 m (source + k)
unfolding load32
load32-copy source dest n k m apart h =
    let byte : (i : ℕ) → i < 4 → copy source dest n m (dest + k + i) ≡ m (source + k + i) = λ i lt.
      let to : dest + k + i ≡ dest + (k + i) = omega arith in
      let from : source + k + i ≡ source + (k + i) = omega arith in
      rw (to, from) (copy-inside source dest n (k + i) m apart (omega arith)) in
    let to0 : dest + k + 0 ≡ dest + k = omega arith in
    let from0 : source + k + 0 ≡ source + k = omega arith in
    let first : copy source dest n m (dest + k) ≡ m (source + k) =
      ap (λ a. copy source dest n m a) (sym to0) ∙ byte 0 (omega arith) ∙ ap (λ a. m a) from0 in
    rw (first, byte 1 (omega arith), byte 2 (omega arith), byte 3 (omega arith)) refl
