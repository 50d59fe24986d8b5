-- ===== src/Scheduler/Chain.antt =====
-- Linked lists of tasks: segments of `next` pointers, and what a write does to them.
use mathlib.Core.Path.{subst}
use matanos.Base.{
  ℕ, suc, ◌+◌, ◌≤◌, ◌<◌, ◌≡◌, refl, sym, ap, ◌∙◌, ◌≢◌, inl, inr, false, List, [], ◌∷◌, ◌++◌, arith,
  ◌==◌, eq→==, ne→==, ==→eq, Bool-cases, if◌then◌else◌, some, ok,
}
use matanos.Scheduler.{Task, Tasks, load, store, set_next}

-- How often a pointer stands in a list.
abbrev pub count : ℕ → List ℕ → ℕ
count x [] = 0
count x (y ∷ ys) = (if x == y then 1 else 0) + count x ys

pub count-append : (x : ℕ) (xs ys : List ℕ) → count x (xs ++ ys) ≡ count x xs + count x ys
count-append x [] ys = omega arith
count-append x (y ∷ xs) ys = omega (arith, count-append x xs ys)

pub count_head : (x : ℕ) (xs : List ℕ) → count x (x ∷ xs) ≡ suc (count x xs)
count_head x xs = rw (eq→== x x refl) (omega arith)

pub count-single_ne : (x y : ℕ) → x ≢ y → count x (y ∷ []) ≡ 0
count-single_ne x y ne = rw (ne→== x y ne) (omega arith)

-- From `p` the `next` pointers lead through the tasks of the list to `q`.
abbrev pub Seg : Tasks → ℕ → List ℕ → ℕ → Type 0
Seg m p [] q = p ≡ q
Seg m p (x ∷ xs) q = (p ≡ x) × (x ≢ 0) × (t : Task) × (m x ≡ some t) × Seg m t.next xs q

pub load-ok : (m : Tasks) (p : ℕ) (t : Task) → p ≢ 0 → m p ≡ some t → load m p ≡ ok t
unfolding load
load-ok m p t h e = rw (ne→== p 0 h, e)

pub store_self : (m : Tasks) (p : ℕ) (t : Task) → store m p t p ≡ some t
unfolding store
store_self m p t = rw (eq→== p p refl)

pub store_ne : (m : Tasks) (p q : ℕ) (t : Task) → q ≢ p → store m p t q ≡ m q
unfolding store
store_ne m p q t h = rw (ne→== q p h)

pub set_next-ok :
    (m : Tasks) (p q : ℕ) (t : Task)
    → p ≢ 0
    → m p ≡ some t
    → set_next m p q ≡ ok (store m p (record t { next = q }))
unfolding set_next
set_next-ok m p q t h e = rw (load-ok m p t h e)

-- A write to a task outside the segment leaves it.
pub Seg-store :
    (m : Tasks) (y : ℕ) (t : Task) (p : ℕ) (xs : List ℕ) (q : ℕ)
    → count y xs ≡ 0
    → Seg m p xs q
    → Seg (store m y t) p xs q
Seg-store m y t p [] q out s = s
Seg-store m y t p (x ∷ xs) q out (e, pos, u, held, rest) = (
  e,
  pos,
  u,
  store_ne m y x t (λ same.
        absurd (omega (arith, out, count_head x xs, ap (λ (k : ℕ). count k (x ∷ xs)) same)))
      ∙ held,
  Seg-store m y t u.next xs q (omega (arith, out)) rest,
)

pub Seg-append :
    (m : Tasks) (p : ℕ) (xs : List ℕ) (q : ℕ) (ys : List ℕ) (r : ℕ)
    → Seg m p xs q
    → Seg m q ys r
    → Seg m p (xs ++ ys) r
Seg-append m p [] q ys r s t = rw s t
Seg-append m p (x ∷ xs) q ys r (e, pos, u, held, rest) t =
    (e, pos, u, held, Seg-append m u.next xs q ys r rest t)

pub Seg-split :
    (m : Tasks) (p : ℕ) (xs ys : List ℕ) (r : ℕ)
    → Seg m p (xs ++ ys) r
    → (q : ℕ) × Seg m p xs q × Seg m q ys r
Seg-split m p [] ys r s = (p, refl, s)
Seg-split m p (x ∷ xs) ys r (e, pos, u, held, rest) =
    let (q, s, t) = Seg-split m u.next xs ys r rest in (q, (e, pos, u, held, s), t)

-- Both at one task: the segments before and behind it, and what it holds.
pub Seg-at :
    (m : Tasks) (p : ℕ) (xs : List ℕ) (x : ℕ) (ys : List ℕ) (r : ℕ)
    → Seg m p (xs ++ (x ∷ ys)) r
    → Seg m p xs x × (x ≢ 0) × (t : Task) × (m x ≡ some t) × Seg m t.next ys r
Seg-at m p xs x ys r s =
    let (q, front, (e, pos, t, held, back)) = Seg-split m p xs (x ∷ ys) r s in
    (subst (λ k. Seg m p xs k) e front, pos, t, held, back)

-- The pointer to a list that is not empty is its first task.
abbrev pub head_or : List ℕ → ℕ → ℕ
head_or [] d = d
head_or (x ∷ xs) d = x

pub Seg-head : (m : Tasks) (p : ℕ) (xs : List ℕ) (q : ℕ) → Seg m p xs q → p ≡ head_or xs q
Seg-head m p [] q s = s
Seg-head m p (x ∷ xs) q s = s.0

-- The task `x` gets a new successor, and the segment in front of it stays.
pub Seg-relink :
    (m : Tasks) (p : ℕ) (xs : List ℕ) (x r : ℕ) (t : Task)
    → Seg m p xs x
    → x ≢ 0
    → count x xs ≡ 0
    → Seg (store m x (record t { next = r })) p (xs ++ (x ∷ [])) r
Seg-relink m p xs x r t front pos out =
    Seg-append (store m x (record t { next = r })) p xs x (x ∷ []) r
      (Seg-store m x (record t { next = r }) p xs x out front)
      (refl, pos, record t { next = r }, store_self m x (record t { next = r }), refl)

-- A segment depends only on the tasks in it.
pub Seg-same :
    (m m' : Tasks) (p : ℕ) (xs : List ℕ) (q : ℕ)
    → ((x : ℕ) → 0 < count x xs → m' x ≡ m x)
    → Seg m p xs q
    → Seg m' p xs q
Seg-same m m' p [] q same s = s
Seg-same m m' p (x ∷ xs) q same (e, pos, t, held, rest) = (
  e,
  pos,
  t,
  same x (omega (arith, count_head x xs)) ∙ held,
  Seg-same m m' t.next xs q (λ y h. same y (omega (arith, h))) rest,
)

-- A segment that holds a task does not start at a task outside it.
pub Seg-start_ne :
    (m : Tasks) (p : ℕ) (xs : List ℕ) (y r c : ℕ)
    → Seg m p (xs ++ (y ∷ [])) r
    → count c (xs ++ (y ∷ [])) ≡ 0
    → p ≢ c
Seg-start_ne m p [] y r c s none same =
    absurd (omega (arith, none, ap (λ (k : ℕ). count k (y ∷ [])) (sym same ∙ s.0), count_head y []))
Seg-start_ne m p (x ∷ xs) y r c s none same = absurd (
    omega (
      arith,
      none,
      ap (λ (k : ℕ). count k (x ∷ xs ++ (y ∷ []))) (sym same ∙ s.0),
      count_head x (xs ++ (y ∷ [])),
    ))

-- A write that leaves the successor of a task alone leaves every segment.
pub Seg-keep :
    (m : Tasks) (x : ℕ) (t t' : Task) (p : ℕ) (xs : List ℕ) (q : ℕ)
    → m x ≡ some t
    → t'.next ≡ t.next
    → Seg m p xs q
    → Seg (store m x t') p xs q
Seg-keep m x t t' p [] q held same s = s
Seg-keep m x t t' p (y ∷ xs) q held same (e, pos, u, held_y, rest) = elim (Bool-cases (y == x)) [
  | inl is_x ↦
      let here : y ≡ x = ==→eq y x is_x in
      let both : some u ≡ some t = sym held_y ∙ ap m here ∙ held in
      let old : u ≡ t = cc in
      let onward : u.next ≡ t'.next = ap (λ (v : Task). v.next) old ∙ sym same in
      (
        e,
        pos,
        t',
        ap (store m x t') here ∙ store_self m x t',
        subst (λ (k : ℕ). Seg (store m x t') k xs q) onward
            (Seg-keep m x t t' u.next xs q held same rest),
      )
  | inr differs ↦ (
    e,
    pos,
    u,
    store_ne m x y t' (λ here. ground (arith, eq→== y x here)) ∙ held_y,
    Seg-keep m x t t' u.next xs q held same rest,
  )
]

-- The pointer to a list that is not empty is not NULL.
pub Seg-start_pos : (m : Tasks) (p : ℕ) (xs : List ℕ) (y r : ℕ) → Seg m p (xs ++ (y ∷ [])) r → p ≢ 0
Seg-start_pos m p [] y r s none = s.1 (sym s.0 ∙ none)
Seg-start_pos m p (x ∷ xs) y r s none = s.1 (sym s.0 ∙ none)

-- A new pointer can be added to two lists that share no pointer.
pub apart-snoc :
    (x f : ℕ) (xs ys : List ℕ)
    → count f xs + count f ys ≡ 0
    → count x xs + count x ys ≤ 1
    → count x (xs ++ (f ∷ [])) + count x ys ≤ 1
apart-snoc x f xs ys none once = elim (Bool-cases (x == f)) [
  | inl same ↦
      let e : x ≡ f = ==→eq x f same in
      omega (
        arith,
        none,
        ap (λ (k : ℕ). count k xs) e,
        ap (λ (k : ℕ). count k ys) e,
        count-append x xs (f ∷ []),
        one x f,
      )
  | inr differs ↦ omega (arith, once, count-append x xs (f ∷ []), other x f differs)
]
  where
    one : (a b : ℕ) → count a (b ∷ []) ≤ 1
    one a b = ground arith

    other : (a b : ℕ) → (a == b) ≡ false → count a (b ∷ []) ≡ 0
    other a b h = rw h (omega arith)
