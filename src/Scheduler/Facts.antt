-- ===== src/Scheduler/Facts.antt =====
-- What the operations on the queues leave of every task: its process number and its wake-up tick.
use matanos.Base.{
  ℕ, ◌≡◌, refl, sym, ap, ◌∙◌, ◌≢◌, inl, inr, Option, none, some, Bool-cases, ◌==◌, ==→eq, ==→ne,
}
use matanos.Scheduler.{Task, Tasks, store}
use matanos.Scheduler.Chain.{store_self, store_ne}

-- The process number and the wake-up tick.
abbrev pub facts : Option Task → Option (ℕ × ℕ)
facts none = none
facts (some t) = some (t.id, t.end_of_sleep)

-- Every task but perhaps the one at `p` keeps its process number and its wake-up tick.
abbrev pub SameBut : ℕ → Tasks → Tasks → Type 0
SameBut p m m' = (x : ℕ) → x ≢ p → facts (m' x) ≡ facts (m x)

abbrev pub Same : Tasks → Tasks → Type 0
Same m m' = (x : ℕ) → facts (m' x) ≡ facts (m x)

pub Same-store :
    (m : Tasks) (c : ℕ) (t t' : Task)
    → m c ≡ some t
    → t'.id ≡ t.id
    → t'.end_of_sleep ≡ t.end_of_sleep
    → Same m (store m c t')
Same-store m c t t' held number tick x = elim (Bool-cases (x == c)) [
  | inl e ↦
      let at : x ≡ c = ==→eq x c e in
      ap (λ y. facts (store m c t' y)) at
      ∙ ap (λ o. facts o) (store_self m c t')
      ∙ rw (number, tick) refl
      ∙ ap (λ o. facts o) (sym held)
      ∙ ap (λ y. facts (m y)) (sym at)
  | inr n ↦ ap (λ o. facts o) (store_ne m c x t' (==→ne x c n))
]

pub Same-trans : (m m' m'' : Tasks) → Same m m' → Same m' m'' → Same m m''
Same-trans m m' m'' f g x = g x ∙ f x

pub SameBut-store : (m : Tasks) (c : ℕ) (t : Task) → SameBut c m (store m c t)
SameBut-store m c t x ne = ap (λ o. facts o) (store_ne m c x t ne)
