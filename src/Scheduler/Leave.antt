-- ===== src/Scheduler/Leave.antt =====
-- The two queues of a scheduler state, and how a sleeping task leaves the ready queue.
use matanos.Base.{
  ℕ, ◌+◌, ◌≤◌, ◌<◌, ◌≡◌, refl, sym, ap, ◌∙◌, ◌≢◌, List, [], ◌∷◌, ◌++◌, arith, eq→==, ne→==, ok,
  length, length-append, some, Bool-cases, ◌==◌, ==→eq, inl, inr, snoc-cases,
}
use mathlib.Core.Path.{subst}
use matanos.Scheduler.{Task, Tasks, Sched, store, task_before, leave_ready_queue}
use matanos.Scheduler.Chain.{
  Seg, count, count-append, count_head, load-ok, set_next-ok, store_self, store_ne, Seg-store,
  Seg-append, Seg-at, Seg-relink, Seg-start_ne,
}
use matanos.Scheduler.Facts.{Same, Same-store, Same-trans}
use matanos.Scheduler.Walk.{task_before-Seg}

-- The ready queue and the sleep queue are lists of tasks that end in NULL, and no task stands
-- twice in them.
pub record Queues (s : Sched) (ready sleeping : List ℕ) : Type 0 where
  pub ready_chain : Seg s.tasks s.ready_queue ready 0
  pub sleep_chain : Seg s.tasks s.sleep_queue sleeping 0
  pub apart : (x : ℕ) → count x ready + count x sleeping ≤ 1

-- What `leave_ready_queue` leaves behind, of the tasks `m` with `c` in the ready queue `a ++ c ∷ b`.
pub record Left (m m' : Tasks) (c : ℕ) (tc : Task) (a b : List ℕ) (q : ℕ) : Type 0 where
  pub chain : Seg m' q (a ++ b) 0
  pub same : Same m m'
  pub gone : m' c ≡ some (record tc { next = 0 })
  pub others : (x : ℕ) → count x (a ++ (c ∷ [])) ≡ 0 → m' x ≡ m x
  pub links :
      (x : ℕ) (t : Task) → x ≢ c → m x ≡ some t → (k : ℕ) × (m' x ≡ some (record t { next = k }))

module _ (walk : ℕ) (s : Sched) (c : ℕ) (tc : Task) (at : s.current_task ≡ c) (pos : c ≢ 0)
    (held : s.tasks c ≡ some tc) where
  pub leave_at_head :
      (b : List ℕ)
      → s.ready_queue ≡ c
      → Seg s.tasks tc.next b 0
      → count c b ≡ 0
      → (leave_ready_queue walk s
          ≡ ok (record s {
            tasks = store s.tasks c (record tc { next = 0 });
            ready_queue = tc.next;
          }))
        × Left s.tasks (store s.tasks c (record tc { next = 0 })) c tc [] b tc.next
  unfolding leave_ready_queue
  leave_at_head b front back out = (
    rw (
      at,
      load-ok s.tasks c tc pos held,
      eq→== s.ready_queue c front,
      set_next-ok s.tasks c 0 tc pos held,
    ),
    record {
      chain = Seg-store s.tasks c (record tc { next = 0 }) tc.next b 0 out back;
      same = Same-store s.tasks c tc (record tc { next = 0 }) held refl refl;
      gone = store_self s.tasks c (record tc { next = 0 });
      others = λ x none. store_ne s.tasks c x (record tc { next = 0 }) (other x none);
      links = λ x t ne e. (t.next, store_ne s.tasks c x (record tc { next = 0 }) ne ∙ e);
    },
  )
    where
      other : (x : ℕ) → count x (c ∷ []) ≡ 0 → x ≢ c
      other x none same =
          absurd (omega (arith, none, ap (λ (k : ℕ). count k (c ∷ [])) same, count_head c []))

  module _ (a : List ℕ) (y : ℕ) (b : List ℕ) (ty : Task) (front : Seg s.tasks s.ready_queue a y)
      (y_pos : y ≢ 0) (held_y : s.tasks y ≡ some ty) (link : ty.next ≡ c)
      (back : Seg s.tasks tc.next b 0)
      (apart : (x : ℕ) → count x a + count x (y ∷ []) + count x (c ∷ []) + count x b ≤ 1)
      (other : s.ready_queue ≢ c) (fuel : length a < walk) where
    abbrev pub skipped : Tasks
    skipped = store s.tasks y (record ty { next = tc.next })

    abbrev pub without : Tasks
    without = store skipped c (record tc { next = 0 })

    c_ne_y : c ≢ y
    c_ne_y same = absurd (
        omega
          (arith, apart y, count_head y [], count_head c [], ap (λ (k : ℕ). count y (k ∷ [])) same))

    skipped_c : skipped c ≡ some tc
    skipped_c = store_ne s.tasks y c (record ty { next = tc.next }) c_ne_y ∙ held

    once_y : (count y b ≡ 0) × (count y a ≡ 0)
    once_y = omega (arith, apart y, count_head y [])

    relinked : Seg skipped s.ready_queue ((a ++ (y ∷ [])) ++ b) 0
    relinked =
        Seg-append skipped s.ready_queue (a ++ (y ∷ [])) tc.next b 0
          (Seg-relink s.tasks s.ready_queue a y tc.next ty front y_pos once_y.1)
          (Seg-store s.tasks y (record ty { next = tc.next }) tc.next b 0 once_y.0 back)

    outside_c : (count c (a ++ (y ∷ [])) ≡ 0) × (count c ((a ++ (y ∷ [])) ++ b) ≡ 0)
    outside_c = omega (
      arith,
      apart c,
      count_head c [],
      count-append c (a ++ (y ∷ [])) b,
      count-append c a (y ∷ []),
    )

    found : task_before walk s.tasks c s.ready_queue ≡ ok y
    found =
        task_before-Seg walk s.tasks s.ready_queue a y c
          (Seg-append s.tasks s.ready_queue a y (y ∷ []) c front (refl, y_pos, ty, held_y, link))
          outside_c.0 fuel

    others_kept : (x : ℕ) → count x ((a ++ (y ∷ [])) ++ (c ∷ [])) ≡ 0 → without x ≡ s.tasks x
    others_kept x none =
        store_ne skipped c x (record tc { next = 0 })
          (λ same.
            absurd (omega (arith, counts, ap (λ (k : ℕ). count k (c ∷ [])) same, count_head c [])))
        ∙ store_ne s.tasks y x (record ty { next = tc.next })
            (λ same.
              absurd
                (omega (arith, counts, ap (λ (k : ℕ). count k (y ∷ [])) same, count_head y [])))
      where
        counts : count x a + count x (y ∷ []) + count x (c ∷ []) ≡ 0
        counts =
            omega (arith, none, count-append x (a ++ (y ∷ [])) (c ∷ []), count-append x a (y ∷ []))

    links_kept :
        (x : ℕ) (t : Task)
        → x ≢ c
        → s.tasks x ≡ some t
        → (k : ℕ) × (without x ≡ some (record t { next = k }))
    links_kept x t ne e = elim (Bool-cases (x == y)) [
      | inl same ↦
          let is_y : x ≡ y = ==→eq x y same in
          let both : some t ≡ some ty = sym e ∙ ap s.tasks is_y ∙ held_y in
          let is_ty : t ≡ ty = cc in
          (
            tc.next,
            store_ne skipped c x (record tc { next = 0 }) ne
                ∙ ap skipped is_y
                ∙ store_self s.tasks y (record ty { next = tc.next })
                ∙ ap (λ (u : Task). some (record u { next = tc.next })) (sym is_ty),
          )
      | inr differs ↦ (
        t.next,
        store_ne skipped c x (record tc { next = 0 }) ne
            ∙ store_ne s.tasks y x (record ty { next = tc.next })
                (λ same. ground (arith, eq→== x y same))
            ∙ e,
      )
    ]

    pub leave_behind :
        (leave_ready_queue walk s ≡ ok (record s { tasks = without }))
        × Left s.tasks without c tc (a ++ (y ∷ [])) b s.ready_queue
    unfolding leave_ready_queue
    leave_behind = (
      rw (
        at,
        load-ok s.tasks c tc pos held,
        ne→== s.ready_queue c other,
        found,
        set_next-ok s.tasks y tc.next ty y_pos held_y,
        set_next-ok skipped c 0 tc pos skipped_c,
      ),
      record {
        chain =
            Seg-store skipped c (record tc { next = 0 }) s.ready_queue ((a ++ (y ∷ [])) ++ b) 0
              outside_c.1 relinked;
        same =
            Same-trans s.tasks skipped without
              (Same-store s.tasks y ty (record ty { next = tc.next }) held_y refl refl)
              (Same-store skipped c tc (record tc { next = 0 }) skipped_c refl refl);
        gone = store_self skipped c (record tc { next = 0 });
        others = others_kept;
        links = links_kept;
      },
    )

  -- The outcome for a task that stands in the ready queue behind `a` and in front of `b`.
  abbrev Leaves : List ℕ → List ℕ → Type 0
  Leaves a b =
      Seg s.tasks s.ready_queue (a ++ (c ∷ b)) 0
      → ((x : ℕ) → count x (a ++ (c ∷ b)) ≤ 1)
      → length a < walk
      → (m' : Tasks) × (q : ℕ) × (leave_ready_queue walk s
          ≡ ok (record s { tasks = m'; ready_queue = q }))
        × Left s.tasks m' c tc a b q

  pub behind :
      (a b : List ℕ)
      → Seg s.tasks s.ready_queue (a ++ (c ∷ b)) 0
      → Seg s.tasks s.ready_queue a c × Seg s.tasks tc.next b 0
  behind a b chain =
      let (front, _, t, e, back) = Seg-at s.tasks s.ready_queue a c b 0 chain in
      let both : some t ≡ some tc = sym e ∙ held in
      let same : t ≡ tc = cc in (front, subst (λ (u : Task). Seg s.tasks u.next b 0) same back)

  leave_first : (b : List ℕ) → Leaves [] b
  leave_first b chain apart fuel =
      let (front, back) = behind [] b chain in
      let out : count c b ≡ 0 = omega (arith, apart c, count_head c b) in
      let (runs, left) = leave_at_head b front back out in
      (store s.tasks c (record tc { next = 0 }), tc.next, runs, left)

  leave_later : (a : List ℕ) (y : ℕ) (b : List ℕ) → Leaves (a ++ (y ∷ [])) b
  leave_later a y b chain apart fuel =
      let (front, back) = behind (a ++ (y ∷ [])) b chain in
      let (front', y_pos, ty, held_y, link) = Seg-at s.tasks s.ready_queue a y [] c front in
      let counts : (x : ℕ) → count x a + count x (y ∷ []) + count x (c ∷ []) + count x b ≤ 1 = λ x.
        omega (
          arith,
          apart x,
          count-append x (a ++ (y ∷ [])) (c ∷ b),
          count-append x a (y ∷ []),
          count-append x (c ∷ []) b,
        ) in
      let none : count c (a ++ (y ∷ [])) ≡ 0 =
        omega (arith, counts c, count_head c [], count-append c a (y ∷ [])) in
      let (runs, left) =
        leave_behind a y b ty front' y_pos held_y link back counts
          (Seg-start_ne s.tasks s.ready_queue a y c c front none)
          (omega (arith, fuel, length-append a (y ∷ []))) in
      (
        without a y b ty front' y_pos held_y link back counts
            (Seg-start_ne s.tasks s.ready_queue a y c c front none)
            (omega (arith, fuel, length-append a (y ∷ []))),
        s.ready_queue,
        runs,
        left,
      )

  -- A task that stands in the ready queue leaves it, wherever it stands.
  pub leave-Left : (a b : List ℕ) → Leaves a b
  leave-Left a b = elim (snoc-cases a) [
    | inl none ↦ subst (λ (l : List ℕ). Leaves l b) (sym none) (leave_first b)
    | inr (a', y, e) ↦ subst (λ (l : List ℕ). Leaves l b) (sym e) (leave_later a' y b)
  ]
