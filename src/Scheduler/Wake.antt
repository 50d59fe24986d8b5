-- ===== src/Scheduler/Wake.antt =====
-- How a woken task leaves the sleep queue and joins the ready queue.
use matanos.Base.{
  ℕ, ◌+◌, ◌≤◌, ◌<◌, ◌≡◌, refl, sym, ap, ◌∙◌, ◌≢◌, inl, inr, List, [], ◌∷◌, ◌++◌, arith, eq→==,
  ne→==, ok, length, length-append, some, snoc-cases,
}
use mathlib.Core.Path.{subst}
use matanos.Scheduler.{Task, Tasks, Sched, store, leave_sleep_queue, join_ready_queue}
use matanos.Scheduler.Chain.{
  Seg, count, count-append, count_head, set_next-ok, store_self, store_ne, Seg-at, Seg-relink,
  Seg-append, Seg-store, Seg-start_ne,
}
use matanos.Scheduler.Facts.{Same, Same-store, Same-trans}
use matanos.Scheduler.Walk.{last_task-Seg, task_before-Seg}
use matanos.Scheduler.Leave.{Queues}

-- The memory once `p` has left the sleep queue `xs ++ p ∷ ys`, with the ready queue as it was.
pub record OffQueue (m m' : Tasks) (ready_queue queue : ℕ) (ready : List ℕ) (p : ℕ) (tp : Task)
    (rest : List ℕ) : Type 0 where
  pub held : m' p ≡ some tp
  pub same : Same m m'
  pub ready_chain : Seg m' ready_queue ready 0
  pub sleep_chain : Seg m' queue rest 0

module _ (walk : ℕ) (s : Sched) (ready : List ℕ) (p : ℕ) (tp : Task) (pos : p ≢ 0)
    (held : s.tasks p ≡ some tp) (chain : Seg s.tasks s.ready_queue ready 0) where
  abbrev Leaves : List ℕ → List ℕ → Type 0
  Leaves xs ys =
      Seg s.tasks s.sleep_queue xs p
      → Seg s.tasks tp.next ys 0
      → ((x : ℕ) → count x ready + count x xs + count x (p ∷ []) + count x ys ≤ 1)
      → length xs ≤ walk
      → (m' : Tasks) × (q : ℕ) × (leave_sleep_queue walk p tp.next s
          ≡ ok (record s { tasks = m'; sleep_queue = q }))
        × OffQueue s.tasks m' s.ready_queue q ready p tp (xs ++ ys)

  leave_first : (ys : List ℕ) → Leaves [] ys
  unfolding leave_sleep_queue
  leave_first ys front back counts fuel = (
    s.tasks,
    tp.next,
    rw (eq→== p s.sleep_queue (sym front)),
    record { held = held; same = λ x. refl; ready_chain = chain; sleep_chain = back },
  )

  leave_later : (xs : List ℕ) (y : ℕ) (ys : List ℕ) → Leaves (xs ++ (y ∷ [])) ys
  unfolding leave_sleep_queue
  leave_later xs y ys front back apart fuel =
      let counts : (x : ℕ)
          → count x ready + count x xs + count x (y ∷ []) + count x (p ∷ []) + count x ys ≤ 1 =
        λ x. omega (arith, apart x, count-append x xs (y ∷ [])) in
      let p_out : count p (xs ++ (y ∷ [])) ≡ 0 = omega (arith, apart p, count_head p []) in
      let y_out : (count y ready ≡ 0)
          × (count y xs ≡ 0)
          × (count y ys ≡ 0)
          × (count y (p ∷ []) ≡ 0) =
        omega (arith, counts y, count_head y []) in
      let (front', y_pos, ty, held_y, link) = Seg-at s.tasks s.sleep_queue xs y [] p front in
      let linked = record ty { next = tp.next } in
      let other : p ≢ y = λ same.
        absurd (omega (arith, y_out.3, ap (λ (k : ℕ). count y (k ∷ [])) same, count_head y [])) in
      (
        store s.tasks y linked,
        s.sleep_queue,
        rw (
          ne→== p s.sleep_queue
              (λ same. Seg-start_ne s.tasks s.sleep_queue xs y p p front p_out (sym same)),
          task_before-Seg walk s.tasks s.sleep_queue xs y p front p_out
              (omega (arith, fuel, length-append xs (y ∷ []))),
          set_next-ok s.tasks y tp.next ty y_pos held_y,
        ),
        record {
          held = store_ne s.tasks y p linked other ∙ held;
          same = Same-store s.tasks y ty linked held_y refl refl;
          ready_chain = Seg-store s.tasks y linked s.ready_queue ready 0 y_out.0 chain;
          sleep_chain =
              Seg-append (store s.tasks y linked) s.sleep_queue (xs ++ (y ∷ [])) tp.next ys 0
                (Seg-relink s.tasks s.sleep_queue xs y tp.next ty front' y_pos y_out.1)
                (Seg-store s.tasks y linked tp.next ys 0 y_out.2 back);
        },
      )

  pub leave-OffQueue : (xs ys : List ℕ) → Leaves xs ys
  leave-OffQueue xs ys = elim (snoc-cases xs) [
    | inl none ↦ subst (λ (l : List ℕ). Leaves l ys) (sym none) (leave_first ys)
    | inr (xs', y, e) ↦ subst (λ (l : List ℕ). Leaves l ys) (sym e) (leave_later xs' y ys)
  ]

-- A task that is in no queue joins the end of the ready queue.
pub join_ready_queue-Queues :
    (walk : ℕ) (m : Tasks) (s : Sched) (rs : List ℕ) (z p : ℕ) (tp : Task) (sleeping : List ℕ)
    → p ≢ 0
    → OffQueue m s.tasks s.ready_queue s.sleep_queue (rs ++ (z ∷ [])) p tp sleeping
    → ((x : ℕ) → count x rs + count x (z ∷ []) + count x (p ∷ []) + count x sleeping ≤ 1)
    → length rs < walk
    → (m' : Tasks) × (join_ready_queue walk p s ≡ ok (record s { tasks = m' }))
      × Queues (record s { tasks = m' }) ((rs ++ (z ∷ [])) ++ (p ∷ [])) sleeping
      × (m' p ≡ some (record tp { next = 0 }))
      × Same m m'
unfolding join_ready_queue
join_ready_queue-Queues walk m s rs z p tp sleeping pos off counts fuel =
    let (front, z_pos, tz, held_z, end) = Seg-at s.tasks s.ready_queue rs z [] 0 off.ready_chain in
    let linked = record tz { next = p } in
    let m1 : Tasks = store s.tasks z linked in
    let last = record tp { next = 0 } in
    let z_out : (count z rs ≡ 0) × (count z (p ∷ []) ≡ 0) × (count z sleeping ≡ 0) =
      omega (arith, counts z, count_head z []) in
    let p_out : (count p (rs ++ (z ∷ [])) ≡ 0) × (count p sleeping ≡ 0) =
      omega (arith, counts p, count_head p [], count-append p rs (z ∷ [])) in
    let other : p ≢ z = λ same.
      absurd (omega (arith, z_out.1, ap (λ (k : ℕ). count z (k ∷ [])) same, count_head z [])) in
    let held : m1 p ≡ some tp = store_ne s.tasks z p linked other ∙ off.held in
    (
      store m1 p last,
      rw (
        last_task-Seg walk s.tasks s.ready_queue rs z off.ready_chain fuel,
        set_next-ok s.tasks z p tz z_pos held_z,
        set_next-ok m1 p 0 tp pos held,
      ),
      record {
        ready_chain =
            Seg-append (store m1 p last) s.ready_queue (rs ++ (z ∷ [])) p (p ∷ []) 0
              (Seg-store m1 p last s.ready_queue (rs ++ (z ∷ [])) p p_out.0
                (Seg-relink s.tasks s.ready_queue rs z p tz front z_pos z_out.0))
              (refl, pos, last, store_self m1 p last, refl);
        sleep_chain =
            Seg-store m1 p last s.sleep_queue sleeping 0 p_out.1
              (Seg-store s.tasks z linked s.sleep_queue sleeping 0 z_out.2 off.sleep_chain);
        apart = λ x.
            omega (
              arith,
              counts x,
              count-append x (rs ++ (z ∷ [])) (p ∷ []),
              count-append x rs (z ∷ []),
            );
      },
      store_self m1 p last,
      Same-trans m s.tasks (store m1 p last) off.same (
          Same-trans s.tasks m1 (store m1 p last) (Same-store s.tasks z tz linked held_z refl refl)
            (Same-store m1 p tp last held refl refl)),
    )
