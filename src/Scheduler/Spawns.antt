-- ===== src/Scheduler/Spawns.antt =====
-- `initialise_tasking` and `fork` on valid states.
use matanos.Base.{
  ℕ, suc, ◌+◌, ◌^◌, ◌<◌, ◌≤◌, ◌≡◌, refl, sym, ap, ◌∙◌, ◌≢◌, ◌⊎◌, inl, inr, none, some, List, [],
  ◌∷◌, ◌++◌, arith, ==→eq, ==→ne, Bool-cases, ◌==◌, ok, length-append, u32, snoc-cases,
}
use mathlib.Core.Path.{subst}
use matanos.Scheduler.{Task, Tasks, Sched, Regs, initialise_tasking, fork_child, fork_return, store}
use matanos.Scheduler.Chain.{
  Seg, count, count-append, count_head, count-single_ne, load-ok, store_self, Seg-keep,
}
use matanos.Scheduler.Facts.{SameBut, Same-store, facts}
use matanos.Scheduler.Fork.{fork_child-Queues, initialise_tasking-Queues, new_task}
use matanos.Scheduler.Leave.{Queues}
use matanos.Scheduler.Valid.{IsValid, number, wake_up, Same-IsValid}

-- A pointer at which there is no task yet stands in no queue.
Seg-fresh :
    (m : Tasks) (p : ℕ) (xs : List ℕ) (q fresh : ℕ)
    → Seg m p xs q
    → m fresh ≡ none
    → count fresh xs ≡ 0
Seg-fresh m p [] q fresh chain free = refl
Seg-fresh m p (x ∷ xs) q fresh (e, pos, t, held, rest) free =
    omega (arith, count-single_ne fresh x other, Seg-fresh m t.next xs q fresh rest free)
  where
    other : fresh ≢ x
    other same = let both : none ≡ some t = sym free ∙ ap (λ y. m y) same ∙ held in cc

-- The only member of a queue of one task.
single : (x y : ℕ) → 0 < count x (y ∷ []) → x ≡ y
single x y among = elim (Bool-cases (x == y)) [
  | inl e ↦ ==→eq x y e
  | inr n ↦ absurd (omega (arith, among, count-single_ne x y (==→ne x y n)))
]

pub initialise_tasking-IsValid :
    (fresh stack : ℕ) (s : Sched)
    → fresh ≢ 0
    → s.sleep_queue ≡ 0
    → s.next_pid ≡ 1
    → IsValid 0 (initialise_tasking fresh stack s) (fresh ∷ []) []
unfolding initialise_tasking
initialise_tasking-IsValid fresh stack s pos idle one = record {
  queues = initialise_tasking-Queues fresh stack s pos idle;
  running = omega (arith, count_head fresh []);
  awake = λ x i k among e. ap (λ o. wake_up o) (sym e ∙ at x among);
  asleep = λ x i k among. absurd (omega arith);
  numbered = record {
    below = λ x i among e.
        let both : some s.next_pid ≡ some i =
          sym (ap (λ o. number o) (at x (omega (arith, among)))) ∙ e in
        let same : s.next_pid ≡ i = cc in omega (arith, one, same);
    distinct = λ x y i in_x in_y e f.
        single x fresh (omega (arith, in_x)) ∙ sym (single y fresh (omega (arith, in_y)));
  };
  total = omega arith;
  pids = omega (arith, one);
}
  where
    at :
        (x : ℕ)
        → 0 < count x (fresh ∷ [])
        → facts (store s.tasks fresh (new_task s.next_pid s.current_directory stack) x)
          ≡ some (s.next_pid, 0)
    at x among =
        ap (λ y. facts (store s.tasks fresh (new_task s.next_pid s.current_directory stack) y))
          (single x fresh among)
        ∙ ap (λ o. facts o)
            (store_self s.tasks fresh (new_task s.next_pid s.current_directory stack))

module _ (walk fresh directory stack n : ℕ) (s : Sched) (pos : fresh ≢ 0)
    (free : s.tasks fresh ≡ none) (room : n + 3 < 2 ^ 32) (fuel : n + 3 ≤ walk) where
  spawned-IsValid :
      (s' : Sched) (ready sleeping : List ℕ)
      → IsValid n s ready sleeping
      → Queues s' (ready ++ (fresh ∷ [])) sleeping
      → s'.tasks fresh ≡ some (new_task s.next_pid directory stack)
      → s'.next_pid ≡ u32 (s.next_pid + 1)
      → s'.current_task ≡ s.current_task
      → SameBut fresh s.tasks s'.tasks
      → IsValid (suc n) s' (ready ++ (fresh ∷ [])) sleeping
  spawned-IsValid s' ready sleeping valid queues held pid task same = record {
    queues = queues;
    running =
        subst (λ c. 0 < count c (ready ++ (fresh ∷ []))) (sym task)
          (omega (arith, valid.running, count-append s.current_task ready (fresh ∷ [])));
    awake = λ x i k among e. elim (Bool-cases (x == fresh)) [
      | inl is ↦ ap (λ o. wake_up o) (sym e ∙ at x (==→eq x fresh is))
      | inr n ↦
          let ne = ==→ne x fresh n in
          valid.awake x i k
            (omega (arith, among, count-append x ready (fresh ∷ []), count-single_ne x fresh ne))
            (sym (same x ne) ∙ e)
    ];
    asleep = λ x i k among e. valid.asleep x i k among (sym (same x (awake_ne x among)) ∙ e);
    numbered = record {
      below = λ x i among e. elim (newest x i among e) [
        | inl (is, i_eq) ↦ omega (arith, next, i_eq)
        | inr (member, old) ↦ omega (arith, next, valid.numbered.below x i member old)
      ];
      distinct = λ x y i in_x in_y e f. elim (newest x i in_x e) [
        | inl (is, i_eq) ↦ elim (newest y i in_y f) [
          | inl (is', _) ↦ is ∙ sym is'
          | inr (member, old) ↦ absurd (omega (arith, i_eq, valid.numbered.below y i member old))
        ]
        | inr (member, old) ↦ elim (newest y i in_y f) [
          | inl (_, i_eq) ↦ absurd (omega (arith, i_eq, valid.numbered.below x i member old))
          | inr (member', old') ↦ valid.numbered.distinct x y i member member' old old'
        ]
      ];
    };
    total = omega (arith, valid.total, length-append ready (fresh ∷ []));
    pids = next ∙ (omega (arith, valid.pids));
  }
    where
      at : (x : ℕ) → x ≡ fresh → facts (s'.tasks x) ≡ some (s.next_pid, 0)
      at x is = ap (λ y. facts (s'.tasks y)) is ∙ ap (λ o. facts o) held

      next : s'.next_pid ≡ s.next_pid + 1
      next = omega (arith, pid, room, valid.pids)

      newest :
          (x i : ℕ)
          → 0 < count x (ready ++ (fresh ∷ [])) + count x sleeping
          → number (facts (s'.tasks x)) ≡ some i
          → ((x ≡ fresh) × (i ≡ s.next_pid))
            ⊎ ((0 < count x ready + count x sleeping) × (number (facts (s.tasks x)) ≡ some i))
      newest x i among e = elim (Bool-cases (x == fresh)) [
        | inl is ↦
            let both : some s.next_pid ≡ some i =
              sym (ap (λ o. number o) (at x (==→eq x fresh is))) ∙ e in
            let same_i : i ≡ s.next_pid = cc in inl (==→eq x fresh is, same_i)
        | inr n ↦
            let ne = ==→ne x fresh n in
            inr (
              omega (arith, among, count-append x ready (fresh ∷ []), count-single_ne x fresh ne),
              sym (ap (λ o. number o) (same x ne)) ∙ e,
            )
      ]

      awake_ne : (x : ℕ) → 0 < count x sleeping → x ≢ fresh
      awake_ne x among is = absurd (
          omega (
            arith,
            Seg-fresh s.tasks s.sleep_queue sleeping 0 fresh valid.queues.sleep_chain free,
            among,
            ap (λ y. count y sleeping) is,
          ))

  abbrev Spawns : List ℕ → List ℕ → Type 0
  Spawns ready sleeping =
      IsValid n s ready sleeping
      → (s' : Sched) × (fork_child walk fresh directory stack s ≡ ok s')
        × IsValid (suc n) s' (ready ++ (fresh ∷ [])) sleeping

  spawn_behind : (xs : List ℕ) (z : ℕ) (sleeping : List ℕ) → Spawns (xs ++ (z ∷ [])) sleeping
  spawn_behind xs z sleeping valid =
      let outside : count fresh (xs ++ (z ∷ [])) + count fresh sleeping ≡ 0 = omega (
        arith,
        Seg-fresh s.tasks s.ready_queue (xs ++ (z ∷ [])) 0 fresh valid.queues.ready_chain free,
        Seg-fresh s.tasks s.sleep_queue sleeping 0 fresh valid.queues.sleep_chain free,
      ) in
      let (s', runs, queues, held, pid, task, same) =
        fork_child-Queues walk fresh directory stack s xs z sleeping valid.queues pos outside
          (omega (arith, fuel, valid.total, length-append xs (z ∷ []))) in
      (s', runs, spawned-IsValid s' (xs ++ (z ∷ [])) sleeping valid queues held pid task same)

  -- On a valid state with `n + 1` tasks the first part of `fork` returns, and leaves a valid state
  -- with one task more.
  pub fork_child-IsValid : (ready sleeping : List ℕ) → Spawns ready sleeping
  fork_child-IsValid ready sleeping valid = elim (snoc-cases ready) [
    | inl empty ↦ absurd (omega (arith, valid.running, ap (λ l. count s.current_task l) empty))
    | inr (xs, z, e) ↦ subst (λ l. Spawns l sleeping) (sym e) (spawn_behind xs z sleeping) valid
  ]

-- Behind `read_eip()` `fork` returns, in the parent and in the child, and leaves a valid state.
pub fork_return-IsValid :
    (parent fresh : ℕ) (regs : Regs) (n : ℕ) (s : Sched) (ready sleeping : List ℕ) (child : Task)
    → fresh ≢ 0
    → s.tasks fresh ≡ some child
    → IsValid n s ready sleeping
    → (s' : Sched) × (r : ℕ) × (fork_return parent fresh regs s ≡ ok (s', r))
      × IsValid n s' ready sleeping
unfolding fork_return
fork_return-IsValid parent fresh regs n s ready sleeping child pos held valid =
    elim (Bool-cases (s.current_task == parent)) [
      | inl in_parent ↦
          let set_up : Task = record child { esp = regs.esp; ebp = regs.ebp; eip = regs.eip } in
          let s' : Sched = record s { tasks = store s.tasks fresh set_up } in
          (
            s',
            child.id,
            rw (in_parent, load-ok s.tasks fresh child pos held),
            Same-IsValid n s s' ready sleeping valid
                (record {
                  ready_chain =
                      Seg-keep s.tasks fresh child set_up s.ready_queue ready 0 held refl
                        valid.queues.ready_chain;
                  sleep_chain =
                      Seg-keep s.tasks fresh child set_up s.sleep_queue sleeping 0 held refl
                        valid.queues.sleep_chain;
                  apart = valid.queues.apart;
                })
                (Same-store s.tasks fresh child set_up held refl refl) valid.running refl,
          )
      | inr in_child ↦ (s, 0, rw in_child, valid)
    ]
