-- ===== src/Scheduler/Sleep.antt =====
-- `sleep`: the running task moves from the ready queue to the end of the sleep queue.
use matanos.Base.{
  ℕ, ◌+◌, ◌≤◌, ◌<◌, ◌≡◌, refl, sym, ap, ◌∙◌, ◌≢◌, inl, inr, List, [], ◌∷◌, ◌++◌, arith, eq→==,
  ne→==, ok, length, length-append, some, u32, snoc-cases,
}
use mathlib.Core.Path.{subst}
use matanos.Scheduler.{Task, Tasks, Sched, Regs, jump, store, join_sleep_queue, sleep}
use matanos.Scheduler.Chain.{
  Seg, count, count-append, count_head, load-ok, set_next-ok, store_self, store_ne, Seg-same,
  Seg-at, Seg-keep, Seg-relink, Seg-append, Seg-store, Seg-start_pos,
}
use matanos.Scheduler.Facts.{Same, SameBut, Same-store, SameBut-store}
use matanos.Scheduler.Walk.{last_task-Seg}
use matanos.Scheduler.Leave.{Queues}
use matanos.Scheduler.Switch.{
  Running, next_of, switch_task_asleep, switched, next_of-member, not_alone,
}

-- What putting the running task behind the sleep queue leads to: it is then the end of both
-- queues' memory, and `tasks` still holds the ready queue.
record Joined (s : Sched) (ready sleeping : List ℕ) (tc : Task) (tasks : Tasks) (queue : ℕ)
    : Type 0 where
  held : tasks s.current_task ≡ some tc
  ready_chain : Seg tasks s.ready_queue ready 0
  sleep_chain : Seg tasks queue sleeping s.current_task
  same : Same s.tasks tasks
  kept : (x : ℕ) → 0 < count x ready → tasks x ≡ s.tasks x

module _ (walk : ℕ) (s : Sched) (ready : List ℕ) (tc : Task)
    (held : s.tasks s.current_task ≡ some tc) (chain : Seg s.tasks s.ready_queue ready 0)
    (member : count s.current_task ready ≡ 1) where
  abbrev Joins : List ℕ → Type 0
  Joins sleeping =
      Seg s.tasks s.sleep_queue sleeping 0
      → ((x : ℕ) → count x ready + count x sleeping ≤ 1)
      → length sleeping ≤ walk
      → (tasks : Tasks) × (queue : ℕ) × (join_sleep_queue walk s
          ≡ ok (record s { tasks = tasks; sleep_queue = queue }))
        × Joined s ready sleeping tc tasks queue

  join_first : Joins []
  unfolding join_sleep_queue
  join_first none apart fuel = (
    s.tasks,
    s.current_task,
    rw (eq→== s.sleep_queue 0 none),
    record {
      held = held;
      ready_chain = chain;
      sleep_chain = refl;
      same = λ x. refl;
      kept = λ x h. refl;
    },
  )

  join_later : (xs : List ℕ) (z : ℕ) → Joins (xs ++ (z ∷ []))
  unfolding join_sleep_queue
  join_later xs z asleep apart fuel =
      let (front, z_pos, tz, held_z, end) = Seg-at s.tasks s.sleep_queue xs z [] 0 asleep in
      let counts : (x : ℕ) → count x ready + count x xs + count x (z ∷ []) ≤ 1 =
        λ x. omega (arith, apart x, count-append x xs (z ∷ [])) in
      let other : s.current_task ≢ z = λ same.
        absurd
          (omega (arith, counts z, ap (λ (k : ℕ). count k ready) same, member, count_head z [])) in
      let z_out : (count z ready ≡ 0) × (count z xs ≡ 0) =
        omega (arith, counts z, count_head z []) in
      let linked = record tz { next = s.current_task } in
      (
        store s.tasks z linked,
        s.sleep_queue,
        rw (
          ne→== s.sleep_queue 0 (Seg-start_pos s.tasks s.sleep_queue xs z 0 asleep),
          last_task-Seg walk s.tasks s.sleep_queue xs z asleep
              (omega (arith, fuel, length-append xs (z ∷ []))),
          set_next-ok s.tasks z s.current_task tz z_pos held_z,
        ),
        record {
          held = store_ne s.tasks z s.current_task linked other ∙ held;
          ready_chain = Seg-store s.tasks z linked s.ready_queue ready 0 z_out.0 chain;
          sleep_chain = Seg-relink s.tasks s.sleep_queue xs z s.current_task tz front z_pos z_out.1;
          same = Same-store s.tasks z tz linked held_z refl refl;
          kept = λ x h.
              store_ne s.tasks z x linked
                (λ same. absurd (omega (arith, h, z_out.0, ap (λ (k : ℕ). count k ready) same)));
        },
      )

  join-Joined : (sleeping : List ℕ) → Joins sleeping
  join-Joined sleeping = elim (snoc-cases sleeping) [
    | inl none ↦ subst (λ (l : List ℕ). Joins l) (sym none) join_first
    | inr (xs, z, e) ↦ subst (λ (l : List ℕ). Joins l) (sym e) (join_later xs z)
  ]

module _ (walk epoches : ℕ) (regs : Regs) (s : Sched) (a : List ℕ) (tc : Task) (b sleeping : List ℕ)
    (run : Running s regs a tc b) (queues : Queues s (a ++ (s.current_task ∷ b)) sleeping)
    (nonzero : u32 (s.tick + epoches) ≢ 0) (fuel : length a + length sleeping < walk) where
  abbrev resting : Task
  resting = record tc { end_of_sleep = u32 (s.tick + epoches) }

  abbrev marked : Sched
  marked = record s { tasks = store s.tasks s.current_task resting }

  current_pos : s.current_task ≢ 0
  current_pos = (Seg-at s.tasks s.ready_queue a s.current_task b 0 run.chain).1

  Seg-marked : (p : ℕ) (xs : List ℕ) (q : ℕ) → Seg s.tasks p xs q → Seg marked.tasks p xs q
  Seg-marked p xs q = Seg-keep s.tasks s.current_task tc resting p xs q run.held refl

  once : count s.current_task (a ++ (s.current_task ∷ b)) ≡ 1
  once = omega (
    arith,
    run.apart s.current_task,
    count-append s.current_task a (s.current_task ∷ b),
    count_head s.current_task b,
  )

  -- The running task, not alone in the ready queue, goes to sleep. `read_eip` does not give
  -- 0x12345, the wake-up tick `tick + epoches` does not come out as 0 on 32-bit words, and the
  -- rounds of a walk are enough for both queues. The task leaves the ready queue, it stands last in
  -- the sleep queue with its wake-up tick, its registers are saved, and the next task of the ready
  -- queue runs; both queues stay well formed and keep their order, and the process numbers and
  -- wake-up ticks of the other tasks, the tick and the next number stay.
  pub sleep_lem :
      (s' : Sched) × (tn : Task) × (s.tasks (next_of a b) ≡ some tn)
      × (sleep walk epoches regs s ≡ ok (s', jump tn.eip tn.esp tn.ebp tn.page_directory))
      × Queues s' (a ++ b) (sleeping ++ (s.current_task ∷ []))
      × (s'.current_task ≡ next_of a b)
      × (s'.tasks s.current_task
          ≡ some (record tc {
            eip = regs.eip;
            esp = regs.esp;
            ebp = regs.ebp;
            end_of_sleep = u32 (s.tick + epoches);
            next = 0;
          }))
      × SameBut s.current_task s.tasks s'.tasks
      × (s'.tick ≡ s.tick)
      × (s'.next_pid ≡ s.next_pid)
  unfolding sleep
  sleep_lem =
      let (tasks, queue, joins, joined) =
        join-Joined walk marked (a ++ (s.current_task ∷ b)) resting
          (store_self s.tasks s.current_task resting)
          (Seg-marked s.ready_queue (a ++ (s.current_task ∷ b)) 0 run.chain) once sleeping
          (Seg-marked s.sleep_queue sleeping 0 queues.sleep_chain) queues.apart (omega arith) in
      let both : Sched = record s { tasks = tasks; sleep_queue = queue } in
      let running : Running both regs a resting b = record {
        held = joined.held;
        chain = joined.ready_chain;
        apart = run.apart;
        company = run.company;
        first_return = run.first_return;
      } in
      let (tn, final, ready, held_n, switches, chain, gone, others, same) =
        switch_task_asleep walk both regs a resting b running nonzero (omega arith) in
      (
        switched walk both regs a resting b running final ready tn,
        tn,
        sym (
              store_ne s.tasks s.current_task (next_of a b) resting
                (next_of-member walk s regs a tc b run).0)
            ∙ sym (joined.kept (next_of a b) (next_of-member walk s regs a tc b run).1)
            ∙ held_n,
        rw (
          ne→== s.current_task 0 current_pos,
          not_alone walk s regs a tc b run,
          load-ok s.tasks s.current_task tc current_pos run.held,
          joins,
          switches,
        ),
        record {
          ready_chain = chain;
          sleep_chain =
              Seg-append final queue sleeping s.current_task (s.current_task ∷ []) 0
                (Seg-same tasks final queue sleeping s.current_task
                  (λ x h. others x (
                    omega (
                      arith,
                      h,
                      queues.apart x,
                      count-append x a (s.current_task ∷ []),
                      count-append x a (s.current_task ∷ b),
                      count-append x (s.current_task ∷ []) b,
                    )))
                  joined.sleep_chain)
                (
                  refl,
                  current_pos,
                  record resting { eip = regs.eip; esp = regs.esp; ebp = regs.ebp; next = 0 },
                  gone,
                  refl,
                );
          apart = λ x. omega (
            arith,
            queues.apart x,
            count-append x a b,
            count-append x a (s.current_task ∷ b),
            count-append x (s.current_task ∷ []) b,
            count-append x sleeping (s.current_task ∷ []),
          );
        },
        refl,
        gone,
        λ x ne. same x ∙ joined.same x ∙ SameBut-store s.tasks s.current_task resting x ne,
        refl,
        refl,
      )
