-- ===== src/Scheduler/Fork.antt =====
-- `fork`: the new task, its place in the ready queue, and the two returns.
use matanos.Base.{
  ℕ, ◌+◌, ◌≤◌, ◌<◌, ◌≡◌, refl, sym, ap, ◌∙◌, ◌≢◌, List, [], ◌∷◌, ◌++◌, arith, eq→==, ne→==, ok,
  length, some, u32,
}
use matanos.Scheduler.{Task, Tasks, Sched, Regs, store, fork_child, fork_return, initialise_tasking}
use matanos.Scheduler.Chain.{
  count, count-append, count_head, load-ok, set_next-ok, store_self, store_ne, Seg-at, Seg-append,
  Seg-store, Seg-relink, apart-snoc,
}
use matanos.Scheduler.Facts.{SameBut, Same-store, SameBut-store}
use matanos.Scheduler.Walk.{last_task-Seg}
use matanos.Scheduler.Leave.{Queues}

-- The task that `fork` creates.
abbrev pub new_task : ℕ → ℕ → ℕ → Task
new_task pid directory stack = record {
  id = pid;
  esp = 0;
  ebp = 0;
  eip = 0;
  page_directory = directory;
  kernel_stack = stack;
  end_of_sleep = 0;
  next = 0;
}

-- The first task, at an address other than NULL, with no sleepers: both queues are well formed, and
-- it is alone in the ready queue.
pub initialise_tasking-Queues :
    (fresh stack : ℕ) (s : Sched)
    → fresh ≢ 0
    → s.sleep_queue ≡ 0
    → Queues (initialise_tasking fresh stack s) (fresh ∷ []) []
unfolding initialise_tasking
initialise_tasking-Queues fresh stack s pos idle =
    let first = new_task s.next_pid s.current_directory stack in
    record {
      ready_chain = (refl, pos, first, store_self s.tasks fresh first, refl);
      sleep_chain = idle;
      apart = λ x. ground arith;
    }

module _ (walk fresh directory stack : ℕ) (s : Sched) (xs : List ℕ) (z : ℕ) (sleeping : List ℕ)
    (queues : Queues s (xs ++ (z ∷ [])) sleeping) (fresh_pos : fresh ≢ 0)
    (fresh_out : count fresh (xs ++ (z ∷ [])) + count fresh sleeping ≡ 0)
    (fuel : length xs < walk) where
  -- `fork` puts the new task, with the next process number, at the end of the ready queue; the
  -- queues stay well formed, the running task goes on, and the other tasks keep their process
  -- numbers and wake-up ticks.
  pub fork_child-Queues :
      (s' : Sched) × (fork_child walk fresh directory stack s ≡ ok s')
      × Queues s' ((xs ++ (z ∷ [])) ++ (fresh ∷ [])) sleeping
      × (s'.tasks fresh ≡ some (new_task s.next_pid directory stack))
      × (s'.next_pid ≡ u32 (s.next_pid + 1))
      × (s'.current_task ≡ s.current_task)
      × SameBut fresh s.tasks s'.tasks
  unfolding fork_child
  fork_child-Queues =
      let child = new_task s.next_pid directory stack in
      let m : Tasks = store s.tasks fresh child in
      let outside : (count fresh (xs ++ (z ∷ [])) ≡ 0) × (count fresh sleeping ≡ 0) =
        omega (arith, fresh_out) in
      let chain =
        Seg-store s.tasks fresh child s.ready_queue (xs ++ (z ∷ [])) 0 outside.0
          queues.ready_chain in
      let (front, z_pos, tz, held_z, end) = Seg-at m s.ready_queue xs z [] 0 chain in
      let linked = record tz { next = fresh } in
      let counts : (x : ℕ) → count x xs + count x (z ∷ []) + count x sleeping ≤ 1 =
        λ x. omega (arith, queues.apart x, count-append x xs (z ∷ [])) in
      let other : fresh ≢ z = λ same. absurd (
        omega (
          arith,
          outside.0,
          count-append z xs (z ∷ []),
          count_head z [],
          ap (λ (k : ℕ). count k (xs ++ (z ∷ []))) same,
        )) in
      let z_out : (count z xs ≡ 0) × (count z sleeping ≡ 0) =
        omega (arith, counts z, count_head z []) in
      let held : store m z linked fresh ≡ some child =
        store_ne m z fresh linked other ∙ store_self s.tasks fresh child in
      (
        record s { tasks = store m z linked; next_pid = u32 (s.next_pid + 1) },
        rw (
          last_task-Seg walk m s.ready_queue xs z chain fuel,
          set_next-ok m z fresh tz z_pos held_z,
        ),
        record {
          ready_chain =
              Seg-append (store m z linked) s.ready_queue (xs ++ (z ∷ [])) fresh (fresh ∷ []) 0
                (Seg-relink m s.ready_queue xs z fresh tz front z_pos z_out.0)
                (refl, fresh_pos, child, held, refl);
          sleep_chain =
              Seg-store m z linked s.sleep_queue sleeping 0 z_out.1 (
                Seg-store s.tasks fresh child s.sleep_queue sleeping 0 outside.1
                  queues.sleep_chain);
          apart = λ x. apart-snoc x fresh (xs ++ (z ∷ [])) sleeping fresh_out (queues.apart x);
        },
        held,
        refl,
        refl,
        λ x ne.
            Same-store m z tz linked held_z refl refl x ∙ SameBut-store s.tasks fresh child x ne,
      )

-- Behind `read_eip()` the parent gives the child its registers and returns the child's process
-- number; when the child runs from there, `fork` returns 0 and changes nothing.
fork_return_lem :
    (parent fresh : ℕ) (regs : Regs) (s : Sched) (child : Task)
    → fresh ≢ 0
    → fresh ≢ parent
    → s.tasks fresh ≡ some child
    → (s.current_task ≡ parent
        → (tasks : Tasks) × (fork_return parent fresh regs s
            ≡ ok (record s { tasks = tasks }, child.id))
          × (tasks fresh ≡ some (record child { esp = regs.esp; ebp = regs.ebp; eip = regs.eip }))
          × ((x : ℕ) → x ≢ fresh → tasks x ≡ s.tasks x))
      × (s.current_task ≡ fresh → fork_return parent fresh regs s ≡ ok (s, 0))
unfolding fork_return
fork_return_lem parent fresh regs s child pos other held = (
  λ in_parent. (
    store s.tasks fresh (record child { esp = regs.esp; ebp = regs.ebp; eip = regs.eip }),
    rw (eq→== s.current_task parent in_parent, load-ok s.tasks fresh child pos held),
    store_self s.tasks fresh (record child { esp = regs.esp; ebp = regs.ebp; eip = regs.eip }),
    λ x ne.
        store_ne s.tasks fresh x (record child { esp = regs.esp; ebp = regs.ebp; eip = regs.eip })
          ne,
  ),
  λ in_child. rw (ne→== s.current_task parent (λ same. other (sym in_child ∙ same))),
)
