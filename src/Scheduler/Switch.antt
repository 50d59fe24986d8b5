-- ===== src/Scheduler/Switch.antt =====
-- `switch_task`: round robin over the ready queue, and the way of a sleeping task out of it.
use matanos.Base.{
  ℕ, ◌+◌, ◌≤◌, ◌<◌, ◌≡◌, refl, sym, ap, ◌∙◌, ◌≢◌, ◌⊎◌, inl, inr, List, [], ◌∷◌, ◌++◌, arith, ◌==◌,
  eq→==, ne→==, ==→eq, Bool-cases, if◌then◌else◌, false, ok, length, some, u32, ◌>>=◌,
}
use matanos.Scheduler.{
  Task, Tasks, Sched, Regs, stay, jump, load, store, switch_away, switch_task, kernel_stack_size,
}
use matanos.Scheduler.Chain.{
  Seg, count, count-append, count_head, load-ok, store_self, store_ne, head_or, Seg-at, Seg-keep,
}
use matanos.Scheduler.Facts.{Same, Same-store, Same-trans}
use matanos.Scheduler.Leave.{Queues, leave-Left, behind}

-- With no task yet, `switch_task` returns and changes nothing.
pub switch_task_none :
    (walk : ℕ) (regs : Regs) (s : Sched)
    → s.current_task ≡ 0
    → switch_task walk regs s ≡ ok (s, stay)
unfolding switch_task
switch_task_none walk regs s h = rw (eq→== s.current_task 0 h)

-- The task that runs after the one between `a` and `b`: the first of `b`, or of the whole queue.
abbrev pub next_of : List ℕ → List ℕ → ℕ
next_of a b = head_or b (head_or a 0)

-- The registers that the running task is left with.
abbrev pub saved : Task → Regs → Task
saved t regs = record t { eip = regs.eip; esp = regs.esp; ebp = regs.ebp }

-- What `switch_task` needs to know: the running task stands in the ready queue between `a` and `b`,
-- not alone, and `read_eip` does not give 0x12345, the mark of a task that resumes.
pub record Running (s : Sched) (regs : Regs) (a : List ℕ) (tc : Task) (b : List ℕ) : Type 0 where
  pub held : s.tasks s.current_task ≡ some tc
  pub chain : Seg s.tasks s.ready_queue (a ++ (s.current_task ∷ b)) 0
  pub apart : (x : ℕ) → count x (a ++ (s.current_task ∷ b)) ≤ 1
  pub company : 0 < length a + length b
  pub first_return : regs.eip ≢ 0x12345

-- The task that `switch_task` chooses.
record Chosen (s : Sched) (a : List ℕ) (c : ℕ) (tc : Task) (b : List ℕ) (n : ℕ) : Type 0 where
  tn : Task
  test : (if tc.next == 0 then s.ready_queue else tc.next) ≡ n
  n_ne_c : n ≢ c
  n_pos : n ≢ 0
  held : s.tasks n ≡ some tn
  member : 0 < count n a + count n b
  not_alone : (s.ready_queue ≢ c) ⊎ (tc.next ≢ 0)

chosen :
    (s : Sched) (a : List ℕ) (c : ℕ) (tc : Task) (b : List ℕ)
    → Seg s.tasks s.ready_queue a c
    → Seg s.tasks tc.next b 0
    → ((x : ℕ) → count x a + count x (c ∷ []) + count x b ≤ 1)
    → 0 < length a + length b
    → Chosen s a c tc b (next_of a b)
chosen s a c tc (y ∷ b) front (e, pos, tn, held, rest) apart some_other = record {
  tn = tn;
  test = rw (ne→== tc.next 0 (λ none. pos (sym e ∙ none))) e;
  n_ne_c = λ same. absurd (
      omega
        (arith, apart c, count_head c [], count_head c b, ap (λ (k : ℕ). count c (k ∷ b)) same));
  n_pos = pos;
  held = held;
  member = omega (arith, count_head y b);
  not_alone = inr (λ none. pos (sym e ∙ none));
}
chosen s (x ∷ a) c tc [] (e, pos, tn, held, rest) back apart some_other = record {
  tn = tn;
  test = rw (eq→== tc.next 0 back) e;
  n_ne_c = away;
  n_pos = pos;
  held = held;
  member = omega (arith, count_head x a);
  not_alone = inl (λ same. away (sym e ∙ same));
}
  where
    away : x ≢ c
    away same = absurd (
        omega
          (arith, apart c, count_head c [], count_head c a, ap (λ (k : ℕ). count c (k ∷ a)) same))
chosen s [] c tc [] front back apart some_other = absurd (omega arith)

module _ (walk : ℕ) (s : Sched) (regs : Regs) (a : List ℕ) (tc : Task) (b : List ℕ)
    (run : Running s regs a tc b) where
  c_pos : s.current_task ≢ 0
  c_pos = (Seg-at s.tasks s.ready_queue a s.current_task b 0 run.chain).1

  counts : (x : ℕ) → count x a + count x (s.current_task ∷ []) + count x b ≤ 1
  counts x = omega (
    arith,
    run.apart x,
    count-append x a (s.current_task ∷ b),
    count-append x (s.current_task ∷ []) b,
  )

  choice : Chosen s a s.current_task tc b (next_of a b)
  choice =
      let (front, back) = behind walk s s.current_task tc refl c_pos run.held a b run.chain in
      chosen s a s.current_task tc b front back counts run.company

  pub next_of-member :
      (next_of a b ≢ s.current_task) × (0 < count (next_of a b) (a ++ (s.current_task ∷ b)))
  next_of-member = (
    choice.n_ne_c,
    omega (
      arith,
      choice.member,
      count-append (next_of a b) a (s.current_task ∷ b),
      count-append (next_of a b) (s.current_task ∷ []) b,
    ),
  )

  -- The test for a task that is alone in the ready queue.
  pub not_alone :
      (if s.current_task == s.ready_queue
        then (load s.tasks s.ready_queue >>= λ t. ok (t.next == 0))
        else ok false)
      ≡ ok false
  not_alone = elim (Bool-cases (s.current_task == s.ready_queue)) [
    | inl first ↦
        let there : load s.tasks s.ready_queue ≡ ok tc =
          ap (load s.tasks) (sym (==→eq s.current_task s.ready_queue first))
          ∙ load-ok s.tasks s.current_task tc c_pos run.held in
        let linked : tc.next ≢ 0 =
          ground (arith, choice.not_alone, ==→eq s.current_task s.ready_queue first) in
        rw (first, there, ne→== tc.next 0 linked)
    | inr later ↦ rw later
  ]

  to_switch_away : switch_task walk regs s ≡ switch_away walk regs s
  unfolding switch_task
  to_switch_away =
      rw (ne→== s.current_task 0 c_pos, not_alone, ne→== regs.eip 0x12345 run.first_return)

  -- The state after the switch, with the tasks and the ready queue that it leaves.
  abbrev pub switched : Tasks → ℕ → Task → Sched
  switched tasks ready tn = record s {
    tasks = tasks;
    ready_queue = ready;
    current_task = next_of a b;
    current_directory = tn.page_directory;
    esp0 = u32 (tn.kernel_stack + kernel_stack_size);
  }

  saving : Sched
  saving = record s { tasks = store s.tasks s.current_task (saved tc regs) }

  -- Saving the registers changes no link.
  pub Seg-saved :
      (p : ℕ) (xs : List ℕ) (q : ℕ)
      → Seg s.tasks p xs q
      → Seg (store s.tasks s.current_task (saved tc regs)) p xs q
  Seg-saved p xs q = Seg-keep s.tasks s.current_task tc (saved tc regs) p xs q run.held refl

  pub saved-Same : Same s.tasks (store s.tasks s.current_task (saved tc regs))
  saved-Same = Same-store s.tasks s.current_task tc (saved tc regs) run.held refl refl

  -- What the switch from a task that is not asleep does, whatever the sleep queue is.
  pub switch_task_runs :
      tc.end_of_sleep ≡ 0
      → (tn : Task) × (s.tasks (next_of a b) ≡ some tn)
        × (switch_task walk regs s
            ≡ ok (
              switched (store s.tasks s.current_task (saved tc regs)) s.ready_queue tn,
              jump tn.eip tn.esp tn.ebp tn.page_directory,
            ))
  unfolding switch_away
  switch_task_runs awake = (
    choice.tn,
    choice.held,
    to_switch_away
        ∙ rw (
          load-ok s.tasks s.current_task tc c_pos run.held,
          eq→== tc.end_of_sleep 0 awake,
          choice.test,
          load-ok (store s.tasks s.current_task (saved tc regs)) (next_of a b) choice.tn
              choice.n_pos
              (store_ne s.tasks s.current_task (next_of a b) (saved tc regs) choice.n_ne_c
                ∙ choice.held),
        ),
  )

  -- A running task that is not asleep gives way to the next one of the ready queue and stays in
  -- the queue: its registers are saved, the next task's are loaded with its page directory and
  -- kernel stack, no other task changes, and both queues are as before.
  pub switch_task_awake :
      (sleeping : List ℕ)
      → Queues s (a ++ (s.current_task ∷ b)) sleeping
      → tc.end_of_sleep ≡ 0
      → (tn : Task) × (s.tasks (next_of a b) ≡ some tn)
        × (switch_task walk regs s
            ≡ ok (
              switched (store s.tasks s.current_task (saved tc regs)) s.ready_queue tn,
              jump tn.eip tn.esp tn.ebp tn.page_directory,
            ))
        × Queues
            (switched (store s.tasks s.current_task (saved tc regs)) s.ready_queue tn)
            (a ++ (s.current_task ∷ b))
            sleeping
  switch_task_awake sleeping queues awake =
      let (tn, held, runs) = switch_task_runs awake in
      (
        tn,
        held,
        runs,
        record {
          ready_chain = Seg-saved s.ready_queue (a ++ (s.current_task ∷ b)) 0 run.chain;
          sleep_chain = Seg-saved s.sleep_queue sleeping 0 queues.sleep_chain;
          apart = queues.apart;
        },
      )

  -- A running task that is asleep gives way to the next one and leaves the ready queue, with its
  -- registers saved and no successor; the other tasks of the queue keep their order, and tasks
  -- outside it are not changed. No task's process number or wake-up tick changes.
  pub switch_task_asleep :
      tc.end_of_sleep ≢ 0
      → length a < walk
      → (tn : Task) × (tasks : Tasks) × (ready : ℕ) × (s.tasks (next_of a b) ≡ some tn)
        × (switch_task walk regs s
            ≡ ok (switched tasks ready tn, jump tn.eip tn.esp tn.ebp tn.page_directory))
        × Seg tasks ready (a ++ b) 0
        × (tasks s.current_task
            ≡ some (record tc { eip = regs.eip; esp = regs.esp; ebp = regs.ebp; next = 0 }))
        × ((x : ℕ) → count x (a ++ (s.current_task ∷ [])) ≡ 0 → tasks x ≡ s.tasks x)
        × Same s.tasks tasks
  unfolding switch_away saving
  switch_task_asleep asleep fuel =
      let stored = store_self s.tasks s.current_task (saved tc regs) in
      let (tasks, ready, runs, left) =
        leave-Left walk saving s.current_task (saved tc regs) refl c_pos stored a b
          (Seg-saved s.ready_queue (a ++ (s.current_task ∷ b)) 0 run.chain) run.apart fuel in
      let (k, held_n) = left.links (next_of a b) choice.tn choice.n_ne_c (
        store_ne s.tasks s.current_task (next_of a b) (saved tc regs) choice.n_ne_c
        ∙ choice.held) in
      (
        choice.tn,
        tasks,
        ready,
        choice.held,
        to_switch_away
            ∙ rw (
              load-ok s.tasks s.current_task tc c_pos run.held,
              ne→== tc.end_of_sleep 0 asleep,
              choice.test,
              runs,
              load-ok tasks (next_of a b) (record choice.tn { next = k }) choice.n_pos held_n,
            ),
        left.chain,
        left.gone,
        λ x none.
            left.others x none
            ∙ store_ne s.tasks s.current_task x (saved tc regs) (λ same. absurd (
                omega (
                  arith,
                  none,
                  count-append x a (s.current_task ∷ []),
                  ap (λ (k : ℕ). count k (s.current_task ∷ [])) same,
                  count_head s.current_task [],
                ))),
        Same-trans s.tasks saving.tasks tasks saved-Same left.same,
      )
