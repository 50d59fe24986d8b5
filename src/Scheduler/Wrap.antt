-- ===== src/Scheduler/Wrap.antt =====
-- `sleep` when the wake-up tick wraps round to 0, the mark of a task that does not sleep.
use matanos.Base.{ℕ, ◌+◌, ◌≡◌, refl, List, ◌∷◌, ◌++◌, eq→==, ne→==, ok, u32}
use matanos.Scheduler.{Task, Sched, Regs, jump, store, join_sleep_queue, sleep}
use matanos.Scheduler.Chain.{Seg, load-ok, store_self, Seg-at, Seg-keep}
use matanos.Scheduler.Switch.{Running, not_alone, saved, switched, switch_task_runs, Seg-saved}

-- The running task, not alone in the ready queue, calls `sleep` with a number of ticks after which
-- the tick counter is 0, while no task sleeps. `sleep` returns, and the running task becomes the
-- sleep queue, but it does not leave the ready queue: from this task on both queues are the same.
pub sleep-wrapped :
    (walk epoches : ℕ) (regs : Regs) (s : Sched) (a : List ℕ) (tc : Task) (b : List ℕ)
    → Running s regs a tc b
    → u32 (s.tick + epoches) ≡ 0
    → s.sleep_queue ≡ 0
    → (s' : Sched) × (tn : Task) × (sleep walk epoches regs s
        ≡ ok (s', jump tn.eip tn.esp tn.ebp tn.page_directory))
      × Seg s'.tasks s'.ready_queue (a ++ (s.current_task ∷ b)) 0
      × Seg s'.tasks s'.sleep_queue (s.current_task ∷ b) 0
unfolding sleep join_sleep_queue
sleep-wrapped walk epoches regs s a tc b run wraps idle =
    let (front, pos, t, held_t, back) =
      Seg-at s.tasks s.ready_queue a s.current_task b 0 run.chain in
    let resting : Task = record tc { end_of_sleep = u32 (s.tick + epoches) } in
    let m = store s.tasks s.current_task resting in
    let both : Sched = record s { tasks = m; sleep_queue = s.current_task } in
    let running : Running both regs a resting b = record {
      held = store_self s.tasks s.current_task resting;
      chain =
          Seg-keep s.tasks s.current_task tc resting s.ready_queue (a ++ (s.current_task ∷ b)) 0
            run.held refl run.chain;
      apart = run.apart;
      company = run.company;
      first_return = run.first_return;
    } in
    let (tn, held, switches) = switch_task_runs walk both regs a resting b running wraps in
    let final = store m s.current_task (saved resting regs) in
    let ready =
      Seg-saved walk both regs a resting b running s.ready_queue (a ++ (s.current_task ∷ b)) 0
        running.chain in
    let (front', pos', t', held', back') = Seg-at final s.ready_queue a s.current_task b 0 ready in
    (
      switched walk both regs a resting b running final s.ready_queue tn,
      tn,
      rw (
        ne→== s.current_task 0 pos,
        not_alone walk s regs a tc b run,
        load-ok s.tasks s.current_task tc pos run.held,
        eq→== s.sleep_queue 0 idle,
        switches,
      ),
      ready,
      (refl, pos, t', held', back'),
    )
