-- ===== src/Scheduler.antt =====
-- cpu/task.c and cpu/timer.c: the ready queue, the sleep queue, the switch between tasks, `fork`
-- and `sleep`. Interrupts do not arrive inside these functions.
pub mod Chain
pub mod Walk
pub mod Leave
pub mod Switch
pub mod Rotation
pub mod Fork
pub mod Sleep
pub mod Wrap
pub mod Wake
pub mod Timer
pub mod Facts
pub mod Valid
pub mod Ticks
pub mod Dozes
pub mod Spawns
pub mod Reach
mod Tests
mod ReachTests
use matanos.Base.{
  ℕ, zero, suc, ◌+◌, ◌%◌, ◌^◌, ◌==◌, Bool, true, false, not, ◌&&◌, ◌||◌, Option, none, some,
  if◌then◌else◌, ltb, u32, Run, ok, fault, out_of_fuel, ◌>>=◌, ◌>>◌, expect,
}

-- `task_t`. The pointers are addresses, 0 for NULL.
pub record Task : Type 0 where
  pub id : ℕ
  pub esp : ℕ
  pub ebp : ℕ
  pub eip : ℕ
  pub page_directory : ℕ
  pub kernel_stack : ℕ
  pub end_of_sleep : ℕ
  pub next : ℕ

-- The memory that holds task structures.
abbrev pub Tasks : Type 0
Tasks = ℕ → Option Task

-- The globals of task.c and timer.c, `current_directory` of paging.c, and `esp0` of the task
-- state segment.
pub record Sched : Type 0 where
  pub tasks : Tasks
  pub current_task : ℕ
  pub ready_queue : ℕ
  pub sleep_queue : ℕ
  pub next_pid : ℕ
  pub tick : ℕ
  pub current_directory : ℕ
  pub esp0 : ℕ

-- The registers that the inline assembly reads; `eip` is what `read_eip()` returns.
pub record Regs : Type 0 where
  pub esp : ℕ
  pub ebp : ℕ
  pub eip : ℕ

-- How `switch_task` is left: by returning, or by the jump of the inline assembly.
pub data Transfer : Type 0 where
  stay : Transfer
  jump : (eip esp ebp directory : ℕ) → Transfer

-- `*p` for a task pointer.
unfoldable pub load : Tasks → ℕ → Run Task
load tasks p = if p == 0 then fault else expect (tasks p)

unfoldable pub store : Tasks → ℕ → Task → Tasks
store tasks p t q = if q == p then some t else tasks q

-- `p->next = q`.
unfoldable pub set_next : Tasks → ℕ → ℕ → Run Tasks
set_next tasks p q = do t ← load tasks p; ok (store tasks p (record t { next = q }))

-- `initialise_tasking` behind `move_stack`; `fresh` and `stack` are what kmalloc and kmalloc_a return.
unfoldable pub initialise_tasking : (fresh stack : ℕ) → Sched → Sched
initialise_tasking fresh stack s = record s {
  tasks = store s.tasks fresh (record {
    id = s.next_pid;
    esp = 0;
    ebp = 0;
    eip = 0;
    page_directory = s.current_directory;
    kernel_stack = stack;
    end_of_sleep = 0;
    next = 0;
  });
  current_task = fresh;
  ready_queue = fresh;
  next_pid = u32 (s.next_pid + 1);
}

-- `while (p->next) p = p->next;`.
unfoldable pub last_task : ℕ → Tasks → ℕ → Run ℕ
last_task zero tasks p = out_of_fuel
last_task (suc fuel) tasks p = load tasks p >>= λ t.
    let rest = last_task fuel tasks t.next in if t.next == 0 then ok p else rest

-- `while (p->next != target) p = p->next;`.
unfoldable pub task_before : ℕ → Tasks → (target p : ℕ) → Run ℕ
task_before zero tasks target p = out_of_fuel
task_before (suc fuel) tasks target p = load tasks p >>= λ t.
    let rest = task_before fuel tasks target t.next in if t.next == target then ok p else rest

abbrev pub kernel_stack_size : ℕ
kernel_stack_size = 0x1000

-- `walk` bounds the rounds of every walk through a queue.
module _ (walk : ℕ) where
  -- The part of `switch_task` that takes a sleeping task out of the ready queue.
  unfoldable pub leave_ready_queue : Sched → Run Sched
  leave_ready_queue s = do
    current ← load s.tasks s.current_task
    if s.ready_queue == s.current_task
        then (do
          tasks ← set_next s.tasks s.current_task 0
          ok (record s { tasks = tasks; ready_queue = current.next }))
        else (do
          before ← task_before walk s.tasks s.current_task s.ready_queue
          skipped ← set_next s.tasks before current.next
          tasks ← set_next skipped s.current_task 0
          ok (record s { tasks = tasks }))

  -- `switch_task` behind its early returns.
  unfoldable pub switch_away : Regs → Sched → Run (Sched × Transfer)
  switch_away regs s = do
    current ← load s.tasks s.current_task
    let saved = record current { eip = regs.eip; esp = regs.esp; ebp = regs.ebp }
    let s1 = record s { tasks = store s.tasks s.current_task saved }
    let chosen = if current.next == 0 then s.ready_queue else current.next
    s2 ← if saved.end_of_sleep == 0 then ok s1 else leave_ready_queue s1
    new ← load s2.tasks chosen
    ok (
      record s2 {
        current_task = chosen;
        current_directory = new.page_directory;
        esp0 = u32 (new.kernel_stack + kernel_stack_size);
      },
      jump new.eip new.esp new.ebp new.page_directory,
    )

  -- `switch_task`.
  unfoldable pub switch_task : Regs → Sched → Run (Sched × Transfer)
  switch_task regs s = if s.current_task == 0 then ok (s, stay) else (do
    alone ←
        if s.current_task == s.ready_queue
        then (load s.tasks s.ready_queue >>= λ t. ok (t.next == 0))
        else ok false
    if alone || (regs.eip == 0x12345) then ok (s, stay) else switch_away regs s)

  -- The part of `sleep` that puts the running task at the end of the sleep queue.
  unfoldable pub join_sleep_queue : Sched → Run Sched
  join_sleep_queue s =
      if s.sleep_queue == 0 then ok (record s { sleep_queue = s.current_task }) else (do
        last ← last_task walk s.tasks s.sleep_queue
        tasks ← set_next s.tasks last s.current_task
        ok (record s { tasks = tasks }))

  -- `sleep` of timer.c. The result is that of the `switch_task` at its end.
  unfoldable pub sleep : ℕ → Regs → Sched → Run (Sched × Transfer)
  sleep epoches regs s = do
    alone ←
        if not (s.current_task == 0) && (s.current_task == s.ready_queue)
        then (load s.tasks s.ready_queue >>= λ t. ok (t.next == 0))
        else ok false
    if alone then ok (s, stay) else (do
      current ← load s.tasks s.current_task
      let asleep = record current { end_of_sleep = u32 (s.tick + epoches) }
      s' ← join_sleep_queue (record s { tasks = store s.tasks s.current_task asleep })
      switch_task regs s')

  -- The parts of the body of the loop of `timer_callback`: the task `p`, whose successor is `next`,
  -- leaves the sleep queue, and joins the ready queue.
  unfoldable pub leave_sleep_queue : (p next : ℕ) → Sched → Run Sched
  leave_sleep_queue p next s =
      if p == s.sleep_queue then ok (record s { sleep_queue = next }) else (do
        before ← task_before walk s.tasks p s.sleep_queue
        tasks ← set_next s.tasks before next
        ok (record s { tasks = tasks }))

  unfoldable pub join_ready_queue : ℕ → Sched → Run Sched
  join_ready_queue p s = do
    last ← last_task walk s.tasks s.ready_queue
    linked ← set_next s.tasks last p
    tasks ← set_next linked p 0
    ok (record s { tasks = tasks })

  -- The body of the loop of `timer_callback` for a task whose sleep is over.
  unfoldable pub wake : ℕ → Sched → Run Sched
  wake p s = do
    t ← load s.tasks p
    let awake = record s { tasks = store s.tasks p (record t { end_of_sleep = 0 }) }
    s' ← leave_sleep_queue p t.next awake
    join_ready_queue p s'

  -- The loop of `timer_callback`, at the task `p`. The step of the `for` reads `next` after the
  -- body has run.
  unfoldable pub wake_sleepers : ℕ → ℕ → Sched → Run Sched
  wake_sleepers zero p s = out_of_fuel
  wake_sleepers (suc fuel) p s =
      let round =
        (load s.tasks p >>= λ t. (if ltb t.end_of_sleep s.tick then wake p s else ok s) >>= λ s'.
        load s'.tasks p >>= λ t'. wake_sleepers fuel t'.next s') in
      if p == 0 then ok s else round

  -- `timer_callback`.
  unfoldable pub timer_callback : Regs → Sched → Run (Sched × Transfer)
  timer_callback regs s =
      let ticked = record s { tick = u32 (s.tick + 1) } in
      if ticked.next_pid == 1
      then ok (ticked, stay)
      else (do awake ← wake_sleepers walk ticked.sleep_queue ticked; switch_task regs awake)

  -- `fork` up to `read_eip()`: `fresh`, `directory` and `stack` are what `kmalloc`,
  -- `clone_directory` and `kmalloc_a` return.
  unfoldable pub fork_child : (fresh directory stack : ℕ) → Sched → Run Sched
  fork_child fresh directory stack s = do
    let child : Task = record {
      id = s.next_pid;
      esp = 0;
      ebp = 0;
      eip = 0;
      page_directory = directory;
      kernel_stack = stack;
      end_of_sleep = 0;
      next = 0;
    }
    let tasks = store s.tasks fresh child
    last ← last_task walk tasks s.ready_queue
    linked ← set_next tasks last fresh
    ok (record s { tasks = linked; next_pid = u32 (s.next_pid + 1) })

-- `fork` behind `read_eip()`, which returns in the parent, and later once more in the child.
unfoldable pub fork_return : (parent fresh : ℕ) → Regs → Sched → Run (Sched × ℕ)
fork_return parent fresh regs s =
    if s.current_task == parent
    then (do
      child ← load s.tasks fresh
      let set_up = record child { esp = regs.esp; ebp = regs.ebp; eip = regs.eip }
      ok (record s { tasks = store s.tasks fresh set_up }, child.id))
    else ok (s, 0)

-- `getpid`.
unfoldable pub getpid : Sched → Run ℕ
getpid s = load s.tasks s.current_task >>= λ t. ok t.id
