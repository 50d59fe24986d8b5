-- ===== src/Scheduler/ReachTests.antt =====
-- Multitasking starts, forks, sleeps and is interrupted, and the theorems about reached states hold
-- there.
use matanos.Base.{ℕ, ◌+◌, ◌≡◌, refl, none, List, arith, ok, Run, u32, ◌≢◌}
use matanos.Scheduler.{
  Sched, Regs, Transfer, stay, initialise_tasking, timer_callback, sleep, fork_child, load, store,
  set_next, last_task, task_before, leave_ready_queue, switch_away, switch_task, join_sleep_queue,
  wake_sleepers, wake, leave_sleep_queue, join_ready_queue,
}
use matanos.Scheduler.Reach.{
  Reach, IsRegular, start, tick, doze, spawn, Reach-IsValid, Reach-returns,
}
use matanos.Scheduler.Valid.{IsValid}

abbrev blank : Sched
blank = record {
  tasks = λ x. none;
  current_task = 0;
  ready_queue = 0;
  sleep_queue = 0;
  next_pid = 1;
  tick = 7;
  current_directory = 2;
  esp0 = 0;
}

abbrev regs : Regs
regs = record { esp = 77; ebp = 78; eip = 79 }

abbrev state_of : Run (Sched × Transfer) → Sched
state_of (ok (s, t)) = s
state_of _ = blank

abbrev transfer_of : Run (Sched × Transfer) → Transfer
transfer_of (ok (s, t)) = t
transfer_of _ = stay

abbrev forked_of : Run Sched → Sched
forked_of (ok s) = s
forked_of _ = blank

abbrev booted : Sched
booted = initialise_tasking 100 0x6000 blank

abbrev forked : Sched
forked = forked_of (fork_child 20 200 3 0x8000 booted)

abbrev dozing : Run (Sched × Transfer)
dozing = sleep 20 2 regs forked

abbrev once : Run (Sched × Transfer)
once = timer_callback 20 regs (state_of dozing)

abbrev twice : Run (Sched × Transfer)
twice = timer_callback 20 regs (state_of once)

abbrev thrice : Run (Sched × Transfer)
thrice = timer_callback 20 regs (state_of twice)

-- After `fork`, `sleep(2)` of the first task and two ticks the second task runs and the first sleeps;
-- the third tick wakes it and it runs.
forked_ok : fork_child 20 200 3 0x8000 booted ≡ ok forked
unfolding fork_child load store set_next last_task initialise_tasking
forked_ok = refl

dozing_ok : dozing ≡ ok (state_of dozing, transfer_of dozing)
unfolding fork_child load store set_next last_task initialise_tasking sleep join_sleep_queue
    switch_task switch_away leave_ready_queue task_before
dozing_ok = refl

once_ok : once ≡ ok (state_of once, transfer_of once)
unfolding fork_child load store set_next last_task initialise_tasking sleep join_sleep_queue
    switch_task switch_away leave_ready_queue task_before timer_callback wake_sleepers wake
    leave_sleep_queue join_ready_queue
once_ok = refl

twice_ok : twice ≡ ok (state_of twice, transfer_of twice)
unfolding fork_child load store set_next last_task initialise_tasking sleep join_sleep_queue
    switch_task switch_away leave_ready_queue task_before timer_callback wake_sleepers wake
    leave_sleep_queue join_ready_queue
twice_ok = refl

thrice_ok : thrice ≡ ok (state_of thrice, transfer_of thrice)
unfolding fork_child load store set_next last_task initialise_tasking sleep join_sleep_queue
    switch_task switch_away leave_ready_queue task_before timer_callback wake_sleepers wake
    leave_sleep_queue join_ready_queue
thrice_ok = refl

second_runs : (state_of twice).current_task ≡ 200
unfolding fork_child load store set_next last_task initialise_tasking sleep join_sleep_queue
    switch_task switch_away leave_ready_queue task_before timer_callback wake_sleepers wake
    leave_sleep_queue join_ready_queue
second_runs = refl

first_runs : (state_of thrice).current_task ≡ 100
unfolding fork_child load store set_next last_task initialise_tasking sleep join_sleep_queue
    switch_task switch_away leave_ready_queue task_before timer_callback wake_sleepers wake
    leave_sleep_queue join_ready_queue
first_runs = refl

reached_fork : Reach 20 1 forked
unfolding fork_child load store set_next last_task initialise_tasking
reached_fork =
    spawn 200 3 0x8000 (start 100 0x6000 blank (omega arith) refl refl) (omega arith) refl forked_ok

-- The first task's wake-up tick is not 0.
later : u32 (forked.tick + 2) ≢ 0
unfolding fork_child load store set_next last_task initialise_tasking
later = omega arith

abbrev reached : Reach 20 1 (state_of thrice)
reached =
    tick regs (transfer_of thrice)
      (tick regs (transfer_of twice)
        (tick regs (transfer_of once) (doze 2 regs (transfer_of dozing) reached_fork dozing_ok)
          once_ok)
        twice_ok)
      thrice_ok

reached_fork-IsRegular : IsRegular 20 reached_fork
unfolding reached_fork
reached_fork-IsRegular = tt

reached-IsRegular : IsRegular 20 reached
reached-IsRegular =
    ((((reached_fork-IsRegular, omega arith, later), omega arith), omega arith), omega arith)

Reach-IsValid_example :
    (ready : List ℕ) × (sleeping : List ℕ) × IsValid 1 (state_of thrice) ready sleeping
Reach-IsValid_example =
    Reach-IsValid 20 1 (state_of thrice) (omega arith) (omega arith) reached reached-IsRegular

Reach-returns_example :
    ((s' : Sched) × (t : Transfer) × (timer_callback 20 regs forked ≡ ok (s', t)))
    × ((s' : Sched) × (t : Transfer) × (sleep 20 2 regs forked ≡ ok (s', t)))
    × ((s' : Sched) × (fork_child 20 300 4 0xa000 forked ≡ ok s'))
unfolding fork_child load store set_next last_task initialise_tasking
Reach-returns_example =
    Reach-returns 20 1 forked regs 2 300 4 0xa000 (omega arith) (omega arith) reached_fork
      reached_fork-IsRegular (omega arith) (omega arith) (omega arith) refl
