-- ===== src/Scheduler/Tests.antt =====
-- Three ready tasks and two sleepers at work, and the theorems at them.
use matanos.Base.{
  ℕ, zero, suc, ◌+◌, ◌*◌, ◌≤◌, ◌<◌, ◌≡◌, refl, sym, ap, ◌∙◌, ◌⊎◌, inl, inr, Option, [], ◌∷◌, arith,
  none, some, ok, u32,
}
use matanos.Scheduler.{
  Task, Tasks, Sched, Regs, jump, load, store, switch_task, sleep, timer_callback, fork_child,
  getpid,
}
use matanos.Scheduler.Chain.{Seg, count}
use matanos.Scheduler.Facts.{Same, SameBut}
use matanos.Scheduler.Rotation.{Awake, switches, switches-reach}
use matanos.Scheduler.Leave.{Queues}
use matanos.Scheduler.Switch.{Running, switch_task_awake, switch_task_asleep}
use matanos.Scheduler.Sleep.{sleep_lem}
use matanos.Scheduler.Wrap.{sleep-wrapped}
use matanos.Scheduler.Timer.{timer_callback_wakes_one}
use matanos.Scheduler.Fork.{fork_child-Queues, new_task}

abbrev task : ℕ → ℕ → ℕ → Task
task id end_of_sleep next = record {
  id = id;
  esp = 100 * id;
  ebp = 0;
  eip = 7 * id;
  page_directory = id;
  kernel_stack = 0x1000 * id;
  end_of_sleep = end_of_sleep;
  next = next;
}

-- Tasks 1, 2 and 3 are ready, 4 and 5 sleep until ticks 30 and 20.
abbrev memory : Tasks
memory (suc zero) = some (task 1 0 2)
memory (suc (suc zero)) = some (task 2 0 3)
memory (suc (suc (suc zero))) = some (task 3 0 0)
memory (suc (suc (suc (suc zero)))) = some (task 4 30 5)
memory (suc (suc (suc (suc (suc zero))))) = some (task 5 20 0)
memory _ = none

abbrev state : Sched
state = record {
  tasks = memory;
  current_task = 2;
  ready_queue = 1;
  sleep_queue = 4;
  next_pid = 6;
  tick = 10;
  current_directory = 2;
  esp0 = 0x3000;
}

abbrev regs : Regs
regs = record { esp = 77; ebp = 78; eip = 79 }

abbrev fuel : ℕ
fuel = 20

abbrev at_tick : ℕ → Sched
at_tick t = record state { tick = t }

state-Queues : (t : ℕ) → Queues (at_tick t) (1 ∷ 2 ∷ 3 ∷ []) (4 ∷ 5 ∷ [])
state-Queues t = record {
  ready_chain = (
    refl,
    (omega arith),
    task 1 0 2,
    refl,
    (refl, (omega arith), task 2 0 3, refl, (refl, (omega arith), task 3 0 0, refl, refl)),
  );
  sleep_chain =
      (refl, (omega arith), task 4 30 5, refl, (refl, (omega arith), task 5 20 0, refl, refl));
  apart = λ x. ground arith;
}

state-Running : Running state regs (1 ∷ []) (task 2 0 3) (3 ∷ [])
state-Running = record {
  held = refl;
  chain = (state-Queues 10).ready_chain;
  apart = λ x. ground arith;
  company = omega arith;
  first_return = omega arith;
}

abbrev dozing : Sched
dozing = record state { tasks = store memory 2 (task 2 12 3) }

dozing-Running : Running dozing regs (1 ∷ []) (task 2 12 3) (3 ∷ [])
unfolding store
dozing-Running = record {
  held = refl;
  chain = (
    refl,
    (omega arith),
    task 1 0 2,
    refl,
    (refl, (omega arith), task 2 12 3, refl, (refl, (omega arith), task 3 0 0, refl, refl)),
  );
  apart = λ x. ground arith;
  company = omega arith;
  first_return = omega arith;
}

getpid_runs : getpid state ≡ ok 2
unfolding getpid load
getpid_runs = refl

switch_task_awake_example :
    (tn : Task) × (memory 3 ≡ some tn)
    × (switch_task fuel regs state
        ≡ ok (
          record state {
            tasks = store memory 2 (record (task 2 0 3) { esp = 77; ebp = 78; eip = 79 });
            current_task = 3;
            current_directory = tn.page_directory;
            esp0 = u32 (tn.kernel_stack + 0x1000);
          },
          jump tn.eip tn.esp tn.ebp tn.page_directory,
        ))
    × Queues
        (record state {
          tasks = store memory 2 (record (task 2 0 3) { esp = 77; ebp = 78; eip = 79 });
          current_task = 3;
          current_directory = tn.page_directory;
          esp0 = u32 (tn.kernel_stack + 0x1000);
        })
        (1 ∷ 2 ∷ 3 ∷ [])
        (4 ∷ 5 ∷ [])
switch_task_awake_example =
    switch_task_awake fuel state regs (1 ∷ []) (task 2 0 3) (3 ∷ []) state-Running (4 ∷ 5 ∷ [])
      (state-Queues 10) refl

switch_task_asleep_example :
    (tn : Task) × (tasks : Tasks) × (ready : ℕ) × (dozing.tasks 3 ≡ some tn)
    × (switch_task fuel regs dozing
        ≡ ok (
          record dozing {
            tasks = tasks;
            ready_queue = ready;
            current_task = 3;
            current_directory = tn.page_directory;
            esp0 = u32 (tn.kernel_stack + 0x1000);
          },
          jump tn.eip tn.esp tn.ebp tn.page_directory,
        ))
    × Seg tasks ready (1 ∷ 3 ∷ []) 0
    × (tasks 2 ≡ some (record (task 2 12 0) { esp = 77; ebp = 78; eip = 79 }))
    × ((x : ℕ) → count x (1 ∷ 2 ∷ []) ≡ 0 → tasks x ≡ dozing.tasks x)
    × Same dozing.tasks tasks
switch_task_asleep_example =
    switch_task_asleep fuel dozing regs (1 ∷ []) (task 2 12 3) (3 ∷ []) dozing-Running (omega arith)
      (omega arith)

sleep_lem_example :
    (s' : Sched) × (tn : Task) × (memory 3 ≡ some tn)
    × (sleep fuel 5 regs state ≡ ok (s', jump tn.eip tn.esp tn.ebp tn.page_directory))
    × Queues s' (1 ∷ 3 ∷ []) (4 ∷ 5 ∷ 2 ∷ [])
    × (s'.current_task ≡ 3)
    × (s'.tasks 2 ≡ some (record (task 2 15 0) { esp = 77; ebp = 78; eip = 79 }))
    × SameBut 2 memory s'.tasks
    × (s'.tick ≡ 10)
    × (s'.next_pid ≡ 6)
sleep_lem_example =
    sleep_lem fuel 5 regs state (1 ∷ []) (task 2 0 3) (3 ∷ []) (4 ∷ 5 ∷ []) state-Running
      (state-Queues 10) (omega arith) (omega arith)

sleeps_on : (x : ℕ) (t : Task) → 0 < count x (4 ∷ 5 ∷ []) → memory x ≡ some t → 11 ≤ t.end_of_sleep
sleeps_on zero t h e = absurd (omega arith)
sleeps_on (suc zero) t h e = absurd (omega arith)
sleeps_on (suc (suc zero)) t h e = absurd (omega arith)
sleeps_on (suc (suc (suc zero))) t h e = absurd (omega arith)
sleeps_on (suc (suc (suc (suc zero)))) t h e = ground arith
sleeps_on (suc (suc (suc (suc (suc zero))))) t h e = ground arith
sleeps_on (suc (suc (suc (suc (suc (suc x)))))) t h e = cc

first_sleeps_on :
    (x : ℕ) (t : Task) → 0 < count x (4 ∷ []) → memory x ≡ some t → 26 ≤ t.end_of_sleep
first_sleeps_on zero t h e = absurd (omega arith)
first_sleeps_on (suc zero) t h e = absurd (omega arith)
first_sleeps_on (suc (suc zero)) t h e = absurd (omega arith)
first_sleeps_on (suc (suc (suc zero))) t h e = absurd (omega arith)
first_sleeps_on (suc (suc (suc (suc zero)))) t h e = ground arith
first_sleeps_on (suc (suc (suc (suc (suc zero))))) t h e = absurd (omega arith)
first_sleeps_on (suc (suc (suc (suc (suc (suc x)))))) t h e = cc

timer_callback_wakes_one_example :
    (s' : Sched) × (timer_callback fuel regs (at_tick 25) ≡ switch_task fuel regs s')
    × Queues s' (1 ∷ 2 ∷ 3 ∷ 5 ∷ []) (4 ∷ [])
    × (s'.tasks 5 ≡ some (task 5 0 0))
    × (s'.current_task ≡ 2)
    × (s'.tick ≡ 26)
    × SameBut 5 memory s'.tasks
    × (s'.next_pid ≡ 6)
timer_callback_wakes_one_example =
    timer_callback_wakes_one fuel regs (at_tick 25) (omega arith) (1 ∷ 2 ∷ []) 3 (4 ∷ []) 5 []
      (task 5 20 0) (state-Queues 25) refl (omega arith) first_sleeps_on (omega arith)

fork_child-Queues_example :
    (s' : Sched) × (fork_child fuel 9 6 0x6000 state ≡ ok s')
    × Queues s' (1 ∷ 2 ∷ 3 ∷ 9 ∷ []) (4 ∷ 5 ∷ [])
    × (s'.tasks 9 ≡ some (new_task 6 6 0x6000))
    × (s'.next_pid ≡ 7)
    × (s'.current_task ≡ 2)
    × SameBut 9 memory s'.tasks
fork_child-Queues_example =
    fork_child-Queues fuel 9 6 0x6000 state (1 ∷ 2 ∷ []) 3 (4 ∷ 5 ∷ []) (state-Queues 10)
      (omega arith) (omega arith) (omega arith)

end_or : Option Task → ℕ
end_or none = 0
end_or (some t) = t.end_of_sleep

among_three : (x : ℕ) → 0 < count x (1 ∷ 2 ∷ 3 ∷ []) → (x ≡ 1) ⊎ ((x ≡ 2) ⊎ (x ≡ 3))
among_three x h = ground arith

memory-Awake : Awake memory (1 ∷ 2 ∷ 3 ∷ [])
unfolding end_or
memory-Awake x among t held = elim (among_three x among) [
  | inl e ↦ sym (ap (λ o. end_or o) (ap (λ y. memory y) (sym e) ∙ held))
  | inr (inl e) ↦ sym (ap (λ o. end_or o) (ap (λ y. memory y) (sym e) ∙ held))
  | inr (inr e) ↦ sym (ap (λ o. end_or o) (ap (λ y. memory y) (sym e) ∙ held))
]

switches-reach_example :
    (n : ℕ) × (s' : Sched) × (n ≤ 2)
    × (switches fuel (λ i. regs) 0 n state ≡ ok s')
    × (s'.current_task ≡ 1)
    × Queues s' (1 ∷ 2 ∷ 3 ∷ []) (4 ∷ 5 ∷ [])
switches-reach_example =
    switches-reach fuel (λ i. regs) (1 ∷ []) (3 ∷ []) (4 ∷ 5 ∷ []) 1 state (state-Queues 10)
      memory-Awake (λ k. omega arith) (omega arith)

-- Before the first tick, with no sleepers.
abbrev idle : Sched
idle = record state { tick = 0; sleep_queue = 0 }

idle-Running : Running idle regs (1 ∷ []) (task 2 0 3) (3 ∷ [])
idle-Running = record {
  held = refl;
  chain = (state-Queues 10).ready_chain;
  apart = λ x. ground arith;
  company = omega arith;
  first_return = omega arith;
}

sleep-wrapped_example :
    (s' : Sched) × (tn : Task) × (sleep fuel 0 regs idle
      ≡ ok (s', jump tn.eip tn.esp tn.ebp tn.page_directory))
    × Seg s'.tasks s'.ready_queue (1 ∷ 2 ∷ 3 ∷ []) 0
    × Seg s'.tasks s'.sleep_queue (2 ∷ 3 ∷ []) 0
sleep-wrapped_example =
    sleep-wrapped fuel 0 regs idle (1 ∷ []) (task 2 0 3) (3 ∷ []) idle-Running refl refl
