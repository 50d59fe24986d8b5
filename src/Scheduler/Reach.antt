-- ===== src/Scheduler/Reach.antt =====
-- The states that multitasking reaches: from `initialise_tasking` by timer ticks, `sleep` and the
-- two parts of `fork`.
use matanos.Base.{
  ℕ, suc, ◌+◌, ◌^◌, ◌<◌, ◌≤◌, ◌≡◌, sym, ◌∙◌, ◌≢◌, none, some, List, [], ◌∷◌, ◌++◌, arith, ok, Run,
  u32,
}
use mathlib.Core.Path.{subst}
use matanos.Scheduler.{
  Task, Sched, Regs, Transfer, initialise_tasking, timer_callback, sleep, fork_child, fork_return,
}
use matanos.Scheduler.Valid.{IsValid}
use matanos.Scheduler.Ticks.{timer_callback-IsValid}
use matanos.Scheduler.Dozes.{sleep-IsValid}
use matanos.Scheduler.Spawns.{initialise_tasking-IsValid, fork_child-IsValid, fork_return-IsValid}

module _ (walk : ℕ) where
  -- `Reach walk n s`: multitasking has reached the state `s`, after `n` forks. The operations run one
  -- after the other, each as the running task or the interrupt calls it, and `kmalloc` returns to
  -- `fork` memory that holds no task.
  pub data Reach : ℕ → Sched → Type 0 where
    start :
        (fresh stack : ℕ) (s : Sched)
        → fresh ≢ 0
        → s.sleep_queue ≡ 0
        → s.next_pid ≡ 1
        → Reach 0 (initialise_tasking fresh stack s)
    tick :
        {n : ℕ} {s s' : Sched} (regs : Regs) (t : Transfer)
        → Reach n s
        → timer_callback walk regs s ≡ ok (s', t)
        → Reach n s'
    doze :
        {n : ℕ} {s s' : Sched} (epoches : ℕ) (regs : Regs) (t : Transfer)
        → Reach n s
        → sleep walk epoches regs s ≡ ok (s', t)
        → Reach n s'
    spawn :
        {n : ℕ} {s s' : Sched} (fresh directory stack : ℕ)
        → Reach n s
        → fresh ≢ 0
        → s.tasks fresh ≡ none
        → fork_child walk fresh directory stack s ≡ ok s'
        → Reach (suc n) s'
    resume :
        {n : ℕ} {s s' : Sched} (parent fresh : ℕ) (regs : Regs) (child : Task) (r : ℕ)
        → Reach n s
        → fresh ≢ 0
        → s.tasks fresh ≡ some child
        → fork_return parent fresh regs s ≡ ok (s', r)
        → Reach n s'

  -- A history without two accidents: `read_eip` does not give 0x12345, the mark of a task that
  -- resumes, to a tick or a `sleep`, and the wake-up tick of no `sleep` comes out as 0, the mark of
  -- a task that is awake.
  abbrev pub IsRegular : {n : ℕ} {s : Sched} → Reach n s → Type 0
  IsRegular (start fresh stack s pos idle one) = Unit
  IsRegular (tick regs t before run) = IsRegular before × (regs.eip ≢ 0x12345)
  IsRegular (doze {s = s0} epoches regs t before run) =
      IsRegular before × (regs.eip ≢ 0x12345) × (u32 (s0.tick + epoches) ≢ 0)
  IsRegular (spawn fresh directory stack before pos free run) = IsRegular before
  IsRegular (resume parent fresh regs child r before pos held run) = IsRegular before

  abbrev pub Valid : ℕ → Sched → Type 0
  Valid n s = (ready : List ℕ) × (sleeping : List ℕ) × IsValid n s ready sleeping

  -- The state that an operation returns is the one that is known to be valid.
  returned :
      {A : Type 0} (n : ℕ) (s s' : Sched) (a a' : A) (r : Run (Sched × A))
      → r ≡ ok (s, a)
      → r ≡ ok (s', a')
      → Valid n s
      → Valid n s'
  returned {A = A} n s s' a a' r e e' valid =
      let both : ◌≡◌ {A = Run (Sched × A)} (ok (s, a)) (ok (s', a')) = sym e ∙ e' in
      let same : s ≡ s' = cc in subst (λ x. Valid n x) same valid

  Reach-Valid :
      {n : ℕ} {s : Sched} (reached : Reach n s)
      → IsRegular reached
      → n + 3 < 2 ^ 32
      → n + 3 ≤ walk
      → Valid n s
  Reach-Valid (start fresh stack s0 pos idle one) regular room fuel =
      (fresh ∷ [], [], initialise_tasking-IsValid fresh stack s0 pos idle one)
  Reach-Valid (tick {n = n} {s = s0} {s' = s} regs t before run) (regular, first) room fuel =
      let (ready, sleeping, valid) = Reach-Valid before regular room fuel in
      let (ready', sleeping', s', t', runs, valid') =
        timer_callback-IsValid walk regs n s0 first fuel ready sleeping valid in
      returned n s' s t' t (timer_callback walk regs s0) runs run (ready', sleeping', valid')
  Reach-Valid (doze {n = n} {s = s0} {s' = s} epoches regs t before run) (regular, first, later)
        room fuel =
      let (ready, sleeping, valid) = Reach-Valid before regular room fuel in
      let (ready', sleeping', s', t', runs, valid') =
        sleep-IsValid walk epoches regs n s0 first later fuel ready sleeping valid in
      returned n s' s t' t (sleep walk epoches regs s0) runs run (ready', sleeping', valid')
  Reach-Valid (spawn {n = k} {s = s0} {s' = s} fresh directory stack before pos free run) regular
        room fuel =
      let (ready, sleeping, valid) =
        Reach-Valid before regular (omega (arith, room)) (omega (arith, fuel)) in
      let (s', runs, valid') =
        fork_child-IsValid walk fresh directory stack k s0 pos free (omega (arith, room))
          (omega (arith, fuel)) ready sleeping valid in
      let both : ◌≡◌ {A = Run Sched} (ok s') (ok s) = sym runs ∙ run in
      let same : s' ≡ s = cc in
      subst (λ x. Valid (suc k) x) same (ready ++ (fresh ∷ []), sleeping, valid')
  Reach-Valid (resume {n = n} {s = s0} {s' = s} parent fresh regs child r before pos held run)
        regular room fuel =
      let (ready, sleeping, valid) = Reach-Valid before regular room fuel in
      let (s', r', runs, valid') =
        fork_return-IsValid parent fresh regs n s0 ready sleeping child pos held valid in
      returned n s' s r' r (fork_return parent fresh regs s0) runs run (ready, sleeping, valid')

  -- A state that multitasking reaches with `n` forks of fresh memory, by a history in which
  -- `read_eip` gives 0x12345 to no tick and no `sleep` and no `sleep` has the wake-up tick 0, where
  -- `n + 3` is below 2 ^ 32 and at most the number of rounds of a walk. Its queues are two lists
  -- without a common task, which hold all `n + 1` tasks; the running task is in the ready queue;
  -- exactly the tasks of the sleep queue have a wake-up tick; and all process numbers are distinct
  -- and below the next one, `n + 2`.
  pub Reach-IsValid :
      (n : ℕ) (s : Sched)
      → n + 3 < 2 ^ 32
      → n + 3 ≤ walk
      → (reached : Reach n s) → IsRegular reached
      → (ready : List ℕ) × (sleeping : List ℕ) × IsValid n s ready sleeping
  Reach-IsValid n s room fuel reached regular = Reach-Valid reached regular room fuel

  -- A state that multitasking reaches with `n` forks of fresh memory, by a history in which
  -- `read_eip` gives 0x12345 to no tick and no `sleep` and no `sleep` has the wake-up tick 0, where
  -- `n + 3` is below 2 ^ 32 and at most the number of rounds of a walk. If `read_eip` does not give
  -- 0x12345 now either, then a timer tick, a `sleep` whose wake-up tick is not 0, and a `fork` whose
  -- new task lies in fresh memory all return, without a fault and without running out of rounds.
  pub Reach-returns :
      (n : ℕ) (s : Sched) (regs : Regs) (epoches fresh directory stack : ℕ)
      → n + 3 < 2 ^ 32
      → n + 3 ≤ walk
      → (reached : Reach n s) → IsRegular reached
      → regs.eip ≢ 0x12345
      → u32 (s.tick + epoches) ≢ 0
      → fresh ≢ 0
      → s.tasks fresh ≡ none
      → ((s' : Sched) × (t : Transfer) × (timer_callback walk regs s ≡ ok (s', t)))
        × ((s' : Sched) × (t : Transfer) × (sleep walk epoches regs s ≡ ok (s', t)))
        × ((s' : Sched) × (fork_child walk fresh directory stack s ≡ ok s'))
  Reach-returns n s regs epoches fresh directory stack room fuel reached regular first later pos
        free =
      let (ready, sleeping, valid) = Reach-IsValid n s room fuel reached regular in
      let (_, _, s1, t1, ticks, _) =
        timer_callback-IsValid walk regs n s first fuel ready sleeping valid in
      let (_, _, s2, t2, sleeps, _) =
        sleep-IsValid walk epoches regs n s first later fuel ready sleeping valid in
      let (s3, forks, _) =
        fork_child-IsValid walk fresh directory stack n s pos free room fuel ready sleeping valid in
      ((s1, t1, ticks), (s2, t2, sleeps), (s3, forks))
