-- ===== src/Scheduler/Valid.antt =====
-- The well-formedness of a scheduler state, and that `switch_task` keeps it.
use matanos.Base.{
  ℕ, suc, ◌+◌, ◌<◌, ◌≡◌, refl, sym, ap, ◌∙◌, ◌≢◌, inl, inr, Option, none, some, List, [], ◌∷◌, ◌++◌,
  arith, eq→==, ne→==, ==→eq, ==→ne, Bool-cases, ◌==◌, ok, length,
}
use mathlib.Core.Path.{subst}
use matanos.Scheduler.{Task, Tasks, Sched, Regs, Transfer, stay, store, switch_task}
use matanos.Scheduler.Chain.{Seg, count, Seg-at, load-ok}
use matanos.Scheduler.Facts.{Same, SameBut, facts}
use matanos.Scheduler.Leave.{Queues}
use matanos.Scheduler.Rotation.{place_of}
use matanos.Scheduler.Switch.{
  Running, next_of-member, saved, saved-Same, switched, switch_task_awake,
}

-- The process number of a task, from `facts`.
abbrev pub number : Option (ℕ × ℕ) → Option ℕ
number none = none
number (some (i, k)) = some i

-- The process numbers of the queued tasks are below the next one, and no two tasks have the same.
pub record Numbered (m : Tasks) (next : ℕ) (ready sleeping : List ℕ) : Type 0 where
  pub below :
      (x i : ℕ) → 0 < count x ready + count x sleeping → number (facts (m x)) ≡ some i → i < next
  pub distinct :
      (x y i : ℕ)
      → 0 < count x ready + count x sleeping
      → 0 < count y ready + count y sleeping
      → number (facts (m x)) ≡ some i
      → number (facts (m y)) ≡ some i
      → x ≡ y

-- A scheduler state with `n + 1` tasks. Both queues are well formed; the running task is ready; a
-- task has a wake-up tick exactly if it is in the sleep queue; no task is in neither queue; the
-- process numbers are distinct.
pub record IsValid (n : ℕ) (s : Sched) (ready sleeping : List ℕ) : Type 0 where
  pub queues : Queues s ready sleeping
  pub running : 0 < count s.current_task ready
  pub awake : (x i k : ℕ) → 0 < count x ready → facts (s.tasks x) ≡ some (i, k) → k ≡ 0
  pub asleep : (x i k : ℕ) → 0 < count x sleeping → facts (s.tasks x) ≡ some (i, k) → k ≢ 0
  pub numbered : Numbered s.tasks s.next_pid ready sleeping
  pub total : length ready + length sleeping ≡ suc n
  pub pids : s.next_pid ≡ n + 2

pub Numbered-moved :
    (m m' : Tasks) (next : ℕ) (ready sleeping ready' sleeping' : List ℕ)
    → ((x : ℕ) → number (facts (m' x)) ≡ number (facts (m x)))
    → ((x : ℕ) → count x ready' + count x sleeping' ≡ count x ready + count x sleeping)
    → Numbered m next ready sleeping
    → Numbered m' next ready' sleeping'
Numbered-moved m m' next ready sleeping ready' sleeping' same counts numbers = record {
  below = λ x i among e. numbers.below x i (omega (arith, among, counts x)) (sym (same x) ∙ e);
  distinct = λ x y i in_x in_y e f.
      numbers.distinct x y i (omega (arith, in_x, counts x)) (omega (arith, in_y, counts y))
        (sym (same x) ∙ e) (sym (same y) ∙ f);
}

-- The wake-up tick of a task, from `facts`.
abbrev pub wake_up : Option (ℕ × ℕ) → ℕ
wake_up none = 0
wake_up (some (i, k)) = k

-- If one task keeps its process number and the others are as before, all keep theirs.
pub SameBut-number :
    (m m' : Tasks) (p : ℕ) (t t' : Task)
    → SameBut p m m'
    → m p ≡ some t
    → m' p ≡ some t'
    → t'.id ≡ t.id
    → (x : ℕ) → number (facts (m' x)) ≡ number (facts (m x))
SameBut-number m m' p t t' same held held' same_id x = elim (Bool-cases (x == p)) [
  | inl e ↦
      let at : x ≡ p = ==→eq x p e in
      ap (λ y. number (facts (m' y))) at
      ∙ ap (λ o. number (facts o)) held'
      ∙ ap (λ i. some i) same_id
      ∙ ap (λ o. number (facts o)) (sym held)
      ∙ ap (λ y. number (facts (m y))) (sym at)
  | inr n ↦ ap (λ o. number o) (same x (==→ne x p n))
]

-- Where the running task stands in the ready queue.
pub record Place (s : Sched) (ready : List ℕ) : Type 0 where
  pub before : List ℕ
  pub task : Task
  pub later : List ℕ
  pub held : s.tasks s.current_task ≡ some task
  pub split : ready ≡ before ++ (s.current_task ∷ later)
  pub pos : s.current_task ≢ 0

pub place :
    (n : ℕ) (s : Sched) (ready sleeping : List ℕ) → IsValid n s ready sleeping → Place s ready
place n s ready sleeping valid =
    let (a, b, e) = place_of s.current_task ready valid.running in
    let chain = subst (λ l. Seg s.tasks s.ready_queue l 0) e valid.queues.ready_chain in
    let (front, pos, tc, held, back) = Seg-at s.tasks s.ready_queue a s.current_task b 0 chain in
    record { before = a; task = tc; later = b; held = held; split = e; pos = pos }

pub Place-Running :
    (s : Sched) (regs : Regs) (sleeping a : List ℕ) (tc : Task) (b : List ℕ)
    → Queues s (a ++ (s.current_task ∷ b)) sleeping
    → s.tasks s.current_task ≡ some tc
    → 0 < length a + length b
    → regs.eip ≢ 0x12345
    → Running s regs a tc b
Place-Running s regs sleeping a tc b queues held company first = record {
  held = held;
  chain = queues.ready_chain;
  apart = λ x. omega (arith, queues.apart x);
  company = company;
  first_return = first;
}

-- The only ready task goes on.
switch_task_alone :
    (walk : ℕ) (regs : Regs) (s : Sched) (tc : Task)
    → Seg s.tasks s.ready_queue (s.current_task ∷ []) 0
    → s.tasks s.current_task ≡ some tc
    → switch_task walk regs s ≡ ok (s, stay)
unfolding switch_task
switch_task_alone walk regs s tc (e, pos, t, held, end) held' = rw (
  ne→== s.current_task 0 pos,
  eq→== s.current_task s.ready_queue (sym e),
  e,
  load-ok s.tasks s.current_task t pos held,
  eq→== t.next 0 end,
)

-- A member of the ready queue is awake.
pub held-awake :
    (n : ℕ) (s : Sched) (ready sleeping : List ℕ) (x : ℕ) (t : Task)
    → IsValid n s ready sleeping
    → 0 < count x ready
    → s.tasks x ≡ some t
    → t.end_of_sleep ≡ 0
held-awake n s ready sleeping x t valid among held =
    valid.awake x t.id t.end_of_sleep among (ap (λ o. facts o) held)

-- A state with the same process numbers and wake-up ticks, and with well-formed queues of the same
-- tasks.
pub Same-IsValid :
    (n : ℕ) (s s' : Sched) (ready sleeping : List ℕ)
    → IsValid n s ready sleeping
    → Queues s' ready sleeping
    → Same s.tasks s'.tasks
    → 0 < count s'.current_task ready
    → s'.next_pid ≡ s.next_pid
    → IsValid n s' ready sleeping
Same-IsValid n s s' ready sleeping valid queues same running pid = record {
  queues = queues;
  running = running;
  awake = λ x i k among e. valid.awake x i k among (sym (same x) ∙ e);
  asleep = λ x i k among e. valid.asleep x i k among (sym (same x) ∙ e);
  numbered =
      subst (λ next. Numbered s'.tasks next ready sleeping) (sym pid)
        (Numbered-moved s.tasks s'.tasks s.next_pid ready sleeping ready sleeping
          (λ x. ap (λ o. number o) (same x)) (λ x. refl) valid.numbered);
  total = valid.total;
  pids = pid ∙ valid.pids;
}

module _ (walk : ℕ) (regs : Regs) (n : ℕ) (s : Sched) (first : regs.eip ≢ 0x12345) where
  abbrev Switches : List ℕ → List ℕ → Type 0
  Switches ready sleeping =
      (s' : Sched) × (t : Transfer) × (switch_task walk regs s ≡ ok (s', t))
      × IsValid n s' ready sleeping

  switch_alone :
      (tc : Task) (sleeping : List ℕ)
      → s.tasks s.current_task ≡ some tc
      → IsValid n s (s.current_task ∷ []) sleeping
      → Switches (s.current_task ∷ []) sleeping
  switch_alone tc sleeping held valid =
      (s, stay, switch_task_alone walk regs s tc valid.queues.ready_chain held, valid)

  switch_among :
      (a : List ℕ) (tc : Task) (b sleeping : List ℕ)
      → s.tasks s.current_task ≡ some tc
      → IsValid n s (a ++ (s.current_task ∷ b)) sleeping
      → 0 < length a + length b
      → Switches (a ++ (s.current_task ∷ b)) sleeping
  switch_among a tc b sleeping held valid company =
      let run = Place-Running s regs sleeping a tc b valid.queues held company first in
      let (tn, held_n, runs, queues) =
        switch_task_awake walk s regs a tc b run sleeping valid.queues (
          held-awake n s (a ++ (s.current_task ∷ b)) sleeping s.current_task tc valid valid.running
            held) in
      let s' =
        switched walk s regs a tc b run (store s.tasks s.current_task (saved tc regs)) s.ready_queue
          tn in
      (
        s',
        _,
        runs,
        Same-IsValid n s s' (a ++ (s.current_task ∷ b)) sleeping valid queues
            (saved-Same walk s regs a tc b run) (next_of-member walk s regs a tc b run).1 refl,
      )

  switch_at :
      (a : List ℕ) (tc : Task) (b sleeping : List ℕ)
      → s.tasks s.current_task ≡ some tc
      → IsValid n s (a ++ (s.current_task ∷ b)) sleeping
      → Switches (a ++ (s.current_task ∷ b)) sleeping
  switch_at [] tc [] sleeping held valid = switch_alone tc sleeping held valid
  switch_at [] tc (y ∷ b) sleeping held valid =
      switch_among [] tc (y ∷ b) sleeping held valid (omega arith)
  switch_at (x ∷ a) tc b sleeping held valid =
      switch_among (x ∷ a) tc b sleeping held valid (omega arith)

  -- On a valid state `switch_task` returns and leaves a valid state.
  pub switch_task-IsValid :
      (ready sleeping : List ℕ) → IsValid n s ready sleeping → Switches ready sleeping
  switch_task-IsValid ready sleeping valid =
      let at = place n s ready sleeping valid in
      subst (λ l. Switches l sleeping) (sym at.split)
        (switch_at at.before at.task at.later sleeping at.held
          (subst (λ l. IsValid n s l sleeping) at.split valid))
