-- ===== src/Scheduler/Dozes.antt =====
-- `sleep` on a valid state, with company in the ready queue or without.
use matanos.Base.{
  ℕ, ◌+◌, ◌<◌, ◌≤◌, ◌≡◌, refl, sym, ap, ◌∙◌, ◌≢◌, inl, inr, some, List, [], ◌∷◌, ◌++◌, arith, eq→==,
  ne→==, ==→eq, ==→ne, Bool-cases, ◌==◌, ok, length, length-append, u32,
}
use mathlib.Core.Path.{subst}
use matanos.Scheduler.{Task, Sched, Regs, Transfer, stay, jump, sleep}
use matanos.Scheduler.Chain.{Seg, count, count-append, count_head, count-single_ne, load-ok}
use matanos.Scheduler.Facts.{SameBut, facts}
use matanos.Scheduler.Leave.{Queues}
use matanos.Scheduler.Sleep.{sleep_lem}
use matanos.Scheduler.Switch.{next_of, next_of-member}
use matanos.Scheduler.Valid.{
  IsValid, Numbered, Numbered-moved, wake_up, SameBut-number, place, Place-Running,
}

-- The only ready task does not sleep.
sleep_alone :
    (walk epoches : ℕ) (regs : Regs) (s : Sched)
    → Seg s.tasks s.ready_queue (s.current_task ∷ []) 0
    → sleep walk epoches regs s ≡ ok (s, stay)
unfolding sleep
sleep_alone walk epoches regs s (e, pos, t, held, end) = rw (
  ne→== s.current_task 0 pos,
  eq→== s.current_task s.ready_queue (sym e),
  e,
  load-ok s.tasks s.current_task t pos held,
  eq→== t.next 0 end,
)

module _ (walk epoches : ℕ) (regs : Regs) (n : ℕ) (s : Sched) (first : regs.eip ≢ 0x12345)
    (nonzero : u32 (s.tick + epoches) ≢ 0) (fuel : n + 3 ≤ walk) where
  -- The running task has moved from the ready queue to the end of the sleep queue.
  suspended-IsValid :
      (s' : Sched) (a b sleeping : List ℕ) (tc tc' : Task)
      → IsValid n s (a ++ (s.current_task ∷ b)) sleeping
      → Queues s' (a ++ b) (sleeping ++ (s.current_task ∷ []))
      → s.tasks s.current_task ≡ some tc
      → s'.tasks s.current_task ≡ some tc'
      → tc'.id ≡ tc.id
      → tc'.end_of_sleep ≢ 0
      → SameBut s.current_task s.tasks s'.tasks
      → 0 < count s'.current_task (a ++ b)
      → s'.next_pid ≡ s.next_pid
      → IsValid n s' (a ++ b) (sleeping ++ (s.current_task ∷ []))
  suspended-IsValid s' a b sleeping tc tc' valid queues held held' same_id down same running pid =
      record {
        queues = queues;
        running = running;
        awake = λ x i k among e.
            valid.awake x i k (omega (arith, among, moved x)) (sym (same x (other x among)) ∙ e);
        asleep = λ x i k among e. elim (Bool-cases (x == s.current_task)) [
          | inl is_c ↦ λ zero_k. down (
              sym (ap (λ o. wake_up (facts o)) held')
              ∙ sym (ap (λ y. wake_up (facts (s'.tasks y))) (==→eq x s.current_task is_c))
              ∙ ap (λ o. wake_up o) e
              ∙ zero_k)
          | inr n ↦
              let ne = ==→ne x s.current_task n in
              valid.asleep x i k
                (omega (
                  arith,
                  among,
                  count-append x sleeping (s.current_task ∷ []),
                  count-single_ne x s.current_task ne,
                ))
                (sym (same x ne) ∙ e)
        ];
        numbered =
            subst (λ next. Numbered s'.tasks next (a ++ b) (sleeping ++ (s.current_task ∷ [])))
              (sym pid)
              (Numbered-moved s.tasks s'.tasks s.next_pid (a ++ (s.current_task ∷ b)) sleeping
                (a ++ b) (sleeping ++ (s.current_task ∷ []))
                (SameBut-number s.tasks s'.tasks s.current_task tc tc' same held held' same_id)
                (λ x. omega (arith, moved x, count-append x sleeping (s.current_task ∷ [])))
                valid.numbered);
        total = omega (
          arith,
          valid.total,
          length-append a b,
          length-append a (s.current_task ∷ b),
          length-append sleeping (s.current_task ∷ []),
        );
        pids = pid ∙ valid.pids;
      }
    where
      moved :
          (x : ℕ)
          → count x (a ++ (s.current_task ∷ b)) ≡ count x (a ++ b) + count x (s.current_task ∷ [])
      moved x = omega (
        arith,
        count-append x a b,
        count-append x a (s.current_task ∷ b),
        count-append x (s.current_task ∷ []) b,
      )

      other : (x : ℕ) → 0 < count x (a ++ b) → x ≢ s.current_task
      other x among e = absurd (
          omega (
            arith,
            valid.queues.apart s.current_task,
            moved s.current_task,
            count_head s.current_task [],
            ap (λ y. count y (a ++ b)) e,
            among,
          ))

  abbrev Sleeps : List ℕ → List ℕ → Type 0
  Sleeps ready sleeping =
      IsValid n s ready sleeping
      → (ready' : List ℕ) × (sleeping' : List ℕ) × (s' : Sched) × (t : Transfer) × (sleep walk
            epoches regs s
          ≡ ok (s', t))
        × IsValid n s' ready' sleeping'

  sleep_among :
      (a : List ℕ) (tc : Task) (b sleeping : List ℕ)
      → s.tasks s.current_task ≡ some tc
      → 0 < length a + length b
      → Sleeps (a ++ (s.current_task ∷ b)) sleeping
  sleep_among a tc b sleeping held company valid =
      let run = Place-Running s regs sleeping a tc b valid.queues held company first in
      let (s', tn, held_n, runs, queues, task, held', same, same_tick, pid) =
        sleep_lem walk epoches regs s a tc b sleeping run valid.queues nonzero
          (omega (arith, fuel, valid.total, length-append a (s.current_task ∷ b))) in
      let (other, member) = next_of-member walk s regs a tc b run in
      let stays : 0 < count (next_of a b) (a ++ b) = omega (
        arith,
        member,
        count-append (next_of a b) a b,
        count-append (next_of a b) a (s.current_task ∷ b),
        count-append (next_of a b) (s.current_task ∷ []) b,
        count-single_ne (next_of a b) s.current_task other,
      ) in
      (
        a ++ b,
        sleeping ++ (s.current_task ∷ []),
        s',
        jump tn.eip tn.esp tn.ebp tn.page_directory,
        runs,
        suspended-IsValid s' a b sleeping tc _ valid queues held held' refl nonzero same
            (subst (λ x. 0 < count x (a ++ b)) (sym task) stays) pid,
      )

  sleep_at :
      (a : List ℕ) (tc : Task) (b sleeping : List ℕ)
      → s.tasks s.current_task ≡ some tc
      → Sleeps (a ++ (s.current_task ∷ b)) sleeping
  sleep_at [] tc [] sleeping held valid = (
    s.current_task ∷ [],
    sleeping,
    s,
    stay,
    sleep_alone walk epoches regs s valid.queues.ready_chain,
    valid,
  )
  sleep_at [] tc (y ∷ b) sleeping held valid =
      sleep_among [] tc (y ∷ b) sleeping held (omega arith) valid
  sleep_at (x ∷ a) tc b sleeping held valid =
      sleep_among (x ∷ a) tc b sleeping held (omega arith) valid

  -- On a valid state with `n + 1` tasks `sleep` returns and leaves a valid state.
  pub sleep-IsValid : (ready sleeping : List ℕ) → Sleeps ready sleeping
  sleep-IsValid ready sleeping valid =
      let at = place n s ready sleeping valid in
      subst (λ l. Sleeps l sleeping) (sym at.split)
        (sleep_at at.before at.task at.later sleeping at.held) valid
