-- ===== src/Scheduler/Timer.antt =====
-- `timer_callback`: at most one sleeper wakes at a tick, the first whose time has come.
use matanos.Base.{
  ℕ, zero, suc, ◌+◌, ◌≤◌, ◌<◌, ◌≡◌, refl, sym, ◌∙◌, ◌≢◌, List, [], ◌∷◌, ◌++◌, arith, lt→ltb, le→ltb,
  eq→==, ne→==, ok, length, some, u32,
}
use mathlib.Core.Path.{subst}
use matanos.Scheduler.{
  Task, Tasks, Sched, Regs, store, wake, wake_sleepers, timer_callback, switch_task,
}
use matanos.Scheduler.Chain.{
  Seg, count, count-append, count_head, load-ok, store_self, Seg-at, Seg-keep,
}
use matanos.Scheduler.Facts.{SameBut, SameBut-store}
use matanos.Scheduler.Leave.{Queues}
use matanos.Scheduler.Wake.{leave-OffQueue, join_ready_queue-Queues}

module _ (walk : ℕ) (s : Sched) (rs : List ℕ) (z : ℕ) (xs : List ℕ) (p : ℕ) (ys : List ℕ)
    (tp : Task) (queues : Queues s (rs ++ (z ∷ [])) (xs ++ (p ∷ ys))) (held : s.tasks p ≡ some tp)
    (fuel : length rs + length xs < walk) where
  -- What waking `p` leads to: it moves from the sleep queue to the end of the ready queue.
  pub record Woken (s' : Sched) : Type 0 where
    pub queues' : Queues s' ((rs ++ (z ∷ [])) ++ (p ∷ [])) (xs ++ ys)
    pub held' : s'.tasks p ≡ some (record tp { end_of_sleep = 0; next = 0 })
    pub same_task : s'.current_task ≡ s.current_task
    pub same_tick : s'.tick ≡ s.tick
    pub same_pid : s'.next_pid ≡ s.next_pid
    pub others : SameBut p s.tasks s'.tasks

  -- The loop body wakes the task that it is at.
  wake-Woken : (s' : Sched) × (wake walk p s ≡ ok s') × Woken s'
  unfolding wake
  wake-Woken =
      let (front, pos, tp', held_p, back') =
        Seg-at s.tasks s.sleep_queue xs p ys 0 queues.sleep_chain in
      let both : some tp' ≡ some tp = sym held_p ∙ held in
      let same : tp' ≡ tp = cc in
      let back : Seg s.tasks tp.next ys 0 =
        subst (λ (t : Task). Seg s.tasks t.next ys 0) same back' in
      let up : Task = record tp { end_of_sleep = 0 } in
      let m : Tasks = store s.tasks p up in
      let s0 : Sched = record s { tasks = m } in
      let counts : (x : ℕ)
          → count x (rs ++ (z ∷ [])) + count x xs + count x (p ∷ []) + count x ys ≤ 1 =
        λ x.
          omega (arith, queues.apart x, count-append x xs (p ∷ ys), count-append x (p ∷ []) ys) in
      let keep : (a : ℕ) (l : List ℕ) (b : ℕ) → Seg s.tasks a l b → Seg m a l b =
        λ a l b. Seg-keep s.tasks p tp up a l b held refl in
      let (m1, q, leaves, off) =
        leave-OffQueue walk s0 (rs ++ (z ∷ [])) p up pos (store_self s.tasks p up)
          (keep s.ready_queue (rs ++ (z ∷ [])) 0 queues.ready_chain) xs ys
          (keep s.sleep_queue xs p front) (keep tp.next ys 0 back) counts (omega arith) in
      let s1 : Sched = record s { tasks = m1; sleep_queue = q } in
      let (m2, joins, queues2, held2, same2) =
        join_ready_queue-Queues walk m s1 rs z p up (xs ++ ys) pos off
          (λ x. omega (arith, counts x, count-append x rs (z ∷ []), count-append x xs ys))
          (omega arith) in
      (
        record s1 { tasks = m2 },
        rw (load-ok s.tasks p tp pos held, leaves, joins),
        record {
          queues' = queues2;
          held' = held2;
          same_task = refl;
          same_tick = refl;
          same_pid = refl;
          others = λ x ne. same2 x ∙ SameBut-store s.tasks p up x ne;
        },
      )

  -- The loop passes over tasks whose time has not come, wakes `p`, and ends there, since the
  -- woken task has no successor any more.
  wake_sleepers_from :
      (rounds p0 : ℕ) (ws : List ℕ)
      → Seg s.tasks p0 ws p
      → ((x : ℕ) (t : Task) → 0 < count x ws → s.tasks x ≡ some t → s.tick ≤ t.end_of_sleep)
      → tp.end_of_sleep < s.tick
      → length ws + 2 ≤ rounds
      → wake_sleepers walk rounds p0 s ≡ ok wake-Woken.0
  unfolding wake_sleepers
  wake_sleepers_from zero p0 ws seg early due h = absurd (omega arith)
  wake_sleepers_from (suc zero) p0 ws seg early due h = absurd (omega arith)
  wake_sleepers_from (suc (suc rounds)) p0 [] seg early due h =
      let pos : p ≢ 0 = (Seg-at s.tasks s.sleep_queue xs p ys 0 queues.sleep_chain).1 in
      rw (
        seg,
        load-ok s.tasks p tp pos held,
        ne→== p 0 pos,
        lt→ltb tp.end_of_sleep s.tick due,
        wake-Woken.1,
        load-ok wake-Woken.0.tasks p (record tp { end_of_sleep = 0; next = 0 }) pos
            wake-Woken.2.held',
      )
  wake_sleepers_from (suc (suc rounds)) p0 (w ∷ ws) (e, pos, t, held_w, rest) early due h =
      rw
        (
          e,
          load-ok s.tasks w t pos held_w,
          ne→== w 0 pos,
          le→ltb t.end_of_sleep s.tick (early w t (omega (arith, count_head w ws)) held_w),
          load-ok s.tasks w t pos held_w,
        )
        (wake_sleepers_from (suc rounds) t.next ws rest (λ x u h'. early x u (omega (arith, h')))
          due (omega arith))

-- No task whose time has come: the loop changes nothing.
wake_sleepers_early :
    (walk rounds : ℕ) (s : Sched) (p0 : ℕ) (ws : List ℕ)
    → Seg s.tasks p0 ws 0
    → ((x : ℕ) (t : Task) → 0 < count x ws → s.tasks x ≡ some t → s.tick ≤ t.end_of_sleep)
    → length ws < rounds
    → wake_sleepers walk rounds p0 s ≡ ok s
unfolding wake_sleepers
wake_sleepers_early walk zero s p0 ws seg early h = absurd (omega arith)
wake_sleepers_early walk (suc rounds) s p0 [] seg early h = rw (eq→== p0 0 seg)
wake_sleepers_early walk (suc rounds) s p0 (w ∷ ws) (e, pos, t, held, rest) early h =
    rw
      (
        e,
        load-ok s.tasks w t pos held,
        ne→== w 0 pos,
        le→ltb t.end_of_sleep s.tick (early w t (omega (arith, count_head w ws)) held),
        load-ok s.tasks w t pos held,
      )
      (wake_sleepers_early walk rounds s t.next ws rest (λ x u h'. early x u (omega (arith, h')))
        (omega arith))

-- The state at the tick that the callback handles.
abbrev pub ticked : Sched → Sched
ticked s = record s { tick = u32 (s.tick + 1) }

module _ (walk : ℕ) (regs : Regs) (s : Sched) (many : s.next_pid ≢ 1) where
  -- At a tick at which no sleeper's time has come, `timer_callback` counts the tick and switches
  -- tasks, and wakes nobody.
  pub timer_callback_early :
      (sleeping : List ℕ)
      → Seg s.tasks s.sleep_queue sleeping 0
      → ((x : ℕ) (t : Task)
          → 0 < count x sleeping
          → s.tasks x ≡ some t
          → u32 (s.tick + 1) ≤ t.end_of_sleep)
      → length sleeping < walk
      → timer_callback walk regs s ≡ switch_task walk regs (ticked s)
  unfolding timer_callback
  timer_callback_early sleeping chain early fuel = rw (
    ne→== s.next_pid 1 many,
    wake_sleepers_early walk walk (ticked s) s.sleep_queue sleeping chain early fuel,
  )

  -- At a tick at which `p` is the first sleeper whose time has come, `timer_callback` moves `p`
  -- alone to the end of the ready queue, awake, and switches tasks; the sleepers `ys` behind `p`
  -- stay in the sleep queue, also those whose time has come, and the other tasks keep their
  -- process numbers and wake-up ticks.
  pub timer_callback_wakes_one :
      (rs : List ℕ) (z : ℕ) (xs : List ℕ) (p : ℕ) (ys : List ℕ) (tp : Task)
      → Queues s (rs ++ (z ∷ [])) (xs ++ (p ∷ ys))
      → s.tasks p ≡ some tp
      → length rs + length xs + 2 ≤ walk
      → ((x : ℕ) (t : Task)
          → 0 < count x xs
          → s.tasks x ≡ some t
          → u32 (s.tick + 1) ≤ t.end_of_sleep)
      → tp.end_of_sleep < u32 (s.tick + 1)
      → (s' : Sched) × (timer_callback walk regs s ≡ switch_task walk regs s')
        × Queues s' ((rs ++ (z ∷ [])) ++ (p ∷ [])) (xs ++ ys)
        × (s'.tasks p ≡ some (record tp { end_of_sleep = 0; next = 0 }))
        × (s'.current_task ≡ s.current_task)
        × (s'.tick ≡ u32 (s.tick + 1))
        × SameBut p s.tasks s'.tasks
        × (s'.next_pid ≡ s.next_pid)
  unfolding timer_callback
  timer_callback_wakes_one rs z xs p ys tp queues held fuel early due =
      let queues' : Queues (ticked s) (rs ++ (z ∷ [])) (xs ++ (p ∷ ys)) = record {
        ready_chain = queues.ready_chain;
        sleep_chain = queues.sleep_chain;
        apart = queues.apart;
      } in
      let enough : length rs + length xs < walk = omega arith in
      let front = (Seg-at s.tasks s.sleep_queue xs p ys 0 queues.sleep_chain).0 in
      let (s', runs, woken) = wake-Woken walk (ticked s) rs z xs p ys tp queues' held enough in
      let loop =
        wake_sleepers_from walk (ticked s) rs z xs p ys tp queues' held enough walk s.sleep_queue xs
          front early due (omega arith) in
      (
        s',
        rw (ne→== s.next_pid 1 many, loop),
        woken.queues',
        woken.held',
        woken.same_task,
        woken.same_tick,
        woken.others,
        woken.same_pid,
      )
