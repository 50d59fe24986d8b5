-- ===== src/Scheduler/Ticks.antt =====
-- `timer_callback` on a valid state, whatever the sleepers' times are.
use matanos.Base.{
  ℕ, ◌+◌, ◌<◌, ◌≤◌, ◌≡◌, refl, sym, ap, ◌∙◌, ◌≢◌, ◌⊎◌, inl, inr, some, List, [], ◌∷◌, ◌++◌, arith,
  ==→eq, ==→ne, Bool-cases, ◌==◌, ok, length-append, u32, snoc-cases, ltb, if◌then◌else◌,
}
use mathlib.Core.Path.{subst}
use matanos.Scheduler.{Task, Tasks, Sched, Regs, Transfer, timer_callback}
use matanos.Scheduler.Chain.{Seg, count, count-append, count_head, count-single_ne}
use matanos.Scheduler.Facts.{SameBut, facts}
use matanos.Scheduler.Leave.{Queues}
use matanos.Scheduler.Timer.{ticked, timer_callback_early, timer_callback_wakes_one}
use matanos.Scheduler.Valid.{
  IsValid, Numbered, Numbered-moved, Same-IsValid, switch_task-IsValid, wake_up, SameBut-number,
}

-- Every task of the list sleeps at least until `now`.
abbrev Early : Tasks → ℕ → List ℕ → Type 0
Early m now xs = (x : ℕ) (t : Task) → 0 < count x xs → m x ≡ some t → now ≤ t.end_of_sleep

Early-cons :
    (m : Tasks) (now w : ℕ) (ws : List ℕ) (t : Task)
    → m w ≡ some t
    → now ≤ t.end_of_sleep
    → Early m now ws
    → Early m now (w ∷ ws)
Early-cons m now w ws t held late early x u among held_u = elim (Bool-cases (x == w)) [
  | inl e ↦
      let both : some u ≡ some t = sym held_u ∙ ap (λ y. m y) (==→eq x w e) ∙ held in
      let same : u ≡ t = cc in subst (λ (v : Task). now ≤ v.end_of_sleep) (sym same) late
  | inr n ↦
      let other : ◌≡◌ {A = ℕ} (if x == w then 1 else 0) 0 = rw n refl in
      early x u (omega (arith, among, other)) held_u
]

-- The first sleeper whose time has come, with the sleepers in front of it and behind it.
record Due (m : Tasks) (now : ℕ) (sleeping : List ℕ) : Type 0 where
  front : List ℕ
  first : ℕ
  later : List ℕ
  task : Task
  split : sleeping ≡ front ++ (first ∷ later)
  held : m first ≡ some task
  early : Early m now front
  due : task.end_of_sleep < now

first-Due :
    (m : Tasks) (now p : ℕ) (sleeping : List ℕ)
    → Seg m p sleeping 0
    → Early m now sleeping ⊎ Due m now sleeping
first-Due m now p [] chain = inl (λ x t among held. absurd (omega arith))
first-Due m now p (w ∷ ws) (e, pos, t, held, rest) = elim (Bool-cases (ltb t.end_of_sleep now)) [
  | inl due ↦ inr (record {
    front = [];
    first = w;
    later = ws;
    task = t;
    split = refl;
    held = held;
    early = λ x u among h. absurd (omega arith);
    due = ground arith;
  })
  | inr late ↦ elim (first-Due m now t.next ws rest) [
    | inl early ↦ inl (Early-cons m now w ws t held (ground arith) early)
    | inr d ↦ inr (record {
      front = w ∷ d.front;
      first = d.first;
      later = d.later;
      task = d.task;
      split = ap (λ l. w ∷ l) d.split;
      held = d.held;
      early = Early-cons m now w d.front t held (ground arith) d.early;
      due = d.due;
    })
  ]
]

-- Counting the tick keeps a state valid.
ticked-IsValid :
    (n : ℕ) (s : Sched) (ready sleeping : List ℕ)
    → IsValid n s ready sleeping
    → IsValid n (ticked s) ready sleeping
ticked-IsValid n s ready sleeping valid =
    Same-IsValid n s (ticked s) ready sleeping valid
      (record {
        ready_chain = valid.queues.ready_chain;
        sleep_chain = valid.queues.sleep_chain;
        apart = valid.queues.apart;
      })
      (λ x. refl) valid.running refl

-- One sleeper has moved to the end of the ready queue, awake.
woken-IsValid :
    (n : ℕ) (s s' : Sched) (ready xs : List ℕ) (p : ℕ) (ys : List ℕ) (tp tp' : Task)
    → IsValid n s ready (xs ++ (p ∷ ys))
    → Queues s' (ready ++ (p ∷ [])) (xs ++ ys)
    → s.tasks p ≡ some tp
    → s'.tasks p ≡ some tp'
    → tp'.id ≡ tp.id
    → tp'.end_of_sleep ≡ 0
    → SameBut p s.tasks s'.tasks
    → s'.current_task ≡ s.current_task
    → s'.next_pid ≡ s.next_pid
    → IsValid n s' (ready ++ (p ∷ [])) (xs ++ ys)
woken-IsValid n s s' ready xs p ys tp tp' valid queues held held' same_id up same task pid =
    record {
      queues = queues;
      running =
          subst (λ c. 0 < count c (ready ++ (p ∷ []))) (sym task)
            (omega (arith, valid.running, count-append s.current_task ready (p ∷ [])));
      awake = λ x i k among e. elim (Bool-cases (x == p)) [
        | inl is_p ↦
            ap (λ o. wake_up o) (sym e)
            ∙ ap (λ y. wake_up (facts (s'.tasks y))) (==→eq x p is_p)
            ∙ ap (λ o. wake_up (facts o)) held'
            ∙ up
        | inr n ↦
            let ne = ==→ne x p n in
            valid.awake x i k
              (omega (arith, among, count-append x ready (p ∷ []), count-single_ne x p ne))
              (sym (same x ne) ∙ e)
      ];
      asleep = λ x i k among e.
          valid.asleep x i k (omega (arith, among, moved x)) (sym (same x (other x among)) ∙ e);
      numbered =
          subst (λ next. Numbered s'.tasks next (ready ++ (p ∷ [])) (xs ++ ys)) (sym pid)
            (Numbered-moved s.tasks s'.tasks s.next_pid ready (xs ++ (p ∷ ys)) (ready ++ (p ∷ []))
              (xs ++ ys) (SameBut-number s.tasks s'.tasks p tp tp' same held held' same_id)
              (λ x. omega (arith, moved x, count-append x ready (p ∷ []))) valid.numbered);
      total = omega (
        arith,
        valid.total,
        length-append ready (p ∷ []),
        length-append xs ys,
        length-append xs (p ∷ ys),
      );
      pids = pid ∙ valid.pids;
    }
  where
    moved : (x : ℕ) → count x (xs ++ (p ∷ ys)) ≡ count x (xs ++ ys) + count x (p ∷ [])
    moved x =
        omega (arith, count-append x xs ys, count-append x xs (p ∷ ys), count-append x (p ∷ []) ys)

    other : (x : ℕ) → 0 < count x (xs ++ ys) → x ≢ p
    other x among e = absurd (
        omega (
          arith,
          valid.queues.apart p,
          moved p,
          count_head p [],
          ap (λ y. count y (xs ++ ys)) e,
          among,
        ))

module _ (walk : ℕ) (regs : Regs) (n : ℕ) (s : Sched) (first : regs.eip ≢ 0x12345)
    (fuel : n + 3 ≤ walk) where
  abbrev Ticks : List ℕ → List ℕ → Type 0
  Ticks ready sleeping =
      IsValid n s ready sleeping
      → (ready' : List ℕ) × (sleeping' : List ℕ) × (s' : Sched) × (t : Transfer) × (timer_callback
            walk regs s
          ≡ ok (s', t))
        × IsValid n s' ready' sleeping'

  many : (ready sleeping : List ℕ) → IsValid n s ready sleeping → s.next_pid ≢ 1
  many ready sleeping valid = omega (arith, valid.pids)

  tick-Early :
      (ready sleeping : List ℕ) → Early s.tasks (u32 (s.tick + 1)) sleeping → Ticks ready sleeping
  tick-Early ready sleeping early valid =
      let (s', t, runs, valid') =
        switch_task-IsValid walk regs n (ticked s) first ready sleeping
          (ticked-IsValid n s ready sleeping valid) in
      (
        ready,
        sleeping,
        s',
        t,
        timer_callback_early walk regs s (many ready sleeping valid) sleeping
              valid.queues.sleep_chain early (omega (arith, fuel, valid.total))
            ∙ runs,
        valid',
      )

  tick-Due :
      (rs : List ℕ) (z : ℕ) (xs : List ℕ) (p : ℕ) (ys : List ℕ) (tp : Task)
      → s.tasks p ≡ some tp
      → Early s.tasks (u32 (s.tick + 1)) xs
      → tp.end_of_sleep < u32 (s.tick + 1)
      → Ticks (rs ++ (z ∷ [])) (xs ++ (p ∷ ys))
  tick-Due rs z xs p ys tp held early due valid =
      let (s1, wakes, queues, held1, same_task, same_tick, same, same_pid) =
        timer_callback_wakes_one walk regs s (many (rs ++ (z ∷ [])) (xs ++ (p ∷ ys)) valid) rs z xs
          p ys tp valid.queues held
          (omega (arith, fuel, valid.total, length-append rs (z ∷ []), length-append xs (p ∷ ys)))
          early due in
      let (s', t, runs, valid') =
        switch_task-IsValid walk regs n s1 first ((rs ++ (z ∷ [])) ++ (p ∷ [])) (xs ++ ys) (
          woken-IsValid n s s1 (rs ++ (z ∷ [])) xs p ys tp
            (record tp { end_of_sleep = 0; next = 0 }) valid queues held held1 refl refl same
            same_task same_pid) in
      ((rs ++ (z ∷ [])) ++ (p ∷ []), xs ++ ys, s', t, wakes ∙ runs, valid')

  -- On a valid state with `n + 1` tasks `timer_callback` returns and leaves a valid state.
  pub timer_callback-IsValid : (ready sleeping : List ℕ) → Ticks ready sleeping
  timer_callback-IsValid ready sleeping valid =
      elim (first-Due s.tasks (u32 (s.tick + 1)) s.sleep_queue sleeping valid.queues.sleep_chain) [
        | inl early ↦ tick-Early ready sleeping early valid
        | inr d ↦ elim (snoc-cases ready) [
          | inl empty ↦
              absurd (omega (arith, valid.running, ap (λ l. count s.current_task l) empty))
          | inr (rs, z, e) ↦
              subst (λ l. Ticks l sleeping) (sym e)
                (subst (λ l. Ticks (rs ++ (z ∷ [])) l) (sym d.split)
                  (tick-Due rs z d.front d.first d.later d.task d.held d.early d.due))
                valid
        ]
      ]
