-- ===== src/Scheduler/Rotation.antt =====
-- Repeated switches of `switch_task` reach every task of the ready queue.
use matanos.Base.{
  ℕ, zero, suc, ◌+◌, ◌≤◌, ◌<◌, ◌≡◌, refl, sym, ap, ◌∙◌, ◌≢◌, inl, inr, List, [], ◌∷◌, ◌++◌, arith,
  append_assoc, length, length-append, ok, some, Run, ◌==◌, if◌then◌else◌, Bool-cases, ==→eq, ==→ne,
  ◌>>=◌,
}
use mathlib.Core.Path.{subst}
use matanos.Scheduler.{Task, Tasks, Sched, Regs, Transfer, switch_task, store}
use matanos.Scheduler.Chain.{Seg, count, count-append, count_head, Seg-at, store_self, store_ne}
use matanos.Scheduler.Leave.{Queues}
use matanos.Scheduler.Switch.{next_of, saved, Running, switched, switch_task_awake}

-- No task of the list is asleep.
abbrev pub Awake : Tasks → List ℕ → Type 0
Awake m xs = (x : ℕ) → 0 < count x xs → (t : Task) → m x ≡ some t → t.end_of_sleep ≡ 0

-- Where a member stands in its list.
pub place_of :
    (y : ℕ) (xs : List ℕ) → 0 < count y xs → (p : List ℕ) × (q : List ℕ) × (xs ≡ p ++ (y ∷ q))
place_of y [] h = absurd (omega arith)
place_of y (x ∷ xs) h = elim (Bool-cases (y == x)) [
  | inl e ↦ ([], xs, ap (λ v. v ∷ xs) (sym (==→eq y x e)))
  | inr n ↦
      let absent : ◌≡◌ {A = ℕ} (if y == x then 1 else 0) 0 = rw n refl in
      let (p, q, e) = place_of y xs (omega (arith, h, absent)) in (x ∷ p, q, ap (λ l. x ∷ l) e)
]

-- A list that is not empty has a last element.
pub last_of : (x : ℕ) (xs : List ℕ) → (p : List ℕ) × (z : ℕ) × (x ∷ xs ≡ p ++ (z ∷ []))
last_of x [] = ([], x, refl)
last_of x (y ∷ xs) = let (p, z, e) = last_of y xs in (x ∷ p, z, ap (λ l. x ∷ l) e)

Awake-store :
    (m : Tasks) (c : ℕ) (t t' : Task) (xs : List ℕ)
    → m c ≡ some t
    → t'.end_of_sleep ≡ t.end_of_sleep
    → Awake m xs
    → Awake (store m c t') xs
Awake-store m c t t' xs held same awake x among u held_u = elim (Bool-cases (x == c)) [
  | inl e ↦
      let at : x ≡ c = ==→eq x c e in
      let stored : some t' ≡ some u =
        sym (store_self m c t') ∙ ap (λ y. store m c t' y) (sym at) ∙ held_u in
      ap (λ (v : Task). v.end_of_sleep) (sym (some_eq t' u stored))
      ∙ same
      ∙ awake c (subst (λ y. 0 < count y xs) at among) t held
  | inr n ↦ awake x among u (sym (store_ne m c x t' (==→ne x c n)) ∙ held_u)
]
  where
    some_eq : (t u : Task) → some t ≡ some u → t ≡ u
    some_eq t u e = cc

module _ (walk : ℕ) (regs : ℕ → Regs) where
  -- `n` switches; `regs` are the registers at each, the first of them with the number `i`.
  abbrev pub switches : (i n : ℕ) → Sched → Run Sched
  switches i zero s = ok s
  switches i (suc n) s = switch_task walk (regs i) s >>= λ r. switches (suc i) n (r.0)

  -- What `n` switches from the `i`-th on have made of `s`, with `y` running then.
  record Switched (xs sleeping : List ℕ) (i n y : ℕ) (s s' : Sched) : Type 0 where
    runs : (k : ℕ) → switches i (n + k) s ≡ switches (i + n) k s'
    current : s'.current_task ≡ y
    queues : Queues s' xs sleeping
    awake : Awake s'.tasks xs

  Switched-trans :
      (xs sleeping : List ℕ) (i n n' y y' : ℕ) (s s' s'' : Sched)
      → Switched xs sleeping i n y s s'
      → Switched xs sleeping (i + n) n' y' s' s''
      → Switched xs sleeping i (n + n') y' s s''
  Switched-trans xs sleeping i n n' y y' s s' s'' f g = record {
    runs = λ k.
        let more : n + n' + k ≡ n + (n' + k) = omega arith in
        let later : i + (n + n') ≡ i + n + n' = omega arith in
        ap (λ r. switches i r s) more
        ∙ f.runs (n' + k)
        ∙ g.runs k
        ∙ ap (λ r. switches r k s'') (sym later);
    current = g.current;
    queues = g.queues;
    awake = g.awake;
  }

  all_runs :
      (xs sleeping : List ℕ) (n y : ℕ) (s s' : Sched)
      → Switched xs sleeping 0 n y s s'
      → switches 0 n s ≡ ok s'
  all_runs xs sleeping n y s s' f =
      let whole : n + 0 ≡ n = omega arith in ap (λ k. switches 0 k s) (sym whole) ∙ f.runs 0

  one_switch :
      (i k : ℕ) (s s' : Sched) (t : Transfer)
      → switch_task walk (regs i) s ≡ ok (s', t)
      → switches i (1 + k) s ≡ switches (i + 1) k s'
  one_switch i k s s' t run =
      let more : 1 + k ≡ suc k = omega arith in
      let later : i + 1 ≡ suc i = omega arith in rw (more, later, run) refl

  switch_once :
      (i : ℕ) (a b xs sleeping : List ℕ) (s : Sched)
      → xs ≡ a ++ (s.current_task ∷ b)
      → Queues s xs sleeping
      → Awake s.tasks xs
      → 0 < length a + length b
      → (regs i).eip ≢ 0x12345
      → (s' : Sched) × Switched xs sleeping i 1 (next_of a b) s s'
  switch_once i a b xs sleeping s e queues awake company first =
      let chain = subst (λ l. Seg s.tasks s.ready_queue l 0) e queues.ready_chain in
      let (front, pos, tc, held, back) = Seg-at s.tasks s.ready_queue a s.current_task b 0 chain in
      let here = subst (λ l. Queues s l sleeping) e queues in
      let running : Running s (regs i) a tc b = record {
        held = held;
        chain = chain;
        apart = λ x. omega (arith, here.apart x);
        company = company;
        first_return = first;
      } in
      let among : 0 < count s.current_task xs = omega (
        arith,
        ap (λ l. count s.current_task l) e,
        count-append s.current_task a (s.current_task ∷ b),
        count_head s.current_task b,
      ) in
      let (tn, held_n, run, queues') =
        switch_task_awake walk s (regs i) a tc b running sleeping here
          (awake s.current_task among tc held) in
      let s' =
        switched walk s (regs i) a tc b running (store s.tasks s.current_task (saved tc (regs i)))
          s.ready_queue tn in
      (
        s',
        record {
          runs = λ k. one_switch i k s s' _ run;
          current = refl;
          queues = subst (λ l. Queues s' l sleeping) (sym e) queues';
          awake = Awake-store s.tasks s.current_task tc (saved tc (regs i)) xs held refl awake;
        },
      )

  -- To a task further on in the queue.
  advance :
      (i : ℕ) (a mid q xs sleeping : List ℕ) (y : ℕ) (s : Sched)
      → xs ≡ a ++ (s.current_task ∷ (mid ++ (y ∷ q)))
      → Queues s xs sleeping
      → Awake s.tasks xs
      → ((k : ℕ) → (regs k).eip ≢ 0x12345)
      → (s' : Sched) × Switched xs sleeping i (suc (length mid)) y s s'
  advance i a [] q xs sleeping y s e queues awake first =
      switch_once i a (y ∷ q) xs sleeping s e queues awake (omega arith) (first i)
  advance i a (w ∷ mid) q xs sleeping y s e queues awake first =
      let (s1, step) =
        switch_once i a (w ∷ (mid ++ (y ∷ q))) xs sleeping s e queues awake (omega arith)
          (first i) in
      let e1 : xs ≡ (a ++ (s.current_task ∷ [])) ++ (s1.current_task ∷ (mid ++ (y ∷ q))) =
        e
        ∙ sym (append_assoc a (s.current_task ∷ []) (w ∷ (mid ++ (y ∷ q))))
        ∙ ap (λ v. (a ++ (s.current_task ∷ [])) ++ (v ∷ (mid ++ (y ∷ q)))) (sym step.current) in
      let (s2, rest) =
        advance (i + 1) (a ++ (s.current_task ∷ [])) mid q xs sleeping y s1 e1 step.queues
          step.awake first in
      (
        s2,
        subst (λ n. Switched xs sleeping i n y s s2) (omega arith)
            (Switched-trans xs sleeping i 1 (suc (length mid)) w y s s1 s2 step rest),
      )

  -- From the last task of the queue to a task of its beginning.
  around :
      (i : ℕ) (a mid q xs sleeping : List ℕ) (y : ℕ) (s : Sched)
      → xs ≡ a ++ (s.current_task ∷ [])
      → a ≡ mid ++ (y ∷ q)
      → Queues s xs sleeping
      → Awake s.tasks xs
      → ((k : ℕ) → (regs k).eip ≢ 0x12345)
      → (s' : Sched) × Switched xs sleeping i (suc (length mid)) y s s'
  around i a [] q xs sleeping y s e split queues awake first =
      switch_once i (y ∷ q) [] xs sleeping s (e ∙ ap (λ l. l ++ (s.current_task ∷ [])) split) queues
        awake (omega arith) (first i)
  around i a (h ∷ mid) q xs sleeping y s e split queues awake first =
      let whole = e ∙ ap (λ l. l ++ (s.current_task ∷ [])) split in
      let (s1, step) =
        switch_once i (h ∷ (mid ++ (y ∷ q))) [] xs sleeping s whole queues awake (omega arith)
          (first i) in
      let (s2, rest) =
        advance (i + 1) [] mid (q ++ (s.current_task ∷ [])) xs sleeping y s1
          (whole
            ∙ ap (λ l. h ∷ l) (append_assoc mid (y ∷ q) (s.current_task ∷ []))
            ∙ ap (λ v. v ∷ (mid ++ (y ∷ (q ++ (s.current_task ∷ []))))) (sym step.current))
          step.queues step.awake first in
      (
        s2,
        subst (λ n. Switched xs sleeping i n y s s2) (omega arith)
            (Switched-trans xs sleeping i 1 (suc (length mid)) h y s s1 s2 step rest),
      )

  -- To a task further ahead in the queue, over its end.
  over_the_end :
      (a b mid q xs sleeping : List ℕ) (y : ℕ) (s : Sched)
      → xs ≡ a ++ (s.current_task ∷ b)
      → a ≡ mid ++ (y ∷ q)
      → Queues s xs sleeping
      → Awake s.tasks xs
      → ((k : ℕ) → (regs k).eip ≢ 0x12345)
      → (s' : Sched) × Switched xs sleeping 0 (length b + suc (length mid)) y s s'
  over_the_end a [] mid q xs sleeping y s e split queues awake first =
      let (s', done) = around 0 a mid q xs sleeping y s e split queues awake first in
      (s', subst (λ n. Switched xs sleeping 0 n y s s') (omega arith) done)
  over_the_end a (x ∷ b) mid q xs sleeping y s e split queues awake first =
      let (p, z, last) = last_of x b in
      let (s1, ahead) =
        advance 0 a p [] xs sleeping z s (e ∙ ap (λ l. a ++ (s.current_task ∷ l)) last) queues awake
          first in
      let here : xs ≡ (a ++ (s.current_task ∷ p)) ++ (s1.current_task ∷ []) =
        e
        ∙ ap (λ l. a ++ (s.current_task ∷ l)) last
        ∙ sym (append_assoc a (s.current_task ∷ p) (z ∷ []))
        ∙ ap (λ v. (a ++ (s.current_task ∷ p)) ++ (v ∷ [])) (sym ahead.current) in
      let (s2, back) =
        around (0 + suc (length p)) (a ++ (s.current_task ∷ p)) mid (q ++ (s.current_task ∷ p)) xs
          sleeping y s1 here
          (ap (λ l. l ++ (s.current_task ∷ p)) split
            ∙ append_assoc mid (y ∷ q) (s.current_task ∷ p))
          ahead.queues ahead.awake first in
      (
        s2,
        subst (λ n. Switched xs sleeping 0 n y s s2)
            (omega (arith, ap (λ l. length l) last, length-append p (z ∷ [])))
            (Switched-trans xs sleeping 0 (suc (length p)) (suc (length mid)) z y s s1 s2 ahead
              back),
      )

  -- A ready queue whose tasks are all awake, while `read_eip` does not give 0x12345, the mark of a
  -- task that resumes. Every other task of the queue comes to run, after at most as many switches as
  -- there are other tasks, and the queues are as before then.
  pub switches-reach :
      (a b sleeping : List ℕ) (y : ℕ) (s : Sched)
      → Queues s (a ++ (s.current_task ∷ b)) sleeping
      → Awake s.tasks (a ++ (s.current_task ∷ b))
      → ((k : ℕ) → (regs k).eip ≢ 0x12345)
      → 0 < count y a + count y b
      → (n : ℕ) × (s' : Sched) × (n ≤ length a + length b)
        × (switches 0 n s ≡ ok s')
        × (s'.current_task ≡ y)
        × Queues s' (a ++ (s.current_task ∷ b)) sleeping
  switches-reach a b sleeping y s queues awake first member =
      let xs = a ++ (s.current_task ∷ b) in
      elim (Bool-cases (count y b == 0)) [
        | inr behind ↦
            let (mid, q, split) = place_of y b (ground (arith, ==→ne (count y b) 0 behind)) in
            let (s', done) =
              advance 0 a mid q xs sleeping y s (ap (λ l. a ++ (s.current_task ∷ l)) split) queues
                awake first in
            (
              suc (length mid),
              s',
              omega (arith, ap (λ l. length l) split, length-append mid (y ∷ q)),
              all_runs xs sleeping _ y s s' done,
              done.current,
              done.queues,
            )
        | inl ahead ↦
            let (mid, q, split) =
              place_of y a (ground (arith, member, ==→eq (count y b) 0 ahead)) in
            let (s', done) = over_the_end a b mid q xs sleeping y s refl split queues awake first in
            (
              length b + suc (length mid),
              s',
              omega (arith, ap (λ l. length l) split, length-append mid (y ∷ q)),
              all_runs xs sleeping _ y s s' done,
              done.current,
              done.queues,
            )
      ]
