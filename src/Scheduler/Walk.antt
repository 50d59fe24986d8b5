-- ===== src/Scheduler/Walk.antt =====
-- The walks through a queue: to its last task, and to the task before a given one.
use matanos.Base.{ℕ, zero, suc, ◌<◌, ◌≡◌, List, [], ◌∷◌, ◌++◌, arith, eq→==, ne→==, ok, length}
use matanos.Scheduler.{Tasks, last_task, task_before}
use matanos.Scheduler.Chain.{Seg, count, load-ok, Seg-start_ne, Seg-start_pos}

-- The walk to the task before `c` ends at the task in front of it.
pub task_before-Seg :
    (fuel : ℕ) (m : Tasks) (p : ℕ) (xs : List ℕ) (x c : ℕ)
    → Seg m p (xs ++ (x ∷ [])) c
    → count c (xs ++ (x ∷ [])) ≡ 0
    → length xs < fuel
    → task_before fuel m c p ≡ ok x
unfolding task_before
task_before-Seg zero m p xs x c s out h = absurd (omega arith)
task_before-Seg (suc fuel) m p [] x c (e, pos, t, held, last) out h =
    rw (e, load-ok m x t pos held, eq→== t.next c last)
task_before-Seg (suc fuel) m p (y ∷ xs) x c (e, pos, t, held, rest) out h =
    rw
      (
        e,
        load-ok m y t pos held,
        ne→== t.next c (Seg-start_ne m t.next xs x c c rest (omega (arith, out))),
      )
      (task_before-Seg fuel m t.next xs x c rest (omega (arith, out)) (omega arith))

-- The walk to the end stops at the last task.
pub last_task-Seg :
    (fuel : ℕ) (m : Tasks) (p : ℕ) (xs : List ℕ) (x : ℕ)
    → Seg m p (xs ++ (x ∷ [])) 0
    → length xs < fuel
    → last_task fuel m p ≡ ok x
unfolding last_task
last_task-Seg zero m p xs x s h = absurd (omega arith)
last_task-Seg (suc fuel) m p [] x (e, pos, t, held, last) h =
    rw (e, load-ok m x t pos held, eq→== t.next 0 last)
last_task-Seg (suc fuel) m p (y ∷ xs) x (e, pos, t, held, rest) h =
    rw (e, load-ok m y t pos held, ne→== t.next 0 (Seg-start_pos m t.next xs x 0 rest))
      (last_task-Seg fuel m t.next xs x rest (omega arith))
