-- ===== src/Fos/Task/Lifetime.antt =====
-- What the two sides of a task, components/FOS/fos_task.c, do to each other.
use clios.Prelude.{
  ℕ, zero, suc, ◌+◌, ◌≡◌, ◌≢◌, refl, sym, ap, ◌∙◌, true, List, [], ◌∷◌, Option, none, some, arith,
  if◌then◌else◌,
}
use clios.Fos.Task.{
  Worker, waiting, testing, taking, calling, finished, Task, task_start, task_stop, task_gc,
  receive, loop_test, enter_call, leave_call, work_at, worker_step, Step, start, stop, gc, work,
  step, run,
}

-- 1 where the worker has passed its test, but has not called the function yet.
abbrev pub committed : Worker → ℕ
committed waiting = 0
committed testing = 0
committed taking = 1
committed calling = 0
committed finished = 0

-- Stopped, and with a number of calls made and to come.
abbrev Stopped : ℕ → Task → Type 0
Stopped n t = (t.stop_flag ≡ true) × (t.calls + committed t.worker ≡ n)

access-Stopped :
    (n : ℕ) (t v u : Task)
    → (if t.allocated then some v else none) ≡ some u
    → Stopped n v
    → Stopped n u
access-Stopped n t v u e h = ground (arith, e, h.0, h.1)

receive-Stopped : (n m : ℕ) (t : Task) → t.worker ≡ waiting → Stopped n t → Stopped n (receive t m)
unfolding receive
receive-Stopped n zero t e h = h
receive-Stopped n (suc m) t e h = (h.0, sym (ap (λ w. t.calls + committed w) e) ∙ h.1)

work_at-Stopped :
    (n : ℕ) (w : Worker) (t u : Task)
    → t.worker ≡ w
    → Stopped n t
    → work_at w t ≡ some u
    → Stopped n u
unfolding work_at loop_test enter_call leave_call
work_at-Stopped n waiting t u w h e =
    access-Stopped n t (receive t t.pending) u e (receive-Stopped n t.pending t w h)
work_at-Stopped n testing t u w h e =
    access-Stopped n t (loop_test t) u e
      (let k = sym (ap (λ v. t.calls + committed v) w) ∙ h.1 in ground (arith, h.0, k))
work_at-Stopped n taking t u w h e =
    access-Stopped n t (enter_call t) u e
      (h.0, (let k = sym (ap (λ v. t.calls + committed v) w) ∙ h.1 in omega (arith, k)))
work_at-Stopped n calling t u w h e =
    let k = sym (ap (λ v. t.calls + committed v) w) ∙ h.1 in ground (arith, h.0, k, e)
work_at-Stopped n finished t u w h e = ground (arith, h.0, h.1, e)

step-Stopped : (n : ℕ) (x : Step) (t u : Task) → Stopped n t → step x t ≡ some u → Stopped n u
unfolding step task_start task_stop task_gc worker_step
step-Stopped n start t u h e = ground (arith, h.0, h.1, e)
step-Stopped n stop t u h e = ground (arith, h.0, h.1, e)
step-Stopped n gc t u h e = ground (arith, h.0, h.1, e)
step-Stopped n work t u h e = work_at-Stopped n t.worker t u refl h e

after_step :
    (n : ℕ) (xs : List Step) (u : Task) (o : Option Task)
    → ((v : Task) → o ≡ some v → run xs v ≡ some u → Stopped n u)
    → elim o as (λ _. Option Task) [ none ↦ none | some v ↦ run xs v ] ≡ some u
    → Stopped n u
after_step n xs u none k e = cc
after_step n xs u (some v) k e = k v refl e

run-Stopped : (n : ℕ) (xs : List Step) (t u : Task) → Stopped n t → run xs t ≡ some u → Stopped n u
unfolding run
run-Stopped n [] t u h e = ground (arith, h.0, h.1, e)
run-Stopped n (x ∷ xs) t u h e =
    after_step n xs u (step x t) (λ v i j. run-Stopped n xs v u (step-Stopped n x t v h i) j) e

-- Once stop_flag is set, whatever both sides do next, as long as none accesses the record after its
-- end: the worker calls the Lua function no more, but for one call if it has passed its test and
-- still waits for the mutex; the calls made and that one to come stay as many.
pub stopped_task_calls :
    (xs : List Step) (t u : Task)
    → t.stop_flag ≡ true
    → run xs t ≡ some u
    → u.calls + committed u.worker ≡ t.calls + committed t.worker
stopped_task_calls xs t u h e = (run-Stopped (t.calls + committed t.worker) xs t u (h, refl) e).1

-- When the handle is collected while the worker has not ended, the next step of the worker that is not
-- the end of a call accesses the record after its end.
gc_then_work : (t : Task) → t.worker ≢ finished → t.worker ≢ calling → run (gc ∷ work ∷ []) t ≡ none
unfolding run task_gc worker_step work_at
gc_then_work t h k = ground arith

-- When the worker of a stopped task tests its loop, it ends, and the next method of the handle or its
-- collection accesses the record after its end.
end_then_method :
    (t : Task) (x : Step)
    → t.worker ≡ testing
    → t.stop_flag ≡ true
    → x ≢ work
    → run (work ∷ x ∷ []) t ≡ none
unfolding run worker_step work_at loop_test task_start task_stop task_gc
end_then_method t start h k n = ground arith
end_then_method t stop h k n = ground arith
end_then_method t gc h k n = ground arith
end_then_method t work h k n = elim (n refl) [ ]
