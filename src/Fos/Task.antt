-- ===== src/Fos/Task.antt =====
-- The life of a task of the library `task`, components/FOS/fos_task.c, once L_TASK_CREATE has returned
-- its handle: the Lua side and the worker share one lua_task_param_t.
pub mod Create
pub mod Lifetime
use clios.Prelude.{
  ℕ, zero, suc, ◌+◌, Bool, true, false, ltb, List, [], ◌∷◌, Option, none, some, if◌then◌else◌,
}

-- Where the worker, the function lua_task, stands: in xQueueReceive, at the test of its loop, past the
-- test in xSemaphoreTake, in lua_pcall with the mutex, or after the vTaskDelete of itself.
pub data Worker : Type 0 where
  waiting testing taking calling finished : Worker

-- Whether the record is allocated, its stop_flag, the messages in its queue, the worker, and how often
-- the worker has called the Lua function.
pub record Task : Type 0 where
  pub allocated : Bool
  pub stop_flag : Bool
  pub pending : ℕ
  pub worker : Worker
  pub calls : ℕ

abbrev pub created : Task
created = record { allocated = true; stop_flag = false; pending = 0; worker = waiting; calls = 0 }

-- An access to the record through a pointer, `none` after it was freed; for a worker that waits, to
-- the queue, which is deleted with it.
abbrev access : Task → Task → Option Task
access t u = if t.allocated then some u else none

-- L_TASK_START: xQueueSend without waiting, to a queue of 10.
unfoldable pub task_start : Task → Option Task
task_start t =
    access t (record t { pending = if ltb t.pending 10 then t.pending + 1 else t.pending })

-- L_TASK_STOP.
unfoldable pub task_stop : Task → Option Task
task_stop t = access t (record t { stop_flag = true })

-- L_TASK_GC, the collection of the handle.
unfoldable pub task_gc : Task → Option Task
task_gc t = access t (record t { stop_flag = true; allocated = false })

-- xQueueReceive of the worker, which blocks on an empty queue.
unfoldable pub receive : Task → ℕ → Task
receive t zero = t
receive t (suc n) = record t { pending = n; worker = testing }

-- The test of the worker's loop: the end of the task, which frees the record, or on to the mutex.
unfoldable pub loop_test : Task → Task
loop_test t =
    if t.stop_flag
    then record t { allocated = false; worker = finished }
    else record t { worker = taking }

-- xSemaphoreTake has returned: the function is read from the record and lua_pcall begins.
unfoldable pub enter_call : Task → Task
enter_call t = record t { calls = t.calls + 1; worker = calling }

-- lua_pcall has returned, xSemaphoreGive and vTaskDelayUntil, which do not access the record.
unfoldable pub leave_call : Task → Task
leave_call t = record t { worker = testing }

unfoldable pub work_at : Worker → Task → Option Task
unfolding receive loop_test enter_call leave_call
work_at waiting t = access t (receive t t.pending)
work_at testing t = access t (loop_test t)
work_at taking t = access t (enter_call t)
work_at calling t = some (leave_call t)
work_at finished t = some t

-- The next step of lua_task. A worker that waits for the mutex or for time makes none meanwhile.
unfoldable pub worker_step : Task → Option Task
unfolding work_at
worker_step t = work_at t.worker t

-- A call of a method, the collection of the handle, or a step of the worker.
pub data Step : Type 0 where
  start stop gc work : Step

unfoldable pub step : Step → Task → Option Task
unfolding task_start task_stop task_gc worker_step
step start t = task_start t
step stop t = task_stop t
step gc t = task_gc t
step work t = worker_step t

-- The steps of both sides in their order; `none` where one of them accesses the record after its end.
unfoldable pub run : List Step → Task → Option Task
unfolding step
run [] t = some t
run (x ∷ xs) t = elim (step x t) [ none ↦ none | some u ↦ run xs u ]
