-- ===== src/Tests/TaskRuns.antt =====
-- The library `task` (components/FOS/fos_task.c) in short orders of steps.
use clios.Prelude.{◌+◌, ◌≡◌, refl, true, false, [], ◌∷◌, some}
use clios.Driver.{World, Machine, Call, malloc, free, driver, open_socket, close_socket}
use clios.Prelude.Int.{ℤ, pos}
use clios.Fos.Task.Create.{Tasks}
use clios.Fos.Task.{Task, created, testing, taking, finished, start, work, run}
use clios.Fos.Task.Lifetime.{committed, stopped_task_calls}

-- Started, and run twice.
abbrev busy : Task
busy = record { allocated = true; stop_flag = false; pending = 0; worker = testing; calls = 2 }

started_runs : run (start ∷ work ∷ work ∷ work ∷ work ∷ work ∷ work ∷ work ∷ []) created ≡ some busy
unfolding run
started_runs = refl

-- Stopped while it waits for the mutex, and then once more at its test.
abbrev waits : Task
waits = record busy { stop_flag = true; worker = taking }

abbrev over : Task
over = record busy { stop_flag = true; worker = finished; calls = 3; allocated = false }

stopped_task_calls_example :
    over.calls + committed over.worker ≡ waits.calls + committed waits.worker
unfolding run
stopped_task_calls_example = stopped_task_calls (work ∷ work ∷ work ∷ []) waits over refl refl

abbrev full_answer : Call → ℤ
full_answer (malloc n) = pos 64
full_answer (free p) = pos 0
full_answer (driver f xs) = pos 2
full_answer (open_socket f xs) = pos 3
full_answer (close_socket c) = pos 0

-- malloc returns the block 64, and no task is created.
abbrev full : World
full = record {
  answer = λ calls c. full_answer c;
  stored = λ calls c. [];
  exhausted = λ calls. false;
}

abbrev nothing_yet : Machine Tasks
nothing_yet = record { own = record { refs = []; task_handle = pos 0; timer = pos 0 }; trace = [] }
