-- ===== src/Tests/LockRuns.antt =====
-- luaMutex (main/Core_Level.c, components/FOS/fos_task.c) with two workers.
use clios.Prelude.{◌≡◌, refl, true, List, [], ◌∷◌, some}
use clios.Fos.Lock.{
  locking, worker, System, update, trigger, go_on, take, Event, main_event, work_event, lock,
  unlock, enter, suspend, work, here, next, Reach,
}
use clios.Fos.Lock.Exclusion.{mutual_exclusion}
use clios.Fos.Lock.Suspension.{suspended_owner_blocks}

abbrev start_events : List Event
start_events = main_event ∷ main_event ∷ []

-- Both workers are triggered and pass the test of their loop, and the first takes the mutex.
abbrev busy_events : List Event
busy_events =
    work_event 0 ∷ work_event 1 ∷ work_event 0 ∷ work_event 1 ∷ work_event 0 ∷ start_events

abbrev busy : (s : System) × Reach busy_events s
busy = (
  _,
  next
      (next
        (next
          (next (next (next (next here (lock refl refl)) (unlock refl)) (work 0 refl trigger))
            (work 1 refl trigger))
          (work 0 refl go_on))
        (work 1 refl go_on))
      (work 0 refl (take refl)),
)

abbrev busy_state : System
busy_state = busy.0

mutual_exclusion_example : (worker 0 ≡ worker 0) × (busy_state.owner ≡ some (worker 0))
mutual_exclusion_example = mutual_exclusion (worker 0) (worker 0) busy.1 refl refl

-- The first worker is suspended in its call; app_main has created the Lua task, which goes on.
abbrev hung : System
hung = record busy_state { suspended = update busy_state.suspended 0 true }

abbrev hung_later : System
hung_later = record hung { lua = true }

suspended_owner_blocks_example :
    (hung_later.place 1 ≡ locking) × (hung_later.owner ≡ some (worker 0))
suspended_owner_blocks_example =
    suspended_owner_blocks {s = hung} 0 1 (next busy.1 (suspend 0)) refl refl refl
      (next here (enter refl)) (λ e. cc, tt)
