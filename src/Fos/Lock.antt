-- ===== src/Fos/Lock.antt =====
-- luaMutex: the threads that run code of the one lua_State. `app_main` (main/Core_Level.c) holds the
-- mutex while it runs /home/boot.lua, a worker of the library `task` (components/FOS/fos_task.c)
-- around each call of its function, and `_HandleLuaCommand` not at all.
pub mod Exclusion
pub mod Suspension
use clios.Prelude.{
  ℕ, ◌≡◌, Bool, true, false, List, [], ◌∷◌, Option, none, some, ◌==◌, if◌then◌else◌,
}

-- Where app_main stands: before xSemaphoreTake, in the script, or after xSemaphoreGive, when it has
-- created the other tasks.
pub data Main : Type 0 where
  starting booting started : Main

-- Where a worker stands, the function lua_task: in xQueueReceive, at the test of its loop, in
-- xSemaphoreTake, between this and xSemaphoreGive, in vTaskDelayUntil, in luaL_unref, or after it.
pub data Place : Type 0 where
  idle testing locking calling delaying freeing ended : Place

pub data Thread : Type 0 where
  main : Thread
  worker : (i : ℕ) → Thread

-- The holder of luaMutex, the places of all threads, whether _HandleLuaCommand is between
-- ulTaskNotifyTake and the end of its loop, and which workers vTaskSuspend has stopped.
pub record System : Type 0 where
  pub owner : Option Thread
  pub boot : Main
  pub lua : Bool
  pub place : ℕ → Place
  pub suspended : ℕ → Bool

abbrev pub update {ℓ} : {A : Type ℓ} → (ℕ → A) → ℕ → A → ℕ → A
update f i a j = if i == j then a else f j

abbrev pub init : System
init = record {
  owner = none;
  boot = starting;
  lua = false;
  place = λ _. idle;
  suspended = λ _. false;
}

-- A step of the worker `i`. The flag that ends its loop is set by others, so that both results of
-- the test are possible. An error of the function is caught by lua_pcall.
pub data Move (i : ℕ) (m : Option Thread) : Place → Option Thread → Place → Type 0 where
  trigger : Move i m idle m testing
  go_on : Move i m testing m locking
  stop : Move i m testing m freeing
  take : m ≡ none → Move i m locking (some (worker i)) calling
  give : Move i m calling none delaying
  wake : Move i m delaying m testing
  unref : Move i m freeing m ended

pub data Event : Type 0 where
  main_event lua_event : Event
  suspend_event resume_event work_event : (i : ℕ) → Event

-- A step of app_main, of the Lua task, of a worker that is not suspended, or a call of task.suspend
-- or task.resume.
pub data Step (s : System) : Event → System → Type 0 where
  lock :
      s.boot ≡ starting
      → s.owner ≡ none
      → Step s main_event (record s { owner = some main; boot = booting })
  unlock : s.boot ≡ booting → Step s main_event (record s { owner = none; boot = started })
  enter : s.boot ≡ started → Step s lua_event (record s { lua = true })
  leave : Step s lua_event (record s { lua = false })
  suspend : (i : ℕ) → Step s (suspend_event i) (record s { suspended = update s.suspended i true })
  resume : (i : ℕ) → Step s (resume_event i) (record s { suspended = update s.suspended i false })
  work :
      (i : ℕ) {m : Option Thread} {p : Place}
      → s.suspended i ≡ false
      → Move i s.owner (s.place i) m p
      → Step s (work_event i) (record s { owner = m; place = update s.place i p })

-- The steps of all threads in their order.
pub data Steps (s : System) : List Event → System → Type 0 where
  here : Steps s [] s
  next :
      {es : List Event} {t u : System} {e : Event} → Steps s es t → Step t e u → Steps s (e ∷ es) u

-- The states from the start on.
abbrev pub Reach : List Event → System → Type 0
Reach es s = Steps init es s
