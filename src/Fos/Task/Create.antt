-- ===== src/Fos/Task/Create.antt =====
-- `create`, `suspend`, `resume` and `delay` of components/FOS/fos_task.c.
pub mod Failure
use clios.Prelude.{codes, List, [], ◌∷◌, if◌then◌else◌}
use clios.Prelude.Int.{ℤ, pos, to_int, to_u8, to_u32, eqb_ℤ}
use clios.Lua.{
  Slot, slot, Value, nil, userdata, bad_argument, M, ◌>>=◌, ◌>>◌, pure, raise, undefined_access,
  check_udata, check_integer, opt_integer, opt_string, is_kind, function_kind,
}
use clios.Driver.{
  new_userdata, Arg, int, bytes, malloc, free, driver, World, Machine, own_of, set_own, perform,
  perform_, fetch, is_null, first_stored,
}
use Prim.Native.String.{String}

-- The references to functions that the registry of Lua holds for tasks, the latest first, and of the
-- record behind a handle what `Task` leaves out, task_handle and timer.
pub record Tasks : Type 0 where
  pub refs : List ℤ
  pub task_handle : ℤ
  pub timer : ℤ

abbrev pub K : Type 0 → Type 0
K A = M (Machine Tasks) A

-- luaL_checktype (L, 1, LUA_TFUNCTION).
abbrev check_type : List Slot → K (Unit {0})
check_type args = if is_kind function_kind (slot args 1) then pure tt else raise (bad_argument 1)

-- _timer, where 0 stands for 100.
abbrev pub timer_of : ℤ → ℤ
timer_of z = if is_null (to_int z) then pos 100 else to_int z

-- luaL_ref on the function.
unfoldable pub take_ref : World → K (Unit {0})
take_ref w = do
  ref ← perform w (driver "luaL_ref" [])
  d ← own_of
  set_own (record d { refs = ref ∷ d.refs })

-- xTaskCreate and its two results; a StackType_t has one byte in ESP-IDF. pdPASS is 1.
unfoldable pub create_worker : World → ℤ → ℤ → List Arg → K (List Value)
create_worker w param queue config =
    fetch w (driver "xTaskCreate" (int param ∷ config)) >>= λ (res, handle).
    (own_of >>= λ d.
    set_own (record d { task_handle = first_stored handle })
    >> (if eqb_ℤ res (pos 1)
        then (new_userdata w >>= λ task. pure (task ∷ []))
        else (perform_ w (driver "vQueueDelete" (int queue ∷ []))
            >> (perform_ w (free param) >> pure (nil ∷ [])))))

-- L_TASK_CREATE from malloc on; the record has 24 bytes. The result of malloc is not tested.
unfoldable pub make_task : World → ℤ → List Arg → K (List Value)
unfolding create_worker
make_task w timer config = perform w (malloc (pos 24)) >>= λ param.
    if is_null param
    then undefined_access
    else (own_of >>= λ d.
        set_own (record d { timer = timer })
        >> (perform w (driver "xQueueCreate" (int (pos 10) ∷ int (pos 4) ∷ [])) >>= λ queue.
            create_worker w param queue config))

-- L_TASK_CREATE.
unfoldable pub task_create : World → List Slot → K (List Value)
unfolding take_ref make_task
task_create w args = do
  check_type args
  stack_size ← opt_integer args 2 (pos 2048)
  priority ← opt_integer args 3 (pos 1)
  name ← opt_string args 4 (codes "Task")
  timer ← opt_integer args 5 (pos 100)
  take_ref w
  make_task w (timer_of timer)
      (bytes name ∷ int (pos (to_u32 stack_size)) ∷ int (pos (to_u8 priority)) ∷ [])

-- L_TASK_SUSPEND, with "vTaskSuspend", and L_TASK_RESUME, with "vTaskResume", on a record in use.
unfoldable pub task_call : World → String → List Slot → K (List Value)
task_call w f args = do
  check_udata "TaskMT" args 1
  d ← own_of
  if is_null d.task_handle then pure tt else perform_ w (driver f (int d.task_handle ∷ []))
  pure []

-- L_TASK_DELAY; the number is the argument of pdMS_TO_TICKS.
unfoldable pub task_delay : World → List Slot → K (List Value)
task_delay w args = do
  ms ← check_integer args 1
  perform_ w (driver "vTaskDelay" (int (to_int ms) ∷ []))
  pure []
