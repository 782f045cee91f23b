-- ===== src/Fos/Sync.antt =====
-- The libraries `queue`, `mutex` and `semaphore`, components/FOS/fos_queue.c, fos_mutex.c and
-- fos_semaphore.c. A block with a handle of FreeRTOS stands behind each value; a size_t and a pointer
-- have 4 bytes on the ESP32.
pub mod Blocks
use clios.Prelude.{ℕ, ◌+◌, ◌*◌, ◌%◌, ◌/◌, Bool, true, false, List, [], ◌∷◌, if◌then◌else◌}
use clios.Prelude.Int.{ℤ, pos, to_int, to_u32, signed32}
use clios.Lua.{
  Slot, slot, Value, integer, nil, userdata, M, ◌>>=◌, ◌>>◌, pure, undefined_access, check_integer,
}
use clios.Driver.{
  Arg, int, bytes, malloc, free, driver, World, Machine, own_of, set_own, perform, perform_, fetch,
  is_null,
}
use Prim.Native.String.{String}

-- lua_queue_t, lua_mutex_t and lua_semaphore_t.
pub record Sync : Type 0 where
  pub handle : ℤ

abbrev pub Y : Type 0 → Type 0
Y A = M (Machine Sync) A

-- The four bytes of an `int`, the lowest first, and the `int` that they are.
abbrev pub int_bytes : ℤ → List ℕ
int_bytes z =
    to_u32 z % 256 ∷ to_u32 z / 256 % 256 ∷ to_u32 z / 65536 % 256 ∷ to_u32 z / 16777216 ∷ []

abbrev pub int_of_bytes : List ℕ → ℤ
int_of_bytes (a ∷ b ∷ c ∷ d ∷ rest) = signed32 (a + 256 * b + 65536 * c + 16777216 * d)
int_of_bytes _ = pos 0

-- A `create` function after its arguments, with the call that makes the handle. The result of malloc
-- is not tested: the handle is stored through it.
unfoldable pub make : World → String → List Arg → Y (List Value)
make w f xs = perform w (malloc (pos 4)) >>= λ block.
    if is_null block
    then undefined_access
    else (perform w (driver f xs) >>= λ h.
        set_own (record { handle = h })
        >> (if is_null h
            then (perform_ w (free block) >> pure (nil ∷ []))
            else pure (userdata ∷ [])))

-- lua_touserdata (L, 1), which is not tested: with another argument than a handle, what follows reads
-- behind a null or a wrong pointer.
unfoldable pub handle_arg : List Slot → Y ℤ
handle_arg args =
    if (slot args 1).is_userdata then (own_of >>= λ s. pure s.handle) else undefined_access

-- L_QUEUE_CREATE.
unfoldable pub queue_create : World → List Slot → Y (List Value)
unfolding make
queue_create w args = check_integer args 1 >>= λ length.
    make w "xQueueCreate" (int (pos (to_u32 length)) ∷ int (pos 4) ∷ [])

-- L_QUEUE_SEND.
unfoldable pub queue_send : World → List Slot → Y (List Value)
unfolding handle_arg
queue_send w args = do
  val ← check_integer args 2
  h ← handle_arg args
  perform_ w (driver "xQueueSend" (int h ∷ bytes (int_bytes val) ∷ []))
  pure []

-- L_QUEUE_RECEIVE, which waits without end.
unfoldable pub queue_receive : World → List Slot → Y (List Value)
unfolding handle_arg
queue_receive w args = do
  h ← handle_arg args
  (ok, stored) ← fetch w (driver "xQueueReceive" (int h ∷ []))
  pure (integer (int_of_bytes stored) ∷ [])

-- L_MUTEX_CREATE.
unfoldable pub mutex_create : World → Y (List Value)
unfolding make
mutex_create w = make w "xSemaphoreCreateMutex" []

-- L_SEM_CREATE.
unfoldable pub sem_create : World → List Slot → Y (List Value)
unfolding make
sem_create w args = check_integer args 1 >>= λ count.
    make w "xSemaphoreCreateCounting" (int (pos (to_u32 count)) ∷ int (pos 0) ∷ [])

-- L_MUTEX_LOCK and L_SEM_TAKE, with "xSemaphoreTake", and L_MUTEX_UNLOCK and L_SEM_GIVE, with
-- "xSemaphoreGive".
unfoldable pub semaphore_call : World → String → List Slot → Y (List Value)
unfolding handle_arg
semaphore_call w f args = do h ← handle_arg args; perform_ w (driver f (int h ∷ [])); pure []

-- QUEUE_LIB, MUTEX_LIB and SEMAPHORE_LIB.
pub data Function : Type 0 where
  create_queue send receive create_mutex lock unlock create_sem take_sem give_sem : Function

unfoldable pub call : World → Function → List Slot → Y (List Value)
call w create_queue = queue_create w
call w send = queue_send w
call w receive = queue_receive w
call w create_mutex = λ args. mutex_create w
call w lock = semaphore_call w "xSemaphoreTake"
call w unlock = semaphore_call w "xSemaphoreGive"
call w create_sem = sem_create w
call w take_sem = semaphore_call w "xSemaphoreTake"
call w give_sem = semaphore_call w "xSemaphoreGive"
