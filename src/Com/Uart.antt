-- ===== src/Com/Uart.antt =====
-- The library `uart`, components/COM/com_uart.c.
use clios.Prelude.{Bool, true, false, List, [], ◌∷◌, if◌then◌else◌}
use clios.Prelude.Int.{ℤ, pos, negsuc, to_int, to_u32}
use clios.Lua.{
  Slot, Value, boolean, integer, userdata, message, M, ◌>>=◌, ◌>>◌, pure, raise, check_udata,
  check_integer, check_lstring, opt_integer,
}
use clios.Driver.{
  push_lstring, int, bytes, malloc, free, driver, World, Machine, own_of, set_own, perform,
  perform_, fetch, checked, is_null, first_bytes,
}

-- lua_uart_t, the handle that a method gets as its first argument.
pub record Uart : Type 0 where
  pub port : ℤ
  pub installed : Bool

abbrev pub U : Type 0 → Type 0
U A = M (Machine Uart) A

-- F_WRITE.
unfoldable pub uart_write : World → List Slot → U (List Value)
uart_write w args = do
  check_udata "uart.handle" args 1
  buf ← check_lstring args 2
  u ← own_of
  wrote ← perform w (driver "uart_write_bytes" (int u.port ∷ bytes buf ∷ []))
  pure (integer wrote ∷ [])

-- F_READ from the test of malloc on; the timeout is the argument of pdMS_TO_TICKS.
unfoldable pub read_into : World → ℤ → ℤ → ℤ → U (List Value)
read_into w len to_ms tmp =
    if is_null tmp
    then raise (message "oom")
    else (own_of >>= λ u.
        fetch w (
          driver "uart_read_bytes" (int u.port ∷ int tmp ∷ int (pos (to_u32 len)) ∷ int to_ms ∷ []))
        >>= λ (got, received).
            (push_lstring w (first_bytes (to_int got) received) >>= λ text.
            (perform_ w (free tmp) >> pure (text ∷ []))))

-- F_READ.
unfoldable pub uart_read : World → List Slot → U (List Value)
unfolding read_into
uart_read w args = do
  check_udata "uart.handle" args 1
  len ← check_integer args 2
  to_ms ← opt_integer args 3 (pos 100)
  tmp ← perform w (malloc (pos (to_u32 len)))
  read_into w len (to_int to_ms) tmp

-- F_FLUSH.
unfoldable pub uart_flush : World → List Slot → U (List Value)
uart_flush w args = do
  check_udata "uart.handle" args 1
  u ← own_of
  perform_ w (driver "uart_flush" (int u.port ∷ []))
  pure (boolean true ∷ [])

-- F_SETBAUD.
unfoldable pub uart_set_baud : World → List Slot → U (List Value)
uart_set_baud w args = do
  check_udata "uart.handle" args 1
  b ← check_integer args 2
  u ← own_of
  checked w (driver "uart_set_baudrate" (int u.port ∷ int (pos (to_u32 b)) ∷ []))
  pure (boolean true ∷ [])

-- The guarded deletion of F_CLOSE.
unfoldable pub uart_delete : World → U (Unit {0})
uart_delete w = do
  u ← own_of
  if u.installed
      then (perform_ w (driver "uart_driver_delete" (int u.port ∷ []))
          >> set_own (record u { installed = false }))
      else pure tt

-- F_CLOSE.
unfoldable pub uart_close : World → List Slot → U (List Value)
unfolding uart_delete
uart_close w args = do check_udata "uart.handle" args 1; uart_delete w; pure (boolean true ∷ [])

-- L_UART_OPEN, which makes the handle; of the configuration, the fields that are not constants.
unfoldable pub uart_open : World → List Slot → U (List Value)
uart_open w args = do
  port ← check_integer args 1
  baud ← opt_integer args 2 (pos 115200)
  tx ← opt_integer args 3 (negsuc 0)
  rx ← opt_integer args 4 (negsuc 0)
  rts ← opt_integer args 5 (negsuc 0)
  cts ← opt_integer args 6 (negsuc 0)
  buf ← opt_integer args 7 (pos 2048)
  set_own (record { port = to_int port; installed = false })
  checked w (
      driver "uart_driver_install"
        (int (to_int port) ∷ int (to_int buf) ∷ int (to_int buf) ∷ int (pos 0) ∷ []))
  set_own (record { port = to_int port; installed = true })
  checked w (driver "uart_param_config" (int (to_int port) ∷ int (to_int baud) ∷ []))
  checked w (
      driver "uart_set_pin" (
        int (to_int port)
        ∷ int (to_int tx)
        ∷ int (to_int rx)
        ∷ int (to_int rts)
        ∷ int (to_int cts)
        ∷ []))
  pure (userdata ∷ [])

-- The table UART_LIB and the methods of a handle.
pub data Function : Type 0 where
  write read flush set_baud close open_port : Function

unfoldable pub call : World → Function → List Slot → U (List Value)
call w write = uart_write w
call w read = uart_read w
call w flush = uart_flush w
call w set_baud = uart_set_baud w
call w close = uart_close w
call w open_port = uart_open w
