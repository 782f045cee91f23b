-- ===== src/Com/Closing.antt =====
-- Closing a handle of the library `uart` twice, components/COM/com_uart.c.
use clios.Prelude.{◌≡◌, List, arith}
use clios.Lua.{Slot, ◌>>=◌}
use clios.Driver.{World, Machine}
use clios.Com.Uart.{Uart, uart_close, uart_delete}

-- `u:close()` a second time changes neither the handle nor the calls made: the driver of a port is
-- deleted at most once for each opening, whatever the arguments.
uart_close_twice :
    (w : World) (args : List Slot) (s : Machine Uart)
    → (uart_close w args >>= λ _. uart_close w args) s ≡ uart_close w args s
unfolding uart_close uart_delete
uart_close_twice w args s = ground arith
