-- ===== src/Com/Memory.antt =====
-- The memory of the libraries `uart` and `spi`, components/COM.
use clios.Prelude.{ℕ, ◌≡◌, List, [], ◌∷◌}
use clios.Prelude.Int.{ℤ, pos, to_u32}
use clios.Lua.{Slot}
use clios.Driver.{World, Machine, Call, malloc, driver, int}
use clios.Driver.Memory.{Leaves, live, Frees, frees_rules}
use clios.Driver.Buffers.{Steady, Releases, Frees-buffer, buffer_rules}
use clios.Com.Uart
use clios.Com.Spi
use clios.Com.Uart.{
  Uart, uart_write, uart_read, read_into, uart_flush, uart_set_baud, uart_delete, uart_close,
  uart_open, write, read, flush, set_baud, close, open_port,
}
use clios.Com.Spi.{
  Spi, Hosts, spi_xfer, xfer_into, transmit, spi_remove, spi_bus_init, spi_bus_free, spi_add_device,
  xfer, remove, bus_init, bus_free, add_device, opt_bytes,
}

uart_write-Frees : (w : World) (args : List Slot) → Frees w (uart_write w args)
unfolding uart_write
uart_write-Frees w args = search frees_rules depth 12

uart_read-Frees : (w : World) (args : List Slot) → Frees w (uart_read w args)
unfolding uart_read read_into
uart_read-Frees w args = search (frees_rules, buffer_rules) depth 14

uart_flush-Frees : (w : World) (args : List Slot) → Frees w (uart_flush w args)
unfolding uart_flush
uart_flush-Frees w args = search frees_rules depth 12

uart_set_baud-Frees : (w : World) (args : List Slot) → Frees w (uart_set_baud w args)
unfolding uart_set_baud
uart_set_baud-Frees w args = search frees_rules depth 12

uart_close-Frees : (w : World) (args : List Slot) → Frees w (uart_close w args)
unfolding uart_close uart_delete
uart_close-Frees w args = search frees_rules depth 12

uart_open-Frees : (w : World) (args : List Slot) → Frees w (uart_open w args)
unfolding uart_open
uart_open-Frees w args = search frees_rules depth 20

uart_call-Frees : (w : World) (f : Uart.Function) (args : List Slot) → Frees w (Uart.call w f args)
unfolding clios.Com.Uart.call
uart_call-Frees w write args = uart_write-Frees w args
uart_call-Frees w read args = uart_read-Frees w args
uart_call-Frees w flush args = uart_flush-Frees w args
uart_call-Frees w set_baud args = uart_set_baud-Frees w args
uart_call-Frees w close args = uart_close-Frees w args
uart_call-Frees w open_port args = uart_open-Frees w args

opt_bytes-Frees : (w : World) (args : List Slot) (i : ℕ) → Frees w (opt_bytes args i)
opt_bytes-Frees w args i = search frees_rules depth 12

transmit-Steady : (w : World) (tx : List ℕ) (rx bits : ℤ) → Steady w (transmit w tx rx bits)
unfolding transmit
transmit-Steady w tx rx bits = search buffer_rules depth 12

transmit-Frees : (w : World) (tx : List ℕ) (rx bits : ℤ) → Frees w (transmit w tx rx bits)
transmit-Frees w tx rx bits = (transmit-Steady w tx rx bits).steady

xfer_into-Releases :
    (w : World) (tx : List ℕ) (rxlen rx : ℤ) → Releases w rx (xfer_into w tx rxlen rx)
unfolding xfer_into
xfer_into-Releases w tx rxlen rx = search (frees_rules, buffer_rules, transmit-Steady) depth 12

spi_xfer-Frees : (w : World) (args : List Slot) → Frees w (spi_xfer w args)
unfolding spi_xfer
spi_xfer-Frees w args =
    search (frees_rules, Frees-buffer, opt_bytes-Frees, transmit-Frees, xfer_into-Releases) depth 14

spi_remove-Frees : (w : World) (args : List Slot) → Frees w (spi_remove w args)
unfolding spi_remove
spi_remove-Frees w args = search frees_rules depth 12

spi_bus_init-Frees :
    (hosts : Hosts) (w : World) (args : List Slot) → Frees w (spi_bus_init hosts w args)
unfolding spi_bus_init
spi_bus_init-Frees hosts w args = search frees_rules depth 20

spi_bus_free-Frees : (w : World) (args : List Slot) → Frees w (spi_bus_free w args)
unfolding spi_bus_free
spi_bus_free-Frees w args = search frees_rules depth 12

spi_add_device-Frees : (w : World) (args : List Slot) → Frees w (spi_add_device w args)
unfolding spi_add_device
spi_add_device-Frees w args = search frees_rules depth 20

spi_call-Frees :
    (hosts : Hosts) (w : World) (f : Spi.Function) (args : List Slot)
    → Frees w (Spi.call hosts w f args)
unfolding clios.Com.Spi.call
spi_call-Frees hosts w xfer args = spi_xfer-Frees w args
spi_call-Frees hosts w remove args = spi_remove-Frees w args
spi_call-Frees hosts w bus_init args = spi_bus_init-Frees hosts w args
spi_call-Frees hosts w bus_free args = spi_bus_free-Frees w args
spi_call-Frees hosts w add_device args = spi_add_device-Frees w args

-- Whatever function of `uart` or of its handles is called, with any arguments and answers of the
-- driver: where it returns to Lua, also by an error of its own, the blocks of memory in use are those
-- from before.
pub uart_call_balance :
    (w : World) (f : Uart.Function) (args : List Slot) (s : Machine Uart)
    → Leaves (λ t. live w t.trace ≡ live w s.trace) (Uart.call w f args s)
uart_call_balance w f args s = (uart_call-Frees w f args).frees s

-- Whatever function of `spi` or of its handles is called, with any arguments and answers of the
-- driver: where it returns to Lua, also by an error of its own, the blocks of memory in use are those
-- from before.
pub spi_call_balance :
    (hosts : Hosts) (w : World) (f : Spi.Function) (args : List Slot) (s : Machine Spi)
    → Leaves (λ t. live w t.trace ≡ live w s.trace) (Spi.call hosts w f args s)
spi_call_balance hosts w f args s = (spi_call-Frees hosts w f args).frees s

abbrev pub block_call : ℤ → Call
block_call len = malloc (pos (to_u32 len))

abbrev read_call : Machine Uart → ℤ → ℤ → Call
read_call s len tmp =
    driver "uart_read_bytes"
      (int s.own.port ∷ int tmp ∷ int (pos (to_u32 len)) ∷ int (pos 100) ∷ [])
