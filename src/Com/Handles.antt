-- ===== src/Com/Handles.antt =====
-- The methods of the handles of the libraries `uart`, `spi`, `i2c` and `i2s`, components/COM: each
-- asks luaL_checkudata for its handle before it does anything.
use Prim.Native.String.{String}
use clios.Prelude.{◌≡◌, false, List, arith, Option, none, some}
use clios.Lua.{Slot, slot, raised, bad_argument}
use clios.Driver.{World, Machine}
use clios.Com.I2c.Legacy as Wire
use clios.Com.I2s.Legacy as Stream
use clios.Com.I2c.Legacy.{
  OldI2c, old_i2c_bus_close, old_i2c_add_device, old_i2c_tx, old_i2c_rx, old_i2c_wrrd,
  old_i2c_remove,
}
use clios.Com.I2s.Legacy.{OldI2s, old_i2s_write, old_i2s_read, old_i2s_close}
use clios.Com.Uart
use clios.Com.Spi
use clios.Com.I2c
use clios.Com.I2s
use clios.Com.Uart.{Uart, uart_write, uart_read, uart_flush, uart_set_baud, uart_close}
use clios.Com.Spi.{Spi, Hosts, spi_xfer, spi_remove}
use clios.Com.I2c.{I2c, i2c_bus_close, i2c_add_device, i2c_tx, i2c_rx, i2c_wrrd, i2c_remove}
use clios.Com.I2s.{I2s, i2s_write, i2s_read, i2s_close}
use clios.Com.Balance.{BusCall, uart, spi, i2c, i2s, old_i2c, old_i2s}

-- The metatable in whose table of methods a function stands, by its name; the functions that are no
-- methods open a port or a bus.
abbrev of_uart : Uart.Function → Option String
of_uart Uart.write = some "uart.handle"
of_uart Uart.read = some "uart.handle"
of_uart Uart.flush = some "uart.handle"
of_uart Uart.set_baud = some "uart.handle"
of_uart Uart.close = some "uart.handle"
of_uart Uart.open_port = none

uart-refuses :
    (w : World) (f : Uart.Function) (args : List Slot) (s : Machine Uart) {n : String}
    → of_uart f ≡ some n
    → (slot args 1).is_udata n ≡ false
    → Uart.call w f args s ≡ raised (bad_argument 1) s
unfolding clios.Com.Uart.call uart_write uart_read uart_flush uart_set_baud uart_close
uart-refuses w Uart.write args s h k = ground arith
uart-refuses w Uart.read args s h k = ground arith
uart-refuses w Uart.flush args s h k = ground arith
uart-refuses w Uart.set_baud args s h k = ground arith
uart-refuses w Uart.close args s h k = ground arith
uart-refuses w Uart.open_port args s h k = cc

abbrev of_spi : Spi.Function → Option String
of_spi Spi.xfer = some "spi.dev"
of_spi Spi.remove = some "spi.dev"
of_spi Spi.bus_init = none
of_spi Spi.bus_free = none
of_spi Spi.add_device = none

spi-refuses :
    (hosts : Hosts) (w : World) (f : Spi.Function) (args : List Slot) (s : Machine Spi) {n : String}
    → of_spi f ≡ some n
    → (slot args 1).is_udata n ≡ false
    → Spi.call hosts w f args s ≡ raised (bad_argument 1) s
unfolding clios.Com.Spi.call spi_xfer spi_remove
spi-refuses hosts w Spi.xfer args s h k = ground arith
spi-refuses hosts w Spi.remove args s h k = ground arith
spi-refuses hosts w Spi.bus_init args s h k = cc
spi-refuses hosts w Spi.bus_free args s h k = cc
spi-refuses hosts w Spi.add_device args s h k = cc

abbrev of_i2c : I2c.Function → Option String
of_i2c I2c.new_bus = none
of_i2c I2c.close = some "i2c.bus"
of_i2c I2c.add_device = some "i2c.bus"
of_i2c I2c.tx = some "i2c.dev"
of_i2c I2c.rx = some "i2c.dev"
of_i2c I2c.wrrd = some "i2c.dev"
of_i2c I2c.remove = some "i2c.dev"

i2c-refuses :
    (w : World) (f : I2c.Function) (args : List Slot) (s : Machine I2c) {n : String}
    → of_i2c f ≡ some n
    → (slot args 1).is_udata n ≡ false
    → I2c.call w f args s ≡ raised (bad_argument 1) s
unfolding clios.Com.I2c.call i2c_bus_close i2c_add_device i2c_tx i2c_rx i2c_wrrd i2c_remove
i2c-refuses w I2c.new_bus args s h k = cc
i2c-refuses w f args s h k = ground arith

abbrev of_i2s : I2s.Function → Option String
of_i2s I2s.write = some "i2s.handle"
of_i2s I2s.read = some "i2s.handle"
of_i2s I2s.close = some "i2s.handle"
of_i2s I2s.new = none

i2s-refuses :
    (w : World) (f : I2s.Function) (args : List Slot) (s : Machine I2s) {n : String}
    → of_i2s f ≡ some n
    → (slot args 1).is_udata n ≡ false
    → I2s.call w f args s ≡ raised (bad_argument 1) s
unfolding clios.Com.I2s.call i2s_write i2s_read i2s_close
i2s-refuses w I2s.new args s h k = cc
i2s-refuses w f args s h k = ground arith

-- With the old driver, `remove` does not look at its argument.
abbrev of_wire : Wire.Function → Option String
of_wire Wire.new_bus = none
of_wire Wire.close = some "i2c.bus"
of_wire Wire.add_device = some "i2c.bus"
of_wire Wire.tx = some "i2c.dev"
of_wire Wire.rx = some "i2c.dev"
of_wire Wire.wrrd = some "i2c.dev"
of_wire Wire.remove = none

wire-refuses :
    (w : World) (f : Wire.Function) (args : List Slot) (s : Machine OldI2c) {n : String}
    → of_wire f ≡ some n
    → (slot args 1).is_udata n ≡ false
    → Wire.call w f args s ≡ raised (bad_argument 1) s
unfolding clios.Com.I2c.Legacy.call old_i2c_bus_close old_i2c_add_device old_i2c_tx old_i2c_rx
    old_i2c_wrrd old_i2c_remove
wire-refuses w Wire.new_bus args s h k = cc
wire-refuses w Wire.remove args s h k = cc
wire-refuses w f args s h k = ground arith

abbrev of_stream : Stream.Function → Option String
of_stream Stream.write = some "i2s.handle"
of_stream Stream.read = some "i2s.handle"
of_stream Stream.close = some "i2s.handle"
of_stream Stream.new = none

stream-refuses :
    (w : World) (f : Stream.Function) (args : List Slot) (s : Machine OldI2s) {n : String}
    → of_stream f ≡ some n
    → (slot args 1).is_udata n ≡ false
    → Stream.call w f args s ≡ raised (bad_argument 1) s
unfolding clios.Com.I2s.Legacy.call old_i2s_write old_i2s_read old_i2s_close
stream-refuses w Stream.new args s h k = cc
stream-refuses w f args s h k = ground arith

-- The metatable whose method is called, if it looks at its handle, and the arguments.
abbrev pub metatable : BusCall → Option String
metatable (uart f args s) = of_uart f
metatable (spi f args s) = of_spi f
metatable (i2c f args s) = of_i2c f
metatable (i2s f args s) = of_i2s f
metatable (old_i2c f args s) = of_wire f
metatable (old_i2s f args s) = of_stream f

abbrev pub args_of : BusCall → List Slot
args_of (uart f args s) = args
args_of (spi f args s) = args
args_of (i2c f args s) = args
args_of (i2s f args s) = args
args_of (old_i2c f args s) = args
args_of (old_i2s f args s) = args

-- A Lua error for the first argument, with no call of a driver made and the data as they were.
abbrev pub Refuses : Hosts → World → BusCall → Type 0
Refuses hosts w (uart f args s) = Uart.call w f args s ≡ raised (bad_argument 1) s
Refuses hosts w (spi f args s) = Spi.call hosts w f args s ≡ raised (bad_argument 1) s
Refuses hosts w (i2c f args s) = I2c.call w f args s ≡ raised (bad_argument 1) s
Refuses hosts w (i2s f args s) = I2s.call w f args s ≡ raised (bad_argument 1) s
Refuses hosts w (old_i2c f args s) = Wire.call w f args s ≡ raised (bad_argument 1) s
Refuses hosts w (old_i2s f args s) = Stream.call w f args s ≡ raised (bad_argument 1) s

-- Every method of a handle of `uart`, `spi`, `i2c` and `i2s`, for the last two with the new driver or
-- the old one, but for the method `remove` of the old `i2c`: on a value that is no userdata with the
-- metatable in whose methods it stands, such as the handle of a bus for a method of a device, it ends
-- in a Lua error for the argument 1, whatever the other arguments are, no driver is called, and the
-- data of the library stay as they were.
pub method-Refuses :
    (hosts : Hosts) (w : World) (c : BusCall) {n : String}
    → metatable c ≡ some n
    → (slot (args_of c) 1).is_udata n ≡ false
    → Refuses hosts w c
method-Refuses hosts w (uart f args s) h k = uart-refuses w f args s h k
method-Refuses hosts w (spi f args s) h k = spi-refuses hosts w f args s h k
method-Refuses hosts w (i2c f args s) h k = i2c-refuses w f args s h k
method-Refuses hosts w (i2s f args s) h k = i2s-refuses w f args s h k
method-Refuses hosts w (old_i2c f args s) h k = wire-refuses w f args s h k
method-Refuses hosts w (old_i2s f args s) h k = stream-refuses w f args s h k
