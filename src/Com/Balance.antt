-- ===== src/Com/Balance.antt =====
-- The memory of the libraries `uart`, `spi`, `i2c` and `i2s`, components/COM.
use clios.Prelude.{◌≡◌, List}
use clios.Prelude.Int.{ℤ}
use clios.Lua.{Slot}
use clios.Driver.{World, Machine}
use clios.Driver.Memory.{Leaves, live, Frees, frees_rules}
use clios.Driver.Buffers.{buffer_rules}
use clios.Com.Older
use clios.Com.I2c.Legacy as Wire
use clios.Com.I2s.Legacy as Stream
use clios.Com.I2c.Legacy.{OldI2c}
use clios.Com.I2s.Legacy.{OldI2s}
use clios.Com.Uart
use clios.Com.Spi
use clios.Com.I2c
use clios.Com.I2s
use clios.Com.Uart.{Uart}
use clios.Com.Spi.{Spi, Hosts}
use clios.Com.I2c.{I2c}
use clios.Com.I2s.{
  I2s, i2s_write, read_into, i2s_read, end_channel, i2s_close, if_input, i2s_new, write, read,
  close, new,
}
use clios.Com.Memory.{uart_call_balance, spi_call_balance}
use clios.Com.Frames.{i2c_call_balance}

module _ (w : World) where
  i2s_write-Frees : (args : List Slot) → Frees w (i2s_write w args)
  unfolding i2s_write
  i2s_write-Frees args = search frees_rules depth 14

  i2s_read-Frees : (args : List Slot) → Frees w (i2s_read w args)
  unfolding i2s_read read_into
  i2s_read-Frees args = search (frees_rules, buffer_rules) depth 16

  end_channel-Frees : (c : ℤ) → Frees w (end_channel w c)
  unfolding end_channel
  end_channel-Frees c = search frees_rules depth 10

  i2s_close-Frees : (args : List Slot) → Frees w (i2s_close w args)
  unfolding i2s_close
  i2s_close-Frees args = search (frees_rules, end_channel-Frees) depth 14

  i2s_new-Frees : (args : List Slot) → Frees w (i2s_new w args)
  unfolding i2s_new if_input
  i2s_new-Frees args = search frees_rules depth 30

  i2s_call-Frees : (f : I2s.Function) (args : List Slot) → Frees w (I2s.call w f args)
  unfolding clios.Com.I2s.call
  i2s_call-Frees write args = i2s_write-Frees args
  i2s_call-Frees read args = i2s_read-Frees args
  i2s_call-Frees close args = i2s_close-Frees args
  i2s_call-Frees new args = i2s_new-Frees args

-- A call of one of the four libraries, or of a method of their handles, with its arguments and the
-- state in which it is made.
pub data BusCall : Type 0 where
  uart : Uart.Function → List Slot → Machine Uart → BusCall
  spi : Spi.Function → List Slot → Machine Spi → BusCall
  i2c : I2c.Function → List Slot → Machine I2c → BusCall
  i2s : I2s.Function → List Slot → Machine I2s → BusCall
  old_i2c : Wire.Function → List Slot → Machine OldI2c → BusCall
  old_i2s : Stream.Function → List Slot → Machine OldI2s → BusCall

-- Where the call returns to Lua, also by an error of its own, the blocks in use are those from before.
abbrev pub IsBalanced : Hosts → World → BusCall → Type 0
IsBalanced hosts w (uart f args s) =
    Leaves (λ t. live w t.trace ≡ live w s.trace) (Uart.call w f args s)
IsBalanced hosts w (spi f args s) =
    Leaves (λ t. live w t.trace ≡ live w s.trace) (Spi.call hosts w f args s)
IsBalanced hosts w (i2c f args s) =
    Leaves (λ t. live w t.trace ≡ live w s.trace) (I2c.call w f args s)
IsBalanced hosts w (i2s f args s) =
    Leaves (λ t. live w t.trace ≡ live w s.trace) (I2s.call w f args s)
IsBalanced hosts w (old_i2c f args s) =
    Leaves (λ t. live w t.trace ≡ live w s.trace) (Wire.call w f args s)
IsBalanced hosts w (old_i2s f args s) =
    Leaves (λ t. live w t.trace ≡ live w s.trace) (Stream.call w f args s)

-- Whatever function of `uart`, `spi`, `i2c`, `i2s` or of their handles is called, with any arguments
-- and answers of the driver, for `i2c` and `i2s` the new one or the old one: where it returns to Lua,
-- also by an error of its own, the blocks of memory in use are those from before. Of the error that
-- Lua raises itself where it has no memory for a string, nothing is said.
pub bus_call-IsBalanced : (hosts : Hosts) (w : World) (c : BusCall) → IsBalanced hosts w c
bus_call-IsBalanced hosts w (uart f args s) = uart_call_balance w f args s
bus_call-IsBalanced hosts w (spi f args s) = spi_call_balance hosts w f args s
bus_call-IsBalanced hosts w (i2c f args s) = i2c_call_balance w f args s
bus_call-IsBalanced hosts w (i2s f args s) = (i2s_call-Frees w f args).frees s
bus_call-IsBalanced hosts w (old_i2c f args s) = (Older.i2c_call-Frees w f args).frees s
bus_call-IsBalanced hosts w (old_i2s f args s) = (Older.i2s_call-Frees w f args).frees s
