-- ===== src/Com/Frames.antt =====
-- The buffers of the libraries `can` and `i2c` of components/COM.
use clios.Prelude.{◌≡◌, ℕ, ◌≤◌, List, length, arith}
use clios.Prelude.Int.{ℤ}
use clios.Lua.{Slot}
use clios.Driver.{Machine, World, driver, Arg}
use clios.Driver.Memory.{Leaves, live, Frees, frees_rules}
use clios.Driver.Buffers.{Releases, Frees-buffer, buffer_rules}
use clios.Com.I2c
use clios.Com.Can.{data_length}
use clios.Com.I2c.{
  I2c, i2c_bus_close, i2c_add_device, i2c_tx, i2c_rx, i2c_wrrd, i2c_remove, i2c_new_bus, read_into,
  new_bus, close, add_device, tx, rx, wrrd, remove,
}
use Prim.Native.String.{String}

-- The memcpy of F_CAN_TX neither leaves the 8 bytes of the frame nor reads behind the argument.
data_length_bounded : (bs : List ℕ) → (data_length bs ≤ 8) × (data_length bs ≤ length bs)
unfolding data_length
data_length_bounded bs = ground arith

read_into-Releases :
    (w : World) (n : ℤ) (f : String) (xs : List Arg) (buf : ℤ)
    → Releases w buf (read_into w n (driver f xs) buf)
unfolding read_into
read_into-Releases w n f xs buf = search (frees_rules, buffer_rules) depth 14

i2c_rx-Frees : (w : World) (args : List Slot) → Frees w (i2c_rx w args)
unfolding i2c_rx
i2c_rx-Frees w args = search (frees_rules, Frees-buffer, read_into-Releases) depth 14

i2c_wrrd-Frees : (w : World) (args : List Slot) → Frees w (i2c_wrrd w args)
unfolding i2c_wrrd
i2c_wrrd-Frees w args = search (frees_rules, Frees-buffer, read_into-Releases) depth 16

i2c_tx-Frees : (w : World) (args : List Slot) → Frees w (i2c_tx w args)
unfolding i2c_tx
i2c_tx-Frees w args = search frees_rules depth 14

i2c_add_device-Frees : (w : World) (args : List Slot) → Frees w (i2c_add_device w args)
unfolding i2c_add_device
i2c_add_device-Frees w args = search frees_rules depth 16

i2c_bus_close-Frees : (w : World) (args : List Slot) → Frees w (i2c_bus_close w args)
unfolding i2c_bus_close
i2c_bus_close-Frees w args = search frees_rules depth 12

i2c_remove-Frees : (w : World) (args : List Slot) → Frees w (i2c_remove w args)
unfolding i2c_remove
i2c_remove-Frees w args = search frees_rules depth 12

i2c_new_bus-Frees : (w : World) (args : List Slot) → Frees w (i2c_new_bus w args)
unfolding i2c_new_bus
i2c_new_bus-Frees w args = search frees_rules depth 20

i2c_call-Frees : (w : World) (f : I2c.Function) (args : List Slot) → Frees w (I2c.call w f args)
unfolding clios.Com.I2c.call
i2c_call-Frees w new_bus args = i2c_new_bus-Frees w args
i2c_call-Frees w close args = i2c_bus_close-Frees w args
i2c_call-Frees w add_device args = i2c_add_device-Frees w args
i2c_call-Frees w tx args = i2c_tx-Frees w args
i2c_call-Frees w rx args = i2c_rx-Frees w args
i2c_call-Frees w wrrd args = i2c_wrrd-Frees w args
i2c_call-Frees w remove args = i2c_remove-Frees w args

-- Whatever function of `i2c`, of a bus or of a device is called, with any arguments and answers of the
-- driver: where it returns to Lua, also by an error of its own, the blocks of memory in use are those
-- from before.
pub i2c_call_balance :
    (w : World) (f : I2c.Function) (args : List Slot) (s : Machine I2c)
    → Leaves (λ t. live w t.trace ≡ live w s.trace) (I2c.call w f args s)
i2c_call_balance w f args s = (i2c_call-Frees w f args).frees s
