-- ===== src/Com/Older.antt =====
-- The libraries `i2c` and `i2s` of components/COM over the older drivers free the memory that they
-- allocate.
use clios.Prelude.{ℕ, List}
use clios.Prelude.Int.{ℤ}
use clios.Lua.{Slot}
use clios.Driver.{World}
use clios.Driver.Memory.{Frees, frees_rules}
use clios.Driver.Buffers.{Steady, buffer_rules, Steady-if, Steady-undefined_access}
use clios.Com.I2s.Legacy as Stream
use clios.Com.I2c.Legacy as Wire
use clios.Com.I2s.Legacy.{
  old_i2s_write, old_i2s_read, old_i2s_close, uninstall, old_i2s_new, write, read, close, new,
}
use clios.Com.I2c.Legacy.{
  command, address, queue_write, queue_read, run_commands, read_back, rx_into, wrrd_into,
  old_i2c_bus_close, old_i2c_add_device, old_i2c_tx, old_i2c_rx, old_i2c_wrrd, old_i2c_remove,
  old_i2c_new_bus, new_bus, add_device, tx, rx, wrrd, remove,
}

module _ (w : World) where
  i2s_write-Frees : (args : List Slot) → Frees w (old_i2s_write w args)
  unfolding old_i2s_write
  i2s_write-Frees args = search frees_rules depth 14

  i2s_read-Frees : (args : List Slot) → Frees w (old_i2s_read w args)
  unfolding old_i2s_read clios.Com.I2s.Legacy.read_into
  i2s_read-Frees args = search (frees_rules, buffer_rules) depth 16

  i2s_close-Frees : (args : List Slot) → Frees w (old_i2s_close w args)
  unfolding old_i2s_close uninstall
  i2s_close-Frees args = search frees_rules depth 14

  i2s_new-Frees : (args : List Slot) → Frees w (old_i2s_new w args)
  unfolding old_i2s_new
  i2s_new-Frees args = search frees_rules depth 24

  pub i2s_call-Frees : (f : Stream.Function) (args : List Slot) → Frees w (Stream.call w f args)
  unfolding clios.Com.I2s.Legacy.call
  i2s_call-Frees write args = i2s_write-Frees args
  i2s_call-Frees read args = i2s_read-Frees args
  i2s_call-Frees close args = i2s_close-Frees args
  i2s_call-Frees new args = i2s_new-Frees args

  queue_write-Steady : (cmd : ℤ) (buf : List ℕ) → Steady w (queue_write w cmd buf)
  unfolding queue_write address command
  queue_write-Steady cmd buf = search buffer_rules depth 14

  queue_read-Steady : (cmd buf n : ℤ) → Steady w (queue_read w cmd buf n)
  unfolding queue_read address command
  queue_read-Steady cmd buf n = search (buffer_rules, Steady-if, Steady-undefined_access) depth 16

  run_commands-Steady : (cmd to : ℤ) → Steady w (run_commands w cmd to)
  unfolding run_commands command
  run_commands-Steady cmd to = search buffer_rules depth 16

  queue_write-Frees : (cmd : ℤ) (buf : List ℕ) → Frees w (queue_write w cmd buf)
  queue_write-Frees cmd buf = (queue_write-Steady cmd buf).steady

  run_commands-Frees : (cmd to : ℤ) → Frees w (run_commands w cmd to)
  run_commands-Frees cmd to = (run_commands-Steady cmd to).steady

  tx-Frees : (args : List Slot) → Frees w (old_i2c_tx w args)
  unfolding old_i2c_tx
  tx-Frees args = search (frees_rules, queue_write-Frees, run_commands-Frees) depth 14

  rx-Frees : (args : List Slot) → Frees w (old_i2c_rx w args)
  unfolding old_i2c_rx rx_into read_back
  rx-Frees args =
      search (frees_rules, buffer_rules, queue_read-Steady, run_commands-Steady) depth 18

  wrrd-Frees : (args : List Slot) → Frees w (old_i2c_wrrd w args)
  unfolding old_i2c_wrrd wrrd_into read_back
  wrrd-Frees args =
      search (frees_rules, buffer_rules, queue_write-Steady, queue_read-Steady, run_commands-Steady)
        depth 20

  bus_close-Frees : (args : List Slot) → Frees w (old_i2c_bus_close w args)
  unfolding old_i2c_bus_close
  bus_close-Frees args = search frees_rules depth 12

  add_device-Frees : (args : List Slot) → Frees w (old_i2c_add_device w args)
  unfolding old_i2c_add_device
  add_device-Frees args = search frees_rules depth 12

  remove-Frees : (args : List Slot) → Frees w (old_i2c_remove args)
  unfolding old_i2c_remove
  remove-Frees args = search frees_rules

  new_bus-Frees : (args : List Slot) → Frees w (old_i2c_new_bus w args)
  unfolding old_i2c_new_bus
  new_bus-Frees args = search frees_rules depth 20

  pub i2c_call-Frees : (f : Wire.Function) (args : List Slot) → Frees w (Wire.call w f args)
  unfolding clios.Com.I2c.Legacy.call
  i2c_call-Frees new_bus args = new_bus-Frees args
  i2c_call-Frees Wire.close args = bus_close-Frees args
  i2c_call-Frees add_device args = add_device-Frees args
  i2c_call-Frees tx args = tx-Frees args
  i2c_call-Frees rx args = rx-Frees args
  i2c_call-Frees wrrd args = wrrd-Frees args
  i2c_call-Frees remove args = remove-Frees args
