-- ===== src/Com/I2c/Legacy.antt =====
-- The library `i2c`, components/COM/com_i2c.c, where HAVE_I2C_V5 is not set: a transfer is queued as a
-- list of commands.
use clios.Prelude.{ℕ, ◌+◌, ◌-◌, ◌*◌, ◌%◌, true, List, [], ◌∷◌, if◌then◌else◌, take}
use clios.Prelude.Int.{ℤ, pos, to_int, to_u8, to_u32, leb_ℤ, pos_part}
use clios.Lua.{
  Slot, Value, boolean, userdata, message, M, ◌>>=◌, ◌>>◌, pure, raise, undefined_access,
  check_udata, check_integer, check_lstring, opt_integer, esp_error_check,
}
use clios.Driver.{
  new_userdata, push_lstring, int, bytes, const, malloc, free, driver, World, Machine, own_of,
  set_own, perform, perform_, fetch, checked, is_null,
}
use clios.Com.I2c.{times_thousand}
use Prim.Native.String.{String}

-- The port of a bus, and the port and the address of the device that was added to it last.
pub record OldI2c : Type 0 where
  pub port : ℤ
  pub dev_port : ℤ
  pub dev_addr : ℕ

abbrev pub O : Type 0 → Type 0
O A = M (Machine OldI2c) A

-- F_I2C_BUS_CLOSE.
unfoldable pub old_i2c_bus_close : World → List Slot → O (List Value)
old_i2c_bus_close w args = do
  check_udata "i2c.bus" args 1
  b ← own_of
  perform_ w (driver "i2c_driver_delete" (int b.port ∷ []))
  pure (boolean true ∷ [])

-- F_I2C_BUS_ADD_DEV; the address is an uint8_t, and the speed is not used.
unfoldable pub old_i2c_add_device : World → List Slot → O (List Value)
old_i2c_add_device w args = do
  check_udata "i2c.bus" args 1
  addr ← check_integer args 2
  khz ← opt_integer args 3 (pos 400)
  b ← own_of
  set_own (record b { dev_port = b.port; dev_addr = to_u8 addr })
  pure (userdata ∷ [])

-- A command without arguments, and a start with the byte of the address and the direction, 0 to write
-- and 1 to read.
unfoldable pub command : World → String → ℤ → O (Unit {0})
command w f cmd = perform_ w (driver f (int cmd ∷ []))

unfoldable pub address : World → ℤ → ℕ → O (Unit {0})
unfolding command
address w cmd direction = do
  command w "i2c_master_start" cmd
  d ← own_of
  perform_ w (
      driver "i2c_master_write_byte"
        (int cmd ∷ int (pos ((d.dev_addr * 2 + direction) % 256)) ∷ int (pos 1) ∷ []))

unfoldable pub queue_write : World → ℤ → List ℕ → O (Unit {0})
unfolding address
queue_write w cmd buf = do
  address w cmd 0
  perform_ w (driver "i2c_master_write" (int cmd ∷ bytes buf ∷ int (pos 1) ∷ []))

-- The commands to read `n` bytes into a block: all but the last, and the last. For n = 0 the last byte
-- goes before the block.
unfoldable pub queue_read : World → ℤ → ℤ → ℤ → O (Unit {0})
unfolding address
queue_read w cmd buf n = do
  address w cmd 1
  if leb_ℤ (pos 2) n
      then perform_ w (
          driver "i2c_master_read"
            (int cmd ∷ int buf ∷ int (pos (pos_part n - 1)) ∷ const "I2C_MASTER_ACK" ∷ []))
      else pure tt
  if leb_ℤ (pos 1) n
      then perform_ w (
          driver "i2c_master_read_byte"
            (int cmd ∷ int (pos (pos_part buf + pos_part n - 1)) ∷ const "I2C_MASTER_NACK" ∷ []))
      else undefined_access

-- The stop, i2c_master_cmd_begin under ESP_ERROR_CHECK, which stores what is read, and the end of the
-- list.
unfoldable pub run_commands : World → ℤ → ℤ → O (List ℕ)
unfolding command
run_commands w cmd to = do
  command w "i2c_master_stop" cmd
  d ← own_of
  (err, received) ←
      fetch w (driver "i2c_master_cmd_begin" (int d.dev_port ∷ int cmd ∷ int (to_int to) ∷ []))
  esp_error_check err
  command w "i2c_cmd_link_delete" cmd
  pure received

-- F_I2C_DEV_TX.
unfoldable pub old_i2c_tx : World → List Slot → O (List Value)
unfolding queue_write run_commands
old_i2c_tx w args = do
  check_udata "i2c.dev" args 1
  buf ← check_lstring args 2
  to ← opt_integer args 3 (pos 1000)
  cmd ← perform w (driver "i2c_cmd_link_create" [])
  queue_write w cmd buf
  received ← run_commands w cmd to
  pure (boolean true ∷ [])

-- The end of F_I2C_DEV_RX and F_I2C_DEV_WRRD: the commands to read, and their run.
unfoldable pub read_back : World → ℤ → ℤ → ℤ → ℤ → O (List Value)
unfolding queue_read run_commands
read_back w cmd buf n to = do
  queue_read w cmd buf (to_int n)
  received ← run_commands w cmd to
  text ← push_lstring w (take (to_u32 n) received)
  perform_ w (free buf)
  pure (text ∷ [])

-- F_I2C_DEV_RX from the test of malloc on.
unfoldable pub rx_into : World → ℤ → ℤ → ℤ → O (List Value)
unfolding read_back
rx_into w n to buf =
    if is_null buf
    then raise (message "oom")
    else (perform w (driver "i2c_cmd_link_create" []) >>= λ cmd. read_back w cmd buf n to)

-- F_I2C_DEV_RX.
unfoldable pub old_i2c_rx : World → List Slot → O (List Value)
unfolding rx_into
old_i2c_rx w args = do
  check_udata "i2c.dev" args 1
  n ← check_integer args 2
  to ← opt_integer args 3 (pos 1000)
  buf ← perform w (malloc (pos (to_u32 n)))
  rx_into w n to buf

-- F_I2C_DEV_WRRD from the test of malloc on.
unfoldable pub wrrd_into : World → List ℕ → ℤ → ℤ → ℤ → O (List Value)
unfolding queue_write read_back
wrrd_into w out n to buf =
    if is_null buf
    then raise (message "oom")
    else (perform w (driver "i2c_cmd_link_create" []) >>= λ cmd.
        queue_write w cmd out >> read_back w cmd buf n to)

-- F_I2C_DEV_WRRD.
unfoldable pub old_i2c_wrrd : World → List Slot → O (List Value)
unfolding wrrd_into
old_i2c_wrrd w args = do
  check_udata "i2c.dev" args 1
  out ← check_lstring args 2
  rn ← check_integer args 3
  to ← opt_integer args 4 (pos 1000)
  buf ← perform w (malloc (pos (to_u32 rn)))
  wrrd_into w out rn to buf

-- F_I2C_DEV_REMOVE, which does not look at its argument.
unfoldable pub old_i2c_remove : List Slot → O (List Value)
old_i2c_remove args = pure (boolean true ∷ [])

-- L_I2C_BUS_NEW.
unfoldable pub old_i2c_new_bus : World → List Slot → O (List Value)
old_i2c_new_bus w args = do
  port ← opt_integer args 1 (pos 0)
  sda ← check_integer args 2
  scl ← check_integer args 3
  khz ← opt_integer args 4 (pos 400)
  checked w (
      driver "i2c_param_config" (
        int (to_int port)
        ∷ int (to_int sda)
        ∷ int (to_int scl)
        ∷ int (pos (to_u32 (times_thousand (to_int khz))))
        ∷ []))
  checked w (driver "i2c_driver_install" (int (to_int port) ∷ const "I2C_MODE_MASTER" ∷ []))
  bus ← new_userdata w
  set_own (record { port = to_int port; dev_port = pos 0; dev_addr = 0 })
  pure (bus ∷ [])

-- I2C_LIB, and the methods of a bus and of a device.
pub data Function : Type 0 where
  new_bus close add_device tx rx wrrd remove : Function

unfoldable pub call : World → Function → List Slot → O (List Value)
call w new_bus = old_i2c_new_bus w
call w close = old_i2c_bus_close w
call w add_device = old_i2c_add_device w
call w tx = old_i2c_tx w
call w rx = old_i2c_rx w
call w wrrd = old_i2c_wrrd w
call w remove = old_i2c_remove
