-- ===== src/Com/I2c.antt =====
-- The library `i2c`, components/COM/com_i2c.c, where HAVE_I2C_V5 is set.
pub mod Legacy
use clios.Prelude.{ℕ, ◌*◌, ◌+◌, true, List, [], ◌∷◌, if◌then◌else◌, take}
use clios.Prelude.Int.{ℤ, pos, negsuc, to_int, to_u32}
use clios.Lua.{
  Slot, Value, boolean, string, userdata, message, M, ◌>>=◌, ◌>>◌, pure, raise, check_udata,
  check_integer, check_lstring, opt_integer, esp_error_check,
}
use clios.Driver.{
  new_userdata, push_lstring, int, bytes, Call, malloc, free, driver, World, Machine, own_of,
  set_own, perform, perform_, fetch, checked, is_null, first_stored,
}

-- A bus and the device that was added to it last: the handles in their lua_i2c_bus_t and lua_i2c_dev_t.
pub record I2c : Type 0 where
  pub bus : ℤ
  pub dev : ℤ

abbrev pub I : Type 0 → Type 0
I A = M (Machine I2c) A

-- khz * 1000.
abbrev pub times_thousand : ℤ → ℤ
times_thousand (pos n) = pos (n * 1000)
times_thousand (negsuc n) = negsuc (n * 1000 + 999)

-- F_I2C_BUS_CLOSE.
unfoldable pub i2c_bus_close : World → List Slot → I (List Value)
i2c_bus_close w args = do
  check_udata "i2c.bus" args 1
  b ← own_of
  perform_ w (driver "i2c_del_master_bus" (int b.bus ∷ []))
  pure (boolean true ∷ [])

-- F_I2C_BUS_ADD_DEV.
unfoldable pub i2c_add_device : World → List Slot → I (List Value)
i2c_add_device w args = do
  check_udata "i2c.bus" args 1
  addr ← check_integer args 2
  khz ← opt_integer args 3 (pos 400)
  b ← own_of
  (err, stored) ← fetch w (
      driver "i2c_master_bus_add_device"
        (int b.bus ∷ int (to_int addr) ∷ int (to_int (times_thousand (to_int khz))) ∷ []))
  esp_error_check err
  set_own (record b { dev = first_stored stored })
  pure (userdata ∷ [])

-- F_I2C_DEV_TX.
unfoldable pub i2c_tx : World → List Slot → I (List Value)
i2c_tx w args = do
  check_udata "i2c.dev" args 1
  buf ← check_lstring args 2
  to ← opt_integer args 3 (pos 1000)
  d ← own_of
  checked w (driver "i2c_master_transmit" (int d.dev ∷ bytes buf ∷ int (to_int to) ∷ []))
  pure (boolean true ∷ [])

-- F_I2C_DEV_RX and F_I2C_DEV_WRRD after the allocation of the buffer of `n` bytes: they differ in
-- the call. ESP_ERROR_CHECK stands before the bytes are pushed, and the length is a size_t.
unfoldable pub read_into : World → ℤ → Call → ℤ → I (List Value)
read_into w n c buf =
    if is_null buf
    then raise (message "oom")
    else (fetch w c >>= λ (err, received).
        (esp_error_check err
          >> (push_lstring w (take (to_u32 n) received) >>= λ text.
              (perform_ w (free buf) >> pure (text ∷ [])))))

-- F_I2C_DEV_RX.
unfoldable pub i2c_rx : World → List Slot → I (List Value)
unfolding read_into
i2c_rx w args = do
  check_udata "i2c.dev" args 1
  n ← check_integer args 2
  to ← opt_integer args 3 (pos 1000)
  d ← own_of
  buf ← perform w (malloc (pos (to_u32 n)))
  read_into w n
      (driver "i2c_master_receive"
        (int d.dev ∷ int buf ∷ int (pos (to_u32 n)) ∷ int (to_int to) ∷ []))
      buf

-- F_I2C_DEV_WRRD.
unfoldable pub i2c_wrrd : World → List Slot → I (List Value)
unfolding read_into
i2c_wrrd w args = do
  check_udata "i2c.dev" args 1
  out ← check_lstring args 2
  rn ← check_integer args 3
  to ← opt_integer args 4 (pos 1000)
  d ← own_of
  r ← perform w (malloc (pos (to_u32 rn)))
  read_into w rn
      (driver "i2c_master_transmit_receive"
        (int d.dev ∷ bytes out ∷ int r ∷ int (pos (to_u32 rn)) ∷ int (to_int to) ∷ []))
      r

-- F_I2C_DEV_REMOVE.
unfoldable pub i2c_remove : World → List Slot → I (List Value)
i2c_remove w args = do
  check_udata "i2c.dev" args 1
  d ← own_of
  perform_ w (driver "i2c_master_bus_rm_device" (int d.dev ∷ []))
  pure (boolean true ∷ [])

-- L_I2C_BUS_NEW; the speed is read and not used.
unfoldable pub i2c_new_bus : World → List Slot → I (List Value)
i2c_new_bus w args = do
  port ← opt_integer args 1 (pos 0)
  sda ← check_integer args 2
  scl ← check_integer args 3
  khz ← opt_integer args 4 (pos 400)
  (err, stored) ←
      fetch w
        (driver "i2c_new_master_bus" (int (to_int port) ∷ int (to_int sda) ∷ int (to_int scl) ∷ []))
  esp_error_check err
  bus ← new_userdata w
  set_own (record { bus = first_stored stored; dev = pos 0 })
  pure (bus ∷ [])

-- The table I2C_LIB, and the methods of a bus and of a device.
pub data Function : Type 0 where
  new_bus close add_device tx rx wrrd remove : Function

unfoldable pub call : World → Function → List Slot → I (List Value)
call w new_bus = i2c_new_bus w
call w close = i2c_bus_close w
call w add_device = i2c_add_device w
call w tx = i2c_tx w
call w rx = i2c_rx w
call w wrrd = i2c_wrrd w
call w remove = i2c_remove w
