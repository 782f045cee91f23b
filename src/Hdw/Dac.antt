-- ===== src/Hdw/Dac.antt =====
-- The library `dac`, components/HDW/hdw_dac.c, with the driver that it needs.
use clios.Prelude.{true, List, [], ◌∷◌, if◌then◌else◌}
use clios.Prelude.Int.{ℤ, pos, to_int, to_u8}
use clios.Lua.{
  Slot, Value, boolean, userdata, M, ◌>>=◌, ◌>>◌, pure, check_udata, check_integer, esp_error_check,
}
use clios.Driver.{
  int, driver, World, Machine, own_of, set_own, perform_, fetch, checked, is_null, first_stored,
}

-- lua_dac_t: the handle of the channel, 0 while null, and its number.
pub record Dac : Type 0 where
  pub handle : ℤ
  pub channel : ℤ

abbrev pub D : Type 0 → Type 0
D A = M (Machine Dac) A

-- l_dac_write: the value is an uint8_t.
unfoldable pub dac_write : World → List Slot → D (List Value)
dac_write w args = do
  check_udata "hw.dac" args 1
  v ← check_integer args 2
  d ← own_of
  checked w (driver "dac_oneshot_output_voltage" (int d.handle ∷ int (pos (to_u8 v)) ∷ []))
  pure (boolean true ∷ [])

unfoldable pub delete_channel : World → D (Unit {0})
delete_channel w = do
  d ← own_of
  if is_null d.handle
      then pure tt
      else (perform_ w (driver "dac_oneshot_del_channel" (int d.handle ∷ []))
          >> set_own (record d { handle = pos 0 }))

-- l_dac_free.
unfoldable pub dac_free : World → List Slot → D (List Value)
unfolding delete_channel
dac_free w args = check_udata "hw.dac" args 1 >> delete_channel w >> pure (boolean true ∷ [])

-- l_dac_new.
unfoldable pub dac_new : World → List Slot → D (List Value)
dac_new w args = do
  channel ← check_integer args 1
  (err, made) ← fetch w (driver "dac_oneshot_new_channel" (int (to_int channel) ∷ []))
  set_own (record { handle = first_stored made; channel = to_int channel })
  esp_error_check err
  pure (userdata ∷ [])
