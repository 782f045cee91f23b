-- ===== src/Com/I2s/Legacy.antt =====
-- The library `i2s`, components/COM/com_i2s.c, where HAVE_I2S_V5 is not set.
use clios.Prelude.{Bool, true, false, List, [], ◌∷◌, if◌then◌else◌}
use clios.Prelude.Int.{ℤ, pos, negsuc, to_int, to_u32}
use clios.Lua.{
  Slot, Value, boolean, integer, userdata, message, M, ◌>>=◌, ◌>>◌, pure, raise, check_udata,
  check_integer, check_lstring, opt_integer,
}
use clios.Driver.{
  push_lstring, int, bytes, const, malloc, free, driver, World, Machine, own_of, set_own, perform,
  perform_, fetch, checked, is_null, is_negative, first_stored,
}

-- lua_i2s_t.
pub record OldI2s : Type 0 where
  pub port : ℤ
  pub installed : Bool

abbrev pub I : Type 0 → Type 0
I A = M (Machine OldI2s) A

-- F_I2S_WRITE; the status is not looked at.
unfoldable pub old_i2s_write : World → List Slot → I (List Value)
old_i2s_write w args = do
  check_udata "i2s.handle" args 1
  buf ← check_lstring args 2
  h ← own_of
  (err, out) ← fetch w (driver "i2s_write" (int h.port ∷ bytes buf ∷ []))
  pure (integer (first_stored out) ∷ [])

-- F_I2S_READ from the test of malloc on; `got` is the number of the bytes stored.
unfoldable pub read_into : World → ℤ → ℤ → I (List Value)
read_into w n buf =
    if is_null buf
    then raise (message "oom")
    else (own_of >>= λ h.
        fetch w (driver "i2s_read" (int h.port ∷ int buf ∷ int (pos (to_u32 n)) ∷ []))
        >>= λ (err, received).
            (push_lstring w received >>= λ text. (perform_ w (free buf) >> pure (text ∷ []))))

-- F_I2S_READ.
unfoldable pub old_i2s_read : World → List Slot → I (List Value)
unfolding read_into
old_i2s_read w args = do
  check_udata "i2s.handle" args 1
  n ← check_integer args 2
  buf ← perform w (malloc (pos (to_u32 n)))
  read_into w n buf

-- The guarded removal of F_I2S_CLOSE.
unfoldable pub uninstall : World → I (Unit {0})
uninstall w = do
  h ← own_of
  if h.installed
      then (perform_ w (driver "i2s_driver_uninstall" (int h.port ∷ []))
          >> set_own (record h { installed = false }))
      else pure tt

-- F_I2S_CLOSE.
unfoldable pub old_i2s_close : World → List Slot → I (List Value)
unfolding uninstall
old_i2s_close w args = check_udata "i2s.handle" args 1 >> uninstall w >> pure (boolean true ∷ [])

-- L_I2S_NEW; of the configuration, the fields that are not constants.
unfoldable pub old_i2s_new : World → List Slot → I (List Value)
old_i2s_new w args = do
  rate ← opt_integer args 1 (pos 16000)
  bits ← opt_integer args 2 (pos 16)
  mclk ← opt_integer args 3 (pos 0)
  bclk ← check_integer args 4
  ws ← check_integer args 5
  dout ← opt_integer args 6 (negsuc 0)
  din ← opt_integer args 7 (negsuc 0)
  set_own (record { port = pos 0; installed = false })
  checked w (
      driver "i2s_driver_install" (
        int (pos 0)
        ∷ const (if is_negative (to_int din) then "I2S_MODE_TX" else "I2S_MODE_TX | I2S_MODE_RX")
        ∷ int (to_int rate)
        ∷ int (to_int bits)
        ∷ []))
  checked w (
      driver "i2s_set_pin" (
        int (pos 0)
        ∷ int (to_int mclk)
        ∷ int (to_int bclk)
        ∷ int (to_int ws)
        ∷ int (to_int dout)
        ∷ int (to_int din)
        ∷ []))
  set_own (record { port = pos 0; installed = true })
  pure (userdata ∷ [])

-- I2S_LIB and the methods of a handle.
pub data Function : Type 0 where
  write read close new : Function

unfoldable pub call : World → Function → List Slot → I (List Value)
call w write = old_i2s_write w
call w read = old_i2s_read w
call w close = old_i2s_close w
call w new = old_i2s_new w
