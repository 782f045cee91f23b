-- ===== src/Com/I2s.antt =====
-- The library `i2s`, components/COM/com_i2s.c, with the driver of ESP-IDF 5.
pub mod Legacy
use clios.Prelude.{true, List, [], ◌∷◌, if◌then◌else◌}
use clios.Prelude.Int.{ℤ, pos, negsuc, to_int, to_u32, eqb_ℤ}
use clios.Lua.{
  Slot, Value, boolean, integer, string, userdata, message, M, ◌>>=◌, ◌>>◌, pure, raise,
  check_udata, check_integer, check_lstring, opt_integer, esp_error_check,
}
use clios.Driver.{
  push_lstring, Arg, Call, int, bytes, const, malloc, free, driver, World, Machine, own_of, set_own,
  perform, perform_, fetch, checked, is_null, is_negative, first_stored, second_stored,
}

-- lua_i2s_t: the handles of the two channels, 0 while null.
pub record I2s : Type 0 where
  pub tx : ℤ
  pub rx : ℤ

abbrev pub I : Type 0 → Type 0
I A = M (Machine I2s) A

-- F_I2S_WRITE.
unfoldable pub i2s_write : World → List Slot → I (List Value)
i2s_write w args = do
  check_udata "i2s.handle" args 1
  buf ← check_lstring args 2
  h ← own_of
  (err, out) ← fetch w (driver "i2s_channel_write" (int h.tx ∷ bytes buf ∷ []))
  esp_error_check err
  pure (integer (first_stored out) ∷ [])

-- F_I2S_READ from the test of malloc on; `got` is the number of the bytes stored.
unfoldable pub read_into : World → ℤ → ℤ → I (List Value)
read_into w n buf =
    if is_null buf
    then raise (message "oom")
    else (own_of >>= λ h.
        fetch w (driver "i2s_channel_read" (int h.rx ∷ int buf ∷ int (pos (to_u32 n)) ∷ []))
        >>= λ (err, received).
            (esp_error_check err
              >> (push_lstring w received >>= λ text. (perform_ w (free buf) >> pure (text ∷ [])))))

-- F_I2S_READ.
unfoldable pub i2s_read : World → List Slot → I (List Value)
unfolding read_into
i2s_read w args = do
  check_udata "i2s.handle" args 1
  n ← check_integer args 2
  buf ← perform w (malloc (pos (to_u32 n)))
  read_into w n buf

-- The end of a channel that is not null.
unfoldable pub end_channel : World → ℤ → I (Unit {0})
end_channel w c =
    if is_null c
    then pure tt
    else (perform_ w (driver "i2s_channel_disable" (int c ∷ []))
        >> perform_ w (driver "i2s_del_channel" (int c ∷ [])))

-- F_I2S_CLOSE.
unfoldable pub i2s_close : World → List Slot → I (List Value)
unfolding end_channel
i2s_close w args = do
  check_udata "i2s.handle" args 1
  h ← own_of
  end_channel w h.tx
  set_own (record h { tx = pos 0 })
  end_channel w h.rx
  set_own (record { tx = pos 0; rx = pos 0 })
  pure (boolean true ∷ [])

-- The fields of sc that are not constants.
abbrev std_config : ℤ → ℤ → ℤ → ℤ → ℤ → ℤ → List Arg
std_config rate bits bclk ws dout din =
    int (to_int rate)
    ∷ const (
        if eqb_ℤ (to_int bits) (pos 16)
        then "I2S_DATA_BIT_WIDTH_16BIT"
        else "I2S_DATA_BIT_WIDTH_32BIT")
    ∷ int (to_int bclk)
    ∷ int (to_int ws)
    ∷ int (to_int dout)
    ∷ (if is_negative (to_int din) then const "I2S_GPIO_UNUSED" else int (to_int din))
    ∷ []

-- A checked call on the channel for input, if there is a pin for it.
unfoldable pub if_input : World → ℤ → Call → I (Unit {0})
if_input w din c = if is_negative (to_int din) then pure tt else checked w c

-- L_I2S_NEW.
unfoldable pub i2s_new : World → List Slot → I (List Value)
unfolding if_input
i2s_new w args = do
  rate ← opt_integer args 1 (pos 16000)
  bits ← opt_integer args 2 (pos 16)
  mclk ← opt_integer args 3 (pos 0)
  bclk ← check_integer args 4
  ws ← check_integer args 5
  dout ← opt_integer args 6 (negsuc 0)
  din ← opt_integer args 7 (negsuc 0)
  set_own (record { tx = pos 0; rx = pos 0 })
  (err, made) ← fetch w (driver "i2s_new_channel" [])
  set_own (record { tx = first_stored made; rx = second_stored made })
  esp_error_check err
  checked w (
      driver "i2s_channel_init_std_mode"
        (int (first_stored made) ∷ std_config rate bits bclk ws dout din))
  if_input w din (
      driver "i2s_channel_init_std_mode"
        (int (second_stored made) ∷ std_config rate bits bclk ws dout din))
  checked w (driver "i2s_channel_enable" (int (first_stored made) ∷ []))
  if_input w din (driver "i2s_channel_enable" (int (second_stored made) ∷ []))
  pure (userdata ∷ [])

-- I2S_LIB and the methods of a handle.
pub data Function : Type 0 where
  write read close new : Function

unfoldable pub call : World → Function → List Slot → I (List Value)
call w write = i2s_write w
call w read = i2s_read w
call w close = i2s_close w
call w new = i2s_new w
