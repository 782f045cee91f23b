-- ===== src/Com/Can.antt =====
-- The library `can`, components/COM/com_can.c, where HAVE_TWAI is set.
use clios.Prelude.{ℕ, Bool, true, ltb, List, [], ◌∷◌, if◌then◌else◌, length, take}
use clios.Prelude.Int.{ℤ, pos, to_int, to_u32, eqb_ℤ}
use clios.Lua.{
  Slot, slot, Value, nil, boolean, integer, string, M, ◌>>=◌, ◌>>◌, pure, check_udata,
  check_integer, check_lstring, opt_integer,
}
use clios.Driver.{
  new_userdata, int, bytes, const, driver, World, Machine, set_own, perform_, fetch, checked,
  is_null,
}
use Prim.Native.String.{String}

-- lua_can_t, the handle, of which no method reads anything.
pub record Can : Type 0 where
  pub started : Bool

abbrev pub C : Type 0 → Type 0
C A = M (Machine Can) A

-- luaL_optlstring (L, i, "", &n).
abbrev pub opt_data : List Slot → ℕ → C (List ℕ)
opt_data args i = if (slot args i).is_none_or_nil then pure [] else check_lstring args i

-- data_length_code of F_CAN_TX: a frame has at most 8 bytes.
unfoldable pub data_length : List ℕ → ℕ
data_length bs = if ltb 8 (length bs) then 8 else length bs

-- F_CAN_TX; the timeout is the argument of pdMS_TO_TICKS.
unfoldable pub can_tx : World → List Slot → C (List Value)
unfolding data_length
can_tx w args = do
  check_udata "can.handle" args 1
  id ← check_integer args 2
  payload ← opt_data args 3
  checked w (
      driver "twai_transmit" (
        int (pos (to_u32 id))
        ∷ int (pos (data_length payload))
        ∷ bytes (take (data_length payload) payload)
        ∷ int (pos 1000)
        ∷ []))
  pure (boolean true ∷ [])

-- What the driver stores in a twai_message_t: the identifier, the length code and the data.
abbrev frame_values : List ℕ → List Value
frame_values [] = nil ∷ []
frame_values (id ∷ []) = nil ∷ []
frame_values (id ∷ code ∷ payload) = integer (pos id) ∷ string (take code payload) ∷ []

-- F_CAN_RX.
unfoldable pub can_rx : World → List Slot → C (List Value)
can_rx w args = do
  check_udata "can.handle" args 1
  (err, frame) ← fetch w (driver "twai_receive" (int (pos 1000) ∷ []))
  pure (if is_null err then frame_values frame else nil ∷ [])

-- F_CAN_STOP.
unfoldable pub can_stop : World → List Slot → C (List Value)
can_stop w args = do
  check_udata "can.handle" args 1
  perform_ w (driver "twai_stop" [])
  perform_ w (driver "twai_driver_uninstall" [])
  pure (boolean true ∷ [])

-- The timing that L_CAN_START chooses.
unfoldable pub timing : ℤ → String
timing bitrate =
    if eqb_ℤ bitrate (pos 1000)
    then "TWAI_TIMING_CONFIG_1MBITS"
    else if eqb_ℤ bitrate (pos 800)
    then "TWAI_TIMING_CONFIG_800KBITS"
    else if eqb_ℤ bitrate (pos 250)
    then "TWAI_TIMING_CONFIG_250KBITS"
    else "TWAI_TIMING_CONFIG_500KBITS"

-- L_CAN_START, which makes the handle after the driver is started.
unfoldable pub can_start : World → List Slot → C (List Value)
unfolding timing
can_start w args = do
  tx ← check_integer args 1
  rx ← check_integer args 2
  bitrate ← opt_integer args 3 (pos 500)
  checked w (
      driver "twai_driver_install"
        (int (to_int tx) ∷ int (to_int rx) ∷ const (timing (to_int bitrate)) ∷ []))
  checked w (driver "twai_start" [])
  handle ← new_userdata w
  set_own (record { started = true })
  pure (handle ∷ [])

-- The table CAN_LIB and the methods of a handle.
pub data Function : Type 0 where
  transmit receive stop start : Function

unfoldable pub call : World → Function → List Slot → C (List Value)
call w transmit = can_tx w
call w receive = can_rx w
call w stop = can_stop w
call w start = can_start w
