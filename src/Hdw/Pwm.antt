-- ===== src/Hdw/Pwm.antt =====
-- The library `pwm`, components/HDW/hdw_pwm.c.
use clios.Prelude.{Bool, true, false, List, [], ◌∷◌}
use clios.Prelude.Int.{ℤ, pos, to_int, to_u32}
use clios.Lua.{
  Slot, Value, boolean, userdata, M, ◌>>=◌, ◌>>◌, pure, check_udata, check_integer, opt_integer,
}
use clios.Driver.{int, const, driver, World, Machine, own_of, set_own, perform_, checked}

-- Of lua_pwm_t, what the methods read: the mode, the channel and the timer, and `started`.
pub record Pwm : Type 0 where
  pub speed_mode : ℤ
  pub channel : ℤ
  pub timer_sel : ℤ
  pub started : Bool

-- LEDC_CHANNEL_0, LEDC_TIMER_0 and LEDC_LOW_SPEED_MODE, from ledc_types.h.
pub record Defaults : Type 0 where
  pub channel_0 : ℤ
  pub timer_0 : ℤ
  pub low_speed_mode : ℤ

abbrev pub P : Type 0 → Type 0
P A = M (Machine Pwm) A

-- l_pwm_set_duty.
unfoldable pub pwm_set_duty : World → List Slot → P (List Value)
pwm_set_duty w args = do
  check_udata "hw.pwm" args 1
  duty ← check_integer args 2
  p ← own_of
  checked w
      (driver "ledc_set_duty" (int p.speed_mode ∷ int p.channel ∷ int (pos (to_u32 duty)) ∷ []))
  checked w (driver "ledc_update_duty" (int p.speed_mode ∷ int p.channel ∷ []))
  pure (boolean true ∷ [])

-- l_pwm_set_freq.
unfoldable pub pwm_set_freq : World → List Slot → P (List Value)
pwm_set_freq w args = do
  check_udata "hw.pwm" args 1
  freq ← check_integer args 2
  p ← own_of
  checked w
      (driver "ledc_set_freq" (int p.speed_mode ∷ int p.timer_sel ∷ int (pos (to_u32 freq)) ∷ []))
  pure (boolean true ∷ [])

-- l_pwm_stop.
unfoldable pub pwm_stop : World → List Slot → P (List Value)
pwm_stop w args = do
  check_udata "hw.pwm" args 1
  p ← own_of
  checked w (driver "ledc_stop" (int p.speed_mode ∷ int p.channel ∷ int (pos 0) ∷ []))
  set_own (record p { started = false })
  pure (boolean true ∷ [])

-- l_pwm_start.
unfoldable pub pwm_start : World → List Slot → P (List Value)
pwm_start w args = do
  check_udata "hw.pwm" args 1
  p ← own_of
  checked w (driver "ledc_update_duty" (int p.speed_mode ∷ int p.channel ∷ []))
  set_own (record p { started = true })
  pure (boolean true ∷ [])

-- l_pwm_free, which leaves `started` as it is.
unfoldable pub pwm_free : World → List Slot → P (List Value)
pwm_free w args = do
  check_udata "hw.pwm" args 1
  p ← own_of
  perform_ w (driver "ledc_stop" (int p.speed_mode ∷ int p.channel ∷ int (pos 0) ∷ []))
  pure (boolean true ∷ [])

-- l_pwm_new; of the configurations, the fields that are not constants.
unfoldable pub pwm_new : Defaults → World → List Slot → P (List Value)
pwm_new defaults w args = do
  pin ← check_integer args 1
  freq ← opt_integer args 2 (pos 1000)
  duty ← opt_integer args 3 (pos 0)
  res_bits ← opt_integer args 4 (pos 10)
  channel ← opt_integer args 5 defaults.channel_0
  timer ← opt_integer args 6 defaults.timer_0
  speedmode ← opt_integer args 7 defaults.low_speed_mode
  checked w (
      driver "ledc_timer_config" (
        int (to_int speedmode)
        ∷ int (to_int res_bits)
        ∷ int (to_int timer)
        ∷ int (pos (to_u32 freq))
        ∷ const "LEDC_AUTO_CLK"
        ∷ []))
  set_own (record {
    speed_mode = to_int speedmode;
    channel = to_int channel;
    timer_sel = to_int timer;
    started = false;
  })
  checked w (
      driver "ledc_channel_config" (
        int (to_int pin)
        ∷ int (to_int speedmode)
        ∷ int (to_int channel)
        ∷ int (to_int timer)
        ∷ int (pos (to_u32 duty))
        ∷ []))
  pure (userdata ∷ [])
