-- ===== src/Hdw/Adc.antt =====
-- The library `adc`, components/HDW/hdw_adc.c, with line fitting as the scheme of calibration.
use clios.Prelude.{codes, Bool, true, false, List, [], ◌∷◌, if◌then◌else◌}
use clios.Prelude.Int.{ℤ, pos, to_int, leb_ℤ, eqb_ℤ}
use clios.Lua.{
  Slot, slot, Value, boolean, integer, string, nil, userdata, M, ◌>>=◌, ◌>>◌, pure, check_udata,
  check_integer, opt_integer, esp_error_check,
}
use clios.Driver.{
  int, const, driver, World, Machine, own_of, set_own, perform_, fetch, checked, is_null,
  first_stored,
}
use Prim.Native.String.{String}

-- lua_adc_ch_t: the handles of the unit and of the calibration, 0 while null, and the channel; its
-- bitwidth is always ADC_BITWIDTH_DEFAULT.
pub record Adc : Type 0 where
  pub unit : ℤ
  pub cali : ℤ
  pub cali_enabled : Bool
  pub unit_id : String
  pub channel_id : ℤ

abbrev pub A : Type 0 → Type 0
A X = M (Machine Adc) X

unfoldable pub delete_unit : World → A (Unit {0})
delete_unit w = do
  ch ← own_of
  if is_null ch.unit
      then pure tt
      else (perform_ w (driver "adc_oneshot_del_unit" (int ch.unit ∷ []))
          >> set_own (record ch { unit = pos 0 }))

unfoldable pub delete_cali : World → A (Unit {0})
delete_cali w = do
  ch ← own_of
  if is_null ch.cali
      then pure tt
      else (perform_ w (driver "adc_cali_delete_scheme_line_fitting" (int ch.cali ∷ []))
          >> set_own (record ch { cali = pos 0 }))

-- l_adc_channel_gc, on a handle.
unfoldable pub adc_gc : World → A (Unit {0})
unfolding delete_unit delete_cali
adc_gc w = delete_unit w >> delete_cali w

-- The attenuation for a number of decibels.
unfoldable pub attenuation : ℤ → String
attenuation db =
    if leb_ℤ (pos 12) db
    then "ADC_ATTEN_DB_12"
    else if leb_ℤ (pos 6) db
    then "ADC_ATTEN_DB_6"
    else if leb_ℤ (pos 3) db
    then "ADC_ATTEN_DB_2_5"
    else "ADC_ATTEN_DB_0"

-- The calibration of l_adc_channel: where it cannot be made, there is none.
unfoldable pub calibrate : World → String → String → A (Unit {0})
calibrate w unit_id atten = do
  (err, cali) ←
      fetch w (driver "adc_cali_create_scheme_line_fitting" (const unit_id ∷ const atten ∷ []))
  ch ← own_of
  set_own (record ch { cali = first_stored cali; cali_enabled = is_null err })

-- l_adc_channel.
unfoldable pub adc_channel : World → List Slot → A (List Value)
unfolding attenuation calibrate
adc_channel w args = do
  unit ← check_integer args 1
  channel ← check_integer args 2
  atten_db ← opt_integer args 3 (pos 11)
  let unit_id = if eqb_ℤ (to_int unit) (pos 1) then "ADC_UNIT_1" else "ADC_UNIT_2"
  let atten = attenuation (to_int atten_db)
  (err, made) ← fetch w (driver "adc_oneshot_new_unit" (const unit_id ∷ []))
  set_own (record {
    unit = first_stored made;
    cali = pos 0;
    cali_enabled = false;
    unit_id = unit_id;
    channel_id = to_int channel;
  })
  esp_error_check err
  checked w (
      driver "adc_oneshot_config_channel"
        (int (first_stored made) ∷ int (to_int channel) ∷ const atten ∷ []))
  if (slot args 4).as_boolean then calibrate w unit_id atten else pure tt
  pure (userdata ∷ [])

-- ESP_ERROR_CHECK (adc_oneshot_read (...)), and the number that it has stored.
unfoldable pub read_value : World → A ℤ
read_value w = do
  ch ← own_of
  (err, raw) ← fetch w (driver "adc_oneshot_read" (int ch.unit ∷ int ch.channel_id ∷ []))
  esp_error_check err
  pure (first_stored raw)

-- l_adc_read_raw.
unfoldable pub adc_read_raw : World → List Slot → A (List Value)
unfolding read_value
adc_read_raw w args = do check_udata "hw.adc.ch" args 1; raw ← read_value w; pure (integer raw ∷ [])

-- The conversion of l_adc_read_mv.
unfoldable pub to_millivolts : World → ℤ → A (List Value)
to_millivolts w raw = do
  ch ← own_of
  (err, mv) ← fetch w (driver "adc_cali_raw_to_voltage" (int ch.cali ∷ int raw ∷ []))
  esp_error_check err
  pure (integer (first_stored mv) ∷ [])

-- l_adc_read_mv.
unfoldable pub adc_read_mv : World → List Slot → A (List Value)
unfolding read_value to_millivolts
adc_read_mv w args = do
  check_udata "hw.adc.ch" args 1
  raw ← read_value w
  ch ← own_of
  if ch.cali_enabled then to_millivolts w raw else pure (nil ∷ string (codes "no_cali") ∷ [])

-- l_adc_close.
unfoldable pub adc_close : World → List Slot → A (List Value)
unfolding adc_gc
adc_close w args = check_udata "hw.adc.ch" args 1 >> adc_gc w >> pure (boolean true ∷ [])
