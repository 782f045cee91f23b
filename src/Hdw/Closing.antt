-- ===== src/Hdw/Closing.antt =====
-- Handles of components/HDW after they were closed.
use Prim.Native.String.{String}
use clios.Prelude.{◌≡◌, ◌∙◌, ap, true, false, List, [], ◌∷◌, arith}
use Prim.Native.String.{String}
use clios.Prelude.Int.{ℤ, pos, to_u8}
use clios.Lua.{Slot, boolean, udata_slot, int_slot, esp_error_check, pure}
use clios.Driver.{Call, Arg, int, driver, World, Machine, after, is_null}
use clios.Driver.Leads.{Aborts, Aborts-bind, Aborts-esp_error_check}
use clios.Hdw.Adc.{
  Adc, delete_unit, delete_cali, adc_gc, read_value, adc_read_raw, adc_read_mv, adc_close,
}
use clios.Hdw.Dac.{Dac, delete_channel, dac_free, dac_write}

-- The driver refuses a null unit and a null channel.
abbrev pub RefusesNull : World → Type 0
RefusesNull w =
    (cs : List Call)
    → ((xs : List Arg)
        → is_null (w.answer cs (driver "adc_oneshot_read" (int (pos 0) ∷ xs))) ≡ false)
      × ((xs : List Arg)
          → is_null (w.answer cs (driver "dac_oneshot_output_voltage" (int (pos 0) ∷ xs))) ≡ false)

close_unit :
    (w : World) (s : Machine Adc)
    → (after s (adc_close w (udata_slot "hw.adc.ch" ∷ []) s)).own.unit ≡ pos 0
unfolding adc_close adc_gc delete_unit delete_cali
close_unit w s = ground arith

free_channel :
    (w : World) (s : Machine Dac)
    → (after s (dac_free w (udata_slot "hw.dac" ∷ []) s)).own.handle ≡ pos 0
unfolding dac_free delete_channel
free_channel w s = ground arith

read_value-Aborts :
    (w : World) (s : Machine Adc) → RefusesNull w → s.own.unit ≡ pos 0 → Aborts (read_value w s)
unfolding read_value
read_value-Aborts w s h e = Aborts-bind (esp_error_check _) _ _ (
    Aborts-esp_error_check _ _ (
      ap
        (λ (u : ℤ).
          is_null
            (w.answer s.trace (driver "adc_oneshot_read" (int u ∷ int s.own.channel_id ∷ []))))
        e
      ∙ (h s.trace).0 (int s.own.channel_id ∷ [])))

write-Aborts :
    (w : World) (d : Machine Dac) (z : ℤ)
    → RefusesNull w
    → d.own.handle ≡ pos 0
    → Aborts (dac_write w (udata_slot "hw.dac" ∷ int_slot z ∷ []) d)
unfolding dac_write
write-Aborts w d z h e =
    Aborts-bind (esp_error_check _) (λ _. pure (boolean true ∷ [])) _
      (Aborts-esp_error_check _ _ (
        ap
          (λ (u : ℤ). is_null (
            w.answer d.trace
              (driver "dac_oneshot_output_voltage" (int u ∷ int (pos (to_u8 z)) ∷ []))))
          e
        ∙ (h d.trace).1 (int (pos (to_u8 z)) ∷ [])))

abbrev pub handle_only : String → List Slot
handle_only metatable = udata_slot metatable ∷ []

-- Where the drivers refuse a null handle, a channel of `adc` that was closed and one of `dac` that was
-- freed end the program at their next use: `read_raw`, `read_mv` and `write` abort.
closed-Aborts :
    (w : World) (s : Machine Adc) (d : Machine Dac) (z : ℤ)
    → RefusesNull w
    → Aborts (
        adc_read_raw w
          (handle_only "hw.adc.ch")
          (after s (adc_close w (handle_only "hw.adc.ch") s)))
      × Aborts (
          adc_read_mv w
            (handle_only "hw.adc.ch")
            (after s (adc_close w (handle_only "hw.adc.ch") s)))
      × Aborts (
          dac_write w
            (udata_slot "hw.dac" ∷ int_slot z ∷ [])
            (after d (dac_free w (handle_only "hw.dac") d)))
unfolding adc_read_raw adc_read_mv
closed-Aborts w s d z h = (
  Aborts-bind (read_value w) _ _ (read_value-Aborts w _ h (close_unit w s)),
  Aborts-bind (read_value w) _ _ (read_value-Aborts w _ h (close_unit w s)),
  write-Aborts w _ z h (free_channel w d),
)
