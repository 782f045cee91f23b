-- ===== src/Com/Rmt/Legacy.antt =====
-- The library `rmt`, components/COM/com_rmt.c, where HAVE_RMT_V5 is not set. An uint16_t is stored in
-- a field of 15 bits, so that the symbols are those of `read_symbols`.
use clios.Prelude.{
  ℕ, ◌*◌, ◌/◌, ◌%◌, ◌==◌, Bool, true, false, List, [], ◌∷◌, Option, none, some, if◌then◌else◌,
  length,
}
use clios.Prelude.Int.{ℤ, pos, to_int}
use clios.Lua.{
  Slot, Value, boolean, userdata, message, bad_argument, M, ◌>>=◌, ◌>>◌, pure, raise, check_udata,
  check_integer, opt_integer,
}
use clios.Driver.{
  int, bytes, const, malloc, free, driver, World, Machine, own_of, set_own, perform, perform_,
  checked, is_null,
}
use clios.Com.Rmt.{Payload, text, durations, other, read_symbols}

-- lua_rmt_t; the channel is always RMT_CHANNEL_0, which is 0.
pub record OldRmt : Type 0 where
  pub ch : ℤ
  pub installed : Bool

abbrev pub R : Type 0 → Type 0
R A = M (Machine OldRmt) A

-- F_SEND_RAW from the loop on.
unfoldable pub send_items : World → ℤ → Option (List ℕ) → R (List Value)
send_items w items none = raise (message "number expected")
send_items w items (some xs) = do
  h ← own_of
  checked w (driver "rmt_write_items" (int h.ch ∷ bytes xs ∷ int (pos 1) ∷ []))
  perform_ w (free items)
  pure (boolean true ∷ [])

unfoldable pub items_into : World → Option (List ℕ) → ℤ → R (List Value)
unfolding send_items
items_into w xs items = if is_null items then raise (message "oom") else send_items w items xs

-- F_SEND_RAW with a table; an item has 4 bytes.
unfoldable pub old_send_table : World → List (Option ℤ) → R (List Value)
unfolding items_into
old_send_table w ds =
    if length ds == 0
    then raise (message "table must contain even count: {hi,lo,...}")
    else if length ds % 2 == 1
    then raise (message "table must contain even count: {hi,lo,...}")
    else (perform w (malloc (pos (length ds / 2 * 4))) >>= items_into w (read_symbols ds))

-- luaL_checktype (L, 2, LUA_TTABLE).
unfoldable pub table_payload : World → Payload → R (List Value)
unfolding old_send_table
table_payload w (text x) = raise (bad_argument 2)
table_payload w (durations ds) = old_send_table w ds
table_payload w other = raise (bad_argument 2)

-- F_SEND_RAW.
unfoldable pub old_rmt_send_raw : World → List Slot → Payload → R (List Value)
unfolding table_payload
old_rmt_send_raw w args payload = check_udata "rmt.tx" args 1 >> table_payload w payload

unfoldable pub remove_driver : World → R (Unit {0})
remove_driver w = do
  h ← own_of
  if h.installed
      then (perform_ w (driver "rmt_driver_uninstall" (int h.ch ∷ []))
          >> set_own (record h { installed = false }))
      else pure tt

-- F_CLOSE.
unfoldable pub old_rmt_close : World → List Slot → R (List Value)
unfolding remove_driver
old_rmt_close w args = check_udata "rmt.tx" args 1 >> remove_driver w >> pure (boolean true ∷ [])

-- L_RMT_TX_NEW; the resolution is read and not used.
unfoldable pub old_rmt_tx_new : World → List Slot → R (List Value)
old_rmt_tx_new w args = do
  pin ← check_integer args 1
  resolution ← opt_integer args 2 (pos 10000000)
  set_own (record { ch = pos 0; installed = false })
  checked w (
      driver "rmt_config"
        (const "RMT_CHANNEL_0" ∷ int (to_int pin) ∷ int (pos 80) ∷ int (pos 1) ∷ []))
  checked w (driver "rmt_driver_install" (const "RMT_CHANNEL_0" ∷ int (pos 0) ∷ int (pos 0) ∷ []))
  set_own (record { ch = pos 0; installed = true })
  pure (userdata ∷ [])
