-- ===== src/Com/Rmt.antt =====
-- The library `rmt`, components/COM/com_rmt.c, where HAVE_RMT_V5 is set.
pub mod Legacy
use clios.Prelude.{
  ℕ, ◌*◌, ◌/◌, ◌%◌, ◌==◌, true, List, [], ◌∷◌, Option, none, some, if◌then◌else◌, length,
}
use clios.Prelude.Int.{ℤ, pos, to_int, to_u32}
use clios.Lua.{
  Slot, Value, boolean, userdata, message, M, ◌>>=◌, ◌>>◌, pure, raise, check_udata, check_integer,
  opt_integer, esp_error_check,
}
use clios.Driver.{
  int, bytes, const, malloc, free, driver, World, Machine, own_of, set_own, perform, perform_,
  fetch, checked, is_null, first_stored,
}

-- lua_rmt_t: the channel and the encoder, 0 while null.
pub record Rmt : Type 0 where
  pub ch : ℤ
  pub enc : ℤ

abbrev pub R : Type 0 → Type 0
R A = M (Machine Rmt) A

-- The second argument of send_raw by its lua_type: a string, a table by what luaL_checkinteger makes
-- of its elements, or anything else.
pub data Payload : Type 0 where
  text : List ℕ → Payload
  durations : List (Option ℤ) → Payload
  other : Payload

-- The loop over the pairs of a table: the durations of the symbols, 15 bits each, or `none` where an
-- element is no number.
unfoldable pub read_symbols : List (Option ℤ) → Option (List ℕ)
read_symbols [] = some []
read_symbols (hi ∷ []) = none
read_symbols (none ∷ lo ∷ rest) = none
read_symbols (some hi ∷ none ∷ rest) = none
read_symbols (some hi ∷ some lo ∷ rest) = elim (read_symbols rest) [
  | none ↦ none
  | some xs ↦ some (to_u32 hi % 32768 ∷ to_u32 lo % 32768 ∷ xs)
]

-- rmt_transmit and rmt_tx_wait_all_done, with their statuses checked.
unfoldable pub transmit : World → List ℕ → R (Unit {0})
transmit w payload = do
  h ← own_of
  checked w (driver "rmt_transmit" (int h.ch ∷ int h.enc ∷ bytes payload ∷ []))
  checked w (driver "rmt_tx_wait_all_done" (int h.ch ∷ const "portMAX_DELAY" ∷ []))

-- The branch for a table from the loop on.
unfoldable pub send_symbols : World → ℤ → Option (List ℕ) → R (List Value)
unfolding transmit
send_symbols w syms none = raise (message "number expected")
send_symbols w syms (some xs) =
    transmit w xs >> (perform_ w (free syms) >> pure (boolean true ∷ []))

-- The branch for a table after calloc.
unfoldable pub send_into : World → Option (List ℕ) → ℤ → R (List Value)
unfolding send_symbols
send_into w xs syms = if is_null syms then raise (message "oom") else send_symbols w syms xs

-- The branch for a table; a symbol has 4 bytes.
unfoldable pub send_table : World → List (Option ℤ) → R (List Value)
unfolding send_into read_symbols
send_table w ds =
    if length ds == 0
    then raise (message "table must contain even count: {hi,lo,...}")
    else if length ds % 2 == 1
    then raise (message "table must contain even count: {hi,lo,...}")
    else (perform w (malloc (pos (length ds / 2 * 4))) >>= send_into w (read_symbols ds))

unfoldable pub send_payload : World → Payload → R (List Value)
unfolding send_table transmit
send_payload w (text payload) = transmit w payload >> pure (boolean true ∷ [])
send_payload w (durations ds) = send_table w ds
send_payload w other = raise (message "arg 2 must be string or table")

-- F_SEND_RAW.
unfoldable pub rmt_send_raw : World → List Slot → Payload → R (List Value)
unfolding send_payload
rmt_send_raw w args payload = check_udata "rmt.tx" args 1 >> send_payload w payload

-- The two guarded deletions of F_CLOSE.
unfoldable pub delete_encoder : World → R (Unit {0})
delete_encoder w = do
  h ← own_of
  if is_null h.enc
      then pure tt
      else (perform_ w (driver "rmt_del_encoder" (int h.enc ∷ []))
          >> set_own (record h { enc = pos 0 }))

unfoldable pub delete_channel : World → R (Unit {0})
delete_channel w = do
  h ← own_of
  if is_null h.ch
      then pure tt
      else (perform_ w (driver "rmt_disable" (int h.ch ∷ []))
          >> perform_ w (driver "rmt_del_channel" (int h.ch ∷ []))
          >> set_own (record h { ch = pos 0 }))

-- F_CLOSE.
unfoldable pub rmt_close : World → List Slot → R (List Value)
unfolding delete_encoder delete_channel
rmt_close w args = do
  check_udata "rmt.tx" args 1
  delete_encoder w
  delete_channel w
  pure (boolean true ∷ [])

-- L_RMT_TX_NEW.
unfoldable pub rmt_tx_new : World → List Slot → R (List Value)
rmt_tx_new w args = do
  pin ← check_integer args 1
  resolution ← opt_integer args 2 (pos 10000000)
  (err, channel) ← fetch w (
      driver "rmt_new_tx_channel"
        (int (to_int pin) ∷ int (pos (to_u32 resolution)) ∷ int (pos 64) ∷ int (pos 4) ∷ []))
  esp_error_check err
  (failure, encoder) ← fetch w (driver "rmt_new_copy_encoder" [])
  esp_error_check failure
  set_own (record { ch = first_stored channel; enc = first_stored encoder })
  checked w (driver "rmt_enable" (int (first_stored channel) ∷ []))
  pure (userdata ∷ [])
