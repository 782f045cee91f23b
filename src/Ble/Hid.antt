-- ===== src/Ble/Hid.antt =====
-- The HID reports of components/BLE/ble_ble.c and the descriptor of their layout.
pub mod Layout
use clios.Prelude.{
  codes, ℕ, zero, suc, ◌+◌, Bool, true, List, [], ◌∷◌, Option, none, some, if◌then◌else◌, set,
  replicate,
}
use clios.Prelude.Int.{ℤ, pos, to_int, to_u8}
use clios.Lua.{
  Slot, slot, Value, boolean, string, message, M, ◌>>=◌, ◌>>◌, pure, raise, check_integer,
  integer_kind, table_kind, is_kind,
}
use clios.Driver.{World, Machine, own_of, is_null, is_negative}
use clios.Ble.{Ble, B, notify, push_err}

-- hid_report_map.
abbrev pub hid_report_map : List ℕ
hid_report_map =
    0x05 ∷ 0x01 ∷ 0x09 ∷ 0x06 ∷ 0xA1 ∷ 0x01 ∷ 0x85 ∷ 0x01 ∷ 0x05 ∷ 0x07 ∷ 0x19 ∷ 0xE0 ∷ 0x29 ∷ 0xE7
    ∷ 0x15 ∷ 0x00 ∷ 0x25 ∷ 0x01 ∷ 0x75 ∷ 0x01 ∷ 0x95 ∷ 0x08 ∷ 0x81 ∷ 0x02 ∷ 0x95 ∷ 0x01 ∷ 0x75
    ∷ 0x08 ∷ 0x81 ∷ 0x01 ∷ 0x95 ∷ 0x06 ∷ 0x75 ∷ 0x08 ∷ 0x15 ∷ 0x00 ∷ 0x25 ∷ 0x65 ∷ 0x05 ∷ 0x07
    ∷ 0x19 ∷ 0x00 ∷ 0x29 ∷ 0x65 ∷ 0x81 ∷ 0x00 ∷ 0xC0 ∷ 0x05 ∷ 0x01 ∷ 0x09 ∷ 0x02 ∷ 0xA1 ∷ 0x01
    ∷ 0x85 ∷ 0x02 ∷ 0x09 ∷ 0x01 ∷ 0xA1 ∷ 0x00 ∷ 0x05 ∷ 0x09 ∷ 0x19 ∷ 0x01 ∷ 0x29 ∷ 0x03 ∷ 0x15
    ∷ 0x00 ∷ 0x25 ∷ 0x01 ∷ 0x95 ∷ 0x03 ∷ 0x75 ∷ 0x01 ∷ 0x81 ∷ 0x02 ∷ 0x95 ∷ 0x01 ∷ 0x75 ∷ 0x05
    ∷ 0x81 ∷ 0x01 ∷ 0x05 ∷ 0x01 ∷ 0x09 ∷ 0x30 ∷ 0x09 ∷ 0x31 ∷ 0x09 ∷ 0x38 ∷ 0x15 ∷ 0x81 ∷ 0x25
    ∷ 0x7F ∷ 0x75 ∷ 0x08 ∷ 0x95 ∷ 0x03 ∷ 0x81 ∷ 0x06 ∷ 0xC0 ∷ 0xC0 ∷ []

-- hid_send_report: `none` where there is no connection or no buffer, or the status of the call.
unfoldable pub hid_send_report : World → ℕ → List ℕ → B (Option ℤ)
unfolding notify
hid_send_report w attribute report = do
  d ← own_of
  if is_negative d.conn_handle then pure none else notify w attribute report

abbrev pub hid_result : Option ℤ → List Value
hid_result none = push_err (codes "hid send failed")
hid_result (some rc) = if is_null rc then boolean true ∷ [] else push_err (codes "hid send failed")

-- The loop over the table of key codes, with the index `i` and so many rounds left; an entry that is
-- no integer is `none`, and leaves its byte alone.
unfoldable pub put_keys : (ℕ → Option ℤ) → ℕ → ℕ → List ℕ → List ℕ
put_keys entry i zero report = report
put_keys entry i (suc left) report =
    put_keys entry (i + 1) left
      (elim (entry (i + 1)) [ none ↦ report | some z ↦ set report (3 + i) (to_u8 z) ])

-- The report of lua_ble_hid_send_key, by the modifiers and the table.
unfoldable pub key_report : ℤ → (ℕ → Option ℤ) → List ℕ
unfolding put_keys
key_report modifiers entry =
    put_keys entry 0 6 (set (set (replicate 9 0) 0 1) 1 (to_u8 (to_int modifiers)))

-- lua_ble_hid_send_key; the second argument is a table with the given entries, if it is a table.
unfoldable pub lua_ble_hid_send_key : World → List Slot → (ℕ → Option ℤ) → B (List Value)
unfolding key_report hid_send_report
lua_ble_hid_send_key w args entry =
    if is_kind integer_kind (slot args 1)
    then (if is_kind table_kind (slot args 2)
        then (check_integer args 1 >>= λ modifiers. own_of >>= λ d.
            hid_send_report w d.kb_handle (key_report modifiers entry) >>= λ r. pure (hid_result r))
        else raise (message "keycodes must be table"))
    else raise (message "modifiers must be integer")

-- The report of lua_ble_hid_send_mouse: an int8_t in an array of uint8_t is its byte.
unfoldable pub mouse_report : ℤ → ℤ → ℤ → ℤ → List ℕ
mouse_report buttons x y wheel =
    2 ∷ to_u8 (to_int buttons) ∷ to_u8 (to_int x) ∷ to_u8 (to_int y) ∷ to_u8 (to_int wheel) ∷ []

-- lua_ble_hid_send_mouse; `wheel_given` is the test of lua_gettop.
unfoldable pub lua_ble_hid_send_mouse : World → List Slot → Bool → B (List Value)
unfolding mouse_report hid_send_report
lua_ble_hid_send_mouse w args wheel_given = do
  buttons ← check_integer args 1
  x ← check_integer args 2
  y ← check_integer args 3
  wheel ← if wheel_given then check_integer args 4 else pure (pos 0)
  d ← own_of
  r ← hid_send_report w d.mouse_handle (mouse_report buttons x y wheel)
  pure (hid_result r)
