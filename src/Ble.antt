-- ===== src/Ble.antt =====
-- The library `ble`, components/BLE/ble_ble.c: the NimBLE host, advertising, and the UART service.
pub mod Hid
pub mod Gatt
pub mod Waiting
pub mod Connection
use clios.Prelude.{
  codes, c_str, ℕ, zero, suc, ◌%◌, Bool, true, false, not, List, [], ◌∷◌, Option, none, some,
  length, if◌then◌else◌,
}
use clios.Prelude.Int.{ℤ, pos, negsuc, to_u32}
use clios.Lua.{
  Slot, slot, Value, boolean, string, message_code, M, ◌>>=◌, ◌>>◌, pure, raise, check_lstring,
  integer_kind, string_kind, is_kind, Kind,
}
use clios.Driver.{
  Arg, int, bytes, const, driver, World, Machine, own_of, set_own, perform, perform_, is_null,
  is_negative,
}
use Prim.Native.String.{String}

-- The static data: g_nimble_ready, g_conn_handle, the handles that NimBLE stores for the two HID
-- reports, and g_nus_tx_handle, to which nothing is ever assigned.
pub record Ble : Type 0 where
  pub nimble_ready : Bool
  pub conn_handle : ℤ
  pub kb_handle : ℕ
  pub mouse_handle : ℕ
  pub nus_tx_handle : ℕ

abbrev pub B : Type 0 → Type 0
B A = M (Machine Ble) A

-- Before the first call.
abbrev pub init : Ble
init = record {
  nimble_ready = false;
  conn_handle = negsuc 0;
  kb_handle = 0;
  mouse_handle = 0;
  nus_tx_handle = 0;
}

-- lua_push_ok_or_err with a status other than ESP_OK.
abbrev pub push_err : List ℕ → List Value
push_err e = boolean false ∷ string e ∷ []

-- ble_on_sync.
abbrev pub ble_on_sync : Ble → Ble
ble_on_sync d = record d { nimble_ready = true }

-- One round of the wait: vTaskDelay for 100 ms, in which the host task may call ble_on_sync.
unfoldable pub wait_round : World → Bool → B (Unit {0})
wait_round w synced = do
  perform_ w (driver "vTaskDelay" (int (pos 100) ∷ []))
  d ← own_of
  set_own (if synced then ble_on_sync d else d)

-- The loop `while (!g_nimble_ready && wait++ < 50)` with so many rounds left; `synced` says in which
-- rounds ble_on_sync is called, counted down.
unfoldable pub wait_sync : World → (ℕ → Bool) → ℕ → B (Unit {0})
wait_sync w synced zero = pure tt
wait_sync w synced (suc left) = do
  d ← own_of
  if d.nimble_ready then pure tt else (wait_round w (synced left) >> wait_sync w synced left)

-- The callbacks, the host task, the wait and the result of lua_ble_init.
unfoldable pub start_host : World → (ℕ → Bool) → B (List Value)
start_host w synced = do
  perform_ w (driver "nimble_port_freertos_init" (const "nimble_host_task" ∷ []))
  wait_sync w synced 50
  d ← own_of
  pure (if d.nimble_ready then boolean true ∷ [] else push_err (codes "nimble sync timeout"))

-- A call of lua_ble_init that must return 0, and what follows.
unfoldable pub or_fail : World → String → List ℕ → B (List Value) → B (List Value)
or_fail w f e rest =
    perform w (driver f []) >>= λ ret. if is_null ret then rest else pure (push_err e)

-- lua_ble_init, which calls nimble_port_init twice.
unfoldable pub lua_ble_init : World → (ℕ → Bool) → B (List Value)
lua_ble_init w synced = do
  d ← own_of
  if d.nimble_ready
      then pure (boolean true ∷ [])
      else or_fail w "esp_bt_controller_mem_release" (codes "bt_controller_mem_release failed") (
          or_fail w "nimble_port_init" (codes "nimble_port_init failed")
            (or_fail w "nimble_port_init" (codes "nimble_port_init failed") (start_host w synced)))

-- What ble_gap_event tells apart: a connection with its status and handle, the end of one, the rest.
pub data GapEvent : Type 0 where
  connect : ℤ → ℕ → GapEvent
  disconnect : ℤ → GapEvent
  other : GapEvent

-- ble_gap_event.
unfoldable pub ble_gap_event : GapEvent → Ble → Ble
ble_gap_event (connect status handle) d =
    if is_null status then record d { conn_handle = pos handle } else d
ble_gap_event (disconnect reason) d = record d { conn_handle = negsuc 0 }
ble_gap_event other d = d

-- The name and the interval of lua_ble_start_advertise.
unfoldable pub adv_name : List Slot → Option (List ℕ)
adv_name args = if is_kind string_kind (slot args 1) then (slot args 1).as_string else none

unfoldable pub adv_interval : List Slot → ℕ
adv_interval args =
    if is_kind integer_kind (slot args 2)
    then elim (slot args 2).as_integer [ none ↦ 100 | some z ↦ to_u32 z ]
    else 100

-- A call whose status other than 0 is a Lua error.
unfoldable pub or_raise : World → String → List Arg → String → B (Unit {0})
or_raise w f xs e =
    perform w (driver f xs) >>= λ rc. if is_null rc then pure tt else raise (message_code e rc)

-- The name in ble_hs_adv_fields, read up to its first NUL; name_len is an uint8_t.
abbrev name_fields : Option (List ℕ) → List Arg
name_fields none = []
name_fields (some n) = bytes (c_str n) ∷ int (pos (length (c_str n) % 256)) ∷ []

-- lua_ble_start_advertise.
unfoldable pub lua_ble_start_advertise : World → List Slot → B (List Value)
unfolding adv_name adv_interval or_raise
lua_ble_start_advertise w args = do
  or_raise w "ble_gap_adv_set_fields" (name_fields (adv_name args))
      "ble_gap_adv_set_fields failed rc=%d"
  or_raise w "ble_gap_adv_start" (int (pos (adv_interval args)) ∷ [])
      "ble_gap_adv_start failed rc=%d"
  pure (boolean true ∷ [])

-- lua_ble_stop_advertise.
unfoldable pub lua_ble_stop_advertise : World → B (List Value)
unfolding or_raise
lua_ble_stop_advertise w =
    or_raise w "ble_gap_adv_stop" [] "ble_gap_adv_stop failed rc=%d" >> pure (boolean true ∷ [])

-- A call of lua_ble_gatt_register on one of the two service tables.
unfoldable pub on_services : World → String → String → List ℕ → B (List Value) → B (List Value)
on_services w f table e rest =
    perform w (driver f (const table ∷ [])) >>= λ rc. if is_null rc then rest else pure (push_err e)

-- lua_ble_gatt_register. NimBLE stores the handles of the HID reports, which have a `val_handle`;
-- the characteristic of the UART service has none.
unfoldable pub lua_ble_gatt_register : World → ℕ → ℕ → B (List Value)
unfolding on_services or_fail
lua_ble_gatt_register w kb mouse =
    on_services w "ble_gatts_count_cfg" "gatt_svr_svcs" (codes "count_cfg uart failed") (
      on_services w "ble_gatts_add_svcs" "gatt_svr_svcs" (codes "add_svcs uart failed") (
        on_services w "ble_gatts_count_cfg" "hid_svc" (codes "count_cfg hid failed") (
          on_services w "ble_gatts_add_svcs" "hid_svc" (codes "add_svcs hid failed") (
            or_fail w "ble_gatts_start" (codes "gatts_start failed") (
              own_of >>= λ d.
              set_own (record d { kb_handle = kb; mouse_handle = mouse })
              >> pure (boolean true ∷ []))))))

-- ble_hs_mbuf_from_flat and ble_gattc_notify_custom on an attribute: `none` where there is no
-- buffer, or the status.
unfoldable pub notify : World → ℕ → List ℕ → B (Option ℤ)
notify w attribute payload = do
  d ← own_of
  om ← perform w (driver "ble_hs_mbuf_from_flat" (bytes payload ∷ []))
  if is_null om
      then pure none
      else (perform w (
            driver "ble_gattc_notify_custom"
              (int d.conn_handle ∷ int (pos attribute) ∷ int om ∷ []))
          >>= λ rc. pure (some rc))

abbrev pub uart_result : Option ℤ → List Value
uart_result none = push_err (codes "mbuf alloc failed")
uart_result (some rc) = if is_null rc then boolean true ∷ [] else push_err (codes "notify failed")

-- lua_ble_uart_send.
unfoldable pub lua_ble_uart_send : World → List Slot → B (List Value)
lua_ble_uart_send w args = do
  payload ← check_lstring args 1
  d ← own_of
  if is_negative d.conn_handle
      then pure (push_err (codes "no connection"))
      else (notify w d.nus_tx_handle payload >>= λ r. pure (uart_result r))
