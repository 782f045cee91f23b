-- ===== src/Wifi/Calls.antt =====
-- The tables of the library `wifi`, its start-up and its events, components/NET/net_wifi.c.
use clios.Prelude.{List, [], ◌∷◌, false}
use clios.Prelude.Int.{pos}
use clios.Lua.{Slot, Value, pure, ◌>>◌, M}
use clios.Driver.{after, const, driver, World, Machine, perform_, checked}
use clios.Wifi.{
  Wifi, Modes, W, wifi_mode, wifi_status, wifi_sta_start, wifi_sta_stop, wifi_sta_ip, wifi_ap_start,
  wifi_ap_stop, wifi_ap_ip,
}

-- WIFI_LIB, WIFI_STA_LIB and WIFI_AP_LIB.
pub data Function : Type 0 where
  mode status sta_start sta_stop sta_ip ap_start ap_stop ap_ip : Function

unfoldable pub call : Modes → World → Function → List Slot → W (List Value)
call modes w mode = wifi_mode modes w
call modes w status = wifi_status w
call modes w sta_start = wifi_sta_start w
call modes w sta_stop = wifi_sta_stop w
call modes w ap_start = wifi_ap_start w
call modes w ap_stop = wifi_ap_stop w
call modes w sta_ip = wifi_sta_ip w
call modes w ap_ip = wifi_ap_ip w

-- _WifiInitCore, which LUA_OPEN_WIFI calls before it builds the tables.
unfoldable pub wifi_init_core : {D : Type 0} → World → M (Machine D) (Unit {0})
wifi_init_core w = do
  checked w (driver "nvs_flash_init" [])
  checked w (driver "esp_event_loop_create_default" [])
  checked w (driver "esp_netif_init" [])
  checked w (driver "esp_event_handler_register" (const "WIFI_EVENT" ∷ []))
  checked w (driver "esp_event_handler_register" (const "IP_EVENT" ∷ []))

-- The events that wifi_event_handler tells apart; but for the lost connection it only logs them.
pub data Event : Type 0 where
  sta_started sta_connected sta_disconnected ap_started ap_joined got_ip other_event : Event

unfoldable pub wifi_event_handler : World → Event → W (Unit {0})
wifi_event_handler w sta_disconnected = perform_ w (driver "esp_wifi_connect" [])
wifi_event_handler w sta_started = pure tt
wifi_event_handler w sta_connected = pure tt
wifi_event_handler w ap_started = pure tt
wifi_event_handler w ap_joined = pure tt
wifi_event_handler w got_ip = pure tt
wifi_event_handler w other_event = pure tt

-- What happens to the module: a call from Lua or an event of the driver.
pub data Step : Type 0 where
  from_lua : Function → List Slot → Step
  event : Event → Step

unfoldable pub step : Modes → World → Step → Machine Wifi → Machine Wifi
unfolding call wifi_event_handler
step modes w (from_lua f args) s = after s (call modes w f args s)
step modes w (event e) s = after s (wifi_event_handler w e s)

-- Calls and events, one after the other.
unfoldable pub run : Modes → World → List Step → Machine Wifi → Machine Wifi
unfolding step
run modes w [] s = s
run modes w (x ∷ xs) s = run modes w xs (step modes w x s)

-- The static data before LUA_OPEN_WIFI.
abbrev pub init : Machine Wifi
init = record {
  own = record { wifi_init = false; sta_netif = pos 0; ap_netif = pos 0 };
  trace = [];
}
