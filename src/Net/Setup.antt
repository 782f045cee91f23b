-- ===== src/Net/Setup.antt =====
-- The libraries `net`, `mdns` and `wsc`, components/NET/net_net.c, net_mdns.c and net_websocket.c.
pub mod Startup
use clios.Prelude.{
  codes, ℕ, Bool, true, false, List, [], ◌∷◌, if◌then◌else◌, ◌||◌, Option, none, some, length,
}
use clios.Prelude.Int.{ℤ, pos, to_int, to_u16, eqb_ℤ, to_u32}
use clios.Lua.{
  Slot, slot, Value, boolean, integer, string, nil, userdata, number, message_code, M, ◌>>=◌, ◌>>◌,
  pure, raise, check_udata, check_integer, check_lstring, check_string, opt_string, esp_error_check,
}
use clios.Driver.{
  int, bytes, driver, World, Machine, own_of, set_own, perform, perform_, fetch, checked, is_null,
}

-- g_net_inited.
pub record Net : Type 0 where
  pub net_inited : Bool

-- ESP_ERR_NVS_NO_FREE_PAGES and ESP_ERR_NVS_NEW_VERSION_FOUND, from nvs.h.
pub record NvsErrors : Type 0 where
  pub no_free_pages : ℤ
  pub new_version_found : ℤ

-- nvs_flash_init, and again after an erasure where the partition wants it; another error is ignored.
unfoldable pub init_nvs : {D : Type 0} → NvsErrors → World → M (Machine D) (Unit {0})
init_nvs errors w = do
  err ← perform w (driver "nvs_flash_init" [])
  if eqb_ℤ err errors.no_free_pages || eqb_ℤ err errors.new_version_found
      then (checked w (driver "nvs_flash_erase" []) >> checked w (driver "nvs_flash_init" []))
      else pure tt

-- L_NET_INIT where g_net_inited is false.
unfoldable pub set_up : NvsErrors → World → M (Machine Net) (Unit {0})
unfolding init_nvs
set_up errors w = do
  init_nvs errors w
  checked w (driver "esp_netif_init" [])
  checked w (driver "esp_event_loop_create_default" [])
  set_own (record { net_inited = true })

-- L_NET_INIT.
unfoldable pub net_init : NvsErrors → World → M (Machine Net) (List Value)
unfolding set_up
net_init errors w = do
  d ← own_of
  if d.net_inited then pure tt else set_up errors w
  pure (boolean true ∷ [])

-- L_NET_TIME, the microseconds since the start divided by 1000000.0.
unfoldable pub net_time : World → M (Machine Net) (List Value)
net_time w = do us ← perform w (driver "esp_timer_get_time" []); pure (number us 1000000 ∷ [])

-- The interface that L_NET_HOSTNAME asks: the station's, or else that of Ethernet.
unfoldable pub find_netif : {D : Type 0} → World → M (Machine D) ℤ
find_netif w = do
  netif ← perform w (driver "esp_netif_get_handle_from_ifkey" (bytes (codes "WIFI_STA_DEF") ∷ []))
  if is_null netif
      then perform w (driver "esp_netif_get_handle_from_ifkey" (bytes (codes "ETH_DEF") ∷ []))
      else pure netif

-- L_NET_HOSTNAME with an interface: an argument that is not nil is its new name.
unfoldable pub hostname_of : {D : Type 0} → World → List Slot → ℤ → M (Machine D) (List Value)
hostname_of w args netif = do
  if (slot args 1).is_none_or_nil
      then pure tt
      else (check_string args 1 >>= λ h.
          checked w (driver "esp_netif_set_hostname" (int netif ∷ bytes h ∷ [])))
  (err, name) ← fetch w (driver "esp_netif_get_hostname" (int netif ∷ []))
  esp_error_check err
  pure (string name ∷ [])

-- L_NET_HOSTNAME.
unfoldable pub net_hostname : World → List Slot → M (Machine Net) (List Value)
unfolding find_netif hostname_of
net_hostname w args = do
  netif ← find_netif w
  if is_null netif then pure (nil ∷ []) else hostname_of w args netif

-- L_MDNS_START; the library keeps no data.
unfoldable pub mdns_start : World → List Slot → M (Machine (Unit {0})) (List Value)
mdns_start w args = do
  host ← check_string args 1
  inst ← opt_string args 2 host
  checked w (driver "mdns_init" [])
  checked w (driver "mdns_hostname_set" (bytes host ∷ []))
  checked w (driver "mdns_instance_name_set" (bytes inst ∷ []))
  pure (boolean true ∷ [])

-- L_MDNS_ADD; the port is an uint16_t of mdns_service_add.
unfoldable pub mdns_add_service : World → List Slot → M (Machine (Unit {0})) (List Value)
mdns_add_service w args = do
  name ← check_string args 1
  type ← check_string args 2
  proto ← opt_string args 3 (codes "_tcp")
  port ← check_integer args 4
  checked w (
      driver "mdns_service_add"
        (bytes name ∷ bytes type ∷ bytes proto ∷ int (pos (to_u16 (to_int port))) ∷ []))
  pure (boolean true ∷ [])

-- lua_ws_t: h->c, 0 while null.
pub record Websocket : Type 0 where
  pub client : ℤ

-- L_WS_CONNECT.
unfoldable pub ws_connect : World → List Slot → M (Machine Websocket) (List Value)
ws_connect w args = do
  url ← check_string args 1
  c ← perform w (driver "esp_websocket_client_init" (bytes url ∷ []))
  set_own (record { client = c })
  err ← perform w (driver "esp_websocket_client_start" (int c ∷ []))
  if is_null err then pure (userdata ∷ []) else raise (message_code "esp_err=%d" err)

-- ws_send.
unfoldable pub ws_send : World → List Slot → M (Machine Websocket) (List Value)
ws_send w args = do
  check_udata "ws.handle" args 1
  msg ← check_lstring args 2
  h ← own_of
  r ← perform w (driver "esp_websocket_client_send_text" (int h.client ∷ bytes msg ∷ []))
  pure (integer r ∷ [])

-- The guarded deletion of ws_close.
unfoldable pub ws_destroy : World → M (Machine Websocket) (Unit {0})
ws_destroy w = do
  h ← own_of
  if is_null h.client
      then pure tt
      else (perform_ w (driver "esp_websocket_client_stop" (int h.client ∷ []))
          >> perform_ w (driver "esp_websocket_client_destroy" (int h.client ∷ []))
          >> set_own (record { client = pos 0 }))

-- ws_close.
unfoldable pub ws_close : World → List Slot → M (Machine Websocket) (List Value)
unfolding ws_destroy
ws_close w args = check_udata "ws.handle" args 1 >> ws_destroy w >> pure (boolean true ∷ [])
