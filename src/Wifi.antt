-- ===== src/Wifi.antt =====
-- The Lua library `wifi`, components/NET/net_wifi.c.
pub mod Calls
pub mod Interfaces
use clios.Prelude.{
  codes, get_elem?, Option, none, some, ltb, ◌+◌, ◌/◌, ◌++◌, ℕ, ◌-◌, ◌%◌, Bool, true, false, not,
  List, [], ◌∷◌, leb, ◌==◌, if◌then◌else◌, length, take,
}
use clios.Prelude.Int.{ℤ, pos, to_u8, to_int, eqb_ℤ}
use clios.Lua.{
  Slot, Value, boolean, string, nil, message, M, ◌>>=◌, ◌>>◌, pure, raise, check_string, opt_string,
  opt_integer,
}
use clios.Driver.{
  fetch, int, const, bytes, driver, World, Machine, own_of, set_own, perform, perform_, checked,
  is_null,
}

-- The static data: wifi_init, and sta_netif and ap_netif, which are 0 while null.
pub record Wifi : Type 0 where
  pub wifi_init : Bool
  pub sta_netif : ℤ
  pub ap_netif : ℤ

-- The values of WIFI_MODE_STA, WIFI_MODE_AP and WIFI_MODE_APSTA, from esp_wifi_types.h.
pub record Modes : Type 0 where
  pub sta : ℤ
  pub ap : ℤ
  pub apsta : ℤ

abbrev pub W : Type 0 → Type 0
W A = M (Machine Wifi) A

-- The guarded creation `if (!sta_netif) sta_netif = esp_netif_create_default_wifi_sta()`.
unfoldable pub create_sta : World → W (Unit {0})
create_sta w = do
  d ← own_of
  if is_null d.sta_netif
      then (perform w (driver "esp_netif_create_default_wifi_sta" []) >>= λ h.
          set_own (record d { sta_netif = h }))
      else pure tt

unfoldable pub create_ap : World → W (Unit {0})
create_ap w = do
  d ← own_of
  if is_null d.ap_netif
      then (perform w (driver "esp_netif_create_default_wifi_ap" []) >>= λ h.
          set_own (record d { ap_netif = h }))
      else pure tt

-- esp_netif_destroy_default_wifi (sta_netif); sta_netif = NULL.
unfoldable pub destroy_sta : World → W (Unit {0})
destroy_sta w = do
  d ← own_of
  perform_ w (driver "esp_netif_destroy_default_wifi" (int d.sta_netif ∷ []))
  set_own (record d { sta_netif = pos 0 })

unfoldable pub destroy_ap : World → W (Unit {0})
destroy_ap w = do
  d ← own_of
  perform_ w (driver "esp_netif_destroy_default_wifi" (int d.ap_netif ∷ []))
  set_own (record d { ap_netif = pos 0 })

-- wifi_deinit.
unfoldable pub wifi_deinit : World → W (Unit {0})
unfolding destroy_sta destroy_ap
wifi_deinit w = do
  d ← own_of
  if d.wifi_init
      then (perform_ w (driver "esp_wifi_stop" [])
          >> perform_ w (driver "esp_wifi_deinit" [])
          >> (own_of >>= λ e. if is_null e.sta_netif then pure tt else destroy_sta w)
          >> (own_of >>= λ e. if is_null e.ap_netif then pure tt else destroy_ap w)
          >> (own_of >>= λ e. set_own (record e { wifi_init = false })))
      else pure tt

-- The initialisation at the start of L_WIFI_MODE.
unfoldable pub ensure_init : World → W (Unit {0})
ensure_init w = do
  d ← own_of
  if d.wifi_init
      then pure tt
      else (checked w (driver "esp_wifi_init" (const "WIFI_INIT_CONFIG_DEFAULT" ∷ []))
          >> set_own (record d { wifi_init = true }))

-- The `switch` of L_WIFI_MODE.
unfoldable pub select_mode : Modes → World → ℤ → W (Unit {0})
unfolding create_sta create_ap
select_mode modes w mode =
    if eqb_ℤ mode modes.sta
    then create_sta w
    else if eqb_ℤ mode modes.ap
    then create_ap w
    else if eqb_ℤ mode modes.apsta
    then (create_sta w >> create_ap w)
    else raise (message "invalid wifi mode")

-- L_WIFI_MODE from its `switch` on.
unfoldable pub apply_mode : Modes → World → ℤ → W (List Value)
unfolding select_mode
apply_mode modes w mode = do
  select_mode modes w mode
  checked w (driver "esp_wifi_set_mode" (int mode ∷ []))
  checked w (driver "esp_wifi_start" [])
  pure []

unfoldable pub mode_body : Modes → World → ℤ → W (List Value)
mode_body modes w mode = ensure_init w >> apply_mode modes w mode

-- L_WIFI_MODE.
unfoldable pub wifi_mode : Modes → World → List Slot → W (List Value)
wifi_mode modes w args =
    opt_integer args 1 modes.sta >>= λ number. mode_body modes w (to_int number)

-- strncpy (dst, src, sizeof dst - 1) into a zeroed array of the given size.
abbrev pub strncpy : ℕ → List ℕ → List ℕ
strncpy size src = take (size - 1) src

-- L_WIFI_STA_START; ssid and password of wifi_sta_config_t have 32 and 64 bytes.
unfoldable pub wifi_sta_start : World → List Slot → W (List Value)
wifi_sta_start w args = do
  ssid ← check_string args 1
  pass ← opt_string args 2 []
  checked w (
      driver "esp_wifi_set_config"
        (const "WIFI_IF_STA" ∷ bytes (strncpy 32 ssid) ∷ bytes (strncpy 64 pass) ∷ []))
  checked w (driver "esp_wifi_connect" [])
  pure []

-- L_WIFI_STA_STOP.
unfoldable pub wifi_sta_stop : World → List Slot → W (List Value)
unfolding wifi_deinit destroy_sta
wifi_sta_stop w args = do
  number ← opt_integer args 1 (pos 0)
  let level = to_u8 number
  d ← own_of
  if not d.wifi_init
      then raise (message "WiFi not initialized")
      else if level == 0
      then (checked w (driver "esp_wifi_disconnect" [])
          >> checked w (driver "esp_wifi_stop" [])
          >> pure (string (codes "STA stopped") ∷ []))
      else if level == 1
      then ((if is_null d.sta_netif then pure tt else destroy_sta w)
          >> wifi_deinit w
          >> pure (string (codes "STA deleted") ∷ []))
      else raise (message "Invalid level: use 0=stop, 1=delete")

-- L_WIFI_AP_START; ssid_len is an uint8_t.
unfoldable pub wifi_ap_start : World → List Slot → W (List Value)
wifi_ap_start w args = do
  ssid ← check_string args 1
  pass ← opt_string args 2 []
  channel ← opt_integer args 3 (pos 1)
  let secured = leb 8 (length pass)
  checked w (
      driver "esp_wifi_set_config" (
        const "WIFI_IF_AP"
        ∷ bytes (strncpy 32 ssid)
        ∷ int (pos (length ssid % 256))
        ∷ int (pos (to_u8 channel))
        ∷ const (if secured then "WIFI_AUTH_WPA2_PSK" else "WIFI_AUTH_OPEN")
        ∷ bytes (if secured then strncpy 64 pass else [])
        ∷ []))
  pure []

-- L_WIFI_AP_STOP: the branch for level 1 tests ap_netif and destroys sta_netif.
unfoldable pub wifi_ap_stop : World → List Slot → W (List Value)
unfolding wifi_deinit destroy_sta
wifi_ap_stop w args = do
  number ← opt_integer args 1 (pos 0)
  let level = to_u8 number
  d ← own_of
  if not d.wifi_init
      then raise (message "WiFi not initialized")
      else if level == 0
      then (checked w (driver "esp_wifi_stop" []) >> pure (string (codes "AP stopped") ∷ []))
      else if level == 1
      then ((if is_null d.ap_netif then pure tt else destroy_sta w)
          >> wifi_deinit w
          >> pure (string (codes "AP deleted") ∷ []))
      else raise (message "Invalid level: use 0=stop, 1=delete")

-- L_WIFI_STATUS.
unfoldable pub wifi_status : World → List Slot → W (List Value)
wifi_status w args = do
  err ← perform w (driver "esp_wifi_sta_get_ap_info" [])
  pure (boolean (is_null err) ∷ [])

-- One number of IPSTR, "%d" for a byte.
unfoldable pub decimal : ℕ → List ℕ
decimal n =
    if ltb n 10
    then (48 + n) ∷ []
    else if ltb n 100
    then (48 + n / 10) ∷ (48 + n % 10) ∷ []
    else (48 + n / 100) ∷ (48 + n / 10 % 10) ∷ (48 + n % 10) ∷ []

-- A byte of the address, which the driver stores in 4.
abbrev pub byte_at : List ℕ → ℕ → ℕ
byte_at xs i = elim (get_elem? xs i) [ none ↦ 0 | some n ↦ n % 256 ]

-- The text of IPSTR for IP2STR (&ip.ip).
unfoldable pub dotted : List ℕ → List ℕ
unfolding decimal
dotted ip =
    decimal (byte_at ip 0)
    ++ codes "."
    ++ decimal (byte_at ip 1)
    ++ codes "."
    ++ decimal (byte_at ip 2)
    ++ codes "."
    ++ decimal (byte_at ip 3)

-- What snprintf (ip_str, 16, ...) stores of it, so that the NUL has room.
unfoldable pub ip_string : List ℕ → List ℕ
unfolding dotted
ip_string ip = take 15 (dotted ip)

-- L_WIFI_STA_IP and L_WIFI_AP_IP, which differ in the interface.
unfoldable pub interface_ip : World → ℤ → W (List Value)
unfolding ip_string
interface_ip w netif =
    if is_null netif
    then pure (nil ∷ [])
    else (fetch w (driver "esp_netif_get_ip_info" (int netif ∷ [])) >>= λ (err, ip).
        pure ((if is_null err then string (ip_string ip) else nil) ∷ []))

unfoldable pub wifi_sta_ip : World → List Slot → W (List Value)
unfolding interface_ip
wifi_sta_ip w args = own_of >>= λ d. interface_ip w d.sta_netif

unfoldable pub wifi_ap_ip : World → List Slot → W (List Value)
unfolding interface_ip
wifi_ap_ip w args = own_of >>= λ d. interface_ip w d.ap_netif
