-- ===== src/Wifi/Interfaces.antt =====
-- The interfaces of components/NET/net_wifi.c: when they exist, and how the two `stop` functions
-- release them.
use clios.Prelude.{
  append_assoc, append-nil, codes, length, take-le, length-append, ℕ, ◌≤◌, ◌≡◌, ◌⊎◌, inl, inr, true,
  false, List, [], ◌∷◌, ◌++◌, arith, if◌then◌else◌,
}
use clios.Prelude.Int.{ℤ, pos, to_int}
use clios.Lua.{◌>>=◌, Slot, string, done, int_slot}
use clios.Lua.Arguments.{opt_integer-cases}
use clios.Driver.Preserves.{Ends}
use clios.Driver.{after, const, int, Call, driver, World, Machine, is_null}
use clios.Wifi.{
  Wifi, Modes, wifi_deinit, ensure_init, wifi_mode, mode_body, apply_mode, wifi_sta_start,
  wifi_sta_stop, wifi_ap_start, wifi_ap_stop, wifi_status, wifi_sta_ip, wifi_ap_ip, interface_ip,
  ip_string, dotted, decimal, byte_at,
}
use clios.Wifi.Calls.{
  Function, mode, status, sta_start, sta_stop, sta_ip, ap_start, ap_stop, ap_ip, call, Step,
  from_lua, event, step, run, wifi_event_handler, Event, sta_started, sta_connected,
  sta_disconnected, ap_started, ap_joined, got_ip, other_event,
}

-- While the driver is not initialised there is no interface.
abbrev pub IsSound : Wifi → Type 0
IsSound d = (d.wifi_init ≡ true) ⊎ ((is_null d.sta_netif ≡ true) × (is_null d.ap_netif ≡ true))

deinit-IsSound :
    (w : World) (s : Machine Wifi) → IsSound s.own → IsSound (after s (wifi_deinit w s)).own
unfolding wifi_deinit
deinit-IsSound w s h = ground arith

apply_mode-init :
    (modes : Modes) (w : World) (m : ℤ) (s : Machine Wifi)
    → s.own.wifi_init ≡ true
    → Ends (λ d. d.wifi_init ≡ true) (apply_mode modes w m s)
unfolding apply_mode
apply_mode-init modes w m s h = ground arith

mode_body-IsSound :
    (modes : Modes) (w : World) (m : ℤ) (s : Machine Wifi)
    → IsSound s.own
    → IsSound (after s (mode_body modes w m s)).own
unfolding mode_body ensure_init
mode_body-IsSound modes w m s h = ground (
  arith,
  apply_mode-init modes w m s,
  apply_mode-init modes w m (record {
    own = record (s.own) { wifi_init = true };
    trace = s.trace ++ driver "esp_wifi_init" (const "WIFI_INIT_CONFIG_DEFAULT" ∷ []) ∷ [];
  }),
)

mode-IsSound :
    (modes : Modes) (w : World) (args : List Slot) (s : Machine Wifi)
    → IsSound s.own
    → IsSound (after s (wifi_mode modes w args s)).own
unfolding wifi_mode
mode-IsSound modes w args s h = elim (opt_integer-cases args 1 modes.sta s) [
  | inl (z, e) ↦ rw (wifi_mode, ◌>>=◌, e) (mode_body-IsSound modes w (to_int z) s h)
  | inr e ↦ rw (wifi_mode, ◌>>=◌, e) h
]

sta_stop-IsSound :
    (w : World) (args : List Slot) (s : Machine Wifi)
    → IsSound s.own
    → IsSound (after s (wifi_sta_stop w args s)).own
unfolding wifi_sta_stop
sta_stop-IsSound w args s h = ground arith

ap_stop-IsSound :
    (w : World) (args : List Slot) (s : Machine Wifi)
    → IsSound s.own
    → IsSound (after s (wifi_ap_stop w args s)).own
unfolding wifi_ap_stop
ap_stop-IsSound w args s h = ground arith

call-IsSound :
    (modes : Modes) (w : World) (f : Function) (args : List Slot) (s : Machine Wifi)
    → IsSound s.own
    → IsSound (after s (call modes w f args s)).own
unfolding call wifi_status wifi_sta_start wifi_ap_start wifi_sta_ip wifi_ap_ip interface_ip
call-IsSound modes w mode args s h = mode-IsSound modes w args s h
call-IsSound modes w status args s h = ground arith
call-IsSound modes w sta_start args s h = ground arith
call-IsSound modes w sta_stop args s h = sta_stop-IsSound w args s h
call-IsSound modes w ap_start args s h = ground arith
call-IsSound modes w ap_stop args s h = ap_stop-IsSound w args s h
call-IsSound modes w sta_ip args s h = ground arith
call-IsSound modes w ap_ip args s h = ground arith

event-IsSound :
    (w : World) (e : Event) (s : Machine Wifi)
    → IsSound s.own
    → IsSound (after s (wifi_event_handler w e s)).own
unfolding wifi_event_handler
event-IsSound w sta_disconnected s h = h
event-IsSound w sta_started s h = h
event-IsSound w sta_connected s h = h
event-IsSound w ap_started s h = h
event-IsSound w ap_joined s h = h
event-IsSound w got_ip s h = h
event-IsSound w other_event s h = h

step-IsSound :
    (modes : Modes) (w : World) (x : Step) (s : Machine Wifi)
    → IsSound s.own
    → IsSound (step modes w x s).own
unfolding step
step-IsSound modes w (from_lua f args) s h = call-IsSound modes w f args s h
step-IsSound modes w (event e) s h = event-IsSound w e s h

-- After any calls and events, whatever the driver answers and also where a call ends in an error,
-- there is an interface only while the driver is initialised.
pub run-IsSound :
    (modes : Modes) (w : World) (steps : List Step) (s : Machine Wifi)
    → IsSound s.own
    → IsSound (run modes w steps s).own
unfolding run
run-IsSound modes w [] s h = h
run-IsSound modes w (x ∷ xs) s h =
    run-IsSound modes w xs (step modes w x s) (step-IsSound modes w x s h)

-- The call that destroys an interface, if it exists.
abbrev pub destroys : ℤ → List Call
destroys h = if is_null h then [] else driver "esp_netif_destroy_default_wifi" (int h ∷ []) ∷ []

abbrev pub shutdown : List Call
shutdown = driver "esp_wifi_stop" [] ∷ driver "esp_wifi_deinit" [] ∷ []

abbrev pub released : Wifi
released = record { wifi_init = false; sta_netif = pos 0; ap_netif = pos 0 }

-- `wifi.sta.stop(1)` on an initialised driver destroys each interface that exists once, the
-- station's before the driver is stopped, and leaves the module as after start-up.
sta_stop_releases :
    (w : World) (s : Machine Wifi)
    → s.own.wifi_init ≡ true
    → wifi_sta_stop w (int_slot (pos 1) ∷ []) s
      ≡ done (string (codes "STA deleted") ∷ []) (record {
        own = released;
        trace = s.trace ++ destroys s.own.sta_netif ++ shutdown ++ destroys s.own.ap_netif;
      })
unfolding wifi_sta_stop
sta_stop_releases w s h = grind (arith, append_assoc, append-nil)

-- `wifi.ap.stop(1)` on an initialised driver with an access point passes the handle of the station
-- to esp_netif_destroy_default_wifi, also where there is no station and it is null; the interface of
-- the access point is destroyed once, after the driver.
ap_stop_releases :
    (w : World) (s : Machine Wifi)
    → s.own.wifi_init ≡ true
    → is_null s.own.ap_netif ≡ false
    → wifi_ap_stop w (int_slot (pos 1) ∷ []) s
      ≡ done (string (codes "AP deleted") ∷ []) (record {
        own = released;
        trace =
            s.trace
            ++ driver "esp_netif_destroy_default_wifi" (int s.own.sta_netif ∷ []) ∷ []
            ++ shutdown
            ++ destroys s.own.ap_netif;
      })
unfolding wifi_ap_stop
ap_stop_releases w s h k = grind (arith, append_assoc, append-nil)

decimal-length : (n : ℕ) → length (decimal n) ≤ 3
unfolding decimal
decimal-length n = ground arith

four_parts_fit :
    (a b c d : List ℕ)
    → length a ≤ 3
    → length b ≤ 3
    → length c ≤ 3
    → length d ≤ 3
    → length (a ++ codes "." ++ b ++ codes "." ++ c ++ codes "." ++ d) ≤ 15
four_parts_fit a b c d h i j k = grind (arith, length-append)

-- The buffer of 16 bytes holds the text of every address: it is never cut.
ip_string-dotted : (ip : List ℕ) → ip_string ip ≡ dotted ip
unfolding ip_string
ip_string-dotted ip = take-le 15 (dotted ip) (
    four_parts_fit (decimal (byte_at ip 0)) (decimal (byte_at ip 1)) (decimal (byte_at ip 2))
      (decimal (byte_at ip 3)) (decimal-length (byte_at ip 0)) (decimal-length (byte_at ip 1))
      (decimal-length (byte_at ip 2)) (decimal-length (byte_at ip 3)))
