-- ===== src/Tests/WifiRuns.antt =====
-- The library `wifi` (components/NET/net_wifi.c) over drivers that succeed.
use clios.Prelude.{false, codes, ◌≡◌, refl, true, inr, List, [], ◌∷◌, ◌==◌, if◌then◌else◌, length}
use clios.Prelude.Int.{pos}
use clios.Lua.{int_slot}
use clios.Driver.{World, Machine}
use clios.Wifi.{Wifi, Modes, wifi_mode, mode_body, ensure_init, apply_mode, ip_string}
use clios.Wifi.Calls.{mode, from_lua, event, sta_disconnected, Step, run, init}
use clios.Wifi.Interfaces.{IsSound, run-IsSound}

-- Every call returns 0, but the second one, which creates the interface 7.
abbrev world : World
world = record {
  answer = λ calls c. if length calls == 1 then pos 7 else pos 0;
  stored = λ calls c. 10 ∷ 0 ∷ 0 ∷ 255 ∷ [];
  exhausted = λ calls. false;
}

abbrev modes : Modes
modes = record { sta = pos 1; ap = pos 2; apsta = pos 3 }

abbrev steps : List Step
steps =
    from_lua mode (int_slot (pos 2) ∷ [])
    ∷ event sta_disconnected
    ∷ from_lua mode (int_slot (pos 9) ∷ [])
    ∷ []

run_makes_interface :
    (run modes world steps init).own
    ≡ record { wifi_init = true; sta_netif = pos 0; ap_netif = pos 7 }
unfolding run wifi_mode mode_body ensure_init apply_mode
run_makes_interface = refl

run-IsSound_example : IsSound (run modes world steps init).own
run-IsSound_example = run-IsSound modes world steps init (inr (refl, refl))

-- An access point and no station.
abbrev access_point : Machine Wifi
access_point = record {
  own = record { wifi_init = true; sta_netif = pos 0; ap_netif = pos 7 };
  trace = [];
}

ip_string_run : ip_string (192 ∷ 168 ∷ 4 ∷ 1 ∷ []) ≡ codes "192.168.4.1"
unfolding ip_string
ip_string_run = refl
