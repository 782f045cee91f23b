-- ===== src/Tests/BleRuns.antt =====
-- The library `ble` (components/BLE/ble_ble.c) over calls that succeed.
use clios.Prelude.{
  codes, ℕ, ◌+◌, ◌*◌, ◌≡◌, refl, false, List, [], ◌∷◌, ◌++◌, Option, none, some, ◌==◌, length,
  replicate, if◌then◌else◌,
}
use clios.Prelude.Int.{ℤ, pos, negsuc}
use clios.Lua.{done, boolean, string, string_slot}
use clios.Driver.{World}
use clios.Ble.{connect, lua_ble_init, lua_ble_uart_send, uart_result}
use clios.Ble.Hid.{key_report, mouse_report}
use clios.Ble.Hid.Layout.{input_bits, report_bits, report_lengths}
use clios.Ble.Waiting.{set_up, delay, init_timeout}
use clios.Ble.Connection.{Step, gap, run, boot, last_word}
use clios.Ble.Connection.Sending.{mbuf, notification, uart_send_connected}

-- Every call returns 0.
abbrev world : World
world = record { answer = λ calls c. pos 0; stored = λ calls c. []; exhausted = λ calls. false }

-- A call whose number from 0 is odd returns 9.
abbrev buffers : World
buffers = record {
  answer = λ calls c. if length calls == 0 then pos 9 else pos 0;
  stored = λ calls c. [];
  exhausted = λ calls. false;
}

-- The key A and an entry that is no integer.
abbrev keys : ℕ → Option ℤ
keys n = if n == 1 then some (pos 4) else none

-- Left, 5 to the left.
mouse_bytes : mouse_report (pos 1) (negsuc 4) (pos 127) (pos 0) ≡ 2 ∷ 1 ∷ 251 ∷ 127 ∷ 0 ∷ []
unfolding mouse_report
mouse_bytes = refl

keyboard_bits : report_bits 1 ≡ 64
unfolding report_bits input_bits
keyboard_bits = refl

report_lengths_example :
    (8 * length (key_report (pos 2) keys) ≡ 8 + report_bits 1)
    × (8 * length (mouse_report (pos 1) (negsuc 4) (pos 127) (pos 0)) ≡ 8 + report_bits 2)
report_lengths_example = report_lengths (pos 2) keys (pos 1) (negsuc 4) (pos 127) (pos 0)

init_timeout_example :
    lua_ble_init world (λ k. false) boot
    ≡ done
        (boolean false ∷ string (codes "nimble sync timeout") ∷ [])
        (record boot { trace = set_up ++ replicate 50 delay })
init_timeout_example = init_timeout world (λ k. false) boot (λ cs f xs. refl) refl (λ k l. refl)

abbrev connected : List Step
connected = gap (connect (pos 0) 5) ∷ gap (connect (pos 2) 6) ∷ []

after_events : (run world connected boot).trace ≡ []
unfolding run
after_events = refl

uart_send_connected_example :
    (rc : ℤ) × (lua_ble_uart_send buffers
        (string_slot (codes "hi") ∷ [])
        (run buffers connected boot)
      ≡ done (uart_result (some rc)) (record (run buffers connected boot) {
        trace =
            (run buffers connected boot).trace
            ++ mbuf (codes "hi") ∷ []
            ++ notification 5 (pos 9) ∷ [];
      }))
unfolding run last_word
uart_send_connected_example = uart_send_connected buffers connected 5 (codes "hi") refl refl
