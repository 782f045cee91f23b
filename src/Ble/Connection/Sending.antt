-- ===== src/Ble/Connection/Sending.antt =====
-- Where `ble.uart_send` of components/BLE/ble_ble.c sends after any calls and events.
use clios.Prelude.{
  codes, ℕ, ◌⊎◌, inl, inr, ◌≡◌, refl, ap, ◌∙◌, false, List, [], ◌∷◌, ◌++◌, Option, none, some,
}
use clios.Prelude.Int.{ℤ, pos, negsuc}
use clios.Lua.{boolean, string, done, ◌>>=◌, string_slot}
use clios.Driver.{int, bytes, driver, World, Machine, Call, is_null}
use clios.Ble.{Ble, notify, lua_ble_uart_send, uart_result}
use clios.Ble.Connection.{Step, run, boot, last_word, handle_of, Sends, run-Sends}

abbrev pub mbuf : List ℕ → Call
mbuf payload = driver "ble_hs_mbuf_from_flat" (bytes payload ∷ [])

abbrev pub notification : ℕ → ℤ → Call
notification handle om =
    driver "ble_gattc_notify_custom" (int (pos handle) ∷ int (pos 0) ∷ int om ∷ [])

notify_lem :
    (w : World) (s : Machine Ble) (handle : ℕ) (payload : List ℕ)
    → s.own.conn_handle ≡ pos handle
    → is_null (w.answer s.trace (mbuf payload)) ≡ false
    → notify w 0 payload s
      ≡ done
          (some (
            w.answer
              (s.trace ++ mbuf payload ∷ [])
              (notification handle (w.answer s.trace (mbuf payload)))))
          (record s {
            trace =
                s.trace
                ++ mbuf payload ∷ []
                ++ notification handle (w.answer s.trace (mbuf payload)) ∷ [];
          })
unfolding notify
notify_lem w s handle payload e k = rw k (simp e)

uart_send_from :
    (w : World) (s : Machine Ble) (handle : ℕ) (payload : List ℕ)
    → Sends (pos handle) 0 s.own
    → is_null (w.answer s.trace (mbuf payload)) ≡ false
    → lua_ble_uart_send w (string_slot payload ∷ []) s
      ≡ done
          (uart_result (
            some (
              w.answer
                (s.trace ++ mbuf payload ∷ [])
                (notification handle (w.answer s.trace (mbuf payload))))))
          (record s {
            trace =
                s.trace
                ++ mbuf payload ∷ []
                ++ notification handle (w.answer s.trace (mbuf payload)) ∷ [];
          })
unfolding lua_ble_uart_send
uart_send_from w s handle payload h k =
    simp (h.0, h.1) (rw (notify_lem w s handle payload h.0 k, ◌>>=◌) refl)

uart_send_refused :
    (w : World) (s : Machine Ble) (payload : List ℕ)
    → s.own.conn_handle ≡ negsuc 0
    → lua_ble_uart_send w (string_slot payload ∷ []) s
      ≡ done (boolean false ∷ string (codes "no connection") ∷ []) s
unfolding lua_ble_uart_send
uart_send_refused w s payload h = simp h

-- After any calls and events from the start, the latest of which that concerns the connection made it
-- with a handle: `ble.uart_send` notifies that connection, and always on the attribute 0, whatever
-- handle NimBLE gave to the characteristic.
pub uart_send_connected :
    (w : World) (xs : List Step) (handle : ℕ) (payload : List ℕ)
    → last_word xs ≡ some (some handle)
    → is_null (w.answer (run w xs boot).trace (mbuf payload)) ≡ false
    → (rc : ℤ) × (lua_ble_uart_send w (string_slot payload ∷ []) (run w xs boot)
        ≡ done (uart_result (some rc)) (record (run w xs boot) {
          trace =
              (run w xs boot).trace
              ++ mbuf payload ∷ []
              ++ notification handle (w.answer (run w xs boot).trace (mbuf payload)) ∷ [];
        }))
uart_send_connected w xs handle payload h k =
    let sent = run-Sends w xs boot in
    (
      _,
      uart_send_from w (run w xs boot) handle payload
          (sent.0 ∙ ap (λ (o : Option (Option ℕ)). handle_of o (negsuc 0)) h, sent.1) k,
    )

-- After any calls and events from the start, none of which concerns the connection or the latest of
-- which that does ended it: `ble.uart_send` calls nothing and returns false and a message.
uart_send_unconnected :
    (w : World) (xs : List Step) (payload : List ℕ)
    → (last_word xs ≡ none) ⊎ (last_word xs ≡ some none)
    → lua_ble_uart_send w (string_slot payload ∷ []) (run w xs boot)
      ≡ done (boolean false ∷ string (codes "no connection") ∷ []) (run w xs boot)
uart_send_unconnected w xs payload h = uart_send_refused w (run w xs boot) payload (
    (run-Sends w xs boot).0 ∙ (elim h [
      | inl e ↦ ap (λ (o : Option (Option ℕ)). handle_of o (negsuc 0)) e
      | inr e ↦ ap (λ (o : Option (Option ℕ)). handle_of o (negsuc 0)) e
    ]))
