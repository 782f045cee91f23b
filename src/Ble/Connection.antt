-- ===== src/Ble/Connection.antt =====
-- The connection of components/BLE/ble_ble.c: what the calls from Lua and the events of NimBLE make of
-- it.
pub mod Sending
use clios.Prelude.{
  codes, ℕ, zero, suc, ◌⊎◌, inl, inr, ◌≡◌, refl, ap, ◌∙◌, Bool, true, false, List, [], ◌∷◌, ◌++◌,
  Option, none, some, arith, if◌then◌else◌,
}
use clios.Prelude.Int.{ℤ, pos, negsuc}
use clios.Lua.{Slot, boolean, string, done, M, ◌>>=◌, string_slot}
use clios.Driver.{int, bytes, driver, World, Machine, Call, after, is_null}
use clios.Driver.Preserves.{
  after_preserves, Preserves, preserves_rules, Preserves-bind, Preserves-own, Preserves-if,
  Preserves-pure,
}
use clios.Ble.{
  Ble, init, ble_on_sync, wait_round, wait_sync, start_host, or_fail, lua_ble_init, GapEvent,
  connect, disconnect, other, ble_gap_event, lua_ble_start_advertise, lua_ble_stop_advertise,
  lua_ble_gatt_register, notify, lua_ble_uart_send, uart_result,
}
use clios.Ble.Hid.{lua_ble_hid_send_key, lua_ble_hid_send_mouse}

-- A function of the library with the arguments and what else it depends on, or an event of NimBLE.
pub data Step : Type 0 where
  init_step : (ℕ → Bool) → Step
  start : List Slot → Step
  stop : Step
  gatt_register : ℕ → ℕ → Step
  uart_send : List Slot → Step
  hid_key : List Slot → (ℕ → Option ℤ) → Step
  hid_mouse : List Slot → Bool → Step
  gap : GapEvent → Step
  sync : Step

unfoldable pub step : World → Step → Machine Ble → Machine Ble
step w (init_step synced) s = after s (lua_ble_init w synced s)
step w (start args) s = after s (lua_ble_start_advertise w args s)
step w stop s = after s (lua_ble_stop_advertise w s)
step w (gatt_register kb mouse) s = after s (lua_ble_gatt_register w kb mouse s)
step w (uart_send args) s = after s (lua_ble_uart_send w args s)
step w (hid_key args entry) s = after s (lua_ble_hid_send_key w args entry s)
step w (hid_mouse args given) s = after s (lua_ble_hid_send_mouse w args given s)
step w (gap e) s = record s { own = ble_gap_event e s.own }
step w sync s = record s { own = ble_on_sync s.own }

unfoldable pub run : World → List Step → Machine Ble → Machine Ble
unfolding step
run w [] s = s
run w (x ∷ xs) s = run w xs (step w x s)

-- Before the first call.
abbrev pub boot : Machine Ble
boot = record { own = init; trace = [] }

-- What a step says of the connection: nothing, that there is none, or its handle.
abbrev pub says : Step → Option (Option ℕ)
says (gap (connect status handle)) = if is_null status then some (some handle) else none
says (gap (disconnect reason)) = some none
says (gap other) = none
says (init_step _) = none
says (start _) = none
says stop = none
says (gatt_register _ _) = none
says (uart_send _) = none
says (hid_key _ _) = none
says (hid_mouse _ _) = none
says sync = none

-- What the latest step that says something says.
unfoldable pub last_word : List Step → Option (Option ℕ)
last_word [] = none
last_word (x ∷ xs) = elim (last_word xs) [ none ↦ says x | some v ↦ some v ]

abbrev pub handle_of : Option (Option ℕ) → ℤ → ℤ
handle_of none h = h
handle_of (some none) h = negsuc 0
handle_of (some (some n)) h = pos n

-- The connection and the handle of the characteristic for sending.
abbrev pub Sends : ℤ → ℕ → Ble → Type 0
Sends h n d = (d.conn_handle ≡ h) × (d.nus_tx_handle ≡ n)

module _ (h : ℤ) (n : ℕ) (w : World) where
  wait_round-Sends : (b : Bool) → Preserves (Sends h n) (wait_round w b)
  unfolding wait_round
  wait_round-Sends true = search preserves_rules depth 8
  wait_round-Sends false = search preserves_rules depth 8

  wait_sync-Sends : (synced : ℕ → Bool) (k : ℕ) → Preserves (Sends h n) (wait_sync w synced k)
  unfolding wait_sync
  wait_sync-Sends synced zero = search preserves_rules
  wait_sync-Sends synced (suc k) = Preserves-own _ _ (λ d p.
      Preserves-if _ d.nimble_ready _ _ (Preserves-pure _ tt)
        (Preserves-bind _ _ _ (wait_round-Sends (synced k)) (λ _. wait_sync-Sends synced k)))

  start_host-Sends : (synced : ℕ → Bool) → Preserves (Sends h n) (start_host w synced)
  unfolding start_host
  start_host-Sends synced = search (preserves_rules, wait_sync-Sends) depth 10

  init-Sends : (synced : ℕ → Bool) → Preserves (Sends h n) (lua_ble_init w synced)
  unfolding lua_ble_init or_fail
  init-Sends synced = search (preserves_rules, start_host-Sends) depth 16

  start-Sends : (args : List Slot) → Preserves (Sends h n) (lua_ble_start_advertise w args)
  unfolding lua_ble_start_advertise
  start-Sends args = search preserves_rules depth 12

  stop-Sends : Preserves (Sends h n) (lua_ble_stop_advertise w)
  unfolding lua_ble_stop_advertise
  stop-Sends = search preserves_rules depth 12

  gatt-Sends : (kb mouse : ℕ) → Preserves (Sends h n) (lua_ble_gatt_register w kb mouse)
  unfolding lua_ble_gatt_register
  gatt-Sends kb mouse = search preserves_rules depth 20

  uart-Sends : (args : List Slot) → Preserves (Sends h n) (lua_ble_uart_send w args)
  unfolding lua_ble_uart_send notify
  uart-Sends args = search preserves_rules depth 12

  key-Sends :
      (args : List Slot) (entry : ℕ → Option ℤ)
      → Preserves (Sends h n) (lua_ble_hid_send_key w args entry)
  unfolding lua_ble_hid_send_key
  key-Sends args entry = search preserves_rules depth 14

  mouse-Sends :
      (args : List Slot) (given : Bool)
      → Preserves (Sends h n) (lua_ble_hid_send_mouse w args given)
  unfolding lua_ble_hid_send_mouse
  mouse-Sends args given = search preserves_rules depth 18

-- What a function of the library leaves alone.
kept :
    {A : Type 0} (m : M (Machine Ble) A) (s : Machine Ble)
    → Preserves (Sends s.own.conn_handle s.own.nus_tx_handle) m
    → Sends s.own.conn_handle s.own.nus_tx_handle (after s (m s)).own
kept m s k = after_preserves (Sends s.own.conn_handle s.own.nus_tx_handle) m s k (refl, refl)

step-Sends :
    (w : World) (x : Step) (s : Machine Ble)
    → Sends (handle_of (says x) s.own.conn_handle) s.own.nus_tx_handle (step w x s).own
unfolding step ble_gap_event
step-Sends w (init_step synced) s = kept _ s (init-Sends _ _ w synced)
step-Sends w (start args) s = kept _ s (start-Sends _ _ w args)
step-Sends w stop s = kept _ s (stop-Sends _ _ w)
step-Sends w (gatt_register kb mouse) s = kept _ s (gatt-Sends _ _ w kb mouse)
step-Sends w (uart_send args) s = kept _ s (uart-Sends _ _ w args)
step-Sends w (hid_key args entry) s = kept _ s (key-Sends _ _ w args entry)
step-Sends w (hid_mouse args given) s = kept _ s (mouse-Sends _ _ w args given)
step-Sends w (gap (connect status handle)) s = ground arith
step-Sends w (gap (disconnect reason)) s = (refl, refl)
step-Sends w (gap other) s = (refl, refl)
step-Sends w sync s = (refl, refl)

handle_of_twice :
    (o y : Option (Option ℕ)) (c : ℤ)
    → handle_of o (handle_of y c) ≡ handle_of (elim o [ none ↦ y | some v ↦ some v ]) c
handle_of_twice none y c = refl
handle_of_twice (some none) y c = refl
handle_of_twice (some (some n)) y c = refl

pub run-Sends :
    (w : World) (xs : List Step) (s : Machine Ble)
    → Sends (handle_of (last_word xs) s.own.conn_handle) s.own.nus_tx_handle (run w xs s).own
unfolding run last_word
run-Sends w [] s = (refl, refl)
run-Sends w (x ∷ xs) s =
    let first = step-Sends w x s in
    let rest = run-Sends w xs (step w x s) in
    (
      rest.0
          ∙ ap (handle_of (last_word xs)) first.0
          ∙ handle_of_twice (last_word xs) (says x) s.own.conn_handle,
      rest.1 ∙ first.1,
    )
