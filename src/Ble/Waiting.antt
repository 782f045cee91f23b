-- ===== src/Ble/Waiting.antt =====
-- The wait for NimBLE in `lua_ble_init`, components/BLE/ble_ble.c.
use clios.Prelude.{
  codes, ℕ, zero, suc, ◌<◌, ◌≡◌, refl, sym, ap, ◌∙◌, Bool, true, false, List, [], ◌∷◌, ◌++◌, arith,
  if◌then◌else◌, append-nil, append_assoc, replicate, inl, inr, Bool-cases,
}
use clios.Prelude.Int.{pos}
use clios.Lua.{Value, boolean, string, done, pure, ◌>>=◌, ◌>>◌}
use clios.Driver.{Arg, Call, int, const, driver, World, Machine, own_of}
use clios.Ble.{
  Ble, ble_on_sync, wait_round, wait_sync, start_host, or_fail, B, lua_ble_init, push_err,
}
use Prim.Native.String.{String}

-- Every call of a function of the libraries returns 0.
abbrev pub Succeeds : World → Type 0
Succeeds w = (cs : List Call) (f : String) (xs : List Arg) → w.answer cs (driver f xs) ≡ pos 0

abbrev pub delay : Call
delay = driver "vTaskDelay" (int (pos 100) ∷ [])

-- The calls of `lua_ble_init` before the wait.
abbrev pub set_up : List Call
set_up =
    driver "esp_bt_controller_mem_release" []
    ∷ driver "nimble_port_init" []
    ∷ driver "nimble_port_init" []
    ∷ driver "nimble_port_freertos_init" (const "nimble_host_task" ∷ [])
    ∷ []

abbrev prepared : Machine Ble → Machine Ble
prepared s = record s { trace = s.trace ++ set_up }

module _ (w : World) (synced : ℕ → Bool) where
  -- The state after one round.
  abbrev waited : Bool → Machine Ble → Machine Ble
  waited b s = record {
    own = if b then ble_on_sync s.own else s.own;
    trace = s.trace ++ delay ∷ [];
  }

  wait_round_lem : (b : Bool) (s : Machine Ble) → wait_round w b s ≡ done tt (waited b s)
  unfolding wait_round
  wait_round_lem b s = refl

  wait_sync_end : (s : Machine Ble) → wait_sync w synced 0 s ≡ done tt s
  unfolding wait_sync
  wait_sync_end s = refl

  wait_sync_ready :
      (n : ℕ) (s : Machine Ble) → s.own.nimble_ready ≡ true → wait_sync w synced n s ≡ done tt s
  unfolding wait_sync
  wait_sync_ready zero s h = refl
  wait_sync_ready (suc n) s h = rw h refl

  wait_sync_more :
      (n : ℕ) (s : Machine Ble)
      → s.own.nimble_ready ≡ false
      → wait_sync w synced (suc n) s ≡ wait_sync w synced n (waited (synced n) s)
  unfolding wait_sync wait_round
  wait_sync_more n s h = rw h refl

  -- The loop ends with NimBLE ready if it is synchronised in one of the rounds.
  wait_sync_synced :
      (n k : ℕ) (s : Machine Ble)
      → k < n
      → synced k ≡ true
      → (t : Machine Ble) × (wait_sync w synced n s ≡ done tt t) × (t.own.nimble_ready ≡ true)
  wait_sync_synced zero k s h e = elim h [ ]
  wait_sync_synced (suc n) k s h e = elim (Bool-cases s.own.nimble_ready) [
    | inl r ↦ (s, wait_sync_ready (suc n) s r, r)
    | inr r ↦ elim (Bool-cases (synced n)) [
      | inl b ↦ (
        waited (synced n) s,
        wait_sync_more n s r ∙ wait_sync_ready n (waited (synced n) s) (rw b refl),
        rw b refl,
      )
      | inr b ↦
          let (t, p, q) = wait_sync_synced n k (waited (synced n) s) (ground arith) e in
          (t, wait_sync_more n s r ∙ p, q)
    ]
  ]

  -- Where it is in none, the loop makes all its delays and changes nothing.
  wait_sync_timeout :
      (n : ℕ) (s : Machine Ble)
      → s.own.nimble_ready ≡ false
      → ((k : ℕ) → k < n → synced k ≡ false)
      → wait_sync w synced n s ≡ done tt (record s { trace = s.trace ++ replicate n delay })
  wait_sync_timeout zero s r h =
      wait_sync_end s
      ∙ ap (λ (l : List Call). done tt (record s { trace = l })) (sym (append-nil s.trace))
  wait_sync_timeout (suc n) s r h =
      wait_sync_more n s r
      ∙ rw (h n (omega arith)) (wait_sync_timeout n (waited false s) r (λ k l. h k (omega arith)))
      ∙ ap (λ (l : List Call). done tt (record s { trace = l }))
          (append_assoc s.trace (delay ∷ []) (replicate n delay))

  -- A call that must return 0 and does.
  called : String → Machine Ble → Machine Ble
  called f s = record s { trace = s.trace ++ driver f [] ∷ [] }

  or_fail_lem :
      (f : String) (e : List ℕ) (rest : B (List Value)) (s : Machine Ble)
      → Succeeds w
      → or_fail w f e rest s ≡ rest (called f s)
  unfolding or_fail called
  or_fail_lem f e rest s good = rw (good) refl

  abbrev pub finish : B (List Value)
  finish = do
    wait_sync w synced 50
    d ← own_of
    pure (if d.nimble_ready then boolean true ∷ [] else push_err (codes "nimble sync timeout"))

  start_host_lem :
      (s : Machine Ble)
      → start_host w synced s
        ≡ finish (record s {
          trace =
              s.trace ++ driver "nimble_port_freertos_init" (const "nimble_host_task" ∷ []) ∷ [];
        })
  unfolding start_host
  start_host_lem s = refl

  first_test :
      (s : Machine Ble)
      → s.own.nimble_ready ≡ false
      → lua_ble_init w synced s
        ≡ or_fail w "esp_bt_controller_mem_release"
            (codes "bt_controller_mem_release failed")
            (or_fail w "nimble_port_init" (codes "nimble_port_init failed") (
              or_fail w "nimble_port_init" (codes "nimble_port_init failed") (start_host w synced)))
            s
  unfolding lua_ble_init
  first_test s r = simp r

  before_wait :
      (s : Machine Ble)
      → Succeeds w
      → s.own.nimble_ready ≡ false
      → lua_ble_init w synced s ≡ finish (prepared s)
  unfolding called
  before_wait s good r =
      first_test s r
      ∙ or_fail_lem _ _ _ s good
      ∙ or_fail_lem _ _ _ _ good
      ∙ or_fail_lem _ _ _ _ good
      ∙ start_host_lem _
      ∙ ap (λ (l : List Call). finish (record s { trace = l })) (simp append_assoc)

-- If every call of NimBLE succeeds and it is synchronised in one of the 50 rounds of the wait,
-- `ble.init` returns true and NimBLE is ready.
init_synced :
    (w : World) (synced : ℕ → Bool) (k : ℕ) (s : Machine Ble)
    → Succeeds w
    → s.own.nimble_ready ≡ false
    → k < 50
    → synced k ≡ true
    → (t : Machine Ble) × (lua_ble_init w synced s ≡ done (boolean true ∷ []) t)
      × (t.own.nimble_ready ≡ true)
init_synced w synced k s good r h e =
    let (t, p, q) = wait_sync_synced w synced 50 k (prepared s) h e in
    (t, before_wait w synced s good r ∙ rw (p, q, ◌>>=◌) refl, q)

-- If every call of NimBLE succeeds and it is synchronised in none of the 50 rounds, `ble.init` returns
-- false and a message after exactly 50 delays of 100 ms, and leaves the static data as they were.
pub init_timeout :
    (w : World) (synced : ℕ → Bool) (s : Machine Ble)
    → Succeeds w
    → s.own.nimble_ready ≡ false
    → ((k : ℕ) → k < 50 → synced k ≡ false)
    → lua_ble_init w synced s
      ≡ done
          (boolean false ∷ string (codes "nimble sync timeout") ∷ [])
          (record s { trace = (s.trace ++ set_up) ++ replicate 50 delay })
init_timeout w synced s good r h =
    before_wait w synced s good r
    ∙ rw (wait_sync_timeout w synced 50 (prepared s) r h, ◌>>=◌, r) refl
