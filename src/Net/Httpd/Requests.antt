-- ===== src/Net/Httpd/Requests.antt =====
-- The requests to a server, components/NET/net_httpd.c: no callback is ever found.
use clios.Prelude.{ℕ, ◌≡◌, refl, Bool, List, [], ◌∷◌, none, some}
use clios.Prelude.Int.{pos}
use clios.Lua.{Slot}
use clios.Driver.{driver, World, Machine, after, perform_}
use clios.Driver.Preserves.{Preserves, preserves_rules, Preserves-abort, after_preserves}
use clios.Net.Httpd.{
  number, text, Table, Httpd, or_new, store_lua_callback, getfield, Reply, failed, results,
  send_reply, request_key, generic_handler, httpd_stop, httpd_on, httpd_start,
}

-- A function of the library, or a request with its path and whether it is a POST.
pub data Step : Type 0 where
  start : List Slot → Step
  on : List Slot → Step
  stop : List Slot → Step
  request : List ℕ → Bool → Step

unfoldable pub step : World → (List ℕ → Reply) → Step → Machine Httpd → Machine Httpd
step w reply (start args) s = after s (httpd_start w args s)
step w reply (on args) s = after s (httpd_on w args s)
step w reply (stop args) s = after s (httpd_stop w args s)
step w reply (request uri is_post) s = after s (generic_handler w reply uri is_post s)

unfoldable pub run : World → (List ℕ → Reply) → List Step → Machine Httpd → Machine Httpd
unfolding step
run w reply [] s = s
run w reply (x ∷ xs) s = run w reply xs (step w reply x s)

-- Before the first call.
abbrev pub boot : Machine Httpd
boot = record { own = record { srv = pos 0; callbacks = none }; trace = [] }

-- No key is a text.
abbrev Numbered : Table → Type 0
Numbered [] = Unit {0}
Numbered ((number n, v) ∷ t) = Numbered t
Numbered ((text k, v) ∷ t) = ⊥

abbrev IsNumbered : Httpd → Type 0
IsNumbered d = Numbered (or_new d.callbacks)

getfield-Numbered : (key : List ℕ) (t : Table) → Numbered t → getfield key t ≡ none
unfolding getfield
getfield-Numbered key [] h = refl
getfield-Numbered key ((number n, v) ∷ t) h = getfield-Numbered key t h
getfield-Numbered key ((text k, v) ∷ t) h = elim h [ ]

module _ (w : World) where
  start-IsNumbered : (args : List Slot) → Preserves IsNumbered (httpd_start w args)
  unfolding httpd_start
  start-IsNumbered args = search preserves_rules depth 14

  stop-IsNumbered : (args : List Slot) → Preserves IsNumbered (httpd_stop w args)
  unfolding httpd_stop
  stop-IsNumbered args = search preserves_rules depth 14

  on-IsNumbered : (args : List Slot) → Preserves IsNumbered (httpd_on w args)
  unfolding httpd_on store_lua_callback
  on-IsNumbered args = search preserves_rules depth 20

  send-IsNumbered : (r : Reply) → Preserves IsNumbered (send_reply w r)
  unfolding send_reply
  send-IsNumbered failed = search preserves_rules
  send-IsNumbered (results none body) = Preserves-abort IsNumbered (Unit {0})
  send-IsNumbered (results (some z) none) = Preserves-abort IsNumbered (Unit {0})
  send-IsNumbered (results (some z) (some body)) = search preserves_rules

  handler-IsNumbered :
      (reply : List ℕ → Reply) (uri : List ℕ) (is_post : Bool)
      → Preserves IsNumbered (generic_handler w reply uri is_post)
  unfolding generic_handler
  handler-IsNumbered reply uri is_post = search (preserves_rules, send-IsNumbered) depth 10

  step-IsNumbered :
      (reply : List ℕ → Reply) (x : Step) (s : Machine Httpd)
      → IsNumbered s.own
      → IsNumbered (step w reply x s).own
  unfolding step
  step-IsNumbered reply (start args) s h =
      after_preserves IsNumbered (httpd_start w args) s (start-IsNumbered args) h
  step-IsNumbered reply (on args) s h =
      after_preserves IsNumbered (httpd_on w args) s (on-IsNumbered args) h
  step-IsNumbered reply (stop args) s h =
      after_preserves IsNumbered (httpd_stop w args) s (stop-IsNumbered args) h
  step-IsNumbered reply (request uri is_post) s h =
      after_preserves IsNumbered (generic_handler w reply uri is_post) s
        (handler-IsNumbered reply uri is_post) h

  run-IsNumbered :
      (reply : List ℕ → Reply) (steps : List Step) (s : Machine Httpd)
      → IsNumbered s.own
      → IsNumbered (run w reply steps s).own
  unfolding run
  run-IsNumbered reply [] s h = h
  run-IsNumbered reply (x ∷ xs) s h =
      run-IsNumbered reply xs (step w reply x s) (step-IsNumbered reply x s h)

  handler_not_found :
      (reply : List ℕ → Reply) (uri : List ℕ) (is_post : Bool) (s : Machine Httpd)
      → IsNumbered s.own
      → generic_handler w reply uri is_post s ≡ perform_ w (driver "httpd_resp_send_404" []) s
  unfolding generic_handler
  handler_not_found reply uri is_post s h =
      rw (getfield-Numbered (request_key uri is_post) (or_new s.own.callbacks) h) refl

-- After any calls of the library and any requests, whatever ESP-IDF answers and whatever the
-- callbacks do, a request for any path is answered by the status 404 alone: no callback that was
-- registered is ever called.
pub request_not_found :
    (w : World) (reply : List ℕ → Reply) (steps : List Step) (uri : List ℕ) (is_post : Bool)
    → generic_handler w reply uri is_post (run w reply steps boot)
      ≡ perform_ w (driver "httpd_resp_send_404" []) (run w reply steps boot)
request_not_found w reply steps uri is_post =
    handler_not_found w reply uri is_post (run w reply steps boot)
      (run-IsNumbered w reply steps boot tt)
