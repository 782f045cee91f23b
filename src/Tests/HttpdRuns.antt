-- ===== src/Tests/HttpdRuns.antt =====
-- The library `httpd` (components/NET/net_httpd.c) with a server that starts.
use clios.Prelude.{codes, ◌≡◌, true, false, List, [], ◌∷◌, some}
use clios.Prelude.Int.{pos}
use clios.Lua.{string_slot, udata_slot, function_kind, Slot, absent}
use clios.Driver.{World, driver, perform_}
use clios.Net.Httpd.{results, generic_handler}
use clios.Net.Httpd.Requests.{Step, start, on, request, run, boot, request_not_found}

abbrev world : World
world = record { answer = λ calls c. pos 0; stored = λ calls c. 4 ∷ []; exhausted = λ calls. false }

-- A function.
abbrev callback : Slot
callback = record absent { is_none_or_nil = false; as_boolean = true; kind = function_kind }

-- A server with the path "/" for GET, and a request to it.
abbrev steps : List Step
steps =
    start []
    ∷ on (
        udata_slot "httpd.handle"
        ∷ string_slot (codes "/")
        ∷ string_slot (codes "GET")
        ∷ callback
        ∷ [])
    ∷ request (codes "/") false
    ∷ []

-- The callback answers 200 and "ok".
request_not_found_example :
    generic_handler world
      (λ uri. results (some (pos 200)) (some (codes "ok")))
      (codes "/")
      false
      (run world (λ uri. results (some (pos 200)) (some (codes "ok"))) steps boot)
    ≡ perform_ world
        (driver "httpd_resp_send_404" [])
        (run world (λ uri. results (some (pos 200)) (some (codes "ok"))) steps boot)
request_not_found_example =
    request_not_found world (λ uri. results (some (pos 200)) (some (codes "ok"))) steps (codes "/")
      false
