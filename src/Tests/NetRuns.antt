-- ===== src/Tests/NetRuns.antt =====
-- The libraries `tls` and `http` and the start of the program (components/NET and main) over given answers.
use clios.Prelude.{
  codes, ℕ, ◌≡◌, refl, Bool, true, false, ◌&&◌, ◌||◌, List, [], ◌∷◌, ◌++◌, if◌then◌else◌, arith,
}
use clios.Prelude.Int.{ℤ, pos, negsuc, leb_ℤ}
use clios.Lua.{string_slot, Slot}
use clios.Driver.{
  World, Machine, Call, Arg, malloc, free, driver, open_socket, close_socket, int, after,
}
use clios.Driver.Leads.{Aborts}
use clios.Driver.Defined.{Defined}
use clios.Net.Http.{http_request}
use clios.Net.Http.Reading.{request_ends}
use clios.Net.Setup.{NvsErrors, net_init}
use clios.Net.Setup.Startup.{RefusesSecondLoop, create_loop}
use clios.Boot.{
  Boot, app_main, start_tasks, run_script, api_binding, require, require_tables, uart_init,
  littlefs_init,
}
use clios.Boot.Order.{net_init_after_main}
use clios.Wifi.Calls.{wifi_init_core}
use text.Mathlib.Text.{◌==◌}

-- Every call returns -1.
abbrev refusing : World
refusing = record {
  answer = λ calls c. negsuc 0;
  stored = λ calls c. [];
  exhausted = λ calls. false;
}

abbrev host : List Slot
host = string_slot (codes "example.org") ∷ []

-- Every call returns 0.
abbrev accepting : World
accepting = record { answer = λ calls c. pos 0; stored = λ calls c. []; exhausted = λ calls. false }

abbrev third : List Arg → ℤ
third (a ∷ b ∷ int m ∷ xs) = m
third _ = pos 0

-- A server that sends 5 bytes.
abbrev server_answer : Call → ℤ
server_answer (malloc n) = pos 64
server_answer (free p) = pos 0
server_answer (driver f xs) =
    if f == "esp_http_client_read"
    then third xs
    else if f == "esp_http_client_get_content_length"
    then pos 5
    else pos 0
server_answer (open_socket f xs) = pos 3
server_answer (close_socket c) = pos 0

abbrev server : World
server = record {
  answer = λ cs c. server_answer c;
  stored = λ cs c. codes "hello";
  exhausted = λ calls. false;
}

abbrev idle : Machine (Unit {0})
idle = record { own = tt; trace = [] }

abbrev request : List Slot
request = string_slot (codes "GET") ∷ string_slot (codes "http://example.org") ∷ []

leb_refl : (m : ℕ) → leb_ℤ (pos m) (pos m) ≡ true
leb_refl m = ground arith

request_ends_example : Defined (http_request server request [] idle)
request_ends_example =
    request_ends server request [] idle (λ cs h p m. leb_refl m) (λ cs n. refl) (λ cs h. refl)

-- ESP-IDF with at most one default loop.
abbrev is_create : Call → Bool
is_create (malloc n) = false
is_create (free p) = false
is_create (driver f xs) = f == "esp_event_loop_create_default"
is_create (open_socket f xs) = false
is_create (close_socket c) = false

abbrev has_create : List Call → Bool
has_create [] = false
has_create (c ∷ cs) = is_create c || has_create cs

abbrev one_loop : World
one_loop = record {
  answer = λ cs c. if is_create c && has_create cs then pos 259 else pos 0;
  stored = λ cs c. [];
  exhausted = λ calls. false;
}

has_create_again :
    (before between : List Call) → has_create (before ++ create_loop ∷ between) ≡ true
has_create_again [] between = refl
has_create_again (c ∷ before) between = ground (arith, has_create_again before between)

one_loop_refuses : RefusesSecondLoop one_loop
one_loop_refuses before between = rw (has_create_again before between) refl

abbrev nvs_errors : NvsErrors
nvs_errors = record { no_free_pages = pos 4365; new_version_found = pos 4368 }

abbrev at_reset : Machine Boot
at_reset = record { own = record { loaded = [] }; trace = [] }

net_init_after_main_example : Aborts (
    net_init nvs_errors one_loop (record {
      own = record { net_inited = false };
      trace = (after at_reset (app_main one_loop [] at_reset)).trace ++ [];
    }))
unfolding app_main start_tasks run_script api_binding require require_tables uart_init littlefs_init
    wifi_init_core
net_init_after_main_example =
    net_init_after_main nvs_errors one_loop [] at_reset
      (after at_reset (app_main one_loop [] at_reset)) [] one_loop_refuses refl
