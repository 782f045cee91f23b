-- ===== src/Boot/Order.antt =====
-- What app_main of main/Core_Level.c leaves behind: the libraries of main/init.c and, with the library
-- `wifi`, a default event loop.
use clios.Wifi.Calls.{wifi_init_core}
use clios.Prelude.{codes, ◌≡◌, false, List, [], ◌∷◌, ◌++◌}
use clios.Prelude.Int.{pos}
use clios.Lua.{done, M, pure}
use clios.Driver.{Call, bytes, const, int, is_null, driver, World, Machine, perform_}
use clios.Driver.Leads.{
  Aborts, Anything, Leads, Leads-bind, Leads-pure, Leads-if, Leads-perform, Aborts-Post,
}
use clios.Net.Setup.{NvsErrors, net_init}
use clios.Net.Setup.Startup.{
  RefusesSecondLoop, HasLoop, HasLoop-snoc, HasLoop-append, core-HasLoop, init_lem,
}
use clios.Boot.{
  Boot, uart_init, littlefs_init, require, require_tables, api_binding, first_tables, last_tables,
  run_script, start_tasks, app_main,
}
use Prim.Native.String.{String}

abbrev stat_boot : Call
stat_boot = driver "stat" (bytes (codes "/home/boot.lua") ∷ [])

abbrev give_mutex : Call
give_mutex = driver "xSemaphoreGive" (const "luaMutex" ∷ [])

abbrev create_shell : Call
create_shell = driver "xTaskCreate" (const "_ShellTask" ∷ int (pos 2048) ∷ int (pos 5) ∷ [])

abbrev create_lua : Call
create_lua = driver "xTaskCreate" (const "_HandleLuaCommand" ∷ int (pos 4096) ∷ int (pos 5) ∷ [])

Leads-perform_ :
    {D : Type 0} (P : List Call → Type 0) (w : World) (c : Call)
    → ((cs : List Call) → P cs → P (cs ++ c ∷ []))
    → Leads {D = D} P P (perform_ w c)
Leads-perform_ P w c h = record { leads = λ s p. h s.trace p }

-- A call in a state with a loop, and in any state.
Leads-kept : {D : Type 0} (w : World) (c : Call) → Leads {D = D} HasLoop HasLoop (perform_ w c)
Leads-kept w c = Leads-perform_ HasLoop w c (λ cs. HasLoop-snoc cs c)

Leads-any : {D : Type 0} (w : World) (c : Call) → Leads {D = D} Anything Anything (perform_ w c)
Leads-any w c = Leads-perform_ Anything w c (λ cs p. tt)

require-Leads :
    (P Q : List Call → Type 0) (name : String) (opener : M (Machine Boot) (Unit {0}))
    → Leads P Q opener
    → Leads P Q (require name opener)
unfolding require
require-Leads P Q name opener h = Leads-bind P Q Q opener _ h (λ _. record { leads = λ s p. p })

tables-Leads : (P : List Call → Type 0) (names : List String) → Leads P P (require_tables names)
unfolding require_tables
tables-Leads P [] = Leads-pure P tt
tables-Leads P (name ∷ names) =
    Leads-bind P P P _ _ (require-Leads P P name (pure tt) (Leads-pure P tt))
      (λ _. tables-Leads P names)

uart-Leads : {D : Type 0} (w : World) → Leads {D = D} Anything Anything (uart_init w)
unfolding uart_init
uart-Leads w = search (Leads-bind Anything Anything, Leads-any) depth 8

fs-Leads : {D : Type 0} (w : World) → Leads {D = D} Anything Anything (littlefs_init w)
unfolding littlefs_init
fs-Leads w = Leads-any w _

binding-HasLoop : (w : World) → Leads Anything HasLoop (api_binding w)
unfolding api_binding
binding-HasLoop w =
    Leads-bind Anything Anything HasLoop _ _
      (require-Leads Anything Anything "os" (uart_init w) (uart-Leads w))
      (λ _.
        Leads-bind Anything Anything HasLoop _ _
          (require-Leads Anything Anything "fs" (littlefs_init w) (fs-Leads w))
          (λ _. Leads-bind Anything Anything HasLoop _ _ (tables-Leads Anything first_tables) (λ _.
            Leads-bind Anything HasLoop HasLoop _ _
              (require-Leads Anything HasLoop "wifi" (wifi_init_core w) (core-HasLoop w))
              (λ _. tables-Leads HasLoop last_tables))))

script-HasLoop : (script : List Call) → Leads HasLoop HasLoop (run_script script)
unfolding run_script
script-HasLoop script = record { leads = λ s l. HasLoop-append s.trace script l }

start-HasLoop : (w : World) (script : List Call) → Leads HasLoop HasLoop (start_tasks w script)
unfolding start_tasks
start-HasLoop w script = Leads-bind HasLoop HasLoop HasLoop _ _ (Leads-kept w _) (λ _.
    Leads-bind HasLoop HasLoop HasLoop _ _
      (Leads-perform HasLoop HasLoop w stat_boot (λ cs. HasLoop-snoc cs stat_boot))
      (λ found.
        Leads-bind HasLoop HasLoop HasLoop _ _
          (Leads-if HasLoop HasLoop (is_null found) _ _ (script-HasLoop script)
            (Leads-pure HasLoop tt))
          (λ _. Leads-bind HasLoop HasLoop HasLoop _ _ (Leads-kept w give_mutex) (λ _.
            Leads-bind HasLoop HasLoop HasLoop _ _ (Leads-kept w create_shell)
              (λ _. Leads-kept w create_lua)))))

main-HasLoop : (w : World) (script : List Call) → Leads Anything HasLoop (app_main w script)
unfolding app_main
main-HasLoop w script =
    Leads-bind Anything Anything HasLoop _ _ (Leads-any w (driver "xSemaphoreCreateMutex" [])) (λ _.
      Leads-bind Anything Anything HasLoop _ _ (Leads-any w (driver "luaL_newstate" [])) (λ _.
        Leads-bind Anything Anything HasLoop _ _ (Leads-any w (driver "luaL_openlibs" [])) (λ _.
          Leads-bind Anything HasLoop HasLoop _ _ (binding-HasLoop w)
            (λ _. start-HasLoop w script))))

loop_done :
    (w : World) (script : List Call) (s t : Machine Boot)
    → app_main w script s ≡ done tt t
    → HasLoop t.trace
loop_done w script s t e = rw (e) at ((main-HasLoop w script).leads s tt)

-- Once app_main has returned, which has opened the library `wifi` and with it created the default
-- event loop, and after any further calls of any library, the first `net.init` ends the program, where
-- ESP-IDF refuses to create a second default loop.
pub net_init_after_main :
    (errors : NvsErrors) (w : World) (script : List Call) (s t : Machine Boot) (later : List Call)
    → RefusesSecondLoop w
    → app_main w script s ≡ done tt t
    → Aborts (
        net_init errors w
          (record { own = record { net_inited = false }; trace = t.trace ++ later }))
net_init_after_main errors w script s t later h e = Aborts-Post _ (
    init_lem errors w (t.trace ++ later) h
      (HasLoop-append t.trace later (loop_done w script s t e)))
