-- ===== src/Boot.antt =====
-- The start of the program: app_main of main/Core_Level.c, _API_BINDING_C of main/init.c, and what the
-- libraries do when they are opened.
pub mod Order
use clios.Prelude.{codes, ℕ, Bool, true, false, List, [], ◌∷◌, ◌++◌, if◌then◌else◌}
use clios.Prelude.Int.{ℤ, pos, negsuc}
use clios.Lua.{M, ◌>>=◌, ◌>>◌, pure, done}
use clios.Driver.{
  int, bytes, const, driver, Call, World, Machine, own_of, set_own, perform, perform_, is_null,
}
use clios.Wifi.Calls.{wifi_init_core}
use Prim.Native.String.{String}

-- The libraries that have been registered, the latest last.
pub record Boot : Type 0 where
  pub loaded : List String

abbrev pub S : Type 0 → Type 0
S A = M (Machine Boot) A

-- _UartInit of components/SYS/sys_os.c; of the calls, the numbers that it passes. LUA_BUFFER_SIZE is 256.
unfoldable pub uart_init : {D : Type 0} → World → M (Machine D) (Unit {0})
uart_init w = do
  perform_ w (
      driver "uart_driver_install"
        (const "UART_NUM_0" ∷ int (pos 256) ∷ int (pos 0) ∷ int (pos 0) ∷ int (pos 0) ∷ []))
  perform_ w
      (driver "uart_param_config" (const "UART_NUM_0" ∷ int (pos 115200) ∷ int (pos 122) ∷ []))
  perform_ w (driver "uart_set_pin" (const "UART_NUM_0" ∷ int (pos 1) ∷ int (pos 3) ∷ []))

-- L_OS_REBOOT.
unfoldable pub os_reboot : {D : Type 0} → World → M (Machine D) (Unit {0})
os_reboot w = perform_ w (driver "esp_restart" [])

-- _LittleFSInit of components/SYS/sys_littlefs.c, where a failure is only logged.
unfoldable pub littlefs_init : {D : Type 0} → World → M (Machine D) (Unit {0})
littlefs_init w =
    perform_ w
      (driver "esp_vfs_littlefs_register" (bytes (codes "/home") ∷ bytes (codes "storage") ∷ []))

-- luaL_requiref with the function that opens the library.
unfoldable pub require : String → S (Unit {0}) → S (Unit {0})
require name opener = do opener; d ← own_of; set_own (record { loaded = d.loaded ++ name ∷ [] })

-- Libraries whose opening only makes a table.
unfoldable pub require_tables : List String → S (Unit {0})
unfolding require
require_tables [] = pure tt
require_tables (name ∷ names) = require name (pure tt) >> require_tables names

-- The libraries before and behind `wifi`.
abbrev pub first_tables : List String
first_tables = "gpio" ∷ "pwm" ∷ "adc" ∷ "dac" ∷ "task" ∷ "queue" ∷ "mutex" ∷ "semaphore" ∷ []

abbrev pub last_tables : List String
last_tables =
    "net" ∷ "http" ∷ "httpd" ∷ "mdns" ∷ "sc" ∷ "tls" ∷ "wsc" ∷ "uart" ∷ "spi" ∷ "i2c" ∷ "can"
    ∷ "rmt" ∷ "ble" ∷ []

-- _API_BINDING_C.
unfoldable pub api_binding : World → S (Unit {0})
unfolding require require_tables uart_init littlefs_init
api_binding w = do
  require "os" (uart_init w)
  require "fs" (littlefs_init w)
  require_tables first_tables
  require "wifi" (wifi_init_core w)
  require_tables last_tables

-- What the script /home/boot.lua does, if it ends: further calls.
unfoldable pub run_script : List Call → S (Unit {0})
run_script script s = done tt (record s { trace = s.trace ++ script })

-- app_main from the test for the script on.
unfoldable pub start_tasks : World → List Call → S (Unit {0})
unfolding run_script
start_tasks w script = do
  perform_ w (driver "xSemaphoreTake" (const "luaMutex" ∷ []))
  found ← perform w (driver "stat" (bytes (codes "/home/boot.lua") ∷ []))
  if is_null found then run_script script else pure tt
  perform_ w (driver "xSemaphoreGive" (const "luaMutex" ∷ []))
  perform_ w (driver "xTaskCreate" (const "_ShellTask" ∷ int (pos 2048) ∷ int (pos 5) ∷ []))
  perform_ w (driver "xTaskCreate" (const "_HandleLuaCommand" ∷ int (pos 4096) ∷ int (pos 5) ∷ []))

-- app_main.
unfoldable pub app_main : World → List Call → S (Unit {0})
unfolding start_tasks
app_main w script = do
  perform_ w (driver "xSemaphoreCreateMutex" [])
  perform_ w (driver "luaL_newstate" [])
  perform_ w (driver "luaL_openlibs" [])
  api_binding w
  start_tasks w script
