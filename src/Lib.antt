-- ===== src/Lib.antt =====
-- CLIos: a Lua shell for the ESP32 over a serial line, with libraries for its peripherals.
--
-- The program. main/Core_Level.c starts Lua, registers the libraries (main/init.c) and starts two
-- FreeRTOS tasks. The shell task reads bytes from the UART, edits them into lines and hands each
-- line over by a double buffer and a notification; the Lua task gathers lines into a chunk of text,
-- has it compiled and run, and decides what to keep. Each library under components/ is a table of C
-- functions that Lua code calls with a stack of arguments.
--
-- What models which part.
-- Prelude: lists, bytes, C strings and memcpy, Boolean tests, signed integers and the conversions
--   between the widths of C.
-- Lua: a call of a C function from Lua. The Lua library is not in the repository, so an argument is
--   a `Slot`, the record of what the API's functions answer for it; a function ends by pushing
--   values, in a Lua error, in the abort of ESP_ERROR_CHECK, or in an access that C does not
--   define. luaL_checkudata gets the name of the metatable that it asks for.
-- Shell: `_ShellTask` of main/Core_Level.c. `char_step` is the body of its `for` loop, `scan` the
--   loop, `shell_round` one round of `for (;;)`, `shell` the rounds for a sequence of UART chunks.
--   uint8_t indices wrap at 256, buffers have their sizes from components/global/global.h.
-- Repl: `_HandleLuaCommand` of main/Core_Level.c. `handle` is one round of its `for (;;)`; the Lua
--   library is the parameter `Interpreter`, of which nothing is assumed. A write past the end of
--   the buffer of 256 bytes is the result `none`.
-- Tasks: both tasks side by side, by their single accesses to the double buffer, the length, the
--   index and the notification value. A `Turn` names the task whose access comes next, `run` any
--   order of them. memcpy is taken to copy byte by byte, upwards. What the Lua task does between
--   the end of its memcpy and its next ulTaskNotifyTake is one access, since it touches none of the
--   buffers; so is each byte of the shell that ends no line. Both tasks are taken to be running. The
--   field `taken` is a history.
-- Fs: components/SYS/sys_littlefs.c, the library `fs`, over a `Disk` that holds what the files hold
--   and which operations succeed. A write to a file that could be opened is taken to be complete.
--   `read_lines` is the loop over fgets; its fuel is the size of the file, and each round takes a
--   byte.
-- Driver: the calls of the libraries that are not in the repository. A `World` answers a call by
--   the calls before it, and a `Machine` is a module's static data with the trace of its calls. The
--   world also says when Lua has no memory for a string or a userdata that a function makes while it
--   holds a block, a descriptor or a driver; the function then ends in the error `memory_error`. Its
--   child modules have a rule for each construct of a `do` block: `Memory` and `Buffers` for the
--   blocks in use, `Preserves` for the static data, `Leads` for the trace, `Defined` for undefined
--   accesses.
-- Wifi: components/NET/net_wifi.c, the library `wifi`; `Calls` has its tables, start-up and events.
-- Com: components/COM, a child module for each of com_uart.c, com_spi.c, com_can.c, com_i2c.c,
--   com_i2s.c and com_rmt.c, the last three for the drivers of ESP-IDF 5, with child modules
--   `Legacy` for the older ones; a handle's userdata is the data of the `Machine`. `Driver.Memory`
--   reads off a trace which blocks of malloc are in use, and `Driver.Buffers` has the rules for a
--   buffer that is freed after its use.
-- Net: components/NET but for Wi-Fi; `Net.Socket` is net_socket.c, the library `socket`, with
--   `Descriptors` for the file descriptors that a trace has opened and not closed; `Net.Httpd` is
--   net_httpd.c, the server and its table of callbacks; `Net.Http` net_http.c, whose loop
--   `read_body` has the fuel content_len + 1, since a round that goes on has read a byte, and writes
--   to a `Block` of the size that was asked of malloc; `Net.Tls`
--   net_tls.c; and `Net.Setup` net_net.c, net_mdns.c and net_websocket.c.
-- Ble: components/BLE/ble_ble.c; `Ble.Connection` has the calls from Lua and the events of NimBLE
--   as steps, `Ble.Hid` the reports of the keyboard and the mouse,
--   and `Ble.Gatt` the access callbacks of the services.
-- Hdw: components/HDW, a child module for each of hdw_adc.c, hdw_dac.c, hdw_gpio.c and hdw_pwm.c.
-- Boot: app_main of main/Core_Level.c, _API_BINDING_C of main/init.c and components/SYS/sys_os.c,
--   as the calls that they make; the script /home/boot.lua is the list of the calls that it makes.
-- Fos: `Fos.Task` is the life of a task of components/FOS/fos_task.c, whose record the Lua side and
--   the worker share; `run` is any order of their steps, and `none` an access after the record's
--   end; the test of stop_flag, the start of a call and its end are steps of their own.
--   `Fos.Task.Create` has the functions that only make calls. `Fos.Sync` is fos_queue.c,
--   fos_mutex.c and fos_semaphore.c. `Fos.Lock` has the threads that share the lua_State and
--   luaMutex, as a step relation: app_main, the workers and _HandleLuaCommand.
-- Tests: runs on concrete data, and the theorems at inputs that meet their hypotheses.
--
-- Not modelled: memory errors of Lua where a function holds nothing; logging but for the echo of a line; the drivers of ESP-IDF, FreeRTOS, NimBLE and
-- lwIP, which are not in the repository; and the copies of other projects under managed_components/.
pub mod Prelude
pub mod Lua
pub mod Shell
pub mod Repl
pub mod Fs
pub mod Driver
pub mod Wifi
pub mod Com
pub mod Net
pub mod Fos
pub mod Ble
pub mod Hdw
pub mod Boot
pub mod Tasks
mod Tests
