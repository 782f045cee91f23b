-- ===== src/Tests/ComRuns.antt =====
-- The libraries of components/COM over a driver whose malloc returns the block 64.
use clios.Prelude.{false, codes, ◌≡◌, refl, true, List, [], ◌∷◌}
use clios.Prelude.Int.{ℤ, pos}
use clios.Lua.{done, string, int_slot, udata_slot, Slot}
use clios.Driver.{World, Machine, Call, malloc, free, driver, open_socket, close_socket, int}
use clios.Driver.Memory.{live}
use clios.Com.I2c
use clios.Com.Balance.{BusCall, i2c, uart, IsBalanced, bus_call-IsBalanced}
use clios.Com.Handles.{Refuses, method-Refuses}
use clios.Com.Uart.{Uart, uart_read, read}
use clios.Com.Spi.{Hosts}

abbrev answer : List Call → Call → ℤ
answer calls (malloc n) = pos 64
answer calls (free p) = pos 0
answer calls (driver f xs) = pos 2
answer calls (open_socket f xs) = pos 3
answer calls (close_socket c) = pos 0

abbrev world : World
world = record { answer = answer; stored = λ calls c. codes "abc"; exhausted = λ calls. false }

abbrev port : Machine Uart
port = record { own = record { port = pos 1; installed = true }; trace = [] }

-- Two of four bytes arrive.
uart_read_run :
    uart_read world (udata_slot "uart.handle" ∷ int_slot (pos 4) ∷ []) port
    ≡ done (string (codes "ab") ∷ []) (record {
      own = record { port = pos 1; installed = true };
      trace =
          malloc (pos 4)
          ∷ driver "uart_read_bytes" (int (pos 1) ∷ int (pos 64) ∷ int (pos 4) ∷ int (pos 100) ∷ [])
          ∷ free (pos 64)
          ∷ [];
    })
unfolding uart_read
uart_read_run = refl

live_run : live world (malloc (pos 4) ∷ malloc (pos 8) ∷ free (pos 64) ∷ []) ≡ pos 64 ∷ []
unfolding live
live_run = refl

abbrev read_args : List Slot
read_args = udata_slot "uart.handle" ∷ int_slot (pos 4) ∷ []

abbrev hosts : Hosts
hosts = record { spi2_host = pos 1; dma_auto = pos 3 }

bus_call-IsBalanced_example : IsBalanced hosts world (uart read read_args port)
bus_call-IsBalanced_example = bus_call-IsBalanced hosts world (uart read read_args port)

-- A method of a device that is called with the handle of a bus.
abbrev bus_tx : BusCall
bus_tx =
    i2c I2c.tx (udata_slot "i2c.bus" ∷ [])
      (record { own = record { bus = pos 5; dev = pos 6 }; trace = [] })

method-Refuses_example : Refuses hosts world bus_tx
method-Refuses_example = method-Refuses hosts world bus_tx refl refl

-- Lua without memory.
abbrev full : World
full = record world { exhausted = λ calls. true }
