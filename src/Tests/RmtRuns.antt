-- ===== src/Tests/RmtRuns.antt =====
-- The library `rmt` (components/COM/com_rmt.c) over a driver whose malloc returns the block 64.
use clios.Prelude.{false, ◌≡◌, refl, List, [], ◌∷◌, none, some, Option}
use clios.Prelude.Int.{ℤ, pos}
use clios.Lua.{message, raised}
use clios.Driver.{World, Machine, Call, malloc, free, driver, open_socket, close_socket}
use clios.Driver.Memory.{live}
use clios.Com.Rmt.{Rmt, read_symbols, send_table}
use clios.Com.Symbols.{send_table_leaks}

abbrev answer : List Call → Call → ℤ
answer calls (malloc n) = pos 64
answer calls (free p) = pos 0
answer calls (open_socket f xs) = pos 3
answer calls (close_socket c) = pos 0
answer calls (driver f xs) = pos 0

abbrev world : World
world = record { answer = answer; stored = λ calls c. []; exhausted = λ calls. false }

abbrev handle : Machine Rmt
handle = record { own = record { ch = pos 8; enc = pos 9 }; trace = [] }

abbrev pulse : List (Option ℤ)
pulse = some (pos 10) ∷ some (pos 32769) ∷ []

abbrev broken : List (Option ℤ)
broken = some (pos 10) ∷ none ∷ []

read_symbols_run : read_symbols pulse ≡ some (10 ∷ 1 ∷ [])
unfolding read_symbols
read_symbols_run = refl

send_table_leaks_example :
    (t : Machine Rmt) × (send_table world broken handle ≡ raised (message "number expected") t)
    × (live world t.trace ≡ pos 64 ∷ live world handle.trace)
unfolding read_symbols
send_table_leaks_example = send_table_leaks world broken handle 0 refl refl refl
