-- ===== src/Tests/SocketRuns.antt =====
-- The library `socket` (components/NET/net_socket.c) over a system that gives out the descriptor 3.
use clios.Prelude.{◌≡◌, true, codes, ◌+◌, refl, arith, false, List, [], ◌∷◌}
use clios.Prelude.Int.{ℤ, pos}
use clios.Lua.{int_slot, string_slot, udata_slot, Slot, raised, memory_error}
use clios.Driver.{
  World, Machine, Call, malloc, free, driver, open_socket, close_socket, const, bytes,
}
use clios.Net.Socket.{Sock, tcp, connect, accept, connect_resolved, call}
use clios.Net.Socket.Descriptors.{Ends, Owned, hit, in_use}
use clios.Net.Socket.Methods.{accept_loses_descriptor, call_owned, connect_loses_descriptor}

abbrev answer : List Call → Call → ℤ
answer calls (malloc n) = pos 64
answer calls (free p) = pos 0
answer calls (open_socket f xs) = pos 3
answer calls (close_socket c) = pos 0
answer calls (driver f xs) = pos 0

abbrev world : World
world = record { answer = answer; stored = λ calls c. codes "addr"; exhausted = λ calls. false }

abbrev fresh : Machine Sock
fresh = record { own = tcp; trace = [] }

abbrev connected : Machine Sock
connected = record {
  own = record { fd = pos 3; is_udp = false; accepted = [] };
  trace = open_socket "socket" (bytes (codes "addr") ∷ const "SOCK_STREAM" ∷ []) ∷ [];
}

abbrev args : List Slot
args = udata_slot "net.sock" ∷ string_slot (codes "host") ∷ int_slot (pos 80) ∷ []

call_owned_example : Ends world (λ d. 0) false (call world connect args fresh)
unfolding tcp in_use
call_owned_example = call_owned world (λ d. 0) connect args fresh ((λ d. refl), refl)

connect_loses_descriptor_example :
    Ends world (λ d. hit (pos 3) d + 0) false (connect_resolved world (codes "addr") connected)
unfolding in_use
connect_loses_descriptor_example =
    connect_loses_descriptor world (λ d. 0) (codes "addr") connected (λ d. ground arith) refl

abbrev recv_args : List Slot
recv_args = udata_slot "net.sock" ∷ int_slot (pos 16) ∷ []

-- A listening socket, and no memory left in Lua.
abbrev full : World
full = record { answer = answer; stored = λ calls c. []; exhausted = λ calls. true }

abbrev listening : Machine Sock
listening = record {
  own = record { fd = pos 3; is_udp = false; accepted = [] };
  trace = open_socket "socket" (const "AF_INET" ∷ const "SOCK_STREAM" ∷ []) ∷ [];
}

accept_loses_descriptor_example :
    (t : Machine Sock) × (call full accept args listening ≡ raised memory_error t)
    × Owned full (λ d. hit (pos 3) d + 0) t
unfolding in_use
accept_loses_descriptor_example =
    accept_loses_descriptor full (λ d. 0) args listening (λ d. ground arith) refl refl refl
