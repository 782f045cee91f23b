-- ===== src/Net/Socket/Methods.antt =====
-- The methods of a socket, components/NET/net_socket.c: their descriptors and their memory.
use clios.Prelude.{if◌then◌else◌, ℕ, ◌≡◌, refl, Bool, true, false, List, [], ◌∷◌, ◌++◌, ◌+◌, arith}
use clios.Prelude.Int.{ℤ}
use clios.Lua.{Value, userdata, done, Slot, slot, raised, memory_error, ◌>>=◌}
use clios.Driver.{Call, int, Arg, bytes, const, open_socket, is_negative, World, Machine}
use clios.Driver.Memory.{Leaves, live, Frees, frees_rules}
use clios.Driver.Buffers.{Releases, Frees-buffer, buffer_rules}
use clios.Net.Socket.{
  N, Sock, socket_into, fail_connect, connect_to, connect_resolved, connect_socket, sock_connect,
  bind_to, listen_on, sock_listen, accept_one, sock_accept, sock_send, receive_into, sock_receive,
  close_fd, sock_close, udp_bind, udp_sendto, Method, connect, listen, accept, send, recv, close,
  bind, sendto, recvfrom, close_udp, call,
}
use clios.Net.Socket.Descriptors.{Meets, Inv, Ends, Ends-bind, Owned, hit, in_use-snoc, meets_rules}
use Prim.Native.String.{String}

-- The methods that ask the system for a new descriptor for their own handle.
abbrev pub replaces : Method → Bool
replaces connect = true
replaces listen = true
replaces accept = false
replaces send = false
replaces recv = false
replaces close = false
replaces bind = false
replaces sendto = false
replaces recvfrom = false
replaces close_udp = false

module _ (w : World) (others : ℤ → ℕ) (args : List Slot) where
  connect-Meets : Meets w others true false (sock_connect w args)
  unfolding sock_connect connect_resolved connect_socket connect_to fail_connect
  connect-Meets = search meets_rules depth 16

  listen-Meets : Meets w others true false (sock_listen w args)
  unfolding sock_listen bind_to listen_on
  listen-Meets = search meets_rules depth 16

  accept-Meets : Meets w others false false (sock_accept w args)
  unfolding sock_accept
  accept-Meets = search meets_rules depth 8

  send-Meets : Meets w others false false (sock_send w args)
  unfolding sock_send
  send-Meets = search meets_rules depth 12

  receive-Meets :
      (metatable f : String) → Meets w others false false (sock_receive w metatable f args)
  unfolding sock_receive receive_into
  receive-Meets metatable f = search meets_rules depth 14

  close-Meets : (metatable : String) → Meets w others false false (sock_close w metatable args)
  unfolding sock_close
  close-Meets metatable = search meets_rules depth 8

  bind-Meets : Meets w others false false (udp_bind w args)
  unfolding udp_bind bind_to
  bind-Meets = search meets_rules depth 12

  sendto-Meets : Meets w others false false (udp_sendto w args)
  unfolding udp_sendto
  sendto-Meets = search meets_rules depth 14

replaced :
    (w : World) (others : ℤ → ℕ) (xs : List Arg) (s : Machine Sock)
    → Owned w others s
    → is_negative s.own.fd ≡ false
    → Ends w (λ d. hit s.own.fd d + others d) false (socket_into w xs s)
unfolding socket_into
replaced w others xs s h n d =
    ground (arith, in_use-snoc w d s.trace (open_socket "socket" xs), h d)

abbrev pub accept_call : Machine Sock → Call
accept_call s = open_socket "accept" (int s.own.fd ∷ [])

connect_socket-Meets :
    (w : World) (others : ℤ → ℕ) (res : List ℕ) → Meets w others false false (connect_socket w res)
unfolding connect_socket connect_to fail_connect
connect_socket-Meets w others res = search meets_rules depth 12

-- `s:connect` on a handle that holds a descriptor loses it: once the address is resolved, however the
-- call ends, that descriptor is in use and no handle holds it.
pub connect_loses_descriptor :
    (w : World) (others : ℤ → ℕ) (res : List ℕ) (s : Machine Sock)
    → Owned w others s
    → is_negative s.own.fd ≡ false
    → Ends w (λ d. hit s.own.fd d + others d) false (connect_resolved w res s)
unfolding connect_resolved
connect_loses_descriptor w others res s h n =
    let xs = bytes res ∷ const "SOCK_STREAM" ∷ [] in
    Ends-bind w (λ d. hit s.own.fd d + others d) false false (socket_into w xs)
      (λ _. connect_socket w res) s (socket_into w xs s) refl (replaced w others xs s h n)
      (λ _. connect_socket-Meets w (λ d. hit s.own.fd d + others d) res)

no_memory :
    {A : Type 0} (exhausted : Bool) (f : Value → N A) (s : Machine Sock)
    → exhausted ≡ true
    → ((λ (t : Machine Sock). if exhausted then raised memory_error t else done userdata t) >>= f) s
      ≡ raised memory_error s
no_memory true f s e = refl
no_memory false f s e = cc

-- `s:accept()` without memory for the new handle: the descriptor that accept returned is in use and no
-- handle holds it, and the call ends in Lua's error.
pub accept_loses_descriptor :
    (w : World) (others : ℤ → ℕ) (args : List Slot) (s : Machine Sock)
    → Owned w others s
    → (slot args 1).is_udata "net.sock" ≡ true
    → is_negative (w.answer s.trace (accept_call s)) ≡ false
    → w.exhausted (s.trace ++ accept_call s ∷ []) ≡ true
    → (t : Machine Sock) × (call w accept args s ≡ raised memory_error t)
      × Owned w (λ d. hit (w.answer s.trace (accept_call s)) d + others d) t
unfolding call sock_accept accept_one
accept_loses_descriptor w others args s h a n e = (
  record s { trace = s.trace ++ accept_call s ∷ [] },
  rw (a, n) (no_memory _ _ _ e),
  λ d. ground (arith, in_use-snoc w d s.trace (accept_call s), h d),
)

call-Meets :
    (w : World) (others : ℤ → ℕ) (f : Method) (args : List Slot)
    → Meets w others (replaces f) false (call w f args)
unfolding call
call-Meets w others connect args = connect-Meets w others args
call-Meets w others listen args = listen-Meets w others args
call-Meets w others accept args = accept-Meets w others args
call-Meets w others send args = send-Meets w others args
call-Meets w others recv args = receive-Meets w others args "net.sock" "recv"
call-Meets w others close args = close-Meets w others args "net.sock"
call-Meets w others bind args = bind-Meets w others args
call-Meets w others sendto args = sendto-Meets w others args
call-Meets w others recvfrom args = receive-Meets w others args "net.sock.udp" "recvfrom"
call-Meets w others close_udp args = close-Meets w others args "net.sock.udp"

-- From a state in which the handles hold every descriptor in use that others do not, each method
-- leaves such a state, by a value and by an error of its own, whatever the system answers, if, for
-- `connect` and `listen`, the handle holds no descriptor before. Of an error that Lua raises itself,
-- for want of memory, nothing is said.
pub call_owned :
    (w : World) (others : ℤ → ℕ) (f : Method) (args : List Slot) (s : Machine Sock)
    → Inv w others (replaces f) s
    → Ends w others false (call w f args s)
call_owned w others f args s h = (call-Meets w others f args).meets s h

-- `s:close()` a second time changes neither the handle nor the calls made: a descriptor is closed at
-- most once, whatever the arguments.
sock_close_twice :
    (w : World) (metatable : String) (args : List Slot) (s : Machine Sock)
    → (sock_close w metatable args >>= λ _. sock_close w metatable args) s
      ≡ sock_close w metatable args s
unfolding sock_close close_fd
sock_close_twice w metatable args s = ground arith

receive_into-Releases :
    (w : World) (f : String) (n buf : ℤ) → Releases w buf (receive_into w f n buf)
unfolding receive_into
receive_into-Releases w f n buf = search (frees_rules, buffer_rules) depth 14

receive-Frees :
    (w : World) (metatable f : String) (args : List Slot)
    → Frees w (sock_receive w metatable f args)
unfolding sock_receive
receive-Frees w metatable f args =
    search (frees_rules, Frees-buffer, receive_into-Releases) depth 14

-- `s:recv` and `s:recvfrom` free their buffer before they return to Lua, also by an error of their own,
-- and free nothing else.
receive_balance :
    (w : World) (metatable f : String) (args : List Slot) (s : Machine Sock)
    → Leaves (λ t. live w t.trace ≡ live w s.trace) (sock_receive w metatable f args s)
receive_balance w metatable f args s = (receive-Frees w metatable f args).frees s
