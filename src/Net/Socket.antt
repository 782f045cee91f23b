-- ===== src/Net/Socket.antt =====
-- The library `socket`, components/NET/net_socket.c.
pub mod Descriptors
pub mod Methods
use clios.Prelude.{codes, ℕ, Bool, true, false, not, List, [], ◌∷◌, if◌then◌else◌}
use clios.Prelude.Int.{ℤ, pos, negsuc, to_int, to_u16, to_u32}
use clios.Lua.{
  Slot, Value, boolean, integer, string, userdata, message, M, ◌>>=◌, ◌>>◌, pure, raise,
  check_udata, check_integer, check_lstring, check_string, opt_string,
}
use clios.Driver.{
  Arg, int, bytes, const, malloc, free, driver, open_socket, close_socket, World, Machine, own_of,
  set_own, perform, perform_, fetch, is_null, is_negative, first_bytes, push_lstring, new_userdata,
}
use Prim.Native.String.{String}

-- lua_sock_t, with the descriptors of the handles that `accept` has made from it, the latest first.
pub record Sock : Type 0 where
  pub fd : ℤ
  pub is_udp : Bool
  pub accepted : List ℤ

abbrev pub N : Type 0 → Type 0
N A = M (Machine Sock) A

-- s->fd = socket (...).
unfoldable pub socket_into : World → List Arg → N (Unit {0})
socket_into w xs = do
  s ← own_of
  c ← perform w (open_socket "socket" xs)
  set_own (record s { fd = c })

-- freeaddrinfo (res) before an error.
unfoldable pub fail_connect : World → List ℕ → String → N (List Value)
fail_connect w res e = perform_ w (driver "freeaddrinfo" (bytes res ∷ [])) >> raise (message e)

-- F_CONNECT from the call of connect on.
unfoldable pub connect_to : World → List ℕ → N (List Value)
unfolding fail_connect
connect_to w res = do
  s ← own_of
  r ← perform w (driver "connect" (int s.fd ∷ bytes res ∷ []))
  if not (is_null r)
      then fail_connect w res "connect failed"
      else (perform_ w (driver "freeaddrinfo" (bytes res ∷ [])) >> pure (boolean true ∷ []))

-- F_CONNECT after the call of socket.
unfoldable pub connect_socket : World → List ℕ → N (List Value)
unfolding fail_connect connect_to
connect_socket w res = do
  s ← own_of
  if is_negative s.fd then fail_connect w res "socket failed" else connect_to w res

-- F_CONNECT after getaddrinfo, which stored `res`.
unfoldable pub connect_resolved : World → List ℕ → N (List Value)
unfolding socket_into connect_socket
connect_resolved w res =
    socket_into w (bytes res ∷ const "SOCK_STREAM" ∷ []) >> connect_socket w res

-- F_CONNECT; getaddrinfo gets the port as a text of at most 7 bytes.
unfoldable pub sock_connect : World → List Slot → N (List Value)
unfolding connect_resolved
sock_connect w args = do
  check_udata "net.sock" args 1
  host ← check_string args 2
  port ← check_integer args 3
  (status, res) ← fetch w (driver "getaddrinfo" (bytes host ∷ int (to_int port) ∷ []))
  if not (is_null status) then raise (message "getaddrinfo failed") else connect_resolved w res

-- bind (s->fd, ...) with the address and the port of an argument.
unfoldable pub bind_to : World → List ℕ → ℤ → N ℤ
bind_to w ip port = do
  s ← own_of
  perform w (driver "bind" (int s.fd ∷ bytes ip ∷ int (pos (to_u16 port)) ∷ []))

-- listen (s->fd, 2), the second operand of `||`.
unfoldable pub listen_on : World → N (List Value)
listen_on w = do
  s ← own_of
  l ← perform w (driver "listen" (int s.fd ∷ int (pos 2) ∷ []))
  if not (is_null l) then raise (message "bind/listen failed") else pure (boolean true ∷ [])

-- F_LISTEN.
unfoldable pub sock_listen : World → List Slot → N (List Value)
unfolding socket_into bind_to listen_on
sock_listen w args = do
  check_udata "net.sock" args 1
  bind_ip ← opt_string args 2 (codes "0.0.0.0")
  port ← check_integer args 3
  socket_into w (const "AF_INET" ∷ const "SOCK_STREAM" ∷ [])
  s ← own_of
  perform_ w (driver "setsockopt" (int s.fd ∷ const "SO_REUSEADDR" ∷ int (pos 1) ∷ []))
  r ← bind_to w bind_ip port
  if not (is_null r) then raise (message "bind/listen failed") else listen_on w

-- The call of accept in F_ACCEPT, the test of its result, and the new handle, which gets the descriptor
-- once lua_newuserdata has returned.
unfoldable pub accept_one : World → N (List Value)
accept_one w = do
  s ← own_of
  c ← perform w (open_socket "accept" (int s.fd ∷ []))
  if is_negative c
      then raise (message "accept failed")
      else (new_userdata w >>= λ ns.
          (set_own (record s { accepted = c ∷ s.accepted }) >> pure (ns ∷ [])))

-- F_ACCEPT.
unfoldable pub sock_accept : World → List Slot → N (List Value)
unfolding accept_one
sock_accept w args = check_udata "net.sock" args 1 >> accept_one w

-- F_SEND.
unfoldable pub sock_send : World → List Slot → N (List Value)
sock_send w args = do
  check_udata "net.sock" args 1
  buf ← check_lstring args 2
  s ← own_of
  n ← perform w (driver "send" (int s.fd ∷ bytes buf ∷ int (pos 0) ∷ []))
  pure (integer n ∷ [])

-- F_RECV and F_RECVFROM from the test of malloc on: a negative result counts as no bytes.
unfoldable pub receive_into : World → String → ℤ → ℤ → N (List Value)
receive_into w f n buf =
    if is_null buf
    then raise (message "out of memory")
    else (own_of >>= λ s.
        (fetch w (driver f (int s.fd ∷ int buf ∷ int (pos (to_u32 n)) ∷ int (pos 0) ∷ []))
          >>= λ (r, received).
              (push_lstring w (first_bytes r received) >>= λ text.
              (perform_ w (free buf) >> pure (text ∷ [])))))

-- F_RECV, with "recv", and F_RECVFROM, with "recvfrom", whose sender's address is not looked at.
unfoldable pub sock_receive : World → String → String → List Slot → N (List Value)
unfolding receive_into
sock_receive w metatable f args = do
  check_udata metatable args 1
  n ← check_integer args 2
  buf ← perform w (malloc (pos (to_u32 n)))
  receive_into w f n buf

-- if (s->fd >= 0) { close (s->fd); s->fd = -1; }.
unfoldable pub close_fd : World → N (Unit {0})
close_fd w = do
  s ← own_of
  if is_negative s.fd
      then pure tt
      else (perform_ w (close_socket s.fd) >> set_own (record s { fd = negsuc 0 }))

-- F_CLOSE and F_CLOSE_UDP, by the name of their metatable.
unfoldable pub sock_close : World → String → List Slot → N (List Value)
unfolding close_fd
sock_close w metatable args = check_udata metatable args 1 >> close_fd w >> pure (boolean true ∷ [])

-- F_BIND.
unfoldable pub udp_bind : World → List Slot → N (List Value)
unfolding bind_to
udp_bind w args = do
  check_udata "net.sock.udp" args 1
  ip ← opt_string args 2 (codes "0.0.0.0")
  port ← check_integer args 3
  r ← bind_to w ip port
  if not (is_null r) then raise (message "bind failed") else pure (boolean true ∷ [])

-- F_SENDTO.
unfoldable pub udp_sendto : World → List Slot → N (List Value)
udp_sendto w args = do
  check_udata "net.sock.udp" args 1
  buf ← check_lstring args 2
  ip ← check_string args 3
  port ← check_integer args 4
  s ← own_of
  n ← perform w (driver "sendto" (int s.fd ∷ bytes buf ∷ bytes ip ∷ int (pos (to_u16 port)) ∷ []))
  pure (integer n ∷ [])

-- The handle that L_SOCK_TCP makes, without a descriptor.
unfoldable pub tcp : Sock
tcp = record { fd = negsuc 0; is_udp = false; accepted = [] }

-- L_SOCK_TCP.
unfoldable pub sock_tcp : World → N (List Value)
unfolding tcp
sock_tcp w = set_own tcp >> pure (userdata ∷ [])

-- L_SOCK_UDP, which does not test the descriptor.
unfoldable pub sock_udp : World → N (List Value)
sock_udp w = do
  c ← perform w (open_socket "socket" (const "AF_INET" ∷ const "SOCK_DGRAM" ∷ []))
  set_own (record { fd = c; is_udp = true; accepted = [] })
  pure (userdata ∷ [])

-- The methods of the two metatables.
pub data Method : Type 0 where
  connect listen accept send recv close bind sendto recvfrom close_udp : Method

unfoldable pub call : World → Method → List Slot → N (List Value)
call w connect = sock_connect w
call w listen = sock_listen w
call w accept = sock_accept w
call w send = sock_send w
call w recv = sock_receive w "net.sock" "recv"
call w close = sock_close w "net.sock"
call w bind = udp_bind w
call w sendto = udp_sendto w
call w recvfrom = sock_receive w "net.sock.udp" "recvfrom"
call w close_udp = sock_close w "net.sock.udp"
