-- ===== src/Net/Tls.antt =====
-- The library `tls`, components/NET/net_tls.c.
pub mod Handles
use clios.Prelude.{ℕ, Bool, true, false, List, [], ◌∷◌, ◌++◌, length, if◌then◌else◌}
use clios.Prelude.Int.{ℤ, pos, to_int, to_u32}
use clios.Lua.{
  Slot, slot, Value, boolean, integer, string, userdata, message, message_code, M, ◌>>=◌, ◌>>◌,
  pure, raise, check_udata, check_integer, check_lstring, check_string, opt_integer,
}
use clios.Driver.{
  new_userdata, push_lstring, Arg, int, bytes, malloc, free, driver, World, Machine, own_of,
  set_own, perform, perform_, fetch, is_null, first_bytes,
}

-- lua_tls_t: h->tls, 0 while null.
pub record Tls : Type 0 where
  pub tls : ℤ

abbrev pub T : Type 0 → Type 0
T A = M (Machine Tls) A

-- The protocol of luaL_optstring (L, 3, NULL), in cfg.alpn_protos.
unfoldable pub alpn_protos : List Slot → T (List Arg)
alpn_protos args =
    if (slot args 3).is_none_or_nil
    then pure []
    else (check_string args 3 >>= λ p. pure (bytes p ∷ []))

-- esp_tls_conn_new_sync; its last argument is the pointer `tls`, which is null, by value.
abbrev pub new_sync : List ℕ → ℤ → List Arg → List Arg
new_sync host port alpn =
    bytes host ∷ int (pos (length host)) ∷ int (to_int port) ∷ (alpn ++ int (pos 0) ∷ [])

-- L_TLS_CONNECT.
unfoldable pub tls_connect : World → List Slot → T (List Value)
unfolding alpn_protos
tls_connect w args = do
  host ← check_string args 1
  port ← opt_integer args 2 (pos 443)
  alpn ← alpn_protos args
  err ← perform w (driver "esp_tls_conn_new_sync" (new_sync host port alpn))
  if is_null err
      then (new_userdata w >>= λ h. (set_own (record { tls = pos 0 }) >> pure (h ∷ [])))
      else raise (message_code "TLS connect failed: %d" err)

-- F_TLS_WRITE.
unfoldable pub tls_write : World → List Slot → T (List Value)
tls_write w args = do
  check_udata "tls.handle" args 1
  buf ← check_lstring args 2
  h ← own_of
  n ← perform w (driver "esp_tls_conn_write" (int h.tls ∷ bytes buf ∷ []))
  pure (integer n ∷ [])

-- F_TLS_READ from the test of malloc on.
unfoldable pub read_into : World → ℤ → ℤ → T (List Value)
read_into w n buf =
    if is_null buf
    then raise (message "out of memory")
    else (own_of >>= λ h.
        fetch w (driver "esp_tls_conn_read" (int h.tls ∷ int buf ∷ int (pos (to_u32 n)) ∷ []))
        >>= λ (r, received).
            (push_lstring w (first_bytes r received) >>= λ text.
            (perform_ w (free buf) >> pure (text ∷ []))))

-- F_TLS_READ.
unfoldable pub tls_read : World → List Slot → T (List Value)
unfolding read_into
tls_read w args = do
  check_udata "tls.handle" args 1
  n ← check_integer args 2
  buf ← perform w (malloc (pos (to_u32 n)))
  read_into w n buf

-- if (h->tls) { esp_tls_conn_destroy (h->tls); free (h->tls); h->tls = NULL; }.
unfoldable pub destroy : World → T (Unit {0})
destroy w = do
  h ← own_of
  if is_null h.tls
      then pure tt
      else (perform_ w (driver "esp_tls_conn_destroy" (int h.tls ∷ []))
          >> perform_ w (free h.tls)
          >> set_own (record { tls = pos 0 }))

-- F_TLS_CLOSE.
unfoldable pub tls_close : World → List Slot → T (List Value)
unfolding destroy
tls_close w args = check_udata "tls.handle" args 1 >> destroy w >> pure (boolean true ∷ [])

-- TLS_LIB and the methods of a handle.
pub data Function : Type 0 where
  connect write read close : Function

unfoldable pub call : World → Function → List Slot → T (List Value)
call w connect = tls_connect w
call w write = tls_write w
call w read = tls_read w
call w close = tls_close w
