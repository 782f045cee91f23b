-- ===== src/Net/Httpd.antt =====
-- The library `httpd`, components/NET/net_httpd.c, a server and its table of callbacks.
pub mod Requests
use clios.Prelude.{
  codes, ℕ, ◌+◌, Bool, true, false, ◌&&◌, List, [], ◌∷◌, ◌++◌, Option, none, some, ltb, leb, ◌==◌,
  if◌then◌else◌, take,
}
use clios.Prelude.Int.{ℤ, pos, to_int, to_u16, eqb_ℤ}
use clios.Lua.{
  Slot, slot, Value, boolean, userdata, message, bad_argument, M, ◌>>=◌, ◌>>◌, pure, raise, abort,
  check_udata, check_string, opt_string, opt_integer, is_kind, function_kind,
}
use clios.Driver.{
  int, bytes, const, driver, World, Machine, own_of, set_own, perform, perform_, fetch, is_null,
  first_stored,
}

-- A value on the stack of Lua: the function that `on` was given, the table of callbacks, or another.
pub data Item : Type 0 where
  function callback_table other_item : Item

-- A key of the table: an integer or a text.
pub data Key : Type 0 where
  number : ℤ → Key
  text : List ℕ → Key

abbrev pub Table : Type 0
Table = List (Key × Item)

-- h->srv, 0 while null, and the table HTTPD_CALLBACKS in the registry, which may not exist yet.
pub record Httpd : Type 0 where
  pub srv : ℤ
  pub callbacks : Option Table

abbrev pub H : Type 0 → Type 0
H A = M (Machine Httpd) A

-- The top of the stack, at the index -1.
abbrev pub top : List Item → Item
top [] = other_item
top (x ∷ xs) = x

-- lua_rawseti (L, -1, n) with the table on top of the stack: `t[n] = v`, where `v` is the top too.
abbrev pub rawseti : ℤ → List Item → Table → Table
rawseti n stack t = (number n, top stack) ∷ t

abbrev pub or_new : Option Table → Table
or_new none = []
or_new (some t) = t

-- store_lua_callback, with the stack of `on` below the table; the text `key` is not used.
unfoldable pub store_lua_callback : ℤ → List Item → Httpd → Httpd
store_lua_callback func_ref stack d = record d {
  callbacks = some (rawseti func_ref (callback_table ∷ stack) (or_new d.callbacks));
}

unfoldable pub same_bytes : List ℕ → List ℕ → Bool
same_bytes [] [] = true
same_bytes [] (y ∷ ys) = false
same_bytes (x ∷ xs) [] = false
same_bytes (x ∷ xs) (y ∷ ys) = x == y && same_bytes xs ys

-- lua_getfield (L, -1, key): `none` is nil.
unfoldable pub getfield : List ℕ → Table → Option Item
unfolding same_bytes
getfield key [] = none
getfield key ((number n, v) ∷ t) = getfield key t
getfield key ((text k, v) ∷ t) = if same_bytes key k then some v else getfield key t

abbrev pub is_function : Option Item → Bool
is_function none = false
is_function (some function) = true
is_function (some callback_table) = false
is_function (some other_item) = false

-- What a callback does under lua_pcall: an error, or two results as luaL_checkinteger and
-- luaL_checklstring read them.
pub data Reply : Type 0 where
  failed : Reply
  results : Option ℤ → Option (List ℕ) → Reply

-- The answer to a request whose callback was found; a wrong result raises an error outside of any
-- protected call, which ends the program.
unfoldable pub send_reply : World → Reply → H (Unit {0})
send_reply w failed = perform_ w (driver "httpd_resp_send_500" [])
send_reply w (results none body) = abort
send_reply w (results (some status) none) = abort
send_reply w (results (some status) (some body)) = do
  perform_ w (driver "httpd_resp_set_status" (bytes (codes "200 OK") ∷ []))
  perform_ w (driver "httpd_resp_send" (bytes body ∷ []))

-- snprintf (key, 1024, "%s|%s", uri, method).
abbrev pub request_key : List ℕ → Bool → List ℕ
request_key uri is_post =
    take 1023 (uri ++ codes "|" ++ (if is_post then codes "POST" else codes "GET"))

-- lua_httpd_generic_handler; `reply` is what the callback does.
unfoldable pub generic_handler : World → (List ℕ → Reply) → List ℕ → Bool → H (Unit {0})
unfolding send_reply getfield
generic_handler w reply uri is_post = do
  d ← own_of
  let found = getfield (request_key uri is_post) (or_new d.callbacks)
  if is_function found
      then send_reply w (reply uri)
      else perform_ w (driver "httpd_resp_send_404" [])

-- F_STOP.
unfoldable pub httpd_stop : World → List Slot → H (List Value)
httpd_stop w args = do
  check_udata "httpd.handle" args 1
  d ← own_of
  if is_null d.srv then pure tt else perform_ w (driver "httpd_stop" (int d.srv ∷ []))
  e ← own_of
  set_own (record e { srv = pos 0 })
  pure (boolean true ∷ [])

-- tolower on the ASCII letters, and strcasecmp (s, "POST") == 0.
abbrev pub to_lower : ℕ → ℕ
to_lower c = if leb 65 c && leb c 90 then c + 32 else c

abbrev pub lower : List ℕ → List ℕ
lower [] = []
lower (c ∷ cs) = to_lower c ∷ lower cs

abbrev pub is_method : List ℕ → List ℕ → Bool
is_method s m = same_bytes (lower s) (lower m)

abbrev pub check_function : List Slot → ℕ → H (Unit {0})
check_function args i =
    if is_kind function_kind (slot args i) then pure tt else raise (bad_argument i)

-- F_ON.
unfoldable pub httpd_on : World → List Slot → H (List Value)
unfolding store_lua_callback
httpd_on w args = do
  check_udata "httpd.handle" args 1
  path ← check_string args 2
  method ← opt_string args 3 (codes "GET")
  check_function args 4
  ref ← perform w (driver "luaL_ref" [])
  d ← own_of
  set_own (store_lua_callback ref (function ∷ other_item ∷ other_item ∷ other_item ∷ []) d)
  e ← own_of
  err ← perform w (
      driver "httpd_register_uri_handler" (
        int e.srv
        ∷ bytes path
        ∷ const (if is_method method (codes "POST") then "HTTP_POST" else "HTTP_GET")
        ∷ []))
  pure (boolean (is_null err) ∷ [])

-- L_HTTPD_START; server_port is an uint16_t.
unfoldable pub httpd_start : World → List Slot → H (List Value)
httpd_start w args = do
  port ← opt_integer args 1 (pos 80)
  d ← own_of
  set_own (record d { srv = pos 0 })
  (err, stored) ← fetch w (driver "httpd_start" (int (pos (to_u16 (to_int port))) ∷ []))
  if is_null err
      then (own_of >>= λ e.
          set_own (record e { srv = first_stored stored }) >> pure (userdata ∷ []))
      else raise (message "httpd_start failed")
