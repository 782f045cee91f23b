-- ===== src/Net/Http.antt =====
-- The library `http`, components/NET/net_http.c.
pub mod Reading
use clios.Prelude.{
  codes, ℕ, zero, suc, ◌+◌, ◌-◌, ◌≤◌, ◌<◌, ◌≡◌, refl, Bool, true, false, List, [], ◌∷◌, ◌++◌,
  Option, none, some, length, take, ltb, if◌then◌else◌, c_str, arith,
}
use clios.Prelude.Int.{ℤ, pos, negsuc, leb_ℤ, to_int, pos_part}
use clios.Lua.{
  Slot, slot, Value, integer, string, message_code, bad_argument, M, ◌>>=◌, ◌>>◌, pure, raise,
  undefined_access, from_option, done, check_lstring, check_string, opt_string, is_kind, table_kind,
}
use clios.Driver.{
  push_lstring, Call, Arg, int, bytes, const, malloc, free, driver, World, Machine, perform,
  perform_, fetch, is_null,
}
use clios.Net.Httpd.{is_method}
use Prim.Native.String.{String}

-- The library keeps no data.
abbrev pub C : Type 0 → Type 0
C A = M (Machine (Unit {0})) A

-- The method of the client.
abbrev pub http_method : List ℕ → String
http_method m =
    if is_method m (codes "POST")
    then "HTTP_METHOD_POST"
    else if is_method m (codes "PUT")
    then "HTTP_METHOD_PUT"
    else if is_method m (codes "DELETE")
    then "HTTP_METHOD_DELETE"
    else "HTTP_METHOD_GET"

-- luaL_optlstring (L, 3, NULL, &blen).
unfoldable pub opt_body : List Slot → C (Option (List ℕ))
opt_body args =
    if (slot args 3).is_none_or_nil
    then pure none
    else (check_lstring args 3 >>= λ b. pure (some b))

unfoldable pub set_body : World → ℤ → Option (List ℕ) → C (Unit {0})
set_body w h none = pure tt
set_body w h (some b) = perform_ w (driver "esp_http_client_set_post_field" (int h ∷ bytes b ∷ []))

-- The loop over the table of headers; a key or a value that is no text is an argument error.
unfoldable pub set_headers : World → ℤ → List (Option (List ℕ) × Option (List ℕ)) → C (Unit {0})
set_headers w h [] = pure tt
set_headers w h ((k, v) ∷ rest) = from_option 0 k >>= λ key. from_option 0 v >>= λ value.
    (perform_ w
        (driver "esp_http_client_set_header" (int h ∷ bytes (c_str key) ∷ bytes (c_str value) ∷ []))
      >> set_headers w h rest)

-- A block of memory: where it starts, null if 0, and how many bytes it has.
pub record Block : Type 0 where
  pub pointer : ℤ
  pub size : ℕ

-- malloc (size).
unfoldable pub allocate : World → ℕ → C Block
allocate w size = perform w (malloc (pos size)) >>= λ p. pure (record { pointer = p; size = size })

-- buf[total]=0, behind what has been read: C does not define a write outside the block.
unfoldable pub terminate : Block → ℕ → List ℕ → C (List ℕ)
terminate b total content = if ltb total b.size then pure content else undefined_access

-- The loop over esp_http_client_read with content_len as `n`, `total` and what has been read, on fuel,
-- and the NUL behind it. C does not define what a read does that stores bytes behind the block.
unfoldable pub read_body : World → ℤ → Block → ℕ → ℕ → ℕ → List ℕ → C (List ℕ)
unfolding terminate
read_body w h b n zero total content = undefined_access
read_body w h b n (suc fuel) total content =
    fetch w (
      driver "esp_http_client_read"
        (int h ∷ int (pos (pos_part b.pointer + total)) ∷ int (pos (n - total)) ∷ []))
    >>= λ (r, stored). elim r [
      | pos zero ↦ terminate b total content
      | pos (suc k) ↦
          if ltb b.size (total + suc k)
          then undefined_access
          else read_body w h b n fuel (total + suc k) (content ++ take (suc k) stored)
      | negsuc k ↦ terminate b total content
    ]

-- The loop on a block, whose pointer is not tested: with a null block, the NUL at the end is written
-- through a null pointer.
unfoldable pub read_into : World → ℤ → ℕ → Block → C (ℤ × List ℕ)
unfolding read_body
read_into w h n b =
    if is_null b.pointer
    then undefined_access
    else (read_body w h b n (n + 1) 0 [] >>= λ content. pure (b.pointer, content))

-- The allocation and the loop, with content_len more than 0, and the block. For the largest `int` the
-- sum content_len+1 overflows, which C does not define.
unfoldable pub read_content : World → ℤ → ℕ → C (ℤ × List ℕ)
unfolding allocate read_into
read_content w h n =
    if ltb 2147483646 n then undefined_access else (allocate w (n + 1) >>= read_into w h n)

-- The body of the answer with its block, null where the length is not known or 0.
unfoldable pub fetch_content : World → ℤ → ℤ → C (ℤ × List ℕ)
unfolding read_content
fetch_content w h (pos zero) = pure (pos 0, [])
fetch_content w h (pos (suc n)) = read_content w h (suc n)
fetch_content w h (negsuc n) = pure (pos 0, [])

-- L_HTTP_REQUEST from esp_http_client_perform on.
unfoldable pub perform_request : World → ℤ → C (List Value)
unfolding fetch_content
perform_request w h = do
  err ← perform w (driver "esp_http_client_perform" (int h ∷ []))
  if is_null err then pure tt else raise (message_code "esp_err=%d" err)
  status ← perform w (driver "esp_http_client_get_status_code" (int h ∷ []))
  content_len ← perform w (driver "esp_http_client_get_content_length" (int h ∷ []))
  (buf, content) ← fetch_content w h (to_int content_len)
  perform_ w (driver "esp_http_client_cleanup" (int h ∷ []))
  text ← push_lstring w content
  if is_null buf then pure tt else perform_ w (free buf)
  pure (integer status ∷ text ∷ [])

-- L_HTTP_REQUEST; the entries of the fourth argument are given, if it is a table.
unfoldable pub http_request :
    World → List Slot → List (Option (List ℕ) × Option (List ℕ)) → C (List Value)
unfolding opt_body set_body set_headers perform_request
http_request w args entries = do
  method ← opt_string args 1 (codes "GET")
  url ← check_string args 2
  body ← opt_body args
  h ← perform w (driver "esp_http_client_init" (bytes url ∷ []))
  perform_ w (driver "esp_http_client_set_method" (int h ∷ const (http_method method) ∷ []))
  set_body w h body
  if is_kind table_kind (slot args 4) then set_headers w h entries else pure tt
  perform_request w h
