-- ===== src/Driver.antt =====
-- Calls of code that is not in the repository (ESP-IDF, FreeRTOS, lwIP, malloc): a C function of the
-- libraries is modelled with its own data and the trace of such calls, which a `World` answers.
pub mod Buffers
pub mod Defined
pub mod Leads
pub mod Memory
pub mod Preserves
use Prim.Native.String.{String}
use clios.Prelude.{ℕ, zero, suc, Bool, true, false, List, [], ◌∷◌, ◌++◌, take, if◌then◌else◌}
use clios.Prelude.Int.{ℤ, pos, negsuc, pos_part}
use clios.Lua.{
  Outcome, raised, aborted, undefined, done, M, ◌>>=◌, esp_error_check, Value, string, userdata,
  memory_error,
}

-- An argument: an integer, a constant of a foreign header by its name, or bytes.
pub data Arg : Type 0 where
  int : ℤ → Arg
  const : String → Arg
  bytes : List ℕ → Arg

-- A call: of malloc, of free on a pointer, of a function by its name that returns a descriptor or, if
-- it fails, a negative number, of close on a descriptor, or of another function by its name.
pub data Call : Type 0 where
  malloc : ℤ → Call
  free : ℤ → Call
  open_socket : String → List Arg → Call
  close_socket : ℤ → Call
  driver : String → List Arg → Call

-- What the calls return, by those before it: an integer (a status, a handle, a count; a pointer is
-- null if it is 0) and the bytes stored through a pointer argument; and whether Lua has no memory left
-- for a string or a userdata then.
pub record World : Type 0 where
  pub answer : List Call → Call → ℤ
  pub stored : List Call → Call → List ℕ
  pub exhausted : List Call → Bool

-- The module's own data and the calls so far, the latest last.
pub record Machine (D : Type 0) : Type 0 where
  pub own : D
  pub trace : List Call

module _ {D : Type 0} where
  abbrev pub own_of : M (Machine D) D
  own_of s = done s.own s

  abbrev pub set_own : D → M (Machine D) (Unit {0})
  set_own d s = done tt (record s { own = d })

  -- The state in which a call leaves the module, also by an error.
  abbrev pub after : {A : Type 0} → Machine D → Outcome (Machine D) A → Machine D
  after s (done a t) = t
  after s (raised e t) = t
  after s (aborted t) = t
  after s undefined = s

  -- Make a call and return its integer.
  abbrev pub perform : World → Call → M (Machine D) ℤ
  perform w c s = done (w.answer s.trace c) (record s { trace = s.trace ++ c ∷ [] })

  -- Make a call and return its integer and the bytes that it stored.
  abbrev pub fetch : World → Call → M (Machine D) (ℤ × List ℕ)
  fetch w c s =
      done (w.answer s.trace c, w.stored s.trace c) (record s { trace = s.trace ++ c ∷ [] })

  -- A call whose result is not looked at.
  abbrev pub perform_ : World → Call → M (Machine D) (Unit {0})
  perform_ w c s = done tt (record s { trace = s.trace ++ c ∷ [] })

  -- lua_pushlstring, and lua_newuserdata with what fills it: Lua raises an error without memory.
  abbrev pub push_lstring : World → List ℕ → M (Machine D) Value
  push_lstring w b s = if w.exhausted s.trace then raised memory_error s else done (string b) s

  abbrev pub new_userdata : World → M (Machine D) Value
  new_userdata w s = if w.exhausted s.trace then raised memory_error s else done userdata s

  -- ESP_ERROR_CHECK (call).
  abbrev pub checked : World → Call → M (Machine D) (Unit {0})
  checked w c = perform w c >>= esp_error_check

abbrev pub is_null : ℤ → Bool
is_null (pos zero) = true
is_null (pos (suc n)) = false
is_null (negsuc n) = false

abbrev pub is_negative : ℤ → Bool
is_negative (pos n) = false
is_negative (negsuc n) = true

-- lua_pushlstring (L, buf, n > 0 ? n : 0).
abbrev pub first_bytes : ℤ → List ℕ → List ℕ
first_bytes n buf = take (pos_part n) buf

-- The first and the second number that a call has stored through its pointers.
abbrev pub first_stored : List ℕ → ℤ
first_stored [] = pos 0
first_stored (n ∷ rest) = pos n

abbrev pub second_stored : List ℕ → ℤ
second_stored [] = pos 0
second_stored (n ∷ rest) = first_stored rest
