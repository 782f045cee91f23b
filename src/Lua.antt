-- ===== src/Lua.antt =====
-- What a C function registered with Lua sees of its call, and how it can end. The Lua library is
-- not part of the repository: an argument is given by what the API's functions answer for it.
pub mod Arguments
use Prim.Native.String.{String}
use text.Mathlib.Text.{◌==◌}
use clios.Prelude.{
  ℕ, zero, suc, Bool, true, false, List, [], ◌∷◌, Option, none, some, c_str, if◌then◌else◌,
}
use clios.Prelude.Int.{ℤ, pos, negsuc}

-- The kinds of Lua value that the functions tell apart by lua_type, lua_isinteger and the like.
pub data Kind : Type 0 where
  boolean_kind integer_kind string_kind table_kind function_kind other_kind : Kind

abbrev same_kind : Kind → Kind → Bool
same_kind boolean_kind boolean_kind = true
same_kind integer_kind integer_kind = true
same_kind string_kind string_kind = true
same_kind table_kind table_kind = true
same_kind function_kind function_kind = true
same_kind other_kind other_kind = true
same_kind _ _ = false

-- One argument: what luaL_checkinteger, luaL_checklstring and lua_toboolean make of it (`none` is an
-- argument error), whether it is absent or nil, whether it is a userdata, whether luaL_checkudata
-- accepts it for a metatable, by its name; and its kind.
pub record Slot : Type 0 where
  pub is_none_or_nil : Bool
  pub as_integer : Option ℤ
  pub as_string : Option (List ℕ)
  pub as_boolean : Bool
  pub is_userdata : Bool
  pub is_udata : String → Bool
  pub kind : Kind

abbrev pub absent : Slot
absent = record {
  is_none_or_nil = true;
  as_integer = none;
  as_string = none;
  as_boolean = false;
  is_userdata = false;
  is_udata = λ name. false;
  kind = other_kind;
}

-- A value that a function pushes; `number` is a quotient, before it is rounded to a lua_Number.
pub data Value : Type 0 where
  nil : Value
  boolean : Bool → Value
  integer : ℤ → Value
  string : List ℕ → Value
  table : List (ℕ × List ℕ) → Value
  userdata : Value
  number : ℤ → ℕ → Value

-- Why luaL_error or luaL_argerror leaves the function, or Lua itself, which has no memory.
pub data Fault : Type 0 where
  bad_argument : ℕ → Fault
  message : String → Fault
  message_code : String → ℤ → Fault
  memory_error : Fault

-- How a function of type `M S A` ends in a state of type `S`: with a value, by a Lua error, by the
-- abort of ESP_ERROR_CHECK, or in an access whose effect C does not define.
pub data Outcome (S A : Type 0) : Type 0 where
  done : A → S → Outcome S A
  raised : Fault → S → Outcome S A
  aborted : S → Outcome S A
  undefined : Outcome S A

abbrev pub M : Type 0 → Type 0 → Type 0
M S A = S → Outcome S A

infixl 5 ◌>>=◌ ◌>>◌
abbrev pub ◌>>=◌ : {S A B : Type 0} → M S A → (A → M S B) → M S B
◌>>=◌ m f s = elim (m s) [
  | done a t ↦ f a t
  | raised e t ↦ raised e t
  | aborted t ↦ aborted t
  | undefined ↦ undefined
]

abbrev pub ◌>>◌ : {S B : Type 0} → M S (Unit {0}) → M S B → M S B
m >> k = m >>= λ _. k

-- Whether an argument is of a kind.
abbrev pub is_kind : Kind → Slot → Bool
is_kind k x = same_kind k x.kind

-- The argument at a position, from 1 on.
abbrev pub slot : List Slot → ℕ → Slot
slot [] i = absent
slot (x ∷ xs) zero = absent
slot (x ∷ xs) (suc zero) = x
slot (x ∷ xs) (suc (suc i)) = slot xs (suc i)

module _ {S : Type 0} where
  abbrev pub pure : {A : Type 0} → A → M S A
  pure a s = done a s

  abbrev pub get : M S S
  get s = done s s

  abbrev pub put : S → M S (Unit {0})
  put t s = done tt t

  abbrev pub modify : (S → S) → M S (Unit {0})
  modify f s = done tt (f s)

  abbrev pub raise : {A : Type 0} → Fault → M S A
  raise e s = raised e s

  abbrev pub abort : {A : Type 0} → M S A
  abort s = aborted s

  abbrev pub undefined_access : {A : Type 0} → M S A
  undefined_access s = undefined

  abbrev pub from_option : {A : Type 0} → ℕ → Option A → M S A
  from_option i none = raise (bad_argument i)
  from_option i (some a) = pure a

  abbrev pub check_integer : List Slot → ℕ → M S ℤ
  check_integer args i = from_option i (slot args i).as_integer

  abbrev pub check_lstring : List Slot → ℕ → M S (List ℕ)
  check_lstring args i = from_option i (slot args i).as_string

  -- luaL_checkstring, whose result the callers read up to its first NUL.
  abbrev pub check_string : List Slot → ℕ → M S (List ℕ)
  check_string args i = check_lstring args i >>= λ s. pure (c_str s)

  abbrev pub opt_integer : List Slot → ℕ → ℤ → M S ℤ
  opt_integer args i default =
      if (slot args i).is_none_or_nil then pure default else check_integer args i

  abbrev pub opt_string : List Slot → ℕ → List ℕ → M S (List ℕ)
  opt_string args i default =
      if (slot args i).is_none_or_nil then pure default else check_string args i

  abbrev pub check_udata : String → List Slot → ℕ → M S (Unit {0})
  check_udata name args i = if (slot args i).is_udata name then pure tt else raise (bad_argument i)

  -- ESP_ERROR_CHECK: any status but ESP_OK, which is 0, aborts the program.
  abbrev pub esp_error_check : ℤ → M S (Unit {0})
  esp_error_check (pos zero) = pure tt
  esp_error_check (pos (suc n)) = abort
  esp_error_check (negsuc n) = abort

-- Arguments of the three common kinds.
abbrev pub int_slot : ℤ → Slot
int_slot z = record absent {
  is_none_or_nil = false;
  as_integer = some z;
  as_boolean = true;
  kind = integer_kind;
}

abbrev pub string_slot : List ℕ → Slot
string_slot s = record absent {
  is_none_or_nil = false;
  as_string = some s;
  as_boolean = true;
  kind = string_kind;
}

abbrev pub udata_slot : String → Slot
udata_slot name = record absent {
  is_none_or_nil = false;
  as_boolean = true;
  is_userdata = true;
  is_udata = λ n. n == name;
}
