-- ===== src/Driver/Memory.antt =====
-- The blocks of memory that a trace of calls has allocated and not freed, and the functions that
-- free what they allocate.
use clios.Prelude.{
  ℕ, ◌≡◌, refl, sym, ◌∙◌, Bool, true, false, List, [], ◌∷◌, ◌++◌, append_assoc, append-nil,
  if◌then◌else◌, arith, Option, none, some, c_str,
}
use Prim.Native.String.{String}
use clios.Prelude.Int.{ℤ, eqb_ℤ}
use clios.Lua.{
  Slot, slot, Outcome, done, raised, aborted, undefined, M, ◌>>=◌, pure, raise, Fault, check_udata,
  check_integer, check_lstring, check_string, opt_integer, opt_string, from_option, esp_error_check,
  bad_argument, message, message_code, memory_error, Value, string, userdata,
}
use clios.Driver.{
  Arg, Call, malloc, free, driver, open_socket, close_socket, World, Machine, is_null, perform,
  perform_, fetch, checked, own_of, set_own, push_lstring, new_userdata,
}

-- Take the first occurrence of a pointer out.
abbrev pub remove : ℤ → List ℤ → List ℤ
remove p [] = []
remove p (q ∷ qs) = if eqb_ℤ p q then qs else q ∷ remove p qs

pub remove_same : (p : ℤ) (ps : List ℤ) → remove p (p ∷ ps) ≡ ps
remove_same p ps = ground arith

-- malloc never fails.
abbrev pub Allocates : World → Type 0
Allocates w = (cs : List Call) (n : ℤ) → is_null (w.answer cs (malloc n)) ≡ false

-- What a call with the answer `r` does to the blocks in use.
abbrev pub update : Call → ℤ → List ℤ → List ℤ
update (malloc n) r ps = if is_null r then ps else r ∷ ps
update (free p) r ps = remove p ps
update (open_socket f xs) r ps = ps
update (close_socket c) r ps = ps
update (driver f xs) r ps = ps

-- What a trace makes of a value, one call with its answer after the other.
unfoldable pub replay : {X : Type 0} → (Call → ℤ → X → X) → World → List Call → X → List Call → X
replay step w before x [] = x
replay step w before x (c ∷ cs) = replay step w (before ++ c ∷ []) (step c (w.answer before c) x) cs

pub replay-snoc :
    {X : Type 0} (step : Call → ℤ → X → X) (w : World) (before : List Call) (x : X) (cs : List Call)
    (c : Call)
    → replay step w before x (cs ++ c ∷ [])
      ≡ step c (w.answer (before ++ cs) c) (replay step w before x cs)
unfolding replay
replay-snoc step w before x [] c = rw (append-nil before) refl
replay-snoc step w before x (y ∷ cs) c =
    rw (sym (append_assoc before (y ∷ []) cs))
      (replay-snoc step w (before ++ y ∷ []) (step y (w.answer before y) x) cs c)

-- The blocks in use after a trace.
unfoldable pub live : World → List Call → List ℤ
unfolding replay
live w cs = replay update w [] [] cs

-- One more call.
pub live-snoc :
    (w : World) (cs : List Call) (c : Call)
    → live w (cs ++ c ∷ []) ≡ update c (w.answer cs c) (live w cs)
unfolding live
live-snoc w cs c = replay-snoc update w [] [] cs c

-- What is said of the state at a Lua error, but for the error that Lua itself raises without memory.
abbrev pub UnlessMemory : Fault → Type 0 → Type 0
UnlessMemory (bad_argument i) P = P
UnlessMemory (message m) P = P
UnlessMemory (message_code m z) P = P
UnlessMemory memory_error P = Unit {0}

pub UnlessMemory-intro : {P : Type 0} (e : Fault) → P → UnlessMemory e P
UnlessMemory-intro (bad_argument i) p = p
UnlessMemory-intro (message m) p = p
UnlessMemory-intro (message_code m z) p = p
UnlessMemory-intro memory_error p = tt

pub UnlessMemory-map : {P Q : Type 0} (e : Fault) → (P → Q) → UnlessMemory e P → UnlessMemory e Q
UnlessMemory-map (bad_argument i) f p = f p
UnlessMemory-map (message m) f p = f p
UnlessMemory-map (message_code m z) f p = f p
UnlessMemory-map memory_error f p = tt

-- A state that a function hands back to Lua, by a value or by an error of its own, satisfies `P`.
abbrev pub Leaves : {S A : Type 0} → (S → Type 0) → Outcome S A → Type 0
Leaves P (done a t) = P t
Leaves P (raised e t) = UnlessMemory e (P t)
Leaves P (aborted t) = Unit {0}
Leaves P undefined = Unit {0}

module _ {D : Type 0} (w : World) where
  -- Where the function returns to Lua, also by an error of its own, the blocks in use are those from
  -- before.
  pub record Frees {A : Type 0} (m : M (Machine D) A) : Type 0 where
    pub frees : (s : Machine D) → Leaves (λ t. live w t.trace ≡ live w s.trace) (m s)

  Leaves-trans :
      {A : Type 0} (s t : Machine D) (o : Outcome (Machine D) A)
      → live w t.trace ≡ live w s.trace
      → Leaves (λ u. live w u.trace ≡ live w t.trace) o
      → Leaves (λ u. live w u.trace ≡ live w s.trace) o
  Leaves-trans s t (done a u) e p = p ∙ e
  Leaves-trans s t (raised x u) e p = UnlessMemory-map x (λ q. q ∙ e) p
  Leaves-trans s t (aborted u) e p = tt
  Leaves-trans s t undefined e p = tt

  Leaves-bind :
      {A B : Type 0} (m : M (Machine D) A) (f : A → M (Machine D) B) (s : Machine D)
      (o : Outcome (Machine D) A)
      → m s ≡ o
      → Leaves (λ t. live w t.trace ≡ live w s.trace) o
      → ((a : A) → Frees (f a))
      → Leaves (λ t. live w t.trace ≡ live w s.trace) ((m >>= f) s)
  Leaves-bind m f s (done a t) e p k = rw (e, ◌>>=◌) (Leaves-trans s t (f a t) p ((k a).frees t))
  Leaves-bind m f s (raised x t) e p k = rw (e, ◌>>=◌) p
  Leaves-bind m f s (aborted t) e p k = rw (e, ◌>>=◌) tt
  Leaves-bind m f s undefined e p k = rw (e, ◌>>=◌) tt

  pub Frees-bind :
      {A B : Type 0} (m : M (Machine D) A) (f : A → M (Machine D) B)
      → Frees m
      → ((a : A) → Frees (f a))
      → Frees (m >>= f)
  Frees-bind m f h k = record { frees = λ s. Leaves-bind m f s (m s) refl (h.frees s) k }

  pub Frees-pure : {A : Type 0} (a : A) → Frees (pure a)
  Frees-pure a = record { frees = λ s. refl }

  pub Frees-raise : (A : Type 0) (e : Fault) → Frees (raise {A = A} e)
  Frees-raise A e = record { frees = λ s. UnlessMemory-intro e refl }

  pub Frees-own_of : Frees own_of
  Frees-own_of = record { frees = λ s. refl }

  pub Frees-set_own : (d : D) → Frees (set_own d)
  Frees-set_own d = record { frees = λ s. refl }

  pub Frees-if :
      {A : Type 0} (b : Bool) (m k : M (Machine D) A)
      → Frees m
      → Frees k
      → Frees (if b then m else k)
  Frees-if true m k h i = h
  Frees-if false m k h i = i

  exhausted_cases :
      (b : Bool) (s : Machine D) (v : Value)
      → Leaves
          (λ t. live w t.trace ≡ live w s.trace)
          (if b then raised memory_error s else done v s)
  exhausted_cases true s v = tt
  exhausted_cases false s v = refl

  pub Frees-push_lstring : (b : List ℕ) → Frees (push_lstring w b)
  Frees-push_lstring b = record { frees = λ s. exhausted_cases (w.exhausted s.trace) s (string b) }

  pub Frees-new_userdata : Frees (new_userdata w)
  Frees-new_userdata = record { frees = λ s. exhausted_cases (w.exhausted s.trace) s userdata }

  pub Frees-driver : (f : String) (xs : List Arg) → Frees (perform w (driver f xs))
  Frees-driver f xs = record { frees = λ s. live-snoc w s.trace (driver f xs) }

  pub Frees-driver_ : (f : String) (xs : List Arg) → Frees (perform_ w (driver f xs))
  Frees-driver_ f xs = record { frees = λ s. live-snoc w s.trace (driver f xs) }

  pub Frees-open_socket : (f : String) (xs : List Arg) → Frees (perform w (open_socket f xs))
  Frees-open_socket f xs = record { frees = λ s. live-snoc w s.trace (open_socket f xs) }

  pub Frees-close_socket : (c : ℤ) → Frees (perform_ w (close_socket c))
  Frees-close_socket c = record { frees = λ s. live-snoc w s.trace (close_socket c) }

  pub Frees-fetch : (f : String) (xs : List Arg) → Frees (fetch w (driver f xs))
  Frees-fetch f xs = record { frees = λ s. live-snoc w s.trace (driver f xs) }

  pub Frees-esp_error_check : (z : ℤ) → Frees (esp_error_check z)
  Frees-esp_error_check z = record { frees = λ s. ground arith }

  pub Frees-checked : (f : String) (xs : List Arg) → Frees (checked w (driver f xs))
  Frees-checked f xs =
      Frees-bind (perform w (driver f xs)) esp_error_check (Frees-driver f xs) Frees-esp_error_check

  from_option-Frees : {A : Type 0} (i : ℕ) (o : Option A) → Frees (from_option i o)
  from_option-Frees i none = record { frees = λ s. refl }
  from_option-Frees i (some a) = record { frees = λ s. refl }

  pub Frees-check_udata :
      (name : String) (args : List Slot) (i : ℕ) → Frees (check_udata name args i)
  Frees-check_udata name args i =
      Frees-if ((slot args i).is_udata name) (pure tt) (raise (bad_argument i)) (Frees-pure tt)
        (Frees-raise (Unit {0}) (bad_argument i))

  pub Frees-check_integer : (args : List Slot) (i : ℕ) → Frees (check_integer args i)
  Frees-check_integer args i = from_option-Frees i (slot args i).as_integer

  pub Frees-check_lstring : (args : List Slot) (i : ℕ) → Frees (check_lstring args i)
  Frees-check_lstring args i = from_option-Frees i (slot args i).as_string

  pub Frees-check_string : (args : List Slot) (i : ℕ) → Frees (check_string args i)
  Frees-check_string args i =
      Frees-bind (check_lstring args i) (λ x. pure (c_str x)) (Frees-check_lstring args i)
        (λ x. Frees-pure (c_str x))

  pub Frees-opt_integer : (args : List Slot) (i : ℕ) (d : ℤ) → Frees (opt_integer args i d)
  Frees-opt_integer args i d =
      Frees-if (slot args i).is_none_or_nil (pure d) (check_integer args i) (Frees-pure d)
        (Frees-check_integer args i)

  pub Frees-opt_string : (args : List Slot) (i : ℕ) (d : List ℕ) → Frees (opt_string args i d)
  Frees-opt_string args i d =
      Frees-if (slot args i).is_none_or_nil (pure d) (check_string args i) (Frees-pure d)
        (Frees-check_string args i)

pub ruleset frees_rules = (
  Frees-bind, Frees-pure, Frees-raise, Frees-own_of, Frees-set_own, Frees-if, Frees-driver,
  Frees-driver_, Frees-fetch, Frees-push_lstring, Frees-new_userdata, Frees-checked,
  Frees-check_udata, Frees-check_integer, Frees-check_lstring, Frees-check_string,
  Frees-opt_integer, Frees-opt_string, Frees-esp_error_check, Frees-open_socket, Frees-close_socket,
)
