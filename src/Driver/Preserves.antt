-- ===== src/Driver/Preserves.antt =====
-- Properties of a module's static data that its functions preserve: a rule for each construct of a
-- `do` block.
use Prim.Native.String.{String}
use clios.Prelude.{
  ℕ, zero, suc, ◌≡◌, refl, Bool, true, false, List, Option, none, some, c_str, if◌then◌else◌,
}
use clios.Prelude.Int.{ℤ, pos, negsuc}
use clios.Lua.{
  Slot, slot, Fault, Outcome, done, raised, aborted, undefined, M, ◌>>=◌, pure, raise, abort,
  check_udata, check_integer, check_lstring, check_string, opt_integer, opt_string, from_option,
  esp_error_check, Value, string, memory_error,
}
use clios.Driver.{
  Call, World, Machine, own_of, set_own, perform, perform_, fetch, after, push_lstring,
}

-- However the function ends, the data satisfy `P`.
abbrev pub Ends : {D A : Type 0} → (D → Type 0) → Outcome (Machine D) A → Type 0
Ends P (done a t) = P t.own
Ends P (raised e t) = P t.own
Ends P (aborted t) = P t.own
Ends P undefined = Unit {0}

pub ends_after :
    {D A : Type 0} (P : D → Type 0) (s : Machine D) (o : Outcome (Machine D) A)
    → P s.own
    → Ends P o
    → P (after s o).own
ends_after P s (done a t) p h = h
ends_after P s (raised e t) p h = h
ends_after P s (aborted t) p h = h
ends_after P s undefined p h = p

module _ {D : Type 0} (P : D → Type 0) where
  pub record Preserves {A : Type 0} (m : M (Machine D) A) : Type 0 where
    pub preserves : (s : Machine D) → P s.own → Ends P (m s)

  Ends-bind :
      {A B : Type 0} (m : M (Machine D) A) (f : A → M (Machine D) B) (s : Machine D)
      (o : Outcome (Machine D) A)
      → m s ≡ o
      → Ends P o
      → ((a : A) → Preserves (f a))
      → Ends P ((m >>= f) s)
  Ends-bind m f s (done a t) e h k = rw (e, ◌>>=◌) ((k a).preserves t h)
  Ends-bind m f s (raised x t) e h k = rw (e, ◌>>=◌) h
  Ends-bind m f s (aborted t) e h k = rw (e, ◌>>=◌) h
  Ends-bind m f s undefined e h k = rw (e, ◌>>=◌) tt

  pub Preserves-bind :
      {A B : Type 0} (m : M (Machine D) A) (f : A → M (Machine D) B)
      → Preserves m
      → ((a : A) → Preserves (f a))
      → Preserves (m >>= f)
  Preserves-bind m f h k = record {
    preserves = λ s p. Ends-bind m f s (m s) refl (h.preserves s p) k;
  }

  -- What is read from the data satisfies `P` too.
  pub Preserves-own :
      {B : Type 0} (f : D → M (Machine D) B)
      → ((d : D) → P d → Preserves (f d))
      → Preserves (own_of >>= f)
  Preserves-own f k = record { preserves = λ s p. (k s.own p).preserves s p }

  pub Preserves-set_own : (d : D) → P d → Preserves (set_own d)
  Preserves-set_own d p = record { preserves = λ s q. p }

  pub Preserves-pure : {A : Type 0} (a : A) → Preserves (pure a)
  Preserves-pure a = record { preserves = λ s p. p }

  pub Preserves-raise : (A : Type 0) (e : Fault) → Preserves (raise {A = A} e)
  Preserves-raise A e = record { preserves = λ s p. p }

  pub Preserves-abort : (A : Type 0) → Preserves (abort {A = A})
  Preserves-abort A = record { preserves = λ s p. p }

  pub Preserves-if :
      {A : Type 0} (b : Bool) (m k : M (Machine D) A)
      → Preserves m
      → Preserves k
      → Preserves (if b then m else k)
  Preserves-if true m k h i = h
  Preserves-if false m k h i = i

  pub Preserves-perform : (w : World) (c : Call) → Preserves (perform w c)
  Preserves-perform w c = record { preserves = λ s p. p }

  pub Preserves-perform_ : (w : World) (c : Call) → Preserves (perform_ w c)
  Preserves-perform_ w c = record { preserves = λ s p. p }

  pub Preserves-fetch : (w : World) (c : Call) → Preserves (fetch w c)
  Preserves-fetch w c = record { preserves = λ s p. p }

  exhausted_cases :
      (s : Machine D) (b : Bool) (v : Value)
      → P s.own
      → Ends P (if b then raised memory_error s else done v s)
  exhausted_cases s true v p = p
  exhausted_cases s false v p = p

  pub Preserves-push_lstring : (w : World) (b : List ℕ) → Preserves (push_lstring w b)
  Preserves-push_lstring w b = record {
    preserves = λ s p. exhausted_cases s (w.exhausted s.trace) (string b) p;
  }

  pub Preserves-esp_error_check : (z : ℤ) → Preserves (esp_error_check z)
  Preserves-esp_error_check (pos zero) = record { preserves = λ s p. p }
  Preserves-esp_error_check (pos (suc n)) = record { preserves = λ s p. p }
  Preserves-esp_error_check (negsuc n) = record { preserves = λ s p. p }

  pub Preserves-from_option : {A : Type 0} (i : ℕ) (o : Option A) → Preserves (from_option i o)
  Preserves-from_option i none = record { preserves = λ s p. p }
  Preserves-from_option i (some a) = record { preserves = λ s p. p }

  pub Preserves-check_string : (args : List Slot) (i : ℕ) → Preserves (check_string args i)
  Preserves-check_string args i =
      Preserves-bind (check_lstring args i) (λ x. pure (c_str x))
        (Preserves-from_option i (slot args i).as_string) (λ x. Preserves-pure (c_str x))

  pub Preserves-check_udata :
      (name : String) (args : List Slot) (i : ℕ) → Preserves (check_udata name args i)
  Preserves-check_udata name args i = search (Preserves-if, Preserves-pure, Preserves-raise)

  pub Preserves-check_integer : (args : List Slot) (i : ℕ) → Preserves (check_integer args i)
  Preserves-check_integer args i = Preserves-from_option i (slot args i).as_integer

  pub Preserves-check_lstring : (args : List Slot) (i : ℕ) → Preserves (check_lstring args i)
  Preserves-check_lstring args i = Preserves-from_option i (slot args i).as_string

  pub Preserves-opt_integer : (args : List Slot) (i : ℕ) (z : ℤ) → Preserves (opt_integer args i z)
  Preserves-opt_integer args i z = search (Preserves-if, Preserves-pure, Preserves-check_integer)

  pub Preserves-opt_string :
      (args : List Slot) (i : ℕ) (x : List ℕ) → Preserves (opt_string args i x)
  Preserves-opt_string args i x = search (Preserves-if, Preserves-pure, Preserves-check_string)

-- The state after a call satisfies what the function preserves.
pub after_preserves :
    {D A : Type 0} (P : D → Type 0) (m : M (Machine D) A) (s : Machine D)
    → Preserves P m
    → P s.own
    → P (after s (m s)).own
after_preserves P m s k p = ends_after P s (m s) p (k.preserves s p)

-- The general rule for a bind stands behind the one for the data.
pub ruleset preserves_rules = (
  Preserves-own, Preserves-bind, Preserves-set_own, Preserves-pure, Preserves-raise,
  Preserves-abort, Preserves-if, Preserves-perform, Preserves-perform_, Preserves-fetch,
  Preserves-push_lstring, Preserves-esp_error_check, Preserves-check_udata, Preserves-check_integer,
  Preserves-check_lstring, Preserves-check_string, Preserves-opt_integer, Preserves-opt_string,
)
