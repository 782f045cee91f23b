-- ===== src/Driver/Defined.antt =====
-- Functions that make no access whose effect C does not define: a rule for each construct of a `do`
-- block.
use clios.Prelude.{ℕ, ◌≡◌, refl, Bool, true, false, List, Option, none, some, c_str, if◌then◌else◌}
use clios.Lua.{
  Slot, slot, Fault, Outcome, done, raised, aborted, undefined, M, ◌>>=◌, pure, raise, abort,
  check_lstring, check_string, opt_string, from_option, Value, string, memory_error,
}
use clios.Driver.{Call, World, Machine, perform, perform_, fetch, push_lstring}

abbrev pub Defined : {S A : Type 0} → Outcome S A → Type 0
Defined (done a t) = Unit {0}
Defined (raised e t) = Unit {0}
Defined (aborted t) = Unit {0}
Defined undefined = ⊥

module _ {S : Type 0} where
  pub record IsDefined {A : Type 0} (m : M S A) : Type 0 where
    pub defined : (s : S) → Defined (m s)

  Defined-after :
      {A B : Type 0} (m : M S A) (f : A → M S B) (s : S) (o : Outcome S A)
      → m s ≡ o
      → Defined o
      → ((a : A) → IsDefined (f a))
      → Defined ((m >>= f) s)
  Defined-after m f s (done a t) e h k = rw (e, ◌>>=◌) ((k a).defined t)
  Defined-after m f s (raised x t) e h k = rw (e, ◌>>=◌) tt
  Defined-after m f s (aborted t) e h k = rw (e, ◌>>=◌) tt
  Defined-after m f s undefined e h k = elim h [ ]

  pub IsDefined-bind :
      {A B : Type 0} (m : M S A) (f : A → M S B)
      → IsDefined m
      → ((a : A) → IsDefined (f a))
      → IsDefined (m >>= f)
  IsDefined-bind m f h k = record { defined = λ s. Defined-after m f s (m s) refl (h.defined s) k }

  pub IsDefined-pure : {A : Type 0} (a : A) → IsDefined (pure a)
  IsDefined-pure a = record { defined = λ s. tt }

  pub IsDefined-raise : (A : Type 0) (e : Fault) → IsDefined (raise {A = A} e)
  IsDefined-raise A e = record { defined = λ s. tt }

  pub IsDefined-abort : (A : Type 0) → IsDefined (abort {A = A})
  IsDefined-abort A = record { defined = λ s. tt }

  pub IsDefined-if :
      {A : Type 0} (b : Bool) (m k : M S A)
      → IsDefined m
      → IsDefined k
      → IsDefined (if b then m else k)
  IsDefined-if true m k h i = h
  IsDefined-if false m k h i = i

  pub IsDefined-from_option : {A : Type 0} (i : ℕ) (o : Option A) → IsDefined (from_option i o)
  IsDefined-from_option i none = record { defined = λ s. tt }
  IsDefined-from_option i (some a) = record { defined = λ s. tt }

  pub IsDefined-check_lstring : (args : List Slot) (i : ℕ) → IsDefined (check_lstring args i)
  IsDefined-check_lstring args i = IsDefined-from_option i (slot args i).as_string

  pub IsDefined-check_string : (args : List Slot) (i : ℕ) → IsDefined (check_string args i)
  IsDefined-check_string args i =
      IsDefined-bind (check_lstring args i) (λ x. pure (c_str x)) (IsDefined-check_lstring args i)
        (λ x. IsDefined-pure (c_str x))

  pub IsDefined-opt_string :
      (args : List Slot) (i : ℕ) (x : List ℕ) → IsDefined (opt_string args i x)
  IsDefined-opt_string args i x = search (IsDefined-if, IsDefined-pure, IsDefined-check_string)

module _ {D : Type 0} where
  pub IsDefined-perform : (w : World) (c : Call) → IsDefined (perform {D = D} w c)
  IsDefined-perform w c = record { defined = λ s. tt }

  pub IsDefined-perform_ : (w : World) (c : Call) → IsDefined (perform_ {D = D} w c)
  IsDefined-perform_ w c = record { defined = λ s. tt }

  exhausted_cases :
      (b : Bool) (s : Machine D) (v : Value)
      → Defined (if b then raised memory_error s else done v s)
  exhausted_cases true s v = tt
  exhausted_cases false s v = tt

  pub IsDefined-push_lstring : (w : World) (x : List ℕ) → IsDefined (push_lstring {D = D} w x)
  IsDefined-push_lstring w x = record {
    defined = λ s. exhausted_cases (w.exhausted s.trace) s (string x);
  }

  pub IsDefined-fetch : (w : World) (c : Call) → IsDefined (fetch {D = D} w c)
  IsDefined-fetch w c = record { defined = λ s. tt }

pub ruleset defined_rules = (
  IsDefined-bind, IsDefined-pure, IsDefined-raise, IsDefined-if, IsDefined-from_option,
  IsDefined-check_lstring, IsDefined-check_string, IsDefined-opt_string, IsDefined-perform,
  IsDefined-perform_, IsDefined-fetch, IsDefined-push_lstring,
)
