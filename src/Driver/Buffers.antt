-- ===== src/Driver/Buffers.antt =====
-- Functions that allocate a buffer, test it for null, use it and free it.
use clios.Prelude.{
  ℕ, ◌≡◌, refl, sym, ap, ◌∙◌, Bool, true, false, List, [], ◌∷◌, if◌then◌else◌, ◌++◌, arith,
}
use mathlib.Core.Path.{subst}
use Prim.Native.String.{String}
use clios.Prelude.Int.{ℤ}
use clios.Lua.{
  memory_error, Value, string, Fault, Outcome, done, raised, aborted, undefined, pure,
  esp_error_check, undefined_access, M, ◌>>=◌, ◌>>◌,
}
use clios.Driver.{
  Arg, driver, own_of, fetch, malloc, free, World, Machine, is_null, perform, perform_,
  push_lstring,
}
use clios.Driver.Memory.{
  UnlessMemory, UnlessMemory-map, Frees-push_lstring, live, live-snoc, remove, Leaves, Frees,
  Frees-bind, Frees-own_of, Frees-driver, Frees-driver_, Frees-fetch, Frees-pure,
  Frees-esp_error_check, remove_same,
}

-- The blocks in use after malloc has returned `p`.
abbrev with_block : ℤ → List ℤ → List ℤ
with_block p ps = if is_null p then ps else p ∷ ps

module _ {D : Type 0} (w : World) where
  -- From a state in which the block `p`, unless it is null, was allocated last, the function returns
  -- to Lua with that block freed and the others kept.
  pub record Releases {A : Type 0} (p : ℤ) (m : M (Machine D) A) : Type 0 where
    pub releases :
        (s : Machine D) (ps : List ℤ)
        → live w s.trace ≡ with_block p ps
        → Leaves (λ t. live w t.trace ≡ ps) (m s)

  Leaves-eq :
      {A : Type 0} (o : Outcome (Machine D) A) (ps qs : List ℤ)
      → ps ≡ qs
      → Leaves (λ t. live w t.trace ≡ ps) o
      → Leaves (λ t. live w t.trace ≡ qs) o
  Leaves-eq (done a t) ps qs e h = h ∙ e
  Leaves-eq (raised x t) ps qs e h = UnlessMemory-map x (λ q. q ∙ e) h
  Leaves-eq (aborted t) ps qs e h = tt
  Leaves-eq undefined ps qs e h = tt

  Releases-outcome :
      {A B : Type 0} (p : ℤ) (m : M (Machine D) A) (f : A → M (Machine D) B) (s : Machine D)
      (ps : List ℤ) (o : Outcome (Machine D) A)
      → m s ≡ o
      → live w s.trace ≡ with_block p ps
      → Leaves (λ t. live w t.trace ≡ live w s.trace) o
      → ((a : A) → Releases p (f a))
      → ((x : Fault) (t : Machine D) → o ≡ raised x t → x ≡ memory_error)
      → Leaves (λ t. live w t.trace ≡ ps) ((m >>= f) s)
  Releases-outcome p m f s ps (done a t) e l h k n = rw (e, ◌>>=◌) ((k a).releases t ps (h ∙ l))
  Releases-outcome p m f s ps (raised x t) e l h k n =
      rw (e, ◌>>=◌) (subst (λ y. UnlessMemory y (live w t.trace ≡ ps)) (sym (n x t refl)) tt)
  Releases-outcome p m f s ps (aborted t) e l h k n = rw (e, ◌>>=◌) tt
  Releases-outcome p m f s ps undefined e l h k n = rw (e, ◌>>=◌) tt

  -- A function that raises no Lua error but that of Lua without memory, and keeps the blocks in use.
  pub record Steady {A : Type 0} (m : M (Machine D) A) : Type 0 where
    pub steady : Frees w m
    pub only_memory : (s t : Machine D) (x : Fault) → m s ≡ raised x t → x ≡ memory_error

  pub Releases-bind :
      {A B : Type 0} (p : ℤ) (m : M (Machine D) A) (f : A → M (Machine D) B)
      → Steady m
      → ((a : A) → Releases p (f a))
      → Releases p (m >>= f)
  Releases-bind p m f h k = record {
    releases = λ s ps l.
        Releases-outcome p m f s ps (m s) refl l (h.steady.frees s) k
          (λ x t e. h.only_memory s t x e);
  }

  pub Releases-free :
      {B : Type 0} (p : ℤ) (k : M (Machine D) B)
      → is_null p ≡ false
      → Frees w k
      → Releases p (perform_ w (free p) >> k)
  Releases-free p k n h = record {
    releases = λ s ps l.
        Leaves-eq (k (record s { trace = s.trace ++ free p ∷ [] }))
          (live w (s.trace ++ free p ∷ [])) ps
          (live-snoc w s.trace (free p) ∙ ap (remove p) l ∙ rw (n) (remove_same p ps))
          (h.frees (record s { trace = s.trace ++ free p ∷ [] }));
  }

  null_cases :
      {A : Type 0} (p : ℤ) (b : Bool) (m k : M (Machine D) A)
      → is_null p ≡ b
      → Frees w m
      → (is_null p ≡ false → Releases p k)
      → Releases p (if b then m else k)
  null_cases p true m k e h i = record {
    releases = λ s ps l. Leaves-eq (m s) (live w s.trace) ps (l ∙ rw (e) refl) (h.frees s);
  }
  null_cases p false m k e h i = i e

  pub Releases-if_null :
      {A : Type 0} (p : ℤ) (m k : M (Machine D) A)
      → Frees w m
      → (is_null p ≡ false → Releases p k)
      → Releases p (if is_null p then m else k)
  Releases-if_null p m k h i = null_cases p (is_null p) m k refl h i

  pub Frees-buffer :
      {A : Type 0} (n : ℤ) (f : ℤ → M (Machine D) A)
      → ((p : ℤ) → Releases p (f p))
      → Frees w (perform w (malloc n) >>= f)
  Frees-buffer n f h = record {
    frees = λ s.
        (h (w.answer s.trace (malloc n))).releases (record s { trace = s.trace ++ malloc n ∷ [] })
          (live w s.trace) (live-snoc w s.trace (malloc n));
  }

  pub Steady-own_of : Steady own_of
  Steady-own_of = record { steady = Frees-own_of w; only_memory = λ s t x e. cc }

  pub Steady-driver_ : (f : String) (xs : List Arg) → Steady (perform_ w (driver f xs))
  Steady-driver_ f xs = record { steady = Frees-driver_ w f xs; only_memory = λ s t x e. cc }

  pub Steady-driver : (f : String) (xs : List Arg) → Steady (perform w (driver f xs))
  Steady-driver f xs = record { steady = Frees-driver w f xs; only_memory = λ s t x e. cc }

  pub Steady-fetch : (f : String) (xs : List Arg) → Steady (fetch w (driver f xs))
  Steady-fetch f xs = record { steady = Frees-fetch w f xs; only_memory = λ s t x e. cc }

  only_exhausted :
      (b : Bool) (v : Value) (s t : Machine D) (x : Fault)
      → (if b then raised memory_error s else done v s) ≡ raised x t
      → x ≡ memory_error
  only_exhausted true v s t x e = cc
  only_exhausted false v s t x e = cc

  pub Steady-push_lstring : (b : List ℕ) → Steady (push_lstring w b)
  Steady-push_lstring b = record {
    steady = Frees-push_lstring w b;
    only_memory = λ s t x e. only_exhausted (w.exhausted s.trace) (string b) s t x e;
  }

  pub Steady-pure : {A : Type 0} (a : A) → Steady (pure a)
  Steady-pure a = record { steady = Frees-pure w a; only_memory = λ s t x e. cc }

  pub Steady-esp_error_check : (z : ℤ) → Steady (esp_error_check z)
  Steady-esp_error_check z = record {
    steady = Frees-esp_error_check w z;
    only_memory = λ s t x e. ground arith;
  }

  aborted_raised :
      {B : Type 0} {o : Outcome (Machine D) B} {u t : Machine D} {x : Fault}
      → o ≡ aborted u
      → o ≡ raised x t
      → x ≡ memory_error
  aborted_raised e r = cc

  raised_same :
      {B : Type 0} {o : Outcome (Machine D) B} (u : Machine D) {t : Machine D} {x y : Fault}
      → o ≡ raised y u
      → o ≡ raised x t
      → y ≡ memory_error
      → x ≡ memory_error
  raised_same u e r h = cc

  undefined_raised :
      {B : Type 0} {o : Outcome (Machine D) B} {t : Machine D} {x : Fault}
      → o ≡ undefined
      → o ≡ raised x t
      → x ≡ memory_error
  undefined_raised e r = cc

  bind_raises :
      {A B : Type 0} (m : M (Machine D) A) (f : A → M (Machine D) B) (s t : Machine D) (x : Fault)
      (o : Outcome (Machine D) A)
      → m s ≡ o
      → Steady m
      → ((a : A) → Steady (f a))
      → (m >>= f) s ≡ raised x t
      → x ≡ memory_error
  bind_raises m f s t x (done a u) e h k r = (k a).only_memory u t x (sym (rw (e, ◌>>=◌) refl) ∙ r)
  bind_raises m f s t x (raised y u) e h k r =
      raised_same u (rw (e, ◌>>=◌) refl) r (h.only_memory s u y e)
  bind_raises m f s t x (aborted u) e h k r = aborted_raised {u = u} (rw (e, ◌>>=◌) refl) r
  bind_raises m f s t x undefined e h k r = undefined_raised (rw (e, ◌>>=◌) refl) r

  pub Steady-bind :
      {A B : Type 0} (m : M (Machine D) A) (f : A → M (Machine D) B)
      → Steady m
      → ((a : A) → Steady (f a))
      → Steady (m >>= f)
  Steady-bind m f h k = record {
    steady = Frees-bind w m f h.steady (λ a. (k a).steady);
    only_memory = λ s t x. bind_raises m f s t x (m s) refl h k;
  }

  pub Steady-if :
      {A : Type 0} (b : Bool) (m k : M (Machine D) A)
      → Steady m
      → Steady k
      → Steady (if b then m else k)
  Steady-if true m k h i = h
  Steady-if false m k h i = i

  pub Steady-undefined_access : (A : Type 0) → Steady (undefined_access {A = A})
  Steady-undefined_access A = record {
    steady = record { frees = λ s. tt };
    only_memory = λ s t x e. cc;
  }

pub ruleset buffer_rules = (
  Frees-buffer, Releases-if_null, Releases-free, Releases-bind, Steady-own_of, Steady-driver_,
  Steady-driver, Steady-fetch, Steady-push_lstring, Steady-pure, Steady-esp_error_check,
  Steady-bind,
)
