-- ===== src/Driver/Leads.antt =====
-- Functions that a call of ESP_ERROR_CHECK can end but no Lua error: what holds of the trace behind them.
use clios.Prelude.{
  zero, suc, ◌≡◌, refl, Bool, true, false, List, [], ◌∷◌, ◌++◌, if◌then◌else◌, arith,
}
use clios.Prelude.Int.{ℤ, pos, negsuc}
use clios.Lua.{Outcome, done, raised, aborted, undefined, M, ◌>>=◌, pure, esp_error_check}
use clios.Driver.{Call, World, Machine, is_null, perform, checked}

-- The call ends the program.
abbrev pub Aborts : {S A : Type 0} → Outcome S A → Type 0
Aborts (done a t) = ⊥
Aborts (raised e t) = ⊥
Aborts (aborted t) = Unit {0}
Aborts undefined = ⊥

-- A value in a state whose trace satisfies `P`, or the end of the program.
abbrev pub Post : {D A : Type 0} → (List Call → Type 0) → Outcome (Machine D) A → Type 0
Post P (done a t) = P t.trace
Post P (raised e t) = ⊥
Post P (aborted t) = Unit {0}
Post P undefined = ⊥

abbrev pub Anything : List Call → Type 0
Anything cs = Unit {0}

module _ {D : Type 0} where
  -- From a state whose trace satisfies `P`, the function leads to one that satisfies `Q`, or ends the
  -- program.
  pub record Leads (P Q : List Call → Type 0) {A : Type 0} (m : M (Machine D) A) : Type 0 where
    pub leads : (s : Machine D) → P s.trace → Post Q (m s)

  Post-after :
      {A B : Type 0} (Q R : List Call → Type 0) (m : M (Machine D) A) (f : A → M (Machine D) B)
      (s : Machine D) (o : Outcome (Machine D) A)
      → m s ≡ o
      → Post Q o
      → ((a : A) → Leads Q R (f a))
      → Post R ((m >>= f) s)
  Post-after Q R m f s (done a t) e h k = rw (e, ◌>>=◌) ((k a).leads t h)
  Post-after Q R m f s (raised x t) e h k = elim h [ ]
  Post-after Q R m f s (aborted t) e h k = rw (e, ◌>>=◌) tt
  Post-after Q R m f s undefined e h k = elim h [ ]

  pub Leads-bind :
      {A B : Type 0} (P Q R : List Call → Type 0) (m : M (Machine D) A) (f : A → M (Machine D) B)
      → Leads P Q m
      → ((a : A) → Leads Q R (f a))
      → Leads P R (m >>= f)
  Leads-bind P Q R m f h k = record {
    leads = λ s p. Post-after Q R m f s (m s) refl (h.leads s p) k;
  }

  pub Leads-pure : {A : Type 0} (P : List Call → Type 0) (a : A) → Leads P P (pure a)
  Leads-pure P a = record { leads = λ s p. p }

  pub Leads-if :
      {A : Type 0} (P Q : List Call → Type 0) (b : Bool) (m k : M (Machine D) A)
      → Leads P Q m
      → Leads P Q k
      → Leads P Q (if b then m else k)
  Leads-if P Q true m k h i = h
  Leads-if P Q false m k h i = i

  pub Leads-perform :
      (P Q : List Call → Type 0) (w : World) (c : Call)
      → ((cs : List Call) → P cs → Q (cs ++ c ∷ []))
      → Leads P Q (perform w c)
  Leads-perform P Q w c h = record { leads = λ s p. h s.trace p }

  pub Leads-esp_error_check : (P : List Call → Type 0) (z : ℤ) → Leads P P (esp_error_check z)
  Leads-esp_error_check P (pos zero) = record { leads = λ s p. p }
  Leads-esp_error_check P (pos (suc n)) = record { leads = λ s p. tt }
  Leads-esp_error_check P (negsuc n) = record { leads = λ s p. tt }

  pub Leads-checked :
      (P Q : List Call → Type 0) (w : World) (c : Call)
      → ((cs : List Call) → P cs → Q (cs ++ c ∷ []))
      → Leads P Q (checked w c)
  Leads-checked P Q w c h =
      Leads-bind P Q Q (perform w c) esp_error_check (Leads-perform P Q w c h)
        (Leads-esp_error_check Q)

  pub failed_check :
      (z : ℤ) (t : Machine D) (P : List Call → Type 0)
      → is_null z ≡ false
      → Post P (esp_error_check z t)
  failed_check z t P h = ground (arith, h)

-- No value is ever returned.
abbrev pub Nothing : List Call → Type 0
Nothing cs = ⊥

pub Aborts-Post : {D A : Type 0} (o : Outcome (Machine D) A) → Post Nothing o → Aborts o
Aborts-Post (done a t) h = h
Aborts-Post (raised e t) h = h
Aborts-Post (aborted t) h = h
Aborts-Post undefined h = h

Aborts-after :
    {S A B : Type 0} (m : M S A) (f : A → M S B) (s : S) (o : Outcome S A)
    → m s ≡ o
    → Aborts o
    → Aborts ((m >>= f) s)
Aborts-after m f s (done a t) e h = elim h [ ]
Aborts-after m f s (raised x t) e h = elim h [ ]
Aborts-after m f s (aborted t) e h = rw (e, ◌>>=◌) tt
Aborts-after m f s undefined e h = elim h [ ]

-- What follows the end of the program does not matter.
pub Aborts-bind :
    {S A B : Type 0} (m : M S A) (f : A → M S B) (s : S) → Aborts (m s) → Aborts ((m >>= f) s)
Aborts-bind m f s h = Aborts-after m f s (m s) refl h

pub Aborts-esp_error_check :
    {S : Type 0} (z : ℤ) (t : S) → is_null z ≡ false → Aborts (esp_error_check z t)
Aborts-esp_error_check z t h = ground (arith, h)
