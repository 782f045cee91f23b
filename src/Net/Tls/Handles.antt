-- ===== src/Net/Tls/Handles.antt =====
-- `tls.connect`, components/NET/net_tls.c: which results of ESP-TLS end in an error.
use clios.Prelude.{ℕ, ◌≡◌, refl, false, List, arith}
use clios.Prelude.Int.{ℤ, pos}
use clios.Lua.{Slot, Outcome, done, raised, aborted, undefined, M, ◌>>=◌, check_string, opt_integer}
use clios.Driver.{Arg, Call, driver, World, Machine, is_null}
use clios.Net.Tls.{Tls, alpn_protos, new_sync, tls_connect}

-- A call that ends in a Lua error.
abbrev pub Fails : {S A : Type 0} → Outcome S A → Type 0
Fails (done a t) = ⊥
Fails (raised e t) = Unit {0}
Fails (aborted t) = ⊥
Fails undefined = ⊥

-- A call that returns, by a value or by an error.
abbrev Returns : {S A : Type 0} → Outcome S A → Type 0
Returns (done a t) = Unit {0}
Returns (raised e t) = Unit {0}
Returns (aborted t) = ⊥
Returns undefined = ⊥

Fails-after :
    {S A B : Type 0} (m : M S A) (f : A → M S B) (s : S) (o : Outcome S A)
    → m s ≡ o
    → Returns o
    → ((a : A) (t : S) → Fails (f a t))
    → Fails ((m >>= f) s)
Fails-after m f s (done a t) e h k = rw (e, ◌>>=◌) (k a t)
Fails-after m f s (raised x t) e h k = rw (e, ◌>>=◌) tt
Fails-after m f s (aborted t) e h k = elim h [ ]
Fails-after m f s undefined e h k = elim h [ ]

record Returning {S A : Type 0} (m : M S A) : Type 0 where
  pub returns : (s : S) → Returns (m s)

record Failing {S A : Type 0} (m : M S A) : Type 0 where
  pub fails : (s : S) → Fails (m s)

Failing-bind :
    {S A B : Type 0} (m : M S A) (f : A → M S B)
    → Returning m
    → ((a : A) → Failing (f a))
    → Failing (m >>= f)
Failing-bind m f h k = record {
  fails = λ s. Fails-after m f s (m s) refl (h.returns s) (λ a t. (k a).fails t);
}

check_string-Returning :
    {S : Type 0} (args : List Slot) (i : ℕ) → Returning {S = S} (check_string args i)
check_string-Returning args i = record { returns = λ s. ground arith }

opt_integer-Returning :
    {S : Type 0} (args : List Slot) (i : ℕ) (d : ℤ) → Returning {S = S} (opt_integer args i d)
opt_integer-Returning args i d = record { returns = λ s. ground arith }

alpn-Returning : (args : List Slot) → Returning (alpn_protos args)
unfolding alpn_protos
alpn-Returning args = record { returns = λ s. ground arith }

connect-Failing :
    (w : World) (args : List Slot)
    → ((cs : List Call) (xs : List Arg)
        → is_null (w.answer cs (driver "esp_tls_conn_new_sync" xs)) ≡ false)
    → Failing (tls_connect w args)
unfolding tls_connect
connect-Failing w args h = Failing-bind _ _ (check_string-Returning args 1) (λ host.
    Failing-bind _ _ (opt_integer-Returning args 2 (pos 443)) (λ port.
      Failing-bind _ _ (alpn-Returning args)
        (λ alpn. record { fails = λ s. rw (h s.trace (new_sync host port alpn)) tt })))

-- Where esp_tls_conn_new_sync returns something else than 0 (ESP-IDF documents -1 for a failure and 1
-- for a connection), `tls.connect` ends in a Lua error, whatever its arguments.
connect-Fails :
    (w : World) (args : List Slot) (s : Machine Tls)
    → ((cs : List Call) (xs : List Arg)
        → is_null (w.answer cs (driver "esp_tls_conn_new_sync" xs)) ≡ false)
    → Fails (tls_connect w args s)
connect-Fails w args s h = (connect-Failing w args h).fails s
