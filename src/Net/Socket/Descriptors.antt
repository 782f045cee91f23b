-- ===== src/Net/Socket/Descriptors.antt =====
-- The descriptors of components/NET/net_socket.c: which ones a trace has opened and not closed, and
-- that the handles hold them.
use clios.Prelude.{
  ℕ, ◌+◌, ◌-◌, ◌≡◌, refl, ◌∙◌, Bool, true, false, List, [], ◌∷◌, ◌++◌, arith, if◌then◌else◌, Option,
  none, some, c_str,
}
use clios.Prelude.Int.{ℤ, negsuc, eqb_ℤ}
use clios.Lua.{
  message, userdata, Slot, Value, string, memory_error, Fault, Outcome, done, raised, aborted,
  undefined, ◌>>=◌, ◌>>◌, pure, raise, check_udata, check_integer, check_lstring, check_string,
  opt_string, from_option,
}
use clios.Driver.{
  int, Arg, Call, malloc, free, driver, open_socket, close_socket, World, Machine, own_of, set_own,
  perform, perform_, fetch, is_negative, push_lstring, new_userdata,
}
use clios.Driver.Memory.{replay, replay-snoc, UnlessMemory, UnlessMemory-intro}
use clios.Net.Socket.{Sock, N, socket_into, close_fd, accept_one}
use Prim.Native.String.{String}

abbrev pub hit : ℤ → ℤ → ℕ
hit c d = if eqb_ℤ c d then 1 else 0

-- How many openings of the descriptor `d` are not closed after a call.
abbrev pub change : ℤ → Call → ℤ → ℕ → ℕ
change d (malloc n) r k = k
change d (free p) r k = k
change d (open_socket f xs) r k = if is_negative r then k else k + hit r d
change d (close_socket c) r k = k - hit c d
change d (driver f xs) r k = k

-- The same after a trace.
unfoldable pub in_use : World → ℤ → List Call → ℕ
unfolding replay
in_use w d cs = replay (change d) w [] 0 cs

pub in_use-snoc :
    (w : World) (d : ℤ) (cs : List Call) (c : Call)
    → in_use w d (cs ++ c ∷ []) ≡ change d c (w.answer cs c) (in_use w d cs)
unfolding in_use
in_use-snoc w d cs c = replay-snoc (change d) w [] 0 cs c

abbrev pub hits : List ℤ → ℤ → ℕ
hits [] d = 0
hits (c ∷ cs) d = hit c d + hits cs d

-- How often the handle and those that it has accepted hold the descriptor `d`.
abbrev pub holds : Sock → ℤ → ℕ
holds h d = (if is_negative h.fd then 0 else hit h.fd d) + hits h.accepted d

-- Every descriptor in use is held by the handles, but for those that others had before.
abbrev pub Owned : World → (ℤ → ℕ) → Machine Sock → Type 0
Owned w others s = (d : ℤ) → in_use w d s.trace ≡ holds s.own d + others d

module _ (w : World) (others : ℤ → ℕ) where
  -- The handles hold what is in use; `true` says too that this handle holds nothing.
  abbrev pub Inv : Bool → Machine Sock → Type 0
  Inv true s = Owned w others s × (is_negative s.own.fd ≡ true)
  Inv false s = Owned w others s

  owned : (b : Bool) (s : Machine Sock) → Inv b s → Owned w others s
  owned true s h = h.0
  owned false s h = h

  abbrev pub Ends : {A : Type 0} → Bool → Outcome (Machine Sock) A → Type 0
  Ends c (done a t) = Inv c t
  Ends c (raised e t) = UnlessMemory e (Owned w others t)
  Ends c (aborted t) = Unit {0}
  Ends c undefined = Unit {0}

  -- From `Inv b` the function returns a value with `Inv c`, or an error with every descriptor held,
  -- unless Lua has no memory.
  pub record Meets {A : Type 0} (b c : Bool) (m : N A) : Type 0 where
    pub meets : (s : Machine Sock) → Inv b s → Ends c (m s)

  pub Ends-bind :
      {A B : Type 0} (b c : Bool) (m : N A) (f : A → N B) (s : Machine Sock)
      (o : Outcome (Machine Sock) A)
      → m s ≡ o
      → Ends b o
      → ((a : A) → Meets b c (f a))
      → Ends c ((m >>= f) s)
  Ends-bind b c m f s (done a t) e h k = rw (e, ◌>>=◌) ((k a).meets t h)
  Ends-bind b c m f s (raised x t) e h k = rw (e, ◌>>=◌) h
  Ends-bind b c m f s (aborted t) e h k = rw (e, ◌>>=◌) tt
  Ends-bind b c m f s undefined e h k = rw (e, ◌>>=◌) tt

  pub Meets-bind :
      {A B : Type 0} (b c d : Bool) (m : N A) (f : A → N B)
      → Meets b c m
      → ((a : A) → Meets c d (f a))
      → Meets b d (m >>= f)
  Meets-bind b c d m f h k = record {
    meets = λ s p. Ends-bind c d m f s (m s) refl (h.meets s p) k;
  }

  pub Meets-pure : {A : Type 0} (b : Bool) (a : A) → Meets b b (pure a)
  Meets-pure b a = record { meets = λ s p. p }

  pub Meets-raise : (A : Type 0) (b c : Bool) (e : Fault) → Meets b c (raise {A = A} e)
  Meets-raise A b c e = record { meets = λ s p. UnlessMemory-intro e (owned b s p) }

  pub Meets-own_of : (b : Bool) → Meets b b own_of
  Meets-own_of b = record { meets = λ s p. p }

  pub Meets-if :
      {A : Type 0} (b c t : Bool) (m k : N A)
      → Meets b c m
      → Meets b c k
      → Meets b c (if t then m else k)
  Meets-if b c true m k h i = h
  Meets-if b c false m k h i = i

  -- A call that is not one on descriptors.
  kept :
      (b : Bool) (s : Machine Sock) (c : Call)
      → ((d : ℤ) → change d c (w.answer s.trace c) (in_use w d s.trace) ≡ in_use w d s.trace)
      → Inv b s
      → Inv b (record s { trace = s.trace ++ c ∷ [] })
  kept true s c n h = (λ d. in_use-snoc w d s.trace c ∙ n d ∙ h.0 d, h.1)
  kept false s c n h = λ d. in_use-snoc w d s.trace c ∙ n d ∙ h d

  pub Meets-driver : (b : Bool) (f : String) (xs : List Arg) → Meets b b (perform w (driver f xs))
  Meets-driver b f xs = record { meets = λ s p. kept b s (driver f xs) (λ d. refl) p }

  pub Meets-driver_ : (b : Bool) (f : String) (xs : List Arg) → Meets b b (perform_ w (driver f xs))
  Meets-driver_ b f xs = record { meets = λ s p. kept b s (driver f xs) (λ d. refl) p }

  pub Meets-fetch : (b : Bool) (f : String) (xs : List Arg) → Meets b b (fetch w (driver f xs))
  Meets-fetch b f xs = record { meets = λ s p. kept b s (driver f xs) (λ d. refl) p }

  pub Meets-malloc : (b : Bool) (n : ℤ) → Meets b b (perform w (malloc n))
  Meets-malloc b n = record { meets = λ s p. kept b s (malloc n) (λ d. refl) p }

  pub Meets-free : (b : Bool) (q : ℤ) → Meets b b (perform_ w (free q))
  Meets-free b q = record { meets = λ s p. kept b s (free q) (λ d. refl) p }

  pub Meets-from_option :
      {A : Type 0} (b : Bool) (i : ℕ) (o : Option A) → Meets b b (from_option i o)
  Meets-from_option b i none = record { meets = λ s p. owned b s p }
  Meets-from_option b i (some a) = record { meets = λ s p. p }

  pub Meets-check_udata :
      (b : Bool) (name : String) (args : List Slot) (i : ℕ) → Meets b b (check_udata name args i)
  Meets-check_udata b name args i = search (Meets-if, Meets-pure, Meets-raise)

  pub Meets-check_integer : (b : Bool) (args : List Slot) (i : ℕ) → Meets b b (check_integer args i)
  Meets-check_integer b args i = search Meets-from_option

  pub Meets-check_lstring : (b : Bool) (args : List Slot) (i : ℕ) → Meets b b (check_lstring args i)
  Meets-check_lstring b args i = search Meets-from_option

  pub Meets-check_string : (b : Bool) (args : List Slot) (i : ℕ) → Meets b b (check_string args i)
  Meets-check_string b args i =
      Meets-bind b b b (check_lstring args i) (λ x. pure (c_str x)) (Meets-check_lstring b args i)
        (λ x. Meets-pure b (c_str x))

  pub Meets-opt_string :
      (b : Bool) (args : List Slot) (i : ℕ) (x : List ℕ) → Meets b b (opt_string args i x)
  Meets-opt_string b args i x = search (Meets-if, Meets-check_string, Meets-pure)

  pub socket_into-Meets : (xs : List Arg) → Meets true false (socket_into w xs)
  unfolding socket_into
  socket_into-Meets xs = record {
    meets = λ s p d. ground (arith, in_use-snoc w d s.trace (open_socket "socket" xs), p.0 d, p.1);
  }

  close_cases :
      (s : Machine Sock) (n : Bool)
      → is_negative s.own.fd ≡ n
      → Owned w others s
      → Ends false (
          (if n
              then pure tt
              else (perform_ w (close_socket s.own.fd)
                  >> set_own (record (s.own) { fd = negsuc 0 })))
            s)
  close_cases s true e p = p
  close_cases s false e p =
      λ d. ground (arith, in_use-snoc w d s.trace (close_socket s.own.fd), p d)

  pub close_fd-Meets : Meets false false (close_fd w)
  unfolding close_fd
  close_fd-Meets = record { meets = λ s p. close_cases s (is_negative s.own.fd) refl p }

  -- lua_newuserdata, and the new handle with the descriptor.
  handle_cases :
      (s : Machine Sock) (c : ℤ) (b : Bool)
      → let u = record s { trace = s.trace ++ open_socket "accept" (int s.own.fd ∷ []) ∷ [] } in
        ((d : ℤ)
          → in_use w d u.trace
            ≡ holds (record (s.own) { accepted = c ∷ s.own.accepted }) d + others d)
        → Ends false (
            ((λ (t : Machine Sock). if b then raised memory_error t else done userdata t) >>= λ ns.
            (set_own (record (s.own) { accepted = c ∷ s.own.accepted }) >> pure (ns ∷ [])))
              u)
  handle_cases s c true p = tt
  handle_cases s c false p = p

  exhausted_cases :
      (b : Bool) (s : Machine Sock) (v : Value) (exhausted : Bool)
      → Inv b s
      → Ends b (if exhausted then raised memory_error s else done v s)
  exhausted_cases b s v true p = tt
  exhausted_cases b s v false p = p

  pub Meets-push_lstring : (b : Bool) (x : List ℕ) → Meets b b (push_lstring w x)
  Meets-push_lstring b x = record {
    meets = λ s p. exhausted_cases b s (string x) (w.exhausted s.trace) p;
  }

  accept_cases :
      (s : Machine Sock) (c : ℤ) (n : Bool)
      → is_negative c ≡ n
      → c ≡ w.answer s.trace (open_socket "accept" (int s.own.fd ∷ []))
      → Owned w others s
      → Ends false (
          (if n
              then raise (message "accept failed")
              else (new_userdata w >>= λ ns.
                  (set_own (record (s.own) { accepted = c ∷ s.own.accepted }) >> pure (ns ∷ []))))
            (record s { trace = s.trace ++ open_socket "accept" (int s.own.fd ∷ []) ∷ [] }))
  accept_cases s c true e a p =
      λ d. ground (arith, in_use-snoc w d s.trace (open_socket "accept" (int s.own.fd ∷ [])), p d)
  accept_cases s c false e a p =
      handle_cases s c (w.exhausted (s.trace ++ open_socket "accept" (int s.own.fd ∷ []) ∷ []))
        (λ d.
          ground (arith, in_use-snoc w d s.trace (open_socket "accept" (int s.own.fd ∷ [])), p d))

  pub accept_one-Meets : Meets false false (accept_one w)
  unfolding accept_one
  accept_one-Meets = record {
    meets = λ s p.
        accept_cases s (w.answer s.trace (open_socket "accept" (int s.own.fd ∷ [])))
          (is_negative (w.answer s.trace (open_socket "accept" (int s.own.fd ∷ [])))) refl refl p;
  }

  pub Meets-keep :
      {A B : Type 0} (b d : Bool) (m : N A) (f : A → N B)
      → Meets b b m
      → ((a : A) → Meets b d (f a))
      → Meets b d (m >>= f)
  Meets-keep b d m f h k = Meets-bind b b d m f h k

  pub Meets-open :
      {A B : Type 0} (m : N A) (f : A → N B)
      → Meets true false m
      → ((a : A) → Meets false false (f a))
      → Meets true false (m >>= f)
  Meets-open m f h k = Meets-bind true false false m f h k

pub ruleset meets_rules = (
  Meets-keep, Meets-open, Meets-pure, Meets-raise, Meets-own_of, Meets-if, Meets-driver,
  Meets-driver_, Meets-fetch, Meets-malloc, Meets-free, Meets-push_lstring, Meets-check_udata,
  Meets-check_integer, Meets-check_lstring, Meets-check_string, Meets-opt_string, socket_into-Meets,
  close_fd-Meets, accept_one-Meets,
)
