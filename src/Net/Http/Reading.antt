-- ===== src/Net/Http/Reading.antt =====
-- The loop of components/NET/net_http.c that reads the body of an answer.
use clios.Driver.Memory.{Allocates}
use clios.Prelude.{
  ℕ, zero, suc, ◌+◌, ◌-◌, ◌≤◌, ◌<◌, ◌≡◌, true, false, List, [], ◌∷◌, ◌++◌, Option, none, some, take,
  ltb, if◌then◌else◌, arith,
}
use clios.Prelude.Int.{ℤ, to_int, pos, negsuc, leb_ℤ, pos_part}
use clios.Lua.{Slot, pure, undefined_access, ◌>>=◌}
use clios.Driver.{Call, int, malloc, driver, World, Machine, perform, is_null}
use clios.Driver.Defined.{
  Defined, IsDefined, defined_rules, IsDefined-bind, IsDefined-pure, IsDefined-perform_,
  IsDefined-from_option,
}
use clios.Net.Http.{
  C, Block, opt_body, set_body, set_headers, terminate, read_body, read_into, allocate,
  read_content, fetch_content, perform_request, http_request,
}

-- esp_http_client_read stores at most as many bytes as it is asked for.
abbrev pub IsBounded : World → Type 0
IsBounded w =
    (cs : List Call) (h p : ℤ) (m : ℕ)
    → leb_ℤ (w.answer cs (driver "esp_http_client_read" (int h ∷ int p ∷ int (pos m) ∷ []))) (pos m)
      ≡ true

-- The length of an answer and one byte more are an `int`.
abbrev pub IsShort : World → Type 0
IsShort w =
    (cs : List Call) (h : ℤ)
    → leb_ℤ (to_int (w.answer cs (driver "esp_http_client_get_content_length" (int h ∷ []))))
        (pos 2147483646)
      ≡ true

abbrev read_call : ℤ → Block → ℕ → ℕ → Call
read_call h b n total =
    driver "esp_http_client_read"
      (int h ∷ int (pos (pos_part b.pointer + total)) ∷ int (pos (n - total)) ∷ [])

room :
    (n total j : ℕ) → total ≤ n → leb_ℤ (pos (suc j)) (pos (n - total)) ≡ true → total + suc j ≤ n
room n total j l e = ground (arith, e)

within_block : (size n m : ℕ) → n < size → m ≤ n → ltb size m ≡ false
within_block size n m k l = ground arith

no_fuel : (n total : ℕ) → total ≤ n → n < total + 0 → ⊥
no_fuel n total l m = omega arith

-- The NUL has its place in the block.
terminate-IsDefined :
    (b : Block) (n total : ℕ) (content : List ℕ)
    → n < b.size
    → total ≤ n
    → IsDefined (terminate b total content)
unfolding terminate
terminate-IsDefined b n total content k l =
    let e : ltb total b.size ≡ true = ground arith in rw e (IsDefined-pure content)

-- The body of the loop after a read, on what remains of the fuel.
next_round :
    (w : World) (h : ℤ) (b : Block) (n fuel total : ℕ) (content : List ℕ) (r : ℤ) (stored : List ℕ)
    → leb_ℤ r (pos (n - total)) ≡ true
    → n < b.size
    → total ≤ n
    → ((k : ℕ)
        → total + suc k ≤ n
        → IsDefined (read_body w h b n fuel (total + suc k) (content ++ take (suc k) stored)))
    → IsDefined {S = Machine (Unit {0})} (elim r [
      | pos zero ↦ terminate b total content
      | pos (suc k) ↦
          if ltb b.size (total + suc k)
          then undefined_access
          else read_body w h b n fuel (total + suc k) (content ++ take (suc k) stored)
      | negsuc k ↦ terminate b total content
    ])
next_round w h b n fuel total content (pos zero) stored e s l k =
    terminate-IsDefined b n total content s l
next_round w h b n fuel total content (negsuc j) stored e s l k =
    terminate-IsDefined b n total content s l
next_round w h b n fuel total content (pos (suc j)) stored e s l k =
    rw (within_block b.size n (total + suc j) s (room n total j l e)) (k j (room n total j l e))

-- With more fuel than there are bytes left, the loop ends within the block: each round that goes on
-- has read a byte.
read_body-IsDefined :
    (w : World) (h : ℤ) (b : Block) (n fuel total : ℕ) (content : List ℕ)
    → IsBounded w
    → n < b.size
    → total ≤ n
    → n < total + fuel
    → IsDefined (read_body w h b n fuel total content)
unfolding read_body
read_body-IsDefined w h b n zero total content c s l m = elim (no_fuel n total l m) [ ]
read_body-IsDefined w h b n (suc fuel) total content c s l m = record {
  defined = λ t.
      (next_round w h b n fuel total content (w.answer t.trace (read_call h b n total))
          (w.stored t.trace (read_call h b n total))
          (c t.trace h (pos (pos_part b.pointer + total)) (n - total)) s l
          (λ k r.
            read_body-IsDefined w h b n fuel (total + suc k)
              (content ++ take (suc k) (w.stored t.trace (read_call h b n total))) c s r
              (omega arith))).defined
        (record t { trace = t.trace ++ read_call h b n total ∷ [] });
}

read_into-IsDefined :
    (w : World) (h : ℤ) (n : ℕ) (b : Block)
    → IsBounded w
    → is_null b.pointer ≡ false
    → n < b.size
    → IsDefined (read_into w h n b)
unfolding read_into
read_into-IsDefined w h n b c p s = rw p (
    IsDefined-bind (read_body w h b n (n + 1) 0 []) (λ content. pure (b.pointer, content))
      (read_body-IsDefined w h b n (n + 1) 0 [] c s (omega arith) (omega arith))
      (λ content. IsDefined-pure _))

read_content-IsDefined :
    (w : World) (h : ℤ) (n : ℕ)
    → IsBounded w
    → Allocates w
    → n ≤ 2147483646
    → IsDefined (read_content w h n)
unfolding read_content allocate
read_content-IsDefined w h n c a m =
    let e : ltb 2147483646 n ≡ false = ground arith in
    rw e (record {
      defined = λ s.
          (read_into-IsDefined w h n _ c (a s.trace (pos (n + 1))) (omega arith)).defined
            (record s { trace = s.trace ++ malloc (pos (n + 1)) ∷ [] });
    })

fetch_content-IsDefined :
    (w : World) (h z : ℤ)
    → IsBounded w
    → Allocates w
    → leb_ℤ z (pos 2147483646) ≡ true
    → IsDefined (fetch_content w h z)
unfolding fetch_content
fetch_content-IsDefined w h (pos zero) c a m = IsDefined-pure _
fetch_content-IsDefined w h (pos (suc n)) c a m =
    read_content-IsDefined w h (suc n) c a (ground (arith, m))
fetch_content-IsDefined w h (negsuc n) c a m = IsDefined-pure _

-- The call that asks for the length, and what follows with it.
length_fetched :
    (w : World) (h : ℤ) {A : Type 0} (k : ℤ × List ℕ → C A)
    → IsBounded w
    → Allocates w
    → IsShort w
    → ((r : ℤ × List ℕ) → IsDefined (k r))
    → IsDefined (
        perform w (driver "esp_http_client_get_content_length" (int h ∷ [])) >>= λ n.
        (fetch_content w h (to_int n) >>= k))
length_fetched w h k c a m d = record {
  defined = λ s.
      (IsDefined-bind (fetch_content w h _) k (fetch_content-IsDefined w h _ c a (m s.trace h))
          d).defined
        (record s {
          trace = s.trace ++ driver "esp_http_client_get_content_length" (int h ∷ []) ∷ [];
        });
}

set_body-IsDefined : (w : World) (h : ℤ) (o : Option (List ℕ)) → IsDefined (set_body w h o)
unfolding set_body
set_body-IsDefined w h none = search defined_rules
set_body-IsDefined w h (some x) = search defined_rules

set_headers-IsDefined :
    (w : World) (h : ℤ) (xs : List (Option (List ℕ) × Option (List ℕ)))
    → IsDefined (set_headers w h xs)
unfolding set_headers
set_headers-IsDefined w h [] = search defined_rules
set_headers-IsDefined w h ((k, v) ∷ rest) = IsDefined-bind _ _ (IsDefined-from_option 0 k) (λ key.
    IsDefined-bind _ _ (IsDefined-from_option 0 v)
      (λ value. IsDefined-bind _ _ (IsDefined-perform_ w _) (λ _. set_headers-IsDefined w h rest)))

opt_body-IsDefined : (args : List Slot) → IsDefined (opt_body args)
unfolding opt_body
opt_body-IsDefined args = search defined_rules

perform_request-IsDefined :
    (w : World) (h : ℤ) → IsBounded w → Allocates w → IsShort w → IsDefined (perform_request w h)
unfolding perform_request
perform_request-IsDefined w h c a m = search (length_fetched, defined_rules) depth 20

http_request-IsDefined :
    (w : World) (args : List Slot) (entries : List (Option (List ℕ) × Option (List ℕ)))
    → IsBounded w
    → Allocates w
    → IsShort w
    → IsDefined (http_request w args entries)
unfolding http_request
http_request-IsDefined w args entries c a m =
    search
      (
        defined_rules, opt_body-IsDefined, set_body-IsDefined, set_headers-IsDefined,
        perform_request-IsDefined,
      )
      depth 24

-- Where malloc does not fail, the length of the answer is less than the largest `int`, and the client
-- stores at most as many bytes as it is asked for, `http.request` ends, by a value or by a Lua error:
-- each round of the loop that goes on has read a byte, and every byte and the NUL behind them are
-- written within the block that was allocated.
pub request_ends :
    (w : World) (args : List Slot) (entries : List (Option (List ℕ) × Option (List ℕ)))
    (s : Machine (Unit {0}))
    → IsBounded w
    → Allocates w
    → IsShort w
    → Defined (http_request w args entries s)
request_ends w args entries s c a m = (http_request-IsDefined w args entries c a m).defined s
