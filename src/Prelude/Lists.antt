-- ===== src/Prelude/Lists.antt =====
-- Lists measured and indexed by native numbers, under the library's names.
use Prim.Native.Nat.{ℕ, zero, suc, ◌+◌, ◌-◌, ◌≤◌, ◌<◌, min}
use mathlib.Core.Path.{◌≡◌, refl, ap, ◌∙◌}
use mathlib.Core.List.{List, [], ◌∷◌, ◌++◌}
use mathlib.Core.Option.{Option, none, some}
use native.Mathlib.Omega.{arith}
use clios.Prelude.Tests.{◌==◌, if◌then◌else◌}

module _ {ℓ} {A : Type ℓ} where
  abbrev pub length : List A → ℕ
  length [] = 0
  length (x ∷ xs) = suc (length xs)

  abbrev pub get_elem? : List A → ℕ → Option A
  get_elem? [] i = none
  get_elem? (x ∷ xs) zero = some x
  get_elem? (x ∷ xs) (suc i) = get_elem? xs i

  abbrev pub get_or : List A → ℕ → A → A
  get_or [] i d = d
  get_or (x ∷ xs) zero d = x
  get_or (x ∷ xs) (suc i) d = get_or xs i d

  -- A write out of bounds changes nothing.
  abbrev pub set : List A → ℕ → A → List A
  set [] i v = []
  set (x ∷ xs) zero v = v ∷ xs
  set (x ∷ xs) (suc i) v = x ∷ set xs i v

  abbrev pub take : ℕ → List A → List A
  take zero xs = []
  take (suc n) [] = []
  take (suc n) (x ∷ xs) = x ∷ take n xs

  abbrev pub drop : ℕ → List A → List A
  drop zero xs = xs
  drop (suc n) [] = []
  drop (suc n) (x ∷ xs) = drop n xs

  abbrev pub replicate : ℕ → A → List A
  replicate zero a = []
  replicate (suc n) a = a ∷ replicate n a

module _ {ℓ} {A : Type ℓ} where
  pub length-append : (xs ys : List A) → length (xs ++ ys) ≡ length xs + length ys
  length-append [] ys = omega arith
  length-append (x ∷ xs) ys = omega (arith, length-append xs ys)

  pub length-set : (xs : List A) (i : ℕ) (v : A) → length (set xs i v) ≡ length xs
  length-set [] i v = refl
  length-set (x ∷ xs) zero v = refl
  length-set (x ∷ xs) (suc i) v = ap suc (length-set xs i v)

  pub length-take : (n : ℕ) (xs : List A) → length (take n xs) ≡ min n (length xs)
  length-take zero xs = omega arith
  length-take (suc n) [] = omega arith
  length-take (suc n) (x ∷ xs) = omega (arith, length-take n xs)

  pub length-drop : (n : ℕ) (xs : List A) → length (drop n xs) ≡ length xs - n
  length-drop zero xs = omega arith
  length-drop (suc n) [] = omega arith
  length-drop (suc n) (x ∷ xs) = omega (arith, length-drop n xs)

  pub length-replicate : (n : ℕ) (a : A) → length (replicate n a) ≡ n
  length-replicate zero a = refl
  length-replicate (suc n) a = ap suc (length-replicate n a)

  pub take-append-drop : (n : ℕ) (xs : List A) → take n xs ++ drop n xs ≡ xs
  take-append-drop zero xs = refl
  take-append-drop (suc n) [] = refl
  take-append-drop (suc n) (x ∷ xs) = ap (◌∷◌ x) (take-append-drop n xs)

  pub take-length : (xs : List A) → take (length xs) xs ≡ xs
  take-length [] = refl
  take-length (x ∷ xs) = ap (◌∷◌ x) (take-length xs)

  pub take-le : (n : ℕ) (xs : List A) → length xs ≤ n → take n xs ≡ xs
  take-le zero [] h = refl
  take-le zero (x ∷ xs) h = elim h [ ]
  take-le (suc n) [] h = refl
  take-le (suc n) (x ∷ xs) h = ap (◌∷◌ x) (take-le n xs (omega arith))

  pub take-length_append : (xs ys : List A) → take (length xs) (xs ++ ys) ≡ xs
  take-length_append [] ys = refl
  take-length_append (x ∷ xs) ys = ap (◌∷◌ x) (take-length_append xs ys)

  pub drop-length_append : (xs ys : List A) → drop (length xs) (xs ++ ys) ≡ ys
  drop-length_append [] ys = refl
  drop-length_append (x ∷ xs) ys = drop-length_append xs ys

  pub get_or-set_self :
      (xs : List A) (i : ℕ) (v d : A) → i < length xs → get_or (set xs i v) i d ≡ v
  get_or-set_self [] i v d h = elim h [ ]
  get_or-set_self (x ∷ xs) zero v d h = refl
  get_or-set_self (x ∷ xs) (suc i) v d h = get_or-set_self xs i v d (omega arith)

  pub get_or-set :
      (xs : List A) (i j : ℕ) (v d : A)
      → i < length xs
      → get_or (set xs i v) j d ≡ (if i == j then v else get_or xs j d)
  get_or-set [] i j v d h = elim h [ ]
  get_or-set (x ∷ xs) zero zero v d h = refl
  get_or-set (x ∷ xs) zero (suc j) v d h = ground arith
  get_or-set (x ∷ xs) (suc i) zero v d h = ground arith
  get_or-set (x ∷ xs) (suc i) (suc j) v d h = get_or-set xs i j v d (omega arith) ∙ ground arith

  -- What the tail from `i` on tells of the element at `i`.
  pub get_or-drop :
      (xs : List A) (i : ℕ) (d : A) {x : A} {r : List A} → drop i xs ≡ x ∷ r → get_or xs i d ≡ x
  get_or-drop [] zero d e = cc
  get_or-drop [] (suc i) d e = cc
  get_or-drop (y ∷ xs) zero d e = cc
  get_or-drop (y ∷ xs) (suc i) d e = get_or-drop xs i d e

  pub drop-suc :
      (xs : List A) (i : ℕ) {x : A} {r : List A} → drop i xs ≡ x ∷ r → drop (suc i) xs ≡ r
  drop-suc [] zero e = cc
  drop-suc [] (suc i) e = cc
  drop-suc (y ∷ xs) zero e = cc
  drop-suc (y ∷ xs) (suc i) e = drop-suc xs i e

  pub drop-lt : (xs : List A) (i : ℕ) {x : A} {r : List A} → drop i xs ≡ x ∷ r → i < length xs
  drop-lt [] zero e = cc
  drop-lt [] (suc i) e = cc
  drop-lt (y ∷ xs) zero e = omega arith
  drop-lt (y ∷ xs) (suc i) e = omega (arith, drop-lt xs i e)

  -- A write below `j` does not touch the tail from `j` on.
  pub drop-set_lt : (xs : List A) (i j : ℕ) (v : A) → i < j → drop j (set xs i v) ≡ drop j xs
  drop-set_lt xs i zero v h = elim h [ ]
  drop-set_lt [] i (suc j) v h = refl
  drop-set_lt (x ∷ xs) zero (suc j) v h = refl
  drop-set_lt (x ∷ xs) (suc i) (suc j) v h = drop-set_lt xs i j v (omega arith)

  pub take-set_le : (xs : List A) (i j : ℕ) (v : A) → j ≤ i → take j (set xs i v) ≡ take j xs
  take-set_le xs i zero v h = refl
  take-set_le [] i (suc j) v h = refl
  take-set_le (x ∷ xs) zero (suc j) v h = elim h [ ]
  take-set_le (x ∷ xs) (suc i) (suc j) v h = ap (◌∷◌ x) (take-set_le xs i j v (omega arith))

  -- A write at `i` extends the prefix of length `i`.
  pub take-set-suc :
      (xs : List A) (i : ℕ) (v : A)
      → i < length xs
      → take (suc i) (set xs i v) ≡ take i xs ++ v ∷ []
  take-set-suc [] i v h = elim h [ ]
  take-set-suc (x ∷ xs) zero v h = refl
  take-set-suc (x ∷ xs) (suc i) v h = ap (◌∷◌ x) (take-set-suc xs i v (omega arith))
