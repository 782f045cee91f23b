-- ===== src/Prelude/Writes.antt =====
-- The C library's block writes and its strings, over lists of bytes.
use Prim.Native.Nat.{ℕ, zero, suc, ◌+◌, ◌≤◌}
use mathlib.Core.Path.{◌≡◌, refl, ap}
use mathlib.Core.List.{List, [], ◌∷◌, ◌++◌}
use native.Mathlib.Omega.{arith}
use native.Mathlib.Nat.{zero-add, suc-add}
use clios.Prelude.Tests.{◌==◌, if◌then◌else◌}
use clios.Prelude.Lists.{length, take, drop}

module _ {ℓ} {A : Type ℓ} where
  -- memcpy (dst, src, length src): the first bytes of `dst` are replaced.
  abbrev pub overwrite : List A → List A → List A
  overwrite [] dst = dst
  overwrite (x ∷ src) [] = []
  overwrite (x ∷ src) (y ∷ dst) = x ∷ overwrite src dst

  -- memcpy (dst + i, src, length src).
  abbrev pub overwrite_at : ℕ → List A → List A → List A
  overwrite_at zero src dst = overwrite src dst
  overwrite_at (suc i) src [] = []
  overwrite_at (suc i) src (y ∷ dst) = y ∷ overwrite_at i src dst

module _ {ℓ} {A : Type ℓ} where
  pub length-overwrite : (src dst : List A) → length (overwrite src dst) ≡ length dst
  length-overwrite [] dst = refl
  length-overwrite (x ∷ src) [] = refl
  length-overwrite (x ∷ src) (y ∷ dst) = ap suc (length-overwrite src dst)

  pub length-overwrite_at :
      (i : ℕ) (src dst : List A) → length (overwrite_at i src dst) ≡ length dst
  length-overwrite_at zero src dst = length-overwrite src dst
  length-overwrite_at (suc i) src [] = refl
  length-overwrite_at (suc i) src (y ∷ dst) = ap suc (length-overwrite_at i src dst)

  pub overwrite-append :
      (src dst : List A)
      → length src ≤ length dst
      → overwrite src dst ≡ src ++ drop (length src) dst
  overwrite-append [] dst h = refl
  overwrite-append (x ∷ src) [] h = elim h [ ]
  overwrite-append (x ∷ src) (y ∷ dst) h = ap (◌∷◌ x) (overwrite-append src dst (omega arith))

  pub take-overwrite :
      (src dst : List A) → length src ≤ length dst → take (length src) (overwrite src dst) ≡ src
  take-overwrite [] dst h = refl
  take-overwrite (x ∷ src) [] h = elim h [ ]
  take-overwrite (x ∷ src) (y ∷ dst) h = ap (◌∷◌ x) (take-overwrite src dst (omega arith))

  pub take-overwrite_at :
      (i : ℕ) (src dst : List A)
      → i + length src ≤ length dst
      → take (i + length src) (overwrite_at i src dst) ≡ take i dst ++ src
  take-overwrite_at zero src dst h = rw zero-add (take-overwrite src dst (omega arith))
  take-overwrite_at (suc i) src [] h = absurd (omega arith)
  take-overwrite_at (suc i) src (y ∷ dst) h =
      rw suc-add (ap (◌∷◌ y) (take-overwrite_at i src dst (omega arith)))

-- The C string that a buffer holds: its bytes up to the first NUL.
abbrev pub c_str : List ℕ → List ℕ
c_str [] = []
c_str (c ∷ s) = let rest = c_str s in if c == 0 then [] else c ∷ rest

-- What a terminated buffer holds.
pub c_str-terminated : (s r : List ℕ) → c_str (s ++ 0 ∷ r) ≡ c_str s
c_str-terminated [] r = refl
c_str-terminated (c ∷ s) r = ground (arith, c_str-terminated s r)
