-- ===== src/Lua/Arguments.antt =====
-- How the functions that read an optional argument end.
use clios.Prelude.{
  ℕ, ◌≡◌, ◌⊎◌, inl, inr, refl, Bool, true, false, Option, none, some, List, if◌then◌else◌,
}
use clios.Prelude.Int.{ℤ}
use clios.Lua.{Slot, done, raised, bad_argument, slot, opt_integer, from_option, pure}

module _ {S : Type 0} where
  read_cases :
      (i : ℕ) (default : ℤ) (s : S) (b : Bool) (o : Option ℤ)
      → ((z : ℤ) × ((if b then pure default else from_option i o) s ≡ done z s))
        ⊎ ((if b then pure default else from_option i o) s ≡ raised (bad_argument i) s)
  read_cases i default s true o = inl (default, refl)
  read_cases i default s false none = inr refl
  read_cases i default s false (some z) = inl (z, refl)

  -- An optional integer is read, or its position is an argument error; the state stays.
  pub opt_integer-cases :
      (args : List Slot) (i : ℕ) (default : ℤ) (s : S)
      → ((z : ℤ) × (opt_integer args i default s ≡ done z s))
        ⊎ (opt_integer args i default s ≡ raised (bad_argument i) s)
  opt_integer-cases args i default s =
      read_cases i default s (slot args i).is_none_or_nil (slot args i).as_integer
