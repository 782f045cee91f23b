-- ===== src/Hdw/Gpio.antt =====
-- The library `gpio`, components/HDW/hdw_gpio.c, which keeps no data.
use clios.Prelude.{ℕ, zero, suc, ◌*◌, true, List, [], ◌∷◌, Option, none, some, ltb, if◌then◌else◌}
use clios.Prelude.Int.{ℤ, pos, negsuc, to_int, to_u32}
use clios.Lua.{
  Slot, slot, Value, boolean, integer, M, ◌>>=◌, ◌>>◌, pure, undefined_access, check_integer,
  opt_integer, boolean_kind, is_kind,
}
use clios.Driver.{int, const, driver, World, Machine, perform, perform_, is_null}
use Prim.Native.String.{String}

abbrev pub G : Type 0 → Type 0
G A = M (Machine (Unit {0})) A

abbrev pub power2 : ℕ → ℕ
power2 zero = 1
power2 (suc n) = 2 * power2 n

-- 1ULL << _pin, which C defines for 0 to 63.
unfoldable pub pin_mask : ℤ → Option ℕ
pin_mask (pos n) = if ltb n 64 then some (power2 n) else none
pin_mask (negsuc n) = none

-- A switch for pull-up or pull-down resistors, by its argument; the default false is 0.
abbrev pub enable : ℤ → String → String → String
enable z on off = if is_null z then off else on

-- L_GPIO_MODE from the configuration on.
unfoldable pub configure : World → ℤ → ℤ → ℤ → ℤ → ℕ → G (List Value)
configure w pin mode up down mask = do
  perform_ w (
      driver "gpio_config" (
        int (pos mask)
        ∷ int (to_int mode)
        ∷ const (enable up "GPIO_PULLUP_ENABLE" "GPIO_PULLUP_DISABLE")
        ∷ const (enable down "GPIO_PULLDOWN_ENABLE" "GPIO_PULLDOWN_DISABLE")
        ∷ const "GPIO_INTR_DISABLE"
        ∷ []))
  perform_ w (driver "gpio_set_level" (int (to_int pin) ∷ int (pos 0) ∷ []))
  pure (boolean true ∷ [])

-- L_GPIO_MODE.
unfoldable pub gpio_mode : World → List Slot → G (List Value)
unfolding pin_mask configure
gpio_mode w args = do
  pin ← check_integer args 1
  mode ← check_integer args 2
  up ← opt_integer args 3 (pos 0)
  down ← opt_integer args 4 (pos 0)
  elim (pin_mask (to_int pin)) [
    | none ↦ undefined_access
    | some mask ↦ configure w pin mode up down mask
  ]

-- The level of L_GPIO_WRITE: a boolean or an integer, as an uint32_t.
unfoldable pub level_arg : List Slot → G ℕ
level_arg args =
    if is_kind boolean_kind (slot args 2)
    then pure (if (slot args 2).as_boolean then 1 else 0)
    else (check_integer args 2 >>= λ z. pure (to_u32 z))

-- L_GPIO_WRITE.
unfoldable pub gpio_write : World → List Slot → G (List Value)
unfolding level_arg
gpio_write w args = do
  pin ← check_integer args 1
  level ← level_arg args
  perform_ w (driver "gpio_set_level" (int (to_int pin) ∷ int (pos level) ∷ []))
  pure (boolean true ∷ [])

-- L_GPIO_READ.
unfoldable pub gpio_read : World → List Slot → G (List Value)
gpio_read w args = do
  pin ← check_integer args 1
  value ← perform w (driver "gpio_get_level" (int (to_int pin) ∷ []))
  pure (integer value ∷ [])
