-- ===== src/Ble/Hid/Layout.antt =====
-- The layout of the HID reports, components/BLE/ble_ble.c, against the descriptor that it registers.
use clios.Prelude.{
  ℕ, ◌+◌, ◌*◌, ◌%◌, ◌-◌, ◌≡◌, refl, ap, true, false, ◌&&◌, List, [], ◌∷◌, Option, none, some, arith,
  if◌then◌else◌, ltb, ◌==◌, length,
}
use clios.Prelude.Int.{ℤ, pos, negsuc, to_int, to_u8, leb_ℤ}
use clios.Ble.Hid.{hid_report_map, key_report, mouse_report}

-- How many bits of input the items of a HID descriptor give to a report, after the items Report Size,
-- Report Count and Report ID that are in force. An item is its prefix and, but for prefixes whose two
-- lowest bits are 0, one byte.
unfoldable pub input_bits : ℕ → ℕ → ℕ → ℕ → List ℕ → ℕ
input_bits want size count id [] = 0
input_bits want size count id (prefix ∷ []) = 0
input_bits want size count id (prefix ∷ value ∷ rest) = elim (prefix % 4 == 0) [
  | true ↦ input_bits want size count id (value ∷ rest)
  | false ↦
      (if prefix == 0x81 && id == want then size * count else 0)
      + input_bits want (if prefix == 0x75 then value else size)
          (if prefix == 0x95 then value else count) (if prefix == 0x85 then value else id) rest
]

-- The bits of a report by the descriptor, without its identifier.
unfoldable pub report_bits : ℕ → ℕ
unfolding input_bits
report_bits id = input_bits id 0 0 0 hid_report_map

-- The byte of an entry of the table of key codes.
abbrev pub key_byte : Option ℤ → ℕ
key_byte none = 0
key_byte (some z) = to_u8 z

-- The report of `hid_key` is its identifier 1, the modifiers, a reserved byte, and the six key codes
-- of the table in order, 0 where an entry is no integer.
key_report_lem :
    (modifiers : ℤ) (entry : ℕ → Option ℤ)
    → key_report modifiers entry
      ≡ 1
        ∷ to_u8 (to_int modifiers)
        ∷ 0
        ∷ key_byte (entry 1)
        ∷ key_byte (entry 2)
        ∷ key_byte (entry 3)
        ∷ key_byte (entry 4)
        ∷ key_byte (entry 5)
        ∷ key_byte (entry 6)
        ∷ []
unfolding key_report
key_report_lem modifiers entry = ground arith

-- The reports that `hid_key` and `hid_mouse` send have the length that the descriptor gives to the
-- reports 1 and 2, and a byte for the identifier.
pub report_lengths :
    (modifiers : ℤ) (entry : ℕ → Option ℤ) (buttons x y wheel : ℤ)
    → (8 * length (key_report modifiers entry) ≡ 8 + report_bits 1)
      × (8 * length (mouse_report buttons x y wheel) ≡ 8 + report_bits 2)
unfolding report_bits mouse_report
report_lengths modifiers entry buttons x y wheel =
    (ap (λ (r : List ℕ). 8 * length r) (key_report_lem modifiers entry), refl)

-- The signed number of a byte, where it is not below Logical Minimum, -127.
abbrev pub axis : ℕ → Option ℤ
axis n = if n == 128 then none else some (if ltb n 128 then pos n else negsuc (255 - n))

abbrev pub pointer : ℕ → Option ℤ → Option ℤ → Option ℤ → Option (ℕ × ℤ × ℤ × ℤ)
pointer buttons (some x) (some y) (some wheel) = some (buttons, x, y, wheel)
pointer buttons _ _ _ = none

-- What a host reads from a report of the mouse by the descriptor: three bits for the buttons, whose
-- byte is filled up by five bits that are constant, x, y and the wheel.
unfoldable pub read_mouse : List ℕ → Option (ℕ × ℤ × ℤ × ℤ)
read_mouse (id ∷ buttons ∷ x ∷ y ∷ wheel ∷ []) =
    if id == 2 then pointer (buttons % 8) (axis x) (axis y) (axis wheel) else none
read_mouse _ = none

abbrev pub InRange : ℤ → Type 0
InRange z = (leb_ℤ (negsuc 126) z ≡ true) × (leb_ℤ z (pos 127) ≡ true)
