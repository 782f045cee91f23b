-- ===== src/Ble/Gatt.antt =====
-- The access callbacks of the GATT services of components/BLE/ble_ble.c.
use clios.Prelude.{ℕ, ltb, if◌then◌else◌, [], ◌∷◌}
use clios.Prelude.Int.{ℤ, pos}
use clios.Lua.{◌>>=◌, ◌>>◌, pure}
use clios.Driver.{int, bytes, driver, World, perform, perform_, is_null}
use clios.Ble.{B}
use clios.Ble.Hid.{hid_report_map}

-- BLE_ATT_ERR_READ_NOT_PERMITTED and BLE_ATT_ERR_INSUFFICIENT_RES, from ble_att.h.
pub record AttErrors : Type 0 where
  pub read_not_permitted : ℤ
  pub insufficient_res : ℤ

-- The operation of an access: a write of so many bytes, a read, or another.
pub data Access : Type 0 where
  write_chr : (len : ℕ) → Access
  read_chr : Access
  other_access : Access

-- The bytes that are copied to the buffer of 256 bytes.
unfoldable pub flat_length : ℕ → ℕ
flat_length len = if ltb 256 len then 256 else len

-- gatt_svr_chr_access_cb: what is written is copied and dropped, whatever the copy returns.
unfoldable pub gatt_svr_chr_access_cb : AttErrors → World → Access → B ℤ
unfolding flat_length
gatt_svr_chr_access_cb errors w (write_chr len) = do
  perform_ w (driver "ble_hs_mbuf_to_flat" (int (pos (flat_length len)) ∷ []))
  pure (pos 0)
gatt_svr_chr_access_cb errors w read_chr = pure errors.read_not_permitted
gatt_svr_chr_access_cb errors w other_access = pure (pos 0)

-- hid_report_map_access_cb.
unfoldable pub hid_report_map_access_cb : AttErrors → World → B ℤ
hid_report_map_access_cb errors w = do
  rc ← perform w (driver "os_mbuf_append" (bytes hid_report_map ∷ []))
  pure (if is_null rc then pos 0 else errors.insufficient_res)
