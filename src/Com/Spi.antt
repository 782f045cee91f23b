-- ===== src/Com/Spi.antt =====
-- The library `spi`, components/COM/com_spi.c.
use clios.Prelude.{ℕ, ◌*◌, ◌+◌, ◌%◌, true, List, [], ◌∷◌, if◌then◌else◌, length, take}
use clios.Prelude.Int.{ℤ, pos, negsuc, to_int, to_u32, ltb_ℤ, pos_part}
use clios.Lua.{
  Slot, slot, Value, boolean, userdata, message, M, ◌>>=◌, ◌>>◌, pure, raise, esp_error_check,
  check_udata, check_integer, check_lstring, opt_integer,
}
use clios.Driver.{
  push_lstring, int, bytes, malloc, free, driver, World, Machine, own_of, set_own, perform,
  perform_, fetch, checked, is_null,
}

-- mhz*1000*1000.
abbrev times_million : ℤ → ℤ
times_million (pos n) = pos (n * 1000000)
times_million (negsuc n) = negsuc (n * 1000000 + 999999)

-- The handle that a driver stores through a pointer, 0 while it is null.
abbrev handle_of : List ℕ → ℤ
handle_of [] = pos 0
handle_of (h ∷ rest) = pos h

-- SPI2_HOST and SPI_DMA_CH_AUTO, from spi_common.h.
pub record Hosts : Type 0 where
  pub spi2_host : ℤ
  pub dma_auto : ℤ

-- lua_spi_dev_t, the handle that a method gets as its first argument.
pub record Spi : Type 0 where
  pub dev : ℤ

abbrev pub S : Type 0 → Type 0
S A = M (Machine Spi) A

-- luaL_optlstring (L, i, NULL, &nt): no bytes where the argument is absent.
abbrev pub opt_bytes : List Slot → ℕ → S (List ℕ)
opt_bytes args i = if (slot args i).is_none_or_nil then pure [] else check_lstring args i

-- spi_device_transmit of F_SPI_DEV_TXRX and what it does with its status: the buffer for the answer
-- is null where none is asked for.
unfoldable pub transmit : World → List ℕ → ℤ → ℤ → S (List ℕ)
transmit w tx rx bits = do
  d ← own_of
  (err, received) ←
      fetch w (driver "spi_device_transmit" (int d.dev ∷ bytes tx ∷ int rx ∷ int bits ∷ []))
  esp_error_check err
  pure received

-- F_SPI_DEV_TXRX after the allocation.
unfoldable pub xfer_into : World → List ℕ → ℤ → ℤ → S (List Value)
unfolding transmit
xfer_into w tx rxlen rx =
    if is_null rx
    then raise (message "oom")
    else (transmit w tx rx (pos (pos_part rxlen * 8 % 4294967296)) >>= λ received.
        (push_lstring w (take (pos_part rxlen) received) >>= λ text.
        (perform_ w (free rx) >> pure (text ∷ []))))

-- F_SPI_DEV_TXRX.
unfoldable pub spi_xfer : World → List Slot → S (List Value)
unfolding xfer_into transmit
spi_xfer w args = do
  check_udata "spi.dev" args 1
  tx ← opt_bytes args 2
  number ← opt_integer args 3 (pos (length tx))
  let rxlen = to_int number
  if ltb_ℤ (pos 0) rxlen
      then (perform w (malloc (pos (to_u32 rxlen))) >>= xfer_into w tx rxlen)
      else (transmit w tx (pos 0) (pos 0) >>= λ received.
          (push_lstring w [] >>= λ text. pure (text ∷ [])))

-- F_SPI_DEV_REMOVE.
unfoldable pub spi_remove : World → List Slot → S (List Value)
spi_remove w args = do
  check_udata "spi.dev" args 1
  d ← own_of
  perform_ w (driver "spi_bus_remove_device" (int d.dev ∷ []))
  pure (boolean true ∷ [])

-- L_SPI_BUS_INIT.
unfoldable pub spi_bus_init : Hosts → World → List Slot → S (List Value)
spi_bus_init hosts w args = do
  host ← opt_integer args 1 hosts.spi2_host
  mosi ← opt_integer args 2 (negsuc 0)
  miso ← opt_integer args 3 (negsuc 0)
  sclk ← opt_integer args 4 (negsuc 0)
  dma ← opt_integer args 5 hosts.dma_auto
  checked w (
      driver "spi_bus_initialize" (
        int (to_int host)
        ∷ int (to_int mosi)
        ∷ int (to_int miso)
        ∷ int (to_int sclk)
        ∷ int (to_int dma)
        ∷ []))
  pure (boolean true ∷ [])

-- L_SPI_BUS_FREE.
unfoldable pub spi_bus_free : World → List Slot → S (List Value)
spi_bus_free w args = do
  host ← check_integer args 1
  checked w (driver "spi_bus_free" (int (to_int host) ∷ []))
  pure (boolean true ∷ [])

-- L_SPI_ADD_DEVICE, which makes the handle; the driver stores the device in it.
unfoldable pub spi_add_device : World → List Slot → S (List Value)
spi_add_device w args = do
  host ← check_integer args 1
  cs ← check_integer args 2
  mhz ← opt_integer args 3 (pos 10)
  mode ← opt_integer args 4 (pos 0)
  set_own (record { dev = pos 0 })
  (err, stored) ← fetch w (
      driver "spi_bus_add_device" (
        int (to_int host)
        ∷ int (to_int (times_million (to_int mhz)))
        ∷ int (to_int mode)
        ∷ int (to_int cs)
        ∷ []))
  esp_error_check err
  set_own (record { dev = handle_of stored })
  pure (userdata ∷ [])

-- The table SPI_LIB and the methods of a handle.
pub data Function : Type 0 where
  xfer remove bus_init bus_free add_device : Function

unfoldable pub call : Hosts → World → Function → List Slot → S (List Value)
call hosts w xfer = spi_xfer w
call hosts w remove = spi_remove w
call hosts w bus_init = spi_bus_init hosts w
call hosts w bus_free = spi_bus_free w
call hosts w add_device = spi_add_device w
