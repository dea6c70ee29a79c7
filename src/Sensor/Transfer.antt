-- ===== src/Sensor/Transfer.antt =====
-- The transactions of app-nrf/src/drivers/adns7530.c over the SPI driver: the callback that starts
-- the second transfer, and the access to the sensor's registers. `memory` is what the code writes
-- to the buffers that it sends; what the hardware receives into a buffer is not part of the state.
use Prim.Native.Nat.{bit_and, bit_or}
use mymouse.Base.{ℕ, suc, Option, none, some, ◌==◌, if◌then◌else◌, Errno, eio}
use mymouse.Platform.Gpio.{update}
use mymouse.Platform.Spi.{
  Kernel, Spi, Config, TransferSpec, isr, spi_transceive, spi_transceive_managed,
}

-- The one callback of this driver.
pub data Callback : Type 0 where
  adns7530_spi_done_callback : Callback

module _ (k : Kernel) where
  -- With `adns7530_spi_cb_ctx`.
  pub record Adns : Type 0 where
    pub spi : Spi k Callback
    pub error : Option Errno
    pub rx_len : ℕ
    pub rx_buf : ℕ
    pub memory : ℕ → ℕ

  abbrev pub with_spi : Adns → Spi k Callback → Adns
  with_spi w s = record w { spi = s }

  abbrev pub sem_give : Adns → Adns
  sem_give w = record w { spi = record (w.spi) { sem = k.give w.spi.sem } }

  unfoldable pub spi_done_callback : Adns → Adns
  spi_done_callback w =
      if w.rx_buf == 0
      then sem_give w
      else (let rx_spec : TransferSpec = record {
        tx_buf = 0;
        tx_len = 0;
        rx_buf = w.rx_buf;
        rx_len = w.rx_len;
      } in
          let (s, rc) = spi_transceive k Callback isr rx_spec adns7530_spi_done_callback w.spi in
          let w' = record w { spi = s; rx_buf = 0; error = rc } in
          elim rc [ none ↦ w' | some e ↦ sem_give w' ])

  abbrev pub call : Callback → Adns → Adns
  call adns7530_spi_done_callback w = spi_done_callback w

  -- The delays of the SPI driver, the configuration and the chip select of the sensor, and the
  -- thread that calls.
  module _ (off on : ℕ) (config : Config) (cs_pin t : ℕ) where
    unfoldable pub adns7530_spi_transceive : ℕ → ℕ → ℕ → ℕ → ℕ → Adns → Adns × Option Errno
    adns7530_spi_transceive tx_buf tx_len rx_buf rx_len interrupts w =
        let (w', rc) =
          spi_transceive_managed k (λ v. v.spi) with_spi call off on t config cs_pin
            (record { tx_buf = tx_buf; tx_len = tx_len; rx_buf = 0; rx_len = 0 })
            adns7530_spi_done_callback interrupts
            (record w { error = some eio; rx_len = rx_len; rx_buf = rx_buf }) in
        (w', elim rc [ some e ↦ some e | none ↦ w'.error ])

    -- `addr` and `dst_dummy_buf` are on the stack, at the addresses `addr` and `dummy`.
    unfoldable pub adns7530_reg_read : ℕ → ℕ → ℕ → ℕ → ℕ → ℕ → Adns → Adns × Option Errno
    adns7530_reg_read addr dummy reg dst count interrupts w =
        adns7530_spi_transceive addr 1 (if dst == 0 then dummy else dst) count interrupts
          (record w { memory = update w.memory addr (bit_and reg 0x7f) })

    unfoldable pub adns7530_reg_write : ℕ → ℕ → ℕ → ℕ → Adns → Adns × Option Errno
    adns7530_reg_write tx_buf reg value interrupts w =
        adns7530_spi_transceive tx_buf 2 0 0 interrupts (record w {
          memory =
              update (update w.memory tx_buf (bit_or 0x80 (bit_and reg 0x7f))) (suc tx_buf) value;
        })
