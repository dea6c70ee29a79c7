-- ===== src/Avr/Transfer.antt =====
-- `avr_transceive` and its callback in app-nrf/src/services/avr_comm.c, over the SPI driver: the
-- handshake, and the transfer of the data from the interrupt that ends it. `answer` is what the AVR
-- puts into handshake_rx_buf[0], and `response` the `rx_len` bytes of the receive buffer at the end;
-- `rx_len` is at most 256 (Avr.Crc.Loop).
pub mod Bus
mod Tests
use mymouse.Base.{
  ℕ, List, Option, none, some, not, ◌==◌, ◌||◌, if◌then◌else◌, Errno, eio, ebusy, Ret, ok, err,
}
use mymouse.Platform.Spi.{
  Kernel, Spi, Config, TransferSpec, isr, spi_transceive, spi_transceive_managed,
}
use mymouse.Avr.Master.{check_crc, result_of, handshake_rx_value}

-- The one callback of this service.
pub data Callback : Type 0 where
  avr_spi_done_callback : Callback

-- `if (data_spec->rx_len)`, and the check of the bytes.
abbrev pub check_data : TransferSpec → List ℕ → Ret
check_data data_spec response =
    if data_spec.rx_len == 0 || check_crc 0 response then ok 0 else err eio

module _ (k : Kernel) where
  -- With `avr_spi_cb_ctx`.
  pub record Link : Type 0 where
    pub spi : Spi k Callback
    pub error : Option Errno
    pub spec : Option TransferSpec

  abbrev pub with_spi : Link → Spi k Callback → Link
  with_spi w s = record w { spi = s }

  abbrev pub sem_give : Link → Link
  sem_give w = record w { spi = record (w.spi) { sem = k.give w.spi.sem } }

  unfoldable pub spi_done_callback : ℕ → Link → Link
  spi_done_callback answer w = elim (w.spec) [
    | none ↦ sem_give w
    | some spec ↦
        let (s, rc) = spi_transceive k Callback isr spec avr_spi_done_callback w.spi in
        if not (answer == handshake_rx_value)
        then sem_give (record w { error = some ebusy })
        else elim rc [
          | none ↦ record w { spi = s; error = none; spec = none }
          | some e ↦ sem_give (record w { spi = s; error = some e })
        ]
  ]

  abbrev pub call : ℕ → Callback → Link → Link
  call answer avr_spi_done_callback w = spi_done_callback answer w

  -- The delays of the SPI driver, the configuration and the chip select of the AVR, the thread, and
  -- the addresses of handshake_tx_buf and handshake_rx_buf.
  module _ (off on : ℕ) (config : Config) (cs_pin t tx_buf rx_buf : ℕ) where
    abbrev pub handshake : TransferSpec
    handshake = record { tx_buf = tx_buf; tx_len = 2; rx_buf = rx_buf; rx_len = 2 }

    unfoldable pub transceive : TransferSpec → ℕ → List ℕ → ℕ → Link → Link × Ret
    transceive data_spec answer response interrupts w =
        let (w', rc) =
          spi_transceive_managed k (λ v. v.spi) with_spi (call answer) off on t config cs_pin
            handshake avr_spi_done_callback interrupts
            (record w { error = some eio; spec = some data_spec }) in
        (w', result_of rc (result_of (w'.error) (check_data data_spec response)))
