-- ===== src/Avr/Master.antt =====
-- The nRF's side: app-nrf/src/services/avr_comm.c. The SPI driver calls `avr_spi_done_callback`
-- when a transfer has ended; a call, with what the first transfer received and what
-- `spi_transceive` gives for the second one, is a `Done`. What `spi_transceive_managed` returns, and
-- the bytes that are in the receive buffer then, are arguments too. `none` is a result of 0.
use mymouse.Base.{
  ℕ, Bool, true, false, List, [], ◌∷◌, Option, none, some, ◌||◌, not, ◌==◌, if◌then◌else◌, get_or,
  Errno, eio, ebusy, Ret, ok, err,
}
use mymouse.Avr.Crc.{update_crc}

abbrev pub handshake_tx_value : ℕ
handshake_tx_value = 0x42

abbrev pub handshake_rx_value : ℕ
handshake_rx_value = 0x43

-- avr_spi_cb_ctx. Of `spec` it matters whether it is NULL; `given` says that the semaphore of the
-- driver was given.
pub record Context : Type 0 where
  pub error : Option Errno
  pub spec_set : Bool
  pub given : Bool

pub record Done : Type 0 where
  pub handshake_rx : ℕ  -- handshake_rx_buf[0]
  pub second : Option Errno  -- the result of `spi_transceive`

unfoldable pub avr_spi_done_callback : Done → Context → Context
avr_spi_done_callback done ctx =
    if ctx.spec_set
    then (if not (done.handshake_rx == handshake_rx_value)
        then (record ctx { error = some ebusy; given = true })
        else elim (done.second) [
          | none ↦ record ctx { error = none; spec_set = false }
          | some e ↦ record ctx { error = some e; given = true }
        ])
    else (record ctx { given = true })

abbrev pub run_callbacks : List Done → Context → Context
run_callbacks [] ctx = ctx
run_callbacks (d ∷ ds) ctx = run_callbacks ds (avr_spi_done_callback d ctx)

-- The loop over the `rx_len` received bytes, and the comparison with the last one, for at most 256
-- bytes: the index is a uint8_t, and Avr.Crc.Loop has the loop with its wrap-around.
unfoldable pub check_crc : ℕ → List ℕ → Bool
check_crc crc [] = true
check_crc crc (b ∷ []) = crc == b
check_crc crc (b ∷ c ∷ bs) = check_crc (update_crc crc b) (c ∷ bs)

abbrev pub result_of : Option Errno → Ret → Ret
result_of none rest = rest
result_of (some e) rest = err e

unfoldable pub avr_transceive : Option Errno → List Done → List ℕ → Ret
avr_transceive managed done rx_buf =
    let ctx = run_callbacks done (record { error = some eio; spec_set = true; given = false }) in
    result_of managed (result_of (ctx.error) (if check_crc 0 rx_buf then ok 0 else err eio))

unfoldable pub verify_avr_id : Option Errno → List Done → List ℕ → Ret
verify_avr_id managed done response = elim (avr_transceive managed done response) [
  | err e ↦ err e
  | ok n ↦
      if not (get_or response 0 0 == 0x1E)
        || not (get_or response 1 0 == 0x93)
        || not (get_or response 2 0 == 0x89)
      then ok 1
      else ok 0
]
