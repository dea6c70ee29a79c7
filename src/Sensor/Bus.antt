-- ===== src/Sensor/Bus.antt =====
-- What a transaction of the sensor puts on the bus, and what its result says.
use mymouse.Base.{
  ℕ, zero, suc, ◌≡◌, refl, false, ◌∷◌, none, some, ◌==◌, if◌then◌else◌, eio, eagain, arith,
}
use Prim.Native.Nat.{bit_and, bit_or}
use mymouse.Platform.Gpio.{update}
use mymouse.Platform.Spi.{
  Kernel, Config, TransferSpec, thread, write_pin, start, act, spi_lock, spi_unlock, spi_configure,
  spi_transceive, spi_irq_handler, sem_take, select_and_transceive, spi_transceive_managed,
  is_bad_buffer,
}
use mymouse.Platform.Spi.Lock.{IsMutex, IsSem, transfers}
use mymouse.Sensor.Transfer.{
  Adns, Callback, adns7530_spi_done_callback, with_spi, call, spi_done_callback,
  adns7530_spi_transceive, adns7530_reg_read, adns7530_reg_write,
}

module _ (k : Kernel) (mutex : IsMutex k) (sem : IsSem k) (off on : ℕ) (config : Config)
    (cs_pin t : ℕ) where
  open mutex use {lock_ok, holds_owner}
  open sem use {taken}

  -- The transfer that receives.
  abbrev pub second : Adns k → TransferSpec
  second w = record { tx_buf = 0; tx_len = 0; rx_buf = w.rx_buf; rx_len = w.rx_len }

  -- The wait after the first transfer has started, where nothing is to be received.
  waiting_write :
      (n : ℕ) (w : Adns k)
      → k.take w.spi.sem ≡ none
      → w.rx_buf ≡ 0
      → w.spi.callback ≡ some adns7530_spi_done_callback
      → ((sem_take k (λ v. v.spi) (with_spi k) (call k) off on n w).1
          ≡ (if n == 0 then some eagain else none))
        × ((sem_take k (λ v. v.spi) (with_spi k) (call k) off on n w).0.error ≡ w.error)
        × (transfers (sem_take k (λ v. v.spi) (with_spi k) (call k) off on n w).0.spi.actions
            ≡ transfers w.spi.actions)
  unfolding sem_take spi_irq_handler spi_done_callback
  waiting_write zero w e r c = ground (arith, e)
  waiting_write (suc zero) w e r c = ground (arith, e, r, c, taken w.spi.sem e)
  waiting_write (suc (suc n)) w e r c = ground (arith, e, r, c, taken w.spi.sem e)

  -- The interrupt after the first transfer, where something is to be received.
  irq_read :
      (w : Adns k)
      → (w.rx_buf == 0) ≡ false
      → is_bad_buffer w.rx_buf ≡ false
      → w.spi.callback ≡ some adns7530_spi_done_callback
      → spi_irq_handler k (λ v. v.spi) (with_spi k) (call k) off on w ≡ record w {
        error = none;
        rx_buf = 0;
        spi = record (w.spi) {
          in_spi_isr = false;
          callback = some adns7530_spi_done_callback;
          actions = start (second w) ∷ w.spi.actions;
        };
      }
  unfolding spi_irq_handler spi_done_callback spi_transceive
  irq_read w r b c = ground (arith, r, b, c)

  sem_take_step :
      (n : ℕ) (w : Adns k)
      → k.take w.spi.sem ≡ none
      → sem_take k (λ v. v.spi) (with_spi k) (call k) off on (suc n) w
        ≡ sem_take k
            (λ v. v.spi)
            (with_spi k)
            (call k)
            off
            on
            n
            (spi_irq_handler k (λ v. v.spi) (with_spi k) (call k) off on w)
  unfolding sem_take
  sem_take_step n w e = ground (arith, e)

  waiting_read :
      (n : ℕ) (w : Adns k)
      → k.take w.spi.sem ≡ none
      → (w.rx_buf == 0) ≡ false
      → is_bad_buffer w.rx_buf ≡ false
      → w.spi.callback ≡ some adns7530_spi_done_callback
      → ((sem_take k (λ v. v.spi) (with_spi k) (call k) off on (suc n) w).1
          ≡ (if n == 0 then some eagain else none))
        × ((sem_take k (λ v. v.spi) (with_spi k) (call k) off on (suc n) w).0.error ≡ none)
        × (transfers (sem_take k (λ v. v.spi) (with_spi k) (call k) off on (suc n) w).0.spi.actions
            ≡ second w ∷ transfers w.spi.actions)
  waiting_read n w e r b c =
      rw (sem_take_step n w e, irq_read w r b c) (waiting_write n _ e refl refl)

  -- The lock is free for the thread, and the semaphore has no count.
  pub record IsReady (w : Adns k) : Type 0 where
    pub lock_free : (k.lock t 100 w.spi.mutex).1 ≡ none
    pub not_given : k.take w.spi.sem ≡ none

  adns7530_spi_transceive_write :
      (tx_buf tx_len rx_len n : ℕ) (w : Adns k)
      → IsReady w
      → is_bad_buffer tx_buf ≡ false
      → ((adns7530_spi_transceive k off on config cs_pin t tx_buf tx_len 0 rx_len n w).1
          ≡ some (if n == 0 then eagain else eio))
        × (transfers
              (adns7530_spi_transceive k off on config cs_pin t tx_buf tx_len 0 rx_len n
                w).0.spi.actions
            ≡ (record { tx_buf = tx_buf; tx_len = tx_len; rx_buf = 0; rx_len = 0 })
              ∷ transfers w.spi.actions)
  unfolding adns7530_spi_transceive spi_transceive_managed select_and_transceive spi_transceive
      spi_lock spi_configure spi_unlock
  adns7530_spi_transceive_write tx_buf tx_len rx_len n w h b =
      let w0 : Adns k = record w { error = some eio; rx_len = rx_len; rx_buf = 0 } in
      let spec : TransferSpec = record {
        tx_buf = tx_buf;
        tx_len = tx_len;
        rx_buf = 0;
        rx_len = 0;
      } in
      let s1 = spi_lock k Callback off on t 100 w0.spi in
      let s2 = spi_configure k Callback off on (thread t) config s1.0 in
      let s3 =
        spi_transceive k Callback (thread t) spec adns7530_spi_done_callback
          (act k Callback (write_pin cs_pin false) s2.0) in
      ground (
        arith,
        h,
        b,
        lock_ok t 100 w.spi.mutex,
        holds_owner t s1.0.mutex,
        waiting_write n (with_spi k w0 s3.0),
      )

  adns7530_spi_transceive_read :
      (tx_buf tx_len rx_buf rx_len n : ℕ) (w : Adns k)
      → IsReady w
      → is_bad_buffer tx_buf ≡ false
      → (rx_buf == 0) ≡ false
      → is_bad_buffer rx_buf ≡ false
      → ((adns7530_spi_transceive k off on config cs_pin t tx_buf tx_len rx_buf rx_len (suc n) w).1
          ≡ (if n == 0 then some eagain else none))
        × (transfers
              (adns7530_spi_transceive k off on config cs_pin t tx_buf tx_len rx_buf rx_len
                (suc n)
                w).0.spi.actions
            ≡ (record { tx_buf = 0; tx_len = 0; rx_buf = rx_buf; rx_len = rx_len })
              ∷ (record { tx_buf = tx_buf; tx_len = tx_len; rx_buf = 0; rx_len = 0 })
              ∷ transfers w.spi.actions)
  unfolding adns7530_spi_transceive spi_transceive_managed select_and_transceive spi_transceive
      spi_lock spi_configure spi_unlock
  adns7530_spi_transceive_read tx_buf tx_len rx_buf rx_len n w h b r c =
      let w0 : Adns k = record w { error = some eio; rx_len = rx_len; rx_buf = rx_buf } in
      let spec : TransferSpec = record {
        tx_buf = tx_buf;
        tx_len = tx_len;
        rx_buf = 0;
        rx_len = 0;
      } in
      let s1 = spi_lock k Callback off on t 100 w0.spi in
      let s2 = spi_configure k Callback off on (thread t) config s1.0 in
      let s3 =
        spi_transceive k Callback (thread t) spec adns7530_spi_done_callback
          (act k Callback (write_pin cs_pin false) s2.0) in
      ground (
        arith,
        h,
        b,
        r,
        c,
        lock_ok t 100 w.spi.mutex,
        holds_owner t s1.0.mutex,
        waiting_read n (with_spi k w0 s3.0),
      )

  -- Where at least the first transfer of a register's read ends before the timeout, the result is 0
  -- if a second one ends too, and EAGAIN if not. Both transfers are started once: first the sensor
  -- is sent one byte, then the bytes are received into the caller's buffer. The lock of the bus is
  -- free, its semaphore has no count, and the buffers are in RAM.
  adns7530_reg_read-transfers :
      (addr dummy reg dst count n : ℕ) (w : Adns k)
      → IsReady w
      → is_bad_buffer addr ≡ false
      → (dst == 0) ≡ false
      → is_bad_buffer dst ≡ false
      → ((adns7530_reg_read k off on config cs_pin t addr dummy reg dst count (suc n) w).1
          ≡ (if n == 0 then some eagain else none))
        × (transfers
              (adns7530_reg_read k off on config cs_pin t addr dummy reg dst count
                (suc n)
                w).0.spi.actions
            ≡ (record { tx_buf = 0; tx_len = 0; rx_buf = dst; rx_len = count })
              ∷ (record { tx_buf = addr; tx_len = 1; rx_buf = 0; rx_len = 0 })
              ∷ transfers w.spi.actions)
  unfolding adns7530_reg_read
  adns7530_reg_read-transfers addr dummy reg dst count n w h a d b =
      let w' : Adns k = record w { memory = update w.memory addr (bit_and reg 0x7f) } in
      let ready : IsReady w' = record { lock_free = h.lock_free; not_given = h.not_given } in
      rw d (adns7530_spi_transceive_read addr 1 dst count n w' ready a d b)

  -- A write of a register starts its one transfer, and its result is an error, whether the transfer
  -- ends before the timeout or not: EIO is set before it, and nothing resets it. The lock of the
  -- bus is free, its semaphore has no count, and the buffer is in RAM.
  pub adns7530_reg_write-eio :
      (tx_buf reg value n : ℕ) (w : Adns k)
      → IsReady w
      → is_bad_buffer tx_buf ≡ false
      → ((adns7530_reg_write k off on config cs_pin t tx_buf reg value n w).1
          ≡ some (if n == 0 then eagain else eio))
        × (transfers
              (adns7530_reg_write k off on config cs_pin t tx_buf reg value n w).0.spi.actions
            ≡ (record { tx_buf = tx_buf; tx_len = 2; rx_buf = 0; rx_len = 0 })
              ∷ transfers w.spi.actions)
  unfolding adns7530_reg_write
  adns7530_reg_write-eio tx_buf reg value n w h a =
      let w' : Adns k = record w {
        memory =
            update (update w.memory tx_buf (bit_or 0x80 (bit_and reg 0x7f))) (suc tx_buf) value;
      } in
      let ready : IsReady w' = record { lock_free = h.lock_free; not_given = h.not_given } in
      adns7530_spi_transceive_write tx_buf 2 0 n w' ready a
