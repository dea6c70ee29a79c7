-- ===== src/Avr/Transfer/Bus.antt =====
-- What a command to the AVR puts on the bus, and what its result says.
use mymouse.Base.{
  length, ◌≤◌, ℕ, zero, suc, ◌≡◌, ◌∙◌, ap, refl, true, false, List, ◌∷◌, Option, none, some, ◌==◌,
  ◌||◌, not, if◌then◌else◌, Errno, eio, eagain, ebusy, ok, err, Bool-cases, inl, inr, arith,
}
use mymouse.Platform.Spi.{
  Kernel, Config, TransferSpec, thread, start, write_pin, act, spi_lock, spi_unlock, spi_configure,
  spi_transceive, spi_irq_handler, sem_take, select_and_transceive, spi_transceive_managed,
  is_bad_buffer,
}
use mymouse.Platform.Spi.Lock.{IsMutex, IsSem, transfers}
use mymouse.Avr.Master.{check_crc, result_of, handshake_rx_value}
use mymouse.Avr.Transfer.{
  Link, Callback, avr_spi_done_callback, with_spi, call, spi_done_callback, handshake, transceive,
  check_data,
}

module _ (k : Kernel) (mutex : IsMutex k) (sem : IsSem k) (off on : ℕ) (config : Config)
    (cs_pin t tx_buf rx_buf answer : ℕ) where
  open mutex use {lock_ok, holds_owner}
  open sem use {taken}

  -- The wait, where the next interrupt gives the semaphore: the handshake was refused, or the payload
  -- is on its way.
  waiting_last :
      (n : ℕ) (e : Option Errno) (w w' : Link k)
      → k.take w.spi.sem ≡ none
      → spi_irq_handler k (λ v. v.spi) (with_spi k) (call k answer) off on w ≡ w'
      → w'.error ≡ e
      → k.take w'.spi.sem ≡ some w.spi.sem
      → transfers w'.spi.actions ≡ transfers w.spi.actions
      → let r = sem_take k (λ v. v.spi) (with_spi k) (call k answer) off on (suc n) w in
        (r.1 ≡ none) × (r.0.error ≡ e) × (transfers r.0.spi.actions ≡ transfers w.spi.actions)
  unfolding sem_take
  waiting_last zero e w w' f i r g a = ground (arith, f, i, r, g, a)
  waiting_last (suc n) e w w' f i r g a = ground (arith, f, i, r, g, a)

  sem_take_step :
      (n : ℕ) (w : Link k)
      → k.take w.spi.sem ≡ none
      → sem_take k (λ v. v.spi) (with_spi k) (call k answer) off on (suc n) w
        ≡ sem_take k
            (λ v. v.spi)
            (with_spi k)
            (call k answer)
            off
            on
            n
            (spi_irq_handler k (λ v. v.spi) (with_spi k) (call k answer) off on w)
  unfolding sem_take
  sem_take_step n w e = ground (arith, e)

  -- The interrupt after the handshake, where the AVR did not answer it.
  irq_refused :
      (w : Link k) (payload : TransferSpec)
      → (answer == handshake_rx_value) ≡ false
      → w.spec ≡ some payload
      → w.spi.callback ≡ some avr_spi_done_callback
      → spi_irq_handler k (λ v. v.spi) (with_spi k) (call k answer) off on w ≡ record w {
        error = some ebusy;
        spi = record (w.spi) { in_spi_isr = false; sem = k.give w.spi.sem };
      }
  unfolding spi_irq_handler spi_done_callback
  irq_refused w payload r d c = ground (arith, r, d, c)

  -- The interrupt after the handshake, where it did.
  irq_answered :
      (w : Link k) (payload : TransferSpec)
      → (answer == handshake_rx_value) ≡ true
      → w.spec ≡ some payload
      → is_bad_buffer payload.tx_buf ≡ false
      → is_bad_buffer payload.rx_buf ≡ false
      → w.spi.callback ≡ some avr_spi_done_callback
      → spi_irq_handler k (λ v. v.spi) (with_spi k) (call k answer) off on w ≡ record w {
        error = none;
        spec = none;
        spi = record (w.spi) {
          in_spi_isr = false;
          callback = some avr_spi_done_callback;
          actions = start payload ∷ w.spi.actions;
        };
      }
  unfolding spi_irq_handler spi_done_callback spi_transceive
  irq_answered w payload r d b b' c = ground (arith, r, d, b, b', c)

  -- The interrupt after the payload.
  irq_done :
      (w : Link k)
      → w.spec ≡ none
      → w.spi.callback ≡ some avr_spi_done_callback
      → spi_irq_handler k (λ v. v.spi) (with_spi k) (call k answer) off on w
        ≡ record w { spi = record (w.spi) { in_spi_isr = false; sem = k.give w.spi.sem } }
  unfolding spi_irq_handler spi_done_callback
  irq_done w d c = ground (arith, d, c)

  waiting_refused :
      (n : ℕ) (w : Link k) (payload : TransferSpec)
      → (answer == handshake_rx_value) ≡ false
      → k.take w.spi.sem ≡ none
      → w.spec ≡ some payload
      → w.spi.callback ≡ some avr_spi_done_callback
      → let r = sem_take k (λ v. v.spi) (with_spi k) (call k answer) off on (suc n) w in
        (r.1 ≡ none)
        × (r.0.error ≡ some ebusy)
        × (transfers r.0.spi.actions ≡ transfers w.spi.actions)
  waiting_refused n w payload r f d c =
      waiting_last n (some ebusy) w _ f (irq_refused w payload r d c) refl (taken w.spi.sem f) refl

  waiting_data :
      (n : ℕ) (w : Link k)
      → k.take w.spi.sem ≡ none
      → w.spec ≡ none
      → w.error ≡ none
      → w.spi.callback ≡ some avr_spi_done_callback
      → let r = sem_take k (λ v. v.spi) (with_spi k) (call k answer) off on n w in
        (r.1 ≡ (if n == 0 then some eagain else none))
        × (r.0.error ≡ none)
        × (transfers r.0.spi.actions ≡ transfers w.spi.actions)
  unfolding sem_take
  waiting_data zero w f d e c = ground (arith, f, e)
  waiting_data (suc n) w f d e c =
      let nonzero : (suc n == 0) ≡ false = ground arith in
      rw nonzero (waiting_last n none w _ f (irq_done w d c) e (taken w.spi.sem f) refl)

  waiting_answered :
      (n : ℕ) (w : Link k) (payload : TransferSpec)
      → (answer == handshake_rx_value) ≡ true
      → k.take w.spi.sem ≡ none
      → w.spec ≡ some payload
      → is_bad_buffer payload.tx_buf ≡ false
      → is_bad_buffer payload.rx_buf ≡ false
      → w.spi.callback ≡ some avr_spi_done_callback
      → let r = sem_take k (λ v. v.spi) (with_spi k) (call k answer) off on (suc n) w in
        (r.1 ≡ (if n == 0 then some eagain else none))
        × (r.0.error ≡ none)
        × (transfers r.0.spi.actions ≡ payload ∷ transfers w.spi.actions)
  waiting_answered n w payload r f d b b' c =
      rw (sem_take_step n w f, irq_answered w payload r d b b' c)
        (waiting_data n _ f refl refl refl)

  waiting_none :
      (w : Link k)
      → k.take w.spi.sem ≡ none
      → let r = sem_take k (λ v. v.spi) (with_spi k) (call k answer) off on 0 w in
        (r.1 ≡ some eagain) × (transfers r.0.spi.actions ≡ transfers w.spi.actions)
  unfolding sem_take
  waiting_none w f = ground (arith, f)

  -- The lock is free for the thread, the semaphore has no count, and the buffers are in RAM.
  pub record IsReady (payload : TransferSpec) (w : Link k) : Type 0 where
    pub lock_free : (k.lock t 100 w.spi.mutex).1 ≡ none
    pub not_given : k.take w.spi.sem ≡ none
    pub tx_good : is_bad_buffer tx_buf ≡ false
    pub rx_good : is_bad_buffer rx_buf ≡ false
    pub payload_tx_good : is_bad_buffer payload.tx_buf ≡ false
    pub payload_rx_good : is_bad_buffer payload.rx_buf ≡ false

  -- The state when the handshake has started.
  abbrev started : TransferSpec → Link k → Link k
  started payload w =
      let w0 : Link k = record w { error = some eio; spec = some payload } in
      let s1 = spi_lock k Callback off on t 100 w0.spi in
      let s2 = spi_configure k Callback off on (thread t) config s1.0 in
      let s3 =
        spi_transceive k Callback (thread t) (handshake k off on config cs_pin t tx_buf rx_buf)
          avr_spi_done_callback (act k Callback (write_pin cs_pin false) s2.0) in
      with_spi k w0 s3.0

  started-facts :
      (payload : TransferSpec) (w : Link k)
      → IsReady payload w
      → let s = started payload w in
        (k.take s.spi.sem ≡ none)
        × (s.spec ≡ some payload)
        × (s.spi.callback ≡ some avr_spi_done_callback)
        × (transfers s.spi.actions
            ≡ handshake k off on config cs_pin t tx_buf rx_buf ∷ transfers w.spi.actions)
  unfolding spi_lock spi_configure spi_transceive
  started-facts payload w h =
      let s1 = spi_lock k Callback off on t 100 w.spi in
      ground (arith, h, lock_ok t 100 w.spi.mutex, holds_owner t s1.0.mutex)

  -- What the wait leaves is the result.
  transceive-waited :
      (payload : TransferSpec) (response : List ℕ) (n : ℕ) (w : Link k)
      → IsReady payload w
      → let r = sem_take k (λ v. v.spi) (with_spi k) (call k answer) off on n (started payload w) in
        let sent = transceive k off on config cs_pin t tx_buf rx_buf payload answer response n w in
        (sent.1 ≡ result_of r.1 (result_of r.0.error (check_data payload response)))
        × (transfers sent.0.spi.actions ≡ transfers r.0.spi.actions)
  unfolding transceive spi_transceive_managed select_and_transceive spi_transceive spi_lock
      spi_configure spi_unlock
  transceive-waited payload response n w h =
      let s1 = spi_lock k Callback off on t 100 w.spi in
      ground (arith, h, lock_ok t 100 w.spi.mutex, holds_owner t s1.0.mutex)

  -- A command starts the transfer of its data exactly if the first byte of the AVR's answer to the
  -- handshake is 0x43 and the handshake ends before the timeout; the handshake is started first, and
  -- each of the two once. The result is EBUSY for another answer, EAGAIN where a transfer does not
  -- end, and otherwise 0, unless bytes are received and their checksum is wrong, which gives EIO. The
  -- response has the length that is asked for, at most 256 bytes; the lock of the bus
  -- is free, its semaphore has no count, and the buffers are in RAM.
  pub transceive-transfers :
      (payload : TransferSpec) (response : List ℕ) (n : ℕ) (w : Link k)
      → IsReady payload w
      → length response ≡ payload.rx_len
      → payload.rx_len ≤ 256
      → let sent = transceive k off on config cs_pin t tx_buf rx_buf payload answer response n w in
        (sent.1 ≡ (
          if n == 0
          then err eagain
          else (if not (answer == handshake_rx_value)
              then err ebusy
              else (if n == 1
                  then err eagain
                  else (if payload.rx_len == 0 || check_crc 0 response then ok 0 else err eio)))))
        × (transfers sent.0.spi.actions ≡ (
            if n == 0 || not (answer == handshake_rx_value)
            then handshake k off on config cs_pin t tx_buf rx_buf ∷ transfers w.spi.actions
            else payload
              ∷ handshake k off on config cs_pin t tx_buf rx_buf
              ∷ transfers w.spi.actions))
  transceive-transfers payload response zero w h size small =
      let (f, d, c, a) = started-facts payload w h in
      let (r, b) = transceive-waited payload response 0 w h in
      let (managed, bus) = waiting_none (started payload w) f in (r ∙ rw managed refl, b ∙ bus ∙ a)
  transceive-transfers payload response (suc n) w h size small =
      let (f, d, c, a) = started-facts payload w h in
      let (r, b) = transceive-waited payload response (suc n) w h in
      let nonzero : (suc n == 0) ≡ false = ground arith in
      elim (Bool-cases (answer == handshake_rx_value)) [
        | inl e ↦
            let (managed, error, bus) =
              waiting_answered n (started payload w) payload e f d h.payload_tx_good
                h.payload_rx_good c in
            (
              r ∙ ground (arith, managed, error, e),
              rw (nonzero, e) (b ∙ bus ∙ ap (λ (l : List TransferSpec). payload ∷ l) a),
            )
        | inr e ↦
            let (managed, error, bus) = waiting_refused n (started payload w) payload e f d c in
            (r ∙ ground (arith, managed, error, e), rw (nonzero, e) (b ∙ bus ∙ a))
      ]
