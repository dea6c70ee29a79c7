-- ===== src/Platform/Spi/Managed.antt =====
-- The lock and the chip select around a managed transfer.
use mymouse.Base.{
  ℕ, zero, suc, ◌-◌, ◌≡◌, ◌≢◌, true, false, not, none, some, ◌==◌, if◌then◌else◌, arith,
  Option-cases, inl, inr,
}
use mymouse.Platform.Spi.{
  Kernel, Spi, write_pin, sleep_us, Config, TransferSpec, thread, act, is_bad_buffer, cs_inact,
  exit, spi_lock, spi_unlock, spi_configure, spi_transceive, spi_irq_handler, sem_take,
  select_and_transceive, spi_transceive_managed,
}
use mymouse.Platform.Spi.Lock.{
  IsMutex, pin_level, Same, spi_transceive-Same, spi_configure-Same, spi_lock-pin, spi_unlock-pin,
  spi_unlock-mutex,
}

module _ (k : Kernel) {Cb W : Type 0} (spi : W → Spi k Cb) (with_spi : W → Spi k Cb → W)
    (call : Cb → W → W) (off on : ℕ) where
  -- The state of the driver is a part of the whole state, and a callback neither locks nor writes a
  -- pin.
  pub record IsPart : Type 0 where
    pub spi-with_spi : (w : W) (s : Spi k Cb) → spi (with_spi w s) ≡ s
    pub call-Same : (p : ℕ) (callback : Cb) (w : W) → Same k Cb p (spi w) (spi (call callback w))

  module _ (part : IsPart) (p : ℕ) where
    open part use {spi-with_spi, call-Same}

    spi_irq_handler-Same :
        (w : W) → Same k Cb p (spi w) (spi (spi_irq_handler k spi with_spi call off on w))
    unfolding spi_irq_handler
    spi_irq_handler-Same w = elim (Option-cases ((spi w).callback)) [
      | inl e ↦ ground (arith, e)
      | inr (callback, e) ↦
          let w1 = with_spi w (record (spi w) { in_spi_isr = true }) in
          let w2 = call callback w1 in
          ground (
            arith,
            e,
            spi-with_spi w (record (spi w) { in_spi_isr = true }),
            call-Same p callback w1,
            spi-with_spi w2 (record (spi w2) { in_spi_isr = false }),
          )
    ]

    sem_take-Same :
        (n : ℕ) (w : W) → Same k Cb p (spi w) (spi (sem_take k spi with_spi call off on n w).0)
    unfolding sem_take
    sem_take-Same zero w = elim (Option-cases (k.take (spi w).sem)) [
      | inl e ↦ ground (arith, e)
      | inr (sem, e) ↦ ground (arith, e, spi-with_spi w (record (spi w) { sem = sem }))
    ]
    sem_take-Same (suc n) w = elim (Option-cases (k.take (spi w).sem)) [
      | inl e ↦
          let w' = spi_irq_handler k spi with_spi call off on w in
          ground (arith, e, spi_irq_handler-Same w, sem_take-Same n w')
      | inr (sem, e) ↦ ground (arith, e, spi-with_spi w (record (spi w) { sem = sem }))
    ]

    select_and_transceive-pin :
        (t cs_pin : ℕ) (spec : TransferSpec) (callback : Cb) (n : ℕ) (w : W)
        → p ≢ cs_pin
        → Same k Cb p
            (spi w)
            (spi (select_and_transceive k spi with_spi call off on t cs_pin spec callback n w).0)
    unfolding select_and_transceive
    select_and_transceive-pin t cs_pin spec callback n w h =
        let low = act k Cb (write_pin cs_pin (not cs_inact)) (spi w) in
        let s = spi_transceive k Cb (thread t) spec callback low in
        let w1 = with_spi w s.0 in
        let r = sem_take k spi with_spi call off on n w1 in
        ground (
          arith,
          h,
          spi_transceive-Same k Cb p t spec callback low,
          spi-with_spi w s.0,
          sem_take-Same n w1,
          spi-with_spi r.0 (act k Cb (sleep_us 10) (spi r.0)),
        )

    select_and_transceive-mutex :
        (t cs_pin : ℕ) (spec : TransferSpec) (callback : Cb) (n : ℕ) (w : W)
        → (spi
            (select_and_transceive k spi with_spi call off on t cs_pin spec callback n w).0).mutex
          ≡ (spi w).mutex
    unfolding select_and_transceive
    select_and_transceive-mutex t cs_pin spec callback n w =
        let low = act k Cb (write_pin cs_pin (not cs_inact)) (spi w) in
        let s = spi_transceive k Cb (thread t) spec callback low in
        let w1 = with_spi w s.0 in
        let r = sem_take k spi with_spi call off on n w1 in
        ground (
          arith,
          spi_transceive-Same k Cb p t spec callback low,
          spi-with_spi w s.0,
          sem_take-Same n w1,
          spi-with_spi r.0 (act k Cb (sleep_us 10) (spi r.0)),
        )

    exit-pin :
        (t cs_pin : ℕ) (w : W)
        → pin_level p (spi (exit k spi with_spi call off on t cs_pin w)).actions
          ≡ (if p == cs_pin then some cs_inact else pin_level p (spi w).actions)
    exit-pin t cs_pin w =
        let high = act k Cb (write_pin cs_pin cs_inact) (spi w) in
        ground (
          arith,
          spi_unlock-pin k Cb p off on t high,
          spi-with_spi w (spi_unlock k Cb off on t high).0,
        )

    managed-pin :
        (t : ℕ) (config : Config) (cs_pin : ℕ) (spec : TransferSpec) (callback : Cb) (n : ℕ) (w : W)
        → pin_level p
            (spi
              (spi_transceive_managed k spi with_spi call off on t config cs_pin spec callback n
                w).0).actions
          ≡ (if p == cs_pin then some cs_inact else pin_level p (spi w).actions)
    unfolding spi_transceive_managed
    managed-pin t config cs_pin spec callback n w =
        let s1 = spi_lock k Cb off on t 100 (spi w) in
        let s2 = spi_configure k Cb off on (thread t) config s1.0 in
        let w3 =
          select_and_transceive k spi with_spi call off on t cs_pin spec callback n
            (with_spi w s2.0) in
        ground (
          arith,
          spi_lock-pin k Cb p off on t 100 (spi w),
          spi_configure-Same k Cb p off on t config s1.0,
          spi-with_spi w s1.0,
          spi-with_spi w s2.0,
          select_and_transceive-pin t cs_pin spec callback n (with_spi w s2.0),
          exit-pin t cs_pin (with_spi w s1.0),
          exit-pin t cs_pin (with_spi w s2.0),
          exit-pin t cs_pin w3.0,
        )

  module _ (part : IsPart) (laws : IsMutex k) where
    open part use {spi-with_spi}
    open laws use {holds, holds_owner, lock_ok, lock_fails, unlock_holds}

    exit-holds :
        (t cs_pin : ℕ) (w : W)
        → holds t (spi (exit k spi with_spi call off on t cs_pin w)).mutex
          ≡ holds t (spi w).mutex - 1
    exit-holds t cs_pin w =
        let high = act k Cb (write_pin cs_pin cs_inact) (spi w) in
        ground (
          arith,
          spi_unlock-mutex k Cb 0 off on t high,
          spi-with_spi w (spi_unlock k Cb off on t high).0,
          unlock_holds t (spi w).mutex,
        )

    managed-holds :
        (t : ℕ) (config : Config) (cs_pin : ℕ) (spec : TransferSpec) (callback : Cb) (n : ℕ) (w : W)
        → holds t (spi w).mutex ≡ 0
        → holds t
            (spi
              (spi_transceive_managed k spi with_spi call off on t config cs_pin spec callback n
                w).0).mutex
          ≡ 0
    unfolding spi_transceive_managed spi_lock
    managed-holds t config cs_pin spec callback n w h =
        let s1 = spi_lock k Cb off on t 100 (spi w) in
        let s2 = spi_configure k Cb off on (thread t) config s1.0 in
        let w3 =
          select_and_transceive k spi with_spi call off on t cs_pin spec callback n
            (with_spi w s2.0) in
        ground (
          arith,
          h,
          lock_ok t 100 (spi w).mutex,
          lock_fails t 100 (spi w).mutex,
          spi_configure-Same k Cb 0 off on t config s1.0,
          spi-with_spi w s1.0,
          spi-with_spi w s2.0,
          select_and_transceive-mutex part 0 t cs_pin spec callback n (with_spi w s2.0),
          exit-holds t cs_pin (with_spi w s1.0),
          exit-holds t cs_pin (with_spi w s2.0),
          exit-holds t cs_pin w3.0,
        )

    -- Whatever fails or times out, and whatever the callbacks do with the bus: after
    -- `spi_transceive_managed` the thread does not hold the lock of the bus, as before, the chip
    -- select of the device is inactive, and every other pin has the level that it had before.
    pub spi_transceive_managed-pins :
        (t : ℕ) (config : Config) (cs_pin : ℕ) (spec : TransferSpec) (callback : Cb) (n : ℕ) (w : W)
        → holds t (spi w).mutex ≡ 0
        → (holds t
              (spi
                (spi_transceive_managed k spi with_spi call off on t config cs_pin spec callback n
                  w).0).mutex
            ≡ 0)
          × ((p : ℕ)
              → pin_level p
                  (spi
                    (spi_transceive_managed k spi with_spi call off on t config cs_pin spec callback
                      n w).0).actions
                ≡ (if p == cs_pin then some cs_inact else pin_level p (spi w).actions))
    spi_transceive_managed-pins t config cs_pin spec callback n w h = (
      managed-holds t config cs_pin spec callback n w h,
      λ p. managed-pin part p t config cs_pin spec callback n w,
    )

    -- If the semaphore still has a count, which an interrupt after a timeout leaves, a managed
    -- transfer that gets the lock and starts returns 0 at once, before any interrupt has come.
    spi_transceive_managed_early :
        (t : ℕ) (config : Config) (cs_pin : ℕ) (spec : TransferSpec) (callback : Cb) (w : W)
        (sem : k.Sem)
        → k.take (spi w).sem ≡ some sem
        → (k.lock t 100 (spi w).mutex).1 ≡ none
        → is_bad_buffer spec.tx_buf ≡ false
        → is_bad_buffer spec.rx_buf ≡ false
        → (spi_transceive_managed k spi with_spi call off on t config cs_pin spec callback 0 w).1
          ≡ none
    unfolding spi_transceive_managed select_and_transceive spi_lock spi_configure spi_transceive
        sem_take
    spi_transceive_managed_early t config cs_pin spec callback w sem given locked tx rx =
        let s1 = spi_lock k Cb off on t 100 (spi w) in
        let s2 = spi_configure k Cb off on (thread t) config s1.0 in
        let w2 = with_spi w s2.0 in
        let s3 =
          spi_transceive k Cb (thread t) spec callback
            (act k Cb (write_pin cs_pin (not cs_inact)) (spi w2)) in
        ground (
          arith,
          given,
          locked,
          tx,
          rx,
          lock_ok t 100 (spi w).mutex,
          holds_owner t s1.0.mutex,
          spi-with_spi w s2.0,
          spi-with_spi w2 s3.0,
        )
