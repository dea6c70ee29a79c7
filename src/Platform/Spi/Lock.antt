-- ===== src/Platform/Spi/Lock.antt =====
-- What the kernel documents of its mutex, and what the steps of a transfer keep.
use mymouse.Base.{
  ℕ, suc, ◌-◌, ◌<◌, ◌≡◌, ◌≢◌, Bool, List, [], ◌∷◌, Option, none, some, ◌==◌, if◌then◌else◌, arith,
}
use mymouse.Platform.Spi.{
  Kernel, Spi, Action, write_pin, start, sleep_us, schedule_disable_sck, cancel_disable_sck, Config,
  TransferSpec, thread, spi_lock, spi_unlock, spi_configure, spi_transceive,
}

-- What the kernel documents of k_mutex_lock and k_mutex_unlock: `holds t m` is how many times the
-- thread `t` holds the mutex.
pub record IsMutex (k : Kernel) : Type 0 where
  pub holds : ℕ → k.Mutex → ℕ
  pub holds_owner : (t : ℕ) (m : k.Mutex) → 0 < holds t m → k.owner m ≡ some t
  pub lock_ok :
      (t d : ℕ) (m : k.Mutex) → (k.lock t d m).1 ≡ none → holds t (k.lock t d m).0 ≡ suc (holds t m)
  pub lock_fails :
      (t d : ℕ) (m : k.Mutex) → (k.lock t d m).1 ≢ none → holds t (k.lock t d m).0 ≡ holds t m
  pub unlock_holds : (t : ℕ) (m : k.Mutex) → holds t (k.unlock t m).0 ≡ holds t m - 1

-- What the kernel documents of a semaphore.
pub record IsSem (k : Kernel) : Type 0 where
  pub taken : (s : k.Sem) → k.take s ≡ none → (k.take (k.give s)) ≡ some s

-- The transfers that were started, the newest first.
abbrev pub transfers : List Action → List TransferSpec
transfers [] = []
transfers (start spec ∷ actions) = spec ∷ transfers actions
transfers (write_pin q level ∷ actions) = transfers actions
transfers (sleep_us n ∷ actions) = transfers actions
transfers (schedule_disable_sck n ∷ actions) = transfers actions
transfers (cancel_disable_sck ∷ actions) = transfers actions

-- The level that was last written to a pin.
abbrev pub pin_level : ℕ → List Action → Option Bool
pin_level p [] = none
pin_level p (write_pin q level ∷ actions) = if p == q then some level else pin_level p actions
pin_level p (start spec ∷ actions) = pin_level p actions
pin_level p (sleep_us n ∷ actions) = pin_level p actions
pin_level p (schedule_disable_sck n ∷ actions) = pin_level p actions
pin_level p (cancel_disable_sck ∷ actions) = pin_level p actions

module _ (k : Kernel) (Cb : Type 0) (p : ℕ) where
  -- The mutex and the level of the pin are the same.
  pub record Same (s s' : Spi k Cb) : Type 0 where
    pub mutex_same : s'.mutex ≡ s.mutex
    pub pin_same : pin_level p s'.actions ≡ pin_level p s.actions

  pub spi_transceive-Same :
      (t : ℕ) (spec : TransferSpec) (callback : Cb) (s : Spi k Cb)
      → Same s (spi_transceive k Cb (thread t) spec callback s).0
  unfolding spi_transceive
  spi_transceive-Same t spec callback s = ground arith

  module _ (d e : ℕ) where
    pub spi_configure-Same :
        (t : ℕ) (config : Config) (s : Spi k Cb)
        → Same s (spi_configure k Cb d e (thread t) config s).0
    unfolding spi_configure
    spi_configure-Same t config s = ground arith

    pub spi_lock-pin :
        (t timeout : ℕ) (s : Spi k Cb)
        → pin_level p (spi_lock k Cb d e t timeout s).0.actions ≡ pin_level p s.actions
    unfolding spi_lock
    spi_lock-pin t timeout s = ground arith

    pub spi_unlock-pin :
        (t : ℕ) (s : Spi k Cb)
        → pin_level p (spi_unlock k Cb d e t s).0.actions ≡ pin_level p s.actions
    unfolding spi_unlock
    spi_unlock-pin t s = ground arith

    pub spi_unlock-mutex :
        (t : ℕ) (s : Spi k Cb) → (spi_unlock k Cb d e t s).0.mutex ≡ (k.unlock t s.mutex).0
    unfolding spi_unlock
    spi_unlock-mutex t s = ground arith
