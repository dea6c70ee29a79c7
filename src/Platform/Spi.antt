-- ===== src/Platform/Spi.antt =====
-- app-nrf/src/platform/spi.c and the types of app-nrf/include/platform/spi.h: the lock of the bus,
-- its configuration, and transfers. The kernel's mutex and semaphore are the parameter `Kernel`; the
-- hardware is what was written to it. A result of `none` is 0. Addresses are numbers, and 0 is NULL.
pub mod Lock
pub mod Managed
pub mod Configured
pub mod Simple
mod Tests
use Prim.Native.Nat.{bit_and}
use mymouse.Base.{
  ℕ, zero, suc, Bool, true, false, not, ◌&&◌, ◌||◌, List, [], ◌∷◌, Option, none, some, ltb, ◌==◌,
  if◌then◌else◌, Errno, eperm, einval, eagain,
}

-- The mutex and the semaphore; the thread and the timeout in milliseconds are the arguments of
-- `lock`. `take` is `none` if the count is 0.
pub record Kernel : Type 1 where
  pub Mutex : Type 0
  pub Sem : Type 0
  pub lock : ℕ → ℕ → Mutex → Mutex × Option Errno
  pub unlock : ℕ → Mutex → Mutex × Option Errno
  pub owner : Mutex → Option ℕ
  pub give : Sem → Sem
  pub take : Sem → Option Sem

-- What runs: a thread, or an interrupt handler.
pub data Caller : Type 0 where
  thread : ℕ → Caller
  isr : Caller

pub record Settings : Type 0 where
  pub op_mode : ℕ
  pub bit_order : ℕ
  pub freq : ℕ

-- A `struct spi_configuration` with its address.
pub record Config : Type 0 where
  pub address : ℕ
  pub settings : Settings
  pub is_const : Bool

pub record TransferSpec : Type 0 where
  pub tx_buf : ℕ
  pub tx_len : ℕ
  pub rx_buf : ℕ
  pub rx_len : ℕ

-- What the driver does to the bus, to the pins and to its delayed work, the newest first.
pub data Action : Type 0 where
  write_pin : ℕ → Bool → Action
  start : TransferSpec → Action
  sleep_us : ℕ → Action
  schedule_disable_sck : ℕ → Action
  cancel_disable_sck : Action

-- NRF_SPIM_MODE_2 and NRF_SPIM_MODE_3.
abbrev pub is_sck_inactive_high : ℕ → Bool
is_sck_inactive_high mode = (mode == 2) || (mode == 3)

abbrev pub is_addr_in_ram : ℕ → Bool
is_addr_in_ram ptr = bit_and ptr 0xE0000000 == 0x20000000

abbrev pub is_bad_buffer : ℕ → Bool
is_bad_buffer ptr = not (ptr == 0) && not (is_addr_in_ram ptr)

-- `config == prev_config`.
abbrev pub is_at : ℕ → Option Config → Bool
is_at address none = false
is_at address (some config) = config.address == address

abbrev pub is_high : Option Config → Bool
is_high none = false
is_high (some config) = is_sck_inactive_high config.settings.op_mode

abbrev pub is_owner : ℕ → Option ℕ → Bool
is_owner t none = false
is_owner t (some u) = u == t

abbrev pub cs_inact : Bool
cs_inact = true

module _ (k : Kernel) (Cb : Type 0) where
  open k use {Mutex, Sem, lock, unlock, owner}

  pub record Spi : Type 0 where
    pub mutex : Mutex
    pub sem : Sem  -- spi_sync_sem
    pub in_spi_isr : Bool
    pub prev_config : Option Config
    pub callback : Option Cb  -- spi_isr_ctx
    pub hardware : Settings
    pub actions : List Action

  abbrev pub act : Action → Spi → Spi
  act a s = record s { actions = a ∷ s.actions }

  abbrev pub check_lock_owned : Caller → Spi → Option Errno
  check_lock_owned isr s = if not s.in_spi_isr then some eperm else none
  check_lock_owned (thread t) s = if not (is_owner t (owner s.mutex)) then some eperm else none

  abbrev pub disable_sck : Spi → Spi
  disable_sck s = record s {
    hardware = record { op_mode = 0; bit_order = 0; freq = s.hardware.freq };
    prev_config = none;
  }

  -- CONFIG_SPI_DISABLE_CLK_DELAY and CONFIG_SPI_ENABLE_CLK_DELAY; 0 compiles the delay out.
  module _ (disable_clk_delay enable_clk_delay : ℕ) where
    unfoldable pub spi_lock : ℕ → ℕ → Spi → Spi × Option Errno
    spi_lock t timeout s =
        let (m, rc) = lock t timeout s.mutex in
        let s' = record s { mutex = m } in
        (if ltb 0 disable_clk_delay then act cancel_disable_sck s' else s', rc)

    unfoldable pub spi_unlock : ℕ → Spi → Spi × Option Errno
    spi_unlock t s =
        let (m, rc) = unlock t s.mutex in
        let s' = record s { mutex = m } in
        elim rc [
          | some e ↦ (s', some e)
          | none ↦ (
            if ltb 0 disable_clk_delay && is_high s'.prev_config
                then act (schedule_disable_sck disable_clk_delay) s'
                else s',
            none,
          )
        ]

    unfoldable pub spi_configure : Caller → Config → Spi → Spi × Option Errno
    spi_configure caller config s = elim (check_lock_owned caller s) [
      | some e ↦ (s, some e)
      | none ↦
          let s' = record s { hardware = config.settings; prev_config = some config } in
          if config.is_const && is_at config.address s.prev_config then (s, none) else (
            if ltb 0 enable_clk_delay
                  && not (is_high s.prev_config)
                  && is_sck_inactive_high config.settings.op_mode
                then act (sleep_us enable_clk_delay) s'
                else s',
            none,
          )
    ]

  unfoldable pub spi_transceive : Caller → TransferSpec → Cb → Spi → Spi × Option Errno
  spi_transceive caller spec callback s = elim (check_lock_owned caller s) [
    | some e ↦ (s, some e)
    | none ↦
        if is_bad_buffer spec.tx_buf || is_bad_buffer spec.rx_buf
        then (s, some einval)
        else (act (start spec) (record s { callback = some callback }), none)
  ]

-- The driver's state is a part of the whole state `W`, on which its callbacks work.
module _ (k : Kernel) {Cb W : Type 0} (spi : W → Spi k Cb) (with_spi : W → Spi k Cb → W)
    (call : Cb → W → W) (disable_clk_delay enable_clk_delay : ℕ) where
  unfoldable pub spi_irq_handler : W → W
  spi_irq_handler w = elim ((spi w).callback) [
    | none ↦ w
    | some callback ↦
        let w' = call callback (with_spi w (record (spi w) { in_spi_isr = true })) in
        with_spi w' (record (spi w') { in_spi_isr = false })
  ]

  -- `k_sem_take` of a thread, where this many interrupts of the driver come before the timeout.
  unfoldable pub sem_take : ℕ → W → W × Option Errno
  sem_take zero w = elim (k.take (spi w).sem) [
    | some sem ↦ (with_spi w (record (spi w) { sem = sem }), none)
    | none ↦ (w, some eagain)
  ]
  sem_take (suc n) w =
      let rest = sem_take n (spi_irq_handler w) in
      elim (k.take (spi w).sem) [
        | some sem ↦ (with_spi w (record (spi w) { sem = sem }), none)
        | none ↦ rest
      ]

  -- Here `callback` is spi_transceive_sync_callback. The wait has no timeout: `none` if the
  -- semaphore is not given.
  unfoldable pub spi_transceive_sync :
      Caller → TransferSpec → Cb → ℕ → W → Option (W × Option Errno)
  spi_transceive_sync caller spec callback interrupts w =
      let (s, rc) = spi_transceive k Cb caller spec callback (spi w) in
      let (w', rc') = sem_take interrupts (with_spi w s) in
      elim rc [
        | some e ↦ some (with_spi w s, some e)
        | none ↦ elim rc' [ none ↦ some (w', none) | some e ↦ none ]
      ]

  -- The label `exit` of `spi_transceive_managed`.
  abbrev pub exit : ℕ → ℕ → W → W
  exit t cs_pin w =
      with_spi w
        (spi_unlock k Cb disable_clk_delay enable_clk_delay t
          (act k Cb (write_pin cs_pin cs_inact) (spi w))).0

  -- The part of `spi_transceive_managed` from the chip select on.
  unfoldable pub select_and_transceive : ℕ → ℕ → TransferSpec → Cb → ℕ → W → W × Option Errno
  select_and_transceive t cs_pin spec callback interrupts w =
      let (s, rc) =
        spi_transceive k Cb (thread t) spec callback
          (act k Cb (write_pin cs_pin (not cs_inact)) (spi w)) in
      let (w', rc') = sem_take interrupts (with_spi w s) in
      elim rc [
        | some e ↦ (with_spi w s, some e)
        | none ↦ elim rc' [
          | some e ↦ (w', some e)
          | none ↦ (with_spi w' (act k Cb (sleep_us 10) (spi w')), none)
        ]
      ]

  unfoldable pub spi_transceive_managed :
      ℕ → Config → ℕ → TransferSpec → Cb → ℕ → W → W × Option Errno
  spi_transceive_managed t config cs_pin spec callback interrupts w =
      let (s, rc) = spi_lock k Cb disable_clk_delay enable_clk_delay t 100 (spi w) in
      let (s', rc') = spi_configure k Cb disable_clk_delay enable_clk_delay (thread t) config s in
      let (w', rc'') = select_and_transceive t cs_pin spec callback interrupts (with_spi w s') in
      elim rc [
        | some e ↦ (exit t cs_pin (with_spi w s), some e)
        | none ↦ elim rc' [
          | some e ↦ (exit t cs_pin (with_spi w s'), some e)
          | none ↦ (exit t cs_pin w', rc'')
        ]
      ]
