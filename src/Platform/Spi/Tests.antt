-- ===== src/Platform/Spi/Tests.antt =====
-- The driver with the simple mutex: the whole state is the driver's, and its one callback gives the
-- semaphore.
use mymouse.Base.{
  ℕ, ◌≡◌, refl, true, false, Option, none, some, [], ◌∷◌, ◌==◌, if◌then◌else◌, arith,
}
use mymouse.Platform.Spi.{
  Spi, Settings, Config, TransferSpec, thread, write_pin, spi_transceive_managed, spi_configure,
  spi_lock,
}
use mymouse.Platform.Spi.Lock.{pin_level}
use mymouse.Platform.Spi.Managed.{IsPart, spi_transceive_managed-pins}
use mymouse.Platform.Spi.Configured.{
  lock_call, configure_call, disable_sck_call, run_calls, spi_configure-settings,
}
use mymouse.Platform.Spi.Simple.{simple, simple-IsMutex, simple-not_held}

data Callback : Type 0 where
  give : Callback

abbrev Driver : Type 0
Driver = Spi simple Callback

abbrev call : Callback → Driver → Driver
call give s = record s { sem = simple.give s.sem }

abbrev fast : Settings
fast = record { op_mode = 3; bit_order = 0; freq = 8 }

abbrev config : Config
config = record { address = 100; settings = fast; is_const = true }

abbrev spec : TransferSpec
spec = record { tx_buf = 0x20000004; tx_len = 2; rx_buf = 0; rx_len = 0 }

abbrev at_rest : Driver
at_rest = record {
  mutex = none;
  sem = 0;
  in_spi_isr = false;
  prev_config = none;
  callback = none;
  hardware = record { op_mode = 0; bit_order = 0; freq = 1 };
  actions = write_pin 9 false ∷ [];
}

part : IsPart simple (λ (s : Driver). s) (λ s s'. s') call 2000 500
part = record {
  spi-with_spi = λ w s. refl;
  call-Same = λ p callback w. record { mutex_same = ground arith; pin_same = ground arith };
}

spi_transceive_managed-pins_example :
    (simple-IsMutex.holds 1
        (spi_transceive_managed simple
          (λ (s : Driver). s)
          (λ s s'. s')
          call
          2000
          500
          1
          config
          4
          spec
          give
          0
          at_rest).0.mutex
      ≡ 0)
    × ((p : ℕ)
        → pin_level p
            (spi_transceive_managed simple
              (λ (s : Driver). s)
              (λ s s'. s')
              call
              2000
              500
              1
              config
              4
              spec
              give
              0
              at_rest).0.actions
          ≡ (if p == 4 then some true else pin_level p at_rest.actions))
spi_transceive_managed-pins_example =
    spi_transceive_managed-pins simple (λ (s : Driver). s) (λ s s'. s') call 2000 500 part
      simple-IsMutex 1 config 4 spec give 0 at_rest (simple-not_held 1)

abbrev rom : ℕ → Option Settings
rom a = if a == 100 then some fast else none

spi_configure-settings_example :
    (spi_configure simple Callback 2000 500 (thread 1) config (
      run_calls simple Callback 2000 500
        (lock_call 1 100 ∷ configure_call (thread 1) config ∷ disable_sck_call ∷ [])
        at_rest)).0.hardware
    ≡ fast
unfolding spi_lock spi_configure
spi_configure-settings_example =
    spi_configure-settings simple Callback 2000 500 rom
      (lock_call 1 100 ∷ configure_call (thread 1) config ∷ disable_sck_call ∷ []) (thread 1) config
      at_rest refl (refl, tt) refl refl
